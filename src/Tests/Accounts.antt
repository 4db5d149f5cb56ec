-- ===== src/Tests/Accounts.antt =====
-- Runs on the accounts of the web application.
use Prim.Native.String.{◌++◌ as text_append}
use church_presenter.Common.{
  String, ◌≡◌, refl, Bool, true, false, some, List, [], ◌∷◌, ◌++◌, any, find, keep, not, ◌&&◌, All,
  str_eq,
}
use church_presenter.Common.Texts.{trim}
use church_presenter.Common.Outcome.{done}
use church_presenter.Accounts.{
  AppRole, admin, responsable_chantre, chantre, level, User, Session, CreateUser, has_user_id,
  session_of, is_user_key_taken, allowed_roles_to_assign, update_user, write_user, create_user,
  delete_user, authorize,
}
use church_presenter.Accounts.Safety.{IsKept, IsCreated, update_user-IsKept, create_user_below}
use church_presenter.Accounts.Sessions.{
  has_login, new_password, delete_user-inactive, authorize-update_user,
}

abbrev hash : String → String
hash password = text_append "$" password

abbrev matches : String → String → Bool
matches password hashed = str_eq (hash password) hashed

abbrev account : String → AppRole → Bool → User
account id role active = record {
  id = id;
  first_name = "Anne";
  last_name = "Martin";
  username = text_append id "_user";
  name = "Anne Martin";
  email = text_append id "@eglise.org";
  password_hash = hash "secret";
  role = role;
  is_active = active;
}

abbrev accounts : List User
accounts =
    account "root" admin true
    ∷ account "lead" responsable_chantre true
    ∷ account "gone" admin false
    ∷ []

abbrev lead : Session
lead = record { id = "lead"; role = "RESPONSABLE_CHANTRE" }

running : Unit {0}
unfolding level is_user_key_taken allowed_roles_to_assign update_user write_user create_user
    delete_user any find keep
running = tt

abbrev newcomer : CreateUser
newcomer = record {
  first_name = "Paul";
  last_name = "Petit";
  username = "paul";
  email = "paul@eglise.org";
  password = "motdepasse";
  role = chantre;
}

abbrev with_newcomer : List User
with_newcomer =
    accounts
    ++ record {
      id = "new";
      first_name = "Paul";
      last_name = "Petit";
      username = "paul";
      name = trim "Paul Petit";
      email = "paul@eglise.org";
      password_hash = hash "motdepasse";
      role = chantre;
      is_active = true;
    }
      ∷ []

created : create_user hash matches (some lead) newcomer "new" accounts ≡ done with_newcomer
unfolding running
created = refl

create_user_below_example : IsCreated lead newcomer accounts with_newcomer
create_user_below_example =
    create_user_below hash matches lead newcomer "new" accounts with_newcomer created

abbrev root_changed : List User
root_changed =
    record (account "root" admin true) { password_hash = hash "nouveau" }
    ∷ account "lead" responsable_chantre true
    ∷ account "gone" admin false
    ∷ []

changed :
    update_user hash matches (some lead) "root" (new_password "nouveau") accounts
    ≡ done root_changed
unfolding running
changed = refl

update_user-IsKept_example : All (IsKept lead accounts) root_changed
update_user-IsKept_example =
    update_user-IsKept hash matches lead "root" (new_password "nouveau") accounts root_changed refl
      changed

root_login : find (has_login "root_user") accounts ≡ some (account "root" admin true)
unfolding running
root_login = refl

root_id : find (has_user_id "root") accounts ≡ some (account "root" admin true)
unfolding running
root_id = refl

root_unique :
    is_user_key_taken
      (account "root" admin true)
      (keep (λ other. not (has_user_id "root" other)) accounts)
    ≡ false
unfolding running
root_unique = refl

authorize-update_user_example :
    (end : List User) × (update_user hash matches
        (some lead)
        "root"
        (new_password "nouveau")
        accounts
      ≡ done end)
    × (authorize hash matches "root_user" "nouveau" end
        ≡ some (record { id = "root"; role = "ADMIN" }))
authorize-update_user_example =
    authorize-update_user hash matches lead (account "root" admin true) "root_user" "nouveau"
      accounts refl refl root_login root_id root_unique refl

lead_there : any (has_user_id "lead") accounts ≡ true
unfolding running
lead_there = refl

gone_inactive : any (λ user. has_user_id "gone" user && user.is_active) accounts ≡ false
unfolding running
gone_inactive = refl

delete_user-inactive_example :
    delete_user
      (some (session_of (record { id = "gone"; role = "ADMIN" }) accounts))
      "lead"
      accounts
    ≡ done (keep (λ user. not (has_user_id "lead" user)) accounts)
delete_user-inactive_example =
    delete_user-inactive (record { id = "gone"; role = "ADMIN" }) accounts "lead" refl refl
      lead_there gone_inactive
