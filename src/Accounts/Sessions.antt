-- ===== src/Accounts/Sessions.antt =====
-- What the sessions of deactivated accounts and the passwords of others allow.
use church_presenter.Common.{
  String, ◌≡◌, refl, inl, inr, Bool, true, false, not, ◌&&◌, ◌||◌, none, some, List, [], ◌∷◌, map,
  str_eq, eq_iff, arith, if◌then◌else◌, any, find, keep, find-found, any-In, Bool-cases,
  Option-cases,
}
use church_presenter.Common.Texts.{str_eq-true}
use church_presenter.Common.Outcome.{done}
use church_presenter.Accounts.{
  role_name, level, User, Token, Session, UpdateUser, has_user_id, session_of, is_user_key_taken,
  updated_user, write_user, update_user, delete_user, authorize,
}

session_of-inactive :
    (token : Token) (users : List User)
    → any (λ user. has_user_id token.id user && user.is_active) users ≡ false
    → session_of token users ≡ record { id = ""; role = token.role }
unfolding session_of
session_of-inactive token users off = elim (Option-cases (find (has_user_id token.id) users)) [
  | inl e ↦ rw (e, session_of) refl
  | inr (user, e) ↦
      let (inside, same) = find-found (has_user_id token.id) users user e in
      let inactive : user.is_active ≡ false =
        ground (arith, same, any-In _ users user off inside) in
      rw (e, session_of) (rw inactive refl)
]

-- The session of an account that was deactivated, or removed, after its login still has the role of the
-- login: with an administrator's it removes any account.
pub delete_user-inactive :
    (token : Token) (users : List User) (id : String)
    → token.role ≡ "ADMIN"
    → str_eq id "" ≡ false
    → any (has_user_id id) users ≡ true
    → any (λ user. has_user_id token.id user && user.is_active) users ≡ false
    → delete_user (some (session_of token users)) id users
      ≡ done (keep (λ user. not (has_user_id id user)) users)
unfolding delete_user level
delete_user-inactive token users id r n h off =
    rw (session_of-inactive token users off)
      (rw r (rw h (ground (arith, eq_iff "" id, eq_iff id ""))))

abbrev pub has_login : String → User → Bool
has_login login user = str_eq user.email login || str_eq user.username login

abbrev pub new_password : String → UpdateUser
new_password password = record {
  first_name = none;
  last_name = none;
  username = none;
  name = none;
  email = none;
  role = none;
  is_active = none;
  password = some password;
}

-- The first account of a login after a new password.
find-changed :
    (hash : String → String) (matches : String → String → Bool) (id login password : String)
    (users : List User) (user : User)
    → find (has_login login) users ≡ some user
    → str_eq user.id id ≡ true
    → find (has_login login) (
        map
          (λ other.
            if has_user_id id other
            then updated_user hash matches (new_password password) other
            else other)
          users)
      ≡ some (record user { password_hash = hash password })
unfolding find
find-changed hash matches id login password [] user h e = cc
find-changed hash matches id login password (first ∷ rest) user h e =
    elim (Bool-cases (has_login login first)) [
      | inl f ↦
          let same : first ≡ user = cc (rw f at h) in
          let hit : has_login login user ≡ true = rw same at f in rw same (rw e (rw hit refl))
      | inr f ↦
          let below = find-changed hash matches id login password rest user (rw f at h) e in
          elim (Bool-cases (str_eq first.id id)) [
            | inl g ↦ rw g (rw f below)
            | inr g ↦ rw g (rw f below)
          ]
    ]

-- A session with the role of a responsable gives any account a new password, an administrator's too, and
-- logs in with it: the login then has the role of the account.
pub authorize-update_user :
    (hash : String → String) (matches : String → String → Bool) (session : Session) (user : User)
    (login password : String) (users : List User)
    → matches password (hash password) ≡ true
    → session.role ≡ "RESPONSABLE_CHANTRE"
    → find (has_login login) users ≡ some user
    → find (has_user_id user.id) users ≡ some user
    → is_user_key_taken user (keep (λ other. not (has_user_id user.id other)) users) ≡ false
    → user.is_active ≡ true
    → (end : List User) × (update_user hash matches
          (some session)
          user.id
          (new_password password)
          users
        ≡ done end)
      × (authorize hash matches login password end
          ≡ some (record { id = user.id; role = role_name user.role }))
unfolding update_user write_user authorize level is_user_key_taken
authorize-update_user hash matches session user login password users m r found own free active =
    let changed =
      find-changed hash matches user.id login password users user found
        (str_eq-true user.id user.id refl) in
    (
      map
          (λ other.
            if has_user_id user.id other
            then updated_user hash matches (new_password password) other
            else other)
          users,
      rw r (
          rw (own, write_user)
            (rw free (elim (Bool-cases (str_eq session.id user.id)) [
              | inl e ↦ rw e refl
              | inr e ↦ rw e refl
            ]))),
      rw (changed, authorize) (rw active (rw m refl)),
    )
