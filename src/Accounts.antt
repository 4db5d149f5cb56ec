-- ===== src/Accounts.antt =====
-- The accounts of the web application: apps/web/src/lib/roles.ts, lib/auth.ts and the routes
-- app/api/users and app/api/users/[id] of apps/web/src.
pub mod Safety
pub mod Sessions
use Prim.Native.String.{◌++◌ as text_append}
use church_presenter.Common.{
  ℕ, ◌+◌, String, Bool, true, false, not, ◌&&◌, ◌||◌, Option, none, some, List, [], ◌∷◌, ◌++◌, map,
  str_eq, ltb, leb, ◌==◌, if◌then◌else◌, or_else, first_some, any, find, keep, is_some,
}
use church_presenter.Common.Texts.{trim}
use church_presenter.Common.Outcome.{Outcome, done, thrown, ◌>>=◌}

pub data AppRole : Type 0 where
  admin responsable_chantre chantre lecteur : AppRole

abbrev pub role_name : AppRole → String
role_name admin = "ADMIN"
role_name responsable_chantre = "RESPONSABLE_CHANTRE"
role_name chantre = "CHANTRE"
role_name lecteur = "LECTEUR"

unfoldable pub level : String → ℕ
level role =
    if str_eq role "ADMIN"
    then 100
    else if str_eq role "RESPONSABLE_CHANTRE"
    then 70
    else if str_eq role "CHANTRE"
    then 40
    else if str_eq role "LECTEUR"
    then 10
    else 0

abbrev pub at_least : String → AppRole → Bool
at_least role min = leb (level (role_name min)) (level role)

abbrev pub can_access_user_admin : String → Bool
can_access_user_admin role = at_least role responsable_chantre

abbrev pub can_create_user : String → Bool
can_create_user role = at_least role responsable_chantre

abbrev pub can_change_user_role : String → Bool
can_change_user_role role = at_least role admin

abbrev pub can_delete_user : String → Bool
can_delete_user role = at_least role admin

abbrev pub all_roles : List AppRole
all_roles = admin ∷ responsable_chantre ∷ chantre ∷ lecteur ∷ []

unfoldable pub allowed_roles_to_assign : String → List AppRole
allowed_roles_to_assign creator =
    if level creator == 0
    then []
    else if str_eq creator "ADMIN"
    then all_roles
    else keep (λ role. ltb (level (role_name role)) (level creator)) all_roles

pub record User : Type 0 where
  pub id : String
  pub first_name : String
  pub last_name : String
  pub username : String
  pub name : String
  pub email : String
  pub password_hash : String
  pub role : AppRole
  pub is_active : Bool

-- What the token of a login holds, and the session that a request has.
pub record Token : Type 0 where
  pub id : String
  pub role : String

pub record Session : Type 0 where
  pub id : String
  pub role : String

pub data ApiError : Type 0 where
  not_authenticated access_denied conflict unique_constraint not_found own_account : ApiError

pub record CreateUser : Type 0 where
  pub first_name : String
  pub last_name : String
  pub username : String
  pub email : String
  pub password : String
  pub role : AppRole

pub record UpdateUser : Type 0 where
  pub first_name : Option String
  pub last_name : Option String
  pub username : Option String
  pub name : Option String
  pub email : Option String
  pub role : Option AppRole
  pub is_active : Option Bool
  pub password : Option String

abbrev pub has_user_id : String → User → Bool
has_user_id id user = str_eq user.id id

abbrev pub full_name : String → String → String
full_name first last = trim (text_append first (text_append " " last))

abbrev pub allows : List AppRole → AppRole → Bool
allows roles role = any (λ other. str_eq (role_name other) (role_name role)) roles

-- The unique indexes on the id, the email and the username.
unfoldable pub is_user_key_taken : User → List User → Bool
is_user_key_taken user users =
    any
      (λ other.
        str_eq other.id user.id
        || str_eq other.email user.email
        || str_eq other.username user.username)
      users

abbrev pub is_username_taken : Option String → String → List User → Bool
is_username_taken none id users = false
is_username_taken (some username) id users =
    any (λ other. str_eq other.username username && not (has_user_id id other)) users

-- `session` callback: the session of a token, as the database knows its account.
unfoldable pub session_of : Token → List User → Session
session_of token users = elim (find (has_user_id token.id) users) [
  | none ↦ record { id = ""; role = token.role }
  | some user ↦ record { id = if user.is_active then token.id else ""; role = token.role }
]

-- `hash` is `bcrypt.hash` and `matches` is `compare`.
module _ (hash : String → String) (matches : String → String → Bool) where
  -- For credentials that are given: the refusal of an empty login or password is left out.
  unfoldable pub authorize : String → String → List User → Option Token
  authorize login password users =
      elim (find (λ user. str_eq user.email login || str_eq user.username login) users) [
        | none ↦ none
        | some user ↦
            if not user.is_active
            then none
            else if matches password user.password_hash
            then some (record { id = user.id; role = role_name user.role })
            else none
      ]

  abbrev pub created_user : CreateUser → String → User
  created_user p id = record {
    id = id;
    first_name = p.first_name;
    last_name = p.last_name;
    username = p.username;
    name = full_name p.first_name p.last_name;
    email = p.email;
    password_hash = hash p.password;
    role = p.role;
    is_active = true;
  }

  -- `POST /api/users`. The new row's id comes from the database client.
  unfoldable pub create_user :
      Option Session → CreateUser → String → List User → Outcome ApiError (List User)
  create_user none p id users = thrown not_authenticated
  create_user (some session) p id users =
      if not (can_create_user session.role)
      then thrown access_denied
      else if not (allows (allowed_roles_to_assign session.role) p.role)
      then thrown access_denied
      else if is_user_key_taken (created_user p id) users
      then thrown conflict
      else done (users ++ created_user p id ∷ [])

  abbrev pub updated_user : UpdateUser → User → User
  updated_user p user = record user {
    first_name = or_else p.first_name user.first_name;
    last_name = or_else p.last_name user.last_name;
    username = or_else p.username user.username;
    name =
        if is_some p.first_name || is_some p.last_name
        then full_name (or_else p.first_name user.first_name) (or_else p.last_name user.last_name)
        else or_else p.name user.name;
    email = or_else p.email user.email;
    role = or_else p.role user.role;
    is_active = or_else p.is_active user.is_active;
    password_hash = elim p.password [ none ↦ user.password_hash | some password ↦ hash password ];
  }

  -- `user.update` with the unique indexes.
  unfoldable pub write_user : String → UpdateUser → List User → Outcome ApiError (List User)
  write_user id p users = elim (find (has_user_id id) users) [
    | none ↦ thrown not_found
    | some user ↦
        if is_user_key_taken (updated_user p user)
          (keep (λ other. not (has_user_id id other)) users)
        then thrown unique_constraint
        else done
            (map (λ other. if has_user_id id other then updated_user p other else other) users)
  ]

  -- `PATCH /api/users/[id]`.
  unfoldable pub update_user :
      Option Session → String → UpdateUser → List User → Outcome ApiError (List User)
  update_user none id p users = thrown not_authenticated
  update_user (some session) id p users =
      let is_self = str_eq session.id id in
      if not is_self && not (can_access_user_admin session.role)
      then thrown access_denied
      else if is_some p.username && not is_self
      then thrown access_denied
      else if is_username_taken p.username id users
      then thrown conflict
      else if (is_some p.first_name || is_some p.last_name) && not (any (has_user_id id) users)
      then thrown not_found
      else if is_some p.role && not (can_change_user_role session.role)
      then thrown access_denied
      else if is_some p.is_active && not (str_eq session.role "ADMIN")
      then thrown access_denied
      else write_user id p users

-- `DELETE /api/users/[id]`.
unfoldable pub delete_user : Option Session → String → List User → Outcome ApiError (List User)
delete_user none id users = thrown not_authenticated
delete_user (some session) id users =
    if not (can_delete_user session.role)
    then thrown access_denied
    else if str_eq session.id id
    then thrown own_account
    else if any (has_user_id id) users
    then done (keep (λ user. not (has_user_id id user)) users)
    else thrown not_found
