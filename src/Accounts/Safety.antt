-- ===== src/Accounts/Safety.antt =====
-- Who may change what: the routes of users.
use church_presenter.Common.{
  ◌≤◌, ◌<◌, String, ◌≡◌, sym, ◌⊎◌, inl, inr, Bool, true, false, not, some, List, [], ◌∷◌, ◌++◌,
  refl, map, str_eq, eq_iff, arith, if◌then◌else◌, any, find, keep, is_some, All, In, All-intro,
  In-map, Bool-cases, Option-cases,
}
use church_presenter.Common.Outcome.{done}
use church_presenter.Accounts.{
  AppRole, admin, responsable_chantre, chantre, lecteur, role_name, level, at_least,
  allowed_roles_to_assign, allows, User, Session, CreateUser, UpdateUser, has_user_id,
  is_user_key_taken, updated_user, write_user, update_user, created_user, create_user,
}

-- What a change by somebody else than an administrator leaves of an account.
pub record IsKept (session : Session) (users : List User) (new : User) : Type 0 where
  pub old : User
  pub was : In old users
  pub same_id : old.id ≡ new.id
  pub same_role : old.role ≡ new.role
  pub same_activity : old.is_active ≡ new.is_active
  pub same_username : (session.id ≡ new.id) ⊎ (old.username ≡ new.username)

-- What the creation of an account adds.
pub record IsCreated (session : Session) (p : CreateUser) (users end : List User) : Type 0 where
  pub new : User
  pub written : end ≡ users ++ new ∷ []
  pub free : is_user_key_taken new users ≡ false
  pub asked : new.role ≡ p.role
  pub active : new.is_active ≡ true
  pub below : (session.role ≡ "ADMIN") ⊎ (level (role_name new.role) < level session.role)
  pub rank : 70 ≤ level session.role

level-responsable : (role : String) → at_least role responsable_chantre ≡ true → 70 ≤ level role
unfolding level
level-responsable role h = ground arith

allowed_below :
    (creator : String) (role : AppRole)
    → allows (allowed_roles_to_assign creator) role ≡ true
    → (creator ≡ "ADMIN") ⊎ (level (role_name role) < level creator)
unfolding allowed_roles_to_assign any keep level
allowed_below creator admin h = ground (arith, eq_iff creator "ADMIN")
allowed_below creator responsable_chantre h = ground (arith, eq_iff creator "ADMIN")
allowed_below creator chantre h = ground (arith, eq_iff creator "ADMIN")
allowed_below creator lecteur h = ground (arith, eq_iff creator "ADMIN")

module _ (hash : String → String) (matches : String → String → Bool) where
  write_user-done :
      (id : String) (p : UpdateUser) (users end : List User)
      → write_user hash matches id p users ≡ done end
      → map
          (λ other. if has_user_id id other then updated_user hash matches p other else other)
          users
        ≡ end
  unfolding write_user
  write_user-done id p users end h = elim (Option-cases (find (has_user_id id) users)) [
    | inl e ↦ cc (rw (e, write_user) at h)
    | inr (user, e) ↦
        elim (Bool-cases (
          is_user_key_taken (updated_user hash matches p user)
            (keep (λ other. not (has_user_id id other)) users))) [
              | inl taken ↦ cc (rw taken at (rw (e, write_user) at h))
              | inr free ↦ cc (rw free at (rw (e, write_user) at h))
            ]
  ]

  -- What the guards let through to the database.
  update_user-guards :
      (session : Session) (id : String) (p : UpdateUser) (users end : List User)
      → str_eq session.role "ADMIN" ≡ false
      → update_user hash matches (some session) id p users ≡ done end
      → (write_user hash matches id p users ≡ done end)
        × (is_some p.role ≡ false)
        × (is_some p.is_active ≡ false)
        × ((is_some p.username ≡ false) ⊎ (str_eq session.id id ≡ true))
  unfolding update_user level
  update_user-guards session id p users end n h = ground arith

  -- A change of an account by a session that is no administrator's leaves every account's role and
  -- activity, and the username of every account but the session's own.
  pub update_user-IsKept :
      (session : Session) (id : String) (p : UpdateUser) (users end : List User)
      → str_eq session.role "ADMIN" ≡ false
      → update_user hash matches (some session) id p users ≡ done end
      → All (IsKept session users) end
  update_user-IsKept session id p users end n h =
      let (runs, role, activity, name) = update_user-guards session id p users end n h in
      let change = λ (other : User).
        if has_user_id id other then updated_user hash matches p other else other in
      rw (sym (write_user-done id p users end runs)) (
        All-intro (IsKept session users) (map change users) (λ x i.
          let (old, j, e) = In-map change users i in
          rw e (elim (Bool-cases (str_eq old.id id)) [
            | inr f ↦ record {
              old = old;
              was = j;
              same_id = ground arith;
              same_role = ground arith;
              same_activity = ground arith;
              same_username = inr (ground arith);
            }
            | inl f ↦ record {
              old = old;
              was = j;
              same_id = ground arith;
              same_role = ground (arith, role);
              same_activity = ground (arith, activity);
              same_username = elim name [
                | inl a ↦ inr (ground (arith, a))
                | inr own ↦ inl (ground (arith, eq_iff old.id id, eq_iff session.id id))
              ];
            }
          ])))

  -- An account that is created is written after the others, under an id, an email and a username that none of them
  -- has, active and with the role that was asked for. That role is below the session's unless the session is an
  -- administrator's, and a session below the rank of a responsable creates none.
  pub create_user_below :
      (session : Session) (p : CreateUser) (id : String) (users end : List User)
      → create_user hash matches (some session) p id users ≡ done end
      → IsCreated session p users end
  unfolding create_user
  create_user_below session p id users end h = record {
    new = created_user hash matches p id;
    written = ground arith;
    free = ground arith;
    asked = refl;
    active = refl;
    below = allowed_below session.role p.role (ground arith);
    rank = level-responsable session.role (ground arith);
  }
