-- ===== src/Repo/Replica/Access.antt =====
-- What the statements on project_access do to the roles of each account.
use mathlib.Core.Option
use sso_go.Prelude.{
  ℕ, Text, eq_iff, true, false, Option, none, some, List, [], ◌∷◌, ◌++◌, if◌then◌else◌, ok, ◌≡◌,
  refl, arith, Bool-cases, Option-cases, inl, inr, find_where, update_where, delete_where,
  find_where-update_keep, find_where-delete_none, find_where-delete_keep, find_where-append,
  any_where-find, find_where-some,
}
use sso_go.Db.{Db, Access}
use sso_go.Repo.Tables.{roles_of, access_is}
use sso_go.Repo.Admin.{with_roles, upsert_access}
use sso_go.Repo.Replica.{on}

abbrev roles_at : Text → Text → List Access → Option (List Text)
roles_at u p rows = Option.map (λ (a : Access). a.roles) (find_where (access_is u p) rows)

module _ (user project u p : Text) where
  same_row :
      (a : Access)
      → on user project u p ≡ true
      → access_is u p a ≡ true
      → access_is user project a ≡ true
  same_row a here h = ground (
    arith,
    eq_iff user u,
    eq_iff project p,
    eq_iff a.account_id u,
    eq_iff a.project_id p,
    eq_iff a.account_id user,
    eq_iff a.project_id project,
  )

  other_row :
      (a : Access)
      → on user project u p ≡ false
      → access_is u p a ≡ true
      → access_is user project a ≡ false
  other_row a other h = ground (
    arith,
    eq_iff user u,
    eq_iff project p,
    eq_iff a.account_id u,
    eq_iff a.project_id p,
    eq_iff a.account_id user,
    eq_iff a.project_id project,
  )

  -- DELETE
  pub roles_at-delete :
      (rows : List Access)
      → roles_at u p (delete_where (access_is user project) rows)
        ≡ (if on user project u p then none else roles_at u p rows)
  roles_at-delete rows = elim (Bool-cases (on user project u p)) [
    | inl here ↦
        rw
          (
            here,
            find_where-delete_none (access_is u p) (access_is user project) rows
                (λ a h. same_row a here h),
          )
          refl
    | inr other ↦
        rw
          (
            other,
            find_where-delete_keep (access_is u p) (access_is user project) rows
                (λ a h. other_row a other h),
          )
          refl
  ]

  -- UPDATE of the roles of a row that is there
  pub roles_at-update :
      (f : Access → Access) (rows : List Access) (a : Access)
      → ((r : Access) → access_is u p (f r) ≡ access_is u p r)
      → find_where (access_is user project) rows ≡ some a
      → roles_at u p (update_where (access_is user project) f rows)
        ≡ (if on user project u p then some (f a).roles else roles_at u p rows)
  roles_at-update f rows a keys found =
      let q = access_is u p in
      let kept = find_where-update_keep q (access_is user project) f rows (λ r _. keys r) in
      elim (Bool-cases (on user project u p)) [
        | inl here ↦
            (let eu : user ≡ u = ground (arith, eq_iff user u) in
              let ep : project ≡ p = ground (arith, eq_iff project p) in
              let found' : find_where q rows ≡ some a = rw (← eu, ← ep) found in
              rw (here, kept, found')
                (ground (arith, same_row a here, find_where-some q rows a found')))
        | inr other ↦ elim (Option-cases (find_where q rows)) [
          | inl missing ↦ rw (other, kept, missing) refl
          | inr (b, there) ↦
              rw (other, kept, there)
                (ground (arith, other_row b other, find_where-some q rows b there))
        ]
      ]

  -- INSERT of a row that is not there
  pub roles_at-insert :
      (rows : List Access) (roles : List Text)
      → find_where (access_is user project) rows ≡ none
      → roles_at u p
          (rows ++ record { account_id = user; project_id = project; roles = roles } ∷ [])
        ≡ (if on user project u p then some roles else roles_at u p rows)
  unfolding find_where
  roles_at-insert rows roles missing =
      let q = access_is u p in
      let a : Access = record { account_id = user; project_id = project; roles = roles } in
      let new = find_where-append q rows (a ∷ []) in
      let known = any_where-find q rows in
      elim (Bool-cases (on user project u p)) [
        | inl here ↦
            (let eu : user ≡ u = ground (arith, eq_iff user u) in
              let ep : project ≡ p = ground (arith, eq_iff project p) in
              let missing' : find_where q rows ≡ none = rw (← eu, ← ep) missing in
              ground (arith, new, known))
        | inr other ↦ ground (arith, new, known, Option-cases (find_where q rows))
      ]

-- The upsert of GrantAccess and ApproveRequest.
pub upsert_access-roles_of :
    (user project : Text) (roles : List Text) (now : ℕ) (d d' : Db)
    → upsert_access user project roles now d ≡ ok (tt, d')
    → (u p : Text) → roles_of u p d' ≡ (if on user project u p then some roles else roles_of u p d)
unfolding upsert_access
upsert_access-roles_of user project roles now d d' h u p =
    let known = any_where-find (access_is user project) d.access in
    elim (Option-cases (find_where (access_is user project) d.access)) [
      | inl missing ↦
          (let rows : d'.access
                ≡ d.access
                  ++ record { account_id = user; project_id = project; roles = roles } ∷ [] =
              ground (arith, known) in
            rw rows (roles_at-insert user project u p d.access roles missing))
      | inr (a, found) ↦
          (let rows : d'.access
                ≡ update_where (access_is user project) (with_roles roles) d.access =
              ground (arith, known) in
            rw rows
              (roles_at-update user project u p (with_roles roles) d.access a (λ _. refl) found))
    ]

-- and it writes nothing else
pub upsert_access-sync :
    (user project : Text) (roles : List Text) (now : ℕ) (d d' : Db)
    → upsert_access user project roles now d ≡ ok (tt, d')
    → d'.sync ≡ d.sync
unfolding upsert_access
upsert_access-sync user project roles now d d' h = ground arith
