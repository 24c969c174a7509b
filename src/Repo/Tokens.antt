-- ===== src/Repo/Tokens.antt =====
-- The refresh tokens over any sequence of the repository's operations.
pub mod Replay
use sso_go.Prelude.{
  ℕ, Text, ◌≡◌, arith, Result, err, Bool, Error, codes, none, List, [], ◌∷◌, ◌++◌, All, inl, inr,
  find_where, update_where, delete_where, Result-cases,
}
use sso_go.Db.{Db, RefreshRow, access_revoked}
use sso_go.Tx.{modify}
use sso_go.Action.{World, run}
use sso_go.Action.Run.{run-keeps, db-run_err}
use sso_go.Action.Keeps.{Keeps, Keeps-modify, Keeps-then}
use sso_go.Repo.Tables.{access_is}
use sso_go.Repo.Events.{user_payload}
use sso_go.Repo.Events.Frame.{audit_event-EventsOnly}
use sso_go.Repo.Oauth.{revoke_at, rotate_refresh, create_refresh, first_token}
use sso_go.Repo.Oauth.Families.{
  IsSingle, in_family, Kept, IsSingle-Kept, append-IsSingle, rotate_refresh-keeps,
  create_refresh-keeps,
}
use sso_go.Repo.Passwords.{reset_password, change_password, unrevoked_of}
use sso_go.Repo.Admin.{remove_access, revoke_access, disable_account, unrevoked_for}
use sso_go.Repo.Management.{revoke_project_access}
use sso_go.Repo.Maintenance.{cleanup_expired, run_each, older, day}
use sso_go.Repo.Lockout.Cuts.{
  disable_account-refresh, reset_password-IsRenewed, change_password-IsRenewed,
}

-- One step of the system: an operation that writes refresh tokens, or anything that leaves them.
-- CreateRefresh gets a family that no row has, since the code draws it at random.
pub data Step : World → World → Type 0 where
  rotated :
      (hash next_hash client project : Text) (app_now : ℕ) (w : World)
      → Step w (rotate_refresh hash next_hash client project app_now w).1
  created :
      (hash family account client project : Text) (scopes : List Text) (w : World)
      → find_where (in_family family) w.db.refresh ≡ none
      → Step w (create_refresh hash family account client project scopes w).1
  access_taken :
      (event_id actor user project : Text) (w : World)
      → Step w (revoke_access event_id actor user project w).1
  project_access_taken :
      (event_id actor client project id : Text) (w : World)
      → Step w (revoke_project_access event_id actor client project id w).1
  disabled :
      (ids : ℕ → Text) (actor id : Text) (w : World) → Step w (disable_account ids actor id w).1
  reset :
      (ids : ℕ → Text) (token_hash password_hash : Text) (w : World)
      → Step w (reset_password ids token_hash password_hash w).1
  changed :
      (ids : ℕ → Text) (id password_hash : Text) (verify : Text → Result Bool) (w : World)
      → Step w (change_password ids id password_hash verify w).1
  cleaned : (w : World) → Step w (cleanup_expired w).1
  elsewhere : (w w' : World) → w'.db.refresh ≡ w.db.refresh → Step w w'

-- any number of steps
pub data Steps : World → World → Type 0 where
  here : (w : World) → Steps w w
  then : (w v u : World) → Steps w v → Step v u → Steps w u

-- an operation that failed has changed no table
pub db-disable_account :
    (ids : ℕ → Text) (actor id : Text) (w : World) (e : Error)
    → (disable_account ids actor id w).0 ≡ err e
    → (disable_account ids actor id w).1.db ≡ w.db
unfolding disable_account
db-disable_account ids actor id w e h = db-run_err _ w e h

db-reset_password :
    (ids : ℕ → Text) (token_hash password_hash : Text) (w : World) (e : Error)
    → (reset_password ids token_hash password_hash w).0 ≡ err e
    → (reset_password ids token_hash password_hash w).1.db ≡ w.db
unfolding reset_password
db-reset_password ids token_hash password_hash w e h = db-run_err _ w e h

db-change_password :
    (ids : ℕ → Text) (id password_hash : Text) (verify : Text → Result Bool) (w : World) (e : Error)
    → (change_password ids id password_hash verify w).0 ≡ err e
    → (change_password ids id password_hash verify w).1.db ≡ w.db
unfolding change_password
db-change_password ids id password_hash verify w e h = db-run_err _ w e h

module _ (P : List RefreshRow → Type 0) (kept : Kept P) where
  abbrev Holds : Db → Type 0
  Holds d = P d.refresh

  module _ (event_id actor client user project : Text) where
    remove_access-Keeps : Keeps Holds (run (remove_access event_id actor client user project))
    remove_access-Keeps w h =
        run-keeps Holds (remove_access event_id actor client user project) w
          (λ t d done.
            let mid : Db = record w.db {
              access = delete_where (access_is user project) w.db.access;
              refresh = update_where (unrevoked_for user project) (revoke_at w.now) w.db.refresh;
            } in
            let same =
              audit_event-EventsOnly event_id project user actor client access_revoked
                (user_payload user) w.now mid d (unfold remove_access in ground arith) in
            rw same.refresh (kept.by_revoke (unrevoked_for user project) w.now w.db.refresh h))
          h

  disable_account-Keeps :
      (ids : ℕ → Text) (actor id : Text) → Keeps Holds (disable_account ids actor id)
  disable_account-Keeps ids actor id w h = elim (Result-cases (disable_account ids actor id w).0) [
    | inl (e, bad) ↦ rw (db-disable_account ids actor id w e bad) h
    | inr (t, good) ↦
        rw (disable_account-refresh ids actor id w good)
          (kept.by_revoke (unrevoked_of id) w.now w.db.refresh h)
  ]

  reset_password-Keeps :
      (ids : ℕ → Text) (token_hash password_hash : Text)
      → Keeps Holds (reset_password ids token_hash password_hash)
  reset_password-Keeps ids token_hash password_hash w h =
      elim (Result-cases (reset_password ids token_hash password_hash w).0) [
        | inl (e, bad) ↦ rw (db-reset_password ids token_hash password_hash w e bad) h
        | inr (t, good) ↦
            (let (link, _, new) = reset_password-IsRenewed ids token_hash password_hash w good in
              rw new.refresh
                (kept.by_revoke (unrevoked_of link.account_id) new.revoked_at w.db.refresh h))
      ]

  change_password-Keeps :
      (ids : ℕ → Text) (id password_hash : Text) (verify : Text → Result Bool)
      → Keeps Holds (change_password ids id password_hash verify)
  change_password-Keeps ids id password_hash verify w h =
      elim (Result-cases (change_password ids id password_hash verify w).0) [
        | inl (e, bad) ↦ rw (db-change_password ids id password_hash verify w e bad) h
        | inr (t, good) ↦
            (let (a, _, _, new) = change_password-IsRenewed ids id password_hash verify w good in
              rw new.refresh (kept.by_revoke (unrevoked_of id) new.revoked_at w.db.refresh h))
      ]

  run_each-Keeps :
      (queries : List (ℕ → Db → Db))
      → All (λ f. (now : ℕ) (d : Db) → Holds d → Holds (f now d)) queries
      → Keeps Holds (run_each queries)
  unfolding run_each
  run_each-Keeps [] keep w h = h
  run_each-Keeps (query ∷ queries) (keep, keeps) w h =
      Keeps-then Holds (run (modify query)) (run_each queries) (Keeps-modify Holds query keep)
        (run_each-Keeps queries keeps) w h

  cleanup_expired-Keeps : Keeps Holds cleanup_expired
  unfolding cleanup_expired
  cleanup_expired-Keeps =
      let same : (now : ℕ) (d : Db) → Holds d → Holds d = λ _ _ h. h in
      run_each-Keeps _ (
        same,
        (
          same,
          (
            same,
            (
              same,
              (
                same,
                (
                  (λ now d h. kept.by_delete (λ r. older day now r.family_expires_at) d.refresh h),
                  (same, (same, tt)),
                ),
              ),
            ),
          ),
        ),
      )

  -- Every step, whether its operation succeeds or fails, keeps such a property, if a new family does.
  pub Step-keeps :
      (w u : World)
      → Step w u
      → ((r : RefreshRow)
          → find_where (in_family r.family_id) w.db.refresh ≡ none
          → P w.db.refresh
          → P (w.db.refresh ++ r ∷ []))
      → P w.db.refresh
      → P u.db.refresh
  Step-keeps w _ (rotated hash next_hash client project app_now _) add h =
      rotate_refresh-keeps P kept hash next_hash client project app_now w h
  Step-keeps w _ (created hash family account client project scopes _ new) add h =
      create_refresh-keeps P hash family account client project scopes w
        (add (first_token hash family account client project scopes w.now) new) h
  Step-keeps w _ (access_taken event_id actor user project _) add h =
      unfold revoke_access in
      remove_access-Keeps event_id actor (codes "sso-admin") user project w h
  Step-keeps w _ (project_access_taken event_id actor client project id _) add h =
      unfold revoke_project_access in remove_access-Keeps event_id actor client id project w h
  Step-keeps w _ (disabled ids actor id _) add h = disable_account-Keeps ids actor id w h
  Step-keeps w _ (reset ids token_hash password_hash _) add h =
      reset_password-Keeps ids token_hash password_hash w h
  Step-keeps w _ (changed ids id password_hash verify _) add h =
      change_password-Keeps ids id password_hash verify w h
  Step-keeps w _ (cleaned _) add h = cleanup_expired-Keeps w h
  Step-keeps w u (elsewhere _ _ same) add h = rw same h

-- From a database in which no family has two live refresh tokens, no sequence of the operations
-- that write refresh tokens, with anything else in between and whatever fails, leads to one that has.
pub Steps-Single : (w u : World) → Steps w u → IsSingle w.db.refresh → IsSingle u.db.refresh
Steps-Single w _ (here _) h = h
Steps-Single w u (then _ v _ before step) h =
    Step-keeps IsSingle IsSingle-Kept v u step (append-IsSingle v.db.refresh)
      (Steps-Single w v before h)
