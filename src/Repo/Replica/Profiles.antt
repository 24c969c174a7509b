-- ===== src/Repo/Replica/Profiles.antt =====
-- Operations that queue an event for each project of an account, and leave its access.

use mathlib.Core.Path.{subst}
use sso_go.Prelude.{
  ℕ, suc, Text, codes, eq_refl, eq_iff, some, List, [], ◌∷◌, ok, ◌≡◌, refl, arith, inl, inr,
  Option-cases,
}
use sso_go.Db.{Db, Kind, profile_updated, sessions_revoked, Payload, texts}
use sso_go.Tx.{◌>>=◌}
use sso_go.Repo.Tables.{roles_of}
use sso_go.Repo.Events.{put, queue_event, queue_all}
use sso_go.Repo.Events.Frame.{Tx-cases, queue_event-EventsOnly}
use sso_go.Repo.Replica.{roles_in, Mirrors}
use sso_go.Repo.Replica.Replaying.{event-keeps}

-- The roles that QueueEvent puts into a profile are those that a client reads.
roles_in-put :
    (roles : List Text) (payload : Payload)
    → roles_in (put (codes "roles") (texts roles) payload) ≡ some roles
unfolding put roles_in
roles_in-put roles [] = ground (arith, eq_refl (codes "roles"))
roles_in-put roles ((k, v) ∷ rest) =
    ground (arith, eq_refl (codes "roles"), eq_iff k (codes "roles"), roles_in-put roles rest)

module _ (id project account : Text) (payload : Payload) (now : ℕ) (d d' : Db)
    (mirrors : Mirrors d) where
  pub sessions_revoked-Mirrors :
      queue_event id project sessions_revoked account payload now d ≡ ok (tt, d') → Mirrors d'
  sessions_revoked-Mirrors h =
      let same = queue_event-EventsOnly id project account sessions_revoked payload now d d' h in
      event-keeps account project sessions_revoked payload (suc d.last_event) d d' mirrors
        same.access refl (unfold queue_event in ground arith)

  pub profile_updated-Mirrors :
      queue_event id project profile_updated account payload now d ≡ ok (tt, d') → Mirrors d'
  profile_updated-Mirrors h = elim (Option-cases (roles_of account project d)) [
    | inl missing ↦ absurd (unfold queue_event in ground arith)
    | inr (roles, found) ↦
        (let same = queue_event-EventsOnly id project account profile_updated payload now d d' h in
          event-keeps account project profile_updated (put (codes "roles") (texts roles) payload)
            (suc d.last_event) d d' mirrors same.access
            (rw (roles_in-put roles payload, found) refl) (unfold queue_event in ground arith))
  ]

module _ (kind : Kind) (account : Text) (payload : Payload) (now : ℕ)
    (keeps : (id project : Text) (d d' : Db)
      → Mirrors d
      → queue_event id project kind account payload now d ≡ ok (tt, d')
      → Mirrors d') where
  queue_all-Mirrors :
      (ids : ℕ → Text) (projects : List Text) (d d' : Db)
      → Mirrors d
      → queue_all ids projects kind account payload now d ≡ ok (tt, d')
      → Mirrors d'
  unfolding queue_all
  queue_all-Mirrors ids [] d d' mirrors h =
      let same : d ≡ d' = ground arith in subst Mirrors same mirrors
  queue_all-Mirrors ids (project ∷ rest) d d' mirrors h =
      elim (Tx-cases (queue_event (ids 0) project kind account payload now d)) [
        | inl (e, bad) ↦ absurd (cc (bad, h))
        | inr (d1, good) ↦
            queue_all-Mirrors (λ n. ids (suc n)) rest d1 d'
              (keeps (ids 0) project d d1 mirrors good) (rw (good, ◌>>=◌) at h)
      ]

pub queue_profiles-Mirrors :
    (ids : ℕ → Text) (projects : List Text) (account : Text) (payload : Payload) (now : ℕ)
    (d d' : Db)
    → Mirrors d
    → queue_all ids projects profile_updated account payload now d ≡ ok (tt, d')
    → Mirrors d'
queue_profiles-Mirrors ids projects account payload now =
    queue_all-Mirrors profile_updated account payload now
      (λ id project d d'. profile_updated-Mirrors id project account payload now d d') ids projects

pub queue_sessions-Mirrors :
    (ids : ℕ → Text) (projects : List Text) (account : Text) (payload : Payload) (now : ℕ)
    (d d' : Db)
    → Mirrors d
    → queue_all ids projects sessions_revoked account payload now d ≡ ok (tt, d')
    → Mirrors d'
queue_sessions-Mirrors ids projects account payload now =
    queue_all-Mirrors sessions_revoked account payload now
      (λ id project d d'. sessions_revoked-Mirrors id project account payload now d d') ids projects
