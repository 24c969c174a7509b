-- ===== src/Repo/Events/Frame.antt =====
-- Queueing events and auditing change the outbox, sync_events and audit_events only.
use sso_go.Prelude.{
  ℕ, suc, Text, ◌≡◌, refl, ok, arith, List, [], ◌∷◌, Result, err, Error, ◌⊎◌, inl, inr,
}
use sso_go.Db.{Db, Kind, profile_updated, Payload}
use sso_go.Tx.{◌>>=◌}
use sso_go.Repo.Events.{queue_event, audit_event, queue_all}

pub Tx-cases :
    (r : Result (Unit {0} × Db)) → ((e : Error) × (r ≡ err e)) ⊎ ((d : Db) × (r ≡ ok (tt, d)))
Tx-cases (ok (tt', d)) = inr (d, refl)
Tx-cases (err e) = inl (e, refl)

pub record EventsOnly (d d' : Db) : Type 0 where
  pub accounts : d'.accounts ≡ d.accounts
  pub verifications : d'.verifications ≡ d.verifications
  pub resets : d'.resets ≡ d.resets
  pub sessions : d'.sessions ≡ d.sessions
  pub limits : d'.limits ≡ d.limits
  pub projects : d'.projects ≡ d.projects
  pub clients : d'.clients ≡ d.clients
  pub access : d'.access ≡ d.access
  pub requests : d'.requests ≡ d.requests
  pub codes : d'.codes ≡ d.codes
  pub refresh : d'.refresh ≡ d.refresh
  pub keys : d'.keys ≡ d.keys

pub EventsOnly-refl : (d : Db) → EventsOnly d d
EventsOnly-refl d = ground arith

pub EventsOnly-trans : (d e f : Db) → EventsOnly d e → EventsOnly e f → EventsOnly d f
EventsOnly-trans d e f p q = ground arith

module _ (id project : Text) (account : Text) where
  pub queue_event-EventsOnly :
      (kind : Kind) (payload : Payload) (now : ℕ) (d d' : Db)
      → queue_event id project kind account payload now d ≡ ok (tt, d')
      → EventsOnly d d'
  unfolding queue_event
  queue_event-EventsOnly profile_updated payload now d d' h = ground arith
  queue_event-EventsOnly _ payload now d d' h = ground arith

  pub audit_event-EventsOnly :
      (actor client : Text) (kind : Kind) (payload : Payload) (now : ℕ) (d d' : Db)
      → audit_event id actor client project kind account payload now d ≡ ok (tt, d')
      → EventsOnly d d'
  unfolding audit_event
  audit_event-EventsOnly actor client profile_updated payload now d d' h = ground arith
  audit_event-EventsOnly actor client _ payload now d d' h = ground arith

pub queue_all-EventsOnly :
    (ids : ℕ → Text) (projects : List Text) (kind : Kind) (account : Text) (payload : Payload)
    (now : ℕ) (d d' : Db)
    → queue_all ids projects kind account payload now d ≡ ok (tt, d')
    → EventsOnly d d'
unfolding queue_all
queue_all-EventsOnly ids [] kind account payload now d d' h = ground arith
queue_all-EventsOnly ids (project ∷ rest) kind account payload now d d' h =
    elim (Tx-cases (queue_event (ids 0) project kind account payload now d)) [
      | inl (e, failed) ↦ absurd (cc (failed, h))
      | inr (d1, done) ↦
          EventsOnly-trans d d1 d'
            (queue_event-EventsOnly (ids 0) project account kind payload now d d1 done)
            (queue_all-EventsOnly (λ n. ids (suc n)) rest kind account payload now d1 d'
              (rw (done, ◌>>=◌) at h))
    ]
