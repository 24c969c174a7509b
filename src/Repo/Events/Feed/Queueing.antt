-- ===== src/Repo/Events/Feed/Queueing.antt =====
-- QueueEvent writes both queues alike, and the numbers of the sync events in order.
use sso_go.Prelude.{
  ◌==◌, eq_iff, Option, none, some, if◌then◌else◌, ℕ, suc, ◌≤◌, ◌<◌, Text, List, [], ◌∷◌, ◌++◌, ok,
  ◌≡◌, refl, arith, codes, inl, inr, Option-cases,
}
use sso_go.Db.{
  Db, Kind, profile_updated, sessions_revoked, access_granted, access_revoked, roles_changed,
  account_activated, account_disabled, password_reset, password_changed, global_admin_granted,
  Payload, Value, SyncRow, texts,
}
use sso_go.Repo.Tables.{roles_of}
use sso_go.Repo.Events.{put, queue_event, write_event, queue_all, outbox_row, sync_row}
use sso_go.Repo.Events.Frame.{Tx-cases}
use sso_go.Tx.{◌>>=◌}
use sso_go.Repo.Events.Feed.{last_id}
use sso_go.Repo.Events.Feed.Paging.{IsFeed}

-- The feed is in order, and the sequence of its numbers is not behind it.
abbrev pub IsNumbered : Db → Type 0
IsNumbered d = IsFeed 0 d.sync × (last_id 0 d.sync ≤ d.last_event)

IsFeed-append :
    (from : ℕ) (rows : List SyncRow) (s : SyncRow)
    → IsFeed from rows
    → last_id from rows < s.id
    → IsFeed from (rows ++ s ∷ []) × (last_id from (rows ++ s ∷ []) ≡ s.id)
unfolding last_id
IsFeed-append from [] s h lt = ((lt, tt), refl)
IsFeed-append from (r ∷ rows) s (lt', h) lt =
    let (feed, e) = IsFeed-append r.id rows s h lt in ((lt', feed), e)

-- what a JSON object has under a name
unfoldable pub value_at : Text → Payload → Option Value
value_at k [] = none
value_at k ((j, v) ∷ rest) = if j == k then some v else value_at k rest

value_at-put :
    (k j : Text) (v : Value) (p : Payload)
    → value_at k (put j v p) ≡ (if j == k then some v else value_at k p)
unfolding value_at put
value_at-put k j v [] = refl
value_at-put k j v ((i, w) ∷ rest) =
    ground (arith, value_at-put k j v rest, eq_iff i j, eq_iff j k, eq_iff i k)

-- The payload that is sent: the one that was given, under every name, but that a profile carries
-- under "roles" those of the account in the project.
abbrev pub Carries : Text → Text → Db → Kind → Payload → Payload → Type 0
Carries account project d profile_updated given sent =
    (roles : List Text) × (roles_of account project d ≡ some roles)
    × ((k : Text)
        → value_at k sent ≡ (if codes "roles" == k then some (texts roles) else value_at k given))
Carries account project d _ given sent = sent ≡ given

-- one event in both queues, with one payload
pub record Queued (id project : Text) (kind : Kind) (account : Text) (given : Payload) (now : ℕ)
    (d d' : Db) : Type 0 where
  pub payload : Payload
  pub carries : Carries account project d kind given payload
  pub to_kafka : d'.outbox ≡ d.outbox ++ outbox_row id project kind payload now ∷ []
  pub to_feed : d'.sync ≡ d.sync ++ sync_row (suc d.last_event) project kind account payload ∷ []
  pub numbered : d'.last_event ≡ suc d.last_event

module _ (id project account : Text) (now : ℕ) (d d' : Db) where
  written :
      (kind : Kind) (given payload : Payload)
      → Carries account project d kind given payload
      → write_event id project kind account payload now d ≡ ok (tt, d')
      → Queued id project kind account given now d d'
  unfolding write_event
  written kind given payload carries h = record {
    payload = payload;
    carries = carries;
    to_kafka = ground arith;
    to_feed = ground arith;
    numbered = ground arith;
  }

  queued :
      (kind : Kind) (payload : Payload)
      → queue_event id project kind account payload now d ≡ ok (tt, d')
      → Queued id project kind account payload now d d'
  unfolding queue_event
  queued profile_updated payload h = elim (Option-cases (roles_of account project d)) [
    | inl missing ↦ absurd (ground arith)
    | inr (roles, found) ↦
        written profile_updated payload (put (codes "roles") (texts roles) payload)
          (roles, found, λ k. value_at-put k (codes "roles") (texts roles) payload) (ground arith)
  ]
  queued sessions_revoked payload h = written sessions_revoked payload payload refl h
  queued access_granted payload h = written access_granted payload payload refl h
  queued access_revoked payload h = written access_revoked payload payload refl h
  queued roles_changed payload h = written roles_changed payload payload refl h
  queued account_activated payload h = written account_activated payload payload refl h
  queued account_disabled payload h = written account_disabled payload payload refl h
  queued password_reset payload h = written password_reset payload payload refl h
  queued password_changed payload h = written password_changed payload payload refl h
  queued global_admin_granted payload h = written global_admin_granted payload payload refl h

  -- QueueEvent, where it succeeds, appends one event to both queues with the same payload: the one it
  -- was given, but that a profile update carries the account's roles in the project under "roles". It
  -- gives the event the next number in the feed, which stays in order.
  pub queue_event-Queued :
      (kind : Kind) (payload : Payload)
      → IsNumbered d
      → queue_event id project kind account payload now d ≡ ok (tt, d')
      → Queued id project kind account payload now d d' × IsNumbered d'
  queue_event-Queued kind payload (feed, behind) h =
      let q = queued kind payload h in
      let s = sync_row (suc d.last_event) project kind account q.payload in
      let (feed', last) = IsFeed-append 0 d.sync s feed (omega arith) in
      (q, rw (q.to_feed, q.numbered) (feed', omega (arith, last)))

-- The same for an event in each of some projects: the feed stays in order.
pub queue_all-IsNumbered :
    (ids : ℕ → Text) (projects : List Text) (kind : Kind) (account : Text) (payload : Payload)
    (now : ℕ) (d d' : Db)
    → IsNumbered d
    → queue_all ids projects kind account payload now d ≡ ok (tt, d')
    → IsNumbered d'
unfolding queue_all
queue_all-IsNumbered ids [] kind account payload now d d' numbered h =
    let same : d' ≡ d = ground arith in rw same numbered
queue_all-IsNumbered ids (project ∷ rest) kind account payload now d d' numbered h =
    elim (Tx-cases (queue_event (ids 0) project kind account payload now d)) [
      | inl (e, bad) ↦ absurd (cc (bad, h))
      | inr (d1, good) ↦
          queue_all-IsNumbered (λ n. ids (suc n)) rest kind account payload now d1 d'
            (queue_event-Queued (ids 0) project account now d d1 kind payload numbered good).1
            (rw (good, ◌>>=◌) at h)
    ]
