-- ===== src/Repo/Outbox/AtLeastOnce.antt =====
-- An event leaves the queue only after Kafka has acknowledged it, and a working queue drains.
use sso_go.Prelude.{
  false, ℕ, ◌+◌, ◌-◌, ◌≤◌, Text, ◌==◌, Bool, ◌&&◌, not, none, some, ◌≡◌, refl, ok, err, unavailable,
  arith, List, [], ◌∷◌, All, length, find_where, find_where_mono, find_where-update_from, any_where,
  count_where, count_where-order_by, count_where-find_and, count_where-update_out, count_where_mono,
  count_where-none, update_where, order_by, eq_iff, eq_refl, if◌then◌else◌, Option-cases,
  Bool-cases, inl, inr,
}
use sso_go.Db.{OutboxRow}
use sso_go.Tx.{gets}
use sso_go.Action.{World, run, drawn, fails}
use sso_go.Action.Run.{run_lem}
use sso_go.Repo.Outbox.{
  OutboxEntry, entry_of, is_unpublished, oldest_first, next_entry, outbox_is, failed, delivered,
  Sender, Delivery, send_entry, publish_next, publish_ticks, publish_outbox,
}

-- an entry with this id was acknowledged
abbrev pub acked : Text → List OutboxEntry → Bool
acked id es = any_where (λ (e : OutboxEntry). e.id == id) es

-- a row that is marked published though nothing with its id was acknowledged
abbrev pub lost : List OutboxEntry → OutboxRow → Bool
lost es o = not (is_unpublished o) && not (acked o.id es)

-- No row is marked published before Kafka has acknowledged an entry with its id.
abbrev pub NothingLost : Delivery → Type 0
NothingLost s = find_where (lost s.acknowledged) s.world.db.outbox ≡ none

module _ (send : Sender) (s : Delivery) (o : OutboxRow) (w : World) where
  lost_later :
      (rows : List OutboxRow)
      → find_where (lost s.acknowledged) rows ≡ none
      → find_where (lost (entry_of o ∷ s.acknowledged)) rows ≡ none
  unfolding any_where
  lost_later rows =
      find_where_mono (lost s.acknowledged) (lost (entry_of o ∷ s.acknowledged)) rows
        (λ r h. ground arith)

  lost-delivered :
      (now : ℕ) (rows : List OutboxRow)
      → find_where (lost s.acknowledged) rows ≡ none
      → find_where
          (lost (entry_of o ∷ s.acknowledged))
          (update_where (outbox_is o.id) (delivered now) rows)
        ≡ none
  unfolding any_where
  lost-delivered now rows =
      find_where-update_from (lost s.acknowledged) (lost (entry_of o ∷ s.acknowledged))
        (outbox_is o.id) (delivered now) rows
        (λ r h. ground (arith, eq_iff r.id o.id, eq_iff o.id r.id))

  lost-failed :
      (reason : Text) (rows : List OutboxRow)
      → find_where (lost s.acknowledged) rows ≡ none
      → find_where (lost s.acknowledged) (update_where (outbox_is o.id) (failed reason) rows) ≡ none
  lost-failed reason rows =
      find_where-update_from (lost s.acknowledged) (lost s.acknowledged) (outbox_is o.id)
        (failed reason) rows (λ r h. ground arith)

  send_entry-NothingLost :
      find_where (lost s.acknowledged) w.db.outbox ≡ none
      → NothingLost (send_entry send o w s.acknowledged).1
  unfolding send_entry
  send_entry-NothingLost h = elim (Option-cases (send (entry_of o))) [
    | inl ack ↦ elim (Bool-cases (fails w.faults)) [
      | inl down ↦ rw (ack, run_lem, down) (lost_later w.db.outbox h)
      | inr up ↦ rw (ack, run_lem, up) (lost-delivered w.now w.db.outbox h)
    ]
    | inr (reason, no_ack) ↦ elim (Bool-cases (fails w.faults)) [
      | inl down ↦ rw (no_ack, run_lem, down) h
      | inr up ↦ rw (no_ack, run_lem, up) (lost-failed reason w.db.outbox h)
    ]
  ]

selected :
    (s : Delivery)
    → run (gets (λ _ d. next_entry d.outbox)) s.world ≡ (
        if fails s.world.faults
        then (err unavailable, drawn s.world)
        else (ok (next_entry s.world.db.outbox), drawn s.world))
selected s = rw run_lem

-- PublishNext marks a row published only after Kafka has acknowledged its entry, whatever fails.
pub publish_next-NothingLost :
    (send : Sender) (s : Delivery) → NothingLost s → NothingLost (publish_next send s).1
unfolding publish_next
publish_next-NothingLost send s h = elim (Bool-cases (fails s.world.faults)) [
  | inl down ↦ rw (selected s, down) h
  | inr up ↦ elim (Option-cases (next_entry s.world.db.outbox)) [
    | inl nothing ↦ rw (selected s, up, nothing) h
    | inr (o, found) ↦
        rw (selected s, up, found) (send_entry-NothingLost send s o (drawn s.world) h)
  ]
]

publish_ticks-NothingLost :
    (ticks : List Sender) (s : Delivery) → NothingLost s → NothingLost (publish_ticks ticks s)
unfolding publish_ticks
publish_ticks-NothingLost [] s h = h
publish_ticks-NothingLost (send ∷ ticks) s h =
    publish_ticks-NothingLost ticks (publish_next send s).1 (publish_next-NothingLost send s h)

-- However the sends and the database fail over any number of ticks, and whatever the broker is, no
-- event is marked published that Kafka has not acknowledged.
pub publish_outbox-NothingLost :
    (broker : Text) (ticks : List Sender) (s : Delivery)
    → NothingLost s
    → NothingLost (publish_outbox broker ticks s)
unfolding publish_outbox
publish_outbox-NothingLost broker ticks s h = elim (Bool-cases (broker == [])) [
  | inl unset ↦ rw unset h
  | inr set ↦ rw set (publish_ticks-NothingLost ticks s h)
]

abbrev pub backlog : Delivery → ℕ
backlog s = count_where is_unpublished s.world.db.outbox

-- An acknowledged send takes the row off the backlog.
send_entry-backlog :
    (send : Sender) (o : OutboxRow) (w : World) (es : List OutboxEntry)
    → send (entry_of o) ≡ none
    → next_entry w.db.outbox ≡ some o
    → w.faults ≡ []
    → (backlog (send_entry send o w es).1 + 1 ≤ count_where is_unpublished w.db.outbox)
      × ((send_entry send o w es).1.world.faults ≡ [])
unfolding send_entry
send_entry-backlog send o w es ack found up =
    let rows = w.db.outbox in
    let hit =
      count_where-find_and is_unpublished (outbox_is o.id) (order_by oldest_first rows) o found
        (eq_refl o.id) in
    let sorted =
      count_where-order_by (λ (r : OutboxRow). is_unpublished r && outbox_is o.id r) oldest_first
        rows in
    let swapped =
      count_where_mono (λ (r : OutboxRow). is_unpublished r && outbox_is o.id r)
        (λ (r : OutboxRow). outbox_is o.id r && is_unpublished r) rows (λ r h. ground arith) in
    let out =
      count_where-update_out is_unpublished (outbox_is o.id) (delivered w.now) rows (λ _ _. refl) in
    rw (ack, run_lem, up) (omega (arith, hit, sorted, swapped, out), refl)

-- One tick that succeeds takes an event off the backlog, if there is one.
publish_next-backlog :
    (send : Sender) (s : Delivery)
    → ((e : OutboxEntry) → send e ≡ none)
    → s.world.faults ≡ []
    → (backlog (publish_next send s).1 ≤ backlog s - 1)
      × ((publish_next send s).1.world.faults ≡ [])
unfolding publish_next
publish_next-backlog send s acks up = elim (Option-cases (next_entry s.world.db.outbox)) [
  | inl nothing ↦
      (let sorted = count_where-order_by is_unpublished oldest_first s.world.db.outbox in
        let none_left =
          count_where-none is_unpublished (order_by oldest_first s.world.db.outbox) nothing in
        rw (selected s, up, nothing) (omega (arith, sorted, none_left), refl))
  | inr (o, found) ↦
      (let w = record s.world { faults = [] } in
        let done = send_entry-backlog send o w s.acknowledged (acks (entry_of o)) found refl in
        rw (selected s, up, found) (omega (arith, done.0), done.1))
]

publish_ticks-drains :
    (ticks : List Sender) (s : Delivery)
    → All (λ send. (e : OutboxEntry) → send e ≡ none) ticks
    → s.world.faults ≡ []
    → backlog s ≤ length ticks
    → backlog (publish_ticks ticks s) ≡ 0
unfolding publish_ticks
publish_ticks-drains [] s acks up enough = omega arith
publish_ticks-drains (send ∷ ticks) s (ack, acks) up enough =
    let (less, up') = publish_next-backlog send s ack up in
    publish_ticks-drains ticks (publish_next send s).1 acks up' (omega (arith, less, enough))

-- While Kafka acknowledges and the database works, and where a broker is set, as many ticks as there
-- are unpublished events publish them all.
pub publish_outbox-drains :
    (broker : Text) (ticks : List Sender) (s : Delivery)
    → (broker == []) ≡ false
    → All (λ send. (e : OutboxEntry) → send e ≡ none) ticks
    → s.world.faults ≡ []
    → backlog s ≤ length ticks
    → backlog (publish_outbox broker ticks s) ≡ 0
unfolding publish_outbox
publish_outbox-drains broker ticks s set acks up enough =
    rw set (publish_ticks-drains ticks s acks up enough)
