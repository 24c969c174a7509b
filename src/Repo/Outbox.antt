-- ===== src/Repo/Outbox.antt =====
-- internal/repository/postgres/outbox.go: sending the queued events, oldest first.
pub mod AtLeastOnce
use sso_go.Prelude.{
  ℕ, ◌+◌, Text, ◌==◌, Bool, true, false, ◌&&◌, Option, none, some, List, [], ◌∷◌, Error, Result, ok,
  err, no_rows, is_none, ltb, find_where, update_where, order_by, if◌then◌else◌,
}
use sso_go.Db.{Db, OutboxRow, Kind, Payload}
use sso_go.Tx.{gets, modify}
use sso_go.Action.{World, run}

pub record OutboxEntry : Type 0 where
  pub id : Text
  pub project : Text
  pub kind : Kind
  pub payload : Payload

abbrev pub is_unpublished : OutboxRow → Bool
is_unpublished o = is_none o.published_at

abbrev entry_of : OutboxRow → OutboxEntry
entry_of o = record { id = o.id; project = o.project_id; kind = o.event_type; payload = o.payload }

abbrev oldest_first : OutboxRow → OutboxRow → Bool
oldest_first o p = ltb o.created_at p.created_at

-- WHERE published_at IS NULL ORDER BY created_at LIMIT 1
abbrev pub next_entry : List OutboxRow → Option OutboxRow
next_entry rows = find_where is_unpublished (order_by oldest_first rows)

abbrev pub outbox_is : Text → OutboxRow → Bool
outbox_is id o = o.id == id

abbrev pub failed : Text → OutboxRow → OutboxRow
failed reason o = record o { attempts = o.attempts + 1; last_error = some reason }

abbrev pub delivered : ℕ → OutboxRow → OutboxRow
delivered now o = record o { published_at = some now; attempts = o.attempts + 1; last_error = none }

-- What `send` answers: none, or the text of its error.
abbrev pub Sender : Type 0
Sender = OutboxEntry → Option Text

-- the transaction's state as Kafka sees it: the entries that it has acknowledged, newest first
pub record Delivery : Type 0 where
  pub world : World
  pub acknowledged : List OutboxEntry

-- the UPDATE after `send`: `none` for an acknowledged entry
abbrev pub record_delivery : OutboxRow → Option Text → ℕ → Db → Db
record_delivery o none now d = record d {
  outbox = update_where (outbox_is o.id) (delivered now) d.outbox;
}
record_delivery o (some reason) now d = record d {
  outbox = update_where (outbox_is o.id) (failed reason) d.outbox;
}

abbrev acknowledge : Option Text → OutboxEntry → List OutboxEntry → List OutboxEntry
acknowledge none e es = e ∷ es
acknowledge (some reason) e es = es

-- What PublishNext returns: nothing to send, an entry sent or not, or a failure of the database.
pub data Published : Type 0 where
  idle : Published
  sent : Published
  unsent : Text → Published
  broken : Error → Published

abbrev outcome : Option Text → Published
outcome none = sent
outcome (some reason) = unsent reason

-- what the UPDATE and Commit after `send` returned
abbrev pub report : Option Text → Result (Unit {0}) → Published
report reply (ok _) = outcome reply
report reply (err e) = broken e

-- from `send` on: the database may fail once more, at the UPDATE or at Commit
send_entry : Sender → OutboxRow → World → List OutboxEntry → Published × Delivery
send_entry send o w es =
    let reply = send (entry_of o) in
    let (r, w') = run (modify (record_delivery o reply)) w in
    (report reply r, record { world = w'; acknowledged = acknowledge reply (entry_of o) es })

-- from the row that the SELECT found on
after_select : Sender → List OutboxEntry → Result (Option OutboxRow) × World → Published × Delivery
after_select send es (err e, w) = (broken e, record { world = w; acknowledged = es })
after_select send es (ok none, w) = (idle, record { world = w; acknowledged = es })
after_select send es (ok (some o), w) = send_entry send o w es

-- PublishNext
unfoldable pub publish_next : Sender → Delivery → Published × Delivery
unfolding send_entry after_select
publish_next send s =
    after_select send s.acknowledged (run (gets (λ _ d. next_entry d.outbox)) s.world)

-- the loop of PublishOutbox: one PublishNext at each tick, whose error is logged and dropped
unfoldable pub publish_ticks : List Sender → Delivery → Delivery
publish_ticks [] s = s
publish_ticks (send ∷ ticks) s = publish_ticks ticks (publish_next send s).1

-- events.PublishOutbox: without a broker it returns at once
unfoldable pub publish_outbox : Text → List Sender → Delivery → Delivery
publish_outbox broker ticks s = if broker == [] then s else publish_ticks ticks s
