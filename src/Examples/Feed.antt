-- ===== src/Examples/Feed.antt =====
-- Polling the changes of a project, on the small database with two events.
use sso_go.Prelude.{
  ℕ, ◌≡◌, Text, codes, ◌==◌, true, [], ◌∷◌, map, take, refl, arith, ok, ◌++◌, find_where, any_where,
}
use sso_go.Db.{texts, SyncRow, Db, profile_updated}
use sso_go.Action.{World}
use sso_go.Repo.Events.{queue_event, write_event, put}
use sso_go.Repo.Events.Feed.{event_of, last_id}
use sso_go.Repo.Events.Feed.Queueing.{Queued, IsNumbered, queue_event-Queued}
use sso_go.Repo.Events.Feed.Paging.{pending}
use sso_go.Repo.Events.Feed.Polling.{polls, polls-take}
use sso_go.Examples.State.{at_time, event_row}

abbrev event : ℕ → Text → SyncRow
event id project = record {
  id = id;
  project_id = project;
  event_type = profile_updated;
  account_id = codes "ann";
  payload = [];
}

abbrev busy : World
busy = record (at_time 10) {
  db = record (at_time 10).db {
    last_event = 4;
    sync = event 1 (codes "shop") ∷ event 2 (codes "blog") ∷ event 4 (codes "shop") ∷ [];
  };
}

polls-take_example :
    (k : ℕ) × (polls (codes "shop") 2 0 (record busy { faults = true ∷ [] })
      ≡ map event_of (take k (pending (codes "shop") 0 busy.db.sync)))
polls-take_example =
    polls-take (codes "shop") 2 0 (record busy { faults = true ∷ [] })
      (omega arith, (omega arith, (omega arith, tt)))

abbrev queued_db : Db
queued_db = record busy.db {
  outbox =
      busy.db.outbox
      ++ record (event_row (codes "e9") 10) {
        payload = (codes "roles", texts (codes "user" ∷ [])) ∷ [];
      }
        ∷ [];
  sync =
      busy.db.sync
      ++ record (event 5 (codes "shop")) {
        payload = (codes "roles", texts (codes "user" ∷ [])) ∷ [];
      }
        ∷ [];
  last_event = 5;
}

queued_lem :
    queue_event (codes "e9") (codes "shop") profile_updated (codes "ann") [] 10 busy.db
    ≡ ok (tt, queued_db)
unfolding queue_event write_event find_where any_where put ◌==◌
queued_lem = refl

queue_event-Queued_example :
    Queued (codes "e9") (codes "shop") profile_updated (codes "ann") [] 10 busy.db queued_db
    × IsNumbered queued_db
unfolding last_id
queue_event-Queued_example =
    queue_event-Queued (codes "e9") (codes "shop") (codes "ann") 10 busy.db queued_db
      profile_updated [] ((omega arith, (omega arith, (omega arith, tt))), omega arith) queued_lem
