-- ===== src/Repo/Events/Feed.antt =====
-- Snapshot and Changes of internal/repository/postgres/events.go: what the clients' sync reads.
pub mod Paging
pub mod Queueing
pub mod Polling
use sso_go.Prelude.{
  ℕ, Text, codes, ◌==◌, text_ltb, Bool, true, false, ◌&&◌, Option, none, some, List, [], ◌∷◌, ◌++◌,
  map, length, take, ltb, if◌then◌else◌, select_where, find_where, order_by, Result, ok, err,
}
use sso_go.Db.{Db, Account, Access, SyncRow, Kind, Payload}
use sso_go.Tx.{Tx, gets}
use sso_go.Action.{Action, ◌>>=◌, pure, run}
use sso_go.Repo.Tables.{find_account, active_verified}
use sso_go.Repo.Events.{account_payload_of}

pub record SyncEvent : Type 0 where
  pub id : ℕ
  pub kind : Kind
  pub user_id : Text
  pub payload : Payload

abbrev pub event_of : SyncRow → SyncEvent
event_of s = record { id = s.id; kind = s.event_type; user_id = s.account_id; payload = s.payload }

abbrev pub oldest_event : SyncRow → SyncRow → Bool
oldest_event s t = ltb s.id t.id

-- project_id=$1 AND id>$2
abbrev pub pending_for : Text → ℕ → SyncRow → Bool
pending_for project after s = s.project_id == project && ltb after s.id

-- the rows of one page
abbrev pub page : Text → ℕ → List SyncRow → List SyncRow
page project after rows =
    take 200 (select_where (pending_for project after) (order_by oldest_event rows))

-- `after = event.ID` for each row
unfoldable pub last_id : ℕ → List SyncRow → ℕ
last_id after [] = after
last_id after (s ∷ rows) = last_id s.id rows

-- Changes
unfoldable pub changes : Text → ℕ → Action (List SyncEvent × ℕ)
changes project after = do
  rows ← run (gets (λ _ d. page project after d.sync))
  pure (map event_of rows, last_id after rows)

pub record Snapshot : Type 0 where
  pub project_id : Text
  pub cursor : ℕ
  pub users : List Payload
  pub next_after_user : Text

-- SELECT coalesce(max(id),0) FROM sync_events
unfoldable pub max_id : List SyncRow → ℕ
max_id [] = 0
max_id (s ∷ rows) = let m = max_id rows in if ltb m s.id then s.id else m

-- the account of an access row, where the WHERE clause takes it: a.id>$2, active and verified
abbrev with_account : Text → Access → Option Account → List (Account × List Text)
with_account after p none = []
with_account after p (some a) =
    if text_ltb after a.id && active_verified a then (a, p.roles) ∷ [] else []

-- FROM project_access p JOIN accounts a ON a.id=p.account_id WHERE p.project_id=$1
unfoldable pub members : Text → Text → Db → List Access → List (Account × List Text)
members project after d [] = []
members project after d (p ∷ rest) =
    let others = members project after d rest in
    if p.project_id == project
    then with_account after p (find_account p.account_id d) ++ others
    else others

abbrev by_id : Account × List Text → Account × List Text → Bool
by_id a b = text_ltb a.0.id b.0.id

-- the id of the last user
unfoldable pub last_user : Text → List (Account × List Text) → Text
last_user id [] = id
last_user id (u ∷ users) = last_user u.0.id users

abbrev snapshot_of : Text → ℕ → List (Account × List Text) → Snapshot
snapshot_of project cursor found = record {
  project_id = project;
  cursor = cursor;
  users = map (λ (u : Account × List Text). account_payload_of u.0 u.1) (take 200 found);
  next_after_user = if ltb 200 (length found) then last_user [] (take 200 found) else [];
}

abbrev cursor_or : Option ℕ → Db → ℕ
cursor_or none d = max_id d.sync
cursor_or (some c) d = c

-- Snapshot: one read-only transaction
unfoldable pub snapshot : Text → Text → Option ℕ → Action Snapshot
snapshot project after requested = run (
    gets (λ _ d.
      snapshot_of project (cursor_or requested d)
        (take 201 (order_by by_id (members project after d d.access)))))
