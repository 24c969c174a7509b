-- ===== src/Http/SyncHandlers.antt =====
-- internal/transport/httpapi/sync.go: what the clients' services read.
use sso_go.Prelude.{
  ℤ, pos, ℕ, Text, codes, Option, none, some, List, [], ◌∷◌, length, ltb, invalid_client, Result,
  ok, err, if◌then◌else◌,
}
use sso_go.Action.{World}
use sso_go.Strconv.{parse_int}
use sso_go.Service.Words.{trim}
use sso_go.Service.Access.{client_project}
use sso_go.Repo.Events.Feed
use sso_go.Repo.Events.Feed.{SyncEvent, Snapshot}
use sso_go.Http.Message
use sso_go.Http.Message.{Request, Reply, problem, Handler, replying}

abbrev with_project : (Text → Handler) → Result Text × World → Reply × World
with_project handle (ok project, w) = handle project w
with_project handle (err invalid_client, w) = (problem 401 (codes "invalid_client"), w)
with_project handle (err e, w) = (problem 500 (codes "sync unavailable"), w)

-- Server.syncProject and the early return of its callers
abbrev for_project : (Text → Text) → Option (Text × Text) → (Text → Handler) → Handler
for_project hash none handle w = (problem 401 (codes "invalid_client"), w)
for_project hash (some (id, secret)) handle w =
    with_project handle (client_project hash id secret w)

-- `value, err := strconv.ParseInt(...)`, unless `err != nil || value < 0`
abbrev natural : Option ℤ → Option ℕ
natural (some (pos n)) = some n
natural _ = none

-- no cursor in the query is a nil; `none` is an invalid one
abbrev cursor_of : Text → Option (Option ℕ)
cursor_of [] = some none
cursor_of (c ∷ raw) = elim (natural (parse_int (c ∷ raw))) [ none ↦ none | some n ↦ some (some n) ]

abbrev snapshot_reply : Result Snapshot → Reply
snapshot_reply (ok s) = Message.snapshot s
snapshot_reply (err e) = problem 500 (codes "snapshot unavailable")

abbrev changes_reply : Text → Result (List SyncEvent × ℕ) → Reply
changes_reply project (ok (events, next)) = Message.changes project next events
changes_reply project (err e) = problem 500 (codes "changes unavailable")

abbrev snapshot_at : Text → Text → Option (Option ℕ) → Handler
snapshot_at project after none w = (problem 400 (codes "invalid cursor"), w)
snapshot_at project after (some cursor) w =
    replying snapshot_reply (Feed.snapshot project after cursor w)

abbrev changes_after : Text → Option ℕ → Handler
changes_after project none w = (problem 400 (codes "invalid cursor"), w)
changes_after project (some after) w =
    replying (changes_reply project) (Feed.changes project after w)

module _ (hash : Text → Text) where
  -- Server.syncSnapshot
  unfoldable pub sync_snapshot : Request → Handler
  unfolding parse_int
  sync_snapshot q = for_project hash q.basic λ project w.
      let after = q.query (codes "after_user") in
      if ltb 128 (length after)
      then (problem 400 (codes "invalid cursor"), w)
      else snapshot_at project after (cursor_of (q.query (codes "cursor"))) w

  -- Server.syncChanges
  unfoldable pub sync_changes : Request → Handler
  unfolding parse_int
  sync_changes q =
      for_project hash q.basic
        λ project. changes_after project (natural (parse_int (trim (q.query (codes "after")))))
