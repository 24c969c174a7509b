-- ===== src/Repo/Events.antt =====
-- internal/repository/postgres/events.go: the events that a transaction queues, and their readers.
--
-- Each event goes to the outbox and to sync_events. The random ids of a transaction's events are
-- an argument: `ids n` is the one drawn n-th.
pub mod Frame
pub mod Feed
use mathlib.Core.Option
use sso_go.Prelude.{
  ℕ, ◌+◌, suc, Text, codes, ◌==◌, text_ltb, Bool, true, false, ◌&&◌, not, Option, none, some, List,
  [], ◌∷◌, ◌++◌, map, unique_violation, other_violation, no_rows, if◌then◌else◌, find_where,
  any_where, select_where, order_by,
}
use sso_go.Db.{
  Db, Account, Access, Kind, profile_updated, Payload, Value, text, texts, number, OutboxRow,
  SyncRow, AuditEvent,
}
use sso_go.Tx.{Tx, ◌>>=◌, ◌>>◌, pure, gets, first_row, modify, check}
use sso_go.Repo.Tables.{has_project, roles_of, active_verified}

-- `copyPayload[key] = value`
unfoldable pub put : Text → Value → Payload → Payload
put k v [] = (k, v) ∷ []
put k v ((j, w) ∷ rest) = if j == k then (k, v) ∷ rest else (j, w) ∷ put k v rest

abbrev pub outbox_row : Text → Text → Kind → Payload → ℕ → OutboxRow
outbox_row id project kind payload now = record {
  id = id;
  project_id = project;
  event_type = kind;
  payload = payload;
  created_at = now;
  published_at = none;
  attempts = 0;
  last_error = none;
}

abbrev pub sync_row : ℕ → Text → Kind → Text → Payload → SyncRow
sync_row id project kind account payload = record {
  id = id;
  project_id = project;
  event_type = kind;
  account_id = account;
  payload = payload;
}

-- the two inserts of QueueEvent, once the payload is fixed
unfoldable pub write_event : Text → Text → Kind → Text → Payload → Tx (Unit {0})
write_event id project kind account payload = do
  check (λ d. not (any_where (λ (o : OutboxRow). o.id == id) d.outbox)) unique_violation
  modify (λ now d. record d { outbox = d.outbox ++ outbox_row id project kind payload now ∷ [] })
  check (has_project project) other_violation
  modify (λ _ d. record d {
    sync = d.sync ++ sync_row (suc d.last_event) project kind account payload ∷ [];
    last_event = suc d.last_event;
  })

-- QueueEvent: a profile update carries the roles that the account has in the project
unfoldable pub queue_event : Text → Text → Kind → Text → Payload → Tx (Unit {0})
unfolding write_event
queue_event id project profile_updated account payload = do
  roles ← first_row (λ _ d. roles_of account project d)
  write_event id project profile_updated account (put (codes "roles") (texts roles) payload)
queue_event id project kind account payload = write_event id project kind account payload

abbrev pub audit : Option Text → Option Text → Option Text → Kind → Text → Tx (Unit {0})
audit actor service project action subject = modify (λ _ d. record d {
  audit =
      d.audit
      ++ record {
        actor_id = actor;
        service_id = service;
        project_id = project;
        action = action;
        subject_id = subject;
      }
        ∷ [];
})

-- AuditEvent
unfoldable pub audit_event : Text → Text → Text → Text → Kind → Text → Payload → Tx (Unit {0})
unfolding queue_event
audit_event id actor client project kind account payload = do
  audit (some actor) (some client) (some project) kind account
  queue_event id project kind account payload

-- account_id=$1 AND project_id<>$2 ORDER BY project_id
unfoldable pub profile_projects : Text → Text → Db → List Text
profile_projects account origin d =
    map (λ (a : Access). a.project_id)
      (order_by (λ (a b : Access). text_ltb a.project_id b.project_id)
        (select_where (λ (a : Access). a.account_id == account && not (a.project_id == origin))
          d.access))

-- the loop over ProfileProjects: one event for each, with the next id
unfoldable pub queue_all : (ℕ → Text) → List Text → Kind → Text → Payload → Tx (Unit {0})
queue_all ids [] kind account payload = pure tt
queue_all ids (project ∷ rest) kind account payload = do
  queue_event (ids 0) project kind account payload
  queue_all (λ n. ids (suc n)) rest kind account payload

abbrev pub user_payload : Text → Payload
user_payload id = (codes "user_id", text id) ∷ []

abbrev pub account_payload_of : Account → List Text → Payload
account_payload_of a roles =
    (codes "user_id", text a.id)
    ∷ (codes "old_id", number a.old_id)
    ∷ (codes "email", text a.email)
    ∷ (codes "login", text a.login)
    ∷ (codes "name", text a.name)
    ∷ (codes "given_name", text a.given_name)
    ∷ (codes "family_name", text a.family_name)
    ∷ (codes "avatar_url", text a.avatar_url)
    ∷ (codes "roles", texts roles)
    ∷ []

-- AccountPayload
unfoldable pub account_payload : Text → List Text → Tx Payload
account_payload user roles = do
  a ← first_row (λ _ d. find_where (λ (a : Account). a.id == user && active_verified a) d.accounts)
  pure (account_payload_of a roles)
