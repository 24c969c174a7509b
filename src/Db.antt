-- ===== src/Db.antt =====
-- The tables that migrations/postgres/*.up.sql create, with the columns that the program reads.
-- Times are numbers on one scale of seconds. A JSON payload is kept as the map it encodes.
use sso_go.Prelude.{ℕ, ℤ, Text, Bool, Option, List}

-- accounts.status, under its CHECK
pub data Status : Type 0 where
  pending active disabled : Status

-- access_requests.status
pub data Decision : Type 0 where
  pending approved : Decision

pub record Account : Type 0 where
  pub id : Text
  pub email : Text
  pub login : Text
  pub password_hash : Text
  pub name : Text
  pub given_name : Text
  pub family_name : Text
  pub avatar_url : Text
  pub status : Status
  pub verified : Option ℕ
  pub global_admin : Bool
  pub old_id : Option ℤ
  pub created_at : ℕ

-- email_verifications and password_resets
pub record OneTime : Type 0 where
  pub token_hash : Text
  pub account_id : Text
  pub expires_at : ℕ
  pub used_at : Option ℕ

pub record Session : Type 0 where
  pub token_hash : Text
  pub account_id : Text
  pub expires_at : ℕ

pub record Limit : Type 0 where
  pub key_hash : Text
  pub attempts : ℕ
  pub window_until : ℕ

pub record Project : Type 0 where
  pub id : Text
  pub name : Text

pub record Client : Type 0 where
  pub id : Text
  pub project : Text
  pub secret_hash : Text
  pub redirects : List Text

pub record Access : Type 0 where
  pub account_id : Text
  pub project_id : Text
  pub roles : List Text

pub record AccessRequest : Type 0 where
  pub id : Text
  pub account_id : Text
  pub project_id : Text
  pub status : Decision
  pub created_at : ℕ
  pub decided_at : Option ℕ

pub record CodeRow : Type 0 where
  pub code_hash : Text
  pub account_id : Text
  pub client_id : Text
  pub redirect_uri : Text
  pub nonce : Text
  pub code_challenge : Text
  pub scopes : List Text
  pub expires_at : ℕ
  pub used_at : Option ℕ

pub record RefreshRow : Type 0 where
  pub token_hash : Text
  pub family_id : Text
  pub account_id : Text
  pub client_id : Text
  pub project_id : Text
  pub scopes : List Text
  pub expires_at : ℕ
  pub family_expires_at : ℕ
  pub used_at : Option ℕ
  pub revoked_at : Option ℕ

pub record SigningKey : Type 0 where
  pub kid : Text
  pub private_pem : Text
  pub public_jwk : Text
  pub created_at : ℕ
  pub retired_at : Option ℕ
  pub publish_until : Option ℕ

-- the texts that audit_events.action, outbox.event_type and sync_events.event_type hold
pub data Kind : Type 0 where
  profile_updated sessions_revoked access_granted access_revoked roles_changed : Kind
  account_activated account_disabled password_reset password_changed global_admin_granted : Kind

pub record AuditEvent : Type 0 where
  pub actor_id : Option Text
  pub service_id : Option Text
  pub project_id : Option Text
  pub action : Kind
  pub subject_id : Text

-- A value in a JSON payload: a string, a nullable number or a list of strings.
pub data Value : Type 0 where
  text : Text → Value
  number : Option ℤ → Value
  texts : List Text → Value

abbrev pub Payload : Type 0
Payload = List (Text × Value)

pub record OutboxRow : Type 0 where
  pub id : Text
  pub project_id : Text
  pub event_type : Kind
  pub payload : Payload
  pub created_at : ℕ
  pub published_at : Option ℕ
  pub attempts : ℕ
  pub last_error : Option Text

pub record SyncRow : Type 0 where
  pub id : ℕ
  pub project_id : Text
  pub event_type : Kind
  pub account_id : Text
  pub payload : Payload

pub record Db : Type 0 where
  pub accounts : List Account
  pub verifications : List OneTime
  pub resets : List OneTime
  pub sessions : List Session
  pub limits : List Limit
  pub projects : List Project
  pub clients : List Client
  pub access : List Access
  pub requests : List AccessRequest
  pub codes : List CodeRow
  pub refresh : List RefreshRow
  pub keys : List SigningKey
  pub audit : List AuditEvent
  pub outbox : List OutboxRow
  pub sync : List SyncRow
  -- the identity sequence of sync_events.id: the last number given out
  pub last_event : ℕ
