-- ===== src/Examples/State.antt =====
-- A small database: one active account, with a session, a code and a refresh token, and two others.
use sso_go.Prelude.{ℕ, Text, codes, false, none, some, [], ◌∷◌}
use sso_go.Db.{
  Db, Account, Status, active, pending, CodeRow, RefreshRow, SigningKey, OutboxRow, profile_updated,
}
use sso_go.Action.{World}

abbrev pub account : Text → Text → Status → Account
account id email status = record {
  id = id;
  email = email;
  login = id;
  password_hash = codes "old";
  name = id;
  given_name = [];
  family_name = [];
  avatar_url = [];
  status = status;
  verified = some 1;
  global_admin = false;
  old_id = none;
  created_at = 1;
}

abbrev pub code_row : Text → CodeRow
code_row hash = record {
  code_hash = hash;
  account_id = codes "ann";
  client_id = codes "web";
  redirect_uri = codes "https://web/cb";
  nonce = codes "n";
  code_challenge = codes "ch";
  scopes = codes "openid" ∷ [];
  expires_at = 120;
  used_at = none;
}

abbrev pub token_row : Text → RefreshRow
token_row hash = record {
  token_hash = hash;
  family_id = codes "f";
  account_id = codes "ann";
  client_id = codes "web";
  project_id = codes "shop";
  scopes = codes "openid" ∷ [];
  expires_at = 1000;
  family_expires_at = 1000;
  used_at = none;
  revoked_at = none;
}

abbrev pub key_row : Text → SigningKey
key_row kid = record {
  kid = kid;
  private_pem = codes "pem";
  public_jwk = codes "jwk";
  created_at = 1;
  retired_at = none;
  publish_until = none;
}

abbrev pub event_row : Text → ℕ → OutboxRow
event_row id at = record {
  id = id;
  project_id = codes "shop";
  event_type = profile_updated;
  payload = [];
  created_at = at;
  published_at = none;
  attempts = 0;
  last_error = none;
}

abbrev pub small_db : Db
small_db = record {
  accounts =
      account (codes "ann") (codes "ann@x") active
      ∷ account (codes "bob") (codes "bob@x") pending
      ∷ [];
  verifications = [];
  resets =
      record {
        token_hash = codes "reset";
        account_id = codes "ann";
        expires_at = 500;
        used_at = none;
      }
      ∷ [];
  sessions = record { token_hash = codes "t"; account_id = codes "ann"; expires_at = 900 } ∷ [];
  limits = [];
  projects = record { id = codes "shop"; name = codes "Shop" } ∷ [];
  clients =
      record {
        id = codes "web";
        project = codes "shop";
        secret_hash = codes "sec";
        redirects = codes "https://web/cb" ∷ [];
      }
      ∷ [];
  access =
      record { account_id = codes "ann"; project_id = codes "shop"; roles = codes "user" ∷ [] }
      ∷ [];
  requests = [];
  codes = code_row (codes "t") ∷ [];
  refresh = token_row (codes "t") ∷ [];
  keys = key_row (codes "k1") ∷ [];
  audit = [];
  outbox = event_row (codes "e1") 1 ∷ event_row (codes "e2") 2 ∷ [];
  sync = [];
  last_event = 0;
}

abbrev pub at_time : ℕ → World
at_time now = record { db = small_db; faults = []; now = now }
