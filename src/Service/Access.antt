-- ===== src/Service/Access.antt =====
-- internal/service/limits.go and ClientProject of sync.go: what guards the endpoints.
use sso_go.Prelude.{ℕ, ◌+◌, Text, ◌==◌, Bool, false, ◌&&◌, not, [], ◌∷◌, ◌++◌, invalid_client, ok}
use sso_go.Action.{Action, ◌>>=◌, ◌>>◌, pure, require, or_not_found, mapping}
use sso_go.Repo.Tables.{get_client}
use sso_go.Repo.Maintenance.{increment_attempt, within}

module _ (hash : Text → Text) where
  abbrev limit_key : Text → Text → Text
  limit_key scope value = hash (scope ++ b':' ∷ value)

  abbrev counted_try : Text → ℕ → ℕ → Action Bool
  counted_try key limit window w =
      let (r, w') = increment_attempt key (w.now + window) w in (ok (within limit r), w')

  -- Limits.Allow
  unfoldable pub allow : Text → Text → ℕ → ℕ → Action Bool
  allow scope [] limit window = pure false
  allow scope (c ∷ value) limit window = counted_try (limit_key scope (c ∷ value)) limit window

  -- Sync.ClientProject
  unfoldable pub client_project : Text → Text → Action Text
  client_project id secret = do
    require (not (id == []) && not (secret == [])) invalid_client
    c ← mapping (or_not_found invalid_client) (get_client id)
    require (c.secret_hash == hash secret) invalid_client
    pure c.project
