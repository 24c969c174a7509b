-- ===== src/Service/Errors.antt =====
-- internal/service/errors.go: the repository's errors as those of the services.
use sso_go.Prelude.{Error, no_rows, unique_violation, not_found, conflict}
use sso_go.Action.{Action, mapping}

-- storageError
abbrev pub storage_error : Error → Error
storage_error no_rows = not_found
storage_error unique_violation = conflict
storage_error e = e

abbrev pub stored {ℓ} : {A : Type ℓ} → Action A → Action A
stored = mapping storage_error
