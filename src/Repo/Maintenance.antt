-- ===== src/Repo/Maintenance.antt =====
-- internal/repository/postgres/maintenance.go: the attempt counters and the hourly cleanup.
pub mod Limiting
use sso_go.Prelude.{
  ℕ, ◌+◌, suc, Text, ◌==◌, Bool, true, false, ◌&&◌, Option, none, some, List, [], ◌∷◌, ◌++◌, Result,
  ok, err, ltb, leb, if◌then◌else◌, find_where, update_where, delete_where, count_where, is_none,
}
use sso_go.Db.{Db, Limit, OneTime, Session, CodeRow, RefreshRow, SigningKey, OutboxRow}
use sso_go.Tx.{Tx, modify}
use sso_go.Action.{Action, pure, run, ◌>>=◌, ◌>>◌}

abbrev pub limit_is : Text → Limit → Bool
limit_is key l = l.key_hash == key

-- the SET of the ON CONFLICT clause
abbrev pub count_attempt : ℕ → ℕ → Limit → Limit
count_attempt until now l = record l {
  attempts = if ltb l.window_until now then 1 else l.attempts + 1;
  window_until = if ltb l.window_until now then until else l.window_until;
}

abbrev first_attempt : Text → ℕ → Limit
first_attempt key until = record { key_hash = key; attempts = 1; window_until = until }

-- the rows after the statement, and the attempts that it returns
abbrev pub counted : Text → ℕ → ℕ → List Limit → ℕ × List Limit
counted key until now rows = elim (find_where (limit_is key) rows) [
  | none ↦ (1, rows ++ first_attempt key until ∷ [])
  | some l ↦ (
    (count_attempt until now l).attempts,
    update_where (limit_is key) (count_attempt until now) rows,
  )
]

-- IncrementAttempt
unfoldable pub increment_attempt : Text → ℕ → Action ℕ
increment_attempt key until =
    run (λ now d.
      let (n, rows) = counted key until now d.limits in ok (n, record d { limits = rows }))

-- `err == nil && attempts <= limit`
abbrev pub within : ℕ → Result ℕ → Bool
within limit (ok n) = leb n limit
within limit (err e) = false

-- 1 day, 30 days
abbrev pub day : ℕ
day = 86400

abbrev month : ℕ
month = 2592000

-- `at < now() - age`, written so that nothing is subtracted; NULL is not less
abbrev pub older : ℕ → ℕ → ℕ → Bool
older age now at = ltb (at + age) now

abbrev pub older? : ℕ → ℕ → Option ℕ → Bool
older? age now none = false
older? age now (some at) = older age now at

-- the queries of CleanupExpired, in its order
abbrev pub clean_limits : ℕ → Db → Db
clean_limits now d = record d {
  limits = delete_where (λ (l : Limit). older day now l.window_until) d.limits;
}

abbrev pub clean_verifications : ℕ → Db → Db
clean_verifications now d = record d {
  verifications = delete_where (λ (t : OneTime). older day now t.expires_at) d.verifications;
}

abbrev pub clean_resets : ℕ → Db → Db
clean_resets now d = record d {
  resets = delete_where (λ (t : OneTime). older day now t.expires_at) d.resets;
}

abbrev pub clean_codes : ℕ → Db → Db
clean_codes now d = record d {
  codes = delete_where (λ (c : CodeRow). older day now c.expires_at) d.codes;
}

abbrev pub clean_sessions : ℕ → Db → Db
clean_sessions now d = record d {
  sessions = delete_where (λ (s : Session). older 0 now s.expires_at) d.sessions;
}

abbrev pub clean_refresh : ℕ → Db → Db
clean_refresh now d = record d {
  refresh = delete_where (λ (r : RefreshRow). older day now r.family_expires_at) d.refresh;
}

abbrev pub clean_keys : ℕ → Db → Db
clean_keys now d = record d {
  keys = delete_where (λ (k : SigningKey). older? day now k.publish_until) d.keys;
}

abbrev pub clean_outbox : ℕ → Db → Db
clean_outbox now d = record d {
  outbox = delete_where (λ (o : OutboxRow). older? month now o.published_at) d.outbox;
}

-- each query by itself on the pool, so what one deleted stays deleted if a later one fails
unfoldable pub run_each : List (ℕ → Db → Db) → Action (Unit {0})
run_each [] = pure tt
run_each (query ∷ queries) = run (modify query) >> run_each queries

-- CleanupExpired
unfoldable pub cleanup_expired : Action (Unit {0})
cleanup_expired = run_each (
    clean_limits ∷ clean_verifications ∷ clean_resets ∷ clean_codes ∷ clean_sessions ∷ clean_refresh
    ∷ clean_keys ∷ clean_outbox ∷ [])
