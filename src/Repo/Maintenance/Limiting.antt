-- ===== src/Repo/Maintenance/Limiting.antt =====
-- The attempt counters: in one window a key is granted at most `limit` attempts.
use sso_go.Prelude.{
  ℕ, ◌+◌, ◌-◌, ◌≤◌, ◌<◌, Text, ◌==◌, false, ◌&&◌, none, some, ◌≡◌, refl, ◌∙◌, ok, err, arith, List,
  [], ◌∷◌, All, find_where, find_where-some, find_where-append, find_where-update_keep,
  any_where-find, eq_iff, eq_refl, if◌then◌else◌, Option-cases, Bool-cases, inl, inr, ◌⊎◌,
  unavailable,
}
use sso_go.Db.{Limit}
use sso_go.Action.{World, drawn, fails}
use sso_go.Action.Run.{run_lem}
use sso_go.Repo.Maintenance.{
  within, limit_is, count_attempt, first_attempt, counted, increment_attempt,
}

-- A key's row after an attempt with a key, at a time in or after its window.
find-counted_self_old :
    (key : Text) (until now : ℕ) (rows : List Limit) (l : Limit)
    → find_where (limit_is key) rows ≡ some l
    → (find_where (limit_is key) (counted key until now rows).1 ≡ some (count_attempt until now l))
      × ((counted key until now rows).0 ≡ (count_attempt until now l).attempts)
find-counted_self_old key until now rows l found = (
  ground (
    arith,
    find_where-some (limit_is key) rows l found,
    find_where-update_keep (limit_is key) (limit_is key) (count_attempt until now) rows
        (λ _ _. refl),
  ),
  ground arith,
)

find-counted_self_new :
    (key : Text) (until now : ℕ) (rows : List Limit)
    → find_where (limit_is key) rows ≡ none
    → (find_where (limit_is key) (counted key until now rows).1 ≡ some (first_attempt key until))
      × ((counted key until now rows).0 ≡ 1)
unfolding find_where
find-counted_self_new key until now rows none_k = (
  ground (
    arith,
    eq_refl key,
    any_where-find (limit_is key) rows,
    find_where-append (limit_is key) rows (first_attempt key until ∷ []),
  ),
  ground arith,
)

find-counted_other :
    (key k : Text) (until now : ℕ) (rows : List Limit)
    → (k == key) ≡ false
    → find_where (limit_is key) (counted k until now rows).1 ≡ find_where (limit_is key) rows
find-counted_other key k until now rows ne =
    let kept =
      find_where-update_keep (limit_is key) (limit_is k) (count_attempt until now) rows
        (λ _ _. refl) in
    let appended = find_where-append (limit_is key) rows (first_attempt k until ∷ []) in
    let known = any_where-find (limit_is key) rows in
    elim (Option-cases (find_where (limit_is key) rows)) [
      | inl missing ↦ unfold find_where in ground (arith, kept, appended, known)
      | inr (l, found) ↦ ground (
        arith,
        kept,
        appended,
        known,
        find_where-some (limit_is key) rows l found,
        eq_iff l.key_hash k,
        eq_iff l.key_hash key,
        eq_iff k key,
      )
    ]

abbrev attempted : ℕ → Text → ℕ → World → World
attempted window k now w = record (drawn w) {
  db = record w.db { limits = (counted k (now + window) now w.db.limits).1 };
  now = now;
}

increment_lem :
    (k : Text) (window now : ℕ) (w : World)
    → increment_attempt k (now + window) (record w { now = now }) ≡ (
        if fails w.faults
        then (err unavailable, record (drawn w) { now = now })
        else (ok (counted k (now + window) now w.db.limits).0, attempted window k now w))
unfolding increment_attempt
increment_lem k window now w = rw run_lem refl

module _ (key : Text) (limit window : ℕ) where
  -- How many of the attempts, each with its key and time, are granted to `key` by Limits.Allow.
  pub granted : List (Text × ℕ) → World → ℕ
  granted [] w = 0
  granted ((k, now) ∷ rest) w =
      let (r, w') = increment_attempt k (now + window) (record w { now = now }) in
      (if k == key && within limit r then 1 else 0) + granted rest w'

  -- the times at which `key` is tried lie in [from, until]
  abbrev Between : ℕ → ℕ → List (Text × ℕ) → Type 0
  Between from until attempts =
      All (λ (a : Text × ℕ). a.0 ≡ key → (from ≤ a.1) × (a.1 ≤ until)) attempts

  granted_open :
      (attempts : List (Text × ℕ)) (from until : ℕ) (w : World) (l : Limit)
      → find_where (limit_is key) w.db.limits ≡ some l
      → until ≤ l.window_until
      → Between from until attempts
      → granted attempts w ≤ limit - l.attempts
  unfolding granted
  granted_open [] from until w l found open_window times = omega arith
  granted_open ((k, now) ∷ rest) from until w l found open_window (time, times) =
      let w0 = record (drawn w) { now = now } in
      let row = count_attempt (now + window) now l in
      let known = find-counted_self_old key (now + window) now w.db.limits l found in
      elim (Bool-cases (fails w.faults)) [
        | inl down ↦
            rw (increment_lem, down)
              (ground (arith, granted_open rest from until w0 l found open_window times))
        | inr up ↦ elim (Bool-cases (k == key)) [
          | inl same ↦
              (let e = (eq_iff k key).0 same in
                let open_row : until ≤ row.window_until = ground (arith, time e) in
                let later =
                  granted_open rest from until (attempted window key now w) row known.0 open_row
                    times in
                rw (increment_lem, up, e) (ground (arith, later, known.1, time e)))
          | inr other ↦
              rw (increment_lem, up)
                (ground (
                  arith,
                  granted_open rest from until (attempted window k now w) l
                      (find-counted_other key k (now + window) now w.db.limits other ∙ found)
                      open_window times,
                ))
        ]
      ]

  -- no row, or one whose window ended before `from`
  abbrev IsClosed : ℕ → List Limit → Type 0
  IsClosed from rows =
      (find_where (limit_is key) rows ≡ none)
      ⊎ ((l : Limit) × (find_where (limit_is key) rows ≡ some l) × (l.window_until < from))

  -- the row that the first counted attempt of a closed window leaves
  opens :
      (from now : ℕ) (rows : List Limit)
      → IsClosed from rows
      → from ≤ now
      → (l : Limit) × (find_where (limit_is key) (counted key (now + window) now rows).1 ≡ some l)
        × (l.attempts ≡ 1)
        × (l.window_until ≡ now + window)
        × ((counted key (now + window) now rows).0 ≡ 1)
  opens from now rows (inl missing) le =
      let new = find-counted_self_new key (now + window) now rows missing in
      (first_attempt key (now + window), new.0, refl, refl, new.1)
  opens from now rows (inr (l, found, ended)) le =
      let old = find-counted_self_old key (now + window) now rows l found in
      (count_attempt (now + window) now l, old.0, ground arith, ground arith, old.1 ∙ ground arith)

  IsClosed-other :
      (k : Text) (from now : ℕ) (rows : List Limit)
      → (k == key) ≡ false
      → IsClosed from rows
      → IsClosed from (counted k (now + window) now rows).1
  IsClosed-other k from now rows other (inl missing) =
      inl (find-counted_other key k (now + window) now rows other ∙ missing)
  IsClosed-other k from now rows other (inr (l, found, ended)) =
      inr (l, find-counted_other key k (now + window) now rows other ∙ found, ended)

  -- Whatever attempts are made with other keys in between, and whichever of them the database
  -- fails, a key with no window open at the time `from` is granted at most `limit` attempts up to
  -- the time `from + window`.
  pub granted-le-limit :
      (attempts : List (Text × ℕ)) (from : ℕ) (w : World)
      → IsClosed from w.db.limits
      → Between from (from + window) attempts
      → granted attempts w ≤ limit
  unfolding granted
  granted-le-limit [] from w closed times = omega arith
  granted-le-limit ((k, now) ∷ rest) from w closed (time, times) =
      elim (Bool-cases (fails w.faults)) [
        | inl down ↦
            rw (increment_lem, down)
              (ground
                (arith, granted-le-limit rest from (record (drawn w) { now = now }) closed times))
        | inr up ↦ elim (Bool-cases (k == key)) [
          | inl same ↦
              (let e = (eq_iff k key).0 same in
                let (l, found, one, ends, n) = opens from now w.db.limits closed (time e).0 in
                let later =
                  granted_open rest from (from + window) (attempted window key now w) l found
                    (ground (arith, time e)) times in
                rw (increment_lem, up, e) (ground (arith, later, time e)))
          | inr other ↦
              rw (increment_lem, up)
                (ground (
                  arith,
                  granted-le-limit rest from (attempted window k now w)
                      (IsClosed-other k from now w.db.limits other closed) times,
                ))
        ]
      ]
