-- ===== src/Migrations/Complete.antt =====
-- What Migrate does to a schema.
use sso_go.Prelude.{
  ℕ, ◌<◌, ◌≤◌, eqb, leb, Bool, true, false, ◌&&◌, ◌||◌, not, some, List, [], ◌∷◌, ◌++◌,
  Option-cases, ok, ◌≡◌, ◌⊎◌, inl, inr, refl, arith, if◌then◌else◌,
}
use mathlib.Core.List.{append_assoc, append-nil}
use sso_go.Migrations.{
  Script, initial, identity, legacy_ids, Schema, highest, rows_of, version, member, run_branches,
  migrate,
}

-- the scripts that a schema of a version lacks; a schema without migrations may have the first
abbrev pub missing : ℕ → Bool → List Script
missing v accounts =
    (if eqb v 0 && not accounts then initial ∷ [] else [])
    ++ (if leb v 1 then identity ∷ [] else [])
    ++ (if leb v 2 then legacy_ids ∷ [] else [])

member-above : (n : ℕ) (vs : List ℕ) → highest vs < n → member n vs ≡ false
unfolding member highest
member-above n [] lt = refl
member-above n (v ∷ vs) lt = ground (arith, member-above n vs)

member-append : (n m : ℕ) (vs : List ℕ) → member n (vs ++ m ∷ []) ≡ (member n vs || eqb m n)
unfolding member
member-append n m [] = ground arith
member-append n m (v ∷ vs) = ground (arith, member-append n m vs)

highest-append : (m : ℕ) (vs : List ℕ) → highest vs < m → highest (vs ++ m ∷ []) ≡ m
unfolding highest
highest-append m [] lt = ground arith
highest-append m (v ∷ vs) lt = ground (arith, highest-append m vs)

up_to_three : (v : ℕ) → v ≤ 3 → (v ≡ 0) ⊎ ((v ≡ 1) ⊎ ((v ≡ 2) ⊎ (v ≡ 3)))
up_to_three v le = ground arith

-- Where it is at version 3, Migrate changes nothing but that the table of versions is there.
migrate-done :
    (works : Script → Bool) (s : Schema) (vs : List ℕ)
    → s.versions ≡ some vs
    → highest vs ≡ 3
    → migrate works s ≡ ok s
unfolding migrate run_branches
migrate-done works s vs e v = ground (arith, e, v)

module _ (works : Script → Bool) (s : Schema) (all : (x : Script) → works x ≡ true) where
  abbrev old : List ℕ
  old = rows_of s.versions

  -- the schema after the branches from a version on
  abbrev Complete : Schema → Type 0
  Complete s' =
      (migrate works s ≡ ok s')
      × (version s' ≡ 3)
      × (s'.executed ≡ s.executed ++ missing (version s) s.accounts)

  from_three : version s ≡ 3 → (s' : Schema) × Complete s'
  unfolding migrate run_branches
  from_three v = (
    record s { versions = some old },
    (ground (arith, v), v, ground (arith, v, append-nil s.executed)),
  )

  from_two : version s ≡ 2 → (s' : Schema) × Complete s'
  unfolding migrate run_branches
  from_two v = (
    record s { versions = some (old ++ 3 ∷ []); executed = s.executed ++ legacy_ids ∷ [] },
    (
      ground (arith, v, all legacy_ids, member-above 3 old),
      highest-append 3 old (omega (arith, v)),
      ground (arith, v),
    ),
  )

  from_one : version s ≡ 1 → (s' : Schema) × Complete s'
  unfolding migrate run_branches
  from_one v =
      let h2 = highest-append 2 old (omega (arith, v)) in
      (
        record s {
          versions = some ((old ++ 2 ∷ []) ++ 3 ∷ []);
          executed = (s.executed ++ identity ∷ []) ++ legacy_ids ∷ [];
        },
        (
          ground (
            arith,
            v,
            all identity,
            all legacy_ids,
            member-above 2 old,
            member-above 3 (old ++ 2 ∷ []),
            h2,
          ),
          highest-append 3 (old ++ 2 ∷ []) (omega (arith, h2)),
          ground (arith, v, append_assoc s.executed (identity ∷ []) (legacy_ids ∷ [])),
        ),
      )

  -- the scripts of a database without migrations, whose tables may be there
  abbrev at_first : List Script
  at_first = if s.accounts then s.executed else s.executed ++ initial ∷ []

  from_zero : version s ≡ 0 → (s' : Schema) × Complete s'
  unfolding migrate run_branches
  from_zero v =
      let h1 = highest-append 1 old (omega (arith, v)) in
      let h2 = highest-append 2 (old ++ 1 ∷ []) (omega (arith, h1)) in
      (
        record s {
          versions = some (((old ++ 1 ∷ []) ++ 2 ∷ []) ++ 3 ∷ []);
          executed = (at_first ++ identity ∷ []) ++ legacy_ids ∷ [];
          accounts = true;
        },
        (
          ground (
            arith,
            v,
            all initial,
            all identity,
            all legacy_ids,
            member-above 1 old,
            member-above 2 (old ++ 1 ∷ []),
            member-above 3 ((old ++ 1 ∷ []) ++ 2 ∷ []),
            h1,
            h2,
          ),
          highest-append 3 ((old ++ 1 ∷ []) ++ 2 ∷ []) (omega (arith, h2)),
          ground (
            arith,
            v,
            append_assoc at_first (identity ∷ []) (legacy_ids ∷ []),
            append_assoc s.executed (initial ∷ []) (identity ∷ legacy_ids ∷ []),
          ),
        ),
      )

  migrated : version s ≤ 3 → (s' : Schema) × Complete s'
  migrated le = elim (up_to_three (version s) le) [
    | inl v ↦ from_zero v
    | inr (inl v) ↦ from_one v
    | inr (inr (inl v)) ↦ from_two v
    | inr (inr (inr v)) ↦ from_three v
  ]

  -- Where the database is not newer than this binary and every script works, Migrate succeeds and
  -- leaves version 3: it executes the scripts that the database lacks, each once and in order, where
  -- tables without a version count as the first. Another run then changes nothing, whatever works.
  pub migrate_complete :
      version s ≤ 3
      → (s' : Schema) × (migrate works s ≡ ok s')
        × (version s' ≡ 3)
        × (s'.executed ≡ s.executed ++ missing (version s) s.accounts)
        × ((works' : Script → Bool) → migrate works' s' ≡ ok s')
  migrate_complete le =
      let (s', (done, at_three, scripts)) = migrated le in
      (
        s',
        done,
        at_three,
        scripts,
        λ works'. elim (Option-cases s'.versions) [
          | inl missing_table ↦ absurd (unfold highest in ground (arith, at_three, missing_table))
          | inr (vs, e) ↦ migrate-done works' s' vs e (ground (arith, at_three, e))
        ],
      )
