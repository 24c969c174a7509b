-- ===== src/Repo/Keys/Single.antt =====
-- Rotation leaves one current key, and keeps the old ones good for ten minutes.
use sso_go.Prelude.{
  ℕ, ◌+◌, ◌≤◌, ◌<◌, Text, false, none, some, ◌≡◌, refl, ap, ◌∙◌, ok, arith, List, [], ◌∷◌, ◌++◌,
  find_where, update_where, count_where, count_where-append, find_where-append,
  find_where-update_none, find_where-update_move, find_where-order_last, order_by, count_where-none,
  any_where-find, find_where-some,
}
use sso_go.Db.{SigningKey}
use sso_go.Action.{World, fails}
use sso_go.Action.Run.{run-eq-ok, run_ok, run-gets, run-first_row}
use sso_go.Repo.Keys.{
  rotate_signing_key, rotate_key, is_current, retire, new_key, verifies, verification_key,
  active_signing_key_count, active_signing_key, newest_first,
}

abbrev retired_keys : ℕ → List SigningKey → List SigningKey
retired_keys now keys = update_where is_current (retire now) keys

none_current :
    (now : ℕ) (keys : List SigningKey) → find_where is_current (retired_keys now keys) ≡ none
none_current now keys =
    find_where-update_none is_current is_current (retire now) keys (λ _ _. refl) (λ _ h. h)

module _ (kid private public : Text) (w : World)
    (done : (rotate_signing_key kid private public w).0 ≡ ok tt) where
  keys-rotate :
      (rotate_signing_key kid private public w).1.db.keys
      ≡ retired_keys w.now w.db.keys ++ new_key kid private public w.now ∷ []
  unfolding rotate_signing_key rotate_key
  keys-rotate = ground (arith, run-eq-ok _ w tt done)

  -- After RotateSigningKey the new key is the one current key, and the one that signs, while
  -- nothing else is written and the database works.
  pub rotate_signing_key-single :
      (w' : World)
      → w'.db.keys ≡ (rotate_signing_key kid private public w).1.db.keys
      → fails w'.faults ≡ false
      → ((active_signing_key_count w').0 ≡ ok 1)
        × ((active_signing_key w').0 ≡ ok (new_key kid private public w.now))
  unfolding active_signing_key_count active_signing_key
  rotate_signing_key-single w' same up =
      let k = new_key kid private public w.now in
      let old = retired_keys w.now w.db.keys in
      let count : count_where is_current w'.db.keys ≡ 1 =
        unfold count_where in
        rw (same, keys-rotate)
          (ground (
            arith,
            count_where-append is_current old (k ∷ []),
            count_where-none is_current old (none_current w.now w.db.keys),
          )) in
      let found : find_where is_current (order_by newest_first w'.db.keys) ≡ some k =
        rw (same, keys-rotate)
          (find_where-order_last is_current newest_first old k refl
            (none_current w.now w.db.keys)) in
      (
        ap (λ p. p.0) (run-gets w' up (λ _ d. count_where is_current d.keys)) ∙ ap ok count,
        ap (λ p. p.0)
            (run-first_row w' up (λ _ d. find_where is_current (order_by newest_first d.keys)) k
              found),
      )

  -- A key that was current when RotateSigningKey replaced it still verifies for ten minutes, while
  -- nothing else is written and the database works.
  pub verification_key-grace :
      (old_kid : Text) (k : SigningKey) (w' : World)
      → find_where (verifies old_kid w.now) w.db.keys ≡ some k
      → k.retired_at ≡ none
      → w'.db.keys ≡ (rotate_signing_key kid private public w).1.db.keys
      → w.now ≤ w'.now
      → w'.now < w.now + 600
      → fails w'.faults ≡ false
      → (verification_key old_kid w').0 ≡ ok k.private_pem
  unfolding verification_key
  verification_key-grace old_kid k w' found current same le lt up =
      let old = retired_keys w.now w.db.keys in
      let new = new_key kid private public w.now ∷ [] in
      let moved =
        find_where-update_move (verifies old_kid w.now) (verifies old_kid w'.now) is_current
          (retire w.now) w.db.keys k found (ground arith)
          (ground (arith, find_where-some (verifies old_kid w.now) w.db.keys k found))
          (λ r h. ground arith) in
      let found' : find_where (verifies old_kid w'.now) w'.db.keys ≡ some (retire w.now k) =
        rw (same, keys-rotate)
          (ground (
            arith,
            moved,
            find_where-append (verifies old_kid w'.now) old new,
            any_where-find (verifies old_kid w'.now) old,
          )) in
      ap (λ p. p.0) (run_ok _ w' k.private_pem w'.db up (ground (arith, found')))
