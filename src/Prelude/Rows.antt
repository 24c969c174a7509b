-- ===== src/Prelude/Rows.antt =====
-- Tables as lists of rows: SELECT, UPDATE and DELETE under a WHERE clause.
use Prim.Native.Nat.{ℕ, ◌+◌, ◌≤◌, ◌<◌}
use mathlib.Core.Path.{◌≡◌, refl}
use mathlib.Core.Bool.{Bool, true, false, ◌&&◌, ◌||◌}
use mathlib.Core.Option
use mathlib.Core.Option.{Option, none, some}
use mathlib.Core.List.{List, [], ◌∷◌, ◌++◌}
use native.Mathlib.Omega.{arith}
use sso_go.Prelude.Tests.{if◌then◌else◌, is_some}

module _ {ℓ} {R : Type ℓ} where
  -- SELECT ... WHERE p, the first row
  unfoldable pub find_where : (R → Bool) → List R → Option R
  find_where p [] = none
  find_where p (r ∷ rs) = if p r then some r else find_where p rs

  -- EXISTS (SELECT ... WHERE p)
  unfoldable pub any_where : (R → Bool) → List R → Bool
  any_where p [] = false
  any_where p (r ∷ rs) = if p r then true else any_where p rs

  -- SELECT ... WHERE p, all rows
  unfoldable pub select_where : (R → Bool) → List R → List R
  select_where p [] = []
  select_where p (r ∷ rs) = let rest = select_where p rs in if p r then r ∷ rest else rest

  -- UPDATE ... SET f WHERE p
  unfoldable pub update_where : (R → Bool) → (R → R) → List R → List R
  update_where p f [] = []
  update_where p f (r ∷ rs) = (if p r then f r else r) ∷ update_where p f rs

  -- DELETE ... WHERE p
  unfoldable pub delete_where : (R → Bool) → List R → List R
  delete_where p [] = []
  delete_where p (r ∷ rs) = let rest = delete_where p rs in if p r then rest else r ∷ rest

  -- SELECT count(*) ... WHERE p
  unfoldable pub count_where : (R → Bool) → List R → ℕ
  count_where p [] = 0
  count_where p (r ∷ rs) = (if p r then 1 else 0) + count_where p rs

module _ {ℓ} {R : Type ℓ} where
  -- The row that a SELECT returns satisfies its WHERE clause.
  pub find_where-some : (p : R → Bool) (rs : List R) (r : R) → find_where p rs ≡ some r → p r ≡ true
  unfolding find_where
  find_where-some p [] r h = cc
  find_where-some p (s ∷ rs) r h = ground (arith, find_where-some p rs r)

  -- After an UPDATE that takes its rows out of `q`, and where `q` holds of no other row, a SELECT
  -- under `q` finds nothing.
  pub find_where-update_none :
      (q p : R → Bool) (f : R → R) (rs : List R)
      → ((r : R) → p r ≡ true → q (f r) ≡ false)
      → ((r : R) → p r ≡ false → q r ≡ false)
      → find_where q (update_where p f rs) ≡ none
  unfolding find_where update_where
  find_where-update_none q p f [] hit miss = refl
  find_where-update_none q p f (r ∷ rs) hit miss =
      ground (arith, hit r, miss r, find_where-update_none q p f rs hit miss)

  -- An UPDATE whose new rows keep the truth of `q` changes what a SELECT returns in place.
  pub find_where-update_keep :
      (q p : R → Bool) (f : R → R) (rs : List R)
      → ((r : R) → p r ≡ true → q (f r) ≡ q r)
      → find_where q (update_where p f rs)
        ≡ Option.map (λ r. if p r then f r else r) (find_where q rs)
  unfolding find_where update_where
  find_where-update_keep q p f [] keep = refl
  find_where-update_keep q p f (r ∷ rs) keep =
      ground (arith, keep r, find_where-update_keep q p f rs keep)

  pub find_where-delete_none :
      (q p : R → Bool) (rs : List R)
      → ((r : R) → q r ≡ true → p r ≡ true)
      → find_where q (delete_where p rs) ≡ none
  unfolding find_where delete_where
  find_where-delete_none q p [] sub = refl
  find_where-delete_none q p (r ∷ rs) sub = ground (arith, sub r, find_where-delete_none q p rs sub)

  pub find_where-delete_keep :
      (q p : R → Bool) (rs : List R)
      → ((r : R) → q r ≡ true → p r ≡ false)
      → find_where q (delete_where p rs) ≡ find_where q rs
  unfolding find_where delete_where
  find_where-delete_keep q p [] sub = refl
  find_where-delete_keep q p (r ∷ rs) sub = ground (arith, sub r, find_where-delete_keep q p rs sub)

  pub find_where-append :
      (q : R → Bool) (rs ss : List R)
      → find_where q (rs ++ ss) ≡ (if any_where q rs then find_where q rs else find_where q ss)
  unfolding find_where any_where
  find_where-append q [] ss = refl
  find_where-append q (r ∷ rs) ss = ground (arith, find_where-append q rs ss)

  pub any_where-append :
      (q : R → Bool) (rs ss : List R) → any_where q (rs ++ ss) ≡ (any_where q rs || any_where q ss)
  unfolding any_where
  any_where-append q [] ss = refl
  any_where-append q (r ∷ rs) ss = ground (arith, any_where-append q rs ss)

  pub any_where-find : (q : R → Bool) (rs : List R) → any_where q rs ≡ is_some (find_where q rs)
  unfolding find_where any_where
  any_where-find q [] = refl
  any_where-find q (r ∷ rs) = ground (arith, any_where-find q rs)

  pub count_where-append :
      (q : R → Bool) (rs ss : List R)
      → count_where q (rs ++ ss) ≡ count_where q rs + count_where q ss
  unfolding count_where
  count_where-append q [] ss = omega arith
  count_where-append q (r ∷ rs) ss = ground (arith, count_where-append q rs ss)

  -- Rows that an UPDATE takes out of `q` are no longer counted.
  pub count_where-update_out :
      (q p : R → Bool) (f : R → R) (rs : List R)
      → ((r : R) → p r ≡ true → q (f r) ≡ false)
      → count_where q (update_where p f rs) + count_where (λ r. p r && q r) rs ≡ count_where q rs
  unfolding count_where update_where
  count_where-update_out q p f [] out = refl
  count_where-update_out q p f (r ∷ rs) out =
      ground (arith, out r, count_where-update_out q p f rs out)

  pub count_where-delete_le :
      (q p : R → Bool) (rs : List R) → count_where q (delete_where p rs) ≤ count_where q rs
  unfolding count_where delete_where
  count_where-delete_le q p [] = omega arith
  count_where-delete_le q p (r ∷ rs) = ground (arith, count_where-delete_le q p rs)

  pub count_where_mono :
      (p q : R → Bool) (rs : List R)
      → ((r : R) → p r ≡ true → q r ≡ true)
      → count_where p rs ≤ count_where q rs
  unfolding count_where
  count_where_mono p q [] sub = omega arith
  count_where_mono p q (r ∷ rs) sub = ground (arith, sub r, count_where_mono p q rs sub)

  -- What a SELECT finds is counted.
  pub count_where-find :
      (q : R → Bool) (rs : List R) (r : R) → find_where q rs ≡ some r → 0 < count_where q rs
  unfolding find_where count_where
  count_where-find q [] r h = cc
  count_where-find q (s ∷ rs) r h = ground (arith, count_where-find q rs r)

  pub count_where-none :
      (q : R → Bool) (rs : List R) → find_where q rs ≡ none → count_where q rs ≡ 0
  unfolding find_where count_where
  count_where-none q [] h = refl
  count_where-none q (s ∷ rs) h = ground (arith, count_where-none q rs)

  -- The row that a SELECT finds is counted under every test that it passes.
  pub count_where-find_and :
      (p q : R → Bool) (rs : List R) (r : R)
      → find_where p rs ≡ some r
      → q r ≡ true
      → 0 < count_where (λ s. p s && q s) rs
  unfolding find_where count_where
  count_where-find_and p q [] r h k = cc
  count_where-find_and p q (s ∷ rs) r h k = ground (arith, count_where-find_and p q rs r)

module _ {ℓ} {R : Type ℓ} where
  -- No row passes a test under which a SELECT finds nothing.
  pub find_where-none :
      (q p : R → Bool) (rs : List R) (r : R)
      → find_where q rs ≡ none
      → find_where p rs ≡ some r
      → q r ≡ false
  unfolding find_where
  find_where-none q p [] r none_q found = cc
  find_where-none q p (s ∷ rs) r none_q found = ground (arith, find_where-none q p rs r)

  pub find_where_mono :
      (q p : R → Bool) (rs : List R)
      → ((r : R) → p r ≡ true → q r ≡ true)
      → find_where q rs ≡ none
      → find_where p rs ≡ none
  unfolding find_where
  find_where_mono q p [] sub h = refl
  find_where_mono q p (r ∷ rs) sub h = ground (arith, sub r, find_where_mono q p rs sub)

  pub find_where-delete_still :
      (q p : R → Bool) (rs : List R)
      → find_where q rs ≡ none
      → find_where q (delete_where p rs) ≡ none
  unfolding find_where delete_where
  find_where-delete_still q p [] h = refl
  find_where-delete_still q p (r ∷ rs) h = ground (arith, find_where-delete_still q p rs)

  -- An UPDATE that puts no row into `q` leaves nothing to find there.
  pub find_where-update_still :
      (q p : R → Bool) (f : R → R) (rs : List R)
      → ((r : R) → q (f r) ≡ true → q r ≡ true)
      → find_where q rs ≡ none
      → find_where q (update_where p f rs) ≡ none
  unfolding find_where update_where
  find_where-update_still q p f [] sub h = refl
  find_where-update_still q p f (r ∷ rs) sub h =
      ground (arith, sub r, find_where-update_still q p f rs sub)

  -- A test that no updated row passes but for one that passed `q` before.
  pub find_where-update_from :
      (q q' p : R → Bool) (f : R → R) (rs : List R)
      → ((r : R) → q' (if p r then f r else r) ≡ true → q r ≡ true)
      → find_where q rs ≡ none
      → find_where q' (update_where p f rs) ≡ none
  unfolding find_where update_where
  find_where-update_from q q' p f [] sub h = refl
  find_where-update_from q q' p f (r ∷ rs) sub h =
      ground (arith, sub r, find_where-update_from q q' p f rs sub)

  -- The row that a SELECT found is found, updated, under another test, if that test refuses what
  -- the first one refused.
  pub find_where-update_move :
      (q q' p : R → Bool) (f : R → R) (rs : List R) (k : R)
      → find_where q rs ≡ some k
      → p k ≡ true
      → q' (f k) ≡ true
      → ((r : R) → q r ≡ false → q' (if p r then f r else r) ≡ false)
      → find_where q' (update_where p f rs) ≡ some (f k)
  unfolding find_where update_where
  find_where-update_move q q' p f [] k found pk qk out = cc
  find_where-update_move q q' p f (r ∷ rs) k found pk qk out =
      ground (arith, out r, find_where-update_move q q' p f rs k)

module _ {ℓ} {R : Type ℓ} where
  insert_by : (R → R → Bool) → R → List R → List R
  insert_by before r [] = r ∷ []
  insert_by before r (s ∷ rs) = if before s r then s ∷ insert_by before r rs else r ∷ s ∷ rs

  -- ORDER BY, for rows that `before` puts in order; rows that it does not tell apart keep theirs
  unfoldable pub order_by : (R → R → Bool) → List R → List R
  unfolding insert_by
  order_by before [] = []
  order_by before (r ∷ rs) = insert_by before r (order_by before rs)

module _ {ℓ} {R : Type ℓ} (q : R → Bool) (before : R → R → Bool) where
  find_where-insert_out :
      (r : R) (rs : List R) → q r ≡ false → find_where q (insert_by before r rs) ≡ find_where q rs
  unfolding find_where insert_by
  find_where-insert_out r [] out = ground arith
  find_where-insert_out r (s ∷ rs) out = ground (arith, find_where-insert_out r rs out)

  find_where-insert_only :
      (r : R) (rs : List R)
      → q r ≡ true
      → find_where q rs ≡ none
      → find_where q (insert_by before r rs) ≡ some r
  unfolding find_where insert_by
  find_where-insert_only r [] hit none_q = ground arith
  find_where-insert_only r (s ∷ rs) hit none_q = ground (arith, find_where-insert_only r rs hit)

  -- The one row that passes a test is found, wherever the order puts it.
  pub find_where-order_last :
      (rs : List R) (r : R)
      → q r ≡ true
      → find_where q rs ≡ none
      → find_where q (order_by before (rs ++ r ∷ [])) ≡ some r
  unfolding find_where order_by
  find_where-order_last [] r hit none_q = ground arith
  find_where-order_last (s ∷ rs) r hit none_q = ground (
    arith,
    find_where-order_last rs r hit,
    find_where-insert_out s (order_by before (rs ++ r ∷ [])),
  )

  count_where-insert_by :
      (r : R) (rs : List R) → count_where q (insert_by before r rs) ≡ count_where q (r ∷ rs)
  unfolding count_where insert_by
  count_where-insert_by r [] = refl
  count_where-insert_by r (s ∷ rs) = ground (arith, count_where-insert_by r rs)

  -- ORDER BY neither drops a row nor repeats one.
  pub count_where-order_by : (rs : List R) → count_where q (order_by before rs) ≡ count_where q rs
  unfolding count_where order_by
  count_where-order_by [] = refl
  count_where-order_by (r ∷ rs) =
      ground (arith, count_where-insert_by r (order_by before rs), count_where-order_by rs)
