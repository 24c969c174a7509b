-- ===== src/Repo/Events/Feed/Paging.antt =====
-- A client that polls Changes from its cursor misses no event and sees none twice.
use sso_go.Prelude.{
  ℕ, zero, suc, ◌≤◌, ◌<◌, Text, true, false, List, [], ◌∷◌, take, select_where, order_by, ◌≡◌, refl,
  arith, inl, inr, Bool-cases, ap, ◌∙◌,
}
use sso_go.Db.{SyncRow}
use sso_go.Repo.Events.Feed.{oldest_event, pending_for, last_id}

-- The numbers of the events grow, all beyond `from`: the identity column gives them out in order.
abbrev pub IsFeed : ℕ → List SyncRow → Type 0
IsFeed from [] = Unit
IsFeed from (s ∷ rows) = (from < s.id) × IsFeed s.id rows

abbrev pub drop {ℓ} : {A : Type ℓ} → ℕ → List A → List A
drop zero xs = xs
drop (suc n) [] = []
drop (suc n) (x ∷ xs) = drop n xs

abbrev pub pending : Text → ℕ → List SyncRow → List SyncRow
pending project after rows = select_where (pending_for project after) rows

-- rows in order stay as they are
pub order_by-IsFeed :
    (from : ℕ) (rows : List SyncRow) → IsFeed from rows → order_by oldest_event rows ≡ rows
unfolding order_by
order_by-IsFeed from [] h = refl
order_by-IsFeed from (s ∷ []) h = refl
order_by-IsFeed from (s ∷ t ∷ rows) (lt, (lt', h)) =
    ground (arith, order_by-IsFeed s.id (t ∷ rows) (lt', h))

IsFeed-le : (a b : ℕ) (rows : List SyncRow) → a ≤ b → IsFeed b rows → IsFeed a rows
IsFeed-le a b [] le h = tt
IsFeed-le a b (s ∷ rows) le (lt, h) = (omega arith, h)

-- a lower cursor makes no difference to later rows
pending-later :
    (project : Text) (a b : ℕ) (rows : List SyncRow)
    → a ≤ b
    → IsFeed b rows
    → pending project a rows ≡ pending project b rows
unfolding select_where
pending-later project a b [] le h = refl
pending-later project a b (s ∷ rows) le (lt, h) =
    ground (arith, pending-later project a b rows le (IsFeed-le b s.id rows (omega arith) h))

le-last_id : (after : ℕ) (rows : List SyncRow) → IsFeed after rows → after ≤ last_id after rows
unfolding last_id
le-last_id after [] h = omega arith
le-last_id after (s ∷ rows) (lt, h) = omega (arith, le-last_id s.id rows h)

-- the rows of a page are in order
IsFeed-page :
    (project : Text) (n after from : ℕ) (rows : List SyncRow)
    → IsFeed from rows
    → IsFeed after (take n (pending project after rows))
unfolding select_where
IsFeed-page project zero after from rows h = tt
IsFeed-page project (suc n) after from [] h = tt
IsFeed-page project (suc n) after from (s ∷ rows) (lt, h) =
    elim (Bool-cases (pending_for project after s)) [
      | inl hit ↦
          rw (hit, pending-later project after s.id rows (ground arith) h)
            (ground arith, IsFeed-page project n s.id s.id rows h)
      | inr miss ↦ rw miss (IsFeed-page project (suc n) after s.id rows h)
    ]

le-page :
    (project : Text) (n after from : ℕ) (rows : List SyncRow)
    → IsFeed from rows
    → after ≤ last_id after (take n (pending project after rows))
le-page project n after from rows h =
    le-last_id after (take n (pending project after rows)) (IsFeed-page project n after from rows h)

pending-hit :
    (project : Text) (after : ℕ) (s : SyncRow) (rows : List SyncRow)
    → pending_for project after s ≡ true
    → IsFeed s.id rows
    → pending project after (s ∷ rows) ≡ s ∷ pending project s.id rows
unfolding select_where
pending-hit project after s rows hit h =
    rw hit (ap (λ rest. s ∷ rest) (pending-later project after s.id rows (ground arith) h))

pending-miss :
    (project : Text) (after : ℕ) (s : SyncRow) (rows : List SyncRow)
    → pending_for project after s ≡ false
    → pending project after (s ∷ rows) ≡ pending project after rows
unfolding select_where
pending-miss project after s rows miss = rw miss refl

-- After a page, what is pending from its last event on is what was pending beyond the page.
pub pending-last_id :
    (project : Text) (n after from : ℕ) (rows : List SyncRow)
    → IsFeed from rows
    → pending project (last_id after (take n (pending project after rows))) rows
      ≡ drop n (pending project after rows)
unfolding last_id
pending-last_id project zero after from rows h = refl
pending-last_id project (suc n) after from [] h = unfold select_where in refl
pending-last_id project (suc n) after from (s ∷ rows) (lt, h) =
    elim (Bool-cases (pending_for project after s)) [
      | inl hit ↦
          (let c = last_id s.id (take n (pending project s.id rows)) in
            let passed : pending_for project c s ≡ false =
              ground (arith, le-page project n s.id s.id rows h) in
            rw (pending-hit project after s rows hit h)
              (pending-miss project c s rows passed ∙ pending-last_id project n s.id s.id rows h))
      | inr miss ↦
          (let c = last_id after (take (suc n) (pending project after rows)) in
            let passed : pending_for project c s ≡ false =
              ground (arith, le-page project (suc n) after s.id rows h) in
            rw (pending-miss project after s rows miss) (
              pending-miss project c s rows passed
              ∙ pending-last_id project (suc n) after s.id rows h))
    ]
