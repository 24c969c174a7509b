-- ===== src/Repo/Events/Feed/Polling.antt =====
-- A client that asks Changes again and again, each time from the last cursor that it got.
use sso_go.Prelude.{
  ℕ, zero, suc, ◌+◌, ◌*◌, ◌≤◌, Text, false, List, [], ◌∷◌, ◌++◌, map, length, take, if◌then◌else◌,
  Result, ok, err, unavailable, ◌≡◌, refl, arith, inl, inr, Bool-cases, ap, ◌∙◌,
}
use sso_go.Db.{SyncRow}
use sso_go.Action.{World, fails, later_faults, drawn}
use sso_go.Action.Run.{run_lem}
use sso_go.Repo.Events.Feed.{SyncEvent, event_of, last_id, changes}
use sso_go.Repo.Events.Feed.Paging.{IsFeed, drop, pending, pending-last_id, order_by-IsFeed}

abbrev seen : Result (List SyncEvent × ℕ) → List SyncEvent
seen (ok (events, after)) = events
seen (err e) = []

abbrev cursor : ℕ → Result (List SyncEvent × ℕ) → ℕ
cursor after (ok (events, next)) = next
cursor after (err e) = after

-- the events that `n` requests bring, from the cursor `after` on; one that fails is made again
pub polls : Text → ℕ → ℕ → World → List SyncEvent
polls project zero after w = []
polls project (suc n) after w =
    let (r, w') = changes project after w in seen r ++ polls project n (cursor after r) w'

module _ {ℓ} {A : Type ℓ} where
  take-drop : (a k : ℕ) (xs : List A) → (j : ℕ) × (take a xs ++ take k (drop a xs) ≡ take j xs)
  take-drop zero k xs = (k, refl)
  take-drop (suc a) zero [] = (0, refl)
  take-drop (suc a) (suc k) [] = (0, refl)
  take-drop (suc a) k (x ∷ xs) = let (j, e) = take-drop a k xs in (suc j, ap (λ rest. x ∷ rest) e)

  append-drop : (a : ℕ) (xs : List A) → take a xs ++ drop a xs ≡ xs
  append-drop zero xs = refl
  append-drop (suc a) [] = refl
  append-drop (suc a) (x ∷ xs) = ap (λ rest. x ∷ rest) (append-drop a xs)

  length-drop_le : (a b : ℕ) (xs : List A) → length xs ≤ a + b → length (drop a xs) ≤ b
  length-drop_le zero b xs h = omega arith
  length-drop_le (suc a) b [] h = omega arith
  length-drop_le (suc a) b (x ∷ xs) h = length-drop_le a b xs (omega arith)

map-append_lem :
    (xs ys : List SyncRow) → map event_of xs ++ map event_of ys ≡ map event_of (xs ++ ys)
map-append_lem [] ys = refl
map-append_lem (x ∷ xs) ys = ap (λ rest. event_of x ∷ rest) (map-append_lem xs ys)

map-nil : (xs : List SyncRow) → length xs ≤ 200 * 0 → [] ≡ map event_of xs
map-nil [] h = refl
map-nil (x ∷ xs) h = absurd (omega arith)

module _ (project : Text) (after : ℕ) (w : World) (feed : IsFeed 0 w.db.sync) where
  abbrev rows : List SyncRow
  rows = take 200 (pending project after w.db.sync)

  changes_lem : changes project after w ≡ (
      if fails w.faults
      then (err unavailable, drawn w)
      else (ok (map event_of rows, last_id after rows), drawn w))
  unfolding changes
  changes_lem = elim (Bool-cases (fails w.faults)) [
    | inl down ↦ rw (run_lem, down) refl
    | inr up ↦ rw (run_lem, up, order_by-IsFeed 0 w.db.sync feed) refl
  ]

-- Whatever requests the database fails, the events that a client has got are the first of those
-- pending beyond its first cursor, in order, none missing and none twice.
pub polls-take :
    (project : Text) (n after : ℕ) (w : World)
    → IsFeed 0 w.db.sync
    → (k : ℕ) × (polls project n after w ≡ map event_of (take k (pending project after w.db.sync)))
unfolding polls
polls-take project zero after w feed = (0, refl)
polls-take project (suc n) after w feed = elim (Bool-cases (fails w.faults)) [
  | inl down ↦
      (let (k, e) = polls-take project n after (drawn w) feed in
        (k, rw (changes_lem project after w feed, down) e))
  | inr up ↦
      (let got = rows project after w feed in
        let (k, e) = polls-take project n (last_id after got) (drawn w) feed in
        let (j, e') = take-drop 200 k (pending project after w.db.sync) in
        (
          j,
          rw (changes_lem project after w feed, up)
              (ap (λ rest. map event_of got ++ rest)
                  (e
                    ∙ ap (λ ps. map event_of (take k ps))
                        (pending-last_id project 200 after 0 w.db.sync feed))
                ∙ map-append_lem got (take k (drop 200 (pending project after w.db.sync)))
                ∙ ap (λ ps. map event_of ps) e'),
        ))
]

-- While the database works, `n` requests bring all the pending events of the project, if there are
-- at most 200 for each request.
pub polls-all :
    (project : Text) (n after : ℕ) (w : World)
    → IsFeed 0 w.db.sync
    → w.faults ≡ []
    → length (pending project after w.db.sync) ≤ 200 * n
    → polls project n after w ≡ map event_of (pending project after w.db.sync)
unfolding polls
polls-all project zero after w feed up few = map-nil (pending project after w.db.sync) few
polls-all project (suc n) after w feed up few =
    let got = rows project after w feed in
    let all = pending project after w.db.sync in
    let next = pending-last_id project 200 after 0 w.db.sync feed in
    let fewer : length (pending project (last_id after got) w.db.sync) ≤ 200 * n =
      rw next (length-drop_le 200 (200 * n) all (omega arith)) in
    let works : fails w.faults ≡ false = ap fails up in
    rw (changes_lem project after w feed, works)
      (ap (λ rest. map event_of got ++ rest)
          (polls-all project n (last_id after got) (drawn w) feed (ap later_faults up) fewer
            ∙ ap (λ ps. map event_of ps) next)
        ∙ map-append_lem got (drop 200 all)
        ∙ ap (λ ps. map event_of ps) (append-drop 200 all))
