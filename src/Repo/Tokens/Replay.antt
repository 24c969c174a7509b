-- ===== src/Repo/Tokens/Replay.antt =====
-- A refresh token that is shown again after its rotation costs the whole family, for good.
use sso_go.Prelude.{
  ℕ, Text, false, none, some, ◌≡◌, ◌≢◌, ap, ok, err, token_reuse, arith, List, [], ◌∷◌, ◌++◌, ◌⊎◌,
  inl, inr, find_where, any_where-find, find_where-append, find_where-update_still,
  find_where-update_none, find_where-delete_still, find_where_mono, find_where-none, eq_iff,
  Option-cases, update_where,
}
use sso_go.Db.{RefreshRow}
use sso_go.Action.{World, fails}
use sso_go.Action.Run.{run_committed_lem}
use sso_go.Repo.Oauth.{
  RefreshGrant, rotate_refresh, rotate, unrevoked_in, revoke_at, use_at, successor,
}
use sso_go.Repo.Oauth.Rotation.{with_hash, rotate_refresh-Renewed}
use sso_go.Repo.Oauth.Families.{in_family, Kept}
use sso_go.Repo.Oauth.Replay.{rotate-spent}
use sso_go.Repo.Tokens.{Step, Step-keeps}

-- Any number of steps over which the family's random name is not drawn again: where no row has it,
-- a step leaves none.
pub data Later (family : Text) : World → World → Type 0 where
  here : (w : World) → Later family w w
  after :
      (w v u : World)
      → Later family w v
      → Step v u
      → (find_where (in_family family) v.db.refresh ≡ none
          → find_where (in_family family) u.db.refresh ≡ none)
      → Later family w u

module _ (family : Text) where
  abbrev IsDead : List RefreshRow → Type 0
  IsDead rows = find_where (unrevoked_in family) rows ≡ none

  append-IsDead :
      (rows : List RefreshRow) (r : RefreshRow)
      → unrevoked_in family r ≡ false
      → IsDead rows
      → IsDead (rows ++ r ∷ [])
  unfolding find_where
  append-IsDead rows r out dead = ground (
    arith,
    any_where-find (unrevoked_in family) rows,
    find_where-append (unrevoked_in family) rows (r ∷ []),
  )

  update-IsDead :
      (hash : Text) (now : ℕ) (rows : List RefreshRow)
      → IsDead rows
      → IsDead (update_where (with_hash hash) (use_at now) rows)
  update-IsDead hash now rows dead =
      find_where-update_still (unrevoked_in family) (with_hash hash) (use_at now) rows (λ r h. h)
        dead

  -- Revoking, deleting and replacing leave a family without a live token so.
  IsDead-Kept : Kept IsDead
  IsDead-Kept = record {
    by_revoke = λ p now rows dead.
        find_where-update_still (unrevoked_in family) p (revoke_at now) rows (λ r h. ground arith)
          dead;
    by_delete = λ p rows dead. find_where-delete_still (unrevoked_in family) p rows dead;
    by_replace = λ hash next_hash client project now rows r found unused unrevoked dead.
        append-IsDead (update_where (with_hash hash) (use_at now) rows)
          (successor next_hash client project r)
          (ground (arith, find_where-none (unrevoked_in family) (with_hash hash) rows r dead found))
          (update-IsDead hash now rows dead);
  }

  Step-IsDead :
      (v u : World)
      → Step v u
      → (find_where (in_family family) v.db.refresh ≡ none
          → find_where (in_family family) u.db.refresh ≡ none)
      → IsDead v.db.refresh
      → IsDead u.db.refresh
  Step-IsDead v u step unused dead =
      elim (Option-cases (find_where (in_family family) v.db.refresh)) [
        | inl gone ↦
            find_where_mono (in_family family) (unrevoked_in family) u.db.refresh
              (λ r h. ground arith) (unused gone)
        | inr (s, found) ↦
            Step-keeps IsDead IsDead-Kept v u step
              (λ r new. append-IsDead v.db.refresh r (ground (arith, eq_iff r.family_id family)))
              dead
      ]

  -- A family without a live token stays so.
  Later-IsDead : (w u : World) → Later family w u → IsDead w.db.refresh → IsDead u.db.refresh
  Later-IsDead w _ (here _) dead = dead
  Later-IsDead w u (after _ v _ before step unused) dead =
      Step-IsDead v u step unused (Later-IsDead w v before dead)

  -- RotateRefresh redeems no token of such a family.
  rotate_refresh-IsDead :
      (hash next_hash client project : Text) (app_now : ℕ) (w : World) (s : RefreshRow)
      (g : RefreshGrant)
      → IsDead w.db.refresh
      → find_where (with_hash hash) w.db.refresh ≡ some s
      → s.family_id ≡ family
      → (rotate_refresh hash next_hash client project app_now w).0 ≢ ok g
  rotate_refresh-IsDead hash next_hash client project app_now w s g dead found e h =
      let (r, found', _, _, made) =
        rotate_refresh-Renewed hash next_hash client project app_now w g h in
      let out = find_where-none (unrevoked_in family) (with_hash hash) w.db.refresh s dead found in
      let revoked = made.unrevoked in ground (arith, eq_iff s.family_id family)

-- Once a token was rotated, it is shown again by its own client, while its own row is still there
-- as the rotation left it or revoked since; all other rows may be any (the successor may have been
-- rotated in turn, by anyone) and the database works. Then the answer is the reuse error, every token
-- of the family is revoked, and after any further operations that do not draw the family's random
-- name anew, no token of the family is redeemed, whoever shows it.
pub refresh_replay :
    (hash next_hash next' client project : Text) (app_now app_now' : ℕ) (w w' u : World)
    (g g'' : RefreshGrant) (r r' s : RefreshRow) (shown next'' client'' project'' : Text)
    (app_now'' : ℕ)
    → find_where (with_hash hash) w.db.refresh ≡ some r
    → (rotate_refresh hash next_hash client project app_now w).0 ≡ ok g
    → find_where (with_hash hash) w'.db.refresh ≡ some r'
    → (r' ≡ use_at w.now r) ⊎ ((t : ℕ) × (r' ≡ revoke_at t (use_at w.now r)))
    → fails w'.faults ≡ false
    → Later r.family_id (rotate_refresh hash next' client project app_now' w').1 u
    → find_where (with_hash shown) u.db.refresh ≡ some s
    → s.family_id ≡ r.family_id
    → ((rotate_refresh hash next' client project app_now' w').0 ≡ err token_reuse)
      × (find_where
            (unrevoked_in r.family_id)
            (rotate_refresh hash next' client project app_now' w').1.db.refresh
          ≡ none)
      × ((rotate_refresh shown next'' client'' project'' app_now'' u).0 ≢ ok g'')
unfolding rotate_refresh
refresh_replay hash next_hash next' client project app_now app_now' w w' u g g'' r r' s shown next''
      client'' project'' app_now'' found h again left up later found'' family =
    let (r₀, found₀, c, p, made) =
      rotate_refresh-Renewed hash next_hash client project app_now w g h in
    let family' : r'.family_id ≡ r.family_id = ground arith in
    let spent =
      rotate-spent hash next' client project app_now' w'.now w'.db r' again (ground arith)
        (ground arith) (ground arith) in
    let second = run_committed_lem (rotate hash next' client project app_now') w' _ _ up spent in
    let dead =
      find_where-update_none (unrevoked_in r.family_id) (unrevoked_in r'.family_id)
        (revoke_at w'.now) w'.db.refresh (λ s g. ground arith) (λ s g. ground arith) in
    let dead' : find_where (unrevoked_in r.family_id)
          (rotate_refresh hash next' client project app_now' w').1.db.refresh
        ≡ none =
      unfold rotate_refresh in rw second dead in
    (
      ap (λ p. p.0) second,
      dead',
      rotate_refresh-IsDead r.family_id shown next'' client'' project'' app_now'' u s g''
          (Later-IsDead r.family_id _ u later dead') found'' family,
    )
