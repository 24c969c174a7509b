-- ===== src/Repo/Oauth/Families.antt =====
-- Refresh token families: at most one token of a family is live, neither used nor revoked.
use sso_go.Prelude.{
  delete_where, count_where-delete_le, ℕ, ◌≤◌, Text, ◌==◌, Bool, ◌&&◌, none, some, ◌≡◌, Result,
  arith, List, [], ◌∷◌, ◌++◌, find_where, count_where, count_where-append, count_where-update_out,
  count_where-find_and, count_where_mono, count_where-none, update_where, is_none, eq_iff, inl, inr,
}
use sso_go.Db.{Db, RefreshRow}
use sso_go.Action.{World}
use sso_go.Action.Run.{run-keeps, db-run_committed}
use sso_go.Repo.Oauth.Rotation.{rotate_inv, Outcome, with_hash}
use sso_go.Repo.Oauth.{
  rotate_refresh, rotate, successor, use_at, revoke_at, unrevoked_in, RefreshGrant, create_refresh,
  insert_refresh, first_token,
}

abbrev pub live_in : Text → RefreshRow → Bool
live_in family r = r.family_id == family && is_none r.used_at && is_none r.revoked_at

abbrev pub live_count : Text → List RefreshRow → ℕ
live_count family rows = count_where (live_in family) rows

abbrev pub in_family : Text → RefreshRow → Bool
in_family family r = r.family_id == family

-- No family has two live tokens.
abbrev pub IsSingle : List RefreshRow → Type 0
IsSingle rows = (family : Text) → live_count family rows ≤ 1

module _ (hash next_hash client project : Text) (now : ℕ) (rows : List RefreshRow)
    (r : RefreshRow) where
  abbrev used : List RefreshRow
  used = update_where (λ (s : RefreshRow). s.token_hash == hash) (use_at now) rows

  -- Replacing a live token by its successor leaves the number of live tokens of each family.
  replace-IsSingle :
      find_where (λ (s : RefreshRow). s.token_hash == hash) rows ≡ some r
      → r.used_at ≡ none
      → r.revoked_at ≡ none
      → IsSingle rows
      → IsSingle (used ++ successor next_hash client project r ∷ [])
  unfolding count_where
  replace-IsSingle found u v single family = ground (
    arith,
    single family,
    eq_iff r.family_id family,
    count_where-append (live_in family) used (successor next_hash client project r ∷ []),
    count_where-update_out (live_in family) (λ (s : RefreshRow). s.token_hash == hash) (use_at now)
        rows (λ s p. ground arith),
    count_where-find_and (λ (s : RefreshRow). s.token_hash == hash) (live_in family) rows r found,
  )

-- A property of the refresh tokens that each way of writing them keeps, a new family aside.
pub record Kept (P : List RefreshRow → Type 0) : Type 0 where
  pub by_revoke :
      (p : RefreshRow → Bool) (now : ℕ) (rows : List RefreshRow)
      → P rows
      → P (update_where p (revoke_at now) rows)
  pub by_delete :
      (p : RefreshRow → Bool) (rows : List RefreshRow) → P rows → P (delete_where p rows)
  pub by_replace :
      (hash next_hash client project : Text) (now : ℕ) (rows : List RefreshRow) (r : RefreshRow)
      → find_where (with_hash hash) rows ≡ some r
      → r.used_at ≡ none
      → r.revoked_at ≡ none
      → P rows
      → P (
          update_where (with_hash hash) (use_at now) rows
          ++ successor next_hash client project r ∷ [])

-- Revoking, deleting and replacing keep the families single.
pub IsSingle-Kept : Kept IsSingle
IsSingle-Kept = record {
  by_revoke = λ p now rows single family. omega (
    arith,
    single family,
    count_where-update_out (live_in family) p (revoke_at now) rows (λ s _. ground arith),
  );
  by_delete = λ p rows single family.
      omega (arith, single family, count_where-delete_le (live_in family) p rows);
  by_replace = replace-IsSingle;
}

-- A token of a family that no row has.
pub append-IsSingle :
    (rows : List RefreshRow) (r : RefreshRow)
    → find_where (in_family r.family_id) rows ≡ none
    → IsSingle rows
    → IsSingle (rows ++ r ∷ [])
unfolding count_where
append-IsSingle rows r new single family = ground (
  arith,
  single family,
  eq_iff r.family_id family,
  count_where-append (live_in family) rows (r ∷ []),
  count_where_mono (live_in family) (in_family family) rows (λ s h. ground arith),
  count_where-none (in_family family) rows,
)

module _ (P : List RefreshRow → Type 0) where
  module _ (kept : Kept P) (hash next_hash client project : Text) (app_now : ℕ) where
    Outcome-keeps :
        (now : ℕ) (d d' : Db) (r : RefreshRow) (res : Result RefreshGrant)
        → find_where (with_hash hash) d.refresh ≡ some r
        → Outcome hash next_hash client project app_now now d res d' r
        → P d.refresh
        → P d'.refresh
    Outcome-keeps now d d' r res found out h = elim out.2 [
      | inl reused ↦ rw reused.tables (kept.by_revoke (unrevoked_in r.family_id) now d.refresh h)
      | inr renewed ↦ rw renewed.tables (
          kept.by_replace hash next_hash client project now d.refresh r found renewed.unused
            renewed.unrevoked h)
    ]

    -- RotateRefresh, whatever it returns, keeps such a property.
    pub rotate_refresh-keeps :
        (w : World)
        → P w.db.refresh
        → P (rotate_refresh hash next_hash client project app_now w).1.db.refresh
    unfolding rotate_refresh
    rotate_refresh-keeps w h =
        let m = rotate hash next_hash client project app_now in
        rw (db-run_committed m w) (
          run-keeps (λ d. P d.refresh) m w
            (λ res d' done.
              let (r, found, out) =
                rotate_inv hash next_hash client project app_now w.now w.db res d' done in
              Outcome-keeps w.now w.db d' r res found out h)
            h)

  -- CreateRefresh keeps a property that its new row keeps.
  pub create_refresh-keeps :
      (hash family account client project : Text) (scopes : List Text) (w : World)
      → (let r = first_token hash family account client project scopes w.now in
          P w.db.refresh → P (w.db.refresh ++ r ∷ []))
      → P w.db.refresh
      → P (create_refresh hash family account client project scopes w).1.db.refresh
  unfolding create_refresh
  create_refresh-keeps hash family account client project scopes w add h =
      let r = first_token hash family account client project scopes w.now in
      run-keeps (λ d. P d.refresh) (insert_refresh hash family account client project scopes) w
        (λ _ d' done.
          let e : d'.refresh ≡ w.db.refresh ++ r ∷ [] = unfold insert_refresh in ground arith in
          rw e (add h))
        h
