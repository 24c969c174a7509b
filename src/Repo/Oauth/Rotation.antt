-- ===== src/Repo/Oauth/Rotation.antt =====
-- RotateRefresh by cases: what it found, and what it wrote.
use sso_go.Prelude.{
  ℕ, ◌<◌, Text, ◌==◌, Bool, true, false, ◌||◌, none, some, ◌≡◌, ◌⊎◌, Result, ok, err, token_reuse,
  arith, [], ◌∷◌, ◌++◌, find_where, any_where, update_where, is_some, refl, eq_iff, eq_refl,
  any_where-find, find_where-update_keep, Option-cases, Bool-cases, inl, inr,
}
use sso_go.Db.{Db, RefreshRow}
use sso_go.Action.{World, fails, drawn}
use sso_go.Action.Run.{run_committed-eq-ok, run_committed_lem}
use sso_go.Repo.Tables.{has_account, has_client, has_project}
use sso_go.Repo.Oauth.{
  RefreshGrant, has_refresh, rotate_refresh, rotate, unrevoked_in, revoke_at, use_at, successor,
  grant_of,
}

abbrev pub with_hash : Text → RefreshRow → Bool
with_hash hash r = r.token_hash == hash

-- The token had been used or revoked: all of its family is revoked.
pub record Reused (now : ℕ) (d d' : Db) (r : RefreshRow) (res : Result RefreshGrant) : Type 0 where
  pub spent : (is_some r.used_at || is_some r.revoked_at) ≡ true
  pub result : res ≡ err token_reuse
  pub tables :
      d' ≡ record d { refresh = update_where (unrevoked_in r.family_id) (revoke_at now) d.refresh }

-- The token was live and in time: it is used up, and its successor is inserted.
pub record Renewed (hash next_hash client project : Text) (app_now now : ℕ) (d d' : Db)
    (r : RefreshRow) (res : Result RefreshGrant) : Type 0 where
  pub unused : r.used_at ≡ none
  pub unrevoked : r.revoked_at ≡ none
  pub in_time : app_now < r.expires_at
  pub family_in_time : app_now < r.family_expires_at
  pub fresh :
      any_where (with_hash next_hash) (update_where (with_hash hash) (use_at now) d.refresh) ≡ false
  pub result : res ≡ ok (grant_of r)
  pub tables : d' ≡ record d {
    refresh =
        update_where (with_hash hash) (use_at now) d.refresh
        ++ successor next_hash client project r ∷ [];
  }

module _ (hash next_hash client project : Text) (app_now now : ℕ) (d : Db) where
  abbrev pub Outcome : Result RefreshGrant → Db → RefreshRow → Type 0
  Outcome res d' r =
      (r.client_id ≡ client)
      × (r.project_id ≡ project)
      × (Reused now d d' r res ⊎ Renewed hash next_hash client project app_now now d d' r res)

  -- what a committed rotation of the row `r` has done
  Outcome-row :
      (res : Result RefreshGrant) (d' : Db) (r : RefreshRow)
      → find_where (with_hash hash) d.refresh ≡ some r
      → rotate hash next_hash client project app_now now d ≡ ok (res, d')
      → Outcome res d' r
  unfolding rotate
  Outcome-row res d' r found h = elim (Bool-cases (is_some r.used_at || is_some r.revoked_at)) [
    | inl spent ↦ (
      ground (arith, eq_iff r.client_id client),
      ground (arith, eq_iff r.project_id project),
      inl (record { spent = spent; result = ground arith; tables = ground arith }),
    )
    | inr live ↦ (
      ground (arith, eq_iff r.client_id client),
      ground (arith, eq_iff r.project_id project),
      inr (record {
        unused = ground arith;
        unrevoked = ground arith;
        in_time = ground arith;
        family_in_time = ground arith;
        fresh = ground arith;
        result = ground arith;
        tables = ground arith;
      }),
    )
  ]

  pub rotate_inv :
      (res : Result RefreshGrant) (d' : Db)
      → rotate hash next_hash client project app_now now d ≡ ok (res, d')
      → (r : RefreshRow) × (find_where (with_hash hash) d.refresh ≡ some r) × Outcome res d' r
  rotate_inv res d' h = elim (Option-cases (find_where (with_hash hash) d.refresh)) [
    | inl missing ↦ absurd (unfold rotate in ground arith)
    | inr (r, found) ↦ (r, found, Outcome-row res d' r found h)
  ]

module _ (hash next_hash client project : Text) (app_now : ℕ) (w : World) where
  -- A rotation that returned a grant has committed it.
  pub rotate_refresh-Renewed :
      (g : RefreshGrant)
      → (rotate_refresh hash next_hash client project app_now w).0 ≡ ok g
      → (r : RefreshRow) × (find_where (with_hash hash) w.db.refresh ≡ some r)
        × (r.client_id ≡ client)
        × (r.project_id ≡ project)
        × Renewed hash next_hash client project app_now w.now w.db
            (rotate_refresh hash next_hash client project app_now w).1.db
            r
            (ok g)
  unfolding rotate_refresh
  rotate_refresh-Renewed g h =
      let m = rotate hash next_hash client project app_now in
      let done = run_committed-eq-ok m w g h in
      let d' = (rotate_refresh hash next_hash client project app_now w).1.db in
      let (r, found, out) =
        rotate_inv hash next_hash client project app_now w.now w.db (ok g) d' done in
      (
        r,
        found,
        out.0,
        out.1,
        elim out.2 [ inl reused ↦ absurd (cc reused.result) | inr renewed ↦ renewed ],
      )

-- A live token shown in time by its own client is replaced, while the database works.
pub rotate_refresh-renews :
    (hash next_hash : Text) (app_now : ℕ) (w : World) (r : RefreshRow)
    → find_where (with_hash hash) w.db.refresh ≡ some r
    → r.used_at ≡ none
    → r.revoked_at ≡ none
    → app_now < r.expires_at
    → app_now < r.family_expires_at
    → has_refresh next_hash w.db ≡ false
    → has_account r.account_id w.db ≡ true
    → has_client r.client_id w.db ≡ true
    → has_project r.project_id w.db ≡ true
    → fails w.faults ≡ false
    → rotate_refresh hash next_hash r.client_id r.project_id app_now w ≡ (
      ok (grant_of r),
      record (drawn w) {
        db = record w.db {
          refresh =
              update_where (with_hash hash) (use_at w.now) w.db.refresh
              ++ successor next_hash r.client_id r.project_id r ∷ [];
        };
      },
    )
unfolding rotate_refresh
rotate_refresh-renews hash next_hash app_now w r found unused live lt lt' free owner holder project
      up =
    let q = with_hash next_hash in
    let rows = update_where (with_hash hash) (use_at w.now) w.db.refresh in
    let still : any_where q rows ≡ false = ground (
      arith,
      free,
      any_where-find q rows,
      any_where-find q w.db.refresh,
      find_where-update_keep q (with_hash hash) (use_at w.now) w.db.refresh (λ _ _. refl),
    ) in
    run_committed_lem (rotate hash next_hash r.client_id r.project_id app_now) w _ _ up
      (unfold rotate in ground (arith, still, eq_refl r.client_id, eq_refl r.project_id))
