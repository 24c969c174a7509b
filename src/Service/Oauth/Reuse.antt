-- ===== src/Service/Oauth/Reuse.antt =====
-- A spent refresh token at the token endpoint.
use sso_go.Prelude.{
  Text, ◌==◌, true, false, none, some, is_some, [], err, ◌≡◌, arith, find_where, update_where,
  find_where-update_none, refresh_reuse, token_reuse,
}
use sso_go.Db.{Client, RefreshRow}
use sso_go.Action.{World, fails, drawn}
use sso_go.Action.Run.{run_committed_lem}
use sso_go.Repo.Oauth.{rotate_refresh, rotate, unrevoked_in, revoke_at}
use sso_go.Repo.Oauth.Rotation.{with_hash}
use sso_go.Repo.Oauth.Replay.{rotate-spent}
use sso_go.Service.Oauth.{refresh}
use sso_go.Token.{Jose}

module _ (hash challenge_of : Text → Text) (jose : Jose) (issuer : Text) where
  -- While the database works, Refresh answers a token of this client that was used before with the
  -- reuse error, and leaves no token of its family unrevoked.
  pub refresh-reuse :
      (next : Text) (c : Client) (raw : Text) (w : World) (r : RefreshRow)
      → (raw == []) ≡ false
      → find_where (with_hash (hash raw)) w.db.refresh ≡ some r
      → r.client_id ≡ c.id
      → r.project_id ≡ c.project
      → is_some r.used_at ≡ true
      → fails w.faults ≡ false
      → ((refresh hash challenge_of jose issuer next c raw w).0 ≡ err refresh_reuse)
        × (find_where
              (unrevoked_in r.family_id)
              (refresh hash challenge_of jose issuer next c raw w).1.db.refresh
            ≡ none)
  refresh-reuse next c raw w r some_raw found own project spent up =
      let m = rotate (hash raw) (hash next) c.id c.project w.now in
      let d = record w.db {
        refresh = update_where (unrevoked_in r.family_id) (revoke_at w.now) w.db.refresh;
      } in
      let done : rotate_refresh (hash raw) (hash next) c.id c.project w.now w
          ≡ (err token_reuse, record (drawn w) { db = d }) =
        unfold rotate_refresh in
        run_committed_lem m w (err token_reuse) d up (
          rotate-spent (hash raw) (hash next) c.id c.project w.now w.now w.db r found own project
            spent) in
      let gone =
        find_where-update_none (unrevoked_in r.family_id) (unrevoked_in r.family_id)
          (revoke_at w.now) w.db.refresh (λ s g. ground arith) (λ _ g. g) in
      (unfold refresh in ground (arith, done), unfold refresh in ground (arith, done, gone))
