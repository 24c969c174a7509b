-- ===== src/Repo/Oauth/Replay.antt =====
-- A refresh token that is shown again after its rotation costs the whole family.
use sso_go.Prelude.{
  ℕ, Text, true, some, ◌≡◌, ok, err, token_reuse, arith, List, find_where, update_where, is_some,
  eq_iff,
}
use sso_go.Db.{Db, RefreshRow}
use sso_go.Repo.Oauth.{rotate, unrevoked_in, revoke_at}
use sso_go.Repo.Oauth.Rotation.{with_hash}

module _ (family : Text) (now : ℕ) (rows : List RefreshRow) where
  abbrev pub revoked : List RefreshRow
  revoked = update_where (unrevoked_in family) (revoke_at now) rows

-- A spent token shown by its own client: the family is revoked.
pub rotate-spent :
    (hash next_hash client project : Text) (app_now now : ℕ) (d : Db) (r : RefreshRow)
    → find_where (with_hash hash) d.refresh ≡ some r
    → r.client_id ≡ client
    → r.project_id ≡ project
    → is_some r.used_at ≡ true
    → rotate hash next_hash client project app_now now d
      ≡ ok (err token_reuse, record d { refresh = revoked r.family_id now d.refresh })
unfolding rotate
rotate-spent hash next_hash client project app_now now d r found c p spent =
    ground (arith, eq_iff r.client_id client, eq_iff r.project_id project)
