-- ===== src/Examples/Theft.antt =====
-- A stolen refresh token: the thief rotates the successor, then the old token is shown again.
use sso_go.Prelude.{
  Text, codes, ◌==◌, ◌≡◌, ◌≢◌, refl, some, none, ok, err, token_reuse, [], ◌∷◌, false, inl,
  find_where, update_where, any_where, arith,
}
use sso_go.Db.{RefreshRow}
use sso_go.Action.{World, fails, run, run_committed}
use sso_go.Repo.Oauth.{
  rotate_refresh, rotate, RefreshGrant, unrevoked_in, use_at, revoke_at, successor,
}
use sso_go.Repo.Oauth.Rotation.{with_hash}
use sso_go.Repo.Oauth.Families.{in_family}
use sso_go.Repo.Tokens.{rotated}
use sso_go.Repo.Tokens.Replay.{refresh_replay, Later, here, after}
use sso_go.Examples.State.{at_time, token_row}

abbrev web : Text
web = codes "web"

abbrev shop : Text
shop = codes "shop"

abbrev granted : World
granted = (rotate_refresh (codes "t") (codes "t2") web shop 10 (at_time 10)).1

abbrev stolen : World
stolen = (rotate_refresh (codes "t2") (codes "t3") web shop 15 granted).1

abbrev shown_again : World
shown_again = (rotate_refresh (codes "t") (codes "t4") web shop 20 stolen).1

abbrev later : World
later = (rotate_refresh (codes "t2") (codes "t5") web shop 25 shown_again).1

abbrev the_grant : RefreshGrant
the_grant = record { account = codes "ann"; scopes = codes "openid" ∷ [] }

granted_lem : (rotate_refresh (codes "t") (codes "t2") web shop 10 (at_time 10)).0 ≡ ok the_grant
unfolding rotate_refresh rotate run_committed run find_where update_where any_where ◌==◌
granted_lem = refl

stolen_up : fails stolen.faults ≡ false
unfolding rotate_refresh rotate run_committed run find_where update_where any_where ◌==◌
stolen_up = refl

find-old :
    find_where (with_hash (codes "t")) stolen.db.refresh ≡ some (use_at 10 (token_row (codes "t")))
unfolding rotate_refresh rotate run_committed run find_where update_where any_where ◌==◌
find-old = refl

abbrev last_token : RefreshRow
last_token =
    revoke_at 10
      (successor (codes "t3") web shop (successor (codes "t2") web shop (token_row (codes "t"))))

find-stolen : find_where (with_hash (codes "t3")) later.db.refresh ≡ some last_token
unfolding rotate_refresh rotate run_committed run find_where update_where any_where ◌==◌
find-stolen = refl

stays :
    (find_where (in_family (token_row (codes "t")).family_id) shown_again.db.refresh ≡ none)
    → find_where (in_family (token_row (codes "t")).family_id) later.db.refresh ≡ none
unfolding rotate_refresh rotate run_committed run find_where update_where any_where ◌==◌
stays h = ground arith

abbrev to_later : Later (token_row (codes "t")).family_id shown_again later
to_later =
    after shown_again shown_again later (here shown_again)
      (rotated (codes "t2") (codes "t5") web shop 25 shown_again) stays

refresh_replay_example :
    ((rotate_refresh (codes "t") (codes "t4") web shop 20 stolen).0 ≡ err token_reuse)
    × (find_where (unrevoked_in (token_row (codes "t")).family_id) shown_again.db.refresh ≡ none)
    × ((rotate_refresh (codes "t3") (codes "t6") web shop 30 later).0 ≢ ok the_grant)
unfolding find_where ◌==◌
refresh_replay_example =
    refresh_replay (codes "t") (codes "t2") (codes "t4") web shop 10 20 (at_time 10) stolen later
      the_grant the_grant (token_row (codes "t")) (use_at 10 (token_row (codes "t"))) last_token
      (codes "t3") (codes "t6") web shop 30 refl granted_lem find-old (inl refl) stolen_up to_later
      find-stolen refl
