-- ===== src/Examples/Steps.antt =====
-- A run of the system on the small database.
use sso_go.Prelude.{◌≡◌, refl, any_where, ℕ, Text, codes, ◌≢◌, err, not_found, [], ◌∷◌}
use sso_go.Action.{World}
use sso_go.Repo.Oauth.{rotate_refresh}
use sso_go.Repo.Oauth.Families.{IsSingle}
use sso_go.Repo.Admin.{disable_account}
use sso_go.Repo.Maintenance.{cleanup_expired}
use sso_go.Repo.Tokens.{Steps, Steps-Single, rotated, disabled, cleaned, here, then}
use sso_go.Service.Identity.{request_access}
use sso_go.Service.Identity.Requests.{
  answer, working, pending_of, pending_after, request_access-not_found,
}
use sso_go.Examples.State.{at_time, small_db}
use sso_go.Examples.Oauth.{small_db-IsSingle}
use sso_go.Examples.Endpoints.{outside}

abbrev ids : ℕ → Text
ids n = n ∷ []

abbrev first : World
first = (rotate_refresh (codes "t") (codes "t2") (codes "web") (codes "shop") 10 (at_time 10)).1

abbrev second : World
second = (rotate_refresh (codes "t") (codes "t3") (codes "web") (codes "shop") 20 first).1

abbrev third : World
third = (disable_account ids (codes "root") (codes "ann") second).1

abbrev run_of_four : Steps (at_time 10) (cleanup_expired third).1
run_of_four =
    then _ third _
      (then _ second _
        (then _ first _
          (then _ (at_time 10) _ (here (at_time 10))
            (rotated (codes "t") (codes "t2") (codes "web") (codes "shop") 10 (at_time 10)))
          (rotated (codes "t") (codes "t3") (codes "web") (codes "shop") 20 first))
        (disabled ids (codes "root") (codes "ann") second))
      (cleaned third)

Steps-Single_example : IsSingle (cleanup_expired third).1.db.refresh
Steps-Single_example =
    Steps-Single (at_time 10) (cleanup_expired third).1 run_of_four small_db-IsSingle

-- Ann's address is confirmed, and there is no project of that name
request_access-not_found_example :
    ((request_access outside (codes "q") (codes "ann") (codes "nowhere") (working small_db 10)).0
      ≡ answer (codes "ann") (codes "nowhere") small_db)
    × (any_where
          (pending_of (codes "ann") (codes "nowhere"))
          (request_access outside
            (codes "q")
            (codes "ann")
            (codes "nowhere")
            (working small_db 10)).1.db.requests
        ≡ pending_after (codes "ann") (codes "nowhere") small_db)
    × ((request_access outside (codes "q") (codes "ann") (codes "nowhere") third).0 ≢ err not_found)
unfolding any_where
request_access-not_found_example =
    request_access-not_found outside (codes "q") (codes "ann") (codes "nowhere") small_db 10 third
      refl
