-- ===== src/Examples/SignOut.antt =====
-- Logging in and out again on the small database.
use sso_go.Prelude.{
  ◌≡◌, ◌≢◌, codes, ◌==◌, ok, find_where, any_where, delete_where, lower, refl, arith, false,
}
use sso_go.Action.{World, run, fails}
use sso_go.Repo.Identity.{with_login, create_session, session_account, delete_session}
use sso_go.Service.Words.{has_prefix, trim}
use sso_go.Security.Password.{is_legacy_bcrypt}
use sso_go.Service.Identity.{login, admit, session, logout}
use sso_go.Service.Identity.SignOut.{logout-session}
use sso_go.Examples.State.{at_time}
use sso_go.Examples.Endpoints.{outside}

-- Ann's second session
abbrev twice : World
twice = (login outside (codes "ann@x") (codes "old") (codes "cookie") (at_time 10)).1

abbrev left : World
left = (logout outside (codes "cookie") twice).1

left_lem : (logout outside (codes "cookie") twice).0 ≡ ok tt
unfolding logout delete_session login admit with_login create_session is_legacy_bcrypt has_prefix
    trim lower run find_where any_where ◌==◌ delete_where
left_lem = refl

first_lem : (session outside (codes "t") twice).0 ≡ ok (codes "ann")
unfolding session session_account login admit with_login create_session is_legacy_bcrypt has_prefix
    trim lower run find_where any_where ◌==◌
first_lem = refl

left_now : left.now ≡ twice.now
unfolding logout delete_session login admit with_login create_session is_legacy_bcrypt has_prefix
    trim lower run find_where any_where ◌==◌ delete_where
left_now = refl

left_up : fails left.faults ≡ false
unfolding logout delete_session login admit with_login create_session is_legacy_bcrypt has_prefix
    trim lower run find_where any_where ◌==◌ delete_where
left_up = refl

logout-session_example :
    ((session outside (codes "cookie") left).0 ≢ ok (codes "ann"))
    × ((session outside (codes "t") left).0 ≡ ok (codes "ann"))
logout-session_example =
    logout-session outside (codes "cookie") (codes "t") (codes "ann") (codes "ann") twice left
      left_lem refl first_lem (λ p. ground (arith, p)) left_now left_up
