-- ===== src/Http/Account.antt =====
-- internal/transport/httpapi/account.go: the handlers of passwords and profiles.
use sso_go.Prelude.{
  ℕ, Text, codes, List, [], ◌∷◌, invalid_input, invalid_credentials, not_found, conflict, Result,
  ok, err,
}
use sso_go.Service.Identity
use sso_go.Service.Identity.{Outside}
use sso_go.Http.Address.{Net, Network}
use sso_go.Http.Message.{
  Request, Reply, problem, answer, Handler, expired_cookie, message, replying,
}
use sso_go.Http.Forms.{with_form, limited, limited_twice, attempt, address, with_session}
use sso_go.Http.Browser.{form_email}

-- whatever ForgotPassword met
abbrev forgot_reply : Result (Unit {0}) → Reply
forgot_reply _ = message (codes "Если аккаунт существует, ссылка для смены пароля отправлена.")

abbrev reset_reply : Result (Unit {0}) → Reply
reset_reply (ok _) =
    answer (expired_cookie ∷ []) (codes "message")
      (codes "Пароль изменён. Все прежние сессии завершены.")
reset_reply (err invalid_input) = problem 400 (codes "invalid password or link")
reset_reply (err e) = problem 503 (codes "reset failed")

abbrev change_reply : Result (Unit {0}) → Reply
change_reply (ok _) =
    answer (expired_cookie ∷ []) (codes "next") (codes "/login?notice=password_changed")
change_reply (err invalid_input) = problem 400 (codes "invalid password")
change_reply (err invalid_credentials) = problem 401 (codes "invalid current password")
change_reply (err e) = problem 503 (codes "update failed")

abbrev profile_reply : Result (Unit {0}) → Reply
profile_reply (ok _) = message (codes "Профиль сохранён.")
profile_reply (err invalid_input) = problem 400 (codes "invalid profile")
profile_reply (err not_found) = problem 409 (codes "login unavailable or account inactive")
profile_reply (err conflict) = problem 409 (codes "login unavailable or account inactive")
profile_reply (err e) = problem 503 (codes "profile unavailable")

module _ (out : Outside) where
  -- Server.reset
  unfoldable pub reset : (ℕ → Text) → Request → Handler
  reset ids q = with_form q λ form w.
      replying reset_reply
        (Identity.reset_password out ids (form (codes "token")) (form (codes "password")) w)

  -- Server.changePassword
  unfoldable pub change_password : (ℕ → Text) → Request → Handler
  change_password ids q = with_form q λ form. with_session out q λ id.
      limited (attempt out (codes "password-change") id 10 3600) λ w. replying change_reply (
        Identity.change_password out ids id (form (codes "current_password"))
          (form (codes "password")) w)

  -- Server.updateProfilePage
  unfoldable pub update_profile : (ℕ → Text) → Request → Handler
  update_profile ids q = with_form q λ form. with_session out q λ id w. replying profile_reply (
      Identity.update_profile out ids id (form (codes "login")) (form (codes "given_name"))
        (form (codes "family_name")) (form (codes "avatar_url")) w)

  module _ (net : Net) (networks : List Network) where
    -- Server.forgot, with the token that ForgotPassword makes
    unfoldable pub forgot : Text → Request → Handler
    forgot token q = with_form q λ form.
        limited_twice (attempt out (codes "forgot-ip") (address out net networks q) 20 3600)
          (attempt out (codes "forgot-email") (form_email form) 4 3600)
          λ w. replying forgot_reply (Identity.forgot_password out token (form_email form) w)
