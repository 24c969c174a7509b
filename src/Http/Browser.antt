-- ===== src/Http/Browser.antt =====
-- internal/transport/httpapi/browser.go: the handlers of registration, sign-in and sign-out. What
-- the services make at random comes as arguments.
pub mod Local
use sso_go.Prelude.{
  ℕ, Text, codes, lower, Bool, true, false, ◌==◌, ◌&&◌, ◌||◌, not, Option, none, some, List, [],
  ◌∷◌, eqb, conflict, invalid_input, invalid_credentials, unverified, disabled_account, not_found,
  Result, ok, err, if◌then◌else◌,
}
use sso_go.Db.{Status, active}
use sso_go.Action.{World}
use sso_go.Service.Words.{has_prefix, trim}
use sso_go.Service.Identity
use sso_go.Service.Identity.{Outside, Registration}
use sso_go.Http.Address.{Net, Network}
use sso_go.Http.Message.{
  Request, Reply, problem, answer, redirect, Handler, session_cookie, expired_cookie, message,
  replying,
}
use sso_go.Http.Forms.{with_form, limited_twice, attempt, address, with_session}

unfoldable pub has_byte : ℕ → Text → Bool
has_byte c [] = false
has_byte c (d ∷ chars) = eqb c d || has_byte c chars

-- strings.ContainsAny(s, chars) for ASCII chars
unfoldable pub contains_any : Text → Text → Bool
unfolding has_byte
contains_any [] chars = false
contains_any (c ∷ s) chars = has_byte c chars || contains_any s chars

-- the backslash, \r and \n
abbrev pub unsafe_bytes : Text
unsafe_bytes = 92 ∷ 13 ∷ 10 ∷ []

abbrev pub is_page : Text → Bool
is_page next =
    next == codes "/projects"
    || next == codes "/admin"
    || next == codes "/settings/profile"
    || next == codes "/settings/password"

-- safeNext
unfoldable pub safe_next : Text → Text
unfolding has_prefix contains_any
safe_next next =
    if is_page next
      || (has_prefix next (codes "/authorize?") && not (contains_any next unsafe_bytes))
    then next
    else codes "/projects"

abbrev sent : Reply
sent = message (codes "Если заявка создана, письмо с подтверждением отправлено.")

abbrev register_reply : Result (Unit {0}) → Reply
register_reply (ok _) = sent
register_reply (err conflict) = sent
register_reply (err invalid_input) = problem 400 (codes "invalid registration")
register_reply (err e) = problem 502 (codes "registration unavailable")

abbrev resend_reply : Result (Unit {0}) → Reply
resend_reply (ok _) = message (codes "Если аккаунт ожидает подтверждения, ссылка отправлена.")
resend_reply (err e) = problem 502 (codes "verification email unavailable")

abbrev verify_reply : Result (Unit {0}) → Reply
verify_reply (ok _) = redirect 303 (codes "/login?notice=verified")
verify_reply (err e) = redirect 303 (codes "/login?notice=invalid_link")

abbrev next_page : Status → Text → Text
next_page active next = safe_next next
next_page _ next = codes "/projects"

abbrev login_reply : Text → Text → Result Status → Reply
login_reply token next (ok status) =
    answer (session_cookie token ∷ []) (codes "next") (next_page status next)
login_reply token next (err invalid_credentials) = problem 401 (codes "invalid credentials")
login_reply token next (err unverified) = problem 403 (codes "email unverified")
login_reply token next (err disabled_account) = problem 403 (codes "account disabled")
login_reply token next (err e) = problem 503 (codes "session unavailable")

abbrev request_reply : Result (Unit {0}) → Reply
request_reply (ok _) = message (codes "Заявка отправлена.")
request_reply (err unverified) = problem 403 (codes "email not verified")
request_reply (err not_found) = problem 400 (codes "unknown project")
request_reply (err e) = problem 503 (codes "access request unavailable")

abbrev pub form_email : (Text → Text) → Text
form_email form = lower (trim (form (codes "email")))

abbrev registration : (Text → Text) → Registration
registration form = record {
  email = form_email form;
  login = form (codes "login");
  given_name = form (codes "given_name");
  family_name = form (codes "family_name");
  name = form (codes "name");
  password = form (codes "password");
}

module _ (out : Outside) where
  -- the session that logout ends, if the browser has one; an error of Logout is ignored
  abbrev end_session : Option Text → World → World
  end_session none w = w
  end_session (some token) w = (Identity.logout out token w).1

  -- Server.logout
  unfoldable pub logout : Request → Handler
  logout q = with_form q λ form w. (
    answer (expired_cookie ∷ []) (codes "next") (codes "/login"),
    end_session (q.cookie (codes "__Host-sso")) w,
  )

  -- Server.requestAccess
  unfoldable pub request_access : Text → Request → Handler
  request_access request_id q = with_form q λ form. with_session out q λ id w.
      replying request_reply (Identity.request_access out request_id id (form (codes "project")) w)

  -- Server.verifyEmail
  unfoldable pub verify_email : Request → Handler
  verify_email q w = replying verify_reply (Identity.verify_email out (q.query (codes "token")) w)

  module _ (net : Net) (networks : List Network) where
    -- Server.register, with the identifier and the token that Register makes
    unfoldable pub register : Text → Text → Request → Handler
    register id token q = with_form q λ form.
        limited_twice (attempt out (codes "register-ip") (address out net networks q) 15 3600)
          (attempt out (codes "register-email") (form_email form) 4 3600)
          λ w. replying register_reply (Identity.register out id token (registration form) w)

    -- Server.resend
    unfoldable pub resend : Text → Request → Handler
    resend token q = with_form q λ form.
        limited_twice (attempt out (codes "resend-ip") (address out net networks q) 20 3600)
          (attempt out (codes "resend-email") (form_email form) 4 3600)
          λ w. replying resend_reply (Identity.resend_verification out token (form_email form) w)

    -- Server.login, with the token of the session
    unfoldable pub login : Text → Request → Handler
    login token q = with_form q λ form.
        limited_twice (attempt out (codes "login-id") (form_email form) 20 900)
          (attempt out (codes "login-ip") (address out net networks q) 100 900)
          λ w.
            replying (login_reply token (form (codes "next")))
              (Identity.login out (form_email form) (form (codes "password")) token w)
