-- ===== src/Http/Routes/Forged.antt =====
-- What a page of another site can do with a browser that is signed in here.
use sso_go.Prelude.{
  Text, codes, ◌==◌, some, ◌≡◌, ◌≢◌, refl, eq_iff, false, ap, ◌∙◌, Bool-cases, Option-cases, inl,
  inr,
}
use sso_go.Action.{World}
use sso_go.Http.Message.{Request, Handler, problem}
use sso_go.Http.Forms.{with_form, with_admin}
use sso_go.Http.Browser
use sso_go.Http.Account
use sso_go.Http.AdminHandlers.{admin_activate, admin_disable, admin_grant, admin_revoke}
use sso_go.Http.Routes.{
  Web, Made, Form, AdminForm, register, resend, login, logout, request_access, forgot, reset,
  password, profile, admin, activate_account, disable_account, grant_access, revoke_access,
  serve_form, serve_admin,
}

-- No form, or one that does not repeat the token of the cookie __Host-sso-form, which a page of
-- another site can neither read nor set.
abbrev pub IsForged : Request → Type 0
IsForged q =
    (form : Text → Text)
    → q.form ≡ some form
    → q.cookie (codes "__Host-sso-form") ≢ some (form (codes "csrf"))

with_form-forged :
    (q : Request) (handle : (Text → Text) → Handler) (w : World)
    → IsForged q
    → with_form q handle w ≡ (problem 403 (codes "invalid form token"), w)
unfolding with_form
with_form-forged q handle w forged = elim (Option-cases q.form) [
  | inl missing ↦ rw missing refl
  | inr (form, there) ↦ elim (Option-cases (q.cookie (codes "__Host-sso-form"))) [
    | inl bare ↦ rw (there, bare) refl
    | inr (token, sent) ↦
        (let differ : (token == form (codes "csrf")) ≡ false =
            elim (Bool-cases (token == form (codes "csrf"))) [
              | inl same ↦ absurd (forged form there (sent ∙ ap some ((eq_iff token _).0 same)))
              | inr other ↦ other
            ] in
          rw (there, sent, differ) refl)
  ]
]

module _ (web : Web) (made : Made) (q : Request) (w : World) (forged : IsForged q) where
  admin-forged :
      (f : AdminForm) → serve_admin web made f q w ≡ (problem 403 (codes "invalid form token"), w)
  unfolding admin_activate admin_disable admin_grant admin_revoke with_admin
  admin-forged activate_account = with_form-forged q _ w forged
  admin-forged disable_account = with_form-forged q _ w forged
  admin-forged grant_access = with_form-forged q _ w forged
  admin-forged revoke_access = with_form-forged q _ w forged

  -- Every form of the API answers a request whose form is missing, or does not repeat the token of
  -- the form cookie, with 403, and changes nothing: it counts no attempt and ends no session.
  pub serve_form-forged :
      (f : Form) → serve_form web made f q w ≡ (problem 403 (codes "invalid form token"), w)
  unfolding serve_form Browser.register Browser.resend Browser.login Browser.logout
      Browser.request_access Account.forgot Account.reset Account.change_password
      Account.update_profile
  serve_form-forged register = with_form-forged q _ w forged
  serve_form-forged resend = with_form-forged q _ w forged
  serve_form-forged login = with_form-forged q _ w forged
  serve_form-forged logout = with_form-forged q _ w forged
  serve_form-forged request_access = with_form-forged q _ w forged
  serve_form-forged forgot = with_form-forged q _ w forged
  serve_form-forged reset = with_form-forged q _ w forged
  serve_form-forged password = with_form-forged q _ w forged
  serve_form-forged profile = with_form-forged q _ w forged
  serve_form-forged (admin f) = admin-forged f
