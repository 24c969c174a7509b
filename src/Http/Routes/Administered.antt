-- ===== src/Http/Routes/Administered.antt =====
-- Who can use the administrators' forms.
use sso_go.Prelude.{
  find_where-some, ◌<◌, ◌≢◌, none, Text, codes, Bool, true, some, Result, ok, find_where, ◌≡◌, ◌⊎◌,
  ◌∙◌, sym, ap, refl, arith, inl, inr, Option-cases, Result-cases, Bool-cases, eq_iff,
}
use sso_go.Db.{Session, Account, Status}
use sso_go.Action.{World, drawn, run}
use sso_go.Repo.Tables.{active_verified, find_account, get_account}
use sso_go.Repo.Tables.Reads.{get_account-ok, get_account-drawn}
use sso_go.Repo.Identity.{session_account, session_valid}
use sso_go.Service.Identity.{Outside, session}
use sso_go.Service.Identity.SignOut.{session_account-found}
use sso_go.Service.Admin.{authorized}
use sso_go.Http.Message.{Request, Handler}
use sso_go.Http.Forms.{with_form, valid_csrf, current_session, granted, with_admin}
use sso_go.Http.AdminHandlers.{admin_activate, admin_disable, admin_grant, admin_revoke}
use sso_go.Http.Routes.{
  Web, Made, AdminForm, activate_account, disable_account, grant_access, revoke_access, serve_admin,
}

-- The request repeats the token of the form cookie, and its session, which has not expired, is that
-- of a global administrator who is active and verified.
pub record Administered (out : Outside) (q : Request) (w : World) : Type 0 where
  pub form : Text → Text
  pub form_there : q.form ≡ some form
  pub form_token : q.cookie (codes "__Host-sso-form") ≡ some (form (codes "csrf"))
  pub token : Text
  pub session_there : q.cookie (codes "__Host-sso") ≡ some token
  pub session : Session
  pub session_found :
      find_where (session_valid (out.hash token) w.now w.db) w.db.sessions ≡ some session
  pub session_own : session.token_hash ≡ out.hash token
  pub session_unexpired : w.now < session.expires_at
  pub account : Account
  pub account_found : find_account session.account_id w.db ≡ some account
  pub admitted : active_verified account ≡ true
  pub active : account.status ≡ Status.active
  pub verified : account.verified ≢ none
  pub global_admin : account.global_admin ≡ true

session_account-drawn : (hash : Text) (w : World) → (session_account hash w).1 ≡ drawn w
unfolding session_account run
session_account-drawn hash w = ground arith

module _ (out : Outside) (q : Request) (w : World) where
  abbrev asked : Result Text × World
  asked = current_session out q w

  abbrev checked : Text → Result Bool × World
  checked id = authorized id asked.1

  -- asking for the session changes no table
  session-tables : asked.1.db ≡ w.db
  unfolding current_session session
  session-tables = elim (Option-cases (q.cookie (codes "__Host-sso"))) [
    | inl bare ↦ rw bare refl
    | inr (token, there) ↦ rw (there, session_account-drawn (out.hash token) w) refl
  ]

  authorized-tables : (id : Text) → (checked id).1.db ≡ w.db
  unfolding authorized
  authorized-tables id = rw (get_account-drawn id asked.1) session-tables

  form_token :
      (form : Text → Text)
      → valid_csrf q form ≡ true
      → q.cookie (codes "__Host-sso-form") ≡ some (form (codes "csrf"))
  form_token form valid = elim (Option-cases (q.cookie (codes "__Host-sso-form"))) [
    | inl bare ↦ absurd (ground (arith, bare))
    | inr (token, there) ↦ ground (arith, there, eq_iff token (form (codes "csrf")))
  ]

  session_of :
      (id : Text)
      → asked.0 ≡ ok id
      → (token : Text) × (s : Session) × (q.cookie (codes "__Host-sso") ≡ some token)
        × (find_where (session_valid (out.hash token) w.now w.db) w.db.sessions ≡ some s)
        × (id ≡ s.account_id)
  unfolding current_session session
  session_of id h = elim (Option-cases (q.cookie (codes "__Host-sso"))) [
    | inl bare ↦ absurd (ground (arith, bare))
    | inr (token, there) ↦
        (let (s, found, own) =
            session_account-found (out.hash token) id w (ground (arith, there)) in
          (token, s, there, found, own))
  ]

  admin_account :
      (id : Text)
      → granted (checked id).0 ≡ true
      → (a : Account) × (find_account id w.db ≡ some a)
        × (active_verified a ≡ true)
        × (a.global_admin ≡ true)
  unfolding authorized
  admin_account id h = elim (Result-cases (get_account id asked.1).0) [
    | inl (e, bad) ↦ absurd (ground (arith, bad))
    | inr (a, good) ↦ (
      a,
      ap (find_account id) (sym session-tables) ∙ get_account-ok id asked.1 a good,
      ground (arith, good),
      ground (arith, good),
    )
  ]

  with_admin-cases :
      (handle : (Text → Text) → Text → Handler)
      → ((with_admin out q handle w).1.db ≡ w.db) ⊎ Administered out q w
  unfolding with_admin with_form
  with_admin-cases handle = elim (Option-cases q.form) [
    | inl missing ↦ inl (ground arith)
    | inr (form, there) ↦ elim (Bool-cases (valid_csrf q form)) [
      | inr forged ↦ inl (ground arith)
      | inl valid ↦ elim (Result-cases asked.0) [
        | inl (e, out_of_session) ↦ inl (ground (arith, session-tables))
        | inr (id, signed_in) ↦ elim (Bool-cases (granted (checked id).0)) [
          | inr refused ↦ inl (ground (arith, authorized-tables id))
          | inl admitted ↦
              (let (token, s, sent, found, own) = session_of id signed_in in
                let (a, known, active, admin) = admin_account id admitted in
                let valid_session =
                  find_where-some (session_valid (out.hash token) w.now w.db) w.db.sessions s
                    found in
                inr (record {
                  form = form;
                  form_there = there;
                  form_token = form_token form valid;
                  token = token;
                  session_there = sent;
                  session = s;
                  session_found = found;
                  session_own = ground (arith, valid_session, eq_iff s.token_hash (out.hash token));
                  session_unexpired = ground (arith, valid_session);
                  account = a;
                  account_found = rw (← own) known;
                  admitted = active;
                  active = ground (arith, active);
                  verified = (λ missing. ground (arith, active));
                  global_admin = admin;
                }))
        ]
      ]
    ]
  ]

module _ (web : Web) (made : Made) (q : Request) (w : World) where
  -- A form of the administrators changes the tables only for a request with the token of its form
  -- cookie and a session, not expired, of a global administrator who is active and verified.
  pub serve_admin-Administered :
      (f : AdminForm) → ((serve_admin web made f q w).1.db ≡ w.db) ⊎ Administered web.out q w
  unfolding admin_activate admin_disable admin_grant admin_revoke
  serve_admin-Administered activate_account = with_admin-cases web.out q w _
  serve_admin-Administered disable_account = with_admin-cases web.out q w _
  serve_admin-Administered grant_access = with_admin-cases web.out q w _
  serve_admin-Administered revoke_access = with_admin-cases web.out q w _
