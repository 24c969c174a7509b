-- ===== src/Http/Routes.antt =====
-- internal/transport/httpapi/server.go: which request goes to which handler.
pub mod Forged
pub mod Administered
use sso_go.Prelude.{
  ℕ, Text, codes, ◌==◌, Bool, true, false, ◌&&◌, Option, none, some, List, [], ◌∷◌, ◌++◌,
  if◌then◌else◌,
}
use sso_go.Db.{Db}
use sso_go.Token.{Jose}
use sso_go.Service.Identity.{Outside}
use sso_go.Http.Address.{Net, Network}
use sso_go.Http.Message.{Request, Reply, Handler}
use sso_go.Http.Browser
use sso_go.Http.Account
use sso_go.Http.AdminHandlers.{admin_activate, admin_disable, admin_grant, admin_revoke}
use sso_go.Http.OauthHandlers.{authorize, token, userinfo_endpoint}
use sso_go.Http.SyncHandlers.{sync_snapshot, sync_changes}

-- the four handlers that ask for an administrator
pub data AdminForm : Type 0 where
  activate_account disable_account grant_access revoke_access : AdminForm

-- the handlers of POST /api/...
pub data Form : Type 0 where
  register resend login logout request_access forgot reset password profile : Form
  admin : AdminForm → Form

pub data Route : Type 0 where
  authorization token_grant current_user snapshot changes verify : Route
  api : Form → Route

abbrev Row : Type 0
Row = Text × Text × Route

-- the patterns of Handler, without those that read no table or print metrics, and uiState
abbrev patterns : List Row
patterns =
    (codes "GET", codes "/authorize", authorization)
    ∷ (codes "POST", codes "/token", token_grant)
    ∷ (codes "GET", codes "/userinfo", current_user)
    ∷ (codes "GET", codes "/sync/snapshot", snapshot)
    ∷ (codes "GET", codes "/sync/changes", changes)
    ∷ (codes "POST", codes "/api/register", api register)
    ∷ (codes "POST", codes "/api/verify/resend", api resend)
    ∷ (codes "GET", codes "/verify", verify)
    ∷ (codes "POST", codes "/api/login", api login)
    ∷ (codes "POST", codes "/api/logout", api logout)
    ∷ (codes "POST", codes "/api/access/request", api request_access)
    ∷ (codes "POST", codes "/api/admin/accounts/activate", api (admin activate_account))
    ∷ (codes "POST", codes "/api/admin/accounts/disable", api (admin disable_account))
    ∷ (codes "POST", codes "/api/admin/access/grant", api (admin grant_access))
    ∷ (codes "POST", codes "/api/admin/access/revoke", api (admin revoke_access))
    ∷ (codes "POST", codes "/api/password/forgot", api forgot)
    ∷ (codes "POST", codes "/api/password/reset", api reset)
    ∷ (codes "POST", codes "/api/settings/password", api password)
    ∷ (codes "POST", codes "/api/settings/profile", api profile)
    ∷ []

abbrev find_route : Text → Text → List Row → Option Route
find_route method path [] = none
find_route method path ((m, p, route) ∷ rows) =
    if m == method && p == path then some route else find_route method path rows

-- the choice that http.ServeMux makes; these patterns have no wildcards
unfoldable pub route_of : Text → Text → Option Route
route_of method path = find_route method path patterns

-- what the services make at random while they serve one request
pub record Made : Type 0 where
  pub token : Text
  pub family : Text
  pub id : Text
  pub ids : ℕ → Text

-- what is outside the repository
pub record Web : Type 1 where
  pub out : Outside
  pub net : Net
  pub networks : List Network
  pub challenge_of : Text → Text
  pub jose : Jose
  pub new_authorize_request : Request → Db → Option Text
  pub set_query : Text → List (Text × Text) → Text

module _ (web : Web) (made : Made) where
  open web use {out, net, networks, challenge_of, jose, new_authorize_request, set_query}
  open made use {ids}

  abbrev pub serve_admin : AdminForm → Request → Handler
  serve_admin activate_account = admin_activate out
  serve_admin disable_account = admin_disable out ids
  serve_admin grant_access = admin_grant out made.id
  serve_admin revoke_access = admin_revoke out made.id

  unfoldable pub serve_form : Form → Request → Handler
  serve_form register = Browser.register out net networks made.id made.token
  serve_form resend = Browser.resend out net networks made.token
  serve_form login = Browser.login out net networks made.token
  serve_form logout = Browser.logout out
  serve_form request_access = Browser.request_access out made.id
  serve_form forgot = Account.forgot out net networks made.token
  serve_form reset = Account.reset out ids
  serve_form password = Account.change_password out ids
  serve_form profile = Account.update_profile out ids
  serve_form (admin f) = serve_admin f

  -- Server.Handler, of a route that is there
  unfoldable pub serve : Route → Request → Handler
  unfolding serve_form
  serve authorization = authorize out new_authorize_request set_query made.token
  serve token_grant = token out challenge_of jose net networks made.token made.family
  serve current_user = userinfo_endpoint out challenge_of jose
  serve snapshot = sync_snapshot out.hash
  serve changes = sync_changes out.hash
  serve verify = Browser.verify_email out
  serve (api f) = serve_form f
