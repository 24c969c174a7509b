-- ===== src/Service/Operator.antt =====
-- internal/service/operator.go: the commands of the operator.
pub mod Redirects
use sso_go.Prelude.{
  Text, codes, ◌==◌, lower, mem, Bool, false, ◌&&◌, ◌||◌, not, Option, none, some, List, [], ◌∷◌,
  length, eqb, leb, invalid_input, missing_argument, Result, ok, err, if◌then◌else◌,
}
use sso_go.Action.{Action, ◌>>=◌, ◌>>◌, pure, lift, require}
use sso_go.Repo.Clients.{register_client, grant_project_admin, grant_global_admin}
use sso_go.Repo.Clients.Bootstrap.{ensure_bootstrap}
use sso_go.Service.Words.{trim, contains}

-- what ValidateRedirects reads of a url.URL
pub record Url : Type 0 where
  pub scheme : Text
  pub host : Text
  pub hostname : Text
  pub fragment : Text
  pub has_user : Bool

-- the first test of the loop, negated; url.Parse comes as a parameter
abbrev pub absolute : Option Url → Bool
absolute none = false
absolute (some u) = not (u.host == []) && u.fragment == [] && not u.has_user

-- the second test, negated
abbrev pub secure : Option Url → Bool
secure none = false
secure (some u) =
    u.scheme == codes "https"
    || u.scheme == codes "http"
      && (u.hostname == codes "localhost" || u.hostname == codes "127.0.0.1")

pub record Bootstrap : Type 0 where
  pub project : Text
  pub client_id : Text
  pub client_secret : Text
  pub redirect : Text
  pub admin_email : Text
  pub admin_password : Text

module _ (parse_url : Text → Option Url) where
  -- the loop of ValidateRedirects
  unfoldable pub redirects_loop : List Text → List Text → Result (Unit {0})
  redirects_loop seen [] = ok tt
  redirects_loop seen (raw ∷ rest) =
      let later = redirects_loop (raw ∷ seen) rest in
      if not (absolute (parse_url raw)) || mem raw seen || contains raw (codes "*")
      then err invalid_input
      else if not (secure (parse_url raw))
      then err invalid_input
      else later

  -- ValidateRedirects
  unfoldable pub validate_redirects : List Text → Result (Unit {0})
  validate_redirects redirects =
      if eqb (length redirects) 0 then err invalid_input else redirects_loop [] redirects

  module _ (hash : Text → Text) (hash_password : Text → Result Text) where
    -- Operator.RegisterClient
    unfoldable pub register : Text → Text → Text → List Text → Action (Unit {0})
    register id project secret redirects = do
      require
          (not (id == [])
            && not (project == [])
            && leb 24 (length secret)
            && not (eqb (length redirects) 0))
          missing_argument
      lift (validate_redirects redirects)
      register_client id project (hash secret) redirects

    abbrev hash_or_empty : Text → Text
    hash_or_empty [] = []
    hash_or_empty (c ∷ s) = hash (c ∷ s)

    abbrev project_or_default : Text → Text
    project_or_default [] = codes "main_api"
    project_or_default (c ∷ s) = c ∷ s

    -- Operator.Bootstrap, with the account's id that it would make
    unfoldable pub bootstrap : Text → Bootstrap → Action (Unit {0})
    bootstrap admin_id b = do
      if not (b.client_id == []) && not (b.client_secret == []) && not (b.redirect == [])
          then lift (validate_redirects (b.redirect ∷ []))
          else pure tt
      admin_hash ←
          if not (b.admin_email == []) && not (b.admin_password == [])
          then lift (hash_password b.admin_password)
          else pure []
      ensure_bootstrap (project_or_default b.project) b.client_id (hash_or_empty b.client_secret)
          b.redirect admin_id (lower b.admin_email) admin_hash

-- Operator.GrantProjectAdmin
unfoldable pub make_project_admin : Text → Text → Text → Action (Unit {0})
make_project_admin event_id project email = do
  require (not (project == []) && not (email == [])) missing_argument
  grant_project_admin event_id project email

-- Operator.GrantGlobalAdmin
unfoldable pub make_global_admin : Text → Action (Unit {0})
make_global_admin email = do
  require (not (lower (trim email) == [])) missing_argument
  grant_global_admin (lower (trim email))
