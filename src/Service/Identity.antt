-- ===== src/Service/Identity.antt =====
-- internal/service/identity.go: registration, sign-in, passwords and profiles.
--
-- What is outside the repository comes as `Outside`; the identifiers and tokens that the code would
-- make up are arguments. A mail that was sent leaves no trace in the model, only its error.
pub mod SignIn
pub mod SignOut
pub mod Joining
pub mod Requests
use sso_go.Prelude.{
  ℕ, Text, codes, ◌==◌, lower, Bool, true, false, ◌&&◌, ◌||◌, not, Option, none, some, is_some,
  List, [], ◌∷◌, ◌++◌, length, eqb, ltb, leb, Error, no_rows, not_found, invalid_input,
  invalid_credentials, invalid_password, unverified, disabled_account, Result, ok, err,
  if◌then◌else◌,
}
use sso_go.Db.{Status}
use sso_go.Tx
use sso_go.Tx.{Tx}
use sso_go.Action.{World, Action, ◌>>=◌, ◌>>◌, pure, fail, lift, require, or_not_found, mapping}
use sso_go.Repo.Tables.{get_account, get_access, is_disabled}
use sso_go.Repo.Identity
use sso_go.Repo.Identity.{
  PendingAccount, create_pending_account, unverified_account_id, add_email_verification,
  LoginAccount, with_login, session_account, delete_session, upgrade_password_hash,
}
use sso_go.Repo.Passwords
use sso_go.Repo.Passwords.{ProfileUpdate, password_reset_account, add_password_reset}
use sso_go.Service.Words.{trim, has_prefix, all_bytes, is_lower, is_digit}
use sso_go.Service.Errors.{stored}
use sso_go.Security.Password.{is_legacy_bcrypt}

pub record Outside : Type 0 where
  -- postgres.Hash: SHA-256 in hex
  pub hash : Text → Text
  -- PasswordHasher.Hash and Verify
  pub hash_password : Text → Result Text
  pub verify_password : Text → Text → Result Bool
  -- Mailer.Send: to, subject, link
  pub send : Text → Text → Text → Result (Unit {0})
  -- mail.ParseAddress, the Address of what it gives
  pub parse_address : Text → Option Text
  pub query_escape : Text → Text
  pub issuer : Text

-- [a-z0-9._-]
abbrev login_byte : ℕ → Bool
login_byte c = is_lower c || is_digit c || eqb c b'.' || eqb c b'_' || eqb c b'-'

-- loginPattern, ^[a-z0-9._-]{3,32}$
unfoldable pub is_login : Text → Bool
is_login s = all_bytes login_byte s && leb 3 (length s) && leb (length s) 32

pub record Registration : Type 0 where
  pub email : Text
  pub login : Text
  pub given_name : Text
  pub family_name : Text
  pub name : Text
  pub password : Text

-- `if s == "" { s = other }`
abbrev pub or_else : Text → Text → Text
or_else [] other = other
or_else (c ∷ s) other = c ∷ s

abbrev normal : Text → Text
normal s = lower (trim s)

-- len(password) < 12 || len(password) > 1024, negated
abbrev pub good_password : Text → Bool
good_password p = leb 12 (length p) && leb (length p) 1024

abbrev is_text? : Option Text → Text → Bool
is_text? none s = false
is_text? (some t) s = t == s

-- the answer of a closure that checks a password, and the error that stops it
abbrev pub accepted : Result Bool → Bool
accepted (ok b) = b
accepted (err e) = false

-- an error that is only logged
abbrev pub ignoring : Action (Unit {0}) → Action (Unit {0})
ignoring m w = let (r, w') = m w in (ok tt, w')

-- postgres.ErrInvalidPassword as ErrInvalidCredentials
abbrev pub password_error : Error → Error
password_error invalid_password = invalid_credentials
password_error e = e

-- ErrNotFound as ErrInvalidInput
abbrev pub link_error : Error → Error
link_error not_found = invalid_input
link_error e = e

module _ (out : Outside) where
  open out use {hash, hash_password, verify_password, send, parse_address, query_escape, issuer}

  -- the normalized fields of Register
  abbrev pub pending_account : Text → Text → Registration → Text → PendingAccount
  pending_account id token r password_hash =
      let email = normal r.email in
      let given = trim r.given_name in
      let family = trim r.family_name in
      record {
        id = id;
        email = email;
        login = or_else (normal r.login) email;
        password_hash = password_hash;
        name = or_else (trim (given ++ 32 ∷ family)) (trim r.name);
        given_name = given;
        family_name = family;
        verification_hash = hash token;
      }

  -- the test of Register, on what it would store
  unfoldable pub good_registration : PendingAccount → Text → Bool
  good_registration p password =
      is_text? (parse_address p.email) p.email
      && leb (length p.email) 254
      && leb (length p.login) 254
      && (p.login == p.email || is_login p.login)
      && leb (length p.given_name) 100
      && leb (length p.family_name) 100
      && leb (length p.name) 200
      && good_password password

  abbrev confirm : Text → Text → Result (Unit {0})
  confirm email token =
      send email (codes "Confirm your email")
        (issuer ++ codes "/verify?token=" ++ query_escape token)

  -- Identity.Register
  unfoldable pub register : Text → Text → Registration → Action (Unit {0})
  register id token r = do
    require (good_registration (pending_account id token r []) r.password) invalid_input
    password_hash ← lift (hash_password r.password)
    stored (create_pending_account (pending_account id token r password_hash))
    lift (confirm (normal r.email) token)

  abbrev confirm_again : Text → Text → Result Text → Action (Unit {0})
  confirm_again email token (err e) = pure tt
  confirm_again email token (ok id) = do
    add_email_verification id (hash token)
    lift (confirm email token)

  -- Identity.ResendVerification: an unknown address is no error
  unfoldable pub resend_verification : Text → Text → Action (Unit {0})
  resend_verification token email w =
      let (r, w') = unverified_account_id (normal email) w in
      confirm_again (normal email) token r w'

  -- Identity.VerifyEmail
  unfoldable pub verify_email : Text → Action (Unit {0})
  verify_email token = do
    require (not (token == [])) invalid_input
    stored (Identity.verify_email (hash token))

  -- the closure that Login gives to WithLogin
  unfoldable pub admit : Text → Text → LoginAccount → (Text → Tx (Unit {0})) → Tx LoginAccount
  admit password token a create =
      Tx.◌>>◌ (Tx.require (accepted (verify_password password a.password_hash)) invalid_credentials)
        (Tx.◌>>◌ (Tx.require (is_some a.verified) unverified) (
          Tx.◌>>◌ (Tx.require (not (is_disabled a.status)) disabled_account)
            (Tx.◌>>◌ (create (hash token)) (Tx.pure a))))

  abbrev upgrade : LoginAccount → Result Text → Action (Unit {0})
  upgrade a (err e) = pure tt
  upgrade a (ok upgraded) = ignoring (upgrade_password_hash a.id a.password_hash upgraded)

  -- Identity.Login, with the session token that the browser would get: a bcrypt hash is replaced
  unfoldable pub login : Text → Text → Text → Action Status
  login identifier password token = do
    a ←
        mapping (or_not_found invalid_credentials)
          (with_login (normal identifier) (admit password token))
    if is_legacy_bcrypt a.password_hash && not (a.id == [])
        then upgrade a (hash_password password)
        else pure tt
    pure a.status

  -- Identity.Session
  unfoldable pub session : Text → Action Text
  session token = session_account (hash token)

  -- Identity.Logout
  unfoldable pub logout : Text → Action (Unit {0})
  logout token = delete_session (hash token)

  abbrev request_unless : Text → Text → Text → Result (List Text) → Action (Unit {0})
  request_unless request_id id project (ok roles) = pure tt
  request_unless request_id id project (err no_rows) = Identity.request_access request_id id project
  request_unless request_id id project (err e) = fail e

  -- Identity.RequestAccess
  unfoldable pub request_access : Text → Text → Text → Action (Unit {0})
  request_access request_id id project = do
    a ← get_account id
    require (is_some a.verified) unverified
    λ w. let (r, w') = get_access id project w in request_unless request_id id project r w'

  abbrev mail_reset : Text → Text → Result Text → Action (Unit {0})
  mail_reset email token (err e) = pure tt
  mail_reset email token (ok id) = ignoring do
    add_password_reset id (hash token)
    lift (
        send email (codes "Reset your SSO password")
          (issuer ++ codes "/password/reset?token=" ++ query_escape token))

  -- Identity.ForgotPassword: it has no result; a mail that fails is only logged
  unfoldable pub forgot_password : Text → Text → Action (Unit {0})
  forgot_password token email w =
      let (r, w') = password_reset_account (normal email) w in mail_reset (normal email) token r w'

  -- Identity.ResetPassword
  unfoldable pub reset_password : (ℕ → Text) → Text → Text → Action (Unit {0})
  reset_password ids token password = do
    require (good_password password && leb 32 (length token)) invalid_input
    password_hash ← lift (hash_password password)
    mapping link_error (stored (Passwords.reset_password ids (hash token) password_hash))

  -- Identity.ChangePassword
  unfoldable pub change_password : (ℕ → Text) → Text → Text → Text → Action (Unit {0})
  change_password ids id current next = do
    require (good_password next) invalid_input
    password_hash ← lift (hash_password next)
    stored (
        mapping password_error
          (Passwords.change_password ids id password_hash (verify_password current)))

  abbrev profile_of : Text → Text → Text → Text → ProfileUpdate
  profile_of new_login given family avatar = record {
    login = normal new_login;
    given_name = trim given;
    family_name = trim family;
    name = trim (trim given ++ 32 ∷ trim family);
    avatar = trim avatar;
  }

  -- the test of UpdateProfile, on what it would store
  unfoldable pub good_profile : ProfileUpdate → Bool
  good_profile p =
      is_login p.login
      && leb (length p.given_name) 100
      && leb (length p.family_name) 100
      && leb (length p.avatar) 2048

  -- Identity.UpdateProfile
  unfoldable pub update_profile : (ℕ → Text) → Text → Text → Text → Text → Text → Action (Unit {0})
  update_profile ids id new_login given family avatar = do
    let p = profile_of new_login given family avatar
    require (good_profile p) invalid_input
    stored (Passwords.update_profile ids id p)
