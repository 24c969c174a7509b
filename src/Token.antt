-- ===== src/Token.antt =====
-- internal/token/keys.go: signing and checking the provider's JWTs with the keys of the database.
--
-- RSA, SHA-256, PEM, base64 and JSON come as parameters (`Jose`): what the code calls of them.
pub mod Trust
pub mod RoundTrip
use sso_go.Prelude.{
  ℕ, ◌+◌, Text, codes, ◌==◌, Bool, true, false, ◌&&◌, ◌||◌, not, Option, none, some, List, [], ◌∷◌,
  ◌++◌, eqb, ltb, leb, Error, Result, ok, err, bad_token, if◌then◌else◌,
}
use sso_go.Db.{SigningKey}
use sso_go.Action.{World, Action, ◌>>=◌, ◌>>◌, pure, fail, time, require}
use sso_go.Repo.Keys.{
  active_signing_key, active_signing_key_count, rotate_signing_key, verification_key,
}
use sso_go.Service.Words.{split}

-- A claim's JSON value, a number by what its comparison with a whole time depends on.
pub data Claim : Type 0 where
  text : Text → Claim
  number : ℕ → Claim
  -- strictly between this number and the next
  between : ℕ → Claim
  negative : Claim
  flag : Bool → Claim
  texts : List Text → Claim
  -- null, an object or another list
  other_json : Claim

-- A JSON object, as the last value under each name.
abbrev pub Claims : Type 0
Claims = List (Text × Claim)

abbrev pub get : Text → Claims → Option Claim
get name [] = none
get name ((n, v) ∷ rest) = if n == name then some v else get name rest

-- `claims[name] = v`
abbrev pub put : Text → Claim → Claims → Claims
put name v claims = (name, v) ∷ claims

pub record JwtHeader : Type 0 where
  pub alg : Text
  pub kid : Text
  pub typ : Text

pub record Jose : Type 1 where
  pub PrivateKey : Type 0
  -- pem.Decode and x509.ParsePKCS1PrivateKey
  pub parse_key : Text → Option PrivateKey
  -- json.Marshal, then base64
  pub encode_header : JwtHeader → Text
  pub encode_claims : Claims → Text
  -- base64, then json.Unmarshal
  pub decode_header : Text → Option JwtHeader
  pub decode_claims : Text → Option Claims
  -- SignPKCS1v15 of the SHA-256 digest, in base64; and VerifyPKCS1v15 of what base64 decodes
  pub sign_digest : PrivateKey → Text → Option Text
  pub verify_digest : PrivateKey → Text → Text → Bool

abbrev pub or_error {ℓ} : {A : Type ℓ} → Option A → Error → Action A
or_error none e = fail e
or_error (some a) e = pure a

-- `c[name] != want`
abbrev pub is_text : Text → Option Claim → Bool
is_text want (some (text t)) = t == want
is_text want other = false

-- `exp, ok := c["exp"].(float64); !ok || exp <= now`
abbrev pub unexpired : ℕ → Option Claim → Bool
unexpired now (some (number exp)) = ltb now exp
unexpired now (some (between exp)) = leb now exp
unexpired now _ = false

-- `nbf, ok := c["nbf"].(float64); ok && nbf > now`
abbrev pub begun : ℕ → Option Claim → Bool
begun now (some (number nbf)) = leb nbf now
begun now (some (between nbf)) = ltb nbf now
begun now _ = true

-- claims["exp"], if it is not there
abbrev default_exp : ℕ → Option Claim → Claims → Claims
default_exp now none claims = put (codes "exp") (number (now + 300)) claims
default_exp now (some _) claims = claims

-- what Sign adds to the claims
abbrev pub stamp : Text → ℕ → Claims → Claims
stamp issuer now claims =
    let dated =
      put (codes "nbf") (number now)
        (put (codes "iat") (number now) (put (codes "iss") (text issuer) claims)) in
    default_exp now (get (codes "exp") dated) dated

abbrev pub join_dot : Text → Text → Text
join_dot a b = a ++ b'.' ∷ b

module _ (jose : Jose) (issuer : Text) where
  open jose use {
    PrivateKey, parse_key, encode_header, encode_claims, decode_header, decode_claims, sign_digest,
    verify_digest,
  }

  -- KeySet.active
  unfoldable pub active : Action (Text × PrivateKey)
  active = do
    k ← active_signing_key
    key ← or_error (parse_key k.private_pem) bad_token
    pure (k.kid, key)

  -- KeySet.Ensure, with the key that Rotate would make
  unfoldable pub ensure : Text → Text → Text → Action (Unit {0})
  ensure kid private public = do
    n ← active_signing_key_count
    if eqb n 0 then rotate_signing_key kid private public else pure tt

  -- KeySet.Sign
  unfoldable pub sign : Claims → Text → Action Text
  unfolding active
  sign claims typ = do
    (kid, key) ← active
    now ← time
    let input =
        join_dot (encode_header (record { alg = codes "RS256"; kid = kid; typ = typ }))
          (encode_claims (stamp issuer now claims))
    sig ← or_error (sign_digest key input) bad_token
    pure (join_dot input sig)

  -- the checks on the claims, from the issuer on
  unfoldable pub check_claims : Text → ℕ → Claims → Action Claims
  check_claims audience now c = do
    require (is_text issuer (get (codes "iss") c) && is_text audience (get (codes "aud") c))
        bad_token
    require (unexpired now (get (codes "exp") c)) bad_token
    require (begun now (get (codes "nbf") c)) bad_token
    pure c

  abbrev pub good_header : Text → JwtHeader → Bool
  good_header typ h = h.alg == codes "RS256" && not (h.kid == []) && h.typ == typ

  -- from the three parts on
  unfoldable pub verify_parts : Text → Text → Text → Text → Text → Action Claims
  unfolding check_claims
  verify_parts audience typ head body sig = do
    h ← or_error (decode_header head) bad_token
    require (good_header typ h) bad_token
    pem ← verification_key h.kid
    key ← or_error (parse_key pem) bad_token
    require (verify_digest key (join_dot head body) sig) bad_token
    c ← or_error (decode_claims body) bad_token
    now ← time
    check_claims audience now c

  -- KeySet.Verify
  unfoldable pub verify_split : Text → Text → List Text → Action Claims
  unfolding verify_parts
  verify_split audience typ (head ∷ body ∷ sig ∷ []) = verify_parts audience typ head body sig
  verify_split audience typ _ = fail bad_token

  unfoldable pub verify : Text → Text → Text → Action Claims
  unfolding verify_split
  verify raw audience typ = verify_split audience typ (split b'.' raw)
