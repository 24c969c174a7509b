-- ===== src/Examples/Jwt.antt =====
-- Tokens on the small database, with a stand-in for RSA and JSON.
use sso_go.Prelude.{
  ◌≡◌, Text, codes, ◌==◌, false, none, some, [], ◌∷◌, ok, if◌then◌else◌, find_where, order_by, refl,
  arith,
}
use sso_go.Db.{SigningKey}
use sso_go.Action.{World, run}
use sso_go.Repo.Keys.{active_signing_key, verification_key}
use sso_go.Service.Words.{split}
use sso_go.Token.{Claims, Jose, text, sign, verify, verify_split, verify_parts, check_claims, stamp}
use sso_go.Token.Trust.{Genuine, verify-Genuine}
use sso_go.Token.RoundTrip.{sign-verify}
use sso_go.Repo.Tables.{get_client, get_account, get_access}
use sso_go.Service.Management.{Actor, authenticate}
use sso_go.Service.Management.Authentication.{Trusted, authenticate-Trusted}
use sso_go.Examples.State.{at_time, key_row}

abbrev pub issuer : Text
issuer = codes "https://sso"

abbrev pub grpc : Text
grpc = codes "https://sso/grpc"

abbrev asked : Claims
asked =
    (codes "sub", text (codes "ann"))
    ∷ (codes "aud", text grpc)
    ∷ (codes "client_id", text (codes "web"))
    ∷ (codes "project_id", text (codes "shop"))
    ∷ []

abbrev made : Claims
made = stamp issuer 10 asked

-- it writes every header as "h" and all claims as "b"
abbrev pub jose : Jose
jose = record {
  PrivateKey = Unit;
  parse_key = λ pem. if pem == codes "pem" then some tt else none;
  encode_header = λ _. codes "h";
  encode_claims = λ _. codes "b";
  decode_header = λ t.
      if t == codes "h"
      then some (record { alg = codes "RS256"; kid = codes "k1"; typ = codes "at+jwt" })
      else none;
  decode_claims = λ t. if t == codes "b" then some made else none;
  sign_digest = λ _ _. some (codes "s");
  verify_digest = λ _ _ sig. sig == codes "s";
}

abbrev pub later : World
later = at_time 20

verified_lem : (verify jose issuer (codes "h.b.s") grpc (codes "at+jwt") later).0 ≡ ok made
unfolding verify verify_split verify_parts check_claims split verification_key run find_where ◌==◌
verified_lem = refl

verify-Genuine_example :
    Genuine jose issuer (codes "h.b.s") grpc (codes "at+jwt") 20 later.db.keys made
verify-Genuine_example =
    verify-Genuine jose issuer (codes "h.b.s") grpc (codes "at+jwt") later made verified_lem

-- the key after a rotation
abbrev rotated_key : SigningKey
rotated_key = record (key_row (codes "k1")) { retired_at = some 15; publish_until = some 615 }

abbrev rotated_later : World
rotated_later = record later {
  db = record later.db { keys = rotated_key ∷ key_row (codes "k2") ∷ [] };
}

sign-verify_example :
    ((sign jose issuer asked (codes "at+jwt") (at_time 10)).0 ≡ ok (codes "h.b.s"))
    × ((verify jose issuer (codes "h.b.s") grpc (codes "at+jwt") rotated_later).0 ≡ ok made)
unfolding active_signing_key run find_where order_by ◌==◌
sign-verify_example =
    sign-verify jose issuer grpc (codes "at+jwt") asked (key_row (codes "k1")) tt made (codes "s")
      (at_time 10) rotated_later rotated_key refl refl refl refl refl refl refl (λ _. refl)
      (refl, tt) (refl, tt) (refl, tt) refl refl refl refl (omega arith) (omega arith) refl

abbrev actor : Actor
actor = record {
  user = codes "ann";
  client = codes "web";
  project = codes "shop";
  roles = codes "user" ∷ [];
}

trusted_lem :
    (authenticate
      (λ s. s)
      jose
      issuer
      (codes "shop")
      (codes "web")
      (codes "sec")
      (codes "h.b.s")
      false
      later).0
    ≡ ok actor
unfolding authenticate verify verify_split verify_parts check_claims split verification_key run
    find_where ◌==◌ get_client get_account get_access
trusted_lem = refl

authenticate-Trusted_example :
    Trusted
      (λ s. s)
      jose
      issuer
      (codes "shop")
      (codes "web")
      (codes "sec")
      (codes "h.b.s")
      false
      later
      actor
authenticate-Trusted_example =
    authenticate-Trusted (λ s. s) jose issuer (codes "shop") (codes "web") (codes "sec")
      (codes "h.b.s") false later actor trusted_lem
