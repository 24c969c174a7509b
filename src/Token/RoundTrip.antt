-- ===== src/Token/RoundTrip.antt =====
-- Verify accepts what Sign made.
use sso_go.Prelude.{
  ◌+◌, ◌<◌, ◌≤◌, Text, codes, ◌==◌, true, false, none, some, [], ◌∷◌, ◌++◌, ok, ◌≡◌, arith,
  find_where, eq_refl, ◌∙◌, ap,
}
use mathlib.Core.List.{append_assoc}
use sso_go.Db.{SigningKey}
use sso_go.Action.{World, fails, drawn}
use sso_go.Action.Run.{run-query, run_ok}
use sso_go.Repo.Keys.{verifies, verification_key, active_signing_key}
use sso_go.Service.Words.{split}
use sso_go.Service.Words.Split.{IsPlain, split-plain, split-join}
use sso_go.Token.{
  Claims, get, Jose, JwtHeader, text, join_dot, stamp, sign, active, verify, verify_split,
  verify_parts, check_claims,
}

module _ (jose : Jose) (issuer audience typ : Text) (claims : Claims) (k : SigningKey)
    (private : jose.PrivateKey) (c : Claims) (sig : Text) (w w' : World) where
  abbrev header : JwtHeader
  header = record { alg = codes "RS256"; kid = k.kid; typ = typ }

  abbrev stamped : Claims
  stamped = stamp issuer w.now claims

  abbrev head : Text
  head = jose.encode_header header

  abbrev body : Text
  body = jose.encode_claims stamped

  abbrev token : Text
  token = join_dot (join_dot head body) sig

  sign-token :
      (active_signing_key w).0 ≡ ok k
      → jose.parse_key k.private_pem ≡ some private
      → jose.sign_digest private (join_dot head body) ≡ some sig
      → (sign jose issuer claims typ w).0 ≡ ok token
  unfolding sign active
  sign-token a p s =
      let same : (active_signing_key w).1 ≡ drawn w = unfold active_signing_key in run-query _ w in
      ground (arith, a, p, s, same)

  split-token :
      IsPlain b'.' head
      → IsPlain b'.' body
      → IsPlain b'.' sig
      → split b'.' token ≡ head ∷ body ∷ sig ∷ []
  split-token ph pb ps =
      ap (split b'.') (append_assoc head (b'.' ∷ body) (b'.' ∷ sig))
      ∙ split-join b'.' head (body ++ b'.' ∷ sig) ph
      ∙ ap (λ parts. head ∷ parts) (split-join b'.' body sig pb)
      ∙ ap (λ parts. head ∷ body ∷ parts) (split-plain b'.' sig ps)

  -- the claims that Verify reads, where JSON gives back what was encoded
  good_claims :
      ((name : Text) → get name c ≡ get name stamped)
      → get (codes "aud") claims ≡ some (text audience)
      → get (codes "exp") claims ≡ none
      → w.now ≤ w'.now
      → w'.now < w.now + 300
      → check_claims jose issuer audience w'.now c (drawn w') ≡ (ok c, drawn w')
  unfolding check_claims ◌==◌
  good_claims same aud exp le lt = ground (
    arith,
    aud,
    exp,
    same (codes "iss"),
    same (codes "aud"),
    same (codes "exp"),
    same (codes "nbf"),
    eq_refl issuer,
    eq_refl audience,
  )

  -- A token that Sign made with the active key is accepted by Verify for its audience and type,
  -- with the claims that Sign stamped, for five minutes, while a published row has the key, current
  -- or rotated since, and the database works: if JSON and base64 give back the header and the claims
  -- and write no dot, and the signature verifies.
  pub sign-verify :
      (k' : SigningKey)
      → (active_signing_key w).0 ≡ ok k
      → (k.kid == []) ≡ false
      → jose.parse_key k.private_pem ≡ some private
      → jose.sign_digest private (join_dot head body) ≡ some sig
      → jose.verify_digest private (join_dot head body) sig ≡ true
      → jose.decode_header head ≡ some header
      → jose.decode_claims body ≡ some c
      → ((name : Text) → get name c ≡ get name stamped)
      → IsPlain b'.' head
      → IsPlain b'.' body
      → IsPlain b'.' sig
      → get (codes "aud") claims ≡ some (text audience)
      → get (codes "exp") claims ≡ none
      → find_where (verifies k.kid w'.now) w'.db.keys ≡ some k'
      → k'.private_pem ≡ k.private_pem
      → w.now ≤ w'.now
      → w'.now < w.now + 300
      → fails w'.faults ≡ false
      → ((sign jose issuer claims typ w).0 ≡ ok token)
        × ((verify jose issuer token audience typ w').0 ≡ ok c)
  sign-verify k' a some_kid p s v dh dc same ph pb ps aud exp published pem le lt up =
      let found : verification_key k.kid w' ≡ (ok k.private_pem, drawn w') =
        unfold verification_key in
        run_ok _ w' k.private_pem w'.db up (ground (arith, published, pem)) in
      let good = good_claims same aud exp le lt in
      let parts = split-token ph pb ps in
      (
        sign-token a p s,
        unfold verify verify_split verify_parts in
            rw parts (
              ground
                (arith, dh, dc, v, p, some_kid, found, good, eq_refl (codes "RS256"), eq_refl typ)),
      )
