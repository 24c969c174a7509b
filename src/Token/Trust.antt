-- ===== src/Token/Trust.antt =====
-- What a token that Verify accepts is, and that Verify accepts what Sign made.
use sso_go.Prelude.{
  Option, none, ◌<◌, ◌≤◌, ◌⊎◌, find_where-some, ℕ, Text, codes, true, some, List, [], ◌∷◌, ok, ◌≡◌,
  refl, arith, inl, inr, Result-cases, Option-cases, find_where, eq_iff,
}
use sso_go.Db.{SigningKey}
use sso_go.Action.{World, drawn, run}
use sso_go.Action.Run.{run-eq-ok}
use sso_go.Repo.Keys.{verifies, verification_key}
use sso_go.Service.Words.{split}
use sso_go.Token.{
  Claims, Claim, text, number, between, negative, flag, texts, other_json, get, Jose, JwtHeader,
  is_text, unexpired, begun, join_dot, verify, verify_split, verify_parts, check_claims,
}

-- The claim is a number that is greater than the whole time `now`.
pub data IsAfter (now : ℕ) : Option Claim → Type 0 where
  whole : (n : ℕ) → now < n → IsAfter now (some (number n))
  fraction : (n : ℕ) → now ≤ n → IsAfter now (some (between n))

unexpired-IsAfter : (now : ℕ) (o : Option Claim) → unexpired now o ≡ true → IsAfter now o
unexpired-IsAfter now (some (number n)) h = whole n (ground arith)
unexpired-IsAfter now (some (between n)) h = fraction n (ground arith)
unexpired-IsAfter now none h = absurd (cc h)
unexpired-IsAfter now (some (text s)) h = absurd (cc h)
unexpired-IsAfter now (some negative) h = absurd (cc h)
unexpired-IsAfter now (some (flag b)) h = absurd (cc h)
unexpired-IsAfter now (some (texts ts)) h = absurd (cc h)
unexpired-IsAfter now (some other_json) h = absurd (cc h)

begun-IsAfter : (now : ℕ) (o : Option Claim) → begun now o ≡ true → ¬ IsAfter now o
begun-IsAfter now _ h (whole n lt) = ground arith
begun-IsAfter now _ h (fraction n le) = ground arith

-- The key is not retired, or still published.
abbrev pub IsPublished : ℕ → SigningKey → Type 0
IsPublished now k =
    (k.retired_at ≡ none) ⊎ ((until : ℕ) × (k.publish_until ≡ some until) × (now < until))

verifies-IsPublished :
    (kid : Text) (now : ℕ) (k : SigningKey)
    → verifies kid now k ≡ true
    → (k.kid ≡ kid) × IsPublished now k
verifies-IsPublished kid now k h = elim (Option-cases k.retired_at) [
  | inl current ↦ (ground (arith, eq_iff k.kid kid), inl current)
  | inr (t, retired) ↦ elim (Option-cases k.publish_until) [
    | inl never ↦ absurd (ground arith)
    | inr (until, e) ↦ (ground (arith, eq_iff k.kid kid), inr (until, e, ground arith))
  ]
]

-- The token `raw` is one of the issuer for the audience, of the given type and in force at `now`,
-- and a key that is published then has signed it.
pub record Genuine (jose : Jose) (issuer raw audience typ : Text) (now : ℕ) (keys : List SigningKey)
    (c : Claims) : Type 0 where
  pub head : Text
  pub body : Text
  pub sig : Text
  pub three_parts : split b'.' raw ≡ head ∷ body ∷ sig ∷ []
  pub header : JwtHeader
  pub header_eq : jose.decode_header head ≡ some header
  pub rs256 : header.alg ≡ codes "RS256"
  pub typ_eq : header.typ ≡ typ
  pub key : SigningKey
  pub published : find_where (verifies header.kid now) keys ≡ some key
  pub private : jose.PrivateKey
  pub private_eq : jose.parse_key key.private_pem ≡ some private
  pub signed : jose.verify_digest private (join_dot head body) sig ≡ true
  pub claims_eq : jose.decode_claims body ≡ some c
  pub issuer_eq : is_text issuer (get (codes "iss") c) ≡ true
  pub audience_eq : is_text audience (get (codes "aud") c) ≡ true
  pub key_kid : key.kid ≡ header.kid
  pub key_published : IsPublished now key
  pub expires_later : IsAfter now (get (codes "exp") c)
  pub has_begun : ¬ IsAfter now (get (codes "nbf") c)
  pub in_force :
      (unexpired now (get (codes "exp") c) ≡ true) × (begun now (get (codes "nbf") c) ≡ true)

-- a published key that VerificationKey returned
verification_key-ok :
    (kid pem : Text) (w : World)
    → (verification_key kid w).0 ≡ ok pem
    → (k : SigningKey) × (find_where (verifies kid w.now) w.db.keys ≡ some k)
      × (k.private_pem ≡ pem)
verification_key-ok kid pem w h = elim (Option-cases (find_where (verifies kid w.now) w.db.keys)) [
  | inl missing ↦ absurd (unfold verification_key in ground (arith, run-eq-ok _ w pem h))
  | inr (k, found) ↦ (k, found, unfold verification_key in ground (arith, run-eq-ok _ w pem h))
]

verification_key-drawn : (kid : Text) (w : World) → (verification_key kid w).1 ≡ drawn w
unfolding verification_key run
verification_key-drawn kid w = ground arith

module _ (jose : Jose) (issuer audience typ : Text) (w : World) (c : Claims) where
  three_parts :
      (parts : List Text)
      → (verify_split jose issuer audience typ parts w).0 ≡ ok c
      → (head : Text) × (body : Text) × (sig : Text) × (parts ≡ head ∷ body ∷ sig ∷ [])
        × ((verify_parts jose issuer audience typ head body sig w).0 ≡ ok c)
  unfolding verify_split
  three_parts [] h = absurd (ground arith)
  three_parts (head ∷ []) h = absurd (ground arith)
  three_parts (head ∷ body ∷ []) h = absurd (ground arith)
  three_parts (head ∷ body ∷ sig ∷ []) h = (head, body, sig, refl, h)
  three_parts (head ∷ body ∷ sig ∷ more ∷ parts) h = absurd (ground arith)

  module _ (head body sig : Text)
      (h : (verify_parts jose issuer audience typ head body sig w).0 ≡ ok c) where
    has_header : (hd : JwtHeader) × (jose.decode_header head ≡ some hd)
    unfolding verify_parts
    has_header = elim (Option-cases (jose.decode_header head)) [
      | inl bad ↦ absurd (ground arith)
      | inr good ↦ good
    ]

    has_pem :
        (hd : JwtHeader)
        → jose.decode_header head ≡ some hd
        → (pem : Text) × ((verification_key hd.kid w).0 ≡ ok pem)
    unfolding verify_parts
    has_pem hd e = elim (Result-cases (verification_key hd.kid w).0) [
      | inl bad ↦ absurd (ground (arith, bad.1))
      | inr good ↦ good
    ]

    has_key :
        (hd : JwtHeader) (pem : Text)
        → jose.decode_header head ≡ some hd
        → (verification_key hd.kid w).0 ≡ ok pem
        → (key : jose.PrivateKey) × (jose.parse_key pem ≡ some key)
    unfolding verify_parts
    has_key hd pem e k = elim (Option-cases (jose.parse_key pem)) [
      | inl bad ↦ absurd (ground arith)
      | inr good ↦ good
    ]

    genuine :
        (raw : Text)
        → split b'.' raw ≡ head ∷ body ∷ sig ∷ []
        → Genuine jose issuer raw audience typ w.now w.db.keys c
    genuine raw parts =
        let (hd, e) = has_header in
        let (pem, p) = has_pem hd e in
        let (private, q) = has_key hd pem e p in
        let (k, found, same) = verification_key-ok hd.kid pem w p in
        let (own_kid, still) =
          verifies-IsPublished hd.kid w.now k
            (find_where-some (verifies hd.kid w.now) w.db.keys k found) in
        let forced : (unexpired w.now (get (codes "exp") c) ≡ true)
            × (begun w.now (get (codes "nbf") c) ≡ true) =
          unfold verify_parts check_claims in
          ground (arith, e, p, q, verification_key-drawn hd.kid w) in
        record {
          head = head;
          body = body;
          sig = sig;
          three_parts = parts;
          header = hd;
          header_eq = e;
          rs256 = unfold verify_parts in ground (arith, eq_iff hd.alg (codes "RS256"));
          typ_eq = unfold verify_parts in ground (arith, eq_iff hd.typ typ);
          key = k;
          published = found;
          private = private;
          private_eq = rw same q;
          signed = unfold verify_parts in ground arith;
          claims_eq = unfold verify_parts check_claims in ground arith;
          issuer_eq =
              unfold verify_parts check_claims in
              ground (arith, e, p, q, verification_key-drawn hd.kid w);
          audience_eq =
              unfold verify_parts check_claims in
              ground (arith, e, p, q, verification_key-drawn hd.kid w);
          key_kid = own_kid;
          key_published = still;
          expires_later = unexpired-IsAfter w.now (get (codes "exp") c) forced.0;
          has_begun = begun-IsAfter w.now (get (codes "nbf") c) forced.1;
          in_force = forced;
        }

module _ (jose : Jose) (issuer raw audience typ : Text) (w : World) (c : Claims) where
  -- Verify accepts only genuine tokens.
  pub verify-Genuine :
      (verify jose issuer raw audience typ w).0 ≡ ok c
      → Genuine jose issuer raw audience typ w.now w.db.keys c
  unfolding verify
  verify-Genuine h =
      let (head, body, sig, parts, good) =
        three_parts jose issuer audience typ w c (split b'.' raw) h in
      genuine jose issuer audience typ w c head body sig good raw parts

module _ (jose : Jose) (issuer audience typ : Text) (w : World) where
  verify_split-tables :
      (parts : List Text)
      → ((verify_split jose issuer audience typ parts w).1.db ≡ w.db)
        × ((verify_split jose issuer audience typ parts w).1.now ≡ w.now)
  unfolding verify_split verify_parts check_claims
  verify_split-tables [] = (refl, refl)
  verify_split-tables (head ∷ []) = (refl, refl)
  verify_split-tables (head ∷ body ∷ []) = (refl, refl)
  verify_split-tables (head ∷ body ∷ sig ∷ []) = elim (Option-cases (jose.decode_header head)) [
    | inl bad ↦ ground arith
    | inr (hd, e) ↦
        (let same = verification_key-drawn hd.kid w in
          (ground (arith, e, same), ground (arith, e, same)))
  ]
  verify_split-tables (head ∷ body ∷ sig ∷ more ∷ parts) = (refl, refl)

  -- Verify writes nothing.
  pub verify-tables :
      (raw : Text)
      → ((verify jose issuer raw audience typ w).1.db ≡ w.db)
        × ((verify jose issuer raw audience typ w).1.now ≡ w.now)
  unfolding verify
  verify-tables raw = verify_split-tables (split b'.' raw)
