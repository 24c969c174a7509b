-- ===== src/Service/Operator/Redirects.antt =====
-- Which redirect URIs ValidateRedirects accepts.
use sso_go.Prelude.{
  ◌≢◌, ◌⊎◌, ℕ, some, none, refl, eqb, eqb_iff, eq_iff, mem, Text, codes, ◌<◌, true, false, Option,
  List, [], ◌∷◌, All, length, ok, ◌≡◌, ◌↔◌, arith,
}
use sso_go.Service.Words.{contains, has_prefix}
use sso_go.Service.Roles.Valid.{IsDistinct, AllNew, AllNew-cons, AllNew-nil}
use sso_go.Service.Operator.{Url, absolute, secure, redirects_loop, validate_redirects}

-- a URL with a host, and without a fragment or a user
pub record IsAbsolute (u : Url) : Type 0 where
  pub host : u.host ≢ []
  pub fragment : u.fragment ≡ []
  pub no_user : u.has_user ≡ false

-- HTTPS, or HTTP on this machine
abbrev pub IsSecure : Url → Type 0
IsSecure u =
    (u.scheme ≡ codes "https")
    ⊎ ((u.scheme ≡ codes "http")
        × ((u.hostname ≡ codes "localhost") ⊎ (u.hostname ≡ codes "127.0.0.1")))

abbrev pub HasNoStar : Text → Type 0
HasNoStar = All (λ c. c ≢ b'*')

has_prefix_one : (c d : ℕ) (s : Text) → has_prefix (c ∷ s) (d ∷ []) ≡ eqb c d
unfolding has_prefix
has_prefix_one c d s = ground arith

contains_iff : (s : Text) → (contains s (codes "*") ≡ false) ↔ HasNoStar s
unfolding contains has_prefix
contains_iff [] = ground arith
contains_iff (c ∷ s) = ground (arith, contains_iff s, eqb_iff c b'*', has_prefix_one c b'*' s)

absolute_iff : (v : Option Url) → (absolute v ≡ true) ↔ ((u : Url) × (v ≡ some u) × IsAbsolute u)
absolute_iff none = (λ h. absurd (cc h), λ (u, e, h). absurd (cc e))
absolute_iff (some u) = (
  λ h. (
    u,
    refl,
    record {
      host = λ e. ground (arith, eq_iff u.host []);
      fragment = ground (arith, eq_iff u.fragment []);
      no_user = ground arith;
    },
  ),
  λ (u', e, h).
      let same : u' ≡ u = cc e in
      ground (arith, same, h.host, h.fragment, h.no_user, eq_iff u.host [], eq_iff u.fragment []),
)

secure_iff : (u : Url) → (secure (some u) ≡ true) ↔ IsSecure u
secure_iff u = ground (
  arith,
  eq_iff u.scheme (codes "https"),
  eq_iff u.scheme (codes "http"),
  eq_iff u.hostname (codes "localhost"),
  eq_iff u.hostname (codes "127.0.0.1"),
)

module _ (parse_url : Text → Option Url) where
  -- an absolute URL without a star that is secure
  abbrev pub IsRedirect : Text → Type 0
  IsRedirect raw =
      HasNoStar raw × ((u : Url) × (parse_url raw ≡ some u) × IsAbsolute u × IsSecure u)

  -- what the loop tests of one URI
  abbrev Passes : Text → Type 0
  Passes raw =
      (absolute (parse_url raw) ≡ true)
      × (contains raw (codes "*") ≡ false)
      × (secure (parse_url raw) ≡ true)

  Passes-iff : (raw : Text) → Passes raw ↔ IsRedirect raw
  Passes-iff raw = (
    λ (whole, plain, safe).
        let (u, e, h) = (absolute_iff (parse_url raw)).0 whole in
        ((contains_iff raw).0 plain, (u, e, h, (secure_iff u).0 (rw e at safe))),
    λ (plain, (u, e, h, safe)). (
      (absolute_iff (parse_url raw)).1 (u, e, h),
      (contains_iff raw).1 plain,
      rw e ((secure_iff u).1 safe),
    ),
  )

  loop_inv :
      (seen : List Text) (r : Text) (rs : List Text)
      → redirects_loop parse_url seen (r ∷ rs) ≡ ok tt
      → Passes r × (redirects_loop parse_url (r ∷ seen) rs ≡ ok tt) × (mem r seen ≡ false)
  unfolding redirects_loop
  loop_inv seen r rs h = ground arith

  redirects_loop_iff :
      (seen redirects : List Text)
      → (redirects_loop parse_url seen redirects ≡ ok tt)
        ↔ (All IsRedirect redirects × IsDistinct redirects × AllNew seen redirects)
  unfolding redirects_loop
  redirects_loop_iff seen [] = ground arith
  redirects_loop_iff seen (r ∷ rs) =
      let later = redirects_loop_iff (r ∷ seen) rs in
      let new = AllNew-cons r seen rs in
      (
        λ h.
            let (good, rest, unseen) = loop_inv seen r rs h in
            let (goods, distinct, news) = later.0 rest in
            let (news', absent) = new.0 news in
            (((Passes-iff r).0 good, goods), (absent, distinct), (unseen, news')),
        λ ((good, goods), (absent, distinct), (unseen, news)).
            let (whole, plain, safe) = (Passes-iff r).1 good in
            let rest = later.1 (goods, distinct, new.1 (news, absent)) in
            ground (arith, whole, plain, safe, rest, unseen),
      )

  -- ValidateRedirects accepts a list exactly when it is not empty, no URI occurs twice, and each is
  -- without a star and parses as a URL with a host, without fragment or user, that uses HTTPS or is
  -- an HTTP one of the loopback.
  pub validate_redirects_iff :
      (redirects : List Text)
      → (validate_redirects parse_url redirects ≡ ok tt)
        ↔ ((0 < length redirects) × All IsRedirect redirects × IsDistinct redirects)
  unfolding validate_redirects
  validate_redirects_iff redirects =
      ground (arith, redirects_loop_iff [] redirects, AllNew-nil redirects)
