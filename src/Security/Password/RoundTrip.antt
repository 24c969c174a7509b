-- ===== src/Security/Password/RoundTrip.antt =====
-- A password is accepted against its own hash.
use sso_go.Prelude.{
  ◌^◌, ◌<◌, ◌%◌, Text, codes, ◌==◌, true, false, some, [], ◌∷◌, ◌++◌, length, ok, ◌≡◌, ◌≢◌, refl,
  eq_iff, eq_refl, ◌∙◌, ap, arith, All,
}
use sso_go.Service.Words.{has_prefix, split}
use sso_go.Service.Words.Split.{IsPlain, split-plain, split-join}
use sso_go.Strconv.{print, parse_int, expect}
use sso_go.Strconv.RoundTrip.{scan_uint-print, Stops-nil, Stops-cons}
use sso_go.Strconv.Plain.{print-append, print-IsPlain}
use sso_go.Security.Base64.{std, encode}
use sso_go.Security.Base64.RoundTrip.{IsByte, decode-encode, encode-IsPlain}
use sso_go.Security.Password.{
  Crypto, PasswordHasher, print_params, hash, is_legacy_bcrypt, verify, decode_hash, scan_params,
}

-- the widths of the fields: uint32, uint32, uint8 and uint32
pub record IsHasher (h : PasswordHasher) : Type 0 where
  pub memory : h.memory < 2 ^ 32
  pub iterations : h.iterations < 2 ^ 32
  pub parallelism : h.parallelism < 2 ^ 8
  pub key_length : h.key_length < 2 ^ 32

scan_params-print :
    (h : PasswordHasher)
    → IsHasher h
    → scan_params (print_params h []) ≡ some (h.memory, h.iterations, h.parallelism)
unfolding scan_params print_params expect
scan_params-print h v =
    rw
      (
        scan_params,
        scan_uint-print (2 ^ 32) h.memory
            (codes ",t=" ++ print h.iterations (codes ",p=" ++ print h.parallelism [])) v.memory
            (omega (arith, v.memory)) (Stops-cons b',' _ refl),
        scan_uint-print (2 ^ 32) h.iterations (codes ",p=" ++ print h.parallelism []) v.iterations
            (omega (arith, v.iterations)) (Stops-cons b',' _ refl),
        scan_uint-print (2 ^ 8) h.parallelism [] v.parallelism (omega (arith, v.parallelism))
            Stops-nil,
      )
      refl

print_params-append :
    (h : PasswordHasher) (rest : Text) → print_params h rest ≡ print_params h [] ++ rest
unfolding print_params
print_params-append h rest =
    rw
      (
        print-append h.parallelism [] rest,
        print-append h.iterations (codes ",p=" ++ print h.parallelism []) rest,
        print-append h.memory
            (codes ",t=" ++ print h.iterations (codes ",p=" ++ print h.parallelism [])) rest,
      )
      refl

print_params-IsPlain : (h : PasswordHasher) → IsPlain b'$' (print_params h [])
unfolding print_params
print_params-IsPlain h = (
  refl,
  (
    refl,
    print-IsPlain b'$' h.memory _ refl (
      refl,
      (
        refl,
        (
          refl,
          print-IsPlain b'$' h.iterations _ refl
              (refl, (refl, (refl, print-IsPlain b'$' h.parallelism _ refl tt))),
        ),
      ),
    ),
  ),
)

module _ (c : Crypto) (h : PasswordHasher) (width : IsHasher h) (salt : Text)
    (salt_bytes : All IsByte salt)
    (keys : (password : Text)
      → (let key = c.id_key password salt h.iterations h.memory h.parallelism h.key_length in
          All IsByte key × (length key ≡ h.key_length))) where
  abbrev key_of : Text → Text
  key_of password = c.id_key password salt h.iterations h.memory h.parallelism h.key_length

  abbrev stored : Text → Text
  stored key =
      codes "$argon2id$v=19$"
      ++ (print_params h [] ++ b'$' ∷ (encode std salt ++ b'$' ∷ encode std key))

  split-stored :
      (key : Text)
      → All IsByte key
      → split b'$' (stored key)
        ≡ []
          ∷ codes "argon2id"
          ∷ codes "v=19"
          ∷ print_params h []
          ∷ encode std salt
          ∷ encode std key
          ∷ []
  unfolding split
  split-stored key bytes =
      rw
        (
          split-join b'$' (print_params h []) (encode std salt ++ b'$' ∷ encode std key)
              (print_params-IsPlain h),
          split-join b'$' (encode std salt) (encode std key) (encode-IsPlain salt salt_bytes),
          split-plain b'$' (encode std key) (encode-IsPlain key bytes),
        )
        refl

  is_legacy-stored : (key : Text) → is_legacy_bcrypt (stored key) ≡ false
  unfolding is_legacy_bcrypt has_prefix
  is_legacy-stored key = refl

  decode_hash-stored :
      (key : Text)
      → All IsByte key
      → length key ≡ h.key_length
      → decode_hash (stored key) ≡ ok (h, salt, key)
  unfolding decode_hash parse_int ◌==◌
  decode_hash-stored key bytes len =
      let small : h.key_length % 2 ^ 32 ≡ h.key_length = omega (arith, width.key_length) in
      rw
        (
          split-stored key bytes,
          scan_params-print h width,
          decode-encode salt salt_bytes,
          decode-encode key bytes,
          len,
          small,
        )
        refl

  verify-stored :
      (password other : Text)
      → verify c other (stored (key_of password)) ≡ ok (key_of password == key_of other)
  unfolding verify
  verify-stored password other =
      let key = key_of password in
      rw (is_legacy-stored key, decode_hash-stored key (keys password).0 (keys password).1) refl

  hash-stored :
      (password : Text)
      → password ≢ []
      → hash c h (some salt) password ≡ ok (stored (key_of password))
  unfolding hash
  hash-stored password full =
      let key = key_of password in
      ground (
        arith,
        eq_iff password [],
        print_params-append h (b'$' ∷ (encode std salt ++ b'$' ∷ encode std key)),
      )

  -- A password that is not empty is hashed, if the random bytes are there, and then is accepted
  -- against what was stored; any other is accepted exactly when argon2 derives the same key from it.
  pub verify-hash :
      (password other : Text)
      → password ≢ []
      → (encoded : Text) × (hash c h (some salt) password ≡ ok encoded)
        × (verify c password encoded ≡ ok true)
        × (verify c other encoded ≡ ok (key_of password == key_of other))
  verify-hash password other full = (
    stored (key_of password),
    hash-stored password full,
    verify-stored password password ∙ ap ok (eq_refl (key_of password)),
    verify-stored password other,
  )
