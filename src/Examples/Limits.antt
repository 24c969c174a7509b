-- ===== src/Examples/Limits.antt =====
-- internal/repository/postgres/maintenance.go and keys.go on the small database.
use sso_go.Prelude.{
  ℕ, ◌≡◌, ◌≤◌, Text, codes, ◌==◌, false, List, [], ◌∷◌, ok, find_where, any_where, update_where,
  arith, refl, inl,
}
use sso_go.Action.{World, fails, run}
use sso_go.Repo.Maintenance.Limiting.{granted, granted-le-limit}
use sso_go.Repo.Keys.{
  rotate_signing_key, rotate_key, active_signing_key_count, active_signing_key, verification_key,
}
use sso_go.Repo.Keys.Single.{rotate_signing_key-single, verification_key-grace}
use sso_go.Examples.State.{at_time, key_row}

abbrev tries : List (Text × ℕ)
tries =
    (codes "ip", 10)
    ∷ (codes "ip", 20)
    ∷ (codes "other", 5)
    ∷ (codes "ip", 30)
    ∷ (codes "ip", 110)
    ∷ []

granted-le-limit_example : granted (codes "ip") 2 100 tries (at_time 0) ≤ 2
unfolding find_where ◌==◌
granted-le-limit_example = granted-le-limit (codes "ip") 2 100 tries 10 (at_time 0) (inl refl) (
  (λ _. (omega arith, omega arith)),
  (
    (λ _. (omega arith, omega arith)),
    (
      (λ h. ground arith),
      ((λ _. (omega arith, omega arith)), ((λ _. (omega arith, omega arith)), tt)),
    ),
  ),
)

abbrev turned : World
turned = (rotate_signing_key (codes "k2") (codes "pem2") (codes "jwk2") (at_time 10)).1

abbrev soon : World
soon = record turned { now = 300 }

turned_lem : (rotate_signing_key (codes "k2") (codes "pem2") (codes "jwk2") (at_time 10)).0 ≡ ok tt
unfolding rotate_signing_key rotate_key run update_where any_where ◌==◌
turned_lem = refl

turned_up : fails turned.faults ≡ false
unfolding rotate_signing_key rotate_key run update_where any_where ◌==◌
turned_up = refl

rotate_signing_key-single_example :
    ((active_signing_key_count turned).0 ≡ ok 1)
    × ((active_signing_key turned).0
        ≡ ok (record (key_row (codes "k2")) {
          private_pem = codes "pem2";
          public_jwk = codes "jwk2";
          created_at = 10;
        }))
rotate_signing_key-single_example =
    rotate_signing_key-single (codes "k2") (codes "pem2") (codes "jwk2") (at_time 10) turned_lem
      turned refl turned_up

verification_key-grace_example : (verification_key (codes "k1") soon).0 ≡ ok (codes "pem")
unfolding find_where ◌==◌
verification_key-grace_example =
    verification_key-grace (codes "k2") (codes "pem2") (codes "jwk2") (at_time 10) turned_lem
      (codes "k1") (key_row (codes "k1")) soon refl refl refl (omega arith) (omega arith) turned_up
