-- ===== src/Examples/Grpc.antt =====
-- A call of the management service at a concrete input.
use sso_go.Prelude.{◌≡◌, ◌⊎◌, codes, ◌==◌, [], ◌∷◌, if◌then◌else◌}
use sso_go.Service.Management.{Actor}
use sso_go.Service.Management.Authentication.{Trusted}
use sso_go.Security.Password.{trim_prefix}
use sso_go.Grpc.{Call, approve, field, first, handle}
use sso_go.Grpc.Trusted.{for_admins, handle-Trusted}
use sso_go.Examples.Jwt.{jose, issuer, later}

abbrev approval : Call
approval = record {
  metadata = λ name.
      (if name == codes "x-client-id"
        then codes "web"
        else if name == codes "x-client-secret"
        then codes "sec"
        else codes "Bearer h.b.s")
      ∷ [];
  request = record {
    text = λ name. if name == codes "project_id" then codes "shop" else codes "req";
    texts = λ name. codes "user" ∷ [];
  };
}

handle-Trusted_example :
    ((handle (λ s. s) jose issuer (codes "ev") (λ n. n ∷ []) approve approval later).1.db
      ≡ later.db)
    ⊎ ((a : Actor) × Trusted
          (λ s. s)
          jose
          issuer
          (field approval.request (codes "project_id"))
          (first (approval.metadata (codes "x-client-id")))
          (first (approval.metadata (codes "x-client-secret")))
          (trim_prefix (first (approval.metadata (codes "authorization"))) (codes "Bearer "))
          (for_admins approve)
          later
          a)
handle-Trusted_example =
    handle-Trusted (λ s. s) jose issuer (codes "ev") (λ n. n ∷ []) approve approval later
