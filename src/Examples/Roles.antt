-- ===== src/Examples/Roles.antt =====
-- The role validators at concrete inputs.
use sso_go.Prelude.{◌≡◌, codes, map}
use sso_go.Service.Words.{split, trim}
use sso_go.Service.Roles.{parse_roles, validate_role_slice}
use sso_go.Service.Roles.Valid.{parsed, parse_roles-eq-validate}

parse_roles-eq-validate_example :
    parse_roles (codes "admin, user")
    ≡ parsed
        (map trim (split b',' (codes "admin, user")))
        (validate_role_slice (map trim (split b',' (codes "admin, user"))))
parse_roles-eq-validate_example = parse_roles-eq-validate (codes "admin, user")
