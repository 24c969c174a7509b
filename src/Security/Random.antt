-- ===== src/Security/Random.antt =====
-- internal/security/random.go: tokens.
use sso_go.Prelude.{Text}
use sso_go.Security.Base64.{url, encode}

-- RandomToken, of the 32 bytes that rand.Read fills; it panics if there are none
unfoldable pub random_token : Text → Text
random_token bytes = encode url bytes
