-- ===== src/Http/Message.antt =====
-- Requests and replies of internal/transport/httpapi, as far as its handlers read and write them.
-- A text that is not ASCII is given by its code points.
use sso_go.Prelude.{ℤ, pos, negsuc, ℕ, Text, codes, Bool, true, false, Option, List, []}
use sso_go.Action.{World}
use sso_go.Service.Oauth.{Tokens, Userinfo}
use sso_go.Repo.Events.Feed.{SyncEvent, Snapshot}

pub record Request : Type 0 where
  -- r.ParseForm, and then r.FormValue
  pub form : Option (Text → Text)
  -- the value of r.Cookie(name)
  pub cookie : Text → Option Text
  -- r.URL.Query().Get(name)
  pub query : Text → Text
  -- r.Header.Get(name)
  pub header : Text → Text
  -- r.BasicAuth()
  pub basic : Option (Text × Text)
  pub remote_addr : Text
  -- r.URL.RequestURI()
  pub request_uri : Text

-- http.Cookie, with Path / and Secure and HttpOnly set; `lax` is SameSiteLaxMode
pub record SetCookie : Type 0 where
  pub name : Text
  pub value : Text
  pub max_age : ℤ
  pub lax : Bool

pub data Reply : Type 0 where
  -- problem(w, status, msg)
  problem : ℕ → Text → Reply
  -- jsonResponse(w, 200, ...) of a map with one text, after http.SetCookie
  answer : List SetCookie → Text → Text → Reply
  -- http.Redirect(w, r, url, status)
  redirect : ℕ → Text → Reply
  -- jsonResponse(w, 200, ...) of other values
  tokens : Tokens → Reply
  userinfo : Userinfo → Reply
  snapshot : Snapshot → Reply
  changes : Text → ℕ → List SyncEvent → Reply

abbrev pub Handler : Type 0
Handler = World → Reply × World

-- the cookie of login
abbrev pub session_cookie : Text → SetCookie
session_cookie token = record {
  name = codes "__Host-sso";
  value = token;
  max_age = pos 604800;
  lax = true;
}

-- the cookie of logout, reset and changePassword, with MaxAge -1
abbrev pub expired_cookie : SetCookie
expired_cookie = record { name = codes "__Host-sso"; value = []; max_age = negsuc 0; lax = false }

abbrev pub message : Text → Reply
message text = answer [] (codes "message") text

-- the two parts that every handler is made of: a call of a service, and what it answers
abbrev pub replying {ℓ} : {A : Type ℓ} → (A → Reply) → A × World → Reply × World
replying f (a, w) = (f a, w)
