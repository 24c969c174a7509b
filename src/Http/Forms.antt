-- ===== src/Http/Forms.antt =====
-- internal/transport/httpapi: what the handlers of forms do first. ui.go has validCSRF, browser.go
-- session, limits.go allowAttempt, admin_handlers.go adminActor.
use sso_go.Prelude.{
  ℕ, Text, codes, ◌==◌, Bool, true, false, Option, none, some, List, unauthenticated, Result, ok,
  err, if◌then◌else◌,
}
use sso_go.Action.{World}
use sso_go.Http.Address
use sso_go.Http.Address.{Net, Network}
use sso_go.Http.Message.{Request, Reply, problem, Handler}
use sso_go.Service.Access.{allow}
use sso_go.Service.Identity.{Outside, session}
use sso_go.Service.Admin.{authorized}

abbrev same_token : Text → Option Text → Bool
same_token csrf none = false
same_token csrf (some token) = token == csrf

-- validCSRF, of what FormValue gives
abbrev pub valid_csrf : Request → (Text → Text) → Bool
valid_csrf q form = same_token (form (codes "csrf")) (q.cookie (codes "__Host-sso-form"))

-- `if err := r.ParseForm(); err != nil || !validCSRF(r) { problem(...); return }`
abbrev checked_form : Request → Option (Text → Text) → ((Text → Text) → Handler) → Handler
checked_form q none handle w = (problem 403 (codes "invalid form token"), w)
checked_form q (some form) handle w =
    let rest = handle form w in
    if valid_csrf q form then rest else (problem 403 (codes "invalid form token"), w)

-- the check of the form and of its token
unfoldable pub with_form : Request → ((Text → Text) → Handler) → Handler
with_form q handle = checked_form q q.form handle

abbrev pub Gate : Type 0
Gate = World → Bool × World

-- `if !a || !b { problem(w, 429, ...); return }`: an attempt that the first refuses is not counted by
-- the second
abbrev both : Gate → Gate → Gate
both a b w = let (x, w1) = a w in let (y, w2) = b w1 in if x then (y, w2) else (false, w1)

abbrev opened : Bool × World → Handler → Reply × World
opened (true, w) handle = handle w
opened (false, w) handle = (problem 429 (codes "too many attempts"), w)

abbrev pub limited : Gate → Handler → Handler
limited gate handle w = opened (gate w) handle

abbrev pub limited_twice : Gate → Gate → Handler → Handler
limited_twice a b = limited (both a b)

abbrev signed_in : (Text → Handler) → Result Text × World → Reply × World
signed_in handle (ok id, w) = handle id w
signed_in handle (err e, w) = (problem 401 (codes "sign in required"), w)

abbrev pub granted : Result Bool → Bool
granted (ok b) = b
granted (err e) = false

abbrev allowed : Text → Result Bool × World → (Text → Handler) → Reply × World
allowed id (r, w) handle =
    let rest = handle id w in
    if granted r then rest else (problem 403 (codes "global administrator required"), w)

abbrev as_admin : (Text → Handler) → Result Text × World → Reply × World
as_admin handle (ok id, w) = allowed id (authorized id w) handle
as_admin handle (err e, w) = (problem 403 (codes "global administrator required"), w)

module _ (out : Outside) where
  -- Server.allowAttempt
  unfoldable pub attempt : Text → Text → ℕ → ℕ → Gate
  attempt scope value limit window w =
      let (r, w') = allow out.hash scope value limit window w in (granted r, w')

  abbrev session_of : Option Text → World → Result Text × World
  session_of none w = (err unauthenticated, w)
  session_of (some token) w = session out token w

  -- Server.session
  unfoldable pub current_session : Request → World → Result Text × World
  current_session q = session_of (q.cookie (codes "__Host-sso"))

  -- `id, err := s.session(r)` and the reply if there is none
  abbrev pub with_session : Request → (Text → Handler) → Handler
  with_session q handle w = signed_in handle (current_session q w)

  -- Server.adminActor, with globalAdmin
  unfoldable pub with_admin : Request → ((Text → Text) → Text → Handler) → Handler
  unfolding with_form
  with_admin q handle = with_form q (λ form w. as_admin (handle form) (current_session q w))

  module _ (net : Net) (networks : List Network) where
    -- Server.clientIP of a request
    unfoldable pub address : Request → Text
    address q = Address.client_ip net networks q.remote_addr (q.header (codes "X-Forwarded-For"))
