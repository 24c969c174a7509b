-- ===== src/Grpc.antt =====
-- internal/transport/grpcapi: the management service.
--
-- A request is a structpb.Struct: what GetStringValue and GetListValue give of its fields. The way
-- through JSON that `response` takes keeps the fields of an answer.
pub mod Trusted
use sso_go.Prelude.{
  ℕ, Text, codes, ◌==◌, Bool, true, false, Option, none, some, List, [], ◌∷◌, Error,
  unauthenticated, forbidden, invalid_input, not_found, Result, ok, err,
}
use sso_go.Db.{Payload}
use sso_go.Action.{World, Action, ◌>>=◌, ◌>>◌, pure}
use sso_go.Repo.Management.{PendingRequest}
use sso_go.Service.Management
use sso_go.Service.Management.{Actor, User, authenticate}
use sso_go.Security.Password.{trim_prefix}
use sso_go.Token.{Jose}

pub record Struct : Type 0 where
  -- v.GetFields()[k].GetStringValue()
  pub text : Text → Text
  -- the GetStringValue of each of v.GetFields()[k].GetListValue().GetValues()
  pub texts : Text → List Text

pub record Call : Type 0 where
  -- the metadata of the context, md.Get
  pub metadata : Text → List Text
  pub request : Struct

-- field
abbrev pub field : Struct → Text → Text
field v k = v.text k

abbrev keep_texts : List Text → List Text
keep_texts [] = []
keep_texts ([] ∷ xs) = keep_texts xs
keep_texts ((c ∷ x) ∷ xs) = (c ∷ x) ∷ keep_texts xs

-- stringsField
abbrev pub strings_field : Struct → Text → List Text
strings_field v k = keep_texts (v.texts k)

-- first
abbrev pub first : List Text → Text
first [] = []
first (x ∷ _) = x

pub data Code : Type 0 where
  unauthenticated_code permission_denied invalid_argument not_found_code : Code

-- a status with its text, or the error as it came, which gRPC makes a status Unknown
pub data Failure : Type 0 where
  status : Code → Text → Failure
  other : Error → Failure

-- managementError
abbrev pub management_error : Error → Failure
management_error unauthenticated = status unauthenticated_code (codes "invalid credentials")
management_error forbidden = status permission_denied (codes "permission denied")
management_error invalid_input = status invalid_argument (codes "invalid request")
management_error not_found = status not_found_code (codes "not found")
management_error e = other e

pub data Response : Type 0 where
  user : User → Response
  payload : Payload → Response
  requests : List PendingRequest → Response
  user_id : Text → Response
  failure : Failure → Response

abbrev respond {ℓ} : {A : Type ℓ} → (A → Response) → Result A → Response
respond f (ok a) = f a
respond f (err e) = failure (management_error e)

pub data Method : Type 0 where
  get_user update_profile list_requests approve set_roles revoke : Method

-- GRPCServer's names of the methods
abbrev pub name_of : Method → Text
name_of get_user = codes "GetUser"
name_of update_profile = codes "UpdateProfile"
name_of list_requests = codes "ListRequests"
name_of approve = codes "ApproveRequest"
name_of set_roles = codes "SetRoles"
name_of revoke = codes "RevokeAccess"

-- whether the handler asks for an administrator of the project
abbrev pub needs_admin : Method → Bool
needs_admin get_user = false
needs_admin update_profile = false
needs_admin list_requests = true
needs_admin approve = true
needs_admin set_roles = true
needs_admin revoke = true

module _ (hash : Text → Text) (jose : Jose) (issuer : Text) where
  -- Server.actor
  unfoldable pub actor : Call → Text → Bool → Action Actor
  actor c project admin =
      authenticate hash jose issuer project (first (c.metadata (codes "x-client-id")))
        (first (c.metadata (codes "x-client-secret")))
        (trim_prefix (first (c.metadata (codes "authorization"))) (codes "Bearer ")) admin

  -- what a handler does for its actor: `event_id` and `ids` are the identifiers it would make
  unfoldable pub act : Text → (ℕ → Text) → Method → Struct → Actor → World → Response × World
  act event_id ids get_user v a w =
      let (r, w') = Management.get_user a (field v (codes "user_id")) w in (respond user r, w')
  act event_id ids update_profile v a w =
      let (r, w') =
        Management.update_profile ids a (field v (codes "user_id")) (field v (codes "name"))
          (field v (codes "avatar_url")) w in
      (respond payload r, w')
  act event_id ids list_requests v a w =
      let (r, w') = Management.list_requests a w in (respond requests r, w')
  act event_id ids approve v a w =
      let (r, w') =
        Management.approve event_id a (field v (codes "request_id"))
          (strings_field v (codes "roles")) w in
      (respond payload r, w')
  act event_id ids set_roles v a w =
      let (r, w') =
        Management.set_roles event_id a (field v (codes "user_id"))
          (strings_field v (codes "roles")) w in
      (respond payload r, w')
  act event_id ids revoke v a w =
      let (r, w') = Management.revoke event_id a (field v (codes "user_id")) w in
      (respond (λ _. user_id (field v (codes "user_id"))) r, w')

  abbrev acting : (Actor → World → Response × World) → Result Actor × World → Response × World
  acting handle (ok a, w) = handle a w
  acting handle (err e, w) = (failure (management_error e), w)

  -- the handlers of management.go
  unfoldable pub handle : Text → (ℕ → Text) → Method → Call → World → Response × World
  handle event_id ids m c w =
      acting (act event_id ids m c.request)
        (actor c (field c.request (codes "project_id")) (needs_admin m) w)
