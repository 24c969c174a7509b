-- ===== src/Repo/Replica.antt =====
-- What the sync feed promises: a client that replays the events of its project, in the order of
-- their numbers, knows who has access to the project and with which roles.
pub mod Replaying
pub mod Access
pub mod Granting
pub mod Operating
pub mod Profiles
pub mod Accounts
pub mod Revoking
pub mod Disabling
pub mod Writes
use sso_go.Prelude.{
  Text, codes, ◌==◌, Bool, ◌&&◌, Option, none, some, List, [], ◌∷◌, if◌then◌else◌, ◌≡◌, ◌≢◌,
}
use sso_go.Db.{
  Db, Kind, access_granted, access_revoked, roles_changed, profile_updated, Payload, Value, texts,
  SyncRow,
}
use sso_go.Repo.Tables.{roles_of}

abbrev texts_of : Value → Option (List Text)
texts_of (texts rs) = some rs
texts_of _ = none

-- payload["roles"]
unfoldable pub roles_in : Payload → Option (List Text)
roles_in [] = none
roles_in ((k, v) ∷ rest) = if k == codes "roles" then texts_of v else roles_in rest

abbrev or_old : Option (List Text) → Option (List Text) → Option (List Text)
or_old none old = old
or_old (some rs) old = some rs

-- the roles of an account in a project after an event on it; `none` is no access
abbrev pub apply_event : Kind → Payload → Option (List Text) → Option (List Text)
apply_event access_granted payload old = or_old (roles_in payload) old
apply_event roles_changed payload old = or_old (roles_in payload) old
apply_event profile_updated payload old = or_old (roles_in payload) old
apply_event access_revoked payload old = none
apply_event _ payload old = old

abbrev pub on : Text → Text → Text → Text → Bool
on user project u p = user == u && project == p

abbrev pub step : Text → Text → SyncRow → Option (List Text) → Option (List Text)
step u p s old =
    if on s.account_id s.project_id u p then apply_event s.event_type s.payload old else old

unfoldable pub replay : Text → Text → List SyncRow → Option (List Text) → Option (List Text)
replay u p [] old = old
replay u p (s ∷ rows) old = replay u p rows (step u p s old)

-- The events of the feed, replayed from its start, give the table of access, for every account and
-- every project that has a name.
abbrev pub Mirrors : Db → Type 0
Mirrors d = (u p : Text) → p ≢ [] → replay u p d.sync none ≡ roles_of u p d
