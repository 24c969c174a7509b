-- ===== src/Repo/Replica/Replaying.antt =====
-- One more event in the feed.

use sso_go.Prelude.{
  ℕ, suc, Text, eq_iff, Bool, true, false, Option, none, List, [], ◌∷◌, ◌++◌, if◌then◌else◌, ok,
  ◌≡◌, refl, arith, Bool-cases, inl, inr,
}
use sso_go.Db.{Db, Kind, profile_updated, Payload, SyncRow}
use sso_go.Repo.Tables.{roles_of}
use sso_go.Repo.Events.{audit_event, sync_row}
use sso_go.Repo.Events.Frame.{audit_event-EventsOnly}
use sso_go.Repo.Replica.{apply_event, on, step, replay, Mirrors}

pub replay-append :
    (u p : Text) (rows : List SyncRow) (s : SyncRow) (old : Option (List Text))
    → replay u p (rows ++ s ∷ []) old ≡ step u p s (replay u p rows old)
unfolding replay
replay-append u p [] s old = refl
replay-append u p (r ∷ rows) s old = replay-append u p rows s (step u p r old)

-- The table of access after an operation on one account in one project.
abbrev pub Changed : Text → Text → Option (List Text) → Db → Db → Type 0
Changed user project new d d' =
    (u p : Text) → roles_of u p d' ≡ (if on user project u p then new else roles_of u p d)

-- An event on an account that says what became of its access keeps the feed true to the table.
pub event-Mirrors :
    (user project : Text) (kind : Kind) (payload : Payload) (n : ℕ) (new : Option (List Text))
    (d d' : Db)
    → Mirrors d
    → Changed user project new d d'
    → ((old : Option (List Text)) → apply_event kind payload old ≡ new)
    → d'.sync ≡ d.sync ++ sync_row n project kind user payload ∷ []
    → Mirrors d'
event-Mirrors user project kind payload n new d d' mirrors changed says appended u p named =
    let s = sync_row n project kind user payload in
    let before = replay u p d.sync none in
    let after : replay u p d'.sync none ≡ step u p s before =
      rw appended (replay-append u p d.sync s none) in
    elim (Bool-cases (on user project u p)) [
      | inl here ↦ ground (arith, after, changed u p, says before)
      | inr elsewhere ↦ ground (arith, after, changed u p, mirrors u p named)
    ]

-- An event after which a client knows what it knew before.
pub event-keeps :
    (user project : Text) (kind : Kind) (payload : Payload) (n : ℕ) (d d' : Db)
    → Mirrors d
    → d'.access ≡ d.access
    → apply_event kind payload (roles_of user project d) ≡ roles_of user project d
    → d'.sync ≡ d.sync ++ sync_row n project kind user payload ∷ []
    → Mirrors d'
event-keeps user project kind payload n d d' mirrors same says appended u p named =
    let s = sync_row n project kind user payload in
    let after : replay u p d'.sync none ≡ step u p s (replay u p d.sync none) =
      rw appended (replay-append u p d.sync s none) in
    elim (Bool-cases (on user project u p)) [
      | inl here ↦
          (let eu : user ≡ u = ground (arith, eq_iff user u) in
            let ep : project ≡ p = ground (arith, eq_iff project p) in
            let says' : apply_event kind payload (roles_of u p d) ≡ roles_of u p d =
              rw (← eu, ← ep) says in
            rw (after, here, mirrors u p named, same) says')
      | inr elsewhere ↦ rw (after, elsewhere, mirrors u p named, same) refl
    ]

abbrev pub is_plain : Kind → Bool
is_plain profile_updated = false
is_plain _ = true

pub audit_event-sync :
    (id actor client project : Text) (kind : Kind) (account : Text) (payload : Payload) (now : ℕ)
    (d d' : Db)
    → is_plain kind ≡ true
    → audit_event id actor client project kind account payload now d ≡ ok (tt, d')
    → d'.sync ≡ d.sync ++ sync_row (suc d.last_event) project kind account payload ∷ []
unfolding audit_event
audit_event-sync id actor client project profile_updated account payload now d d' plain h =
    absurd (cc plain)
audit_event-sync id actor client project _ account payload now d d' plain h = ground arith

-- An operation changes the access of one account in one project to `new`, and audits an event that
-- says so.
pub audit_event-Mirrors :
    (id actor client project : Text) (kind : Kind) (user : Text) (payload : Payload) (now : ℕ)
    (new : Option (List Text)) (d d1 d' : Db)
    → Mirrors d
    → Changed user project new d d1
    → d1.sync ≡ d.sync
    → is_plain kind ≡ true
    → ((old : Option (List Text)) → apply_event kind payload old ≡ new)
    → audit_event id actor client project kind user payload now d1 ≡ ok (tt, d')
    → Mirrors d'
audit_event-Mirrors id actor client project kind user payload now new d d1 d' mirrors changed quiet
      plain says h =
    let same = audit_event-EventsOnly id project user actor client kind payload now d1 d' h in
    event-Mirrors user project kind payload (suc d1.last_event) new d d' mirrors
      (λ u p. rw same.access (changed u p)) says
      (rw (← quiet) (audit_event-sync id actor client project kind user payload now d1 d' plain h))

-- Other tables do not matter.
pub Mirrors-same : (d d' : Db) → d'.sync ≡ d.sync → d'.access ≡ d.access → Mirrors d → Mirrors d'
Mirrors-same d d' feed table mirrors u p named = rw (feed, table) (mirrors u p named)
