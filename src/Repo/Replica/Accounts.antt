-- ===== src/Repo/Replica/Accounts.antt =====
-- Operations on passwords and profiles keep the feed true.
use sso_go.Prelude.{
  ℕ, suc, Text, Bool, some, [], ◌∷◌, ◌++◌, Result, ok, find_where, update_where, ◌≡◌, arith, inl,
  inr, Option-cases,
}
use sso_go.Db.{Db, Payload, profile_updated}
use sso_go.Action.Run.{run-keeps}
use sso_go.Action.Keeps.{Keeps}
use sso_go.Repo.Tables.{account_is, find_account}
use sso_go.Repo.Events.{profile_projects, queue_all, audit_event, user_payload}
use sso_go.Repo.Events.Frame.{Tx-cases}
use sso_go.Repo.Identity.{usable, use_up, with_password}
use sso_go.Repo.Passwords.{
  ProfileUpdate, reset_password, change_password, update_profile, active_account, with_profile,
  profile_payload, revoke_password_sessions, cut_credentials,
}
use sso_go.Repo.Management.{update_legacy_profile, with_name, legacy_payload}
use sso_go.Repo.Replica.{Mirrors}
use sso_go.Repo.Replica.Replaying.{Mirrors-same}
use sso_go.Repo.Replica.Granting.{last_statement}
use sso_go.Repo.Replica.Profiles.{
  profile_updated-Mirrors, queue_profiles-Mirrors, queue_sessions-Mirrors,
}

revoke_password_sessions-Mirrors :
    (ids : ℕ → Text) (id hash : Text) (now : ℕ) (d d' : Db)
    → Mirrors d
    → revoke_password_sessions ids id hash now d ≡ ok (tt, d')
    → Mirrors d'
revoke_password_sessions-Mirrors ids id hash now d d' mirrors h =
    let d1 =
      cut_credentials id now
        (record d { accounts = update_where (account_is id) (with_password hash) d.accounts }) in
    queue_sessions-Mirrors ids (profile_projects id [] d1) id (user_payload id) now d1 d'
      (unfold cut_credentials in mirrors) (unfold revoke_password_sessions in h)

-- the event of the project where the profile was changed
audited_profile-Mirrors :
    (event_id actor client project id : Text) (payload : Payload) (now : ℕ) (d d' : Db)
    → Mirrors d
    → audit_event event_id actor client project profile_updated id payload now d ≡ ok (tt, d')
    → Mirrors d'
audited_profile-Mirrors event_id actor client project id payload now d d' mirrors h =
    let d1 : Db = record d {
      audit =
          d.audit
          ++ record {
            actor_id = some actor;
            service_id = some client;
            project_id = some project;
            action = profile_updated;
            subject_id = id;
          }
            ∷ [];
    } in
    profile_updated-Mirrors event_id project id payload now d1 d' mirrors (unfold audit_event in h)

pub reset_password-Mirrors :
    (ids : ℕ → Text) (token_hash password_hash : Text)
    → Keeps Mirrors (reset_password ids token_hash password_hash)
unfolding reset_password
reset_password-Mirrors ids token_hash password_hash w mirrors =
    run-keeps Mirrors _ w
      (λ t d' h. elim (Option-cases (find_where (usable token_hash w.now) w.db.resets)) [
        | inl missing ↦ absurd (ground arith)
        | inr (t, found) ↦
            (let d1 : Db = record w.db {
              resets = update_where (usable token_hash w.now) (use_up w.now) w.db.resets;
            } in
              elim (Tx-cases (revoke_password_sessions ids t.account_id password_hash w.now d1)) [
                | inl (e, bad) ↦ absurd (ground arith)
                | inr (d2, good) ↦ Mirrors-same d2 d' (ground arith) (ground arith) (
                    revoke_password_sessions-Mirrors ids t.account_id password_hash w.now d1 d2
                      mirrors good)
              ])
      ])
      mirrors

pub change_password-Mirrors :
    (ids : ℕ → Text) (id password_hash : Text) (verify : Text → Result Bool)
    → Keeps Mirrors (change_password ids id password_hash verify)
unfolding change_password
change_password-Mirrors ids id password_hash verify w mirrors =
    run-keeps Mirrors _ w
      (λ t d' h. elim (Tx-cases (revoke_password_sessions ids id password_hash w.now w.db)) [
        | inl (e, bad) ↦ absurd (ground arith)
        | inr (d2, good) ↦
            Mirrors-same d2 d' (ground arith) (ground arith)
              (revoke_password_sessions-Mirrors ids id password_hash w.now w.db d2 mirrors good)
      ])
      mirrors

pub update_profile-Mirrors :
    (ids : ℕ → Text) (id : Text) (p : ProfileUpdate) → Keeps Mirrors (update_profile ids id p)
unfolding update_profile
update_profile-Mirrors ids id p w mirrors =
    run-keeps Mirrors _ w
      (λ t d' h. elim (Option-cases (find_where (active_account id) w.db.accounts)) [
        | inl missing ↦ absurd (ground arith)
        | inr (a, found) ↦
            (let d1 : Db = record w.db {
              accounts = update_where (active_account id) (with_profile p) w.db.accounts;
            } in
              let payload = profile_payload id a.email p in
              elim (Tx-cases
                (queue_all ids (profile_projects id [] d1) profile_updated id payload w.now d1)) [
                  | inl (e, bad) ↦ absurd (ground arith)
                  | inr (d2, good) ↦ Mirrors-same d2 d' (ground arith) (ground arith) (
                      queue_profiles-Mirrors ids (profile_projects id [] d1) id payload w.now d1 d2
                        mirrors good)
                ])
      ])
      mirrors

pub update_legacy_profile-Mirrors :
    (ids : ℕ → Text) (actor client project id name avatar : Text)
    → Keeps Mirrors (update_legacy_profile ids actor client project id name avatar)
unfolding update_legacy_profile
update_legacy_profile-Mirrors ids actor client project id name avatar w mirrors =
    run-keeps Mirrors _ w
      (λ t d' h. elim (Option-cases (find_account id w.db)) [
        | inl missing ↦ absurd (ground arith)
        | inr (a, found) ↦
            (let d1 : Db = record w.db {
              accounts = update_where (account_is id) (with_name name avatar) w.db.accounts;
            } in
              let payload = legacy_payload a id name avatar in
              elim (Tx-cases
                (audit_event (ids 0) actor client project profile_updated id payload w.now d1)) [
                  | inl (e, bad) ↦ absurd (ground arith)
                  | inr (d2, good) ↦
                      (let projects = profile_projects id project d2 in
                        queue_profiles-Mirrors (λ n. ids (suc n)) projects id payload w.now d2 d'
                          (audited_profile-Mirrors (ids 0) actor client project id payload w.now d1
                            d2 mirrors good)
                          (last_statement
                            (queue_all (λ n. ids (suc n)) projects profile_updated id payload)
                            payload t w.now d2 d' (ground arith)))
                ])
      ])
      mirrors
