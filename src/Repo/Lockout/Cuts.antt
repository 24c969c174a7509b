-- ===== src/Repo/Lockout/Cuts.antt =====
-- DisableAccount, ResetPassword and ChangePassword cut the credentials of their account.
use sso_go.Prelude.{
  ℕ, [], Text, Bool, true, none, some, ◌≡◌, ok, Result, arith, find_where, find_where-delete_none,
  find_where-update_none, any_where, inl, inr, Option-cases, update_where, delete_where,
}
use sso_go.Db.{Db, Account, OneTime, access_revoked, sessions_revoked, disabled}
use sso_go.Action.{World}
use sso_go.Action.Run.{run-eq-ok}
use sso_go.Repo.Events.{queue_all, profile_projects, user_payload}
use sso_go.Repo.Events.Frame.{EventsOnly, queue_all-EventsOnly, Tx-cases}
use sso_go.Repo.Tables.{account_is}
use sso_go.Repo.Oauth.{revoke_at}
use sso_go.Repo.Identity.{with_password, usable, use_up}
use sso_go.Repo.Passwords.{
  cut_credentials, session_of, code_of, one_time_of, unrevoked_of, revoke_password_sessions,
  reset_password, change_password, enabled_account,
}
use sso_go.Repo.Admin.{disable_account, disableable, with_status, access_of}
use sso_go.Repo.Lockout.{IsCut}

cut_credentials-IsCut : (id : Text) (now : ℕ) (d : Db) → IsCut id (cut_credentials id now d)
unfolding cut_credentials
cut_credentials-IsCut id now d = record {
  sessions = find_where-delete_none (session_of id) (session_of id) d.sessions (λ _ h. h);
  refresh =
      find_where-update_none (unrevoked_of id) (unrevoked_of id) (revoke_at now) d.refresh
        (λ r h. ground arith) (λ _ h. h);
  codes = find_where-delete_none (code_of id) (code_of id) d.codes (λ _ h. h);
  resets = find_where-delete_none (one_time_of id) (one_time_of id) d.resets (λ _ h. h);
}

-- queueing events afterwards does not touch them
EventsOnly-IsCut : (id : Text) (d d' : Db) → EventsOnly d d' → IsCut id d → IsCut id d'
EventsOnly-IsCut id d d' same cut = record {
  sessions = rw same.sessions cut.sessions;
  refresh = rw same.refresh cut.refresh;
  codes = rw same.codes cut.codes;
  resets = rw same.resets cut.resets;
}

abbrev pub disabled_db : Text → ℕ → Db → Db
disabled_db id now d =
    cut_credentials id now
      (record d { accounts = update_where (disableable id) (with_status disabled) d.accounts })

module _ (ids : ℕ → Text) (actor id : Text) (w : World) where
  pub disable_inv :
      (disable_account ids actor id w).0 ≡ ok tt
      → (d : Db) × (queue_all ids
            (profile_projects id [] (disabled_db id w.now w.db))
            access_revoked
            id
            (user_payload id)
            w.now
            (disabled_db id w.now w.db)
          ≡ ok (tt, d))
        × (any_where (disableable id) w.db.accounts ≡ true)
        × ((disable_account ids actor id w).1.db ≡ record d {
          access = delete_where (access_of id) d.access;
          audit = (disable_account ids actor id w).1.db.audit;
        })
  unfolding disable_account
  disable_inv h =
      elim (Tx-cases (
        queue_all ids (profile_projects id [] (disabled_db id w.now w.db)) access_revoked id
          (user_payload id) w.now (disabled_db id w.now w.db))) [
            | inl (e, failed) ↦ absurd (ground (arith, run-eq-ok _ w tt h))
            | inr (d, done) ↦
                (d, done, ground (arith, run-eq-ok _ w tt h), ground (arith, run-eq-ok _ w tt h))
          ]

  pub disable_account-IsCut :
      (disable_account ids actor id w).0 ≡ ok tt → IsCut id (disable_account ids actor id w).1.db
  disable_account-IsCut h =
      let (d, queued, _, e) = disable_inv h in
      let before = cut_credentials-IsCut id w.now (record w.db {
        accounts = update_where (disableable id) (with_status disabled) w.db.accounts;
      }) in
      let after =
        EventsOnly-IsCut id (disabled_db id w.now w.db) d
          (queue_all-EventsOnly ids (profile_projects id [] (disabled_db id w.now w.db))
            access_revoked id (user_payload id) w.now (disabled_db id w.now w.db) d queued)
          before in
      rw e (record {
        sessions = after.sessions;
        refresh = after.refresh;
        codes = after.codes;
        resets = after.resets;
      })

  pub disable_account-refresh :
      (disable_account ids actor id w).0 ≡ ok tt
      → (disable_account ids actor id w).1.db.refresh
        ≡ update_where (unrevoked_of id) (revoke_at w.now) w.db.refresh
  unfolding cut_credentials
  disable_account-refresh h =
      let (d, queued, _, e) = disable_inv h in
      let same =
        queue_all-EventsOnly ids (profile_projects id [] (disabled_db id w.now w.db)) access_revoked
          id (user_payload id) w.now (disabled_db id w.now w.db) d queued in
      rw e same.refresh

  pub disable_account-access :
      (disable_account ids actor id w).0 ≡ ok tt
      → find_where (access_of id) (disable_account ids actor id w).1.db.access ≡ none
  disable_account-access h =
      let (d, _, _, e) = disable_inv h in
      rw e (find_where-delete_none (access_of id) (access_of id) d.access (λ _ k. k))

abbrev reset_db : Text → Text → ℕ → Db → Db
reset_db id hash now d =
    cut_credentials id now
      (record d { accounts = update_where (account_is id) (with_password hash) d.accounts })

-- What a password change of the account `id` leaves: its credentials are cut, it has the new hash,
-- and its reset links are gone.
pub record IsRenewed (id hash : Text) (d d' : Db) : Type 0 where
  pub cut : IsCut id d'
  pub accounts : d'.accounts ≡ update_where (account_is id) (with_password hash) d.accounts
  pub resets : d'.resets ≡ delete_where (one_time_of id) d.resets
  pub revoked_at : ℕ
  pub refresh : d'.refresh ≡ update_where (unrevoked_of id) (revoke_at revoked_at) d.refresh

module _ (ids : ℕ → Text) (id hash : Text) (now : ℕ) (d d' : Db) where
  revoke_password_sessions-IsRenewed :
      revoke_password_sessions ids id hash now d ≡ ok (tt, d') → IsRenewed id hash d d'
  unfolding revoke_password_sessions
  revoke_password_sessions-IsRenewed h =
      let mid = reset_db id hash now d in
      let same =
        queue_all-EventsOnly ids (profile_projects id [] mid) sessions_revoked id (user_payload id)
          now mid d' h in
      let new = record d {
        accounts = update_where (account_is id) (with_password hash) d.accounts;
      } in
      record {
        cut = EventsOnly-IsCut id mid d' same (cut_credentials-IsCut id now new);
        accounts = unfold cut_credentials in same.accounts;
        resets = unfold cut_credentials in same.resets;
        revoked_at = now;
        refresh = unfold cut_credentials in same.refresh;
      }

-- the tables after the link `hash` is marked used
abbrev pub link_used : Text → ℕ → Db → Db
link_used hash now d = record d { resets = update_where (usable hash now) (use_up now) d.resets }

-- A successful reset found a usable link, and renewed the account of that link.
pub reset_password-IsRenewed :
    (ids : ℕ → Text) (token_hash password_hash : Text) (w : World)
    → (reset_password ids token_hash password_hash w).0 ≡ ok tt
    → (t : OneTime) × (find_where (usable token_hash w.now) w.db.resets ≡ some t)
      × IsRenewed t.account_id password_hash
          (link_used token_hash w.now w.db)
          (reset_password ids token_hash password_hash w).1.db
unfolding reset_password
reset_password-IsRenewed ids token_hash password_hash w h =
    elim (Option-cases (find_where (usable token_hash w.now) w.db.resets)) [
      | inl missing ↦ absurd (ground (arith, run-eq-ok _ w tt h))
      | inr (t, found) ↦
          (let m =
              revoke_password_sessions ids t.account_id password_hash w.now
                (link_used token_hash w.now w.db) in
            elim (Tx-cases m) [
              | inl (e, failed) ↦ absurd (ground (arith, run-eq-ok _ w tt h))
              | inr (d, done) ↦
                  (let new =
                      revoke_password_sessions-IsRenewed ids t.account_id password_hash w.now
                        (link_used token_hash w.now w.db) d done in
                    (t, found, ground (arith, run-eq-ok _ w tt h)))
            ])
    ]

-- A successful change was asked by an enabled account whose stored hash `verify` accepts, and
-- renewed it.
pub change_password-IsRenewed :
    (ids : ℕ → Text) (id password_hash : Text) (verify : Text → Result Bool) (w : World)
    → (change_password ids id password_hash verify w).0 ≡ ok tt
    → (a : Account) × (find_where (enabled_account id) w.db.accounts ≡ some a)
      × (verify a.password_hash ≡ ok true)
      × IsRenewed id password_hash w.db (change_password ids id password_hash verify w).1.db
unfolding change_password
change_password-IsRenewed ids id password_hash verify w h =
    elim (Option-cases (find_where (enabled_account id) w.db.accounts)) [
      | inl missing ↦ absurd (ground (arith, run-eq-ok _ w tt h))
      | inr (a, found) ↦
          (let m = revoke_password_sessions ids id password_hash w.now w.db in
            elim (Tx-cases m) [
              | inl (e, failed) ↦ absurd (ground (arith, run-eq-ok _ w tt h))
              | inr (d, done) ↦
                  (let new =
                      revoke_password_sessions-IsRenewed ids id password_hash w.now w.db d done in
                    (
                      a,
                      found,
                      ground (arith, run-eq-ok _ w tt h),
                      ground (arith, run-eq-ok _ w tt h),
                    ))
            ])
    ]
