-- ===== src/Repo/Lockout.antt =====
-- An account whose credentials were cut: no session, code, reset link or unrevoked refresh token.
pub mod Cuts
pub mod Refusals
use sso_go.Prelude.{
  ℕ, Text, ◌==◌, Bool, true, false, ◌&&◌, not, none, some, ◌≡◌, ◌≢◌, ok, arith, List, find_where,
  find_where-some, find_where-none, is_none, eq_iff, inl, inr, Option-cases,
}
use sso_go.Db.{Db, Session, RefreshRow}
use sso_go.Action.{World, run}
use sso_go.Action.Run.{run-eq-ok}
use sso_go.Repo.Oauth.{
  RefreshGrant, AuthorizationCode, rotate_refresh, consume_authorization_code, usable_code,
}
use sso_go.Repo.Oauth.Rotation.{with_hash, rotate_refresh-Renewed}
use sso_go.Repo.Oauth.Codes.{consume_code-ok}
use sso_go.Repo.Identity.{session_account, session_valid}
use sso_go.Repo.Passwords.{session_of, code_of, one_time_of, unrevoked_of}

pub record IsCut (id : Text) (d : Db) : Type 0 where
  pub sessions : find_where (session_of id) d.sessions ≡ none
  pub refresh : find_where (unrevoked_of id) d.refresh ≡ none
  pub codes : find_where (code_of id) d.codes ≡ none
  pub resets : find_where (one_time_of id) d.resets ≡ none

module _ (id : Text) (w : World) (cut : IsCut id w.db) where
  pub IsCut-session_account : (hash : Text) → (session_account hash w).0 ≢ ok id
  unfolding session_account
  IsCut-session_account hash h =
      elim (Option-cases (find_where (session_valid hash w.now w.db) w.db.sessions)) [
        | inl missing ↦ ground (arith, run-eq-ok _ w id h)
        | inr (s, found) ↦ ground (
          arith,
          run-eq-ok _ w id h,
          eq_iff s.account_id id,
          find_where-none (session_of id) (session_valid hash w.now w.db) w.db.sessions s
              cut.sessions found,
        )
      ]

  pub IsCut-rotate_refresh :
      (hash next_hash client project : Text) (app_now : ℕ) (scopes : List Text)
      → (rotate_refresh hash next_hash client project app_now w).0
        ≢ ok (record { account = id; scopes = scopes })
  IsCut-rotate_refresh hash next_hash client project app_now scopes h =
      let (r, found, _, _, made) =
        rotate_refresh-Renewed hash next_hash client project app_now w _ h in
      ground (
        arith,
        made.result,
        made.unrevoked,
        eq_iff r.account_id id,
        find_where-none (unrevoked_of id) (with_hash hash) w.db.refresh r cut.refresh found,
      )

  pub IsCut-consume :
      (hash client redirect : Text) (valid : Text → Bool) (code : AuthorizationCode)
      → code.account ≡ id
      → (consume_authorization_code hash client redirect valid w).0 ≢ ok code
  IsCut-consume hash client redirect valid code own h =
      let (row, found, redeems, _) = consume_code-ok hash client redirect valid w code h in
      ground (
        arith,
        redeems.code_eq,
        eq_iff row.account_id id,
        find_where-none (code_of id) (usable_code hash w.now) w.db.codes row cut.codes found,
      )
