-- ===== src/Service/Identity/SignIn.antt =====
-- When Login lets someone in, and what it stores.
use sso_go.Prelude.{
  ℕ, ◌+◌, Text, true, false, some, is_some, List, [], ◌∷◌, ◌++◌, Result, ok, ◌≡◌, ◌∙◌, arith, inl,
  inr, Option-cases, Result-cases, find_where, lower,
}
use sso_go.Db.{Account, Session, Status}
use sso_go.Action.{World}
use sso_go.Action.Run.{run-eq-ok, run_lem}
use sso_go.Repo.Tables.{is_disabled}
use sso_go.Repo.Identity.{
  LoginAccount, identified, with_login, create_session, upgrade_password_hash,
}
use sso_go.Service.Words.{trim}
use sso_go.Service.Identity.{Outside, login, admit}

abbrev pub new_session : Text → Text → ℕ → Session
new_session hash account now = record {
  token_hash = hash;
  account_id = account;
  expires_at = now + 604800;
}

-- The account `a` may sign in, and `sessions` has one session more than before.
pub record SignedIn (out : Outside) (identifier password token : Text) (w : World)
    (sessions : List Session) (a : Account) : Type 0 where
  pub found : find_where (identified (lower (trim identifier))) w.db.accounts ≡ some a
  pub password_good : out.verify_password password a.password_hash ≡ ok true
  pub verified : is_some a.verified ≡ true
  pub enabled : is_disabled a.status ≡ false
  pub stored : sessions ≡ w.db.sessions ++ new_session (out.hash token) a.id w.now ∷ []

abbrev login_of : Account → LoginAccount
login_of a = record {
  id = a.id;
  password_hash = a.password_hash;
  status = a.status;
  verified = a.verified;
}

-- replacing a password hash opens and closes no session
sessions-upgrade :
    (id previous upgraded : Text) (w : World)
    → (upgrade_password_hash id previous upgraded w).1.db.sessions ≡ w.db.sessions
unfolding upgrade_password_hash
sessions-upgrade id previous upgraded w = rw run_lem (ground arith)

module _ (out : Outside) (identifier password token : Text) (w : World) where
  abbrev opened : Result LoginAccount × World
  opened = with_login (lower (trim identifier)) (admit out password token) w

  with_login-SignedIn :
      (l : LoginAccount)
      → opened.0 ≡ ok l
      → (a : Account) × (l ≡ login_of a)
        × SignedIn out identifier password token w opened.1.db.sessions a
  unfolding with_login admit create_session
  with_login-SignedIn l h =
      elim (Option-cases (find_where (identified (lower (trim identifier))) w.db.accounts)) [
        | inl missing ↦ absurd (ground (arith, run-eq-ok _ w l h))
        | inr (a, found) ↦ (
          a,
          ground (arith, run-eq-ok _ w l h),
          record {
            found = found;
            password_good = ground (arith, run-eq-ok _ w l h);
            verified = ground (arith, run-eq-ok _ w l h);
            enabled = ground (arith, run-eq-ok _ w l h);
            stored = ground (arith, run-eq-ok _ w l h);
          },
        )
      ]

  kept :
      (l : LoginAccount)
      → opened.0 ≡ ok l
      → (login out identifier password token w).1.db.sessions ≡ opened.1.db.sessions
  unfolding login
  kept l done = elim (Result-cases (out.hash_password password)) [
    | inl (e, bad) ↦ ground arith
    | inr (upgraded, good) ↦ ground (arith, sessions-upgrade l.id l.password_hash upgraded opened.1)
  ]

  -- Login lets someone in only with the right password of a verified account that is not disabled,
  -- returns that account's status, and opens one session for it, for seven days.
  pub login-SignedIn :
      (status : Status)
      → (login out identifier password token w).0 ≡ ok status
      → (a : Account) × (status ≡ a.status)
        × SignedIn out identifier password token w
            (login out identifier password token w).1.db.sessions
            a
  login-SignedIn status h = elim (Result-cases opened.0) [
    | inl (e, refused) ↦ absurd (unfold login in ground (arith, refused))
    | inr (l, accepted_by) ↦
        (let (a, same, signed) = with_login-SignedIn l accepted_by in
          (
            a,
            unfold login in ground (arith, accepted_by, same),
            record {
              found = signed.found;
              password_good = signed.password_good;
              verified = signed.verified;
              enabled = signed.enabled;
              stored = kept l accepted_by ∙ signed.stored;
            },
          ))
  ]
