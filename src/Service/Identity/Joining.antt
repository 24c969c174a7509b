-- ===== src/Service/Identity/Joining.antt =====
-- What Register stores, and that the new account cannot sign in before its address is confirmed.
use sso_go.Prelude.{
  codes, ℕ, ◌+◌, ◌<◌, any_where, any_where-find, find_where-append, find_where_mono,
  find_where-update_keep, update_where, eq_refl, Text, ◌==◌, ◌||◌, Bool, true, false, none, some,
  [], ◌∷◌, ◌++◌, ok, ◌≡◌, refl, arith, lower, inl, inr, Result-cases, find_where,
}
use mathlib.Core.Path.{subst, sym}
use sso_go.Db.{Db, Account}
use sso_go.Service.Words.{trim}
use sso_go.Action.{World, fails, drawn}
use sso_go.Action.Run.{run-eq-ok, run_ok}
use sso_go.Repo.Identity.{
  PendingAccount, create_pending_account, pending_row, taken, one_time, hash_is, usable, use_up,
  verify_row,
}
use sso_go.Repo.Identity
use sso_go.Repo.Tables.{find_account, account_is}
use sso_go.Service.Identity.{
  Outside, Registration, register, verify_email, good_registration, pending_account,
}

-- The account and the link that a registration leaves.
pub record Registered (p : PendingAccount) (w : World) (d' : Db) : Type 0 where
  pub was_free : taken p.id p.email p.login w.db ≡ false
  pub link_was_free : any_where (hash_is p.verification_hash) w.db.verifications ≡ false
  pub account : d'.accounts ≡ w.db.accounts ++ pending_row p w.now ∷ []
  pub link :
      d'.verifications ≡ w.db.verifications ++ one_time p.verification_hash p.id (w.now + 3600) ∷ []

create_pending_account-Registered :
    (p : PendingAccount) (w : World)
    → (create_pending_account p w).0 ≡ ok tt
    → Registered p w (create_pending_account p w).1.db
unfolding create_pending_account
create_pending_account-Registered p w h = record {
  was_free = ground (arith, run-eq-ok _ w tt h);
  link_was_free = ground (arith, run-eq-ok _ w tt h);
  account = ground (arith, run-eq-ok _ w tt h);
  link = ground (arith, run-eq-ok _ w tt h);
}

module _ (out : Outside) (id token : Text) (r : Registration) (w : World) where
  -- Register succeeds only for good input whose address, login and identifier are free; it stores one
  -- pending, unconfirmed account with the password's hash, and one confirmation link for an hour.
  pub register-Registered :
      (register out id token r w).0 ≡ ok tt
      → (password_hash : Text) × (out.hash_password r.password ≡ ok password_hash)
        × (good_registration out (pending_account out id token r []) r.password ≡ true)
        × Registered
            (pending_account out id token r password_hash)
            w
            (register out id token r w).1.db
  register-Registered h = elim (Result-cases (out.hash_password r.password)) [
    | inl (e, bad) ↦ absurd (unfold register in ground (arith, bad))
    | inr (password_hash, good) ↦
        (let p = pending_account out id token r password_hash in
          let done : (create_pending_account p w).0 ≡ ok tt =
            unfold register in ground (arith, good) in
          let same : (register out id token r w).1 ≡ (create_pending_account p w).1 =
            unfold register in ground (arith, good) in
          (
            password_hash,
            good,
            unfold register in ground arith,
            rw same (create_pending_account-Registered p w done),
          ))
  ]

-- the link of a registration is usable for an hour
find-link :
    (p : PendingAccount) (w : World) (d' : Db) (later : ℕ)
    → Registered p w d'
    → later < w.now + 3600
    → find_where (usable p.verification_hash later) d'.verifications
      ≡ some (one_time p.verification_hash p.id (w.now + 3600))
unfolding find_where
find-link p w d' later reg lt =
    let q = usable p.verification_hash later in
    let old = w.db.verifications in
    let t = one_time p.verification_hash p.id (w.now + 3600) in
    let free : find_where (hash_is p.verification_hash) old ≡ none =
      ground (arith, reg.link_was_free, any_where-find (hash_is p.verification_hash) old) in
    let none_before =
      find_where_mono (hash_is p.verification_hash) q old (λ s g. ground arith) free in
    rw reg.link (
      ground (
        arith,
        none_before,
        any_where-find q old,
        find_where-append q old (t ∷ []),
        eq_refl p.verification_hash,
      ))

-- the account of a registration once its address is confirmed
find-confirmed :
    (p : PendingAccount) (w : World) (d' : Db) (later : ℕ)
    → Registered p w d'
    → find_where (account_is p.id) (update_where (account_is p.id) (verify_row later) d'.accounts)
      ≡ some (verify_row later (pending_row p w.now))
unfolding find_where
find-confirmed p w d' later reg =
    let q = account_is p.id in
    let old = w.db.accounts in
    let is_taken : Account → Bool =
      λ a. a.id == p.id || a.email == p.email || lower a.login == lower p.login in
    let free : find_where is_taken old ≡ none =
      ground (arith, reg.was_free, any_where-find is_taken old) in
    let none_before = find_where_mono is_taken q old (λ a g. ground arith) free in
    rw reg.account (
      ground (
        arith,
        none_before,
        any_where-find q old,
        find_where-append q old (pending_row p w.now ∷ []),
        find_where-update_keep q q (verify_row later) (old ++ pending_row p w.now ∷ [])
            (λ _ _. refl),
        eq_refl p.id,
      ))

module _ (p : PendingAccount) (w w' : World) (reg : Registered p w w'.db)
    (lt : w'.now < w.now + 3600) (up : fails w'.faults ≡ false) where
  verify_link : Identity.verify_email p.verification_hash w' ≡ (
    ok tt,
    record (drawn w') {
      db = record w'.db {
        verifications =
            update_where (usable p.verification_hash w'.now) (use_up w'.now) w'.db.verifications;
        accounts = update_where (account_is p.id) (verify_row w'.now) w'.db.accounts;
      };
    },
  )
  unfolding Identity.verify_email
  verify_link = run_ok _ w' tt _ up (ground (arith, find-link p w w'.db w'.now reg lt))

-- A registration that returned has mailed the link: the mailer took the normalized address, the
-- subject and the issuer's address with the escaped token.
register-send :
    (out : Outside) (id token : Text) (r : Registration) (w : World)
    → (register out id token r w).0 ≡ ok tt
    → out.send
        (lower (trim r.email))
        (codes "Confirm your email")
        (out.issuer ++ codes "/verify?token=" ++ out.query_escape token)
      ≡ ok tt
unfolding register
register-send out id token r w h = ground arith

-- A registration that returns has sent, to the normalized address of the form, the link made of the
-- issuer, the path and the escaped token. Within an hour, while nothing else is written and the
-- database works, the token of that link confirms the account, which has the address it was sent to.
pub register-verify_email :
    (out : Outside) (id token : Text) (r : Registration) (w w' : World)
    → (token == []) ≡ false
    → (register out id token r w).0 ≡ ok tt
    → w'.db ≡ (register out id token r w).1.db
    → w'.now < w.now + 3600
    → fails w'.faults ≡ false
    → (out.send
          (lower (trim r.email))
          (codes "Confirm your email")
          (out.issuer ++ codes "/verify?token=" ++ out.query_escape token)
        ≡ ok tt)
      × ((verify_email out token w').0 ≡ ok tt)
      × ((a : Account) × (find_account id (verify_email out token w').1.db ≡ some a)
          × (a.verified ≡ some w'.now)
          × (a.email ≡ lower (trim r.email)))
register-verify_email out id token r w w' some_token h same lt up =
    let (password_hash, _, _, reg) = register-Registered out id token r w h in
    let p = pending_account out id token r password_hash in
    let reg' : Registered p w w'.db = subst (Registered p w) (sym same) reg in
    let done = verify_link p w w' reg' lt up in
    (
      register-send out id token r w h,
      unfold verify_email in ground (arith, done),
      (
        verify_row w'.now (pending_row p w.now),
        unfold verify_email in ground (arith, done, find-confirmed p w w'.db w'.now reg'),
        refl,
        refl,
      ),
    )
