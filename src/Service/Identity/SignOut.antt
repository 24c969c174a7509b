-- ===== src/Service/Identity/SignOut.antt =====
-- What Logout ends, and what it leaves.
use sso_go.Prelude.{
  ℕ, Text, none, false, ok, some, ◌≡◌, ◌≢◌, arith, eq_iff, Option-cases, inl, inr, ◌∙◌, find_where,
  delete_where, find_where-delete_none, find_where-delete_keep,
}
use sso_go.Db.{Db, Session}
use sso_go.Action.{World, fails, run}
use sso_go.Action.Run.{run-eq-ok}
use sso_go.Repo.Identity.{session_account, delete_session, session_valid, session_is}
use sso_go.Service.Identity.{Outside, session, logout}

delete_session_lem :
    (hash : Text) (w : World)
    → (delete_session hash w).0 ≡ ok tt
    → (delete_session hash w).1.db
      ≡ record w.db { sessions = delete_where (session_is hash) w.db.sessions }
unfolding delete_session
delete_session_lem hash w h = ground (arith, run-eq-ok _ w tt h)

pub session_account-found :
    (hash id : Text) (w : World)
    → (session_account hash w).0 ≡ ok id
    → (s : Session) × (find_where (session_valid hash w.now w.db) w.db.sessions ≡ some s)
      × (id ≡ s.account_id)
unfolding session_account
session_account-found hash id w h =
    elim (Option-cases (find_where (session_valid hash w.now w.db) w.db.sessions)) [
      | inl missing ↦ absurd (ground (arith, run-eq-ok _ w id h))
      | inr (s, found) ↦ (s, found, ground (arith, run-eq-ok _ w id h))
    ]

session_account-answers :
    (hash : Text) (w : World) (s : Session)
    → fails w.faults ≡ false
    → find_where (session_valid hash w.now w.db) w.db.sessions ≡ some s
    → (session_account hash w).0 ≡ ok s.account_id
unfolding session_account run
session_account-answers hash w s up found = ground arith

module _ (hash : Text) (now : ℕ) (d d' : Db)
    (after : d' ≡ record d { sessions = delete_where (session_is hash) d.sessions }) where
  ended : find_where (session_valid hash now d') d'.sessions ≡ none
  ended = rw after (
      find_where-delete_none (session_valid hash now d) (session_is hash) d.sessions
        (λ s valid. ground arith))

  left :
      (other : Text)
      → other ≢ hash
      → find_where (session_valid other now d') d'.sessions
        ≡ find_where (session_valid other now d) d.sessions
  left other differ = rw after (
      find_where-delete_keep (session_valid other now d) (session_is hash) d.sessions
        (λ s valid. ground (arith, eq_iff s.token_hash other, eq_iff s.token_hash hash)))

module _ (out : Outside) (token other id user : Text) (w w' : World) where
  -- After a Logout that succeeded, and while nothing else is written, its token resolves to no
  -- account; a token with another hash, that resolved to an account before, still resolves to it at
  -- the same time, if the database does not fail.
  pub logout-session :
      (logout out token w).0 ≡ ok tt
      → w'.db ≡ (logout out token w).1.db
      → (session out other w).0 ≡ ok user
      → out.hash other ≢ out.hash token
      → w'.now ≡ w.now
      → fails w'.faults ≡ false
      → ((session out token w').0 ≢ ok id) × ((session out other w').0 ≡ ok user)
  unfolding logout session
  logout-session done same before differ now up =
      let after = same ∙ delete_session_lem (out.hash token) w done in
      let (s, found, own) = session_account-found (out.hash other) user w before in
      (
        λ again. ground (
          arith,
          session_account-found (out.hash token) id w' again,
          ended (out.hash token) w'.now w.db w'.db after,
        ),
        rw own (
            session_account-answers (out.hash other) w' s up (
              left (out.hash token) w'.now w.db w'.db after (out.hash other) differ
              ∙ rw now found)),
      )
