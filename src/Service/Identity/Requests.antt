-- ===== src/Service/Identity/Requests.antt =====
-- What RequestAccess answers, by what the tables hold.
use sso_go.Prelude.{
  List, ℕ, refl, ◌&&◌, not, is_none, ◌∷◌, update_where, any_where-append, eq_refl, [], ◌||◌, Option,
  any_where-find, Text, ◌==◌, false, Bool, none, some, is_some, ◌≡◌, ◌≢◌, Result, ok, err, no_rows,
  not_found, unverified, other_violation, arith, any_where, if◌then◌else◌, inl, inr, Option-cases,
}
use sso_go.Db.{Db, Account, AccessRequest}
use sso_go.Action.{World, run}
use sso_go.Action.Run.{run-first_row, run-first_row-none}
use sso_go.Repo.Tables.{get_account, get_access, account_is, find_account, roles_of, has_project}
use sso_go.Repo.Identity
use sso_go.Repo.Identity.{request_of, is_pending, reopen, new_request, insert_request}
use sso_go.Service.Identity.{Outside, request_access}

get_account-not_found : (id : Text) (w : World) → (get_account id w).0 ≢ err not_found
unfolding get_account run
get_account-not_found id w h = ground arith

get_access-not_found : (id project : Text) (w : World) → (get_access id project w).0 ≢ err not_found
unfolding get_access run
get_access-not_found id project w h = ground arith

request_access-not_found_in :
    (request_id id project : Text) (w : World)
    → (Identity.request_access request_id id project w).0 ≢ err not_found
unfolding Identity.request_access run
request_access-not_found_in request_id id project w h = ground arith

-- whatever fails on the way
request_access-never :
    (out : Outside) (request_id id project : Text) (v : World)
    → (request_access out request_id id project v).0 ≢ err not_found
unfolding request_access
request_access-never out request_id id project w h = ground (
  arith,
  get_account-not_found id w,
  get_access-not_found id project (get_account id w).1,
  request_access-not_found_in request_id id project (get_access id project (get_account id w).1).1,
)

-- a request of the account for the project, or the project itself, is there
abbrev reached : Text → Text → Db → Bool
reached id project d = any_where (request_of id project) d.requests || has_project project d

abbrev asked : Bool → Result (Unit {0})
asked b = if b then ok tt else err other_violation

-- the answer to a request for access, by the tables
abbrev answer_with : Text → Text → Db → Option Account → Result (Unit {0})
answer_with id project d none = err no_rows
answer_with id project d (some a) =
    if is_some a.verified
    then asked (is_some (roles_of id project d) || reached id project d)
    else err unverified

abbrev pub answer : Text → Text → Db → Result (Unit {0})
answer id project d = answer_with id project d (find_account id d)

-- a pending request of the account for the project
abbrev pub pending_of : Text → Text → AccessRequest → Bool
pending_of id project q = request_of id project q && is_pending q.status

abbrev is_verified : Option Account → Bool
is_verified none = false
is_verified (some a) = is_some a.verified

-- whether such a request is there afterwards: one that was made or opened again, or was there before
abbrev pending_with : Text → Text → Db → Option Account → Bool
pending_with id project d a =
    is_verified a && is_none (roles_of id project d) && reached id project d
    || any_where (pending_of id project) d.requests

abbrev pub pending_after : Text → Text → Db → Bool
pending_after id project d = pending_with id project d (find_account id d)

-- the requests that were decided are opened again
any_where-reopen :
    (id project : Text) (now : ℕ) (rows : List AccessRequest)
    → any_where
        (pending_of id project)
        (update_where (λ q. request_of id project q && not (is_pending q.status)) (reopen now) rows)
      ≡ any_where (request_of id project) rows
unfolding any_where update_where
any_where-reopen id project now [] = refl
any_where-reopen id project now (q ∷ rows) = ground (arith, any_where-reopen id project now rows)

any_where-pending :
    (id project : Text) (rows : List AccessRequest)
    → any_where (request_of id project) rows ≡ false
    → any_where (pending_of id project) rows ≡ false
unfolding any_where
any_where-pending id project [] h = refl
any_where-pending id project (q ∷ rows) h = ground (arith, any_where-pending id project rows)

-- a database that works from now on
abbrev pub working : Db → ℕ → World
working d now = record { db = d; faults = []; now = now }

module _ (request_id id project : Text) (d : Db) (now : ℕ)
    (fresh : any_where (λ (q : AccessRequest). q.id == request_id) d.requests ≡ false) where
  -- the answer, and whether a pending request is there
  abbrev Answered : Result (Unit {0}) → Bool → Result (Unit {0}) × World → Type 0
  Answered res pending done =
      (done.0 ≡ res) × (any_where (pending_of id project) done.1.db.requests ≡ pending)

  request_access_in :
      (a : Account)
      → find_account id d ≡ some a
      → Answered
          (asked (reached id project d))
          (reached id project d)
          (Identity.request_access request_id id project (working d now))
  unfolding Identity.request_access insert_request run any_where
  request_access_in a known = (
    ground (arith, any_where-find (account_is id) d.accounts),
    ground (
      arith,
      any_where-find (account_is id) d.accounts,
      any_where-reopen id project now d.requests,
      any_where-pending id project d.requests,
      any_where-append (pending_of id project) d.requests
          (new_request request_id id project now ∷ []),
      eq_refl id,
      eq_refl project,
    ),
  )

  request_access-known :
      (out : Outside) (a : Account)
      → find_account id d ≡ some a
      → Answered
          (answer_with id project d (some a))
          (pending_with id project d (some a))
          (request_access out request_id id project (working d now))
  request_access-known out a known =
      let first : get_account id (working d now) ≡ (ok a, working d now) =
        unfold get_account in
        run-first_row (working d now) refl (λ _ d. find_account id d) a known in
      elim (Option-cases (roles_of id project d)) [
        | inl no_roles ↦
            (let second : get_access id project (working d now) ≡ (err no_rows, working d now) =
                unfold get_access in
                run-first_row-none (working d now) refl (λ _ d. roles_of id project d) no_roles in
              let (res, there) = request_access_in a known in
              let before = any_where-pending id project d.requests in
              (
                unfold request_access in ground (arith, first, second, res),
                unfold request_access in ground (arith, first, second, there, before),
              ))
        | inr (roles, found) ↦
            (let second : get_access id project (working d now) ≡ (ok roles, working d now) =
                unfold get_access in
                run-first_row (working d now) refl (λ _ d. roles_of id project d) roles found in
              (
                unfold request_access in ground (arith, first, second),
                unfold request_access in ground (arith, first, second),
              ))
      ]

  request_access-answer :
      (out : Outside)
      → Answered
          (answer id project d)
          (pending_after id project d)
          (request_access out request_id id project (working d now))
  request_access-answer out = elim (Option-cases (find_account id d)) [
    | inl missing ↦
        (let first : get_account id (working d now) ≡ (err no_rows, working d now) =
            unfold get_account in
            run-first_row-none (working d now) refl (λ _ d. find_account id d) missing in
          (
            unfold request_access in rw (first, missing) refl,
            unfold request_access in rw (first, missing) refl,
          ))
    | inr (a, known) ↦ rw known (request_access-known out a known)
  ]

-- While the database works and the request's identifier is new, RequestAccess answers by the tables:
-- without an account the error of a missing row; for an unconfirmed address the error for that;
-- otherwise no error where the account has roles or a request for the project, or the project
-- exists, and else the repository's error for a failed write. Afterwards a pending request of the
-- account for the project is there exactly if one was there before, or the account is confirmed and
-- without roles and it had a request or the project exists. Whatever fails, in any world, the answer
-- is never ErrNotFound.
pub request_access-not_found :
    (out : Outside) (request_id id project : Text) (d : Db) (now : ℕ) (v : World)
    → any_where (λ (q : AccessRequest). q.id == request_id) d.requests ≡ false
    → ((request_access out request_id id project (working d now)).0 ≡ answer id project d)
      × (any_where
            (pending_of id project)
            (request_access out request_id id project (working d now)).1.db.requests
          ≡ pending_after id project d)
      × ((request_access out request_id id project v).0 ≢ err not_found)
request_access-not_found out request_id id project d now v fresh =
    let (res, there) = request_access-answer request_id id project d now fresh out in
    (res, there, request_access-never out request_id id project v)
