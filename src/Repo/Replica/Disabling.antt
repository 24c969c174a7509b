-- ===== src/Repo/Replica/Disabling.antt =====
-- DisableAccount tells every project of the account that its access is gone.
use sso_go.Prelude.{
  ℕ, suc, Text, ◌==◌, eq_iff, mem, text_ltb, Bool, true, false, ◌&&◌, not, none, List, [], ◌∷◌,
  ◌++◌, map, ok, find_where, select_where, count_where, delete_where, order_by,
  count_where-order_by, find_where-delete_none, find_where-delete_keep, if◌then◌else◌, ◌≡◌, ◌≢◌,
  refl, sym, ap, ◌∙◌, arith, inl, inr, Bool-cases, Result-cases,
}
use sso_go.Db.{Db, Access, access_revoked, Payload}
use sso_go.Tx.{◌>>=◌}
use sso_go.Action.Keeps.{Keeps}
use sso_go.Repo.Tables.{roles_of, find_access, access_is}
use sso_go.Repo.Events.{profile_projects, queue_all, queue_event, user_payload, sync_row}
use sso_go.Repo.Events.Frame.{Tx-cases, queue_all-EventsOnly}
use sso_go.Repo.Passwords.{cut_credentials}
use sso_go.Repo.Admin.{disable_account, access_of}
use sso_go.Repo.Lockout.Cuts.{disable_inv, disabled_db}
use sso_go.Repo.Tokens.{db-disable_account}
use sso_go.Repo.Replica.{replay, step, Mirrors}
use sso_go.Repo.Replica.Replaying.{replay-append}

module _ (account : Text) (payload : Payload) (now : ℕ) (u p : Text) where
  queue_revoked-replay :
      (ids : ℕ → Text) (projects : List Text) (d d' : Db)
      → queue_all ids projects access_revoked account payload now d ≡ ok (tt, d')
      → replay u p d'.sync none
        ≡ (if account == u && mem p projects then none else replay u p d.sync none)
  unfolding queue_all mem
  queue_revoked-replay ids [] d d' h = ground arith
  queue_revoked-replay ids (project ∷ rest) d d' h =
      elim (Tx-cases (queue_event (ids 0) project access_revoked account payload now d)) [
        | inl (e, bad) ↦ absurd (cc (bad, h))
        | inr (d1, good) ↦
            (let s = sync_row (suc d.last_event) project access_revoked account payload in
              let feed : d1.sync ≡ d.sync ++ s ∷ [] = unfold queue_event in ground arith in
              let after : replay u p d1.sync none ≡ step u p s (replay u p d.sync none) =
                rw feed (replay-append u p d.sync s none) in
              let later =
                queue_revoked-replay (λ n. ids (suc n)) rest d1 d' (rw (good, ◌>>=◌) at h) in
              ground (arith, after, later, eq_iff p project, eq_iff project p))
      ]

mem-count :
    (p : Text) (rows : List Access)
    → mem p (map (λ (a : Access). a.project_id) rows) ≡ false
    → count_where (λ (a : Access). a.project_id == p) rows ≡ 0
unfolding mem count_where
mem-count p [] h = refl
mem-count p (a ∷ rows) h =
    ground (arith, eq_iff p a.project_id, eq_iff a.project_id p, mem-count p rows)

abbrev elsewhere : Text → Access → Bool
elsewhere id a = a.account_id == id && not (a.project_id == [])

select-find :
    (id p : Text) (rows : List Access)
    → p ≢ []
    → count_where (λ (a : Access). a.project_id == p) (select_where (elsewhere id) rows) ≡ 0
    → find_where (access_is id p) rows ≡ none
unfolding count_where select_where find_where
select-find id p [] named h = refl
select-find id p (a ∷ rows) named h =
    ground (arith, eq_iff a.project_id p, eq_iff a.project_id [], select-find id p rows named)

-- A project that is not among those that are told has no access of the account.
profile_projects-none :
    (id p : Text) (d : Db)
    → p ≢ []
    → mem p (profile_projects id [] d) ≡ false
    → find_access id p d ≡ none
unfolding profile_projects
profile_projects-none id p d named h =
    let rows = select_where (elsewhere id) d.access in
    let before = λ (a b : Access). text_ltb a.project_id b.project_id in
    select-find id p d.access named (
      sym (count_where-order_by (λ (a : Access). a.project_id == p) before rows)
      ∙ mem-count p (order_by before rows) h)

module _ (id u p : Text) (named : p ≢ []) (d d1 d2 d' : Db) (mirrors : Mirrors d)
    (feed1 : d1.sync ≡ d.sync) (table1 : d1.access ≡ d.access)
    (told : replay u p d2.sync none
      ≡ (if id == u && mem p (profile_projects id [] d1) then none else replay u p d1.sync none))
    (table2 : d2.access ≡ d1.access) (feed' : d'.sync ≡ d2.sync)
    (table' : d'.access ≡ delete_where (access_of id) d2.access) where
  abbrev rows' : List Access
  rows' = delete_where (access_of id) d.access

  table : d'.access ≡ rows'
  table = rw (table', table2, table1) refl

  forgotten : (id == u) ≡ true → replay u p d2.sync none ≡ none
  forgotten own =
      let same : id ≡ u = (eq_iff id u).0 own in
      elim (Bool-cases (mem p (profile_projects id [] d1))) [
        | inl listed ↦ rw (told, own, listed) refl
        | inr missing ↦
            (let gone : find_access id p d ≡ none =
                rw (← table1) (profile_projects-none id p d1 named missing) in
              rw (told, own, missing, feed1, mirrors u p named, ← same, gone) refl)
      ]

  gone : (id == u) ≡ true → find_where (access_is u p) rows' ≡ none
  gone own =
      find_where-delete_none (access_is u p) (access_of id) d.access
        (λ a h. ground (arith, eq_iff id u, eq_iff a.account_id u, eq_iff a.account_id id))

  kept : (id == u) ≡ false → find_where (access_is u p) rows' ≡ find_where (access_is u p) d.access
  kept other =
      find_where-delete_keep (access_is u p) (access_of id) d.access
        (λ a h. ground (arith, eq_iff id u, eq_iff a.account_id u, eq_iff a.account_id id))

  disabled-Mirrors : replay u p d'.sync none ≡ roles_of u p d'
  disabled-Mirrors = elim (Bool-cases (id == u)) [
    | inl own ↦ rw (feed', table, gone own) (forgotten own)
    | inr other ↦ rw (feed', table, kept other, told, other, feed1) (mirrors u p named)
  ]

pub disable_account-Mirrors :
    (ids : ℕ → Text) (actor id : Text) → Keeps Mirrors (disable_account ids actor id)
unfolding cut_credentials
disable_account-Mirrors ids actor id w mirrors =
    elim (Result-cases (disable_account ids actor id w).0) [
      | inl (e, bad) ↦ rw (db-disable_account ids actor id w e bad) mirrors
      | inr (t, good) ↦
          (let d1 = disabled_db id w.now w.db in
            let projects = profile_projects id [] d1 in
            let payload = user_payload id in
            let (d2, queued, _, e) = disable_inv ids actor id w good in
            let same =
              queue_all-EventsOnly ids projects access_revoked id payload w.now d1 d2 queued in
            λ u p named.
              disabled-Mirrors id u p named w.db d1 d2 (disable_account ids actor id w).1.db mirrors
                refl refl (queue_revoked-replay id payload w.now u p ids projects d1 d2 queued)
                same.access (ap (λ (d : Db). d.sync) e) (ap (λ (d : Db). d.access) e))
    ]
