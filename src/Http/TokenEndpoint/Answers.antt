-- ===== src/Http/TokenEndpoint/Answers.antt =====
-- To whom the token endpoint issues tokens.
use sso_go.Prelude.{
  Text, codes, ◌==◌, true, some, Result, ok, err, ◌≡◌, ◌≢◌, sym, arith, refresh_reuse,
  invalid_grant, access_revoked, invalid_client, Error, inl, inr, Result-cases, Bool-cases, eq_iff,
  ◌⊎◌,
}
use sso_go.Db.{Client}
use sso_go.Action.{World}
use sso_go.Repo.Tables.{find_client, get_client}
use sso_go.Repo.Tables.Reads.{get_client-ok}
use sso_go.Service.Access.{allow}
use sso_go.Service.Oauth.{Tokens, authenticate_client, exchange, refresh}
use sso_go.Http.TokenEndpoint.{
  respond, client_problem, TokenRequest, issued, credentials, within_limits, grant_tokens,
  token_endpoint,
}
use sso_go.Token.{Jose}

-- a client that showed the secret of its row
authenticate_client-ok :
    (hash : Text → Text) (id secret : Text) (w : World) (c : Client)
    → (authenticate_client hash id secret w).0 ≡ ok c
    → (find_client id w.db ≡ some c) × (c.secret_hash ≡ hash secret)
authenticate_client-ok hash id secret w c h = elim (Result-cases (get_client id w).0) [
  | inl (e, bad) ↦ absurd (unfold authenticate_client in ground (arith, bad))
  | inr (row, good) ↦
      (let same : row ≡ c = unfold authenticate_client in ground (arith, good) in
        let right : row.secret_hash ≡ hash secret =
          unfold authenticate_client in
          ground (arith, good, eq_iff row.secret_hash (hash secret)) in
        (rw (sym same) (get_client-ok id w row good), rw (sym same) right))
]

respond-ok : (r : Result Tokens) (tokens : Tokens) → respond r ≡ issued tokens → r ≡ ok tokens
respond-ok (ok t) tokens h = ground arith
respond-ok (err refresh_reuse) tokens h = absurd (ground arith)
respond-ok (err invalid_grant) tokens h = absurd (ground arith)
respond-ok (err access_revoked) tokens h = absurd (ground arith)
respond-ok (err _) tokens h = absurd (ground arith)

client_problem-issued : (e : Error) (tokens : Tokens) → client_problem e ≢ issued tokens
client_problem-issued invalid_client tokens h = ground arith
client_problem-issued _ tokens h = ground arith

module _ (hash challenge_of : Text → Text) (jose : Jose) (issuer token family : Text)
    (q : TokenRequest) (w : World) (tokens : Tokens) where
  abbrev limited : World
  limited = (within_limits hash challenge_of jose issuer q w).1

  abbrev authenticated : World
  authenticated = (authenticate_client hash (credentials q).0 (credentials q).1 limited).1

  -- both counters grant the attempt, the one of the client after the one of the address
  abbrev pub IsWithin : Type 0
  IsWithin =
      ((allow hash (codes "token-ip") q.client_ip 300 900 w).0 ≡ ok true)
      × ((allow hash (codes "token-client") (credentials q).0 300 900
            (allow hash (codes "token-ip") q.client_ip 300 900 w).1).0
          ≡ ok true)

  within_limits-IsWithin : (within_limits hash challenge_of jose issuer q w).0 ≡ true → IsWithin
  unfolding within_limits
  within_limits-IsWithin h =
      elim (Result-cases (allow hash (codes "token-ip") q.client_ip 300 900 w).0) [
        | inl (e, bad) ↦ absurd (ground (arith, bad))
        | inr (a, good) ↦
            elim (Result-cases
              (allow hash (codes "token-client") (credentials q).0 300 900
                (allow hash (codes "token-ip") q.client_ip 300 900 w).1).0) [
                  | inl (e, bad) ↦ absurd (ground (arith, good, bad))
                  | inr (b, also) ↦ (ground (arith, good, also), ground (arith, good, also))
                ]
      ]

  by_grant :
      (c : Client) (v : World)
      → (grant_tokens hash challenge_of jose issuer token family q c v).0 ≡ issued tokens
      → ((q.grant_type ≡ codes "authorization_code")
          × ((exchange hash challenge_of jose issuer token family c q.code q.redirect_uri
                q.code_verifier v).0
              ≡ ok tokens))
        ⊎ ((q.grant_type ≡ codes "refresh_token")
            × ((refresh hash challenge_of jose issuer token c q.refresh_token v).0 ≡ ok tokens))
  unfolding grant_tokens
  by_grant c v h = elim (Bool-cases (q.grant_type == codes "authorization_code")) [
    | inl code ↦ inl (
      (eq_iff q.grant_type (codes "authorization_code")).0 code,
      respond-ok _ tokens (ground (arith, code)),
    )
    | inr other ↦ elim (Bool-cases (q.grant_type == codes "refresh_token")) [
      | inl again ↦ inr (
        (eq_iff q.grant_type (codes "refresh_token")).0 again,
        respond-ok _ tokens (ground (arith, other, again)),
      )
      | inr neither ↦ absurd (ground (arith, other, neither))
    ]
  ]

  -- The token endpoint issues tokens only where both counters, of the address and of the client,
  -- grant the attempt, and to a client that showed its secret; they are those that Exchange or
  -- Refresh, as the grant type says, returned for that client on the tables that the counting left.
  pub token_endpoint-issued :
      (token_endpoint hash challenge_of jose issuer token family q w).0 ≡ issued tokens
      → IsWithin
        × ((c : Client) × (find_client (credentials q).0 limited.db ≡ some c)
            × (c.secret_hash ≡ hash (credentials q).1)
            × (((q.grant_type ≡ codes "authorization_code")
                  × ((exchange hash challenge_of jose issuer token family c q.code q.redirect_uri
                        q.code_verifier authenticated).0
                      ≡ ok tokens))
                ⊎ ((q.grant_type ≡ codes "refresh_token")
                    × ((refresh hash challenge_of jose issuer token c q.refresh_token
                          authenticated).0
                        ≡ ok tokens))))
  token_endpoint-issued h =
      let (id, secret) = credentials q in
      elim (Bool-cases (within_limits hash challenge_of jose issuer q w).0) [
        | inr over ↦ absurd (unfold token_endpoint in ground (arith, over))
        | inl within ↦ elim (Result-cases (authenticate_client hash id secret limited).0) [
          | inl (e, bad) ↦
              absurd (
                unfold token_endpoint in
                ground (arith, within, bad, client_problem-issued e tokens))
          | inr (c, good) ↦
              (let (found, right) = authenticate_client-ok hash id secret limited c good in
                (
                  within_limits-IsWithin within,
                  (
                    c,
                    found,
                    right,
                    by_grant c authenticated
                        (unfold token_endpoint in ground (arith, within, good)),
                  ),
                ))
        ]
      ]
