-- ===== src/Http/Address.antt =====
-- internal/transport/httpapi/limits.go: whose address an attempt is counted for.
--
-- The functions of package net come as parameters (`Net`); an address is the text that IP.String
-- gives, and a network is its Contains.
pub mod Spoofing
use sso_go.Prelude.{
  ℕ, Text, ◌==◌, Bool, true, false, ◌&&◌, ◌||◌, not, Option, none, some, List, [], ◌∷◌, ◌++◌, All,
  if◌then◌else◌, ◌≡◌, refl, arith,
}
use sso_go.Service.Words.{split, trim}

pub record Net : Type 0 where
  -- net.SplitHostPort, the host
  pub split_host : Text → Option Text
  pub parse_ip : Text → Option Text
  -- net.ParseCIDR, the network
  pub parse_cidr : Text → Option (Text → Bool)

abbrev pub Network : Type 0
Network = Text → Bool

-- the loop of parseTrustedProxies, and its test of the whole text
abbrev parse_networks : (Text → Option Network) → List Text → Option (List Network)
parse_networks parse [] = some []
parse_networks parse (part ∷ parts) =
    let rest = parse_networks parse parts in
    elim (parse (trim part)) [
      | none ↦ none
      | some network ↦ elim rest [ none ↦ none | some networks ↦ some (network ∷ networks) ]
    ]

-- parseTrustedProxies; `none` is its error
unfoldable pub parse_trusted_proxies : Net → Text → Option (List Network)
parse_trusted_proxies net raw =
    if trim raw == [] then some [] else parse_networks net.parse_cidr (split b',' raw)

-- Server.trustedProxy
unfoldable pub trusted_proxy : List Network → Text → Bool
trusted_proxy [] ip = false
trusted_proxy (network ∷ networks) ip = network ip || trusted_proxy networks ip

unfoldable pub reverse_onto : List Text → List Text → List Text
reverse_onto done [] = done
reverse_onto done (s ∷ rest) = reverse_onto (s ∷ done) rest

module _ (net : Net) (networks : List Network) where
  open net use {split_host, parse_ip}

  -- the loop of clientIP, over the addresses from the last on
  unfoldable pub walk : Text → List Text → Text
  walk ip [] = ip
  walk ip (part ∷ parts) = elim (parse_ip (trim part)) [
    | none ↦ ip
    | some candidate ↦
        if not (trusted_proxy networks candidate) then candidate else walk candidate parts
  ]

  abbrev from_proxy : Text → Text → Option Text → Text
  from_proxy header remote none = remote
  from_proxy header remote (some ip) =
      if not (trusted_proxy networks ip)
      then remote
      else walk ip (reverse_onto [] (split b',' header))

  abbrev from_remote : Text → Text → Option Text → Text
  from_remote addr header none = addr
  from_remote addr header (some remote) = from_proxy header remote (parse_ip remote)

  -- Server.clientIP, of the request's RemoteAddr and X-Forwarded-For
  unfoldable pub client_ip : Text → Text → Text
  unfolding walk
  client_ip addr header = from_remote addr header (split_host addr)
