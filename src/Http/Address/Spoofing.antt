-- ===== src/Http/Address/Spoofing.antt =====
-- A client does not choose the address that its attempts are counted for.
use sso_go.Prelude.{Text, true, false, some, List, [], ◌∷◌, ◌++◌, All, ◌≡◌, arith}
use sso_go.Service.Words.{split, trim}
use sso_go.Http.Address.{Net, Network, trusted_proxy, reverse_onto, walk, client_ip}

module _ (net : Net) (networks : List Network) where
  -- an entry of the header that is the address of a trusted proxy
  abbrev pub IsHop : Text → Type 0
  IsHop part =
      (ip : Text) × (net.parse_ip (trim part) ≡ some ip) × (trusted_proxy networks ip ≡ true)

  walk-hops :
      (start : Text) (hops : List Text) (part client : Text) (forged : List Text)
      → All IsHop hops
      → net.parse_ip (trim part) ≡ some client
      → trusted_proxy networks client ≡ false
      → walk net networks start (hops ++ part ∷ forged) ≡ client
  unfolding walk
  walk-hops start [] part client forged all p out = rw p (ground (arith, out))
  walk-hops start (hop ∷ hops) part client forged ((ip, q, in_net), all) p out =
      rw q (ground (arith, in_net, walk-hops ip hops part client forged all p out))

  -- Behind trusted proxies the address is the last entry of X-Forwarded-For that is none of theirs,
  -- whatever entries the client wrote before it; from any other peer it is the peer's address,
  -- whatever the header says.
  pub client_ip-hops :
      (addr remote peer header forged_header part client : Text) (hops forged : List Text)
      → net.split_host addr ≡ some remote
      → net.parse_ip remote ≡ some peer
      → reverse_onto [] (split b',' header) ≡ hops ++ part ∷ forged
      → All IsHop hops
      → net.parse_ip (trim part) ≡ some client
      → trusted_proxy networks client ≡ false
      → (trusted_proxy networks peer ≡ true → client_ip net networks addr header ≡ client)
        × (trusted_proxy networks peer ≡ false → client_ip net networks addr forged_header ≡ remote)
  client_ip-hops addr remote peer header forged_header part client hops forged s r parts all p out =
      (
        λ trusted.
            unfold client_ip in
            ground (arith, s, r, trusted, parts, walk-hops peer hops part client forged all p out),
        λ untrusted. unfold client_ip in ground (arith, s, r, untrusted),
      )
