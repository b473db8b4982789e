-- ===== src/ClientIp.antt =====
-- server/internal/middleware/client_ip.go over ParseTrustedProxyCIDRs of server/internal/conf.
-- Parameters: an address and a network are those of net/netip, of which `parse_addr_port`,
-- `parse_addr`, `has_zone`, `unmap` and `covers` are ParseAddrPort with Addr, ParseAddr, Zone() != "",
-- Unmap and Prefix.Contains.
pub mod Chain
use kirby.Base.{
  ℕ, String, str_eq, Bool, true, false, not, ◌&&◌, ◌||◌, ◌==◌, ltb, List, [], ◌∷◌, Option, none,
  some, Result, ok, err, ◌>>=◌, ◌>>◌, fail_if, length, if◌then◌else◌, suc, ◌+◌,
}
use kirby.Text.{join, split, trim_space}

pub data IpError : Type 0 where
  no_resolver no_request invalid_remote chain_length : IpError
  invalid_hop : ℕ → IpError

abbrev pub max_forwarded_for_hops : ℕ
max_forwarded_for_hops = 32

pub record Request : Type 0 where
  pub remote_addr : String
  pub forwarded_for : List String

pub record Netip (Addr Prefix : Type 0) : Type 0 where
  pub parse_addr_port : String → Option Addr
  pub parse_addr : String → Option Addr
  pub has_zone : Addr → Bool
  pub unmap : Addr → Addr
  pub covers : Prefix → Addr → Bool

module _ {Addr Prefix : Type 0} (netip : Netip Addr Prefix) where
  open netip use {parse_addr_port, parse_addr, has_zone, unmap, covers}

  -- isTrusted
  unfoldable pub is_trusted : List Prefix → Addr → Bool
  is_trusted [] a = false
  is_trusted (p ∷ trusted) a = covers p a || is_trusted trusted a

  unfoldable pub parse_plain : Option Addr → Result IpError Addr
  parse_plain none = err invalid_remote
  parse_plain (some a) = if has_zone a then err invalid_remote else ok (unmap a)

  unfoldable pub parse_remote_addr : String → Result IpError Addr
  unfolding parse_plain
  parse_remote_addr value = elim (parse_addr_port value) [
    | none ↦ parse_plain (parse_addr value)
    | some a ↦ if not (has_zone a) then ok (unmap a) else parse_plain (parse_addr value)
  ]

  unfoldable pub parse_hop : String → ℕ → Option Addr → Result IpError Addr
  parse_hop value position none = err (invalid_hop position)
  parse_hop value position (some a) =
      if str_eq value "" || has_zone a then err (invalid_hop position) else ok (unmap a)

  -- The loop that fills the chain; positions count from one.
  unfoldable pub parse_chain : ℕ → List String → Result IpError (List Addr)
  unfolding parse_hop
  parse_chain position [] = ok []
  parse_chain position (part ∷ parts) = do
    a ← parse_hop (trim_space part) position (parse_addr (trim_space part))
    chain ← parse_chain (suc position) parts
    ok (a ∷ chain)

  -- The scan from the last hop to the first: the last that is not trusted, if any.
  unfoldable pub last_untrusted : List Prefix → List Addr → Option Addr
  unfolding is_trusted
  last_untrusted trusted [] = none
  last_untrusted trusted (a ∷ chain) =
      let later = last_untrusted trusted chain in
      elim later [ some b ↦ some b | none ↦ if is_trusted trusted a then none else some a ]

  -- chain[0] where every hop is trusted. The chain has a hop here.
  unfoldable pub pick : List Prefix → Addr → List Addr → Addr
  unfolding last_untrusted
  pick trusted remote [] = remote
  pick trusted remote (a ∷ chain) = elim (last_untrusted trusted (a ∷ chain)) [
    | some b ↦ b
    | none ↦ a
  ]

  unfoldable pub resolve_chain : List Prefix → Addr → List String → Result IpError Addr
  unfolding parse_chain pick
  resolve_chain trusted remote parts = do
    fail_if (length parts == 0 || ltb max_forwarded_for_hops (length parts)) chain_length
    chain ← parse_chain 1 parts
    ok (pick trusted remote chain)

  -- Resolve of a resolver and a request that are there.
  unfoldable pub resolve_request : List Prefix → Request → Result IpError Addr
  unfolding parse_remote_addr is_trusted resolve_chain
  resolve_request trusted request = do
    remote ← parse_remote_addr request.remote_addr
    elim (is_trusted trusted remote) [
      | false ↦ ok remote
      | true ↦ elim request.forwarded_for [
        | [] ↦ ok remote
        | v ∷ vs ↦ resolve_chain trusted remote (split b',' (join "," (v ∷ vs)))
      ]
    ]

  -- Resolve; the trusted networks are all that a resolver holds.
  unfoldable pub resolve : Option (List Prefix) → Option Request → Result IpError Addr
  unfolding resolve_request
  resolve none request = err no_resolver
  resolve (some trusted) none = err no_request
  resolve (some trusted) (some request) = resolve_request trusted request
