-- ===== src/Tests/Requests.antt =====
-- A chain of proxies, and conversions of integers.
use kirby.Base.{
  String, false, List, [], ◌∷◌, Option, none, some, err, pos, negsuc, ok, ◌≡◌, refl, arith, ◌≤◌,
}
use kirby.Access.Normalize.{starts_with}
use kirby.ClientIp.{Netip, Request, resolve, no_resolver}
use kirby.ClientIp.Chain.{IsClient, resolve-IsClient}
use kirby.Text.{join, split, trim_space}
use kirby.SafeInt.{
  max_uint32, uint32_from_int64, uint32_from_int, uint64_from_int64, uint64_from_int,
  int64_from_uint64, int_from_uint64, int_from_uint32,
}
use kirby.SafeInt.Exact.{exactly, exactly_int, conversions_keep_values}

-- Addresses as texts, and networks as their prefixes.
abbrev texts : Netip String String
texts = record {
  parse_addr_port = λ s. some s;
  parse_addr = λ s. some s;
  has_zone = λ s. false;
  unmap = λ s. s;
  covers = starts_with;
}

abbrev request : Request
request = record {
  remote_addr = "10.0.0.2";
  forwarded_for = "198.51.100.200, 203.0.113.8" ∷ "10.0.0.7" ∷ [];
}

nearest : resolve texts (some ("10." ∷ [])) (some request) ≡ ok "203.0.113.8"
unfolding resolve starts_with join split trim_space
nearest = refl

no_resolver_fails : resolve texts none (some request) ≡ err no_resolver
unfolding resolve
no_resolver_fails = refl

resolve-IsClient_example :
    (trusted : List String) × (r : Request) × ◌≡◌ {A = Option (List String)}
      (some ("10." ∷ []))
      (some trusted)
    × ◌≡◌ {A = Option Request} (some request) (some r)
    × IsClient texts trusted r "203.0.113.8"
resolve-IsClient_example = resolve-IsClient texts (some ("10." ∷ [])) (some request) nearest

conversions_keep_values_example :
    (uint32_from_int64 (negsuc 6) ≡ exactly max_uint32 (negsuc 6))
    × (uint32_from_int (negsuc 6) ≡ exactly max_uint32 (negsuc 6))
    × (uint64_from_int64 (negsuc 6) ≡ exactly 18446744073709551615 (negsuc 6))
    × (uint64_from_int (negsuc 6) ≡ exactly 18446744073709551615 (negsuc 6))
    × (int64_from_uint64 9223372036854775808 ≡ exactly_int 9223372036854775807 9223372036854775808)
    × (int_from_uint64 9223372036854775808 ≡ exactly_int 9223372036854775807 9223372036854775808)
    × (9223372036854775808 ≤ max_uint32
        → int_from_uint32 9223372036854775808 ≡ ok (pos 9223372036854775808))
conversions_keep_values_example =
    conversions_keep_values (negsuc 6) 9223372036854775808 (omega arith) (omega arith)
