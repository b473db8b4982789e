-- ===== src/ClientIp/Chain.antt =====
-- Which hop of a chain of proxies is the client.
use kirby.Base.{
  ℕ, suc, ◌≤◌, String, true, false, ◌||◌, ◌==◌, ltb, List, [], ◌∷◌, ◌++◌, Option, none, some,
  Result, ok, fail_if, length, All, ◌≡◌, refl, sym, ap, ◌∙◌, arith, ◌⊎◌, inl, inr, Bool-cases,
  Option-cases, >>=-eq-ok, ok-injective,
}
use kirby.Text.{join, split, trim_space}
use kirby.ClientIp.{
  IpError, chain_length, max_forwarded_for_hops, Request, Netip, is_trusted, parse_remote_addr,
  parse_hop, parse_chain, last_untrusted, pick, resolve_chain, resolve_request, resolve,
}

module _ {Addr Prefix : Type 0} (netip : Netip Addr Prefix) (trusted : List Prefix) where
  abbrev pub AreTrusted : List Addr → Type 0
  AreTrusted chain = All (λ a. is_trusted netip trusted a ≡ true) chain

  -- Every hop after this one is trusted, and it is not, or it is the first.
  pub record IsNearest (a : Addr) (chain : List Addr) : Type 0 where
    pub before : List Addr
    pub after : List Addr
    pub parts : chain ≡ before ++ a ∷ after
    pub behind : AreTrusted after
    pub stops : (is_trusted netip trusted a ≡ false) ⊎ (before ≡ [])

  last_untrusted-none :
      (chain : List Addr) → last_untrusted netip trusted chain ≡ none → AreTrusted chain
  unfolding last_untrusted
  last_untrusted-none [] h = tt
  last_untrusted-none (a ∷ chain) h = elim (Option-cases (last_untrusted netip trusted chain)) [
    | inl all ↦ (ground arith, last_untrusted-none chain all)
    | inr (b, found) ↦ absurd (ground arith)
  ]

  last_untrusted-IsNearest :
      (chain : List Addr) {b : Addr}
      → last_untrusted netip trusted chain ≡ some b
      → IsNearest b chain × (is_trusted netip trusted b ≡ false)
  unfolding last_untrusted
  last_untrusted-IsNearest [] h = absurd (cc)
  last_untrusted-IsNearest (a ∷ chain) {b} h =
      elim (Option-cases (last_untrusted netip trusted chain)) [
        | inl all ↦ elim (Bool-cases (is_trusted netip trusted a)) [
          | inl known ↦ absurd (ground arith)
          | inr alien ↦
              let same : a ≡ b = (let e = rw (all, alien, last_untrusted) at h in cc) in
              let alien' : is_trusted netip trusted b ≡ false = rw (← same) alien in
              (
                record {
                  before = [];
                  after = chain;
                  parts = rw same refl;
                  behind = last_untrusted-none chain all;
                  stops = inl alien';
                },
                alien',
              )
        ]
        | inr (c, found) ↦
            let same : c ≡ b = (let e = rw (found, last_untrusted) at h in cc) in
            let (n, alien) = last_untrusted-IsNearest chain (rw same at found) in
            (
              record {
                before = a ∷ n.before;
                after = n.after;
                parts = ap (λ l. a ∷ l) n.parts;
                behind = n.behind;
                stops = inl alien;
              },
              alien,
            )
      ]

  pick-IsNearest :
      (remote a : Addr) (chain : List Addr)
      → IsNearest (pick netip trusted remote (a ∷ chain)) (a ∷ chain)
  unfolding pick
  pick-IsNearest remote a chain = elim (Option-cases (last_untrusted netip trusted (a ∷ chain))) [
    | inl all ↦
        rw (all, pick)
          (record {
            before = [];
            after = chain;
            parts = refl;
            behind = (last_untrusted-none (a ∷ chain) all).1;
            stops = inr refl;
          })
    | inr (b, found) ↦ rw (found, pick) ((last_untrusted-IsNearest (a ∷ chain) found).0)
  ]

  length-parse_chain :
      (position : ℕ) (parts : List String) {chain : List Addr}
      → parse_chain netip position parts ≡ ok chain
      → length chain ≡ length parts
  unfolding parse_chain
  length-parse_chain position [] h = ground arith
  length-parse_chain position (part ∷ parts) {chain} h =
      let (a, hop, h1) =
        >>=-eq-ok (parse_hop netip (trim_space part) position (netip.parse_addr (trim_space part)))
          _ h in
      let (rest, later, h2) = >>=-eq-ok (parse_chain netip (suc position) parts) _ h1 in
      let same : a ∷ rest ≡ chain = ok-injective h2 in
      ap length (sym same) ∙ ap suc (length-parse_chain (suc position) parts later)

  -- The client of a chain of proxies: the hops of the header are at most 32, all of them addresses.
  pub record IsForwarded (a : Addr) (parts : List String) : Type 0 where
    pub chain : List Addr
    pub addresses : parse_chain netip 1 parts ≡ ok chain
    pub few : length parts ≤ max_forwarded_for_hops
    pub nearest : IsNearest a chain

  resolve_chain-IsForwarded :
      (remote : Addr) (parts : List String) {a : Addr}
      → resolve_chain netip trusted remote parts ≡ ok a
      → IsForwarded a parts
  unfolding resolve_chain
  resolve_chain-IsForwarded remote parts {a} h =
      let (_, fine, h1) =
        >>=-eq-ok
          (fail_if (length parts == 0 || ltb max_forwarded_for_hops (length parts)) chain_length) _
          h in
      let (chain, parsed, h2) = >>=-eq-ok (parse_chain netip 1 parts) _ h1 in
      let same : pick netip trusted remote chain ≡ a = ok-injective h2 in
      record {
        chain = chain;
        addresses = parsed;
        few = ground arith;
        nearest = rw (← same) (of_chain chain (ground (arith, length-parse_chain 1 parts parsed)));
      }
    where
      of_chain :
          (c : List Addr) → (length c == 0) ≡ false → IsNearest (pick netip trusted remote c) c
      of_chain [] empty = absurd (cc empty)
      of_chain (b ∷ c) some_hop = pick-IsNearest remote b c

  -- The peer where it is no trusted proxy or forwards nothing, and otherwise the nearest hop of the
  -- header.
  pub record IsClient (request : Request) (a : Addr) : Type 0 where
    pub remote : Addr
    pub peer : parse_remote_addr netip request.remote_addr ≡ ok remote
    pub outcome :
        ((is_trusted netip trusted remote ≡ false) × (a ≡ remote))
        ⊎ ((is_trusted netip trusted remote ≡ true)
            × (((request.forwarded_for ≡ []) × (a ≡ remote))
                ⊎ IsForwarded a (split b',' (join "," request.forwarded_for))))

  forwarded :
      (request : Request) (remote : Addr) (values : List String) {a : Addr}
      → request.forwarded_for ≡ values
      → ◌≡◌ {A = Result IpError Addr}
          (elim values [
            | [] ↦ ok remote
            | v ∷ vs ↦ resolve_chain netip trusted remote (split b',' (join "," (v ∷ vs)))
          ])
          (ok a)
      → ((request.forwarded_for ≡ []) × (a ≡ remote))
        ⊎ IsForwarded a (split b',' (join "," request.forwarded_for))
  forwarded request remote [] e h = inl (e, sym (ok-injective h))
  forwarded request remote (v ∷ vs) e h =
      inr (rw e (resolve_chain-IsForwarded remote (split b',' (join "," (v ∷ vs))) h))

  resolve_request-IsClient :
      (request : Request) {a : Addr}
      → resolve_request netip trusted request ≡ ok a
      → IsClient request a
  unfolding resolve_request
  resolve_request-IsClient request {a} h =
      let (remote, read, h1) = >>=-eq-ok (parse_remote_addr netip request.remote_addr) _ h in
      record {
        remote = remote;
        peer = read;
        outcome = elim (Bool-cases (is_trusted netip trusted remote)) [
          | inl known ↦
              inr (known, forwarded request remote request.forwarded_for refl (rw known at h1))
          | inr alien ↦ inl (alien, sym (ok-injective (rw alien at h1)))
        ];
      }

module _ {Addr Prefix : Type 0} (netip : Netip Addr Prefix) where
  -- An address that Resolve returns is the peer, if that is no trusted proxy or sends no forwarding
  -- header; otherwise the header has at most 32 hops, all of them addresses, and it is the last hop
  -- that is not trusted, or the first where all are trusted. The resolver and the request are not nil.
  pub resolve-IsClient :
      (resolver : Option (List Prefix)) (request : Option Request) {a : Addr}
      → resolve netip resolver request ≡ ok a
      → (trusted : List Prefix) × (r : Request) × (resolver ≡ some trusted)
        × (request ≡ some r)
        × IsClient netip trusted r a
  unfolding resolve
  resolve-IsClient none request h = cc
  resolve-IsClient (some trusted) none h = cc
  resolve-IsClient (some trusted) (some r) h =
      (trusted, r, refl, refl, resolve_request-IsClient netip trusted r h)
