-- ===== src/NetworkPolicy/Decision.antt =====
-- core/network_policy.py: the decision of a compiled policy, entry by entry.
use aismixer.Prelude.{
  Bool, true, false, none, some, List, [], ◌∷◌, ◌≡◌, ◌≢◌, ◌⊎◌, ◌∙◌, ap, sym, refl, arith, Text,
  Option-cases, Bool-cases, inl, inr, member, nat_eq, nat_beq_iff, text_eq, list_beq_iff,
}
use aismixer.NetworkPolicy.{
  IpLibrary, NetworkPolicy, entries, any_network, compile_value, compile_network_entry,
  compile_entries, from_entries, compile_ingress_policy, unmapped, matches, allows,
}

module _ {Address Network : Type 0} (lib : IpLibrary Address Network) where
  -- A text with a slash names a network, every other one the network of its one address.
  abbrev pub Names : Text → Network → Type 0
  Names value network =
      (value ≢ [])
      × (((member 47 value ≡ true) × (lib.ip_network value ≡ some network))
          ⊎ ((member 47 value ≡ false)
              × (address : Address) × (lib.ip_address value ≡ some address)
              × (network ≡ lib.host_network address)))

  -- The address that a peer's text stands for: an IPv4-mapped address is its IPv4 address.
  abbrev pub StandsFor : Text → Address → Type 0
  StandsFor peer address =
      (own : Address) × (lib.ip_address peer ≡ some own)
      × ((lib.ipv4_mapped own ≡ some address) ⊎ ((lib.ipv4_mapped own ≡ none) × (address ≡ own)))

  -- An entry of the list names a network of the address's version that has the address.
  pub record Covered (values : List Text) (peer : Text) : Type 0 where
    pub address : Address
    pub entry : Text
    pub network : Network
    pub stands_for : StandsFor peer address
    pub listed : member entry values ≡ true
    pub names : Names (lib.strip entry) network
    pub same_version : lib.address_version address ≡ lib.network_version network
    pub contained : lib.is_in address network ≡ true

  compile_value-Names :
      (value : Text) (network : Network)
      → compile_value lib value ≡ some network
      → Names value network
  unfolding compile_value
  compile_value-Names [] network h = absurd (ground arith)
  compile_value-Names (c ∷ value) network h = elim (Bool-cases (member 47 (c ∷ value))) [
    | inl slash ↦ ((λ e. absurd (ground arith)), inl (slash, ground arith))
    | inr plain ↦ elim (Option-cases (lib.ip_address (c ∷ value))) [
      | inl bad ↦ absurd (ground arith)
      | inr (a, e) ↦ ((λ q. absurd (ground arith)), inr (plain, a, e, ground arith))
    ]
  ]

  Names-compile_value :
      (value : Text) (network : Network)
      → Names value network
      → compile_value lib value ≡ some network
  unfolding compile_value
  Names-compile_value [] network h = absurd (h.0 refl)
  Names-compile_value (c ∷ value) network (given, inl (slash, e)) = ground arith
  Names-compile_value (c ∷ value) network (given, inr (plain, a, e, q)) = ground arith

  -- The networks of a compiled list are those that its entries name.
  module _ (holds : Network → Bool) where
    compile_entries-found :
        (values : List Text) (networks : List Network)
        → compile_entries lib values ≡ some networks
        → any_network holds networks ≡ true
        → (entry : Text) × (network : Network) × (member entry values ≡ true)
          × (compile_network_entry lib entry ≡ some network)
          × (holds network ≡ true)
    unfolding compile_entries
    compile_entries-found [] networks h q = absurd (ground arith)
    compile_entries-found (v ∷ rest) networks h q =
        elim (Option-cases (compile_network_entry lib v)) [
          | inl bad ↦ absurd (ground arith)
          | inr (n, e) ↦ elim (Option-cases (compile_entries lib rest)) [
            | inl bad ↦ absurd (ground arith)
            | inr (ns, es) ↦ elim (Bool-cases (holds n)) [
              | inl held ↦ (v, n, ground (arith, list_beq_iff v v), e, held)
              | inr fails ↦
                  let (w, m, listed, named, held) =
                    compile_entries-found rest ns es (ground arith) in
                  (w, m, ground arith, named, held)
            ]
          ]
        ]

    compile_entries-listed :
        (values : List Text) (networks : List Network) (entry : Text) (network : Network)
        → compile_entries lib values ≡ some networks
        → member entry values ≡ true
        → compile_network_entry lib entry ≡ some network
        → holds network ≡ true
        → any_network holds networks ≡ true
    unfolding compile_entries
    compile_entries-listed [] networks entry network h m q held = absurd (ground arith)
    compile_entries-listed (v ∷ rest) networks entry network h m q held =
        elim (Option-cases (compile_network_entry lib v)) [
          | inl bad ↦ absurd (ground arith)
          | inr (n, e) ↦ elim (Option-cases (compile_entries lib rest)) [
            | inl bad ↦ absurd (ground arith)
            | inr (ns, es) ↦
                ground
                  (arith, compile_entries-listed rest ns entry network es, list_beq_iff v entry)
          ]
        ]

  StandsFor-unmapped :
      (peer : Text) (own : Address)
      → lib.ip_address peer ≡ some own
      → StandsFor peer (unmapped lib own)
  StandsFor-unmapped peer own h = elim (Option-cases (lib.ipv4_mapped own)) [
    | inl other ↦ (own, h, inr (other, rw (unmapped, other) refl))
    | inr (v4, e) ↦ (own, h, inl (e ∙ ap some (sym (rw (unmapped, e) refl))))
  ]

  unmapped-StandsFor :
      (peer : Text) (own address : Address)
      → lib.ip_address peer ≡ some own
      → StandsFor peer address
      → unmapped lib own ≡ address
  unmapped-StandsFor peer own address h (own', e, inl mapped) = ground arith
  unmapped-StandsFor peer own address h (own', e, inr (other, q)) = ground arith

  -- A policy compiled from a list of entries allows a peer exactly if the peer's text is an address
  -- and, an IPv4-mapped address being taken as its IPv4 address, one of the entries names a network
  -- of the same version that has it: an entry with a slash is a network, every other one an address.
  pub compile_ingress_policy-allows :
      (values : List Text) (policy : NetworkPolicy Network) (peer : Text)
      → compile_ingress_policy lib (entries values) ≡ some policy
      → (allows lib policy peer ≡ true → Covered values peer)
        × (Covered values peer → allows lib policy peer ≡ true)
  unfolding compile_ingress_policy from_entries allows compile_network_entry
  compile_ingress_policy-allows values policy peer h =
      elim (Option-cases (compile_entries lib values)) [
        | inl bad ↦ absurd (ground arith)
        | inr (ns, e) ↦ elim (Option-cases (lib.ip_address peer)) [
          | inl no_address ↦ (
            (λ q. absurd (ground arith)),
            λ c. let (own, is, _) = c.stands_for in absurd (ground arith),
          )
          | inr (own, q) ↦
              let is_allowed : allows lib policy peer
                  ≡ any_network (matches lib (unmapped lib own)) ns =
                ground arith in
              (
                (λ held.
                    let (entry, n, listed, named, holds) =
                      compile_entries-found (matches lib (unmapped lib own)) values ns e
                        (ground arith) in
                    record {
                      address = unmapped lib own;
                      entry = entry;
                      network = n;
                      stands_for = StandsFor-unmapped peer own q;
                      listed = listed;
                      names = compile_value-Names (lib.strip entry) n named;
                      same_version = ground (
                        arith,
                        nat_beq_iff (lib.address_version (unmapped lib own))
                            (lib.network_version n),
                      );
                      contained = ground arith;
                    }),
                λ c.
                    let same = unmapped-StandsFor peer own c.address q c.stands_for in
                    is_allowed
                    ∙ compile_entries-listed (matches lib (unmapped lib own)) values ns c.entry
                        c.network e c.listed
                        (Names-compile_value (lib.strip c.entry) c.network c.names)
                        (rw same (
                          ground (
                            arith,
                            c.same_version,
                            c.contained,
                            nat_beq_iff (lib.address_version c.address)
                                (lib.network_version c.network),
                          ))),
              )
        ]
      ]
