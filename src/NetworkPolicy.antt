-- ===== src/NetworkPolicy.antt =====
-- core/network_policy.py: the allow list of source addresses. What the module `ipaddress` and
-- `str.strip` do is an interface.
pub mod Decision
mod Tests
use aismixer.Prelude.{
  ℕ, Bool, true, false, ◌&&◌, ◌||◌, nat_beq, Option, none, some, List, [], ◌∷◌, Text, nat_eq,
  member, if◌then◌else◌,
}

pub record IpLibrary (Address Network : Type 0) : Type 0 where
  -- `ip_address` and `ip_network` of a text; `none` for ValueError
  pub ip_address : Text → Option Address
  pub ip_network : Text → Option Network
  -- `ip_network` of an address
  pub host_network : Address → Network
  -- `ipv4_mapped` of an IPv6 address; `none` for every other address
  pub ipv4_mapped : Address → Option Address
  -- `version`, of an address and of a network
  pub address_version : Address → ℕ
  pub network_version : Network → ℕ
  -- `in`
  pub is_in : Address → Network → Bool
  pub strip : Text → Text

-- `none` is the policy without restriction.
pub record NetworkPolicy (Network : Type 0) : Type 0 where
  pub networks : Option (List Network)

-- the value of `allow_from`: missing, `None`, or a list of texts
pub data AllowFrom : Type 0 where
  missing null : AllowFrom
  entries : List Text → AllowFrom

abbrev pub any_network : {N : Type 0} → (N → Bool) → List N → Bool
any_network holds [] = false
any_network holds (n ∷ ns) = holds n || any_network holds ns

module _ {Address Network : Type 0} (lib : IpLibrary Address Network) where
  -- `none` where the code raises
  unfoldable pub compile_value : Text → Option Network
  compile_value [] = none
  compile_value (c ∷ value) =
      if member 47 (c ∷ value)
      then lib.ip_network (c ∷ value)
      else elim (lib.ip_address (c ∷ value)) [
        | none ↦ none
        | some address ↦ some (lib.host_network address)
      ]

  unfoldable pub compile_network_entry : Text → Option Network
  unfolding compile_value
  compile_network_entry entry = compile_value (lib.strip entry)

  unfoldable pub compile_entries : List Text → Option (List Network)
  unfolding compile_network_entry
  compile_entries [] = some []
  compile_entries (entry ∷ rest) = elim (compile_network_entry entry) [
    | none ↦ none
    | some network ↦ elim (compile_entries rest) [
      | none ↦ none
      | some networks ↦ some (network ∷ networks)
    ]
  ]

  unfoldable pub from_entries : List Text → Option (NetworkPolicy Network)
  unfolding compile_entries
  from_entries values = elim (compile_entries values) [
    | none ↦ none
    | some networks ↦ some (record { networks = some networks })
  ]

  unfoldable pub compile_ingress_policy : AllowFrom → Option (NetworkPolicy Network)
  unfolding from_entries
  compile_ingress_policy missing = some (record { networks = none })
  compile_ingress_policy null = none
  compile_ingress_policy (entries values) = from_entries values

  -- the address that is looked up: that of an IPv4-mapped one is the IPv4 address
  abbrev pub unmapped : Address → Address
  unmapped address = elim (lib.ipv4_mapped address) [ none ↦ address | some v4 ↦ v4 ]

  abbrev pub matches : Address → Network → Bool
  matches address network =
      nat_beq (lib.address_version address) (lib.network_version network)
      && lib.is_in address network

  unfoldable pub allows : NetworkPolicy Network → Text → Bool
  allows policy peer_ip = elim policy.networks [
    | none ↦ true
    | some networks ↦ elim (lib.ip_address peer_ip) [
      | none ↦ false
      | some address ↦ any_network (matches (unmapped address)) networks
    ]
  ]
