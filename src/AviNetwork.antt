-- ===== src/AviNetwork.antt =====
-- EnsureAviNetwork of controllers/akodeploymentconfig/akodeploymentconfig_controller_avi_phase.go:
-- one subnet of an AVI network is brought to the address ranges of the pools. The structs are those
-- of the AVI SDK, with the pointers that the code dereferences taken as present. Where Go sorts a
-- slice in place, the sorted list is returned; sort.Slice is an argument.
pub mod Sorting
pub mod Converge
mod Tests
use mathlib.Core.List.{Perm}
use load_balancer_operator_f.Prelude.{
  ℕ, zero, suc, String, Bool, true, false, not, ◌&&◌, ◌||◌, Option, none, some, List, [], ◌∷◌, ◌++◌,
  ◌==◌, if◌then◌else◌, eqb, length,
}
use load_balancer_operator_f.Go.Net.{parse_ip, greater}
use load_balancer_operator_f.Api.{IpPool}

pub record IpAddr : Type 0 where
  pub addr : String
  pub kind : String

-- models.StaticIPRange: the Begin and End of its Range
pub record StaticIpRange : Type 0 where
  pub begin : IpAddr
  pub end : IpAddr

-- models.Subnet, with the IPAddr and Mask of its Prefix
pub record Subnet : Type 0 where
  pub prefix : IpAddr
  pub mask : ℕ
  pub static_ip_ranges : List StaticIpRange

pub record Network : Type 0 where
  pub name : String
  pub url : String
  pub configured_subnets : List Subnet

unfoldable pub get_addr : String → String → IpAddr
get_addr addr kind = record { addr = addr; kind = kind }

unfoldable pub create_static_range_from_ip_pools : List IpPool → List StaticIpRange
unfolding get_addr
create_static_range_from_ip_pools [] = []
create_static_range_from_ip_pools (pool ∷ pools) =
    record { begin = get_addr pool.start pool.kind; end = get_addr pool.end pool.kind }
    ∷ create_static_range_from_ip_pools pools

-- bytes.Compare(a, b) < 0 on the parsed addresses
unfoldable pub is_ip_less_than : String → String → Bool
is_ip_less_than a b = greater (parse_ip b) (parse_ip a)

-- sort.Slice of Go's standard library, on a slice of ranges: it orders the elements of the slice by a
-- test, with no promise about the order of elements that the test does not tell apart.
pub record Sorter : Type 0 where
  pub sort_slice : (StaticIpRange → StaticIpRange → Bool) → List StaticIpRange → List StaticIpRange
  pub sort_slice-perm :
      (less : StaticIpRange → StaticIpRange → Bool) (rs : List StaticIpRange)
      → Perm (sort_slice less rs) rs

-- The test of SortStaticRanges.
abbrev pub is_range_less_than : StaticIpRange → StaticIpRange → Bool
is_range_less_than r s = is_ip_less_than r.begin.addr s.begin.addr

-- The loop of IsStaticIPRangeEqual: the same addresses at each place.
unfoldable pub same_addresses : List StaticIpRange → List StaticIpRange → Bool
same_addresses [] [] = true
same_addresses [] (s ∷ ss) = false
same_addresses (r ∷ rs) [] = false
same_addresses (r ∷ rs) (s ∷ ss) =
    r.begin.addr == s.begin.addr && r.end.addr == s.end.addr && same_addresses rs ss

-- The test of AviNetworkContainsSubnet.
unfoldable pub is_subnet : String → ℕ → Subnet → Bool
is_subnet start_addr mask subnet = subnet.prefix.addr == start_addr && eqb subnet.mask mask

unfoldable pub avi_network_contains_subnet : List Subnet → String → ℕ → Option ℕ
avi_network_contains_subnet [] start_addr mask = none
avi_network_contains_subnet (s ∷ ss) start_addr mask =
    let rest = avi_network_contains_subnet ss start_addr mask in
    if is_subnet start_addr mask s
    then some 0
    else elim rest [ none ↦ none | some i ↦ some (suc i) ]

abbrev pools_or_nil : Option (List IpPool) → List IpPool
pools_or_nil none = []
pools_or_nil (some pools) = pools

-- The subnet that is created where the network has none.
unfoldable pub new_subnet : String → String → ℕ → Option (List IpPool) → Subnet
unfolding get_addr
new_subnet addr_type start_addr mask pools = record {
  prefix = get_addr start_addr addr_type;
  mask = mask;
  static_ip_ranges = create_static_range_from_ip_pools (pools_or_nil pools);
}

module _ (sorter : Sorter) where
  unfoldable pub sort_static_ranges : List StaticIpRange → List StaticIpRange
  sort_static_ranges rs = sorter.sort_slice is_range_less_than rs

  -- It sorts both of its arguments.
  unfoldable pub is_static_ip_range_equal : List StaticIpRange → List StaticIpRange → Bool
  is_static_ip_range_equal r1 r2 = same_addresses (sort_static_ranges r1) (sort_static_ranges r2)

  -- The ranges of the subnet are sorted in place by the comparison, also where nothing is updated.
  unfoldable pub ensure_static_ranges : Subnet → Option (List IpPool) → Subnet × Bool
  ensure_static_ranges subnet none = (subnet, false)
  ensure_static_ranges subnet (some pools) =
      let wanted = create_static_range_from_ip_pools pools in
      if is_static_ip_range_equal wanted subnet.static_ip_ranges
      then (record subnet { static_ip_ranges = sort_static_ranges subnet.static_ip_ranges }, false)
      else (record subnet { static_ip_ranges = sort_static_ranges wanted }, true)

  -- `network.ConfiguredSubnets[index]` after EnsureStaticRanges, and whether it was modified.
  unfoldable pub update_at : List Subnet → ℕ → Option (List IpPool) → List Subnet × Bool
  update_at [] i pools = ([], false)
  update_at (s ∷ ss) zero pools =
      let (s', modified) = ensure_static_ranges s pools in (s' ∷ ss, modified)
  update_at (s ∷ ss) (suc i) pools =
      let (ss', modified) = update_at ss i pools in (s ∷ ss', modified)

  abbrev ensure_at :
      List Subnet → String → String → ℕ → Option (List IpPool) → Option ℕ → List Subnet × Bool
  ensure_at subnets addr_type start_addr mask pools (some i) = update_at subnets i pools
  ensure_at subnets addr_type start_addr mask pools none =
      (subnets ++ new_subnet addr_type start_addr mask pools ∷ [], true)

  -- `start_addr` is cidr.IP.String().
  unfoldable pub ensure_avi_network :
      Network → String → String → ℕ → Option (List IpPool) → Network × Bool
  ensure_avi_network network addr_type start_addr mask pools =
      let (subnets, modified) =
        ensure_at network.configured_subnets addr_type start_addr mask pools
          (avi_network_contains_subnet network.configured_subnets start_addr mask) in
      (record network { configured_subnets = subnets }, modified)
