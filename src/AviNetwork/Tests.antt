-- ===== src/AviNetwork/Tests.antt =====
-- A network with one subnet, and the theorems at it.

use load_balancer_operator_f.Prelude.{
  ℕ, String, some, List, [], ◌∷◌, true, ◌⊎◌, ◌≡◌, refl, ◌≢◌, get_elem?, map, take, All,
}
use load_balancer_operator_f.Go.Net.{parse_ip, greater}
use load_balancer_operator_f.AviNetwork.{
  StaticIpRange, Subnet, Network, sort_static_ranges, is_ip_less_than, ensure_avi_network,
}
use load_balancer_operator_f.AviNetwork.Converge.{
  IsKept, IsWanted, HasPools, ensure_avi_network-reached,
}
use load_balancer_operator_f.AviNetwork.Sorting.{insertion_sorter, sort_from, insert_range}
use load_balancer_operator_f.Samples.{pool}

abbrev range_of : String → String → StaticIpRange
range_of a b = record {
  begin = record { addr = a; kind = "V4" };
  end = record { addr = b; kind = "V4" };
}

abbrev ranges : List StaticIpRange
ranges = range_of "10.0.4.30" "10.0.4.40" ∷ range_of "10.0.4.9" "10.0.4.9" ∷ []

abbrev net : Network
net = record {
  name = "net";
  url = "https://1.1.1.1/api/network/network-1";
  configured_subnets =
      record {
        prefix = record { addr = "10.0.4.0"; kind = "V4" };
        mask = 22;
        static_ip_ranges = ranges;
      }
      ∷ [];
}

-- The order is that of the addresses, not of the texts.
numeric_order :
    map (λ r. r.begin.addr) (sort_static_ranges insertion_sorter ranges)
    ≡ "10.0.4.9" ∷ "10.0.4.30" ∷ []
unfolding sort_static_ranges sort_from insert_range is_ip_less_than parse_ip greater
numeric_order = refl

ensure_avi_network-reached_example :
    let r = ensure_avi_network insertion_sorter net "V4" "10.0.4.0" 22 (some (pool ∷ [])) in
    let after = r.0.configured_subnets in
    (i : ℕ) × (s : Subnet) × (get_elem? after i ≡ some s)
    × IsWanted "10.0.4.0" 22 s
    × All (λ (t : Subnet). ¬ IsWanted "10.0.4.0" 22 t) (take i after)
    × HasPools (some (pool ∷ [])) s
    × ((r.1 ≡ true) ⊎ IsKept net.configured_subnets i s)
    × ((j : ℕ) → i ≢ j → get_elem? after j ≡ get_elem? net.configured_subnets j)
ensure_avi_network-reached_example =
    ensure_avi_network-reached insertion_sorter net "V4" "10.0.4.0" 22 (some (pool ∷ []))
