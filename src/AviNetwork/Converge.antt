-- ===== src/AviNetwork/Converge.antt =====
-- EnsureAviNetwork reaches the wanted ranges.
use mathlib.Core.List.Perm
use mathlib.Core.List.{Perm}
use mathlib.Core.Option.{some-injective}
use load_balancer_operator_f.Prelude.{
  false≢true, ◌∙◌, ℕ, zero, suc, String, true, false, Option, none, some, List, [], ◌∷◌, ◌++◌, ◌≡◌,
  refl, ◌≢◌, sym, ap, arith, eq_iff, eqb_iff, length, get_elem?, take, map, All, Bool-cases, subst,
  inl, inr, ◌⊎◌, Bool,
}
use load_balancer_operator_f.Api.{IpPool}
use load_balancer_operator_f.AviNetwork.{
  StaticIpRange, Subnet, Network, Sorter, create_static_range_from_ip_pools, sort_static_ranges,
  same_addresses, is_static_ip_range_equal, ensure_static_ranges, is_subnet,
  avi_network_contains_subnet, new_subnet, update_at, ensure_at, ensure_avi_network, get_addr,
}
use load_balancer_operator_f.AviNetwork.Sorting.{Perm-map}

-- The two addresses of a range, and of a pool.
abbrev pub ends : StaticIpRange → String × String
ends r = (r.begin.addr, r.end.addr)

abbrev pub pool_ends : IpPool → String × String
pool_ends pool = (pool.start, pool.end)

-- The ranges of a subnet have the addresses of the pools, each as often, in whichever order.
abbrev pub HasPools : Option (List IpPool) → Subnet → Type 0
HasPools none s = Unit
HasPools (some pools) s = Perm (map ends s.static_ip_ranges) (map pool_ends pools)

-- The subnet has the prefix and the mask.
abbrev pub IsWanted : String → ℕ → Subnet → Type 0
IsWanted a mask s = (s.prefix.addr ≡ a) × (s.mask ≡ mask)

ends-created :
    (pools : List IpPool) → map ends (create_static_range_from_ip_pools pools) ≡ map pool_ends pools
unfolding create_static_range_from_ip_pools get_addr
ends-created [] = refl
ends-created (pool ∷ pools) = ap (λ l. pool_ends pool ∷ l) (ends-created pools)

same_ends :
    (r s : StaticIpRange) (rs ss : List StaticIpRange)
    → r.begin.addr ≡ s.begin.addr
    → r.end.addr ≡ s.end.addr
    → map ends rs ≡ map ends ss
    → map ends (r ∷ rs) ≡ map ends (s ∷ ss)
same_ends r s rs ss b e h = rw (b, e, h) refl

same_addresses-ends :
    (rs ss : List StaticIpRange) → same_addresses rs ss ≡ true → map ends rs ≡ map ends ss
unfolding same_addresses
same_addresses-ends [] [] h = refl
same_addresses-ends [] (s ∷ ss) h = cc
same_addresses-ends (r ∷ rs) [] h = cc
same_addresses-ends (r ∷ rs) (s ∷ ss) h =
    let b : r.begin.addr ≡ s.begin.addr = ground (arith, eq_iff r.begin.addr s.begin.addr) in
    let e : r.end.addr ≡ s.end.addr = ground (arith, eq_iff r.end.addr s.end.addr) in
    let rest : same_addresses rs ss ≡ true = ground arith in
    same_ends r s rs ss b e (same_addresses-ends rs ss rest)

is_subnet-IsWanted :
    (a : String) (mask : ℕ) (s : Subnet) → is_subnet a mask s ≡ true → IsWanted a mask s
unfolding is_subnet
is_subnet-IsWanted a mask s h =
    (ground (arith, eq_iff s.prefix.addr a), ground (arith, eqb_iff s.mask mask))

IsWanted-is_subnet :
    (a : String) (mask : ℕ) (s : Subnet) → IsWanted a mask s → is_subnet a mask s ≡ true
unfolding is_subnet
IsWanted-is_subnet a mask s w =
    ground (arith, w.0, w.1, eq_iff s.prefix.addr a, eqb_iff s.mask mask)

-- The subnet stood at i before, with the same ranges in whichever order.
abbrev pub IsKept : List Subnet → ℕ → Subnet → Type 0
IsKept before i s =
    (old : Subnet) × (get_elem? before i ≡ some old)
    × (s.prefix ≡ old.prefix)
    × (s.mask ≡ old.mask)
    × Perm s.static_ip_ranges old.static_ip_ranges

module _ (sorter : Sorter) where
  sorted-pools :
      (pools : List IpPool) (rs : List StaticIpRange)
      → map ends rs ≡ map ends (sort_static_ranges sorter (create_static_range_from_ip_pools pools))
      → Perm (map ends rs) (map pool_ends pools)
  unfolding sort_static_ranges
  sorted-pools pools rs e =
      rw (e, sym (ends-created pools)) (Perm-map ends _ _ (sorter.sort_slice-perm _ _))

  ensure_static_ranges-HasPools :
      (s : Subnet) (pools : Option (List IpPool))
      → HasPools pools (ensure_static_ranges sorter s pools).0
  unfolding ensure_static_ranges is_static_ip_range_equal
  ensure_static_ranges-HasPools s none = tt
  ensure_static_ranges-HasPools s (some pools) =
      let wanted = sort_static_ranges sorter (create_static_range_from_ip_pools pools) in
      let old = sort_static_ranges sorter s.static_ip_ranges in
      elim (Bool-cases (same_addresses wanted old)) [
        | inl t ↦ rw t (sorted-pools pools old (sym (same_addresses-ends wanted old t)))
        | inr f ↦ rw f (sorted-pools pools wanted refl)
      ]

  ensure_static_ranges-IsKept :
      (s : Subnet) (ss : List Subnet) (pools : Option (List IpPool))
      → let r = ensure_static_ranges sorter s pools in (r.1 ≡ true) ⊎ IsKept (s ∷ ss) 0 r.0
  unfolding ensure_static_ranges sort_static_ranges
  ensure_static_ranges-IsKept s ss none = inr (s, refl, refl, refl, Perm.refl _)
  ensure_static_ranges-IsKept s ss (some pools) =
      elim (Bool-cases (
        is_static_ip_range_equal sorter (create_static_range_from_ip_pools pools)
          s.static_ip_ranges)) [
            | inl t ↦ rw t (inr (s, refl, refl, refl, sorter.sort_slice-perm _ _))
            | inr f ↦ rw f (inl refl)
          ]

  is_subnet-ensure :
      (a : String) (mask : ℕ) (s : Subnet) (pools : Option (List IpPool))
      → is_subnet a mask (ensure_static_ranges sorter s pools).0 ≡ is_subnet a mask s
  unfolding ensure_static_ranges is_subnet
  is_subnet-ensure a mask s none = refl
  is_subnet-ensure a mask s (some pools) = ground arith

-- The subnet that the code looks for stands at i, has the addresses of the pools, and the other
-- subnets are those of the list before; and a modification is reported, or the subnet is kept.
record IsUpdated (a : String) (mask : ℕ) (pools : Option (List IpPool)) (before after : List Subnet)
    (modified : Bool) (i : ℕ) : Type 0 where
  at : avi_network_contains_subnet after a mask ≡ some i
  subnet : Subnet
  stands : get_elem? after i ≡ some subnet
  has_pools : HasPools pools subnet
  reported : (modified ≡ true) ⊎ IsKept before i subnet
  others : (j : ℕ) → i ≢ j → get_elem? after j ≡ get_elem? before j

module _ (a : String) (mask : ℕ) (s : Subnet) (ss : List Subnet) where
  found_here : avi_network_contains_subnet (s ∷ ss) a mask ≡ some 0 → is_subnet a mask s ≡ true
  unfolding avi_network_contains_subnet
  found_here e = ground arith

  found_later :
      (i : ℕ)
      → avi_network_contains_subnet (s ∷ ss) a mask ≡ some (suc i)
      → (is_subnet a mask s ≡ false) × (avi_network_contains_subnet ss a mask ≡ some i)
  unfolding avi_network_contains_subnet
  found_later i e = ground arith

  found_nowhere :
      avi_network_contains_subnet (s ∷ ss) a mask ≡ none
      → (is_subnet a mask s ≡ false) × (avi_network_contains_subnet ss a mask ≡ none)
  unfolding avi_network_contains_subnet
  found_nowhere e = ground arith

module _ (sorter : Sorter) (a : String) (mask : ℕ) (pools : Option (List IpPool)) where
  -- One more subnet in front, which is not the one that the code looks for.
  cons-IsUpdated :
      (s : Subnet) (before after : List Subnet) (modified : Bool) (i : ℕ)
      → is_subnet a mask s ≡ false
      → IsUpdated a mask pools before after modified i
      → IsUpdated a mask pools (s ∷ before) (s ∷ after) modified (suc i)
  unfolding avi_network_contains_subnet
  cons-IsUpdated s before after modified i f v = record {
    at = rw (f, v.at) refl;
    subnet = v.subnet;
    stands = v.stands;
    has_pools = v.has_pools;
    reported = v.reported;
    others = elim [ zero ↦ λ k. refl | suc j ↦ λ k. v.others j (λ q. k (ap suc q)) ];
  }

  update_at-IsUpdated :
      (ss : List Subnet) (i : ℕ)
      → avi_network_contains_subnet ss a mask ≡ some i
      → let r = update_at sorter ss i pools in IsUpdated a mask pools ss r.0 r.1 i
  unfolding update_at
  update_at-IsUpdated [] i e = unfold avi_network_contains_subnet in cc
  update_at-IsUpdated (s ∷ ss) zero e = record {
    at =
        unfold avi_network_contains_subnet in
        rw (is_subnet-ensure sorter a mask s pools, found_here a mask s ss e) refl;
    subnet = (ensure_static_ranges sorter s pools).0;
    stands = refl;
    has_pools = ensure_static_ranges-HasPools sorter s pools;
    reported = ensure_static_ranges-IsKept sorter s ss pools;
    others = elim [ zero ↦ λ k. absurd (k refl) | suc j ↦ λ k. refl ];
  }
  update_at-IsUpdated (s ∷ ss) (suc i) e =
      let f = found_later a mask s ss i e in
      let r = update_at sorter ss i pools in
      cons-IsUpdated s ss r.0 r.1 i f.0 (update_at-IsUpdated ss i f.1)

  append-IsUpdated :
      (ss : List Subnet) (n : Subnet)
      → avi_network_contains_subnet ss a mask ≡ none
      → is_subnet a mask n ≡ true
      → HasPools pools n
      → IsUpdated a mask pools ss (ss ++ n ∷ []) true (length ss)
  append-IsUpdated [] n e t h = record {
    at = unfold avi_network_contains_subnet in rw t refl;
    subnet = n;
    stands = refl;
    has_pools = h;
    reported = inl refl;
    others = elim [ zero ↦ λ k. absurd (k refl) | suc j ↦ λ k. refl ];
  }
  append-IsUpdated (s ∷ ss) n e t h =
      let f = found_nowhere a mask s ss e in
      cons-IsUpdated s ss (ss ++ n ∷ []) true (length ss) f.0 (append-IsUpdated ss n f.1 t h)

new_subnet-HasPools :
    (t a : String) (mask : ℕ) (pools : Option (List IpPool))
    → HasPools pools (new_subnet t a mask pools)
unfolding new_subnet
new_subnet-HasPools t a mask none = tt
new_subnet-HasPools t a mask (some pools) = rw (ends-created pools) (Perm.refl _)

new_subnet-is_subnet :
    (t a : String) (mask : ℕ) (pools : Option (List IpPool))
    → is_subnet a mask (new_subnet t a mask pools) ≡ true
unfolding new_subnet get_addr
new_subnet-is_subnet t a mask pools =
    IsWanted-is_subnet a mask (new_subnet t a mask pools) (refl, refl)

-- The subnet that the code finds is wanted, and none before it is.
contains-IsWanted :
    (a : String) (mask : ℕ) (ss : List Subnet) (i : ℕ) (s : Subnet)
    → avi_network_contains_subnet ss a mask ≡ some i
    → get_elem? ss i ≡ some s
    → IsWanted a mask s
contains-IsWanted a mask [] i s e g = cc
contains-IsWanted a mask (x ∷ ss) zero s e g =
    subst (IsWanted a mask) (some-injective x s g)
      (is_subnet-IsWanted a mask x (found_here a mask x ss e))
contains-IsWanted a mask (x ∷ ss) (suc i) s e g =
    contains-IsWanted a mask ss i s (found_later a mask x ss i e).1 g

contains-first :
    (a : String) (mask : ℕ) (ss : List Subnet) (i : ℕ)
    → avi_network_contains_subnet ss a mask ≡ some i
    → All (λ (t : Subnet). ¬ IsWanted a mask t) (take i ss)
contains-first a mask ss zero e = tt
contains-first a mask [] (suc i) e = tt
contains-first a mask (x ∷ ss) (suc i) e =
    let f = found_later a mask x ss i e in
    ((λ w. false≢true (sym f.0 ∙ IsWanted-is_subnet a mask x w)), contains-first a mask ss i f.1)

ensure_at-IsUpdated :
    (sorter : Sorter) (t a : String) (mask : ℕ) (pools : Option (List IpPool)) (ss : List Subnet)
    (o : Option ℕ)
    → avi_network_contains_subnet ss a mask ≡ o
    → let r = ensure_at sorter ss t a mask pools o in (i : ℕ) × IsUpdated a mask pools ss r.0 r.1 i
ensure_at-IsUpdated sorter t a mask pools ss none e = (
  length ss,
  append-IsUpdated sorter a mask pools ss (new_subnet t a mask pools) e
      (new_subnet-is_subnet t a mask pools) (new_subnet-HasPools t a mask pools),
)
ensure_at-IsUpdated sorter t a mask pools ss (some i) e =
    (i, update_at-IsUpdated sorter a mask pools ss i e)

module _ (sorter : Sorter) (network : Network) (addr_type start_addr : String) (mask : ℕ)
    (pools : Option (List IpPool)) where
  reached :
      let r = ensure_avi_network sorter network addr_type start_addr mask pools in
      (i : ℕ) × IsUpdated start_addr mask pools network.configured_subnets r.0.configured_subnets
        r.1 i
  unfolding ensure_avi_network
  reached =
      ensure_at-IsUpdated sorter addr_type start_addr mask pools network.configured_subnets _ refl

  -- After EnsureAviNetwork the network has a subnet with the wanted prefix address and mask; the first
  -- such subnet has the start and end addresses of the pools, each pair as often as among the pools, if
  -- pools were given; and no other subnet has changed. It reports a modification, or that subnet stood
  -- there before with the same ranges in whichever order. The sort of the ranges is any that permutes.
  pub ensure_avi_network-reached :
      let before = network.configured_subnets in
      let r = ensure_avi_network sorter network addr_type start_addr mask pools in
      let after = r.0.configured_subnets in
      (i : ℕ) × (s : Subnet) × (get_elem? after i ≡ some s)
      × IsWanted start_addr mask s
      × All (λ (t : Subnet). ¬ IsWanted start_addr mask t) (take i after)
      × HasPools pools s
      × ((r.1 ≡ true) ⊎ IsKept before i s)
      × ((j : ℕ) → i ≢ j → get_elem? after j ≡ get_elem? before j)
  ensure_avi_network-reached =
      let (i, v) = reached in
      (
        i,
        v.subnet,
        v.stands,
        contains-IsWanted start_addr mask _ i v.subnet v.at v.stands,
        contains-first start_addr mask _ i v.at,
        v.has_pools,
        v.reported,
        v.others,
      )
