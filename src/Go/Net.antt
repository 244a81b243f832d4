-- ===== src/Go/Net.antt =====
-- The package net as the program uses it: ParseIP, ParseCIDR, IP.To4, IP.To16, IPNet.Contains and
-- bytes.Compare. An IP is its list of bytes, and the nil IP is the empty list.
mod Tests
use load_balancer_operator_f.Prelude.{
  ℕ, zero, suc, ◌+◌, ◌-◌, ◌*◌, ◌/◌, ◌%◌, ◌^◌, String, Bool, true, false, not, ◌&&◌, ◌||◌, Option,
  none, some, List, [], ◌∷◌, ◌++◌, leb, ltb, eqb, if◌then◌else◌, length, take, drop, replicate,
  is_empty,
}
use Prim.Native.Nat.{bit_and}
use load_balancer_operator_f.Go.Text.{codes, cut, split, decimal, hexadecimal}

abbrev pub Ip : Type 0
Ip = List ℕ

pub record IpNet : Type 0 where
  pub ip : Ip
  pub mask : List ℕ

abbrev v4_in_v6 : List ℕ
v4_in_v6 = replicate 10 0 ++ 255 ∷ 255 ∷ []

-- One field of a dotted IPv4 address: at most 255, without a leading zero.
octet : List ℕ → Option ℕ
octet [] = none
octet (c ∷ []) = decimal (c ∷ [])
octet (c ∷ d ∷ cs) =
    if eqb c b'0' || ltb 3 (length (c ∷ d ∷ cs))
    then none
    else elim (decimal (c ∷ d ∷ cs)) [ none ↦ none | some n ↦ if leb n 255 then some n else none ]

four : Option ℕ → Option ℕ → Option ℕ → Option ℕ → Option (List ℕ)
four (some a) (some b) (some c) (some d) = some (a ∷ b ∷ c ∷ d ∷ [])
four _ _ _ _ = none

parse_ipv4_fields : List (List ℕ) → Option (List ℕ)
unfolding octet four
parse_ipv4_fields (a ∷ b ∷ c ∷ d ∷ []) = four (octet a) (octet b) (octet c) (octet d)
parse_ipv4_fields _ = none

unfoldable parse_ipv4 : List ℕ → Option (List ℕ)
unfolding parse_ipv4_fields split decimal
parse_ipv4 s = parse_ipv4_fields (split b'.' s)

-- The 16-bit groups of one side of an IPv6 address; the last group may be a dotted IPv4 address.
groups : List (List ℕ) → Option (List ℕ)
unfolding parse_ipv4 hexadecimal
groups [] = some []
groups (g ∷ []) = elim (parse_ipv4 g) [
  | some bytes ↦ some bytes
  | none ↦ elim (hexadecimal g) [ none ↦ none | some n ↦ some (n / 256 ∷ n % 256 ∷ []) ]
]
groups (g ∷ h ∷ gs) =
    let rest = groups (h ∷ gs) in
    elim (hexadecimal g) [
      | none ↦ none
      | some n ↦ elim rest [ none ↦ none | some bytes ↦ some (n / 256 ∷ n % 256 ∷ bytes) ]
    ]

-- A side of "::", which may be empty.
side : List ℕ → Option (List ℕ)
unfolding groups split
side [] = some []
side (c ∷ cs) = groups (split b':' (c ∷ cs))

-- The groups left of the first "::" and the text right of it.
cut_double : List ℕ → Option (List ℕ × List ℕ)
cut_double [] = none
cut_double (c ∷ []) = none
cut_double (c ∷ d ∷ cs) =
    let rest = cut_double (d ∷ cs) in
    if eqb c b':' && eqb d b':'
    then some ([], cs)
    else elim rest [ none ↦ none | some (a, b) ↦ some (c ∷ a, b) ]

-- "::" stands for at least one group, so the sides have at most 14 bytes.
fill : Option (List ℕ) → Option (List ℕ) → Option (List ℕ)
fill (some l) (some r) =
    if ltb 14 (length l + length r)
    then none
    else some (l ++ replicate (16 - (length l + length r)) 0 ++ r)
fill _ _ = none

-- A dotted IPv4 address may stand only at the end of the whole address.
hex_only : List ℕ → Bool
hex_only [] = true
hex_only (c ∷ cs) = not (eqb c b'.') && hex_only cs

unfoldable parse_ipv6 : List ℕ → Option (List ℕ)
unfolding side fill cut_double hex_only
parse_ipv6 s = elim (cut_double s) [
  | none ↦ elim (side s) [
    | none ↦ none
    | some bytes ↦ if eqb (length bytes) 16 then some bytes else none
  ]
  | some (l, r) ↦ if hex_only l then fill (side l) (side r) else none
]

-- netip.ParseAddr: the bytes, 4 of an IPv4 address and 16 of an IPv6 address.
unfoldable pub parse_addr : String → Option (List ℕ)
unfolding parse_ipv4 parse_ipv6 codes cut
parse_addr s = elim (cut b':' (codes s)) [
  | none ↦ parse_ipv4 (codes s)
  | some _ ↦ parse_ipv6 (codes s)
]

-- Addr.As16.
abbrev pub as_16 : List ℕ → Ip
as_16 bytes = if eqb (length bytes) 4 then v4_in_v6 ++ bytes else bytes

-- net.ParseIP: always 16 bytes, or nil.
unfoldable pub parse_ip : String → Ip
unfolding parse_addr
parse_ip s = elim (parse_addr s) [ none ↦ [] | some bytes ↦ as_16 bytes ]

same_bytes : List ℕ → List ℕ → Bool
same_bytes [] [] = true
same_bytes (a ∷ as') (b ∷ bs) = eqb a b && same_bytes as' bs
same_bytes _ _ = false

-- IP.To4: nil where the address is not IPv4.
unfoldable pub to_4 : Ip → Ip
unfolding same_bytes
to_4 ip =
    if eqb (length ip) 4
    then ip
    else if eqb (length ip) 16 && same_bytes (take 12 ip) v4_in_v6
    then drop 12 ip
    else []

-- IP.To16.
unfoldable pub to_16 : Ip → Ip
to_16 ip = if eqb (length ip) 4 then v4_in_v6 ++ ip else if eqb (length ip) 16 then ip else []

-- net.CIDRMask: `ones` leading ones in `count` bytes.
cidr_mask : ℕ → ℕ → List ℕ
cidr_mask ones zero = []
cidr_mask ones (suc count) =
    (if leb 8 ones then 255 else 256 - 2 ^ (8 - ones)) ∷ cidr_mask (ones - 8) count

and_bytes : List ℕ → List ℕ → List ℕ
and_bytes (a ∷ as') (b ∷ bs) = bit_and a b ∷ and_bytes as' bs
and_bytes _ _ = []

-- net.ParseCIDR: the address, and the network with its masked address. `none` is the error.
parse_cidr_parts : Option (List ℕ) → Option ℕ → Option (Ip × IpNet)
unfolding cidr_mask and_bytes
parse_cidr_parts (some addr) (some ones) =
    if leb ones (8 * length addr)
    then some (
      as_16 addr,
      record {
        ip = and_bytes addr (cidr_mask ones (length addr));
        mask = cidr_mask ones (length addr);
      },
    )
    else none
parse_cidr_parts _ _ = none

parse_addr_codes : List ℕ → Option (List ℕ)
unfolding parse_ipv4 parse_ipv6 cut
parse_addr_codes s = elim (cut b':' s) [ none ↦ parse_ipv4 s | some _ ↦ parse_ipv6 s ]

unfoldable pub parse_cidr : String → Option (Ip × IpNet)
unfolding parse_cidr_parts parse_addr_codes codes cut decimal
parse_cidr s = elim (cut b'/' (codes s)) [
  | none ↦ none
  | some (addr, ones) ↦ parse_cidr_parts (parse_addr_codes addr) (decimal ones)
]

masked_equal : List ℕ → List ℕ → List ℕ → Bool
masked_equal (n ∷ ns) (m ∷ ms) (i ∷ is) = eqb (bit_and n m) (bit_and i m) && masked_equal ns ms is
masked_equal _ _ _ = true

abbrev short : Ip → Ip
short ip = if is_empty (to_4 ip) then ip else to_4 ip

-- networkNumberAndMask: a mask of 16 bytes is cut for an IPv4 network.
abbrev short_mask : Ip → List ℕ → List ℕ
short_mask ip mask = if eqb (length ip) 4 && eqb (length mask) 16 then drop 12 mask else mask

-- IPNet.Contains.
unfoldable pub contains : IpNet → Ip → Bool
unfolding to_4 masked_equal
contains n ip =
    eqb (length (short ip)) (length (short n.ip))
    && masked_equal (short n.ip) (short_mask (short n.ip) n.mask) (short ip)

-- bytes.Compare(a, b) > 0.
unfoldable pub greater : List ℕ → List ℕ → Bool
greater [] bs = false
greater (a ∷ as') [] = true
greater (a ∷ as') (b ∷ bs) =
    let rest = greater as' bs in if ltb b a then true else if ltb a b then false else rest

-- The leading ones of a mask, IPMask.Size.
leading_ones : ℕ → ℕ → ℕ
leading_ones zero byte = 0
leading_ones (suc bits) byte =
    if leb (2 ^ bits) byte then suc (leading_ones bits (byte - 2 ^ bits)) else 0

unfoldable pub mask_size : List ℕ → ℕ
unfolding leading_ones
mask_size [] = 0
mask_size (b ∷ bs) = let rest = mask_size bs in if eqb b 255 then 8 + rest else leading_ones 8 b
