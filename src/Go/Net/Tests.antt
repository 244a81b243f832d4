-- ===== src/Go/Net/Tests.antt =====
-- Addresses and networks that can be followed in RFC 4291 and in Go's documentation.
use load_balancer_operator_f.Prelude.{◌≡◌, refl, true, false, some, none, [], ◌∷◌}
use load_balancer_operator_f.Go.Net.{
  parse_ip, parse_cidr, to_4, contains, greater, mask_size, IpNet,
}

parse_v4 : to_4 (parse_ip "10.0.1.255") ≡ 10 ∷ 0 ∷ 1 ∷ 255 ∷ []
unfolding parse_ip to_4
parse_v4 = refl

parse_leading_zero : parse_ip "10.0.01.2" ≡ []
unfolding parse_ip
parse_leading_zero = refl

parse_v6 :
    parse_ip "2001:db8::1" ≡ 32 ∷ 1 ∷ 13 ∷ 184 ∷ 0 ∷ 0 ∷ 0 ∷ 0 ∷ 0 ∷ 0 ∷ 0 ∷ 0 ∷ 0 ∷ 0 ∷ 0 ∷ 1 ∷ []
unfolding parse_ip
parse_v6 = refl

parse_mapped : to_4 (parse_ip "::ffff:1.2.3.4") ≡ 1 ∷ 2 ∷ 3 ∷ 4 ∷ []
unfolding parse_ip to_4
parse_mapped = refl

parse_bad_v6 : parse_ip ":1::2" ≡ []
unfolding parse_ip
parse_bad_v6 = refl

abbrev lab : IpNet
lab = record { ip = 10 ∷ 0 ∷ 4 ∷ 0 ∷ []; mask = 255 ∷ 255 ∷ 252 ∷ 0 ∷ [] }

parse_network :
    parse_cidr "10.0.7.9/22"
    ≡ some (0 ∷ 0 ∷ 0 ∷ 0 ∷ 0 ∷ 0 ∷ 0 ∷ 0 ∷ 0 ∷ 0 ∷ 255 ∷ 255 ∷ 10 ∷ 0 ∷ 7 ∷ 9 ∷ [], lab)
unfolding parse_cidr
parse_network = refl

lab_size : mask_size lab.mask ≡ 22
unfolding mask_size
lab_size = refl

lab_contains : contains lab (parse_ip "10.0.6.200") ≡ true
unfolding contains parse_ip
lab_contains = refl

lab_lacks : contains lab (parse_ip "10.0.8.1") ≡ false
unfolding contains parse_ip
lab_lacks = refl

bad_network : parse_cidr "10.0.0.0/33" ≡ none
unfolding parse_cidr
bad_network = refl

after_address : greater (parse_ip "10.0.0.9") (parse_ip "10.0.0.10") ≡ false
unfolding greater parse_ip
after_address = refl
