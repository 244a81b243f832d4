-- ===== src/Go/Print/Tests.antt =====
-- Printed addresses and documents.
use load_balancer_operator_f.Prelude.{◌≡◌, refl, [], ◌∷◌}
use load_balancer_operator_f.Go.Net.{parse_ip}
use load_balancer_operator_f.Go.Print.{itoa, ip_string, json_texts}

itoa_test : (itoa 128 ≡ "128") × (itoa 24 ≡ "24") × (itoa 0 ≡ "0")
unfolding itoa
itoa_test = (refl, refl, refl)

ip_test :
    (ip_string (parse_ip "10.0.4.20") ≡ "10.0.4.20")
    × (ip_string (parse_ip "fd00:0:0:1::1") ≡ "fd00:0:0:1::1")
    × (ip_string (parse_ip "::") ≡ "::")
unfolding ip_string parse_ip
ip_test = (refl, refl, refl)

json_test : json_texts ("a\"b" ∷ "<c>" ∷ []) ≡ "[\"a\\\"b\",\"\\u003cc\\u003e\"]"
unfolding json_texts
json_test = refl
