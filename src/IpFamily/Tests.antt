-- ===== src/IpFamily/Tests.antt =====
-- Clusters of get_ipfamily_test.go, and the theorems at them.
use load_balancer_operator_f.Prelude.{true, none, some, [], ◌∷◌, ◌≡◌, refl, ◌↔◌}
use load_balancer_operator_f.Go.Net.{parse_cidr, to_4}
use load_balancer_operator_f.Kube.{Cluster}
use load_balancer_operator_f.IpFamily.{
  ip_family_of_cidrs, block_family, ip_family_from_cidr_strings, find_families, combine_families,
  primary_of_head, adc_ip_family, get_ip_family_from_cidr, get_cluster_ip_family,
  validate_cluster_ip_family,
}
use load_balancer_operator_f.IpFamily.Validate.{IsSupported, validate_cluster_ip_family_iff}
use load_balancer_operator_f.Samples.{legacy, adc_of, no_selector}

abbrev dual : Cluster
dual = record legacy {
  network = some (record {
    pods = some ("fd00:100:96::/48" ∷ "192.168.0.0/16" ∷ []);
    services = some ("10.128.0.0/12" ∷ "fd00:100:64::/108" ∷ []);
  });
}

abbrev mismatched : Cluster
mismatched = record legacy {
  network =
      some
        (record { pods = some ("fd00:100:96::/48" ∷ []); services = some ("10.128.0.0/12" ∷ []) });
}

dual_family : get_cluster_ip_family dual ≡ ("V6,V4", none)
unfolding get_cluster_ip_family ip_family_of_cidrs block_family ip_family_from_cidr_strings
    find_families combine_families primary_of_head get_ip_family_from_cidr parse_cidr to_4
dual_family = refl

-- A second range that is no CIDR goes unnoticed beside a valid first one.
invalid_beside_valid :
    get_cluster_ip_family (record legacy {
      network = some (record { pods = some ("10.0.0.0/8" ∷ "bad" ∷ []); services = none });
    })
    ≡ ("V4", none)
unfolding get_cluster_ip_family ip_family_of_cidrs block_family ip_family_from_cidr_strings
    find_families combine_families primary_of_head get_ip_family_from_cidr parse_cidr to_4
invalid_beside_valid = refl

legacy_family : get_cluster_ip_family legacy ≡ ("V4", none)
unfolding get_cluster_ip_family ip_family_of_cidrs block_family ip_family_from_cidr_strings
    find_families combine_families primary_of_head get_ip_family_from_cidr parse_cidr to_4
legacy_family = refl

dual_head : get_ip_family_from_cidr "fd00:100:96::/48" ≡ "V6"
unfolding get_ip_family_from_cidr parse_cidr to_4
dual_head = refl

validate_cluster_ip_family_iff_example :
    (validate_cluster_ip_family dual (adc_of "adc" no_selector) true ≡ none)
    ↔ ((get_cluster_ip_family dual).1 ≡ none)
      × IsSupported (get_cluster_ip_family dual).0 (adc_ip_family (adc_of "adc" no_selector)) true
validate_cluster_ip_family_iff_example =
    validate_cluster_ip_family_iff dual (adc_of "adc" no_selector) true
