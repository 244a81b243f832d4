-- ===== src/IpFamily.antt =====
-- pkg/utils/get_ipfamily.go: the IP family of a cluster from its pod and service ranges, and
-- ValidateClusterIpFamily of controllers/akodeploymentconfig/cluster/cluster_controller_addon_secret.go.
-- The proofs are in IpFamily/Primary.antt and IpFamily/Validate.antt.
pub mod Primary
pub mod Validate
mod Tests
use load_balancer_operator_f.Prelude.{
  String, ◌⧺◌, Bool, true, false, not, ◌&&◌, ◌||◌, Option, none, some, List, [], ◌∷◌, ltb, ◌==◌,
  if◌then◌else◌, length, is_empty,
}
use load_balancer_operator_f.Go.Net.{Ip, IpNet, parse_cidr, to_4}
use load_balancer_operator_f.Kube.{Error, message, wrap, Cluster, ClusterNetwork}
use load_balancer_operator_f.Api.{AkoDeploymentConfig}

abbrev pub invalid_ip_family : String
invalid_ip_family = "INVALID"

abbrev pub ipv4_ip_family : String
ipv4_ip_family = "V4"

abbrev pub ipv6_ip_family : String
ipv6_ip_family = "V6"

abbrev pub dual_stack_ip_family : String
dual_stack_ip_family = "Dual-Stack"

abbrev pub dual_stack_ipv6_primary : String
dual_stack_ipv6_primary = "V6,V4"

abbrev pub dual_stack_ipv4_primary : String
dual_stack_ipv4_primary = "V4,V6"

abbrev family_of_parsed : Option (Ip × IpNet) → String
family_of_parsed none = invalid_ip_family
family_of_parsed (some (addr, _)) = if is_empty (to_4 addr) then ipv6_ip_family else ipv4_ip_family

unfoldable pub get_ip_family_from_cidr : String → String
get_ip_family_from_cidr cidr = family_of_parsed (parse_cidr cidr)

-- The loop of ipFamilyFromCIDRStrings, over foundIPv4 and foundIPv6.
unfoldable pub find_families : Bool → Bool → List String → Bool × Bool
find_families found4 found6 [] = (found4, found6)
find_families found4 found6 (cidr ∷ cidrs) =
    let kind = get_ip_family_from_cidr cidr in
    find_families (found4 || kind == ipv4_ip_family)
      (found6 || (not (kind == ipv4_ip_family) && kind == ipv6_ip_family)) cidrs

abbrev family_of_found : Bool × Bool → String × Option Error
family_of_found (found4, found6) =
    if found4 && found6
    then (dual_stack_ip_family, none)
    else if found4
    then (ipv4_ip_family, none)
    else if found6
    then (ipv6_ip_family, none)
    else (invalid_ip_family, some (message "Invalid IP Family"))

unfoldable pub ip_family_from_cidr_strings : List String → String × Option Error
ip_family_from_cidr_strings cidrs =
    if ltb 2 (length cidrs)
    then (invalid_ip_family, some (message "too many CIDRs specified"))
    else family_of_found (find_families false false cidrs)

-- A range block that is nil has no ranges.
abbrev pub blocks : Option (List String) → List String
blocks none = []
blocks (some cidrs) = cidrs

abbrev pub pod_cidrs : Option ClusterNetwork → List String
pod_cidrs none = []
pod_cidrs (some n) = blocks n.pods

abbrev pub service_cidrs : Option ClusterNetwork → List String
service_cidrs none = []
service_cidrs (some n) = blocks n.services

-- The family of one non-empty block; the empty string, Go's zero value, of an empty one.
unfoldable pub block_family : List String → String × Option Error
block_family [] = ("", none)
block_family (cidr ∷ cidrs) = ip_family_from_cidr_strings (cidr ∷ cidrs)

-- `cidrs[0]`, taken only of a dual-stack block, which is not empty
unfoldable pub primary_of_head : List String → String
primary_of_head [] = dual_stack_ipv6_primary
primary_of_head (cidr ∷ cidrs) =
    if get_ip_family_from_cidr cidr == ipv4_ip_family
    then dual_stack_ipv4_primary
    else dual_stack_ipv6_primary

-- The part of GetClusterIPFamily below the two family computations.
unfoldable pub combine_families :
    List String → List String → String → String → String × Option Error
combine_families pods services pods_family services_family =
    if not (pods_family == services_family) && not (is_empty pods) && not (is_empty services)
    then (invalid_ip_family, some (message "pods and services IP family mismatch"))
    else if pods_family == dual_stack_ip_family
    then (primary_of_head pods, none)
    else if services_family == dual_stack_ip_family
    then (primary_of_head services, none)
    else if is_empty pods
    then (services_family, none)
    else (pods_family, none)

abbrev with_services :
    List String → List String → String → String × Option Error → String × Option Error
with_services pods services pods_family (family, some e) =
    (invalid_ip_family, some (wrap "services" e))
with_services pods services pods_family (family, none) =
    combine_families pods services pods_family family

abbrev with_pods : List String → List String → String × Option Error → String × Option Error
with_pods pods services (family, some e) = (invalid_ip_family, some (wrap "pods" e))
with_pods pods services (family, none) = with_services pods services family (block_family services)

unfoldable pub ip_family_of_cidrs : List String → List String → String × Option Error
ip_family_of_cidrs pods services =
    if is_empty pods && is_empty services
    then (ipv4_ip_family, none)
    else with_pods pods services (block_family pods)

unfoldable pub get_cluster_ip_family : Cluster → String × Option Error
get_cluster_ip_family c = ip_family_of_cidrs (pod_cidrs c.network) (service_cidrs c.network)

abbrev primary_of : String × Option Error → String × Option Error
primary_of (family, some e) = (invalid_ip_family, some (wrap "Invalid IP Family" e))
primary_of (family, none) =
    if family == ipv4_ip_family || family == dual_stack_ipv4_primary
    then (ipv4_ip_family, none)
    else (ipv6_ip_family, none)

unfoldable pub get_primary_ip_family : Cluster → String × Option Error
get_primary_ip_family c = primary_of (get_cluster_ip_family c)

-- The family that the AKODeploymentConfig asks for, V4 where it asks for none.
abbrev pub adc_ip_family : AkoDeploymentConfig → String
adc_ip_family adc =
    if adc.spec.extra_configs.ip_family == ""
    then ipv4_ip_family
    else adc.spec.extra_configs.ip_family

abbrev validate_families : String → Bool → String × Option Error → Option Error
validate_families adc_family is_vip_provider (family, some e) = some e
validate_families adc_family is_vip_provider (family, none) =
    if family == ipv6_ip_family || family == dual_stack_ipv6_primary
    then some (message "AKO doesn't work in IPv6 single-stack and IPv6 Primary dual-stack cluster")
    else if adc_family == ipv6_ip_family && family == ipv4_ip_family
    then some (
        message (
          "AKO with IP family " ⧺ adc_family ⧺ " can not work together with cluster with IP family "
          ⧺ family))
    else if is_vip_provider && adc_family == ipv6_ip_family && family == dual_stack_ipv4_primary
    then some (
        message
          "when enabling avi as control plane HA, AKO with IP family V6 can not work together with ipv4 primary dual-stack cluster")
    else none

unfoldable pub validate_cluster_ip_family : Cluster → AkoDeploymentConfig → Bool → Option Error
validate_cluster_ip_family cluster adc is_vip_provider =
    validate_families (adc_ip_family adc) is_vip_provider (get_cluster_ip_family cluster)
