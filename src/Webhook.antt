-- ===== src/Webhook.antt =====
-- api/v1alpha1/akodeploymentconfig_webhook.go: which AKODeploymentConfigs the admission webhook
-- accepts. A check gives the list of its field errors. Here are the checks that read the object alone;
-- those that ask the API server or the AVI Controller are in Webhook/Admission.antt.
pub mod Pools
pub mod Admission
mod Tests
use load_balancer_operator_f.Prelude.{
  String, Bool, true, false, not, ◌&&◌, ◌||◌, Option, none, some, List, [], ◌∷◌, ◌++◌, ◌==◌, ◌⧺◌,
  if◌then◌else◌, is_empty, is_some, all,
}
use load_balancer_operator_f.Go.Int.{ℤ, pos, lt_int}
use load_balancer_operator_f.Go.Text.{codes, split, decimal}
use load_balancer_operator_f.Go.Net.{
  Ip, IpNet, parse_ip, parse_cidr, to_4, to_16, contains, greater,
}
use load_balancer_operator_f.Kube.{Error, Result, ok, err, LabelSelector, Selector}
use load_balancer_operator_f.Kube.Interfaces.{Selectors}
use load_balancer_operator_f.Api.{AkoDeploymentConfig, IpPool}
use load_balancer_operator_f.Api.Constants.{
  management_cluster_ako_deployment_config, workload_cluster_ako_deployment_config,
}

-- field.Error: the path of the field and the detail
pub record FieldError : Type 0 where
  pub path : String
  pub detail : String

abbrev pub issue : String → String → List FieldError
issue path detail = record { path = path; detail = detail } ∷ []

-- `some` of an issue where the test holds.
abbrev pub issue_if : Bool → String → String → List FieldError
issue_if b path detail = if b then issue path detail else []

unfoldable pub validate_delete : AkoDeploymentConfig → List FieldError
validate_delete obj =
    issue_if (obj.name == management_cluster_ako_deployment_config) "spec.ClusterSelector"
      "can't delete akodeploymentconfig object for management cluster"

-- The call of Empty on the nil selector that comes beside an error panics.
abbrev pub selector_issues : Bool → Result Selector → Option (List FieldError)
selector_issues is_default (err e) =
    if is_default then some (issue "spec.ClusterSelector" "invalid selector") else none
selector_issues is_default (ok s) = some (
    issue_if (not is_default && s.empty) "spec.ClusterSelector"
      "field should not be empty for non-default ADC")

abbrev pub check_selector : Selectors → AkoDeploymentConfig → Option (List FieldError)
check_selector sel obj =
    selector_issues (obj.name == workload_cluster_ako_deployment_config)
      (sel.as_selector obj.spec.cluster_selector)

abbrev pub same_selector : Selectors → AkoDeploymentConfig → AkoDeploymentConfig → Bool
same_selector sel old obj = sel.text old.spec.cluster_selector == sel.text obj.spec.cluster_selector

-- `none` as the old object is a creation; `none` as the value is a panic.
unfoldable pub validate_cluster_selector :
    Selectors → Option AkoDeploymentConfig → AkoDeploymentConfig → Option (List FieldError)
validate_cluster_selector sel none obj = check_selector sel obj
validate_cluster_selector sel (some old) obj =
    if same_selector sel old obj
    then check_selector sel obj
    else some (issue "spec.ClusterSelector" "field should not be changed")

abbrev pub count_issues : Option ℤ → List FieldError
count_issues none = []
count_issues (some n) =
    issue_if (lt_int n (pos 1) || lt_int (pos 2) n) "spec.extraConfigs.replicaCount"
      "replica count must be 1 or 2"

unfoldable pub validate_replica_count : AkoDeploymentConfig → List FieldError
validate_replica_count obj = count_issues obj.spec.extra_configs.replica_count

-- The regular expression ^\d+(\.\d+)*$ : numerals between dots.
unfoldable pub is_version : String → Bool
is_version s = all (λ piece. is_some (decimal piece)) (split b'.' (codes s))

unfoldable pub validate_avi_controller_version : AkoDeploymentConfig → List FieldError
validate_avi_controller_version obj =
    issue_if
      (not (obj.spec.controller_version == "") && not (is_version obj.spec.controller_version))
      "spec.ControllerVersion" "invalid controller version format"

abbrev pub pools_path : String
pools_path = "spec.dataNetwork.ipPools"

-- The errors of one pool, up to the comparison of the types.
unfoldable pub pool_issues : IpNet → IpPool → List FieldError
pool_issues net pool =
    let start = parse_ip pool.start in
    let end = parse_ip pool.end in
    issue_if (is_empty start) pools_path ("ip pool address" ⧺ pool.start ⧺ " is not valid")
    ++ issue_if (is_empty end) pools_path ("ip pool address" ⧺ pool.end ⧺ " is not valid")
    ++ issue_if (not (contains net start) || not (contains net end)) pools_path
        ("Range [" ⧺ pool.start ⧺ "," ⧺ pool.end ⧺ "] is not in cidr")
    ++ issue_if (greater start end) pools_path (pool.start ⧺ " is greater than " ⧺ pool.end)

abbrev pub prepend : List FieldError → Option (List FieldError) → Option (List FieldError)
prepend es none = none
prepend es (some fs) = some (es ++ fs)

-- The loop over the pools. A wrong type ends it; a pool beside a CIDR that does not parse panics.
unfoldable pub pools_issues : Option IpNet → String → List IpPool → Option (List FieldError)
pools_issues net addr_type [] = some []
pools_issues none addr_type (pool ∷ pools) = none
pools_issues (some net) addr_type (pool ∷ pools) =
    let rest = pools_issues (some net) addr_type pools in
    prepend (pool_issues net pool) (
      if pool.kind == addr_type
      then rest
      else some (issue pools_path "data plane network ip pools type is not aligned with cidr"))

abbrev pub family_of_ip : Ip → String
family_of_ip addr =
    if not (is_empty (to_4 addr))
    then "V4"
    else if not (is_empty (to_16 addr))
    then "V6"
    else "INVALID"

abbrev pub pools_list : Option (List IpPool) → List IpPool
pools_list none = []
pools_list (some pools) = pools

abbrev pub cidr_issues : String → Option (Ip × IpNet) → List IpPool → Option (List FieldError)
cidr_issues cidr none pools =
    prepend (issue "spec.dataNetwork.cidr" ("data plane network cidr " ⧺ cidr ⧺ " is not valid"))
      (pools_issues none "INVALID" pools)
cidr_issues cidr (some (addr, net)) pools = pools_issues (some net) (family_of_ip addr) pools

abbrev pub missing_if : Option Error → String → String → List FieldError
missing_if none path detail = []
missing_if (some e) path detail = issue path detail

-- `network` is the error of the lookup of the network in the AVI Controller.
unfoldable pub validate_avi_data_networks :
    Option Error → AkoDeploymentConfig → Option (List FieldError)
validate_avi_data_networks network obj =
    prepend (missing_if network "spec.dataNetwork.name" "failed to get data plane network") (
      cidr_issues obj.spec.data_network.cidr (parse_cidr obj.spec.data_network.cidr)
        (pools_list obj.spec.data_network.ip_pools))

unfoldable pub validate_avi_control_plane_networks :
    Option Error → AkoDeploymentConfig → List FieldError
validate_avi_control_plane_networks network obj =
    if obj.spec.control_plane_network.name == "" || obj.spec.control_plane_network.cidr == ""
    then []
    else missing_if network "spec.controlPlaneNetwork.name" "failed to get control plane network"
      ++ issue_if (not (is_some (parse_cidr obj.spec.control_plane_network.cidr)))
          "spec.controlPlaneNetwork.cidr" "control plane network cidr is not valid"
