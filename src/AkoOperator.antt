-- ===== src/AkoOperator.antt =====
-- pkg/ako-operator/lib.go: what the environment and the topology variables of a cluster say about
-- the load balancer, the control plane endpoint and its port. Where Go returns a value beside the
-- error, so do the functions here. The proofs are in AkoOperator/Endpoint.antt and Port.antt.
pub mod Endpoint
pub mod Port
mod Tests
use load_balancer_operator_f.Prelude.{
  ℕ, String, Bool, true, false, not, ◌&&◌, Option, none, some, List, [], ◌∷◌, ◌++◌, Dict, index,
  ◌==◌, if◌then◌else◌, ltb, ◌-◌, ◌^◌, ◌%◌,
}
use load_balancer_operator_f.Go.Int.{ℤ, pos, negsuc, lt_int}
use load_balancer_operator_f.Go.Strconv.{atoi}
use load_balancer_operator_f.Go.Json.{
  Json, JsonError, unmarshal_bool, unmarshal_string, unmarshal_int, marshal_string,
}
use load_balancer_operator_f.Kube.{Error, message, json, Cluster, ClusterVariable}
use load_balancer_operator_f.Kube.Interfaces.{Env}

abbrev pub avi_api_server_ha_provider : String
avi_api_server_ha_provider = "aviAPIServerHAProvider"

abbrev pub kube_vip_load_balancer_provider : String
kube_vip_load_balancer_provider = "kubeVipLoadBalancerProvider"

abbrev pub api_server_endpoint : String
api_server_endpoint = "apiServerEndpoint"

abbrev pub api_server_port : String
api_server_port = "apiServerPort"

abbrev pub cluster_control_plane_annotations : String
cluster_control_plane_annotations = "tkg.tanzu.vmware.com/cluster-controlplane-endpoint"

abbrev pub control_plane_endpoint_port : String
control_plane_endpoint_port = "control_plane_endpoint_port"

abbrev is_true_text : Option String → Bool
is_true_text none = false
is_true_text (some v) = v == "True"

-- `os.Getenv(key) == "True"`
abbrev env_is_true : Env → String → Bool
env_is_true env key = is_true_text (env key)

unfoldable pub is_bootstrap_cluster : Env → Bool
is_bootstrap_cluster env = env_is_true env "bootstrap_cluster"

unfoldable pub is_cluster_class_enabled : Env → Bool
is_cluster_class_enabled env = env_is_true env "cluster_class_enabled"

abbrev has_topology : Option (List ClusterVariable) → Bool
has_topology none = false
has_topology (some _) = true

unfoldable pub is_cluster_class_based_cluster : Cluster → Bool
is_cluster_class_based_cluster cluster = has_topology cluster.topology

-- The loops over the variables: the value of the first one with the name.
unfoldable pub find_variable : String → List ClusterVariable → Option Json
find_variable name [] = none
find_variable name (v ∷ vs) =
    let rest = find_variable name vs in if v.name == name then some v.value else rest

-- The variable of a classy cluster, and nothing of a legacy one.
unfoldable pub topology_variable : String → Option (List ClusterVariable) → Option Json
topology_variable name none = none
topology_variable name (some vs) = find_variable name vs

abbrev json_error : {A : Type 0} → A × Option JsonError → A × Option Error
json_error (a, none) = (a, none)
json_error (a, some e) = (a, some (json e))

abbrev vip_of_variable : Bool → Option Json → Bool × Option Error
vip_of_variable from_env none = (from_env, none)
vip_of_variable from_env (some raw) = json_error (unmarshal_bool raw false)

unfoldable pub is_control_plane_vip_provider : Env → Cluster → Bool × Option Error
is_control_plane_vip_provider env cluster =
    vip_of_variable (env_is_true env "avi_control_plane_ha_provider")
      (topology_variable avi_api_server_ha_provider cluster.topology)

abbrev negate_provider : Bool × Option JsonError → Bool × Option Error
negate_provider (kube_vip, none) = (not kube_vip, none)
negate_provider (kube_vip, some e) = (true, some (json e))

abbrev lb_of_variable : Option Json → Bool × Option Error
lb_of_variable none = (true, none)
lb_of_variable (some raw) = negate_provider (unmarshal_bool raw false)

unfoldable pub is_load_balancer_provider : Cluster → Bool × Option Error
is_load_balancer_provider cluster =
    lb_of_variable (topology_variable kube_vip_load_balancer_provider cluster.topology)

abbrev endpoint_of_variable : String → String → Option Json → String × Option Error
endpoint_of_variable annotated host (some raw) = json_error (unmarshal_string raw annotated)
endpoint_of_variable annotated host none =
    if annotated == "" then (host, none) else (annotated, none)

unfoldable pub get_control_plane_endpoint : Cluster → String × Option Error
get_control_plane_endpoint cluster =
    endpoint_of_variable (index cluster_control_plane_annotations cluster.annotations) cluster.host
      (topology_variable api_server_endpoint cluster.topology)

-- The first variable with the name is overwritten; without one, a new variable is appended.
unfoldable pub set_variable : String → Json → List ClusterVariable → List ClusterVariable
set_variable name raw [] = record { name = name; value = raw } ∷ []
set_variable name raw (v ∷ vs) =
    if v.name == name then record v { value = raw } ∷ vs else v ∷ set_variable name raw vs

abbrev set_topology : String → Json → Option (List ClusterVariable) → Option (List ClusterVariable)
set_topology name raw none = none
set_topology name raw (some vs) = some (set_variable name raw vs)

unfoldable pub set_control_plane_endpoint : Cluster → String → Cluster
set_control_plane_endpoint cluster endpoint = record cluster {
  topology = set_topology api_server_endpoint (marshal_string endpoint) cluster.topology;
}

unfoldable pub validate_port_number : ℤ → Bool
validate_port_number number = lt_int (pos 0) number && lt_int number (pos 65536)

-- `int32(n)`: the low 32 bits, as a signed number.
unfoldable pub to_int32 : ℤ → ℤ
to_int32 (pos n) = let m = n % 2 ^ 32 in if ltb m (2 ^ 31) then pos m else negsuc (2 ^ 32 - 1 - m)
to_int32 (negsuc n) =
    let m = n % 2 ^ 32 in if ltb m (2 ^ 31) then negsuc m else pos (2 ^ 32 - 1 - m)

abbrev pub default_port : ℤ
default_port = pos 6443

-- A number that was read, once its range is checked.
unfoldable pub checked_port : ℤ → ℤ × Option Error
checked_port n =
    if validate_port_number n
    then (to_int32 n, none)
    else (default_port, some (message "port number is not in valid range [1,65535]"))

abbrev port_of_json : ℤ × Option JsonError → ℤ × Option Error
port_of_json (n, some e) = (default_port, some (json e))
port_of_json (n, none) = checked_port n

abbrev port_of_text : Option ℤ → ℤ × Option Error
port_of_text none = (default_port, some (message "strconv.Atoi: parsing port"))
port_of_text (some n) = checked_port n

abbrev port_of_env : Option String → ℤ × Option Error
port_of_env none = (default_port, none)
port_of_env (some text) = port_of_text (atoi text)

abbrev port_of_variable : Option Json → ℤ × Option Error
port_of_variable none = (to_int32 default_port, none)
port_of_variable (some raw) = port_of_json (unmarshal_int raw default_port)

unfoldable pub get_control_plane_endpoint_port : Env → Cluster → ℤ × Option Error
get_control_plane_endpoint_port env cluster =
    if is_cluster_class_based_cluster cluster
    then port_of_variable (topology_variable api_server_port cluster.topology)
    else port_of_env (env control_plane_endpoint_port)
