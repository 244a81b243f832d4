-- ===== src/AkoOperator/Tests.antt =====
-- Runs of the functions of lib.go, and the theorems at concrete clusters.
use load_balancer_operator_f.Prelude.{true, false, none, some, [], ◌∷◌, ◌≡◌, refl, ◌⊎◌}
use load_balancer_operator_f.Go.Int.{pos}
use load_balancer_operator_f.Go.Json.{int, str, bool}
use load_balancer_operator_f.Kube.{Cluster}
use load_balancer_operator_f.AkoOperator.{
  is_cluster_class_based_cluster, is_load_balancer_provider, get_control_plane_endpoint,
  set_control_plane_endpoint, get_control_plane_endpoint_port, topology_variable, find_variable,
}
use load_balancer_operator_f.AkoOperator.Endpoint.{get-set_control_plane_endpoint}
use load_balancer_operator_f.AkoOperator.Port.{
  IsPort, IsDefault, get_control_plane_endpoint_port-IsPort,
}
use load_balancer_operator_f.Samples.{no_env, legacy, classy}

abbrev on_port : Cluster
on_port = record legacy {
  topology = some (record { name = "apiServerPort"; value = int (pos 70000) } ∷ []);
}

on_kube_vip :
    is_load_balancer_provider (record legacy {
      topology = some (record { name = "kubeVipLoadBalancerProvider"; value = bool true } ∷ []);
    })
    ≡ (false, none)
unfolding is_load_balancer_provider topology_variable find_variable
    load_balancer_operator_f.Go.Json.unmarshal_bool
on_kube_vip = refl

get-set_control_plane_endpoint_example :
    get_control_plane_endpoint (set_control_plane_endpoint classy "10.0.0.2") ≡ ("10.0.0.2", none)
unfolding is_cluster_class_based_cluster
get-set_control_plane_endpoint_example = get-set_control_plane_endpoint classy "10.0.0.2" refl

get_control_plane_endpoint_port-IsPort_example :
    let r = get_control_plane_endpoint_port no_env on_port in
    IsPort r.0 × ((r.1 ≡ none) ⊎ IsDefault r)
get_control_plane_endpoint_port-IsPort_example =
    get_control_plane_endpoint_port-IsPort no_env on_port
