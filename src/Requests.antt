-- ===== src/Requests.antt =====
-- The handlers that turn events into requests: pkg/handlers, and serviceToCluster with what it calls of
-- controllers/cluster/cluster_controller.go. An object of another type gives no request.
pub mod Selected
mod Tests
use load_balancer_operator_f.Prelude.{
  String, Bool, true, false, not, ◌&&◌, ◌||◌, Option, none, some, List, [], ◌∷◌, map, index, ◌==◌,
  if◌then◌else◌,
}
use load_balancer_operator_f.Go.Text.{contains_text}
use load_balancer_operator_f.Kube.{
  Error, is_not_found, Result, ok, err, Cluster, Machine, NamespacedName,
}
use load_balancer_operator_f.Kube.Interfaces.{Env, Conditions, Selectors}
use load_balancer_operator_f.Api.{AkoDeploymentConfig}
use load_balancer_operator_f.Api.Constants.{
  tkg_cluster_name_label, tkg_cluster_namespace_label, ha_service_name, ako_stateful_set_name,
  tkg_system_namespace,
}
use load_balancer_operator_f.AkoOperator.{is_bootstrap_cluster}
use load_balancer_operator_f.Mapping.{skip_cluster, get_ako_deployment_config_for_cluster}
use load_balancer_operator_f.HaProvider.Handlers.{Service}

abbrev pub request_of_machine : Machine → NamespacedName
request_of_machine machine = record { namespace = machine.namespace; name = machine.name }

abbrev pub requests_of_machines : Result (List Machine) → List NamespacedName
requests_of_machines (ok machines) = map request_of_machine machines
requests_of_machines (err e) = []

-- `list` answers the List of the machines in the namespace that are labelled with the name of the cluster.
unfoldable pub machines_for_cluster :
    Env → Conditions → (String → String → Result (List Machine)) → Cluster → List NamespacedName
machines_for_cluster env cond list cluster =
    if skip_cluster env cond cluster
    then []
    else requests_of_machines (list cluster.namespace cluster.name)

abbrev pub requests_of_adc : Result (Option AkoDeploymentConfig) → List NamespacedName
requests_of_adc (ok (some adc)) = record { namespace = ""; name = adc.name } ∷ []
requests_of_adc (ok none) = []
requests_of_adc (err e) = []

unfoldable pub ako_deployment_config_for_cluster :
    Env → Conditions → Selectors → Result (List AkoDeploymentConfig) → Cluster → List NamespacedName
ako_deployment_config_for_cluster env cond sel list cluster =
    if skip_cluster env cond cluster
    then []
    else requests_of_adc (get_ako_deployment_config_for_cluster sel list cluster)

unfoldable pub skip_service : Service → Bool
skip_service service =
    not (service.kind == "LoadBalancer") || not (contains_text service.name ha_service_name)

-- What the handler of services asks of the API server.
pub record Answers : Type 0 where
  pub get_stateful_set : NamespacedName → Result NamespacedName
  pub delete_stateful_set : NamespacedName → Option Error
  pub get_cluster : NamespacedName → Result Cluster

pub data Write : Type 0 where
  stateful_set_deleted : NamespacedName → Write

module _ (ans : Answers) where
  abbrev pub delete_found : Result NamespacedName → List Write × Option Error
  delete_found (ok found) = (stateful_set_deleted found ∷ [], ans.delete_stateful_set found)
  delete_found (err e) = if is_not_found e then ([], none) else ([], some e)

  unfoldable pub delete_ako_stateful_set : String → String → List Write × Option Error
  delete_ako_stateful_set name namespace =
      delete_found (ans.get_stateful_set (record { namespace = namespace; name = name }))

  abbrev pub request_of_cluster : Result Cluster → List NamespacedName
  request_of_cluster (ok cluster) =
      record { namespace = cluster.namespace; name = cluster.name } ∷ []
  request_of_cluster (err e) = []

  abbrev pub cluster_key : Service → NamespacedName
  cluster_key service = record {
    namespace = index tkg_cluster_namespace_label service.annotations;
    name = index tkg_cluster_name_label service.annotations;
  }

  -- The writes and the requests; the error of the deletion is logged.
  unfoldable pub service_to_cluster : Env → Service → List Write × List NamespacedName
  service_to_cluster env service =
      if skip_service service
      then ([], [])
      else if is_bootstrap_cluster env && service.deleting
      then ((delete_ako_stateful_set ako_stateful_set_name tkg_system_namespace).0, [])
      else ([], request_of_cluster (ans.get_cluster (cluster_key service)))
