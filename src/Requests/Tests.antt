-- ===== src/Requests/Tests.antt =====
-- Tests of the handlers of events, and a witness.
use load_balancer_operator_f.Requests.{
  delete_ako_stateful_set, skip_service, ako_deployment_config_for_cluster, Answers,
  stateful_set_deleted, service_to_cluster,
}
use load_balancer_operator_f.AkoOperator.{is_bootstrap_cluster}
use load_balancer_operator_f.Go.Text.{contains_text}
use load_balancer_operator_f.Mapping.{
  is_default_wc_adc, verdict, choose_adc, get_ako_deployment_config_for_cluster, skip_cluster,
}
use load_balancer_operator_f.Prelude.{
  lookup, String, Bool, true, false, none, some, [], ◌∷◌, ◌≡◌, refl,
}
use load_balancer_operator_f.Go.Int.{pos}
use load_balancer_operator_f.Kube.{ok, NamespacedName}
use load_balancer_operator_f.Kube.Interfaces.{Env}
use load_balancer_operator_f.Api.{AkoDeploymentConfig}
use load_balancer_operator_f.Samples.{no_env, meta_of, legacy, no_selector, adc_of, label_selectors}
use load_balancer_operator_f.Samples.Libraries.{list_conditions}
use load_balancer_operator_f.HaProvider.Handlers.{Service}
use load_balancer_operator_f.Requests.Selected.{
  IsManaged, ako_deployment_config_for_cluster-IsManaged,
}

abbrev default_adc : AkoDeploymentConfig
default_adc = adc_of "install-ako-for-all" no_selector

abbrev asks_default : NamespacedName
asks_default = record { namespace = ""; name = "install-ako-for-all" }

ako_deployment_config_for_cluster-IsManaged_example :
    IsManaged no_env list_conditions label_selectors (default_adc ∷ []) legacy asks_default
unfolding lookup ako_deployment_config_for_cluster skip_cluster
    get_ako_deployment_config_for_cluster choose_adc verdict is_default_wc_adc
ako_deployment_config_for_cluster-IsManaged_example =
    ako_deployment_config_for_cluster-IsManaged no_env list_conditions label_selectors
      (default_adc ∷ []) legacy asks_default refl refl refl

abbrev plane_service : String → Bool → Service
plane_service kind deleting = record {
  metadata = record (meta_of "default" "default-c-control-plane") {
    annotations = ("tkg.tanzu.vmware.com/cluster-name", "c") ∷ [];
    deleting = deleting;
  };
  owner_references = [];
  kind = kind;
  ip_families = [];
  port = pos 6443;
  target_port = pos 6443;
  load_balancer_ip = "";
  ingress = [];
}

abbrev server : Answers
server = record {
  get_stateful_set = λ key. ok key;
  delete_stateful_set = λ key. none;
  get_cluster = λ key. ok legacy;
}

abbrev bootstrap : Env
bootstrap key = some "True"

-- In the bootstrap cluster the deletion of the service deletes AKO, and nothing is reconciled.
deletes_ako :
    service_to_cluster server bootstrap (plane_service "LoadBalancer" true)
    ≡ (stateful_set_deleted (record { namespace = "tkg-system"; name = "ako" }) ∷ [], [])
unfolding service_to_cluster skip_service contains_text is_bootstrap_cluster delete_ako_stateful_set
deletes_ako = refl

skips_other_kind : service_to_cluster server no_env (plane_service "ClusterIP" false) ≡ ([], [])
unfolding service_to_cluster skip_service
skips_other_kind = refl

asks_for_cluster :
    service_to_cluster server no_env (plane_service "LoadBalancer" false)
    ≡ ([], record { namespace = legacy.namespace; name = legacy.name } ∷ [])
unfolding service_to_cluster skip_service contains_text is_bootstrap_cluster
asks_for_cluster = refl
