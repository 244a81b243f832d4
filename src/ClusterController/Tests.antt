-- ===== src/ClusterController/Tests.antt =====
-- A legacy cluster that the default AKODeploymentConfig takes, one that nothing takes, and one whose control
-- plane has an AVI load balancer.
use load_balancer_operator_f.Prelude.{
  true, some, none, [], ◌∷◌, ◌≡◌, refl, lookup, insert, delete, List,
}
use load_balancer_operator_f.Go.Json.{bool}
use load_balancer_operator_f.Kube.{status, not_found, ok, err, Cluster}
use load_balancer_operator_f.Kube.Exec.{pure}
use load_balancer_operator_f.Api.{AkoDeploymentConfig}
use load_balancer_operator_f.Api.Constants.{cluster_finalizer, avi_cluster_label}
use load_balancer_operator_f.Samples.{meta_of, no_env, legacy, adc_of, no_selector, label_selectors}
use load_balancer_operator_f.Samples.Libraries.{list_finalizers}
use load_balancer_operator_f.HaProvider.Handlers
use load_balancer_operator_f.ClusterController.{
  Answers, reconcile_cluster, reconcile, reconcile_labels, settle,
}
use load_balancer_operator_f.AkoOperator.{
  is_control_plane_vip_provider, is_load_balancer_provider, topology_variable,
}
use load_balancer_operator_f.Mapping.{
  get_ako_deployment_config_for_cluster, choose_adc, verdict, is_default_wc_adc,
  apply_cluster_label, remove_cluster_label,
}
use load_balancer_operator_f.ClusterController.Labels.{IsReconciled, reconcile_cluster-IsReconciled}

-- No service and no Endpoints exist; a service that is created has an address at once.
abbrev ha : Handlers.Answers
ha = record {
  get_cluster = λ k. ok legacy;
  list_adcs = ok [];
  get_infra_setting = λ name. err (status not_found);
  get_endpoints = λ k. err (status not_found);
  create_endpoints = λ e. ok e;
  update_endpoints = λ e. ok e;
  get_service = λ k. err (status not_found);
  create_service = λ s. ok (record s { ingress = "10.0.0.1" ∷ [] });
  update_service = λ s. ok s;
  query_fqdn = λ s. ok "10.0.0.2";
}

abbrev lost : Cluster
lost = record legacy {
  metadata = record (meta_of "default" "wc") {
    labels = (avi_cluster_label, "team-a") ∷ [];
    finalizers = cluster_finalizer ∷ [];
  };
}

abbrev balanced : Cluster
balanced = record lost {
  topology = some (record { name = "aviAPIServerHAProvider"; value = bool true } ∷ []);
}

abbrev server : Cluster → List AkoDeploymentConfig → Answers
server cluster adcs = record {
  get_cluster = ok cluster;
  new_helper = λ c. none;
  patch = λ c. none;
  list_adcs = ok adcs;
}

abbrev everyone : List AkoDeploymentConfig
everyone = adc_of "install-ako-for-all" no_selector ∷ []

lost_test : (reconcile no_env list_finalizers label_selectors ha (server lost [])).0 ≡ some legacy
unfolding reconcile reconcile_cluster is_control_plane_vip_provider topology_variable
    reconcile_labels is_load_balancer_provider get_ako_deployment_config_for_cluster settle
    choose_adc pure remove_cluster_label delete
lost_test = refl

taken_test :
    lookup avi_cluster_label
      (reconcile_cluster no_env list_finalizers label_selectors ha
        (server lost everyone)
        lost).0.labels
    ≡ some "install-ako-for-all"
unfolding reconcile_cluster lookup is_control_plane_vip_provider topology_variable reconcile_labels
    is_load_balancer_provider get_ako_deployment_config_for_cluster settle choose_adc verdict
    is_default_wc_adc apply_cluster_label insert
taken_test = refl

reconcile_cluster-IsReconciled_example :
    let r =
      reconcile_cluster no_env list_finalizers label_selectors ha
        (server balanced everyone)
        balanced in
    IsReconciled no_env list_finalizers label_selectors ha
      (server balanced everyone)
      balanced
      r.0
      r.1.1
reconcile_cluster-IsReconciled_example =
    reconcile_cluster-IsReconciled no_env list_finalizers label_selectors ha
      (server balanced everyone) balanced
