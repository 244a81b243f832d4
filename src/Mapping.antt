-- ===== src/Mapping.antt =====
-- pkg/ako-operator/akodeploymentconfig_cluster_mapping_helper.go: which clusters an
-- AKODeploymentConfig manages, which AKODeploymentConfig manages a cluster, and the label that
-- records it. What the API server answers to a List or a Get is an argument.
pub mod Select
pub mod Choose
pub mod Label
mod Tests
use load_balancer_operator_f.Prelude.{
  String, Bool, true, false, not, ◌&&◌, Option, none, some, List, [], ◌∷◌, lookup, insert, delete,
  ◌==◌, if◌then◌else◌, keep, Dict,
}
use load_balancer_operator_f.Kube.{Error, Result, ok, err, ◌>>=◌, Cluster, Selector}
use load_balancer_operator_f.Kube.Interfaces.{Env, Selectors, Conditions}
use load_balancer_operator_f.Api.{AkoDeploymentConfig}
use load_balancer_operator_f.Api.Constants.{
  tkg_system_namespace, management_cluster_ako_deployment_config,
  workload_cluster_ako_deployment_config, avi_cluster_label, ready_condition,
}
use load_balancer_operator_f.AkoOperator.{is_bootstrap_cluster}

unfoldable pub skip_cluster : Env → Conditions → Cluster → Bool
skip_cluster env cond cluster =
    cond.is_false cluster.conditions ready_condition
    && not cluster.deleting
    && not (is_bootstrap_cluster env)

unfoldable pub is_default_wc_adc : String → Bool
is_default_wc_adc name = name == workload_cluster_ako_deployment_config

abbrev empty_or_error : Result Selector → Bool
empty_or_error (err e) = false
empty_or_error (ok s) = s.empty

-- `get` answers the Get of the default AKODeploymentConfig.
unfoldable pub default_adc_has_empty_selector : Selectors → Result AkoDeploymentConfig → Bool
default_adc_has_empty_selector sel (err e) = false
default_adc_has_empty_selector sel (ok adc) =
    empty_or_error (sel.as_selector adc.spec.cluster_selector)

-- A cluster that carries the label of another AKODeploymentConfig can be taken over only from the
-- default one, and only while that one has an empty selector.
abbrev may_take : String → Bool → Option String → Bool
may_take name default_is_empty none = true
may_take name default_is_empty (some owner) =
    if owner == name then true else is_default_wc_adc owner && default_is_empty

-- The body of the loop: true where the cluster is appended to newItems.
unfoldable pub selects : Env → Conditions → String → Bool → Cluster → Bool
selects env cond name default_is_empty cluster =
    if skip_cluster env cond cluster
    then false
    else if cluster.namespace == tkg_system_namespace
        && not (name == management_cluster_ako_deployment_config)
    then false
    else may_take name default_is_empty (lookup avi_cluster_label cluster.labels)

-- The list of errors is always empty, so its aggregate is nil.
unfoldable pub list_ako_deployment_config_select_clusters :
    Env
    → Conditions
    → Selectors
    → (Selector → Result (List Cluster))
    → Result AkoDeploymentConfig
    → AkoDeploymentConfig
    → Result (List Cluster)
list_ako_deployment_config_select_clusters env cond sel list get obj = do
  selector ← sel.as_selector obj.spec.cluster_selector
  clusters ← list selector
  ok (keep (selects env cond obj.name (default_adc_has_empty_selector sel get)) clusters)

-- One AKODeploymentConfig in the loop of GetAKODeploymentConfigForCluster: it is passed over, is
-- kept as the default, or is returned.
pub data Verdict : Type 0 where
  pass keep_default choose : Verdict

abbrev verdict_of : String → Dict String → Result Selector → Verdict
verdict_of name labels (err e) = pass
verdict_of name labels (ok s) =
    if s.empty
    then (if is_default_wc_adc name then keep_default else pass)
    else if s.matches labels
    then choose
    else pass

unfoldable pub verdict : Selectors → Dict String → AkoDeploymentConfig → Verdict
verdict sel labels adc = verdict_of adc.name labels (sel.as_selector adc.spec.cluster_selector)

-- The zero value of defaultAdc has the empty name and is never returned.
abbrev held_after :
    Verdict → AkoDeploymentConfig → Option AkoDeploymentConfig → Option AkoDeploymentConfig
held_after keep_default adc held = some adc
held_after _ adc held = held

abbrev chosen :
    Verdict → AkoDeploymentConfig → Option AkoDeploymentConfig → Option AkoDeploymentConfig
chosen choose adc rest = some adc
chosen _ adc rest = rest

unfoldable pub choose_adc :
    Selectors
    → Dict String
    → Option AkoDeploymentConfig
    → List AkoDeploymentConfig
    → Option AkoDeploymentConfig
choose_adc sel labels default_adc [] = default_adc
choose_adc sel labels default_adc (adc ∷ adcs) =
    let v = verdict sel labels adc in
    let rest = choose_adc sel labels (held_after v adc default_adc) adcs in chosen v adc rest

unfoldable pub get_ako_deployment_config_for_cluster :
    Selectors → Result (List AkoDeploymentConfig) → Cluster → Result (Option AkoDeploymentConfig)
get_ako_deployment_config_for_cluster sel list cluster = do
  adcs ← list
  ok (choose_adc sel cluster.labels none adcs)

unfoldable pub apply_cluster_label : Cluster → AkoDeploymentConfig → Cluster
apply_cluster_label cluster obj = record cluster {
  metadata = record cluster.metadata { labels = insert avi_cluster_label obj.name cluster.labels };
}

unfoldable pub remove_cluster_label : Cluster → Cluster
remove_cluster_label cluster = record cluster {
  metadata = record cluster.metadata { labels = delete avi_cluster_label cluster.labels };
}
