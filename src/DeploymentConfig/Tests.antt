-- ===== src/DeploymentConfig/Tests.antt =====
-- Tests of the passes over an AKODeploymentConfig, and witnesses of their theorems.
use load_balancer_operator_f.HaProvider.{get_avi_infra_setting_name}
use load_balancer_operator_f.Reconciler.{
  AviInfraSetting, infra_created, infra_deleted, State, Answers, Server,
}
use load_balancer_operator_f.AviPhase.{
  reconcile_avi, reconcile_network_subnets, reconcile_cloud_usable_network,
  reconcile_avi_infra_setting, reconcile_controller_version, reconcile_avi_infra_setting_delete,
  reconcile_avi_delete, in_clusters, create_avi_infra_setting,
}
use load_balancer_operator_f.Phases.{reconcile_clusters_phases, phase_loop, reconcile_phases}
use load_balancer_operator_f.DeploymentConfig.{
  reconcile_clusters, reconcile_clusters_delete, requests_for, has_finalizer, reconcile_normal,
  delete_phases, reconcile_delete, without_finalizer, reconcile, secret_to_ako_deployment_config,
}
use load_balancer_operator_f.AviNetwork.Sorting.{insertion_sorter}
use load_balancer_operator_f.Mapping.{list_ako_deployment_config_select_clusters}
use load_balancer_operator_f.Prelude.{
  String, Bool, true, false, none, some, List, [], ◌∷◌, ◌≡◌, refl,
}
use load_balancer_operator_f.Kube.{status, message, not_found, Result, ok, err, Cluster, done}
use load_balancer_operator_f.Api.{AkoDeploymentConfig}
use load_balancer_operator_f.Api.Constants.{ako_deployment_config_finalizer}
use load_balancer_operator_f.Samples.{no_env, no_selector, adc_of, label_selectors}
use load_balancer_operator_f.Samples.Libraries.{list_finalizers, list_conditions, first_aggregates}
use load_balancer_operator_f.AviInit.{
  AviClient, AviState, Slot, no_client, nil_pointer, held, init_avi,
}
use load_balancer_operator_f.Kube.Exec.{◌>>=◌, read}
use load_balancer_operator_f.NetProvider.{add_usable_network, Answers as IpamAnswers}
use load_balancer_operator_f.AkoUser.Account.{Answers as UserAnswers}
use load_balancer_operator_f.AddonSecret.{Answers as AddonAnswers}
use load_balancer_operator_f.ClusterCleanup.{Answers as CleanupAnswers}
use load_balancer_operator_f.DeploymentConfig.Finalizer.{
  has_finalizer-reconcile_normal, is_kept, has_finalizer-reconcile_delete,
}
use load_balancer_operator_f.DeploymentConfig.Panic.{IsDropped, reconcile-IsDropped}
use load_balancer_operator_f.DeploymentConfig.Lifecycle.{
  stage_of, Life, History, starts, passes, marked, History-refines,
}
use load_balancer_operator_f.DeploymentConfig.Release.{Finishes, reconcile_delete-Finishes}

abbrev refused : {A : Type 0} → Result A
refused = err (message "refused")

abbrev network_answers : IpamAnswers
network_answers = record {
  cloud_by_name = λ name. refused;
  ipam_get = λ uuid. refused;
  network_by_name = λ name cloud. refused;
  ipam_update = λ ipam. refused;
}

abbrev user_answers : UserAnswers
user_answers = record {
  get_secret = λ k. refused;
  create_secret = λ s. refused;
  update_secret = λ s. refused;
  delete_secret = λ s. refused;
  controller_version = refused;
  user_by_name = λ name. refused;
  user_create = λ u. refused;
  user_update = λ u. refused;
  user_delete = λ name. refused;
  tenant_url = λ name. refused;
  role_by_name = λ name. refused;
  role_create = λ r. refused;
  role_update = λ r. refused;
  is_user_missing = λ e. false;
  is_role_missing = λ e. false;
  generated_password = "Aa1!Aa1!Aa";
}

abbrev addon_answers : AddonAnswers
addon_answers = record {
  get_user_secret = λ k. refused;
  get_service = λ k. refused;
  marshal = λ v. refused;
  get_addon = λ k. refused;
  create_addon = λ s. refused;
  update_addon = λ s. refused;
  delete_addon = λ s. refused;
  get_bootstrap = λ k. refused;
  new_helper = λ cb. none;
  patch_bootstrap = λ cb. refused;
  get_tkr = λ name. refused;
}

abbrev cleanup_answers : CleanupAnswers
cleanup_answers = record {
  remote_client = refused;
  get_secret = λ name. refused;
  delete_config = λ text. refused;
  marshal_deleting = λ text. refused;
  update_secret = λ name text. refused;
  get_stateful_set = refused;
}

-- The clusters that are selected, and the AviInfraSetting.
abbrev answers : Result (List Cluster) → Result AviInfraSetting → Answers
answers clusters infra = record {
  network_update = λ network. none;
  usable = network_answers;
  get_infra = λ name. infra;
  create_infra = λ setting. none;
  update_infra = λ setting. none;
  delete_infra = λ setting. none;
  list_clusters = λ selector. clusters;
  get_default_adc = refused;
  user = user_answers;
  addon = addon_answers;
  cleanup = λ cluster. cleanup_answers;
  patch_cluster = λ cluster. none;
}

abbrev server : Result (List Cluster) → Result AviInfraSetting → Server
server clusters infra = record {
  env = no_env;
  cond = list_conditions;
  fin = list_finalizers;
  sel = label_selectors;
  agg = first_aggregates;
  at_least = λ v w. true;
  order = [];
  sorter = insertion_sorter;
  init = record { avi_ca = ok "ca"; new_client = λ version. refused };
  new_helper = λ cluster. none;
  answers = λ ws. answers clusters infra;
}

abbrev fresh_obj : AkoDeploymentConfig
fresh_obj = adc_of "install-ako-for-all" no_selector

abbrev with_meta : List String → Bool → AkoDeploymentConfig
with_meta fs deleting = record fresh_obj {
  metadata = record fresh_obj.metadata { finalizers = fs; deleting = deleting };
}

abbrev deleted_obj : AkoDeploymentConfig
deleted_obj = with_meta (ako_deployment_config_finalizer ∷ []) true

abbrev client : AviClient
client = record { certificate = "ca"; controller_version = ok "20.1.3" }

abbrev avi_with : Slot → AviState
avi_with slot = record { avi_client = slot; locked = false; user_client = some slot }

abbrev state_with : AkoDeploymentConfig → Slot → State
state_with obj slot = record { obj = obj; avi = avi_with slot; writes = []; halt = none }

abbrev nothing_left : Server
nothing_left = server (ok []) (err (status not_found))

abbrev infra_left : Server
infra_left = server (ok []) (ok (create_avi_infra_setting deleted_obj))

-- The first pass adds the finalizer and goes on, so the AviInfraSetting is created in the same pass.
first_pass :
    let p =
      reconcile nothing_left
        (ok fresh_obj)
        (λ o. none)
        (λ o. none)
        (state_with fresh_obj (held client)) in
    p.patched ≡ some (with_meta (ako_deployment_config_finalizer ∷ []) false)
unfolding reconcile reconcile_normal reconcile_phases phase_loop reconcile_avi init_avi
    reconcile_network_subnets reconcile_cloud_usable_network add_usable_network ◌>>=◌ read
    reconcile_avi_infra_setting reconcile_controller_version in_clusters reconcile_clusters_phases
    list_ako_deployment_config_select_clusters reconcile_clusters
first_pass = refl

first_pass_writes :
    (reconcile nothing_left
      (ok fresh_obj)
      (λ o. none)
      (λ o. none)
      (state_with fresh_obj (held client))).state.writes
    ≡ infra_created (create_avi_infra_setting fresh_obj) ∷ []
unfolding reconcile reconcile_normal reconcile_phases phase_loop reconcile_avi init_avi
    reconcile_network_subnets reconcile_cloud_usable_network add_usable_network ◌>>=◌ read
    reconcile_avi_infra_setting reconcile_controller_version in_clusters reconcile_clusters_phases
    list_ako_deployment_config_select_clusters reconcile_clusters create_avi_infra_setting
    get_avi_infra_setting_name
first_pass_writes = refl

-- The creation of a client fails while the AVI Controller refuses it, which leaves a nil pointer.
leaves_nil_pointer :
    (init_avi nothing_left.init deleted_obj
      (record { avi_client = no_client; locked = false; user_client = none })).0.avi_client
    ≡ nil_pointer
unfolding init_avi
leaves_nil_pointer = refl

has_finalizer-reconcile_normal_example :
    has_finalizer nothing_left (reconcile_normal nothing_left (state_with fresh_obj nil_pointer)).0
    ≡ true
has_finalizer-reconcile_normal_example =
    has_finalizer-reconcile_normal nothing_left (state_with fresh_obj nil_pointer)

has_finalizer-reconcile_delete_example :
    let s = state_with deleted_obj (held client) in
    let r = delete_phases infra_left s in
    has_finalizer infra_left (reconcile_delete infra_left s).0 ≡ is_kept infra_left r.0.halt r.1 r.2
has_finalizer-reconcile_delete_example =
    has_finalizer-reconcile_delete infra_left (state_with deleted_obj (held client)) refl

reconcile-IsDropped_example : IsDropped infra_left (
    reconcile infra_left
      (ok deleted_obj)
      (λ o. none)
      (λ o. none)
      (state_with deleted_obj nil_pointer))
reconcile-IsDropped_example =
    reconcile-IsDropped infra_left deleted_obj (λ o. none) (λ o. none)
      (state_with deleted_obj nil_pointer) refl refl refl refl refl refl

finishes :
    Finishes infra_left
      (state_with deleted_obj (held client))
      (record (state_with deleted_obj (held client)) {
        writes = infra_deleted (create_avi_infra_setting deleted_obj) ∷ [];
      })
      (avi_with (held client))
unfolding init_avi list_ako_deployment_config_select_clusters
finishes = record {
  goes = refl;
  goes_on = refl;
  init = refl;
  none_selected = refl;
  infra_gone = (refl, refl);
  none_selected_after = refl;
}

reconcile_delete-Finishes_example :
    let t = record (state_with deleted_obj (held client)) {
      writes = infra_deleted (create_avi_infra_setting deleted_obj) ∷ [];
    } in
    reconcile_delete infra_left (state_with deleted_obj (held client))
    ≡ (without_finalizer infra_left t, done, none)
reconcile_delete-Finishes_example =
    reconcile_delete-Finishes infra_left (state_with deleted_obj (held client)) _
      (avi_with (held client)) refl finishes

-- Adopted, marked and released.
released_obj :
    (reconcile nothing_left
      (ok deleted_obj)
      (λ o. none)
      (λ o. none)
      (state_with deleted_obj (held client))).patched
    ≡ some (with_meta [] true)
unfolding reconcile reconcile_delete reconcile_phases phase_loop reconcile_clusters_delete
    in_clusters reconcile_clusters_phases list_ako_deployment_config_select_clusters
    reconcile_avi_delete init_avi reconcile_avi_infra_setting_delete
released_obj = refl

history : History nothing_left fresh_obj (with_meta [] true)
history =
    passes (with_meta [] true) nothing_left.answers (λ o. none) (λ o. none)
      (state_with deleted_obj (held client))
      (marked
        (passes (with_meta (ako_deployment_config_finalizer ∷ []) false) nothing_left.answers
          (λ o. none) (λ o. none) (state_with fresh_obj (held client)) (starts fresh_obj)
          first_pass)
        refl)
      released_obj

History-refines_example :
    Life (stage_of nothing_left fresh_obj) (stage_of nothing_left (with_meta [] true))
History-refines_example = History-refines nothing_left history

asks_again :
    secret_to_ako_deployment_config (ok (fresh_obj ∷ [])) "tkg-system" "avi-controller-ca"
    ≡ record { namespace = ""; name = "install-ako-for-all" } ∷ []
unfolding secret_to_ako_deployment_config requests_for
asks_again = refl
