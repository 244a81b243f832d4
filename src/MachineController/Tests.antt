-- ===== src/MachineController/Tests.antt =====
-- A machine with the hook, of a cluster that is being deleted and still has its finalizer.
use load_balancer_operator_f.Prelude.{true, false, none, some, [], ◌∷◌, lookup, has, ◌≡◌, refl}
use load_balancer_operator_f.Kube.{message, Result, err, ok, Machine, Cluster}
use load_balancer_operator_f.Kube.Exec.{returns}
use load_balancer_operator_f.Api.Constants.{
  avi_cluster_label, cluster_finalizer, pre_terminate_annotation,
}
use load_balancer_operator_f.AkoOperator.{
  is_control_plane_vip_provider, is_load_balancer_provider, topology_variable,
}
use load_balancer_operator_f.Samples.{label_selectors, meta_of, no_env, legacy}
use load_balancer_operator_f.Samples.Libraries.{list_finalizers}
use load_balancer_operator_f.HaProvider.Handlers
use load_balancer_operator_f.MachineController.{
  Answers, cluster_name_label, hook_prefix, reconcile_machine,
}
use load_balancer_operator_f.MachineController.Hook.{
  hook, wanted_hook, SameButHook, InAviCluster, reconcile_machine-SameButHook,
  reconcile_machine-hook,
}

abbrev deleted_cluster : Cluster
deleted_cluster = record legacy {
  metadata = record (meta_of "default" "wc") {
    labels = (avi_cluster_label, "install-ako-for-all") ∷ [];
    finalizers = cluster_finalizer ∷ [];
    deleting = true;
  };
}

abbrev node : Machine
node = record {
  metadata = record (meta_of "default" "cp-0") {
    labels = (cluster_name_label, "wc") ∷ [];
    annotations = (pre_terminate_annotation, "ako-operator") ∷ [];
    deleting = true;
  };
  cluster_name = "wc";
  addresses = [];
}

abbrev refused : {A : Type 0} → Result A
refused = err (message "refused")

abbrev refusing : Handlers.Answers
refusing = record {
  get_cluster = λ k. refused;
  list_adcs = refused;
  get_infra_setting = λ name. refused;
  get_endpoints = λ k. refused;
  create_endpoints = λ e. refused;
  update_endpoints = λ e. refused;
  get_service = λ k. refused;
  create_service = λ s. refused;
  update_service = λ s. refused;
  query_fqdn = λ s. refused;
}

abbrev answers : Answers
answers = record {
  get_machine = ok node;
  get_cluster = λ k. ok deleted_cluster;
  new_helper = λ m. none;
  patch = λ m. none;
  selectors = label_selectors;
  ha = refusing;
  has_with_prefix = λ prefix annotations. has pre_terminate_annotation annotations;
}

node-InAviCluster : InAviCluster no_env list_finalizers answers node deleted_cluster
unfolding lookup is_control_plane_vip_provider is_load_balancer_provider topology_variable
node-InAviCluster = record {
  name = "wc";
  is_vip = false;
  named = refl;
  found = refl;
  vip = refl;
  endpoints = refl;
  provided = refl;
  labelled = refl;
}

-- The hook stays while the finalizer is there.
still_held : wanted_hook no_env list_finalizers answers node deleted_cluster ≡ some "ako-operator"
unfolding lookup
still_held = refl

found_hook : answers.has_with_prefix hook_prefix node.annotations ≡ false → hook node ≡ none
unfolding lookup
found_hook e = cc

reconcile_machine-SameButHook_example :
    SameButHook node (reconcile_machine no_env list_finalizers answers node).0
reconcile_machine-SameButHook_example =
    reconcile_machine-SameButHook no_env list_finalizers answers node

reconcile_machine-hook_example :
    let r = reconcile_machine no_env list_finalizers answers node in
    (hook r.0 ≡ wanted_hook no_env list_finalizers answers node deleted_cluster)
    × (r.1 ≡ returns tt)
reconcile_machine-hook_example =
    reconcile_machine-hook no_env list_finalizers answers node deleted_cluster node-InAviCluster
      found_hook
