-- ===== src/MachineController.antt =====
-- controllers/machine/machine_controller.go: the pre-terminate hook of a machine, which holds its
-- deletion back while the AVI resources of its cluster are cleaned up. The result of a reconciliation
-- is always empty, so only the machine and the outcome are given.
pub mod Hook
mod Tests
use load_balancer_operator_f.Prelude.{
  String, Bool, true, false, not, ◌&&◌, Option, none, some, Dict, lookup, insert, delete, has, ◌==◌,
  if◌then◌else◌,
}
use load_balancer_operator_f.Kube.{
  Error, wrap, Result, ok, err, is_not_found, NamespacedName, Machine, Cluster,
}
use load_balancer_operator_f.Kube.Interfaces.{Env, Finalizers, Selectors}
use load_balancer_operator_f.Kube.Exec.{Outcome, returns, fails, panics}
use load_balancer_operator_f.HaProvider.Handlers.{create_or_update_ha_endpoints}
use load_balancer_operator_f.HaProvider.Handlers
use load_balancer_operator_f.Api.Constants.{
  avi_cluster_label, cluster_finalizer, pre_terminate_annotation, tkg_system_namespace,
}
use load_balancer_operator_f.AkoOperator.{is_control_plane_vip_provider, is_load_balancer_provider}

-- clusterv1.PreTerminateDeleteHookAnnotationPrefix and clusterv1.ClusterNameLabel
abbrev pub hook_prefix : String
hook_prefix = "pre-terminate.delete.hook.machine.cluster.x-k8s.io"

abbrev pub cluster_name_label : String
cluster_name_label = "cluster.x-k8s.io/cluster-name"

-- What the code asks of the API server and of libraries, with what the HA provider asks.
-- `has_with_prefix` is annotations.HasWithPrefix.
pub record Answers : Type 0 where
  pub get_machine : Result Machine
  pub get_cluster : NamespacedName → Result Cluster
  pub new_helper : Machine → Option Error
  pub patch : Machine → Option Error
  pub selectors : Selectors
  pub ha : Handlers.Answers
  pub has_with_prefix : String → Dict String → Bool

abbrev pub with_annotations : Machine → Dict String → Machine
with_annotations obj annotations = record obj {
  metadata = record obj.metadata { annotations = annotations };
}

abbrev pub without_hook : Machine → Machine
without_hook obj = with_annotations obj (delete pre_terminate_annotation obj.annotations)

module _ (env : Env) (fin : Finalizers) (ans : Answers) where
  -- How CreateOrUpdateHAEndpoints ends.
  abbrev pub update_endpoints : Machine → Outcome Unit
  update_endpoints obj = (create_or_update_ha_endpoints env fin ans.selectors ans.ha obj).1

  unfoldable pub reconcile_machine_deletion_hook : Machine → Cluster → Machine
  reconcile_machine_deletion_hook obj cluster =
      if fin.contains cluster.finalizers cluster_finalizer
      then obj
      else if ans.has_with_prefix hook_prefix obj.annotations
      then without_hook obj
      else obj

  -- The key that is looked up is the prefix of the hooks.
  unfoldable pub reconcile_normal : Machine → Cluster → Machine
  reconcile_normal obj cluster =
      if has hook_prefix obj.annotations
      then obj
      else if cluster.namespace == tkg_system_namespace
      then obj
      else with_annotations obj (insert pre_terminate_annotation "ako-operator" obj.annotations)

  -- The three tests are whether the cluster has the AVI label, whether the machine is being deleted
  -- and whether the cluster is.
  abbrev pub hook_by : Bool → Bool → Bool → Machine → Cluster → Machine
  hook_by false o c obj cluster = without_hook obj
  hook_by true true false obj cluster = without_hook obj
  hook_by true true true obj cluster = reconcile_machine_deletion_hook obj cluster
  hook_by true false true obj cluster = reconcile_machine_deletion_hook obj cluster
  hook_by true false false obj cluster = reconcile_normal obj cluster

  -- The machine of a cluster for which the operator provides load balancers.
  unfoldable pub reconcile_hook : Machine → Cluster → Machine
  reconcile_hook obj cluster =
      hook_by (has avi_cluster_label cluster.labels) obj.deleting cluster.deleting obj cluster

  abbrev pub when_provider : Machine → Cluster → Bool × Option Error → Machine × Outcome Unit
  when_provider obj cluster (is_provider, some e) = (obj, fails e)
  when_provider obj cluster (false, none) = (obj, returns tt)
  when_provider obj cluster (true, none) = (reconcile_hook obj cluster, returns tt)

  abbrev pub after_endpoints : Machine → Cluster → Outcome Unit → Machine × Outcome Unit
  after_endpoints obj cluster (fails e) = (obj, fails e)
  after_endpoints obj cluster panics = (obj, panics)
  after_endpoints obj cluster (returns u) =
      when_provider obj cluster (is_load_balancer_provider cluster)

  abbrev pub when_vip_provider : Machine → Cluster → Bool × Option Error → Machine × Outcome Unit
  when_vip_provider obj cluster (is_vip, some e) = (obj, fails e)
  when_vip_provider obj cluster (is_vip, none) =
      after_endpoints obj cluster (if is_vip then update_endpoints obj else returns tt)

  abbrev pub in_cluster : Machine → Result Cluster → Machine × Outcome Unit
  in_cluster obj (err e) = (obj, fails e)
  in_cluster obj (ok cluster) =
      when_vip_provider obj cluster (is_control_plane_vip_provider env cluster)

  abbrev pub with_cluster_name : Machine → Option String → Machine × Outcome Unit
  with_cluster_name obj none = (obj, returns tt)
  with_cluster_name obj (some name) =
      in_cluster obj (ans.get_cluster (record { namespace = obj.namespace; name = name }))

  -- The part of Reconcile between the patch helper and the deferred patch.
  unfoldable pub reconcile_machine : Machine → Machine × Outcome Unit
  reconcile_machine obj = with_cluster_name obj (lookup cluster_name_label obj.labels)

  -- The deferred patch: its error is returned where there is no other, and a panic goes on after it.
  abbrev pub first_of : Outcome Unit → Option Error → Outcome Unit
  first_of (fails e) o = fails e
  first_of panics o = panics
  first_of (returns u) none = returns tt
  first_of (returns u) (some e) = fails e

  abbrev pub patched : Machine × Outcome Unit → Option Machine × Outcome Unit
  patched (obj, o) = (some obj, first_of o (ans.patch obj))

  abbrev pub with_helper : Machine → Option Error → Option Machine × Outcome Unit
  with_helper obj (some e) = (none, fails (wrap "failed to init patch helper" e))
  with_helper obj none = patched (reconcile_machine obj)

  abbrev pub of_machine : Result Machine → Option Machine × Outcome Unit
  of_machine (err e) = if is_not_found e then (none, returns tt) else (none, fails e)
  of_machine (ok obj) = with_helper obj (ans.new_helper obj)

  -- The machine that is patched, if any, and how the reconciliation ends.
  unfoldable pub reconcile : Option Machine × Outcome Unit
  reconcile = of_machine ans.get_machine
