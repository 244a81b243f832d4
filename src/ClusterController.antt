-- ===== src/ClusterController.antt =====
-- Reconcile of controllers/cluster/cluster_controller.go: the control plane service of a cluster, and
-- its label and finalizer.
pub mod Labels
mod Tests
use load_balancer_operator_f.Prelude.{
  String, Bool, true, false, Option, none, some, List, ◌++◌, if◌then◌else◌,
}
use load_balancer_operator_f.Kube.{Error, wrap, Result, ok, err, is_not_found, Cluster}
use load_balancer_operator_f.Kube.Interfaces.{Env, Finalizers, Selectors}
use load_balancer_operator_f.Kube.Exec.{Outcome, returns, fails, panics, Exec, pure, throw}
use load_balancer_operator_f.Api.{AkoDeploymentConfig}
use load_balancer_operator_f.Api.Constants.{cluster_finalizer}
use load_balancer_operator_f.AkoOperator.{is_control_plane_vip_provider, is_load_balancer_provider}
use load_balancer_operator_f.Mapping.{
  get_ako_deployment_config_for_cluster, apply_cluster_label, remove_cluster_label,
}
use load_balancer_operator_f.HaProvider.Handlers.{Write, create_or_update_ha_service}
use load_balancer_operator_f.HaProvider.Handlers

-- What the code asks of the API server, beside what the HA provider asks.
pub record Answers : Type 0 where
  pub get_cluster : Result Cluster
  pub new_helper : Cluster → Option Error
  pub patch : Cluster → Option Error
  pub list_adcs : Result (List AkoDeploymentConfig)

module _ (env : Env) (fin : Finalizers) (sel : Selectors) (ha : Handlers.Answers)
    (ans : Answers) where
  abbrev pub without_finalizer : Cluster → Cluster
  without_finalizer cluster = record cluster {
    metadata = record cluster.metadata {
      finalizers = fin.remove cluster.finalizers cluster_finalizer;
    };
  }

  unfoldable pub settle : Cluster → Option AkoDeploymentConfig → Cluster
  settle cluster none = without_finalizer (remove_cluster_label cluster)
  settle cluster (some adc) = apply_cluster_label cluster adc

  -- The cluster is changed in place, so it comes beside the run.
  abbrev pub settled : Cluster → Result (Option AkoDeploymentConfig) → Cluster × Exec Write Unit
  settled cluster (ok adc) = (settle cluster adc, pure tt)
  settled cluster (err e) = (cluster, throw e)

  abbrev pub when_provider : Cluster → Bool × Option Error → Cluster × Exec Write Unit
  when_provider cluster (is_provider, some e) = (cluster, throw e)
  when_provider cluster (false, none) = (cluster, pure tt)
  when_provider cluster (true, none) =
      settled cluster (get_ako_deployment_config_for_cluster sel ans.list_adcs cluster)

  unfoldable pub reconcile_labels : Cluster → Cluster × Exec Write Unit
  reconcile_labels cluster = when_provider cluster (is_load_balancer_provider cluster)

  abbrev pub after_service : Cluster × Exec Write Unit → Cluster × Exec Write Unit
  after_service (cluster, (ws, returns u)) =
      let r = reconcile_labels cluster in (r.0, (ws ++ r.1.0, r.1.1))
  after_service (cluster, (ws, fails e)) = (cluster, (ws, fails e))
  after_service (cluster, (ws, panics)) = (cluster, (ws, panics))

  abbrev pub when_vip_provider : Cluster → Bool × Option Error → Cluster × Exec Write Unit
  when_vip_provider cluster (is_vip, some e) = (cluster, throw e)
  when_vip_provider cluster (false, none) = reconcile_labels cluster
  when_vip_provider cluster (true, none) =
      after_service (create_or_update_ha_service env fin sel ha cluster)

  -- The part of Reconcile between the patch helper and the deferred patch.
  unfoldable pub reconcile_cluster : Cluster → Cluster × Exec Write Unit
  reconcile_cluster cluster = when_vip_provider cluster (is_control_plane_vip_provider env cluster)

  abbrev pub of_patch : Option Error → Outcome Unit
  of_patch none = returns tt
  of_patch (some e) = fails e

  -- The error of the deferred patch is returned where there is no other; a panic runs the patch too.
  abbrev pub patched : Cluster × Exec Write Unit → Option Cluster × Exec Write Unit
  patched (cluster, (ws, returns u)) = (some cluster, (ws, of_patch (ans.patch cluster)))
  patched (cluster, (ws, fails e)) = (some cluster, (ws, fails e))
  patched (cluster, (ws, panics)) = (some cluster, (ws, panics))

  abbrev pub with_helper : Cluster → Option Error → Option Cluster × Exec Write Unit
  with_helper cluster (some e) = (none, throw (wrap "failed to init patch helper" e))
  with_helper cluster none = patched (reconcile_cluster cluster)

  abbrev pub of_cluster : Result Cluster → Option Cluster × Exec Write Unit
  of_cluster (err e) = if is_not_found e then (none, pure tt) else (none, throw e)
  of_cluster (ok cluster) = with_helper cluster (ans.new_helper cluster)

  -- The cluster that is patched, if any, and the run.
  unfoldable pub reconcile : Option Cluster × Exec Write Unit
  reconcile = of_cluster ans.get_cluster
