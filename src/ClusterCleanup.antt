-- ===== src/ClusterCleanup.antt =====
-- The cleanup of a cluster that is being deleted: ReconcileDelete and cleanup of
-- controllers/akodeploymentconfig/cluster/cluster_controller.go, CleanupFinished of pkg/ako/ako.go, and
-- the finalizers of controllers/akodeploymentconfig/akodeploymentconfig_controller_cluster_phase.go.
pub mod Finalizer
mod Tests
use load_balancer_operator_f.Prelude.{
  String, Bool, true, false, not, ◌&&◌, ◌||◌, Option, none, some, List, [], ◌∷◌, ◌++◌, Dict, index,
  ◌==◌, ◌⧺◌, if◌then◌else◌, ◌*◌, ◌^◌,
}
use load_balancer_operator_f.Go.Int.{ℤ, pos}
use load_balancer_operator_f.Kube.{
  Error, message, Result, ok, err, is_not_found, Condition, Cluster, CtrlResult, done,
}
use load_balancer_operator_f.Kube.Exec.{
  Outcome, returns, fails, panics, Exec, pure, throw, read, attempt, unless_panic, ◌>>=◌, ◌>>◌,
}
use load_balancer_operator_f.Kube.Interfaces.{Finalizers, Conditions}
use load_balancer_operator_f.Api.Constants.{
  cluster_finalizer, tkg_system_namespace, tkg_data_value_format_string,
  avi_resource_cleanup_reason, avi_resource_cleanup_succeeded_condition,
  avi_user_cleanup_succeeded_condition,
}
use load_balancer_operator_f.AkoValues.{ytt_yaml}
use load_balancer_operator_f.AkoOperator.{is_cluster_class_based_cluster}

-- What the code asks of the cluster's own API server and of the YAML package. The values of AKO are a
-- YAML text: `delete_config` unmarshals it and gives AKOSettings.DeleteConfig, `none` where AKOSettings
-- is nil, as it is where the text has no settings of AKO; `marshal_deleting` sets
-- that field to "true" and marshals the values. `get_secret` gives the data of a secret, `none` where
-- the map is nil; `get_stateful_set` gives the annotations of the StatefulSet of AKO.
pub record Answers : Type 0 where
  pub remote_client : Result (Unit {0})
  pub get_secret : String → Result (Option (Dict String))
  pub delete_config : String → Result (Option String)
  pub marshal_deleting : String → Result String
  pub update_secret : String → String → Result (Unit {0})
  pub get_stateful_set : Result (Dict String)

-- The name of the secret and its text.
pub data Write : Type 0 where
  values_updated : String → String → Write

abbrev pub requeue_after_for_ako_deletion : ℤ
requeue_after_for_ako_deletion = pos (10 ^ 9)

abbrev pub requeue_deletion : CtrlResult
requeue_deletion = record { requeue = true; requeue_after = requeue_after_for_ako_deletion }

abbrev pub status_finished : String → Bool
status_finished status = status == "Done" || status == "Timeout"

abbrev pub finished_in : Result (Dict String) → Result Bool
finished_in (ok annotations) = ok (status_finished (index "AviObjectDeletionStatus" annotations))
finished_in (err e) = if is_not_found e then ok true else err e

unfoldable pub secret_name : Cluster → String
secret_name cluster =
    if is_cluster_class_based_cluster cluster
    then cluster.name ⧺ "-load-balancer-and-ingress-service-data-values"
    else "load-balancer-and-ingress-service-data-values"

module _ (fin : Finalizers) (cond : Conditions) (ans : Answers) where
  unfoldable pub cleanup_finished : Result Bool
  cleanup_finished = finished_in ans.get_stateful_set

  -- The assignment to a nil map panics.
  abbrev pub store_values : Cluster → Option (Dict String) → Result String → Exec Write (Unit {0})
  store_values obj data_of (err e) =
      throw (message ("workload cluster " ⧺ obj.name ⧺ " ako add-on data values marshal error"))
  store_values obj none (ok text) = unless_panic none
  store_values obj (some entries) (ok text) =
      attempt (values_updated (secret_name obj) text) (ans.update_secret (secret_name obj) text)

  abbrev pub values_yaml : Option (Dict String) → String
  values_yaml none = ""
  values_yaml (some entries) = index "values.yaml" entries

  -- The values are written only where the deletion was not asked for before.
  abbrev pub ask_deletion : Cluster → Option (Dict String) → String → Exec Write (Unit {0})
  ask_deletion obj data_of delete_config =
      if delete_config == "true"
      then pure tt
      else store_values obj data_of (ytt_yaml obj (ans.marshal_deleting (values_yaml data_of)))

  -- A nil AKOSettings is dereferenced.
  unfoldable pub clean_with : Cluster → Option (Dict String) → Exec Write Bool
  clean_with obj data_of = do
    settings ← read (ans.delete_config (values_yaml data_of))
    delete_config ← unless_panic settings
    _ ← ask_deletion obj data_of delete_config
    read cleanup_finished

  abbrev pub clean_values : Cluster → Result (Option (Dict String)) → Exec Write Bool
  clean_values obj (ok data_of) = clean_with obj data_of
  clean_values obj (err e) = if is_not_found e then pure true else throw e

  -- The part of cleanup after the conditions were looked at.
  unfoldable pub clean_resources : Cluster → Exec Write Bool
  clean_resources obj = do
    _ ← read ans.remote_client
    clean_values obj (ans.get_secret (secret_name obj))

  abbrev pub with_conditions : Cluster → List Condition → Cluster
  with_conditions obj cs = record obj { conditions = cs }

  abbrev pub mark_after : Cluster → Outcome Bool → Cluster
  mark_after obj (returns true) =
      with_conditions obj (cond.mark_true obj.conditions avi_resource_cleanup_succeeded_condition)
  mark_after obj _ = obj

  abbrev pub cleaned : Cluster → Cluster × Exec Write Bool
  cleaned obj = let run = clean_resources obj in (mark_after obj run.1, run)

  -- The two tests are whether the condition is there and whether it is True.
  abbrev pub cleanup_by : Bool → Bool → Cluster → Cluster × Exec Write Bool
  cleanup_by false t obj = cleaned (
      with_conditions obj (
        cond.mark_false obj.conditions avi_resource_cleanup_succeeded_condition
          avi_resource_cleanup_reason))
  cleanup_by true true obj = (obj, pure true)
  cleanup_by true false obj = cleaned obj

  -- The cluster is changed in place, so it comes beside the run.
  unfoldable pub cleanup : Cluster → Cluster × Exec Write Bool
  cleanup obj =
      cleanup_by (cond.has obj.conditions avi_resource_cleanup_succeeded_condition)
        (cond.is_true obj.conditions avi_resource_cleanup_succeeded_condition) obj

  abbrev pub without_finalizer : Cluster → Cluster
  without_finalizer cluster = record cluster {
    metadata = record cluster.metadata {
      finalizers = fin.remove cluster.finalizers cluster_finalizer;
    };
  }

  abbrev pub release_by : Bool → Cluster → Cluster × Outcome CtrlResult
  release_by true cluster = (without_finalizer cluster, returns done)
  release_by false cluster = (cluster, returns requeue_deletion)

  abbrev pub release : Cluster → Outcome Bool → Cluster × Outcome CtrlResult
  release cluster (returns finished) =
      release_by (finished && cond.is_true cluster.conditions avi_user_cleanup_succeeded_condition)
        cluster
  release cluster (fails e) = (cluster, fails e)
  release cluster panics = (cluster, panics)

  abbrev pub released : Cluster × Exec Write Bool → Cluster × Exec Write CtrlResult
  released (cluster, (ws, o)) = let r = release cluster o in (r.0, (ws, r.1))

  unfoldable pub reconcile_delete : Cluster → Cluster × Exec Write CtrlResult
  reconcile_delete cluster =
      if fin.contains cluster.finalizers cluster_finalizer
      then released (cleanup cluster)
      else (cluster, pure done)

  abbrev pub with_finalizer : Cluster → Cluster
  with_finalizer cluster = record cluster {
    metadata = record cluster.metadata {
      finalizers = fin.add cluster.finalizers cluster_finalizer;
    };
  }

  abbrev pub add_finalizer_if : Bool → Cluster → Cluster
  add_finalizer_if true cluster = with_finalizer cluster
  add_finalizer_if false cluster = cluster

  unfoldable pub add_cluster_finalizer : Cluster → Cluster
  add_cluster_finalizer cluster =
      add_finalizer_if
        (not (fin.contains cluster.finalizers cluster_finalizer)
          && not (cluster.namespace == tkg_system_namespace))
        cluster

  unfoldable pub remove_cluster_finalizer : Cluster → Cluster
  remove_cluster_finalizer cluster = without_finalizer cluster
