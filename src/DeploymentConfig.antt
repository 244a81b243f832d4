-- ===== src/DeploymentConfig.antt =====
-- controllers/akodeploymentconfig/akodeploymentconfig_controller.go, with the lists of phases of
-- akodeploymentconfig_controller_cluster_phase.go: one pass of the controller over an AKODeploymentConfig.
pub mod Finalizer
pub mod Panic
pub mod Lifecycle
pub mod Release
mod Tests
use load_balancer_operator_f.Prelude.{
  String, Bool, true, false, not, ◌&&◌, ◌||◌, Option, none, some, List, [], ◌∷◌, ◌++◌, ◌==◌,
  if◌then◌else◌,
}
use load_balancer_operator_f.Kube.{
  Error, wrap, is_not_found, Result, ok, err, Cluster, NamespacedName, CtrlResult, done,
}
use load_balancer_operator_f.Kube.Exec.{Exec}
use load_balancer_operator_f.Api.{AkoDeploymentConfig, SecretRef}
use load_balancer_operator_f.Api.Constants.{
  ako_deployment_config_finalizer, avi_credential_name, avi_ca_name,
}
use load_balancer_operator_f.Phases.{Phase, reconcile_phases}
use load_balancer_operator_f.AddonSecret.{
  Write as AddonWrite, reconcile_addon_secret, reconcile_addon_secret_delete,
}
use load_balancer_operator_f.ClusterCleanup.{
  Answers as CleanupAnswers, Write as CleanupWrite, reconcile_delete as reconcile_cluster_delete,
  add_cluster_finalizer, remove_cluster_finalizer,
}
use load_balancer_operator_f.AviInit.{AviState}
use load_balancer_operator_f.Reconciler.{
  Halt, waits_for_ever, has_panicked, State, Server, Write, of_addon, of_cleanup, of_handler,
  guarded,
}
use load_balancer_operator_f.AviPhase.{in_clusters, reconcile_avi, reconcile_avi_delete}

module _ (srv : Server) where
  -- A phase that only changes the cluster.
  abbrev pub on_cluster : (CleanupAnswers → Cluster → Cluster) → Phase (State × Cluster)
  on_cluster f (s, cluster) = ((s, f ((srv.answers s.writes).cleanup cluster) cluster), done, none)

  abbrev pub addon_handler : State → Cluster → Cluster × Exec AddonWrite Unit
  addon_handler s cluster =
      reconcile_addon_secret srv.env srv.cond (srv.answers s.writes).addon cluster s.obj

  abbrev pub addon_phase : Phase (State × Cluster)
  addon_phase = of_handler of_addon (λ u. done) addon_handler

  abbrev pub addon_delete_handler : State → Cluster → Cluster × Exec AddonWrite Unit
  addon_delete_handler s cluster =
      (cluster, reconcile_addon_secret_delete srv.env srv.cond (srv.answers s.writes).addon cluster)

  abbrev pub addon_delete_phase : Phase (State × Cluster)
  addon_delete_phase = of_handler of_addon (λ u. done) addon_delete_handler

  abbrev pub cleanup_handler : State → Cluster → Cluster × Exec CleanupWrite CtrlResult
  cleanup_handler s cluster =
      reconcile_cluster_delete srv.fin srv.cond ((srv.answers s.writes).cleanup cluster) cluster

  abbrev pub cluster_delete_phase : Phase (State × Cluster)
  cluster_delete_phase = of_handler of_cleanup (λ res. res) cleanup_handler

  abbrev pub normal_in_clusters : List (Phase (State × Cluster))
  normal_in_clusters = on_cluster (add_cluster_finalizer srv.fin srv.cond) ∷ addon_phase ∷ []

  abbrev pub released_in_clusters : List (Phase (State × Cluster))
  released_in_clusters =
      on_cluster (remove_cluster_finalizer srv.fin srv.cond) ∷ addon_delete_phase ∷ []

  abbrev pub deleted_in_clusters : List (Phase (State × Cluster))
  deleted_in_clusters = addon_delete_phase ∷ cluster_delete_phase ∷ []

  unfoldable pub reconcile_clusters : Phase State
  reconcile_clusters = in_clusters srv normal_in_clusters deleted_in_clusters

  unfoldable pub reconcile_clusters_delete : Phase State
  reconcile_clusters_delete = in_clusters srv released_in_clusters deleted_in_clusters

  abbrev pub with_finalizers : State → List String → State
  with_finalizers s fs = record s {
    obj = record s.obj { metadata = record s.obj.metadata { finalizers = fs } };
  }

  abbrev pub has_finalizer : State → Bool
  has_finalizer s = srv.fin.contains s.obj.finalizers ako_deployment_config_finalizer

  abbrev pub add_finalizer_unless : Bool → State → State
  add_finalizer_unless true s = s
  add_finalizer_unless false s =
      with_finalizers s (srv.fin.add s.obj.finalizers ako_deployment_config_finalizer)

  unfoldable pub reconcile_normal : Phase State
  reconcile_normal s =
      reconcile_phases srv.agg (guarded (reconcile_avi srv) ∷ guarded reconcile_clusters ∷ [])
        (add_finalizer_unless (has_finalizer s) s)

  abbrev pub without_finalizer : State → State
  without_finalizer s =
      with_finalizers s (srv.fin.remove s.obj.finalizers ako_deployment_config_finalizer)

  abbrev pub release_unless :
      Bool → State → CtrlResult → Option Error → State × CtrlResult × Option Error
  release_unless true s res e = (s, res, e)
  release_unless false s res e = (without_finalizer s, res, e)

  -- The deferred function. On a panic it runs with the zero values of the named results.
  abbrev pub deferred :
      Option Halt → State × CtrlResult × Option Error → State × CtrlResult × Option Error
  deferred none (s, res, some e) = (s, res, some e)
  deferred none (s, res, none) = release_unless res.requeue s res none
  deferred (some waits_for_ever) (s, res, e) = (s, res, e)
  deferred (some has_panicked) (s, res, e) = (without_finalizer s, done, none)

  abbrev pub after_phases : State × CtrlResult × Option Error → State × CtrlResult × Option Error
  after_phases (s, res, e) = deferred s.halt (s, res, e)

  abbrev pub delete_phases : Phase State
  delete_phases =
      reconcile_phases srv.agg
        (guarded reconcile_clusters_delete ∷ guarded (reconcile_avi_delete srv) ∷ [])

  unfoldable pub reconcile_delete : Phase State
  reconcile_delete s = if has_finalizer s then after_phases (delete_phases s) else (s, done, none)

  -- What a pass leaves: the state, the object that the deferred patch writes, where there is a patch, the result and
  -- the error. A pass that waits for ever does not patch; after a panic it does.
  pub record Pass : Type 0 where
    pub state : State
    pub patched : Option AkoDeploymentConfig
    pub result : CtrlResult
    pub error : Option Error

  abbrev pub first_of : Option Error → Option Error → Option Error
  first_of (some e) o = some e
  first_of none o = o

  -- The deferred patch of Reconcile, whose error is returned where there is no other.
  abbrev pub patched_by :
      (AkoDeploymentConfig → Option Error) → Option Halt → State × CtrlResult × Option Error → Pass
  patched_by patch (some waits_for_ever) (s, res, e) = record {
    state = s;
    patched = none;
    result = res;
    error = e;
  }
  patched_by patch (some has_panicked) (s, res, e) = record {
    state = s;
    patched = some s.obj;
    result = done;
    error = patch s.obj;
  }
  patched_by patch none (s, res, e) = record {
    state = s;
    patched = some s.obj;
    result = res;
    error = first_of e (patch s.obj);
  }

  abbrev pub pass_of :
      (AkoDeploymentConfig → Option Error) → State × CtrlResult × Option Error → Pass
  pass_of patch (s, res, e) = patched_by patch s.halt (s, res, e)

  abbrev pub handle : Phase State
  handle s = if s.obj.deleting then reconcile_delete s else reconcile_normal s

  abbrev pub with_helper : (AkoDeploymentConfig → Option Error) → State → Option Error → Pass
  with_helper patch s (some e) = record {
    state = s;
    patched = none;
    result = done;
    error = some (wrap "failed to init patch helper" e);
  }
  with_helper patch s none = pass_of patch (handle s)

  -- `s` is the state of the reconciler, into which the object is read.
  unfoldable pub reconcile :
      Result AkoDeploymentConfig
      → (AkoDeploymentConfig → Option Error)
      → (AkoDeploymentConfig → Option Error)
      → State
      → Pass
  reconcile (ok obj) new_helper patch s =
      with_helper patch (record s { obj = obj }) (new_helper obj)
  reconcile (err e) new_helper patch s = record {
    state = s;
    patched = none;
    result = done;
    error = (if is_not_found e then none else some e);
  }

abbrev is_ref : SecretRef → String → String → Bool
is_ref ref namespace name = ref.name == name && ref.namespace == namespace

-- The loop of secretToAKODeploymentConfig.
unfoldable pub requests_for : String → String → List AkoDeploymentConfig → List NamespacedName
requests_for namespace name [] = []
requests_for namespace name (adc ∷ adcs) =
    let rest = requests_for namespace name adcs in
    if is_ref adc.spec.certificate_authority_ref namespace name
      || is_ref adc.spec.admin_credential_ref namespace name
    then record { namespace = adc.namespace; name = adc.name } ∷ rest
    else rest

abbrev requests_of_list : String → String → Result (List AkoDeploymentConfig) → List NamespacedName
requests_of_list namespace name (err e) = []
requests_of_list namespace name (ok adcs) = requests_for namespace name adcs

-- For a secret; an object of another type gives no request.
unfoldable pub secret_to_ako_deployment_config :
    Result (List AkoDeploymentConfig) → String → String → List NamespacedName
secret_to_ako_deployment_config list namespace name =
    if not (name == avi_credential_name) && not (name == avi_ca_name)
    then []
    else requests_of_list namespace name list
