-- ===== src/Phases.antt =====
-- controllers/akodeploymentconfig/phases/phases.go: the phases of an AKODeploymentConfig, and those of
-- each cluster that it manages. A phase changes a state: the object, and whatever else it writes to.
pub mod Runs
pub mod Keeps
mod Tests
use load_balancer_operator_f.Prelude.{
  Bool, true, false, not, Option, none, some, List, [], ◌∷◌, ◌++◌, is_empty, if◌then◌else◌,
}
use load_balancer_operator_f.Kube.{Error, wrap, Result, ok, err, Cluster, CtrlResult, done}
use load_balancer_operator_f.Kube.Interfaces.{Aggregates}
use load_balancer_operator_f.Api.{AkoDeploymentConfig}
use load_balancer_operator_f.AkoOperator.{is_load_balancer_provider}
use load_balancer_operator_f.Mapping.{apply_cluster_label}

-- ReconcilePhase and ReconcileClusterPhase: the state afterwards, the result and the error.
abbrev pub Phase : Type 0 → Type 0
Phase S = S → S × CtrlResult × Option Error

abbrev pub with_error : List Error → Option Error → List Error
with_error errs none = errs
with_error errs (some e) = errs ++ e ∷ []

module _ (agg : Aggregates) where
  -- Once a phase has failed, the results of the later ones are not read.
  abbrev pub next_result : List Error → CtrlResult → CtrlResult → CtrlResult
  next_result errs res phase_result =
      if is_empty errs then agg.lowest_nonzero res phase_result else res

  -- The loop over the phases: each runs, whatever the earlier ones returned.
  unfoldable pub phase_loop :
      {S : Type 0} → List (Phase S) → S → CtrlResult → List Error → S × CtrlResult × List Error
  phase_loop [] s res errs = (s, res, errs)
  phase_loop (phase ∷ phases) s res errs =
      let r = phase s in
      let errs' = with_error errs r.2 in phase_loop phases r.0 (next_result errs' res r.1) errs'

  abbrev pub aggregated : {S : Type 0} → S × CtrlResult × List Error → S × CtrlResult × Option Error
  aggregated (s, res, errs) = (s, res, agg.new_aggregate errs)

  unfoldable pub reconcile_phases :
      {S : Type 0} → List (Phase S) → S → S × CtrlResult × Option Error
  reconcile_phases phases s = aggregated (phase_loop phases s done [])

  -- What the patch helper of Cluster API does: its construction may fail, and the patch changes the
  -- state and may fail.
  pub record Patches (S : Type 0) : Type 0 where
    pub new_helper : Cluster → Option Error
    pub patch : S → Cluster → S × Option Error

  -- How the loop over the clusters goes on: with the state, the result and the errors so far, or with
  -- an early return.
  pub data Progress (S : Type 0) : Type 0 where
    goes_on : S → CtrlResult → List Error → Progress S
    stops : S → CtrlResult → Error → Progress S

  module _ {S : Type 0} (patches : Patches S) (obj : AkoDeploymentConfig)
      (normal_phases delete_phases : List (Phase (S × Cluster))) where
    abbrev pub phases_of : Cluster → List (Phase (S × Cluster))
    phases_of cluster = if cluster.deleting then delete_phases else normal_phases

    -- The patch at the end: its error is logged and not kept.
    abbrev pub patch_after : List Error → (S × Cluster) × CtrlResult × List Error → Progress S
    patch_after all_errs ((s, cluster), res, errs) =
        goes_on (patches.patch s cluster).0 res (with_error all_errs (agg.new_aggregate errs))

    abbrev pub labelled : S → CtrlResult → List Error → Cluster → Option Error → Progress S
    labelled s res all_errs cluster (some e) = stops s res (wrap "failed to init patch helper" e)
    labelled s res all_errs cluster none =
        let c = apply_cluster_label cluster obj in
        patch_after all_errs (phase_loop (phases_of c) (s, c) res [])

    abbrev pub provided : S → CtrlResult → List Error → Cluster → Bool × Option Error → Progress S
    provided s res all_errs cluster (is_provider, some e) = goes_on s res (all_errs ++ e ∷ [])
    provided s res all_errs cluster (false, none) = goes_on s res all_errs
    provided s res all_errs cluster (true, none) =
        labelled s res all_errs cluster (patches.new_helper cluster)

    -- The body of the loop over the clusters.
    unfoldable pub cluster_step : S → CtrlResult → List Error → Cluster → Progress S
    cluster_step s res all_errs cluster =
        provided s res all_errs cluster (is_load_balancer_provider cluster)

    abbrev pub onward : (S → CtrlResult → List Error → Progress S) → Progress S → Progress S
    onward f (goes_on s res errs) = f s res errs
    onward f (stops s res e) = stops s res e

    unfoldable pub cluster_loop : List Cluster → S → CtrlResult → List Error → Progress S
    cluster_loop [] s res errs = goes_on s res errs
    cluster_loop (c ∷ cs) s res errs = onward (cluster_loop cs) (cluster_step s res errs c)

    abbrev pub finished : Progress S → S × CtrlResult × Option Error
    finished (goes_on s res errs) = (s, res, agg.new_aggregate errs)
    finished (stops s res e) = (s, res, some e)

    -- `list` is the answer of ListAkoDeploymentConfigSelectClusters.
    unfoldable pub reconcile_clusters_phases :
        Result (List Cluster) → S → S × CtrlResult × Option Error
    reconcile_clusters_phases (err e) s = (s, done, some e)
    reconcile_clusters_phases (ok clusters) s =
        if is_empty clusters then (s, done, none) else finished (cluster_loop clusters s done [])
