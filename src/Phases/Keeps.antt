-- ===== src/Phases/Keeps.antt =====
-- What every phase keeps of the state, the runs of phases.go keep.
use load_balancer_operator_f.Prelude.{
  Bool, true, false, Option, none, some, List, [], ◌∷◌, All, if◌then◌else◌,
}
use load_balancer_operator_f.Kube.{Error, Result, ok, err, Cluster, CtrlResult, done}
use load_balancer_operator_f.Kube.Interfaces.{Aggregates}
use load_balancer_operator_f.Api.{AkoDeploymentConfig}
use load_balancer_operator_f.AkoOperator.{is_load_balancer_provider}
use load_balancer_operator_f.Mapping.{apply_cluster_label}
use load_balancer_operator_f.Phases.{
  Phase, phase_loop, reconcile_phases, Patches, Progress, goes_on, stops, labelled, provided,
  cluster_step, onward, cluster_loop, finished, reconcile_clusters_phases,
}

module _ {S : Type 0} (P : S → Type 0) where
  abbrev pub Keeps : Phase S → Type 0
  Keeps phase = (s : S) → P s → P (phase s).0

  phase_loop-Keeps :
      (agg : Aggregates) (phases : List (Phase S)) (s : S) (res : CtrlResult) (errs : List Error)
      → All Keeps phases
      → P s
      → P (phase_loop agg phases s res errs).0
  unfolding phase_loop
  phase_loop-Keeps agg [] s res errs h p = p
  phase_loop-Keeps agg (phase ∷ phases) s res errs (h, hs) p =
      phase_loop-Keeps agg phases (phase s).0 _ _ hs (h s p)

  pub reconcile_phases-Keeps :
      (agg : Aggregates) (phases : List (Phase S))
      → All Keeps phases
      → Keeps (reconcile_phases agg phases)
  unfolding reconcile_phases
  reconcile_phases-Keeps agg phases h s p = phase_loop-Keeps agg phases s done [] h p

module _ {S : Type 0} (P : S → Type 0) (agg : Aggregates) (patches : Patches agg S)
    (obj : AkoDeploymentConfig) (normal_phases delete_phases : List (Phase (S × Cluster))) where
  abbrev pub KeepsIn : Phase (S × Cluster) → Type 0
  KeepsIn = Keeps (λ (x : S × Cluster). P x.0)

  abbrev Kept : Progress agg S → Type 0
  Kept (goes_on s res errs) = P s
  Kept (stops s res e) = P s

  module _ (patched : (s : S) (c : Cluster) → P s → P (patches.patch s c).0)
      (normal : All KeepsIn normal_phases) (deleted : All KeepsIn delete_phases) where
    phases_of-Keeps : (b : Bool) → All KeepsIn (if b then delete_phases else normal_phases)
    phases_of-Keeps true = deleted
    phases_of-Keeps false = normal

    labelled-Kept :
        (s : S) (res : CtrlResult) (errs : List Error) (c : Cluster) (o : Option Error)
        → P s
        → Kept (labelled agg patches obj normal_phases delete_phases s res errs c o)
    labelled-Kept s res errs c (some e) p = p
    labelled-Kept s res errs c none p =
        let a = apply_cluster_label c obj in
        patched _ _ (
          phase_loop-Keeps (λ (x : S × Cluster). P x.0) agg _ (s, a) res []
            (phases_of-Keeps a.deleting) p)

    provided-Kept :
        (s : S) (res : CtrlResult) (errs : List Error) (c : Cluster) (b : Bool × Option Error)
        → P s
        → Kept (provided agg patches obj normal_phases delete_phases s res errs c b)
    provided-Kept s res errs c (is_provider, some e) p = p
    provided-Kept s res errs c (false, none) p = p
    provided-Kept s res errs c (true, none) p = labelled-Kept s res errs c (patches.new_helper c) p

    onward-Kept :
        (f : S → CtrlResult → List Error → Progress agg S) (q : Progress agg S)
        → ((s : S) (res : CtrlResult) (errs : List Error) → P s → Kept (f s res errs))
        → Kept q
        → Kept (onward agg patches obj normal_phases delete_phases f q)
    onward-Kept f (goes_on s res errs) h p = h s res errs p
    onward-Kept f (stops s res e) h p = p

    cluster_loop-Kept :
        (cs : List Cluster) (s : S) (res : CtrlResult) (errs : List Error)
        → P s
        → Kept (cluster_loop agg patches obj normal_phases delete_phases cs s res errs)
    unfolding cluster_loop cluster_step
    cluster_loop-Kept [] s res errs p = p
    cluster_loop-Kept (c ∷ cs) s res errs p =
        onward-Kept _ _ (cluster_loop-Kept cs)
          (provided-Kept s res errs c (is_load_balancer_provider c) p)

    finished-Kept :
        (q : Progress agg S) → Kept q → P (finished agg patches obj normal_phases delete_phases q).0
    finished-Kept (goes_on s res errs) p = p
    finished-Kept (stops s res e) p = p

    pub reconcile_clusters_phases-Keeps :
        (list : Result (List Cluster)) (s : S)
        → P s
        → P (reconcile_clusters_phases agg patches obj normal_phases delete_phases list s).0
    unfolding reconcile_clusters_phases
    reconcile_clusters_phases-Keeps (err e) s p = p
    reconcile_clusters_phases-Keeps (ok []) s p = p
    reconcile_clusters_phases-Keeps (ok (c ∷ cs)) s p =
        finished-Kept _ (cluster_loop-Kept (c ∷ cs) s done [] p)
