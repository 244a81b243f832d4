-- ===== src/DeploymentConfig/Finalizer.antt =====
-- When the finalizer of an AKODeploymentConfig is kept.
use load_balancer_operator_f.Prelude.{
  Bool, true, false, ◌||◌, Option, none, some, is_some, [], ◌∷◌, All, ◌≡◌, refl, ap, ◌∙◌,
}
use load_balancer_operator_f.Kube.{Error, ObjectMeta, Cluster, CtrlResult, done}
use load_balancer_operator_f.Api.{AkoDeploymentConfig}
use load_balancer_operator_f.Api.Constants.{ako_deployment_config_finalizer}
use load_balancer_operator_f.Phases.Keeps.{Keeps, reconcile_phases-Keeps}
use load_balancer_operator_f.Phases.{reconcile_phases}
use load_balancer_operator_f.Reconciler.{
  Halt, waits_for_ever, has_panicked, State, Server, of_addon, of_cleanup, guarded,
}
use load_balancer_operator_f.AviPhase.{reconcile_avi, reconcile_avi_delete}
use load_balancer_operator_f.AviPhase.Keeps.{Closed, guarded-Keeps}
use load_balancer_operator_f.AviPhase.Frame.{
  any_clusters-Keeps, any_handler-Keeps, reconcile_avi-Keeps, reconcile_avi_delete-Keeps,
}
use load_balancer_operator_f.DeploymentConfig.{
  addon_handler, addon_delete_handler, addon_delete_phase, cleanup_handler, normal_in_clusters,
  released_in_clusters, deleted_in_clusters, reconcile_clusters, reconcile_clusters_delete,
  has_finalizer, add_finalizer_unless, reconcile_normal, release_unless, deferred, delete_phases,
  reconcile_delete,
}

module _ (srv : Server) (Q : AkoDeploymentConfig → Type 0) where
  abbrev Of : State → Type 0
  Of s = Q s.obj

  closed : Closed (λ w. Unit {0}) Of
  closed = record { on_writes = λ s ws h p. p; on_panic = λ s p. p }

  addon_delete-Keeps : Keeps (λ (x : State × Cluster). Of x.0) (addon_delete_phase srv)
  addon_delete-Keeps =
      any_handler-Keeps Of closed srv of_addon (λ u. done) (addon_delete_handler srv)

  deleted-Keeps : All (Keeps (λ (x : State × Cluster). Of x.0)) (deleted_in_clusters srv)
  deleted-Keeps = (
    addon_delete-Keeps,
    (any_handler-Keeps Of closed srv of_cleanup (λ res. res) (cleanup_handler srv), tt),
  )

  pub reconcile_clusters-Keeps : Keeps Of (reconcile_clusters srv)
  unfolding reconcile_clusters
  reconcile_clusters-Keeps =
      any_clusters-Keeps Of closed srv (normal_in_clusters srv) (deleted_in_clusters srv)
        ((λ x p. p), (any_handler-Keeps Of closed srv of_addon (λ u. done) (addon_handler srv), tt))
        deleted-Keeps

  pub reconcile_clusters_delete-Keeps : Keeps Of (reconcile_clusters_delete srv)
  unfolding reconcile_clusters_delete
  reconcile_clusters_delete-Keeps =
      any_clusters-Keeps Of closed srv (released_in_clusters srv) (deleted_in_clusters srv)
        ((λ x p. p), (addon_delete-Keeps, tt)) deleted-Keeps

  pub delete_phases-Keeps : Keeps Of (delete_phases srv)
  delete_phases-Keeps =
      reconcile_phases-Keeps Of srv.agg
        (guarded (reconcile_clusters_delete srv) ∷ guarded (reconcile_avi_delete srv) ∷ [])
        (
          guarded-Keeps (λ w. Unit {0}) Of closed (reconcile_clusters_delete srv)
              reconcile_clusters_delete-Keeps,
          (
            guarded-Keeps (λ w. Unit {0}) Of closed (reconcile_avi_delete srv)
                (reconcile_avi_delete-Keeps Of closed srv (λ s a p. p) (λ s p. p)),
            tt,
          ),
        )

-- The metadata of an object is that of another.
abbrev Same : ObjectMeta → AkoDeploymentConfig → Type 0
Same m obj = obj.metadata ≡ m

module _ (srv : Server) where
  pub normal_phases-Same :
      (m : ObjectMeta)
      → Keeps
          (λ (s : State). Same m s.obj)
          (reconcile_phases srv.agg
            (guarded (reconcile_avi srv) ∷ guarded (reconcile_clusters srv) ∷ []))
  normal_phases-Same m =
      reconcile_phases-Keeps (λ (s : State). Same m s.obj) srv.agg
        (guarded (reconcile_avi srv) ∷ guarded (reconcile_clusters srv) ∷ [])
        (
          guarded-Keeps (λ w. Unit {0}) _ (closed srv (Same m)) (reconcile_avi srv)
              (reconcile_avi-Keeps (λ (s : State). Same m s.obj) (closed srv (Same m)) srv
                (λ s a p. p) (λ s p. p) (λ s v p. p)),
          (
            guarded-Keeps (λ w. Unit {0}) _ (closed srv (Same m)) (reconcile_clusters srv)
                (reconcile_clusters-Keeps srv (Same m)),
            tt,
          ),
        )

  has_finalizer-add :
      (b : Bool) (s : State)
      → has_finalizer srv s ≡ b
      → has_finalizer srv (add_finalizer_unless srv b s) ≡ true
  has_finalizer-add true s h = h
  has_finalizer-add false s h =
      srv.fin.contains-add_self s.obj.finalizers ako_deployment_config_finalizer

  -- Whatever the phases return, and also where one panics or waits for ever, the object has the finalizer after
  -- reconcileNormal.
  pub has_finalizer-reconcile_normal :
      (s : State) → has_finalizer srv (reconcile_normal srv s).0 ≡ true
  unfolding reconcile_normal
  has_finalizer-reconcile_normal s =
      let start = add_finalizer_unless srv (has_finalizer srv s) s in
      ap (λ (m : ObjectMeta). srv.fin.contains m.finalizers ako_deployment_config_finalizer)
        (normal_phases-Same start.obj.metadata start refl)
      ∙ has_finalizer-add (has_finalizer srv s) s refl

  -- Whether the deferred function of reconcileDelete is to keep the finalizer.
  abbrev pub is_kept : Option Halt → CtrlResult → Option Error → Bool
  is_kept none res e = is_some e || res.requeue
  is_kept (some waits_for_ever) res e = true
  is_kept (some has_panicked) res e = false

  has_finalizer-release :
      (b : Bool) (s : State) (res : CtrlResult) (e : Option Error)
      → has_finalizer srv s ≡ true
      → has_finalizer srv (release_unless srv b s res e).0 ≡ b
  has_finalizer-release true s res e h = h
  has_finalizer-release false s res e h =
      srv.fin.contains-remove_self s.obj.finalizers ako_deployment_config_finalizer

  has_finalizer-deferred :
      (h : Option Halt) (s : State) (res : CtrlResult) (e : Option Error)
      → has_finalizer srv s ≡ true
      → has_finalizer srv (deferred srv h (s, res, e)).0 ≡ is_kept h res e
  has_finalizer-deferred none s res (some e) f = f
  has_finalizer-deferred none s res none f = has_finalizer-release res.requeue s res none f
  has_finalizer-deferred (some waits_for_ever) s res e f = f
  has_finalizer-deferred (some has_panicked) s res e f =
      srv.fin.contains-remove_self s.obj.finalizers ako_deployment_config_finalizer

  -- Where the object has the finalizer before reconcileDelete, it has it afterwards exactly where the phases returned
  -- an error, asked to be run again or wait for ever; where they neither fail nor ask for more, and also where one
  -- of them panics, the finalizer is gone.
  pub has_finalizer-reconcile_delete :
      (s : State)
      → has_finalizer srv s ≡ true
      → let r = delete_phases srv s in
        has_finalizer srv (reconcile_delete srv s).0 ≡ is_kept r.0.halt r.1 r.2
  unfolding reconcile_delete
  has_finalizer-reconcile_delete s h =
      let r = delete_phases srv s in
      rw h (
        has_finalizer-deferred r.0.halt r.0 r.1 r.2 (
          ap
            (λ (o : AkoDeploymentConfig).
              srv.fin.contains o.finalizers ako_deployment_config_finalizer)
            (delete_phases-Keeps srv (λ o. o ≡ s.obj) s refl)
          ∙ h))
