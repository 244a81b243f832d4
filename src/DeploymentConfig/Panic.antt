-- ===== src/DeploymentConfig/Panic.antt =====
-- What a panic in the deletion of an AKODeploymentConfig does: the deferred functions of reconcileDelete and Reconcile
-- run as after a success.
use load_balancer_operator_f.Prelude.{
  true, false, Option, none, some, [], ◌∷◌, All, All-append, ◌≡◌, refl, sym, ap, ◌∙◌, subst,
  if◌then◌else◌,
}
use load_balancer_operator_f.Kube.{Error, ok, Cluster, CtrlResult, done}
use load_balancer_operator_f.Api.{AkoDeploymentConfig}
use load_balancer_operator_f.Api.Constants.{ako_deployment_config_finalizer}
use load_balancer_operator_f.Phases.Keeps.{Keeps}
use load_balancer_operator_f.Phases.Runs.{reconcile_phases-all}
use load_balancer_operator_f.AviInit.{nil_pointer, init_from, init_avi}
use load_balancer_operator_f.Reconciler.{
  Write, of_addon, of_cleanup, cluster_patched, Halt, waits_for_ever, has_panicked, State, Server,
  stopped, by_halt, guarded,
}
use load_balancer_operator_f.AviPhase.{after_init, avi_delete_phases, reconcile_avi_delete}
use load_balancer_operator_f.AviPhase.Keeps.{
  Closed, guarded-Keeps, of_handler-Keeps, in_clusters-Keeps,
}
use load_balancer_operator_f.DeploymentConfig.{
  addon_delete_handler, addon_delete_phase, cleanup_handler, released_in_clusters,
  deleted_in_clusters, reconcile_clusters_delete, without_finalizer, after_phases, delete_phases,
  reconcile_delete, reconcile_normal, has_finalizer, Pass, pass_of, handle, with_helper, reconcile,
}

-- A write to a cluster or to its secrets: no user of the AVI Controller and no AviInfraSetting is deleted.
abbrev pub InCluster : Write → Type 0
InCluster (of_addon w) = Unit {0}
InCluster (of_cleanup w) = Unit {0}
InCluster (cluster_patched c) = Unit {0}
InCluster _ = ⊥

abbrev Goes : Option Halt → Type 0
Goes (some waits_for_ever) = ⊥
Goes _ = Unit {0}

-- The reconciler holds a nil pointer as its client, does not wait, and has written in clusters only.
record Stuck (s : State) : Type 0 where
  client : s.avi.avi_client ≡ nil_pointer
  goes : Goes s.halt
  writes : All InCluster s.writes

module _ (srv : Server) where
  Stuck-Closed : Closed InCluster Stuck
  Stuck-Closed = record {
    on_writes = λ s ws h p. record {
      client = p.client;
      goes = p.goes;
      writes = All-append InCluster s.writes ws p.writes h;
    };
    on_panic = λ s p. record { client = p.client; goes = tt; writes = p.writes };
  }

  addon_delete-Keeps : Keeps (λ (x : State × Cluster). Stuck x.0) (addon_delete_phase srv)
  addon_delete-Keeps =
      of_handler-Keeps InCluster Stuck Stuck-Closed of_addon (λ u. done) (addon_delete_handler srv)
        (λ w. tt)

  clusters-Stuck : Keeps Stuck (reconcile_clusters_delete srv)
  unfolding reconcile_clusters_delete
  clusters-Stuck =
      in_clusters-Keeps InCluster Stuck Stuck-Closed srv (released_in_clusters srv)
        (deleted_in_clusters srv) (λ c. tt) ((λ x p. p), (addon_delete-Keeps, tt))
        (
          addon_delete-Keeps,
          (
            of_handler-Keeps InCluster Stuck Stuck-Closed of_cleanup (λ res. res)
                (cleanup_handler srv) (λ w. tt),
            tt,
          ),
        )

  avi_delete-panics :
      (s : State)
      → s.avi.avi_client ≡ nil_pointer
      → reconcile_avi_delete srv s ≡ stopped s has_panicked
  unfolding reconcile_avi_delete init_avi
  avi_delete-panics s h =
      ap (λ c. after_init srv (avi_delete_phases srv) s (init_from srv.init s.obj c s.avi)) h

  abbrev Panicked : State → Type 0
  Panicked s = Stuck s × (s.halt ≡ some has_panicked)

  panics_by :
      (h : Option Halt) (s : State)
      → s.halt ≡ h
      → Stuck s
      → Panicked (by_halt h (reconcile_avi_delete srv) s).0
  panics_by none s e p =
      subst (λ (r : State × CtrlResult × Option Error). Panicked r.0)
        (sym (avi_delete-panics s p.client)) (Stuck-Closed.on_panic s p, refl)
  panics_by (some has_panicked) s e p = (p, e)
  panics_by (some waits_for_ever) s e p = absurd (subst Goes e p.goes)

  delete_phases-Panicked : (s : State) → Stuck s → Panicked (delete_phases srv s).0
  delete_phases-Panicked s p =
      let clusters = guarded (reconcile_clusters_delete srv) in
      subst Panicked
        (sym
          (reconcile_phases-all srv.agg (clusters ∷ guarded (reconcile_avi_delete srv) ∷ []) s).0)
        (panics_by (clusters s).0.halt (clusters s).0 refl (
          guarded-Keeps InCluster Stuck Stuck-Closed (reconcile_clusters_delete srv) clusters-Stuck
            s p))

  -- A pass that deletes nothing in the AVI Controller and still gives the object up.
  abbrev pub IsDropped : Pass srv → Type 0
  IsDropped pass =
      All InCluster pass.state.writes
      × (obj : AkoDeploymentConfig) × (pass.patched ≡ some obj)
      × (srv.fin.contains obj.finalizers ako_deployment_config_finalizer ≡ false)

  pass_of-IsDropped :
      (patch : AkoDeploymentConfig → Option Error) (r : State × CtrlResult × Option Error)
      → Panicked r.0
      → IsDropped (pass_of srv patch (after_phases srv r))
  pass_of-IsDropped patch r (p, h) = rw h (
    p.writes,
    (without_finalizer srv r.0).obj,
    refl,
    srv.fin.contains-remove_self r.0.obj.finalizers ako_deployment_config_finalizer,
  )

  handle-deleting :
      (s : State)
      → s.obj.deleting ≡ true
      → has_finalizer srv s ≡ true
      → handle srv s ≡ after_phases srv (delete_phases srv s)
  unfolding reconcile_delete
  handle-deleting s d f =
      ap (λ b. if b then reconcile_delete srv s else reconcile_normal srv s) d
      ∙ ap (λ b. if b then after_phases srv (delete_phases srv s) else (s, done, none)) f

  -- Where an earlier initAVI has left a nil pointer as the client, a pass over an AKODeploymentConfig that is being
  -- deleted patches the object without its finalizer, although the panic of initAVI comes before any deletion
  -- of a user in the AVI Controller or of the AviInfraSetting.
  pub reconcile-IsDropped :
      (obj : AkoDeploymentConfig) (new_helper patch : AkoDeploymentConfig → Option Error)
      (s : State)
      → obj.deleting ≡ true
      → srv.fin.contains obj.finalizers ako_deployment_config_finalizer ≡ true
      → new_helper obj ≡ none
      → s.avi.avi_client ≡ nil_pointer
      → s.halt ≡ none
      → s.writes ≡ []
      → IsDropped (reconcile srv (ok obj) new_helper patch s)
  unfolding reconcile
  reconcile-IsDropped obj new_helper patch s d f n c h w =
      let start = record s { obj = obj } in
      let stuck : Stuck start = record {
        client = c;
        goes = subst Goes (sym h) tt;
        writes = subst (All InCluster) (sym w) tt;
      } in
      subst (λ o. IsDropped (with_helper srv patch start o)) (sym n)
        (subst (λ (r : State × CtrlResult × Option Error). IsDropped (pass_of srv patch r))
          (sym (handle-deleting start d f))
          (pass_of-IsDropped patch (delete_phases srv start) (delete_phases-Panicked start stuck)))
