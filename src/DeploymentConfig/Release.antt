-- ===== src/DeploymentConfig/Release.antt =====
-- When one pass gives up an AKODeploymentConfig that is being deleted.
use load_balancer_operator_f.Prelude.{
  true, Option, none, some, List, [], ◌∷◌, map, ◌≡◌, sym, ap, ◌∙◌, if◌then◌else◌,
}
use load_balancer_operator_f.Kube.{Error, is_not_found, Result, ok, err, Cluster, CtrlResult, done}
use load_balancer_operator_f.Kube.Interfaces.{Aggregates}
use load_balancer_operator_f.Phases.{
  Phase, with_error, next_result, phase_loop, aggregated, reconcile_phases,
  reconcile_clusters_phases,
}
use load_balancer_operator_f.HaProvider.{get_avi_infra_setting_name}
use load_balancer_operator_f.AviInit.{AviState, returned, init_avi}
use load_balancer_operator_f.Reconciler.{
  infra_deleted, AviInfraSetting, State, Server, written, by_halt, guarded, guarded_in_cluster,
}
use load_balancer_operator_f.AviPhase.{
  patches, clusters_of, delete_infra_found, infra_delete_for, reconcile_avi_infra_setting_delete,
  in_clusters, user_delete_phase, after_init, avi_delete_phases, reconcile_avi_delete,
}
use load_balancer_operator_f.DeploymentConfig.{
  released_in_clusters, deleted_in_clusters, reconcile_clusters_delete, without_finalizer,
  after_phases, delete_phases, has_finalizer, reconcile_delete, deferred,
}

-- A phase that succeeds and leaves a state behind.
abbrev Gives : Phase State → State → State → Type 0
Gives phase s t = phase s ≡ (t, done, none)

Gives-guarded :
    (phase : Phase State) (s t : State)
    → s.halt ≡ none
    → Gives phase s t
    → Gives (guarded phase) s t
Gives-guarded phase s t h g = ap (λ o. by_halt o phase s) h ∙ g

module _ (agg : Aggregates) where
  loop-one :
      (g : Phase State) (t u : State)
      → Gives g t u
      → phase_loop agg (g ∷ []) t done [] ≡ (u, done, [])
  unfolding phase_loop
  loop-one g t u k =
      ap
        (λ (r : State × CtrlResult × Option Error).
          phase_loop agg [] r.0 (next_result agg (with_error [] r.2) done r.1) (with_error [] r.2))
        k
      ∙ ap (λ x. (u, x, [])) (agg.lowest_nonzero-zero done)

  loop-two :
      (f g : Phase State) (s t u : State)
      → Gives f s t
      → Gives g t u
      → phase_loop agg (f ∷ g ∷ []) s done [] ≡ (u, done, [])
  unfolding phase_loop
  loop-two f g s t u h k =
      ap
        (λ (r : State × CtrlResult × Option Error).
          phase_loop agg (g ∷ []) r.0 (next_result agg (with_error [] r.2) done r.1)
            (with_error [] r.2))
        h
      ∙ ap (λ x. phase_loop agg (g ∷ []) t x []) (agg.lowest_nonzero-zero done)
      ∙ loop-one g t u k

  -- Two phases, one after the other.
  Gives-two :
      (f g : Phase State) (s t u : State)
      → Gives f s t
      → Gives g t u
      → Gives (reconcile_phases agg (f ∷ g ∷ [])) s u
  unfolding reconcile_phases
  Gives-two f g s t u h k =
      ap (aggregated agg) (loop-two f g s t u h k) ∙ ap (λ o. (u, done, o)) agg.new_aggregate-nil

module _ (srv : Server) where
  in_clusters-none :
      (normal_phases delete_phases : List (Phase (State × Cluster))) (s : State)
      → clusters_of srv s ≡ ok []
      → Gives (in_clusters srv normal_phases delete_phases) s s
  unfolding in_clusters reconcile_clusters_phases
  in_clusters-none normal_phases delete_phases s h =
      ap
        (λ list.
          reconcile_clusters_phases srv.agg (patches srv) s.obj
            (map guarded_in_cluster normal_phases) (map guarded_in_cluster delete_phases) list s)
        h

  -- The AviInfraSetting is gone already, or it is deleted.
  abbrev pub InfraGone : State → Result AviInfraSetting → State → Type 0
  InfraGone s (ok found) t =
      ((srv.answers s.writes).delete_infra found ≡ none)
      × (t ≡ written s (infra_deleted found ∷ []))
  InfraGone s (err e) t = (is_not_found e ≡ true) × (t ≡ s)

  delete_infra-Gives :
      (s t : State) (r : Result AviInfraSetting)
      → InfraGone s r t
      → delete_infra_found srv s r ≡ (t, done, none)
  delete_infra-Gives s t (ok found) (h, e) =
      ap (λ o. (written s (infra_deleted found ∷ []), done, o)) h
      ∙ ap (λ x. (x, done, none)) (sym e)
  delete_infra-Gives s t (err e) (h, k) =
      ap (λ b. if b then (s, done, none) else (s, done, some e)) h
      ∙ ap (λ x. (x, done, none)) (sym k)

  abbrev infra_of : State → Result AviInfraSetting
  infra_of s = (srv.answers s.writes).get_infra (get_avi_infra_setting_name s.obj)

  infra_delete-Gives :
      (s t : State)
      → clusters_of srv s ≡ ok []
      → InfraGone s (infra_of s) t
      → Gives (reconcile_avi_infra_setting_delete srv) s t
  unfolding reconcile_avi_infra_setting_delete
  infra_delete-Gives s t h g = ap (infra_delete_for srv s) h ∙ delete_infra-Gives s t (infra_of s) g

  -- What lets one pass finish from `s`, with `avi` as the client that initAVI leaves and `t` as the last state: no
  -- cluster is selected, initAVI returns without an error and the AviInfraSetting goes.
  pub record Finishes (s t : State) (avi : AviState) : Type 0 where
    pub goes : s.halt ≡ none
    pub goes_on : t.halt ≡ none
    pub init : init_avi srv.init s.obj s.avi ≡ (avi, returned none)
    pub none_selected : clusters_of srv s ≡ ok []
    pub infra_gone : InfraGone (record s { avi = avi }) (infra_of s) t
    pub none_selected_after : clusters_of srv t ≡ ok []

  avi_delete-Gives :
      (s t : State) (avi : AviState) → Finishes s t avi → Gives (reconcile_avi_delete srv) s t
  unfolding reconcile_avi_delete
  avi_delete-Gives s t avi f =
      let start = record s { avi = avi } in
      let infra = reconcile_avi_infra_setting_delete srv in
      let users = in_clusters srv (user_delete_phase srv ∷ []) (user_delete_phase srv ∷ []) in
      ap (after_init srv (avi_delete_phases srv) s) f.init
      ∙ Gives-two srv.agg (guarded infra) (guarded users) start t t
          (Gives-guarded infra start t f.goes
            (infra_delete-Gives start t f.none_selected f.infra_gone))
          (Gives-guarded users t t f.goes_on (
            in_clusters-none (user_delete_phase srv ∷ []) (user_delete_phase srv ∷ []) t
              f.none_selected_after))

  clusters_delete-Gives :
      (s : State) → clusters_of srv s ≡ ok [] → Gives (reconcile_clusters_delete srv) s s
  unfolding reconcile_clusters_delete
  clusters_delete-Gives s h =
      in_clusters-none (released_in_clusters srv) (deleted_in_clusters srv) s h

  -- Where no cluster is selected, initAVI returns without an error and the AviInfraSetting is gone or is deleted
  -- without an error, one call of reconcileDelete for an object with the finalizer removes it, asks for nothing more
  -- and returns no error; its only write is the deletion of an AviInfraSetting that is still there.
  pub reconcile_delete-Finishes :
      (s t : State) (avi : AviState)
      → has_finalizer srv s ≡ true
      → Finishes s t avi
      → reconcile_delete srv s ≡ (without_finalizer srv t, done, none)
  unfolding reconcile_delete
  reconcile_delete-Finishes s t avi h f =
      let clusters = reconcile_clusters_delete srv in
      let last = reconcile_avi_delete srv in
      ap (λ b. if b then after_phases srv (delete_phases srv s) else (s, done, none)) h
      ∙ ap (after_phases srv) (
          Gives-two srv.agg (guarded clusters) (guarded last) s s t
            (Gives-guarded clusters s s f.goes (clusters_delete-Gives s f.none_selected))
            (Gives-guarded last s t f.goes (avi_delete-Gives s t avi f)))
      ∙ ap (λ o. deferred srv o (t, done, none)) f.goes_on
