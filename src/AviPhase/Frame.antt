-- ===== src/AviPhase/Frame.antt =====
-- What the phases of the AVI Controller keep, of a property of the state that every write and every panic keeps.
use load_balancer_operator_f.Prelude.{
  String, Bool, true, false, Option, none, some, List, [], ◌∷◌, ◌++◌, ◌==◌, All,
}
use load_balancer_operator_f.Go.Net.{Ip, IpNet, parse_cidr}
use load_balancer_operator_f.Kube.{Error, is_not_found, Result, ok, err, Cluster, CtrlResult, done}
use load_balancer_operator_f.Phases.Keeps.{Keeps}
use load_balancer_operator_f.Phases.{Phase}
use load_balancer_operator_f.Kube.Exec.{Exec}
use load_balancer_operator_f.AviInit.{AviState, Slot, no_client, nil_pointer, held, init_avi}
use load_balancer_operator_f.AviNetwork.{Network}
use load_balancer_operator_f.Reconciler.{
  Write, network_updated, ipam, infra_created, infra_deleted, of_user, AviInfraSetting,
  waits_for_ever, State, Server, of_handler,
}
use load_balancer_operator_f.AviPhase.{
  create_avi_infra_setting, update_by, with_cidr, with_network, subnets_by,
  reconcile_network_subnets, add_by, add_data_network, then_data_network, usable_by,
  reconcile_cloud_usable_network, with_infra, reconcile_avi_infra_setting, clusters_of,
  delete_infra_found, infra_delete_for, reconcile_avi_infra_setting_delete, with_version,
  version_by, version_from, reconcile_controller_version, in_clusters, user_handler, user_phase,
  user_delete_handler, user_delete_phase, avi_phases, avi_delete_phases, reconcile_avi,
  reconcile_avi_delete,
}
use load_balancer_operator_f.AviPhase.Keeps.{
  Closed, of_exec-Keeps, of_handler-Keeps, guarded-Keeps, either-Keeps, in_clusters-Keeps,
  after_init-Keeps,
}

module _ (P : State → Type 0) (closed : Closed (λ w. Unit {0}) P) (srv : Server) where
  abbrev After : State × CtrlResult × Option Error → Type 0
  After r = P r.0

  one : (s : State) (w : Write) → P s → P (record s { writes = s.writes ++ w ∷ [] })
  one s w p = closed.on_writes s (w ∷ []) (tt, tt) p

  update_by-Keeps : (s : State) (r : Network × Bool) → P s → After (update_by srv s r)
  update_by-Keeps s (network, true) p = one s (network_updated network) p
  update_by-Keeps s (network, false) p = p

  with_cidr-Keeps :
      (s : State) (network : Network) (o : Option (Ip × IpNet))
      → P s
      → After (with_cidr srv s network o)
  with_cidr-Keeps s network none p = p
  with_cidr-Keeps s network (some (addr, cidr)) p = update_by-Keeps s _ p

  with_network-Keeps : (s : State) (r : Result Network) → P s → After (with_network srv s r)
  with_network-Keeps s (err e) p = p
  with_network-Keeps s (ok network) p =
      with_cidr-Keeps s network (parse_cidr s.obj.spec.data_network.cidr) p

  subnets-Keeps : (slot : Slot) → Keeps P (subnets_by srv slot)
  subnets-Keeps no_client s p = p
  subnets-Keeps nil_pointer s p = closed.on_panic s p
  subnets-Keeps (held c) s p = with_network-Keeps s _ p

  add_by-Keeps : (slot : Slot) (name : String) → Keeps P (add_by srv slot name)
  add_by-Keeps no_client name s p = closed.on_panic s p
  add_by-Keeps nil_pointer name s p = closed.on_panic s p
  add_by-Keeps (held c) name s p = of_exec-Keeps (λ w. Unit {0}) P closed ipam _ (λ w. tt) s _ p

  add_data-Keeps : Keeps P (add_data_network srv)
  add_data-Keeps s p = add_by-Keeps s.avi.avi_client s.obj.spec.data_network.name s p

  then_data-Keeps :
      (r : State × CtrlResult × Option Error) → After r → After (then_data_network srv r)
  then_data-Keeps (s, res, some e) p = p
  then_data-Keeps (s, res, none) p =
      guarded-Keeps (λ w. Unit {0}) P closed (add_data_network srv) add_data-Keeps s p

  usable_by-Keeps : (b : Bool) → Keeps P (usable_by srv b)
  usable_by-Keeps true s p =
      then_data-Keeps (add_by srv s.avi.avi_client s.obj.spec.control_plane_network.name s)
        (add_by-Keeps s.avi.avi_client s.obj.spec.control_plane_network.name s p)
  usable_by-Keeps false s p = add_data-Keeps s p

  with_infra-Keeps :
      (s : State) (new : AviInfraSetting) (r : Result AviInfraSetting)
      → P s
      → After (with_infra srv s new r)
  with_infra-Keeps s new (ok found) p = one s _ p
  with_infra-Keeps s new (err e) p =
      either-Keeps P (is_not_found e) _ _ (one s (infra_created new) p) p

  infra-Keeps : Keeps P (reconcile_avi_infra_setting srv)
  unfolding reconcile_avi_infra_setting
  infra-Keeps s p =
      either-Keeps P (s.obj.spec.control_plane_network.name == "") _ _ p
        (with_infra-Keeps s (create_avi_infra_setting s.obj) _ p)

  delete_found-Keeps :
      (s : State) (r : Result AviInfraSetting) → P s → After (delete_infra_found srv s r)
  delete_found-Keeps s (ok found) p = one s (infra_deleted found) p
  delete_found-Keeps s (err e) p = either-Keeps P (is_not_found e) _ _ p p

  delete_for-Keeps :
      (s : State) (r : Result (List Cluster)) → P s → After (infra_delete_for srv s r)
  delete_for-Keeps s (err e) p = p
  delete_for-Keeps s (ok []) p = delete_found-Keeps s _ p
  delete_for-Keeps s (ok (c ∷ cs)) p = p

  abbrev KeepsVersion : Type 0
  KeepsVersion = (s : State) (version : String) → P s → P (with_version srv s version)

  version_by-Keeps :
      KeepsVersion → (s : State) (r : Result String) → P s → After (version_by srv s r)
  version_by-Keeps v s (ok version) p = v s version p
  version_by-Keeps v s (err e) p = p

  version-Keeps : KeepsVersion → (slot : Slot) → Keeps P (version_from srv slot)
  version-Keeps v no_client s p = closed.on_panic s p
  version-Keeps v nil_pointer s p = closed.on_panic s p
  version-Keeps v (held c) s p = version_by-Keeps v s c.controller_version p

  -- A list of handlers in the clusters.
  abbrev InClusters : List (Phase (State × Cluster)) → Type 0
  InClusters phases =
      All (λ (phase : Phase (State × Cluster)). (x : State × Cluster) → P x.0 → P (phase x).0.0)
        phases

  pub any_clusters-Keeps :
      (normal_phases delete_phases : List (Phase (State × Cluster)))
      → InClusters normal_phases
      → InClusters delete_phases
      → Keeps P (in_clusters srv normal_phases delete_phases)
  any_clusters-Keeps normal_phases delete_phases =
      in_clusters-Keeps (λ w. Unit {0}) P closed srv normal_phases delete_phases (λ c. tt)

  pub any_handler-Keeps :
      {V A : Type 0} (f : V → Write) (g : A → CtrlResult)
      (handler : State → Cluster → Cluster × Exec V A) (x : State × Cluster)
      → P x.0
      → P (of_handler f g handler x).0.0
  any_handler-Keeps f g handler = of_handler-Keeps (λ w. Unit {0}) P closed f g handler (λ v. tt)

  users-Keeps : Keeps P (in_clusters srv (user_phase srv ∷ []) (user_delete_phase srv ∷ []))
  users-Keeps =
      any_clusters-Keeps (user_phase srv ∷ []) (user_delete_phase srv ∷ [])
        (any_handler-Keeps of_user (λ u. done) (user_handler srv), tt)
        (any_handler-Keeps of_user (λ u. done) (user_delete_handler srv), tt)

  users_delete-Keeps :
      Keeps P (in_clusters srv (user_delete_phase srv ∷ []) (user_delete_phase srv ∷ []))
  users_delete-Keeps =
      any_clusters-Keeps (user_delete_phase srv ∷ []) (user_delete_phase srv ∷ [])
        (any_handler-Keeps of_user (λ u. done) (user_delete_handler srv), tt)
        (any_handler-Keeps of_user (λ u. done) (user_delete_handler srv), tt)

  module _ (avi : (s : State) (a : AviState) → P s → P (record s { avi = a }))
      (waits : (s : State) → P s → P (record s { halt = some waits_for_ever })) where
    pub reconcile_avi-Keeps : KeepsVersion → Keeps P (reconcile_avi srv)
    unfolding reconcile_avi reconcile_network_subnets reconcile_cloud_usable_network
        reconcile_controller_version
    reconcile_avi-Keeps v s p =
        after_init-Keeps (λ w. Unit {0}) P closed srv (avi_phases srv) avi waits
          (
            (λ s p. subnets-Keeps s.avi.avi_client s p),
            (
              (λ s p. usable_by-Keeps _ s p),
              (infra-Keeps, ((λ s p. version-Keeps v s.avi.avi_client s p), (users-Keeps, tt))),
            ),
          )
          s (init_avi srv.init s.obj s.avi) p

    pub reconcile_avi_delete-Keeps : Keeps P (reconcile_avi_delete srv)
    unfolding reconcile_avi_delete reconcile_avi_infra_setting_delete
    reconcile_avi_delete-Keeps s p =
        after_init-Keeps (λ w. Unit {0}) P closed srv (avi_delete_phases srv) avi waits
          ((λ s p. delete_for-Keeps s (clusters_of srv s) p), (users_delete-Keeps, tt)) s
          (init_avi srv.init s.obj s.avi) p
