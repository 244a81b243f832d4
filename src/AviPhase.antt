-- ===== src/AviPhase.antt =====
-- controllers/akodeploymentconfig/akodeploymentconfig_controller_avi_phase.go: the phases that bring the AVI
-- Controller and the AviInfraSetting to an AKODeploymentConfig. They change a state, which has the object, the
-- client that the reconciler holds and the writes so far; a phase after a panic, or after one that waits for ever,
-- does not run.
pub mod Keeps
pub mod Frame
use load_balancer_operator_f.Prelude.{
  String, ◌⧺◌, Bool, true, false, not, ◌&&◌, Option, none, some, List, [], ◌∷◌, ◌++◌, map, is_empty,
  Dict, ◌==◌, if◌then◌else◌,
}
use load_balancer_operator_f.Go.Net.{Ip, IpNet, to_4, parse_cidr, mask_size}
use load_balancer_operator_f.Go.Print.{ip_string}
use load_balancer_operator_f.Kube.{
  Error, message, is_not_found, Result, ok, err, Cluster, Selector, CtrlResult, done,
}
use load_balancer_operator_f.Kube.Exec.{Outcome, returns, fails, panics, Exec}
use load_balancer_operator_f.Kube.Interfaces.{Finalizers, Conditions, Env, Aggregates, Selectors}
use load_balancer_operator_f.Api.{AkoDeploymentConfig}
use load_balancer_operator_f.IpFamily.{get_ip_family_from_cidr}
use load_balancer_operator_f.HaProvider.{get_avi_infra_setting_name}
use load_balancer_operator_f.Mapping.{list_ako_deployment_config_select_clusters}
use load_balancer_operator_f.Phases.{Phase, Patches, reconcile_phases, reconcile_clusters_phases}
use load_balancer_operator_f.AviInit.{
  AviState, Slot, no_client, nil_pointer, held, Ended, returned, blocked, panicked,
  Answers as InitAnswers, init_avi,
}
use load_balancer_operator_f.AviNetwork.{Network, ensure_avi_network}
use load_balancer_operator_f.NetProvider.{
  Write as IpamWrite, Answers as IpamAnswers, add_usable_network,
}
use load_balancer_operator_f.AkoUser.Role.{AtLeast}
use load_balancer_operator_f.AkoUser.Account.{Write as UserWrite, Answers as UserAnswers}
use load_balancer_operator_f.AkoUser.Reconcile.{reconcile_avi_user, reconcile_avi_user_delete}
use load_balancer_operator_f.AddonSecret.{Write as AddonWrite, Answers as AddonAnswers}
use load_balancer_operator_f.ClusterCleanup.{Write as CleanupWrite, Answers as CleanupAnswers}
use load_balancer_operator_f.Reconciler.{
  Answers, AviInfraSetting, Halt, InfraSpec, InfraVipNetwork, Server, State, Write, by_halt,
  cluster_patched, guarded, guarded_in_cluster, has_panicked, infra_created, infra_deleted,
  infra_updated, ipam, network_updated, of_addon, of_cleanup, of_exec, of_handler, of_user, stopped,
  waits_for_ever, written, wrote,
}

unfoldable pub create_avi_infra_setting : AkoDeploymentConfig → AviInfraSetting
create_avi_infra_setting adc =
    let size = adc.spec.extra_configs.ingress_configs.shard_vs_size in
    let network = adc.spec.control_plane_network in
    record {
      name = get_avi_infra_setting_name adc;
      spec = record {
        se_group = adc.spec.service_engine_group;
        vip_networks =
            (if get_ip_family_from_cidr network.cidr == "V6"
              then record { network_name = network.name; cidr = ""; v6_cidr = network.cidr }
              else record { network_name = network.name; cidr = network.cidr; v6_cidr = "" })
            ∷ [];
        shard_size = (if size == "" then "SMALL" else size);
        t1_lr = some adc.spec.extra_configs.networks_config.nsxt_t1lr;
      };
    }

module _ (srv : Server) where
  abbrev pub update_by : State → Network × Bool → State × CtrlResult × Option Error
  update_by s (network, false) = (s, done, none)
  update_by s (network, true) =
      wrote s (network_updated network) ((srv.answers s.writes).network_update network)

  abbrev pub with_cidr : State → Network → Option (Ip × IpNet) → State × CtrlResult × Option Error
  with_cidr s network none = (s, done, none)
  with_cidr s network (some (addr, cidr)) = update_by s (
      ensure_avi_network srv.sorter network (if is_empty (to_4 addr) then "V6" else "V4")
        (ip_string cidr.ip) (mask_size cidr.mask) s.obj.spec.data_network.ip_pools)

  abbrev pub with_network : State → Result Network → State × CtrlResult × Option Error
  with_network s (err e) = (s, done, none)
  with_network s (ok network) = with_cidr s network (parse_cidr s.obj.spec.data_network.cidr)

  abbrev pub subnets_by : Slot → Phase State
  subnets_by no_client s = (s, done, some (message "AVI client not initialized"))
  subnets_by nil_pointer s = stopped s has_panicked
  subnets_by (held c) s = with_network s (
      (srv.answers s.writes).usable.network_by_name s.obj.spec.data_network.name
        s.obj.spec.cloud_name)

  unfoldable pub reconcile_network_subnets : Phase State
  reconcile_network_subnets s = subnets_by s.avi.avi_client s

  -- AddUsableNetwork on the client that the reconciler holds.
  abbrev pub add_by : Slot → String → Phase State
  add_by no_client name s = stopped s has_panicked
  add_by nil_pointer name s = stopped s has_panicked
  add_by (held c) name s =
      of_exec ipam (λ u. done) s
        (add_usable_network (srv.answers s.writes).usable s.obj.spec.cloud_name name)

  abbrev pub add_data_network : Phase State
  add_data_network s = add_by s.avi.avi_client s.obj.spec.data_network.name s

  abbrev pub then_data_network :
      State × CtrlResult × Option Error → State × CtrlResult × Option Error
  then_data_network (s, res, some e) = (s, done, some e)
  then_data_network (s, res, none) = guarded add_data_network s

  abbrev pub usable_by : Bool → Phase State
  usable_by true s =
      then_data_network (add_by s.avi.avi_client s.obj.spec.control_plane_network.name s)
  usable_by false s = add_data_network s

  unfoldable pub reconcile_cloud_usable_network : Phase State
  reconcile_cloud_usable_network s =
      let network = s.obj.spec.control_plane_network in
      usable_by (not (network.name == "") && not (network.cidr == "")) s

  abbrev pub with_infra :
      State → AviInfraSetting → Result AviInfraSetting → State × CtrlResult × Option Error
  with_infra s new (ok found) =
      let setting = record found { spec = new.spec } in
      wrote s (infra_updated setting) ((srv.answers s.writes).update_infra setting)
  with_infra s new (err e) =
      if is_not_found e
      then wrote s (infra_created new) ((srv.answers s.writes).create_infra new)
      else (s, done, some e)

  unfoldable pub reconcile_avi_infra_setting : Phase State
  reconcile_avi_infra_setting s =
      if s.obj.spec.control_plane_network.name == ""
      then (s, done, none)
      else with_infra s (create_avi_infra_setting s.obj)
          ((srv.answers s.writes).get_infra (get_avi_infra_setting_name s.obj))

  abbrev pub clusters_of : State → Result (List Cluster)
  clusters_of s =
      let ans = srv.answers s.writes in
      list_ako_deployment_config_select_clusters srv.env srv.cond srv.sel ans.list_clusters
        ans.get_default_adc s.obj

  abbrev pub delete_infra_found : State → Result AviInfraSetting → State × CtrlResult × Option Error
  delete_infra_found s (ok found) =
      wrote s (infra_deleted found) ((srv.answers s.writes).delete_infra found)
  delete_infra_found s (err e) = if is_not_found e then (s, done, none) else (s, done, some e)

  abbrev pub infra_delete_for : State → Result (List Cluster) → State × CtrlResult × Option Error
  infra_delete_for s (err e) = (s, done, some e)
  infra_delete_for s (ok []) =
      delete_infra_found s ((srv.answers s.writes).get_infra (get_avi_infra_setting_name s.obj))
  infra_delete_for s (ok (c ∷ cs)) = (s, done, none)

  unfoldable pub reconcile_avi_infra_setting_delete : Phase State
  reconcile_avi_infra_setting_delete s = infra_delete_for s (clusters_of s)

  abbrev pub with_version : State → String → State
  with_version s version = record s {
    obj = record s.obj { spec = record s.obj.spec { controller_version = version } };
  }

  abbrev pub version_by : State → Result String → State × CtrlResult × Option Error
  version_by s (err e) = (s, done, some e)
  version_by s (ok version) = (with_version s version, done, none)

  abbrev pub version_from : Slot → Phase State
  version_from no_client s = stopped s has_panicked
  version_from nil_pointer s = stopped s has_panicked
  version_from (held c) s = version_by s c.controller_version

  unfoldable pub reconcile_controller_version : Phase State
  reconcile_controller_version s = version_from s.avi.avi_client s

  abbrev pub patch_by : Option Halt → State → Cluster → State × Option Error
  patch_by none s cluster =
      (written s (cluster_patched cluster ∷ []), (srv.answers s.writes).patch_cluster cluster)
  patch_by (some h) s cluster = (s, none)

  abbrev pub patches : Patches srv.agg State
  patches = record { new_helper = srv.new_helper; patch = λ s cluster. patch_by s.halt s cluster }

  -- ReconcileClustersPhases with two lists of phases.
  unfoldable pub in_clusters :
      List (Phase (State × Cluster)) → List (Phase (State × Cluster)) → Phase State
  in_clusters normal_phases delete_phases s =
      reconcile_clusters_phases srv.agg patches s.obj (map guarded_in_cluster normal_phases)
        (map guarded_in_cluster delete_phases) (clusters_of s) s

  abbrev pub user_handler : State → Cluster → Cluster × Exec UserWrite Unit
  user_handler s cluster =
      reconcile_avi_user srv.at_least srv.order srv.cond (srv.answers s.writes).user cluster s.obj

  abbrev pub user_phase : Phase (State × Cluster)
  user_phase = of_handler of_user (λ u. done) user_handler

  abbrev pub user_delete_handler : State → Cluster → Cluster × Exec UserWrite Unit
  user_delete_handler s cluster =
      reconcile_avi_user_delete srv.at_least srv.order srv.cond (srv.answers s.writes).user cluster
        s.obj

  abbrev pub user_delete_phase : Phase (State × Cluster)
  user_delete_phase = of_handler of_user (λ u. done) user_delete_handler

  -- The phases after initAVI, which may not return.
  abbrev pub after_init :
      List (Phase State) → State → AviState × Ended → State × CtrlResult × Option Error
  after_init phases s (avi, returned (some e)) = (record s { avi = avi }, done, some e)
  after_init phases s (avi, returned none) =
      reconcile_phases srv.agg (map guarded phases) (record s { avi = avi })
  after_init phases s (avi, blocked) = stopped (record s { avi = avi }) waits_for_ever
  after_init phases s (avi, panicked) = stopped (record s { avi = avi }) has_panicked

  abbrev pub avi_phases : List (Phase State)
  avi_phases =
      reconcile_network_subnets
      ∷ reconcile_cloud_usable_network
      ∷ reconcile_avi_infra_setting
      ∷ reconcile_controller_version
      ∷ in_clusters (user_phase ∷ []) (user_delete_phase ∷ [])
      ∷ []

  unfoldable pub reconcile_avi : Phase State
  reconcile_avi s = after_init avi_phases s (init_avi srv.init s.obj s.avi)

  abbrev pub avi_delete_phases : List (Phase State)
  avi_delete_phases =
      reconcile_avi_infra_setting_delete
      ∷ in_clusters (user_delete_phase ∷ []) (user_delete_phase ∷ [])
      ∷ []

  unfoldable pub reconcile_avi_delete : Phase State
  reconcile_avi_delete s = after_init avi_delete_phases s (init_avi srv.init s.obj s.avi)
