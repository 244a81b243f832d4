-- ===== src/HaProvider/Handlers.antt =====
-- The handlers of pkg/haprovider/haprovider.go. What the API server and the resolver answer is an
-- interface; each run lists the writes that it attempts.
use load_balancer_operator_f.Prelude.{
  String, Bool, false, not, ◌&&◌, Option, none, some, List, [], ◌∷◌, Dict, insert, has, ◌==◌, ◌⧺◌,
  if◌then◌else◌,
}
use load_balancer_operator_f.Go.Int.{ℤ, pos}
use load_balancer_operator_f.Kube.{
  Error, message, wrap, Result, ok, err, is_not_found, ObjectMeta, NamespacedName, Machine, Cluster,
}
use load_balancer_operator_f.Kube.Exec.{
  Outcome, returns, Exec, pure, throw, read, check, unless_panic, attempt, ◌>>=◌,
}
use load_balancer_operator_f.Kube.Interfaces.{Env, Selectors, Finalizers}
use load_balancer_operator_f.Api.{AkoDeploymentConfig}
use load_balancer_operator_f.Api.Constants.{
  ha_service_annotations_key, tkg_cluster_name_label, tkg_cluster_namespace_label,
  tkg_management_cluster_role_label, ha_avi_infra_setting_annotations_key, tkg_system_namespace,
  ha_service_bootstrap_cluster_finalizer, ako_preferred_ip_annotation,
}
use load_balancer_operator_f.AkoOperator.{
  get_control_plane_endpoint, set_control_plane_endpoint, get_control_plane_endpoint_port,
}
use load_balancer_operator_f.IpFamily.{get_primary_ip_family}
use load_balancer_operator_f.Mapping.{get_ako_deployment_config_for_cluster}
use load_balancer_operator_f.HaProvider.{
  EndpointsObject, get_ha_service_name, get_avi_infra_setting_name, is_valid_ip,
  remove_machine_ip_from_endpoints, add_machine_ip_to_endpoints,
}

pub record OwnerReference : Type 0 where
  pub api_version : String
  pub kind : String
  pub name : String
  pub uid : String

-- corev1.Service, in the fields that the code reads or writes
pub record Service : Type 0 where
  pub metadata : ObjectMeta
  pub open metadata use *
  pub owner_references : List OwnerReference
  pub kind : String
  pub ip_families : List String
  pub port : ℤ
  pub target_port : ℤ
  pub load_balancer_ip : String
  -- status.loadBalancer.ingress, by its IPs
  pub ingress : List String

-- What the handlers ask of the API server, of the resolver and of the name of an AviInfraSetting.
pub record Answers : Type 0 where
  pub get_cluster : NamespacedName → Result Cluster
  pub list_adcs : Result (List AkoDeploymentConfig)
  pub get_infra_setting : String → Result String
  pub get_endpoints : NamespacedName → Result EndpointsObject
  pub create_endpoints : EndpointsObject → Result EndpointsObject
  pub update_endpoints : EndpointsObject → Result EndpointsObject
  pub get_service : NamespacedName → Result Service
  pub create_service : Service → Result Service
  pub update_service : Service → Result Service
  pub query_fqdn : String → Result String

pub data Write : Type 0 where
  endpoints_created endpoints_updated : EndpointsObject → Write
  service_created service_updated : Service → Write

abbrev pub plain_meta : String → String → ObjectMeta
plain_meta namespace name = record {
  name = name;
  namespace = namespace;
  uid = "";
  labels = [];
  annotations = [];
  finalizers = [];
  deleting = false;
}

abbrev pub cluster_ip_family_name : String → String
cluster_ip_family_name family = if family == "V6" then "IPv6" else "IPv4"

abbrev pub first_result : String × Option Error → Result String
first_result (s, none) = ok s
first_result (s, some e) = err e

abbrev pub first_port : ℤ × Option Error → Result ℤ
first_port (n, none) = ok n
first_port (n, some e) = err e

-- errors.Wrapf
abbrev pub wrapped : {A : Type 0} → String → Result A → Result A
wrapped text (ok a) = ok a
wrapped text (err e) = err (wrap text e)

module _ (env : Env) (fin : Finalizers) (sel : Selectors) (ans : Answers) where
  abbrev pub found_or_created :
      EndpointsObject → Result EndpointsObject → Exec Write EndpointsObject
  found_or_created fresh (ok e) = pure e
  found_or_created fresh (err e) =
      if is_not_found e
      then attempt (endpoints_created fresh) (ans.create_endpoints fresh)
      else throw e

  unfoldable pub ensure_endpoints : String → String → Exec Write EndpointsObject
  ensure_endpoints name namespace =
      found_or_created (record { metadata = plain_meta namespace name; subsets = none })
        (ans.get_endpoints (record { namespace = namespace; name = name }))

  abbrev pub get_adc_for_cluster : Cluster → Result (Option AkoDeploymentConfig)
  get_adc_for_cluster cluster = get_ako_deployment_config_for_cluster sel ans.list_adcs cluster

  abbrev pub ip_family_of : Option AkoDeploymentConfig → String
  ip_family_of none = "V4"
  ip_family_of (some adc) =
      if adc.spec.extra_configs.ip_family == "" then "V4" else adc.spec.extra_configs.ip_family

  abbrev pub edit_endpoints : EndpointsObject → Machine → String → Option EndpointsObject
  edit_endpoints endpoints machine ip_family =
      if machine.deleting
      then some (remove_machine_ip_from_endpoints endpoints machine)
      else add_machine_ip_to_endpoints endpoints machine ip_family

  -- What follows the check of the control plane label.
  unfoldable pub update_ha_endpoints : Machine → Exec Write Unit
  update_ha_endpoints machine = do
    cluster ←
        read
          (ans.get_cluster (record { namespace = machine.namespace; name = machine.cluster_name }))
    endpoints ← ensure_endpoints (get_ha_service_name cluster) cluster.namespace
    adc ← read (get_adc_for_cluster cluster)
    edited ← unless_panic (edit_endpoints endpoints machine (ip_family_of adc))
    _ ←
        attempt (endpoints_updated edited)
          (wrapped "Failed to update endpoints" (ans.update_endpoints edited))
    pure tt

  unfoldable pub create_or_update_ha_endpoints : Machine → Exec Write Unit
  create_or_update_ha_endpoints machine =
      if has "cluster.x-k8s.io/control-plane" machine.labels
      then update_ha_endpoints machine
      else pure tt

  abbrev pub none_if_missing : Result String → Result (Option String)
  none_if_missing (ok name) = ok (some name)
  none_if_missing (err e) = if is_not_found e then ok none else err e

  abbrev pub get_avi_infra_setting_from_adc : AkoDeploymentConfig → Result (Option String)
  get_avi_infra_setting_from_adc adc =
      none_if_missing (ans.get_infra_setting (get_avi_infra_setting_name adc))

  abbrev pub base_annotations : Cluster → Dict String
  base_annotations cluster =
      (ha_service_annotations_key, "true")
      ∷ (tkg_cluster_name_label, cluster.name)
      ∷ (tkg_cluster_namespace_label, cluster.namespace)
      ∷ []

  abbrev pub is_management : Cluster → Bool
  is_management cluster = has tkg_management_cluster_role_label cluster.labels

  abbrev pub needs_setting : AkoDeploymentConfig → Bool
  needs_setting adc =
      not (adc.spec.control_plane_network.cidr == "")
      && not (adc.spec.control_plane_network.cidr == adc.spec.data_network.cidr)

  abbrev pub with_setting : Cluster → AkoDeploymentConfig → Option String → Result (Dict String)
  with_setting cluster adc (some name) =
      ok (insert ha_avi_infra_setting_annotations_key name (base_annotations cluster))
  with_setting cluster adc none =
      if is_management cluster && needs_setting adc
      then err (
          message
            "management cluster control plane network set, but corresponding AVIInfraSetting not found, requeue to wait for AVIInfraSetting created")
      else ok (base_annotations cluster)

  abbrev pub annotate_with : Cluster → Option AkoDeploymentConfig → Exec Write (Dict String)
  annotate_with cluster none =
      if is_management cluster
      then throw (
          message
            "management cluster's AKODeploymentConfig didn't find, requeue to wait for AKODeploymentConfig created")
      else pure (base_annotations cluster)
  annotate_with cluster (some adc) = do
    setting ← read (get_avi_infra_setting_from_adc adc)
    read (with_setting cluster adc setting)

  -- The callers read no annotations beside an error.
  unfoldable pub annotate_service : Cluster → Exec Write (Dict String)
  annotate_service cluster = do adc ← read (get_adc_for_cluster cluster); annotate_with cluster adc

  abbrev pub owner_of : Cluster → OwnerReference
  owner_of cluster = record {
    api_version = cluster.api_version;
    kind = cluster.kind;
    name = cluster.name;
    uid = cluster.uid;
  }

  abbrev pub base_service : Cluster → Dict String → ℤ → String → Service
  base_service cluster annotations port family = record {
    metadata = record (plain_meta cluster.namespace (get_ha_service_name cluster)) {
      annotations = annotations;
      finalizers =
          if cluster.namespace == tkg_system_namespace
          then fin.add [] ha_service_bootstrap_cluster_finalizer
          else [];
    };
    owner_references =
        if cluster.namespace == tkg_system_namespace then [] else owner_of cluster ∷ [];
    kind = "LoadBalancer";
    ip_families = cluster_ip_family_name family ∷ [];
    port = port;
    target_port = pos 6443;
    load_balancer_ip = "";
    ingress = [];
  }

  -- An address stays as it is; a host name is resolved.
  abbrev pub resolve : String → Result String
  resolve host = if is_valid_ip host then ok host else ans.query_fqdn host

  abbrev pub place_at : Service → String → Service
  place_at service ip = record service {
    load_balancer_ip = ip;
    metadata = record service.metadata {
      annotations = insert ako_preferred_ip_annotation ip service.annotations;
    };
  }

  abbrev pub placed : Service → Result String → Result Service
  placed service (ok ip) = ok (place_at service ip)
  placed service (err e) = err e

  abbrev pub with_endpoint : Service → String → Result Service
  with_endpoint service endpoint =
      if endpoint == "" then ok service else placed service (resolve endpoint)

  unfoldable pub create_service : Cluster → Exec Write Service
  create_service cluster = do
    annotations ← annotate_service cluster
    port ← read (first_port (get_control_plane_endpoint_port env cluster))
    family ← read (first_result (get_primary_ip_family cluster))
    endpoint ← read (first_result (get_control_plane_endpoint cluster))
    service ← read (with_endpoint (base_service cluster annotations port family) endpoint)
    attempt (service_created service) (ans.create_service service)

  abbrev pub with_port : Cluster → ℤ × Option Error → Cluster × Option Error
  with_port cluster (port, e) = (record cluster { port = port }, e)

  abbrev pub with_port_of : Cluster → Cluster × Option Error
  with_port_of cluster = with_port cluster (get_control_plane_endpoint_port env cluster)

  abbrev pub host_of_ingress : Cluster → String → String → Cluster
  host_of_ingress cluster endpoint ip =
      if not (endpoint == "") && not (is_valid_ip endpoint)
      then record cluster { host = endpoint }
      else set_control_plane_endpoint (record cluster { host = ip }) ip

  abbrev pub endpoint_of_ingress : Cluster → String → List String → Cluster × Option Error
  endpoint_of_ingress cluster name [] =
      (cluster, some (message (name ⧺ " service external ip is not ready")))
  endpoint_of_ingress cluster name (ip ∷ ips) =
      if is_valid_ip ip
      then with_port_of (host_of_ingress cluster (get_control_plane_endpoint cluster).0 ip)
      else (cluster, some (message (name ⧺ " service external ip is not ready")))

  -- The cluster is changed in place, so it comes beside the error.
  unfoldable pub update_cluster_control_plane_endpoint : Cluster → Service → Cluster × Option Error
  update_cluster_control_plane_endpoint cluster service =
      endpoint_of_ingress cluster service.name service.ingress

  unfoldable pub update_control_plane_endpoint_to_service : Cluster → Service → Exec Write Service
  update_control_plane_endpoint_to_service cluster service = do
    host ← read (resolve cluster.host)
    attempt (service_updated (place_at service host))
        (wrapped "Failed to update cluster endpoint" (ans.update_service (place_at service host)))

  abbrev pub found_or_created_service : Cluster → Result Service → Exec Write Service
  found_or_created_service cluster (ok s) = pure s
  found_or_created_service cluster (err e) =
      if is_not_found e then create_service cluster else throw e

  unfoldable pub sync_service : Cluster × Option Error → Service → Exec Write Unit
  sync_service u service = do
    _ ← check u.1
    updated ← update_control_plane_endpoint_to_service u.0 service
    _ ← ensure_endpoints (get_ha_service_name u.0) updated.namespace
    pure tt

  abbrev pub service_of : Cluster → Exec Write Service
  service_of cluster = found_or_created_service cluster (
      ans.get_service
        (record { namespace = cluster.namespace; name = get_ha_service_name cluster }))

  -- The cluster that the caller holds after the service was found or created.
  abbrev pub held_cluster : Cluster → Outcome Service → Cluster
  held_cluster cluster (returns service) = (update_cluster_control_plane_endpoint cluster service).0
  held_cluster cluster _ = cluster

  abbrev pub finish_service : Cluster → Exec Write Service → Exec Write Unit
  finish_service cluster m = do
    service ← m
    sync_service (update_cluster_control_plane_endpoint cluster service) service

  unfoldable pub create_or_update_ha_service : Cluster → Cluster × Exec Write Unit
  create_or_update_ha_service cluster =
      (held_cluster cluster (service_of cluster).1, finish_service cluster (service_of cluster))
