-- ===== src/Samples.antt =====
-- Small objects on which the tests and the witnesses run.
pub mod Libraries
use load_balancer_operator_f.Prelude.{
  String, Bool, true, false, Option, none, some, List, [], ◌∷◌, Dict, ◌≡◌, refl, ◌==◌, not,
  if◌then◌else◌, keep, any, is_some, lookup, has,
}
use load_balancer_operator_f.Go.Int.{ℤ, pos}
use load_balancer_operator_f.Go.Json.{Json, str}
use load_balancer_operator_f.Kube.{
  Error, Result, ok, err, ObjectMeta, Cluster, ClusterVariable, ClusterNetwork, LabelSelector,
  Selector, Condition, CtrlResult, Machine, MachineAddress,
}
use load_balancer_operator_f.Kube.Interfaces.{Env, Selectors}
use load_balancer_operator_f.Api.{
  AkoDeploymentConfig, AkoDeploymentConfigSpec, ExtraConfigs, AkoLogConfig, NamespaceSelector,
  NetworksConfig, AkoIngressConfig, AkoL4Config, NodePortSelector, AkoRbacConfig, FeatureGates,
  AviTenant, DataNetwork, ControlPlaneNetwork, SecretRef, IpPool,
}

abbrev pub meta_of : String → String → ObjectMeta
meta_of namespace name = record {
  name = name;
  namespace = namespace;
  uid = "";
  labels = [];
  annotations = [];
  finalizers = [];
  deleting = false;
}

abbrev pub no_env : Env
no_env key = none

-- A legacy cluster with IPv4 ranges.
abbrev pub legacy : Cluster
legacy = record {
  metadata = meta_of "default" "wc";
  kind = "Cluster";
  api_version = "cluster.x-k8s.io/v1beta1";
  topology = none;
  host = "";
  port = pos 0;
  network =
      some (record { pods = some ("192.168.0.0/16" ∷ []); services = some ("10.128.0.0/12" ∷ []) });
  conditions = [];
}

-- A classy cluster with one variable.
abbrev pub classy : Cluster
classy = record legacy {
  topology = some (record { name = "apiServerEndpoint"; value = str "10.0.0.1" } ∷ []);
}

abbrev pub no_selector : LabelSelector
no_selector = record { match_labels = []; match_expressions = [] }

abbrev pub team_selector : LabelSelector
team_selector = record { match_labels = ("team", "a") ∷ []; match_expressions = [] }

abbrev pub no_extra : ExtraConfigs
no_extra = record {
  replica_count = none;
  primary_instance = none;
  log = record {
    log_level = "";
    persistent_volume_claim = "";
    mount_path = "";
    log_file = "";
    ako_gateway_log_file = "";
  };
  full_sync_frequency = "";
  api_server_port = none;
  enable_events = none;
  disable_static_route_sync = none;
  cni_plugin = "";
  enable_evh = none;
  layer7_only = none;
  namespace_selector = record { label_key = ""; label_value = "" };
  services_api = none;
  vip_per_namespace = none;
  istio_enabled = none;
  blocked_namespace_list = [];
  ip_family = "";
  use_default_secrets_only = none;
  networks_config = record { enable_rhi = none; bgp_peer_labels = []; nsxt_t1lr = "" };
  ingress_configs = record {
    disable_ingress_class = none;
    default_ingress_controller = none;
    service_type = "";
    shard_vs_size = "";
    passthrough_shard_size = "";
    node_network_list = [];
    no_pg_for_sni = none;
    enable_mci = none;
  };
  l4_configs = record { default_domain = ""; auto_fqdn = "" };
  node_port_selector = record { key = ""; value = "" };
  rbac = record { psp_policy_api_version = ""; psp_enabled = none };
  feature_gates = record { gateway_api = none };
}

abbrev pub pool : IpPool
pool = record { start = "10.0.4.10"; end = "10.0.4.20"; kind = "V4" }

abbrev pub adc_of : String → LabelSelector → AkoDeploymentConfig
adc_of name selector = record {
  metadata = meta_of "" name;
  spec = record {
    cloud_name = "cloud";
    controller = "10.23.122.1";
    controller_version = "20.1.3";
    service_engine_group = "Default-Group";
    cluster_selector = selector;
    workload_credential_ref = none;
    admin_credential_ref = record { name = "avi-controller-credentials"; namespace = "tkg-system" };
    certificate_authority_ref = record { name = "avi-controller-ca"; namespace = "tkg-system" };
    tenant = record { context = ""; name = "" };
    data_network = record { name = "net"; cidr = "10.0.4.0/22"; ip_pools = some (pool ∷ []) };
    control_plane_network = record { name = "net"; cidr = "10.0.4.0/22" };
    extra_configs = no_extra;
  };
}

abbrev labels_match : Dict String → Dict String → Bool
labels_match [] labels = true
labels_match ((k, v) ∷ wanted) labels =
    let rest = labels_match wanted labels in
    elim (lookup k labels) [ none ↦ false | some w ↦ if w == v then rest else false ]

abbrev no_labels : Dict String → Bool
no_labels [] = true
no_labels (l ∷ ls) = false

-- Selectors by matchLabels alone.
abbrev pub label_selectors : Selectors
label_selectors = record {
  as_selector =
      λ s. ok (record { empty = no_labels s.match_labels; matches = labels_match s.match_labels });
  text = λ s. "";
}
