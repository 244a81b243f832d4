-- ===== src/Api.antt =====
-- api/v1alpha1: the AKODeploymentConfig resource (akodeploymentconfig_types.go) and the names of
-- constants.go. A pointer is an Option; a slice whose nil differs from the empty slice is one too.
pub mod Constants
use load_balancer_operator_f.Prelude.{String, Bool, Option, List}
use load_balancer_operator_f.Go.Int.{ℤ}
use load_balancer_operator_f.Kube.{ObjectMeta, LabelSelector, Condition}

pub record NamespaceSelector : Type 0 where
  pub label_key : String
  pub label_value : String

pub record NetworksConfig : Type 0 where
  pub enable_rhi : Option Bool
  pub bgp_peer_labels : List String
  pub nsxt_t1lr : String

pub record NodeNetwork : Type 0 where
  pub network_name : String
  pub cidrs : List String

pub record AkoIngressConfig : Type 0 where
  pub disable_ingress_class : Option Bool
  pub default_ingress_controller : Option Bool
  pub service_type : String
  pub shard_vs_size : String
  pub passthrough_shard_size : String
  pub node_network_list : List NodeNetwork
  pub no_pg_for_sni : Option Bool
  pub enable_mci : Option Bool

pub record AkoL4Config : Type 0 where
  pub default_domain : String
  pub auto_fqdn : String

pub record NodePortSelector : Type 0 where
  pub key : String
  pub value : String

pub record AkoLogConfig : Type 0 where
  pub log_level : String
  pub persistent_volume_claim : String
  pub mount_path : String
  pub log_file : String
  pub ako_gateway_log_file : String

pub record AkoRbacConfig : Type 0 where
  pub psp_policy_api_version : String
  pub psp_enabled : Option Bool

pub record FeatureGates : Type 0 where
  pub gateway_api : Option Bool

pub record ExtraConfigs : Type 0 where
  pub replica_count : Option ℤ
  pub primary_instance : Option Bool
  pub log : AkoLogConfig
  pub full_sync_frequency : String
  pub api_server_port : Option ℤ
  pub enable_events : Option Bool
  pub disable_static_route_sync : Option Bool
  pub cni_plugin : String
  pub enable_evh : Option Bool
  pub layer7_only : Option Bool
  pub namespace_selector : NamespaceSelector
  pub services_api : Option Bool
  pub vip_per_namespace : Option Bool
  pub istio_enabled : Option Bool
  pub blocked_namespace_list : List String
  pub ip_family : String
  pub use_default_secrets_only : Option Bool
  pub networks_config : NetworksConfig
  pub ingress_configs : AkoIngressConfig
  pub l4_configs : AkoL4Config
  pub node_port_selector : NodePortSelector
  pub rbac : AkoRbacConfig
  pub feature_gates : FeatureGates

pub record AviTenant : Type 0 where
  pub context : String
  pub name : String

-- `Type` in the source
pub record IpPool : Type 0 where
  pub start : String
  pub end : String
  pub kind : String

-- `none` is the nil slice of pools
pub record DataNetwork : Type 0 where
  pub name : String
  pub cidr : String
  pub ip_pools : Option (List IpPool)

pub record ControlPlaneNetwork : Type 0 where
  pub name : String
  pub cidr : String

pub record VipNetwork : Type 0 where
  pub network_name : String
  pub cidr : String
  pub v6cidr : String

pub record SecretRef : Type 0 where
  pub name : String
  pub namespace : String

pub record AkoDeploymentConfigSpec : Type 0 where
  pub cloud_name : String
  pub controller : String
  pub controller_version : String
  pub service_engine_group : String
  pub cluster_selector : LabelSelector
  pub workload_credential_ref : Option SecretRef
  pub admin_credential_ref : SecretRef
  pub certificate_authority_ref : SecretRef
  pub tenant : AviTenant
  pub data_network : DataNetwork
  pub control_plane_network : ControlPlaneNetwork
  pub extra_configs : ExtraConfigs

pub record AkoDeploymentConfig : Type 0 where
  pub metadata : ObjectMeta
  pub open metadata use *
  pub spec : AkoDeploymentConfigSpec
