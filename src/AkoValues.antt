-- ===== src/AkoValues.antt =====
-- pkg/ako/values.go: the values of the AKO add-on, computed from an AKODeploymentConfig. AKO's own settings
-- are in AkoValues/Ako.antt, those of the networks in AkoValues/Network.antt, and the others in
-- AkoValues/Layers.antt.
pub mod Ako
pub mod Network
pub mod Layers
pub mod Overrides
mod Tests
use load_balancer_operator_f.Prelude.{String, ◌⧺◌, Option, none, some, if◌then◌else◌}
use load_balancer_operator_f.Go.Int.{ℤ, pos}
use load_balancer_operator_f.Kube.{message, Result, ok, err, Cluster}
use load_balancer_operator_f.Api.{AkoDeploymentConfig, ExtraConfigs}
use load_balancer_operator_f.Api.Constants.{avi_namespace, tkg_data_value_format_string}
use load_balancer_operator_f.AkoOperator.{is_cluster_class_based_cluster}
use load_balancer_operator_f.AkoValues.Ako.{AkoSettings, new_ako_settings}
use load_balancer_operator_f.AkoValues.Network.{NetworkSettings, new_network_settings}
use load_balancer_operator_f.AkoValues.Layers.{
  L7Settings, L4Settings, ControllerSettings, NodePortSelector, Rbac, FeatureGates, new_l7_settings,
  new_l4_settings, new_controller_settings, new_node_port_selector, new_rbac, new_feature_gates,
}

pub record AviCredentials : Type 0 where
  pub username : String
  pub password : String
  pub certificate_authority_data : String

pub record Config : Type 0 where
  pub tkg_cluster_role : String
  pub is_cluster_service : String
  pub replica_count : ℤ
  pub ako_settings : AkoSettings
  pub network_settings : NetworkSettings
  pub l7_settings : L7Settings
  pub l4_settings : L4Settings
  pub controller_settings : ControllerSettings
  pub node_port_selector : NodePortSelector
  pub rbac : Rbac
  pub persistent_volume_claim : String
  pub mount_path : String
  pub log_file : String
  pub ako_gateway_log_file : String
  pub avi_credentials : AviCredentials
  pub feature_gates : FeatureGates

-- Values, and its only field LoadBalancerAndIngressService
pub record Values : Type 0 where
  pub name : String
  pub namespace : String
  pub config : Config

abbrev pub replicas : Option ℤ → ℤ
replicas none = pos 1
replicas (some n) = n

abbrev pub no_credentials : AviCredentials
no_credentials = record { username = ""; password = ""; certificate_authority_data = "" }

abbrev pub config_of : AkoDeploymentConfig → String → NetworkSettings → Config
config_of obj cluster network = record {
  tkg_cluster_role = "";
  is_cluster_service = "";
  replica_count = replicas obj.spec.extra_configs.replica_count;
  ako_settings = new_ako_settings cluster obj;
  network_settings = network;
  l7_settings = new_l7_settings obj.spec.extra_configs.ingress_configs;
  l4_settings = new_l4_settings obj.spec.extra_configs.l4_configs;
  controller_settings =
      new_controller_settings obj.spec.cloud_name obj.spec.controller obj.spec.controller_version
        obj.spec.service_engine_group obj.spec.tenant.name;
  node_port_selector = new_node_port_selector obj.spec.extra_configs.node_port_selector;
  rbac = new_rbac obj.spec.extra_configs.rbac;
  persistent_volume_claim = obj.spec.extra_configs.log.persistent_volume_claim;
  mount_path = obj.spec.extra_configs.log.mount_path;
  log_file = obj.spec.extra_configs.log.log_file;
  ako_gateway_log_file = obj.spec.extra_configs.log.ako_gateway_log_file;
  avi_credentials = no_credentials;
  feature_gates = new_feature_gates obj.spec.extra_configs.feature_gates;
}

abbrev pub with_network : AkoDeploymentConfig → String → Result NetworkSettings → Result Values
with_network obj cluster (err e) = err e
with_network obj cluster (ok network) = ok (record {
  name = "ako-" ⧺ cluster;
  namespace = avi_namespace;
  config = config_of obj cluster network;
})

-- `none` is the nil AKODeploymentConfig.
unfoldable pub new_values : Option AkoDeploymentConfig → String → Result Values
new_values none cluster = err (message "provided AKODeploymentConfig is nil")
new_values (some obj) cluster = with_network obj cluster (new_network_settings obj)

-- YttYaml, of what yaml.Marshal gives.
abbrev pub ytt_yaml : Cluster → Result String → Result String
ytt_yaml cluster (ok buf) =
    if is_cluster_class_based_cluster cluster
    then ok buf
    else ok (tkg_data_value_format_string ⧺ buf)
ytt_yaml cluster (err e) = err e
