-- ===== src/AkoValues/Layers.antt =====
-- The settings of layer 7, layer 4, the AVI Controller, node ports, Rbac and feature gates, of
-- pkg/ako/values.go.
use load_balancer_operator_f.Prelude.{String, Bool, false, Option, none, some}
use load_balancer_operator_f.Api
use load_balancer_operator_f.AkoValues.Ako.{given_text, given_bool}

pub record L7Settings : Type 0 where
  pub disable_ingress_class : Bool
  pub default_ing_controller : Bool
  pub l7_sharding_scheme : String
  pub service_type : String
  pub shard_vs_size : String
  pub passthrough_shard_size : String
  pub no_pg_for_sni : Bool
  pub enable_mci : String

unfoldable pub default_l7_settings : L7Settings
default_l7_settings = record {
  disable_ingress_class = false;
  default_ing_controller = false;
  l7_sharding_scheme = "";
  service_type = "NodePort";
  shard_vs_size = "";
  passthrough_shard_size = "";
  no_pg_for_sni = false;
  enable_mci = "";
}

-- `if given != nil { field = *given }`
abbrev pub given_flag : Option Bool → Bool → Bool
given_flag none old = old
given_flag (some b) old = b

unfoldable pub new_l7_settings : Api.AkoIngressConfig → L7Settings
unfolding default_l7_settings
new_l7_settings config =
    let d = default_l7_settings in
    record d {
      disable_ingress_class = given_flag config.disable_ingress_class d.disable_ingress_class;
      default_ing_controller =
          given_flag config.default_ingress_controller d.default_ing_controller;
      shard_vs_size = given_text config.shard_vs_size d.shard_vs_size;
      service_type = given_text config.service_type d.service_type;
      passthrough_shard_size = given_text config.passthrough_shard_size d.passthrough_shard_size;
      no_pg_for_sni = given_flag config.no_pg_for_sni d.no_pg_for_sni;
      enable_mci = given_bool config.enable_mci d.enable_mci;
    }

pub record L4Settings : Type 0 where
  pub default_domain : String
  pub auto_fqdn : String

unfoldable pub default_l4_settings : L4Settings
default_l4_settings = record { default_domain = ""; auto_fqdn = "" }

unfoldable pub new_l4_settings : Api.AkoL4Config → L4Settings
unfolding default_l4_settings
new_l4_settings config = record {
  default_domain = given_text config.default_domain default_l4_settings.default_domain;
  auto_fqdn = given_text config.auto_fqdn default_l4_settings.auto_fqdn;
}

pub record ControllerSettings : Type 0 where
  pub service_engine_group_name : String
  pub controller_version : String
  pub cloud_name : String
  pub controller_ip : String
  pub tenant_name : String

unfoldable pub new_controller_settings :
    String → String → String → String → String → ControllerSettings
new_controller_settings cloud_name controller_ip controller_version service_engine_group
      tenant_name =
    record {
      service_engine_group_name = service_engine_group;
      controller_version = controller_version;
      cloud_name = cloud_name;
      controller_ip = controller_ip;
      tenant_name = tenant_name;
    }

pub record NodePortSelector : Type 0 where
  pub key : String
  pub value : String

unfoldable pub default_node_port_selector : NodePortSelector
default_node_port_selector = record { key = ""; value = "" }

-- The value is written to the key.
unfoldable pub new_node_port_selector : Api.NodePortSelector → NodePortSelector
unfolding default_node_port_selector
new_node_port_selector selector = record default_node_port_selector {
  key = given_text selector.value (given_text selector.key default_node_port_selector.key);
}

pub record Rbac : Type 0 where
  pub psp_enabled : Bool
  pub psp_policy_api_version : String

unfoldable pub new_rbac : Api.AkoRbacConfig → Rbac
new_rbac config = record {
  psp_enabled = given_flag config.psp_enabled false;
  psp_policy_api_version = config.psp_policy_api_version;
}

pub record FeatureGates : Type 0 where
  pub gateway_api : String

unfoldable pub new_feature_gates : Api.FeatureGates → FeatureGates
new_feature_gates config = record { gateway_api = given_bool config.gateway_api "" }
