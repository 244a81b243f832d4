-- ===== src/AkoValues/Ako.antt =====
-- AKOSettings of pkg/ako/values.go. The fields that are not printed, such as BlockedNamespaceList, are left
-- out, and their JSON text is kept.
use load_balancer_operator_f.Prelude.{
  String, Bool, Option, none, some, List, [], ◌∷◌, ◌==◌, if◌then◌else◌,
}
use load_balancer_operator_f.Go.Int.{ℤ, pos}
use load_balancer_operator_f.Go.Strconv.{format_bool}
use load_balancer_operator_f.Go.Print.{json_texts}
use load_balancer_operator_f.Api.{AkoDeploymentConfig, NamespaceSelector}

pub record AkoSettings : Type 0 where
  pub primary_instance : String
  pub log_level : String
  pub full_sync_frequency : String
  pub api_server_port : ℤ
  pub delete_config : String
  pub disable_static_route_sync : String
  pub cluster_name : String
  pub cni_plugin : String
  pub sync_namespace : String
  pub enable_evh : String
  pub layer_7_only : String
  pub services_api : String
  pub vip_per_namespace : String
  pub namespace_selector : NamespaceSelector
  pub enable_events : String
  pub istio_enabled : String
  pub blocked_namespace_list_json : String
  pub ip_family : String
  pub use_default_secrets_only : String

unfoldable pub default_ako_settings : AkoSettings
default_ako_settings = record {
  primary_instance = "";
  log_level = "INFO";
  full_sync_frequency = "1800";
  api_server_port = pos 8080;
  delete_config = "false";
  disable_static_route_sync = "true";
  cluster_name = "";
  cni_plugin = "";
  sync_namespace = "";
  enable_evh = "";
  layer_7_only = "";
  services_api = "";
  vip_per_namespace = "";
  namespace_selector = record { label_key = ""; label_value = "" };
  enable_events = "";
  istio_enabled = "";
  blocked_namespace_list_json = "";
  ip_family = "";
  use_default_secrets_only = "";
}

-- `if given != "" { field = given }`
abbrev pub given_text : String → String → String
given_text given old = if given == "" then old else given

-- `if given != nil { field = strconv.FormatBool(*given) }`
abbrev pub given_bool : Option Bool → String → String
given_bool none old = old
given_bool (some b) old = format_bool b

abbrev pub given_int : Option ℤ → ℤ → ℤ
given_int none old = old
given_int (some n) old = n

abbrev pub blocked_json : List String → String
blocked_json [] = ""
blocked_json (s ∷ ss) = json_texts (s ∷ ss)

-- EnableEVH is written by the settings of three fields, in this order.
unfoldable pub new_ako_settings : String → AkoDeploymentConfig → AkoSettings
unfolding default_ako_settings
new_ako_settings cluster_name obj =
    let d = default_ako_settings in
    let extra = obj.spec.extra_configs in
    record d {
      cluster_name = cluster_name;
      primary_instance = given_bool extra.primary_instance d.primary_instance;
      log_level = given_text extra.log.log_level d.log_level;
      full_sync_frequency = given_text extra.full_sync_frequency d.full_sync_frequency;
      api_server_port = given_int extra.api_server_port d.api_server_port;
      disable_static_route_sync =
          given_bool extra.disable_static_route_sync d.disable_static_route_sync;
      cni_plugin = given_text extra.cni_plugin d.cni_plugin;
      enable_evh =
          given_bool extra.enable_events
            (given_bool extra.layer7_only (given_bool extra.enable_evh d.enable_evh));
      services_api = given_bool extra.services_api d.services_api;
      vip_per_namespace = given_bool extra.vip_per_namespace d.vip_per_namespace;
      namespace_selector = record {
        label_key = given_text extra.namespace_selector.label_key d.namespace_selector.label_key;
        label_value =
            given_text extra.namespace_selector.label_value d.namespace_selector.label_value;
      };
      istio_enabled = given_bool extra.istio_enabled d.istio_enabled;
      use_default_secrets_only =
          given_bool extra.use_default_secrets_only d.use_default_secrets_only;
      ip_family = given_text extra.ip_family d.ip_family;
      blocked_namespace_list_json = blocked_json extra.blocked_namespace_list;
    }
