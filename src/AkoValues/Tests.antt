-- ===== src/AkoValues/Tests.antt =====
-- The values of a configuration of the samples.
use load_balancer_operator_f.Prelude.{
  String, true, false, none, some, ◌==◌, if◌then◌else◌, ◌≡◌, ◌≢◌, ◌↔◌, lookup, refl, [],
}
use load_balancer_operator_f.Go.Net.{parse_cidr, to_4, parse_ip, contains, greater, mask_size}
use load_balancer_operator_f.Go.Print.{
  itoa, ip_string, json_list, json_object, json_field, json_text,
}
use load_balancer_operator_f.Kube.{Result, ok, err}
use load_balancer_operator_f.Api.{AkoDeploymentConfig}
use load_balancer_operator_f.IpFamily.{get_ip_family_from_cidr}
use load_balancer_operator_f.Api.Constants.{tkg_system_namespace, avi_cluster_delete_config_label}
use load_balancer_operator_f.AddonSecret.{complete_values}
use load_balancer_operator_f.AddonSecret.Deletion.{complete_values-deletion}
use load_balancer_operator_f.Samples.{legacy, adc_of, no_selector, no_extra}
use load_balancer_operator_f.Webhook.{validate_avi_data_networks, pools_issues, pool_issues}
use load_balancer_operator_f.AkoValues.{Values, new_values, config_of}
use load_balancer_operator_f.AkoValues.Network.{NetworkSettings, new_network_settings, vip_network}
use load_balancer_operator_f.AkoValues.Overrides.{
  HasSubnet, text_of, or_older, new_values-accepted, new_values-lost,
}

abbrev obj : AkoDeploymentConfig
obj = record (adc_of "install-ako-for-all" no_selector) {
  spec = record (adc_of "install-ako-for-all" no_selector).spec {
    extra_configs = record no_extra {
      enable_evh = some true;
      layer7_only = some false;
      node_port_selector = record { key = "role"; value = "worker" };
    };
  };
}

abbrev subnet_of : Result Values → String × String
subnet_of (err e) = ("", "")
subnet_of (ok v) = (v.config.network_settings.subnet_ip, v.config.network_settings.subnet_prefix)

abbrev networks_of : Result Values → String
networks_of (err e) = ""
networks_of (ok v) = v.config.network_settings.vip_network_list_json

subnet_test : subnet_of (new_values (some obj) "default-wc") ≡ ("10.0.4.0", "22")
unfolding new_values new_network_settings parse_cidr ip_string mask_size itoa
subnet_test = refl

networks_test :
    networks_of (new_values (some obj) "default-wc")
    ≡ "[{\"networkName\":\"net\",\"cidr\":\"10.0.4.0/22\"}]"
unfolding new_values new_network_settings parse_cidr vip_network get_ip_family_from_cidr to_4
    json_list json_object json_field json_text
networks_test = refl

new_values-accepted_example :
    (v : Values) × (new_values (some obj) "default-wc" ≡ ok v) × HasSubnet obj v
unfolding validate_avi_data_networks pools_issues pool_issues parse_cidr parse_ip contains greater
    to_4
new_values-accepted_example = new_values-accepted none obj "default-wc" refl

abbrev network : NetworkSettings
network = record {
  subnet_ip = "10.0.4.0";
  subnet_prefix = "22";
  network_name = "net";
  control_plane_network_name = "net";
  control_plane_network_cidr = "10.0.4.0/22";
  node_network_list_json = "";
  vip_network_list_json = "[{\"networkName\":\"net\",\"cidr\":\"10.0.4.0/22\"}]";
  enable_rhi = "";
  nsxt_t1lr = "";
  bgp_peer_labels_json = "";
}

abbrev values : Values
values = record {
  name = "ako-default-wc";
  namespace = "avi-system";
  config = config_of obj "default-wc" network;
}

values_test : new_values (some obj) "default-wc" ≡ ok values
unfolding new_values new_network_settings parse_cidr vip_network get_ip_family_from_cidr to_4
    json_list json_object json_field json_text ip_string mask_size itoa
values_test = refl

new_values-lost_example :
    let extra = obj.spec.extra_configs in
    (values.config.ako_settings.layer_7_only ≡ "")
    × (values.config.ako_settings.enable_events ≡ "")
    × (values.config.ako_settings.enable_evh
        ≡ text_of (or_older extra.enable_events (or_older extra.layer7_only extra.enable_evh)))
    × (values.config.node_port_selector.value ≡ "")
    × (values.config.node_port_selector.key ≡ (
        if extra.node_port_selector.value == ""
        then extra.node_port_selector.key
        else extra.node_port_selector.value))
new_values-lost_example = new_values-lost obj "default-wc" values values_test

complete_values-deletion_example :
    let w = complete_values legacy [] values in
    ((w.config.ako_settings.delete_config ≡ "true")
      ↔ (legacy.namespace ≢ tkg_system_namespace)
        × (lookup avi_cluster_delete_config_label legacy.labels ≡ some "true"))
    × ((w.config.tkg_cluster_role ≡ "management") ↔ (legacy.namespace ≡ tkg_system_namespace))
complete_values-deletion_example =
    complete_values-deletion obj "default-wc" values legacy [] values_test
