-- ===== src/AkoValues/Network.antt =====
-- NetworkSettings of pkg/ako/values.go. The lists that are not printed are left out, and their JSON texts
-- are kept. json.Marshal of these lists does not fail.
use load_balancer_operator_f.Prelude.{
  String, ◌⧺◌, Option, none, some, List, [], ◌∷◌, ◌++◌, ◌==◌, if◌then◌else◌,
}
use load_balancer_operator_f.Go.Net.{Ip, IpNet, parse_cidr, mask_size}
use load_balancer_operator_f.Go.Print.{
  itoa, ip_string, json_text, json_texts, json_list, json_object, json_field,
}
use load_balancer_operator_f.Kube.{message, Result, ok, err}
use load_balancer_operator_f.Api.{AkoDeploymentConfig, NodeNetwork, VipNetwork}
use load_balancer_operator_f.IpFamily.{get_ip_family_from_cidr, ipv6_ip_family}
use load_balancer_operator_f.AkoValues.Ako.{given_text, given_bool}

pub record NetworkSettings : Type 0 where
  pub subnet_ip : String
  pub subnet_prefix : String
  pub network_name : String
  pub control_plane_network_name : String
  pub control_plane_network_cidr : String
  pub node_network_list_json : String
  pub vip_network_list_json : String
  pub enable_rhi : String
  pub nsxt_t1lr : String
  pub bgp_peer_labels_json : String

unfoldable pub default_network_settings : NetworkSettings
default_network_settings = record {
  subnet_ip = "";
  subnet_prefix = "";
  network_name = "";
  control_plane_network_name = "";
  control_plane_network_cidr = "";
  node_network_list_json = "";
  vip_network_list_json = "";
  enable_rhi = "";
  nsxt_t1lr = "";
  bgp_peer_labels_json = "";
}

-- A field with the option omitempty.
abbrev pub text_field : String → String → List String
text_field name value = if value == "" then [] else json_field name (json_text value) ∷ []

abbrev pub texts_field : String → List String → List String
texts_field name [] = []
texts_field name (s ∷ ss) = json_field name (json_texts (s ∷ ss)) ∷ []

abbrev pub node_network_json : NodeNetwork → String
node_network_json n =
    json_object (text_field "networkName" n.network_name ++ texts_field "cidrs" n.cidrs)

unfoldable pub node_networks : List NodeNetwork → List String
node_networks [] = []
node_networks (n ∷ ns) = node_network_json n ∷ node_networks ns

abbrev pub node_networks_json : List NodeNetwork → String
node_networks_json [] = ""
node_networks_json (n ∷ ns) = json_list (node_networks (n ∷ ns))

abbrev pub vip_network_json : VipNetwork → String
vip_network_json v = json_object (
    json_field "networkName" (json_text v.network_name)
    ∷ (text_field "cidr" v.cidr ++ text_field "v6cidr" v.v6cidr))

-- The only element of VIPNetworkList.
unfoldable pub vip_network : String → String → VipNetwork
vip_network name cidr =
    if get_ip_family_from_cidr cidr == ipv6_ip_family
    then record { network_name = name; cidr = ""; v6cidr = cidr }
    else record { network_name = name; cidr = cidr; v6cidr = "" }

abbrev pub labels_json : List String → String
labels_json [] = ""
labels_json (s ∷ ss) = json_texts (s ∷ ss)

-- The network of the control plane, or else the data network.
abbrev pub control_plane : AkoDeploymentConfig → String × String
control_plane obj =
    if obj.spec.control_plane_network.name == ""
    then (obj.spec.data_network.name, obj.spec.data_network.cidr)
    else (obj.spec.control_plane_network.name, obj.spec.control_plane_network.cidr)

abbrev pub settings_of : AkoDeploymentConfig → Option (Ip × IpNet) → Result NetworkSettings
settings_of obj none = err (message ("invalid CIDR address: " ⧺ obj.spec.data_network.cidr))
settings_of obj (some (ip, ip_net)) = ok (record default_network_settings {
  network_name = obj.spec.data_network.name;
  subnet_ip = ip_string ip;
  subnet_prefix = itoa (mask_size ip_net.mask);
  node_network_list_json =
      node_networks_json obj.spec.extra_configs.ingress_configs.node_network_list;
  vip_network_list_json =
      json_list
        (vip_network_json (vip_network obj.spec.data_network.name obj.spec.data_network.cidr) ∷ []);
  control_plane_network_name = (control_plane obj).0;
  control_plane_network_cidr = (control_plane obj).1;
  enable_rhi = given_bool obj.spec.extra_configs.networks_config.enable_rhi "";
  nsxt_t1lr = given_text obj.spec.extra_configs.networks_config.nsxt_t1lr "";
  bgp_peer_labels_json = labels_json obj.spec.extra_configs.networks_config.bgp_peer_labels;
})

unfoldable pub new_network_settings : AkoDeploymentConfig → Result NetworkSettings
unfolding default_network_settings
new_network_settings obj = settings_of obj (parse_cidr obj.spec.data_network.cidr)
