-- ===== src/AkoValues/Overrides.antt =====
-- When the values of an AKODeploymentConfig are made, and which of its settings they lose.
use load_balancer_operator_f.Prelude.{
  String, Bool, true, false, Option, none, some, is_some, ◌&&◌, not, ◌==◌, if◌then◌else◌, ◌≡◌, refl,
  ap, sym, ◌∙◌, arith, eq_iff,
}
use load_balancer_operator_f.Go.Net.{Ip, IpNet, parse_cidr, mask_size}
use load_balancer_operator_f.Go.Print.{ip_string, itoa}
use load_balancer_operator_f.Go.Strconv.{format_bool}
use load_balancer_operator_f.Kube.{Error, Result, ok, err}
use load_balancer_operator_f.Api.{AkoDeploymentConfig}
use load_balancer_operator_f.Webhook.{validate_avi_data_networks, pools_list}
use load_balancer_operator_f.Webhook.Pools.{accepts, pools_fit, validate_avi_data_networks-accepts}
use load_balancer_operator_f.AkoValues.Ako.{new_ako_settings, given_bool, given_text}
use load_balancer_operator_f.AkoValues.Network.{NetworkSettings, new_network_settings, settings_of}
use load_balancer_operator_f.AkoValues.Layers.{new_node_port_selector}
use load_balancer_operator_f.AkoValues.{Config, Values, new_values, with_network, config_of}

-- The values hold the address and the prefix of the data network.
abbrev pub HasSubnet : AkoDeploymentConfig → Values → Type 0
HasSubnet obj v =
    (ip : Ip) × (net : IpNet) × (parse_cidr obj.spec.data_network.cidr ≡ some (ip, net))
    × (v.config.network_settings.subnet_ip ≡ ip_string ip)
    × (v.config.network_settings.subnet_prefix ≡ itoa (mask_size net.mask))

new_values-parsed :
    (obj : AkoDeploymentConfig) (cluster : String) (o : Option (Ip × IpNet))
    → parse_cidr obj.spec.data_network.cidr ≡ o
    → pools_fit o (pools_list obj.spec.data_network.ip_pools) ≡ true
    → (v : Values) × (with_network obj cluster (settings_of obj o) ≡ ok v) × HasSubnet obj v
new_values-parsed obj cluster none h p = cc
new_values-parsed obj cluster (some (ip, net)) h p = (_, refl, (ip, net, h, refl, refl))

and_right : (a b : Bool) → (a && b) ≡ true → b ≡ true
and_right true b h = h
and_right false b h = cc

-- Where the webhook finds nothing wrong with the data network of an AKODeploymentConfig, its values can be
-- made for every cluster, with the address of the network and the length of its prefix.
pub new_values-accepted :
    (network : Option Error) (obj : AkoDeploymentConfig) (cluster : String)
    → accepts (validate_avi_data_networks network obj) ≡ true
    → (v : Values) × (new_values (some obj) cluster ≡ ok v) × HasSubnet obj v
unfolding new_values new_network_settings
new_values-accepted network obj cluster h =
    new_values-parsed obj cluster (parse_cidr obj.spec.data_network.cidr) refl (
      and_right (not (is_some network)) _
        (sym (validate_avi_data_networks-accepts network obj) ∙ h))

module _ (obj : AkoDeploymentConfig) (name : String) where
  config-of_ok :
      (n : Result NetworkSettings) (v : Values)
      → with_network obj name n ≡ ok v
      → (network : NetworkSettings) × (v.config ≡ config_of obj name network)
  config-of_ok (err e) v h = cc
  config-of_ok (ok network) v h = (network, cc)

  new_values-config :
      (v : Values)
      → new_values (some obj) name ≡ ok v
      → (network : NetworkSettings) × (v.config ≡ config_of obj name network)
  unfolding new_values
  new_values-config v h = config-of_ok (new_network_settings obj) v h

  delete_config-default :
      (network : NetworkSettings)
      → (config_of obj name network).ako_settings.delete_config ≡ "false"
  unfolding new_ako_settings
  delete_config-default network = refl

  pub new_values-delete_config :
      (v : Values)
      → new_values (some obj) name ≡ ok v
      → v.config.ako_settings.delete_config ≡ "false"
  new_values-delete_config v h =
      let (network, e) = new_values-config v h in
      ap (λ (c : Config). c.ako_settings.delete_config) e ∙ delete_config-default network

-- The text of a Boolean setting, where it is given.
abbrev pub text_of : Option Bool → String
text_of none = ""
text_of (some b) = format_bool b

abbrev pub or_older : Option Bool → Option Bool → Option Bool
or_older none older = older
or_older (some b) older = some b

evh_text :
    (a b c : Option Bool)
    → given_bool a (given_bool b (given_bool c "")) ≡ text_of (or_older a (or_older b c))
evh_text none none none = refl
evh_text none none (some c) = refl
evh_text none (some b) c = refl
evh_text (some a) b c = refl

key_text :
    (value key : String)
    → given_text value (given_text key "") ≡ (if value == "" then key else value)
key_text value key = ground (arith, eq_iff key "")

-- The values have lost settings of the configuration: layer_7_only, enable_events and the value of the
-- selector of node ports are always empty. The texts of EnableEvents and Layer7Only stand in enable_EVH, before its
-- own, and the value of the selector stands in the place of its key.
pub new_values-lost :
    (obj : AkoDeploymentConfig) (name : String) (v : Values)
    → new_values (some obj) name ≡ ok v
    → let extra = obj.spec.extra_configs in
      (v.config.ako_settings.layer_7_only ≡ "")
      × (v.config.ako_settings.enable_events ≡ "")
      × (v.config.ako_settings.enable_evh
          ≡ text_of (or_older extra.enable_events (or_older extra.layer7_only extra.enable_evh)))
      × (v.config.node_port_selector.value ≡ "")
      × (v.config.node_port_selector.key ≡ (
          if extra.node_port_selector.value == ""
          then extra.node_port_selector.key
          else extra.node_port_selector.value))
unfolding new_ako_settings new_node_port_selector
new_values-lost obj name v h =
    let (network, e) = new_values-config obj name v h in
    let extra = obj.spec.extra_configs in
    (
      ap (λ (c : Config). c.ako_settings.layer_7_only) e,
      ap (λ (c : Config). c.ako_settings.enable_events) e,
      ap (λ (c : Config). c.ako_settings.enable_evh) e
          ∙ evh_text extra.enable_events extra.layer7_only extra.enable_evh,
      ap (λ (c : Config). c.node_port_selector.value) e,
      ap (λ (c : Config). c.node_port_selector.key) e
          ∙ key_text extra.node_port_selector.value extra.node_port_selector.key,
    )
