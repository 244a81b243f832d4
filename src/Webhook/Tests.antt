-- ===== src/Webhook/Tests.antt =====
-- An object that the webhook admits, and one on which it panics.
use load_balancer_operator_f.Prelude.{
  true, not, ◌&&◌, none, some, [], ◌≡◌, refl, is_empty, is_some, index, lookup,
}
use load_balancer_operator_f.Go.Text.{codes, split, decimal, cut}
use load_balancer_operator_f.Go.Net.{parse_cidr}
use load_balancer_operator_f.Kube.{ok}
use load_balancer_operator_f.Api.{AkoDeploymentConfig}
use load_balancer_operator_f.Samples.{adc_of, team_selector, label_selectors}
use load_balancer_operator_f.Webhook.{
  validate_cluster_selector, validate_replica_count, is_version, validate_avi_controller_version,
  pools_issues, validate_avi_data_networks, pools_list,
}
use load_balancer_operator_f.Webhook.Pools.{
  accepts, panics, is_data_network, validate_avi_data_networks-accepts,
  validate_avi_data_networks-panics,
}
use load_balancer_operator_f.Webhook.Admission.{
  AviClient, Answers, field_issues, validate_avi, validate_create, validate_update,
}
use load_balancer_operator_f.Webhook.Admission.Created.{is_valid, validate_create-accepts}
use load_balancer_operator_f.Webhook.Admission.Updated.{KeepsPlane, validate_update-KeepsPlane}

abbrev obj : AkoDeploymentConfig
obj = adc_of "team-a" team_selector

abbrev bad_cidr : AkoDeploymentConfig
bad_cidr = record obj {
  spec = record obj.spec { data_network = record obj.spec.data_network { cidr = "10.0.4.0" } };
}

abbrev client : AviClient
client = record {
  version = ok "20.1.3";
  ipam_of_cloud = λ name. ok (some "https://avi/api/ipamdnsproviderprofile/1");
  group_error = λ name cloud. none;
  network_error = λ name cloud. none;
}

abbrev answers : Answers
answers = record {
  get_secret = λ ref. ok [];
  connect = λ controller username password ca version. ok client;
}

-- A pool beside a CIDR that does not parse.
nil_network : validate_avi_data_networks none bad_cidr ≡ none
unfolding validate_avi_data_networks pools_issues parse_cidr codes cut
nil_network = refl

update_admitted : accepts (validate_update answers label_selectors obj obj) ≡ true
unfolding validate_update validate_cluster_selector validate_avi validate_avi_controller_version
    is_version split decimal codes validate_replica_count field_issues index lookup
update_admitted = refl

validate_create-accepts_example :
    accepts (validate_create answers label_selectors obj) ≡ is_valid answers label_selectors obj
validate_create-accepts_example = validate_create-accepts answers label_selectors obj

validate_update-KeepsPlane_example :
    (label_selectors.text obj.spec.cluster_selector
      ≡ label_selectors.text obj.spec.cluster_selector)
    × KeepsPlane obj obj
validate_update-KeepsPlane_example =
    validate_update-KeepsPlane answers obj label_selectors obj update_admitted

validate_avi_data_networks-accepts_example :
    accepts (validate_avi_data_networks none obj) ≡ is_data_network none obj
validate_avi_data_networks-accepts_example = validate_avi_data_networks-accepts none obj

validate_avi_data_networks-panics_example : panics (validate_avi_data_networks none bad_cidr) ≡ (
    not (is_some (parse_cidr bad_cidr.spec.data_network.cidr))
    && not (is_empty (pools_list bad_cidr.spec.data_network.ip_pools)))
validate_avi_data_networks-panics_example = validate_avi_data_networks-panics none bad_cidr
