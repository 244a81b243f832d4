-- ===== src/HaProvider/Tests.antt =====
-- The edits of the Endpoints object and the handlers at concrete objects.
use load_balancer_operator_f.Prelude.{
  true, Option, none, some, [], ◌∷◌, ◌≡◌, refl, arith, any, length, is_empty, if◌then◌else◌, ◌≤◌,
}
use load_balancer_operator_f.Go.Net.{parse_ip, to_4}
use load_balancer_operator_f.Kube.{status, not_found, ok, err, Machine, external_ip, internal_ip}
use load_balancer_operator_f.Kube.Runs.{Any, Runs}
use load_balancer_operator_f.Samples.{meta_of, no_env, legacy, label_selectors}
use load_balancer_operator_f.Samples.Libraries.{list_finalizers}
use load_balancer_operator_f.HaProvider.{
  EndpointAddress, EndpointsObject, is_valid_ip, fits_family, is_joinable, last_usable, new_subset,
  sync_endpoint_machine_ip, sync_listed, add_machine_ip_to_endpoints,
  remove_machine_ip_from_endpoints,
}
use load_balancer_operator_f.HaProvider.Endpoints.{
  later, listed, of_machine, of_others, HasFirst, remove_machine_ip_from_endpoints-others,
}
use load_balancer_operator_f.HaProvider.Machines.{
  IsPresent, add_machine_ip_to_endpoints-frame, add_machine_ip_to_endpoints-IsPresent,
}
use load_balancer_operator_f.HaProvider.Handlers.{
  Answers, create_or_update_ha_endpoints, create_or_update_ha_service,
}
use load_balancer_operator_f.HaProvider.Updates.{IsFor, create_or_update_ha_endpoints-Runs}
use load_balancer_operator_f.HaProvider.Service.{IsForService, create_or_update_ha_service-Runs}

abbrev node : Machine
node = record {
  metadata = record (meta_of "default" "cp-0") {
    labels = ("cluster.x-k8s.io/control-plane", "") ∷ [];
  };
  cluster_name = "wc";
  addresses =
      record { kind = internal_ip; address = "192.168.0.4" }
      ∷ record { kind = external_ip; address = "10.0.0.4" }
      ∷ [];
}

abbrev no_endpoints : EndpointsObject
no_endpoints = record { metadata = meta_of "default" "default-wc-control-plane"; subsets = none }

abbrev other : EndpointAddress
other = record { ip = "10.0.0.9"; node_name = some "cp-1" }

abbrev one_endpoint : EndpointsObject
one_endpoint = record no_endpoints {
  subsets = some (record new_subset { addresses = other ∷ [] } ∷ []);
}

abbrev two_endpoints : EndpointsObject
two_endpoints = record no_endpoints {
  subsets = some (
      record new_subset {
        addresses = record { ip = "10.0.0.3"; node_name = some "cp-0" } ∷ other ∷ [];
      }
      ∷ []);
}

-- The only machine of the first subset is removed: the later subset goes with it.
loses_later :
    remove_machine_ip_from_endpoints
      (record no_endpoints {
        subsets = some (
            record new_subset {
              addresses = record { ip = "10.0.0.3"; node_name = some "cp-0" } ∷ [];
            }
            ∷ record new_subset { addresses = other ∷ [] }
            ∷ []);
      })
      node
    ≡ no_endpoints
unfolding remove_machine_ip_from_endpoints
loses_later = refl

-- The external address is added after the one of the other machine.
added : Option EndpointsObject
unfolding add_machine_ip_to_endpoints sync_listed is_valid_ip fits_family parse_ip to_4
added = add_machine_ip_to_endpoints one_endpoint node "V4"

added_test :
    added
    ≡ some (record no_endpoints {
      subsets = some (
          record new_subset {
            addresses = other ∷ record { ip = "10.0.0.4"; node_name = some "cp-0" } ∷ [];
          }
          ∷ []);
    })
unfolding added add_machine_ip_to_endpoints sync_listed is_valid_ip fits_family parse_ip to_4
added_test = refl

joinable_test : any (is_joinable "V4") node.addresses ≡ true
unfolding is_valid_ip fits_family parse_ip to_4
joinable_test = refl

-- The sync of a listed address takes the last external address, of whichever family.
sync_takes_last :
    sync_endpoint_machine_ip
      (record { ip = "10.0.0.3"; node_name = some "cp-0" })
      (record node {
        addresses =
            record { kind = external_ip; address = "10.0.0.4" }
            ∷ record { kind = external_ip; address = "2001:db8::4" }
            ∷ [];
      })
    ≡ record { ip = "2001:db8::4"; node_name = some "cp-0" }
unfolding sync_endpoint_machine_ip last_usable is_valid_ip parse_ip
sync_takes_last = refl

remove_machine_ip_from_endpoints-others_example :
    let after = remove_machine_ip_from_endpoints two_endpoints node in
    (listed after ≡ of_others "cp-0" (listed two_endpoints))
    × (of_machine "cp-0" (listed after) ≡ [])
    × (later after
        ≡ (if is_empty (of_others "cp-0" (listed two_endpoints)) then [] else later two_endpoints))
    × (after.metadata ≡ two_endpoints.metadata)
    × HasFirst after
remove_machine_ip_from_endpoints-others_example =
    remove_machine_ip_from_endpoints-others two_endpoints node tt

add_machine_ip_to_endpoints-frame_example :
    (after : EndpointsObject) × (add_machine_ip_to_endpoints two_endpoints node "V4" ≡ some after)
    × HasFirst after
    × (after.metadata ≡ two_endpoints.metadata)
    × (later after ≡ later two_endpoints)
    × (of_others "cp-0" (listed after) ≡ of_others "cp-0" (listed two_endpoints))
    × (length (of_machine "cp-0" (listed after)) ≤ 1)
add_machine_ip_to_endpoints-frame_example =
    add_machine_ip_to_endpoints-frame two_endpoints node "V4" tt (omega arith)

add_machine_ip_to_endpoints-IsPresent_example :
    (after : EndpointsObject) × (add_machine_ip_to_endpoints one_endpoint node "V4" ≡ some after)
    × IsPresent node "V4" (listed one_endpoint) (listed after)
add_machine_ip_to_endpoints-IsPresent_example =
    add_machine_ip_to_endpoints-IsPresent one_endpoint node "V4" tt joinable_test

-- A server that knows the cluster and nothing else, and accepts every write.
abbrev empty_server : Answers
empty_server = record {
  get_cluster = λ k. ok legacy;
  list_adcs = ok [];
  get_infra_setting = λ name. err (status not_found);
  get_endpoints = λ k. err (status not_found);
  create_endpoints = λ e. ok (record e { subsets = none });
  update_endpoints = λ e. ok e;
  get_service = λ k. err (status not_found);
  create_service = λ s. ok (record s { ingress = "10.0.0.1" ∷ [] });
  update_service = λ s. ok s;
  query_fqdn = λ s. ok "10.0.0.2";
}

create_or_update_ha_endpoints-Runs_example :
    Runs
      (IsFor empty_server node)
      Any
      (create_or_update_ha_endpoints no_env list_finalizers label_selectors empty_server node)
create_or_update_ha_endpoints-Runs_example =
    create_or_update_ha_endpoints-Runs no_env list_finalizers label_selectors empty_server node
      ((λ k. tt), λ e. tt)

create_or_update_ha_service-Runs_example :
    let r =
      create_or_update_ha_service no_env list_finalizers label_selectors empty_server legacy in
    Runs (IsForService no_env list_finalizers label_selectors empty_server legacy r.0) Any r.1
create_or_update_ha_service-Runs_example =
    create_or_update_ha_service-Runs no_env list_finalizers label_selectors empty_server legacy
