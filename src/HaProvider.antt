-- ===== src/HaProvider.antt =====
-- pkg/haprovider/haprovider.go: the load balancer service in front of the control plane of a
-- cluster, and the Endpoints object that lists its machines. Here are the objects and the edits of
-- the Endpoints; the handlers that call the API server are in HaProvider/Handlers.antt.
pub mod Handlers
pub mod Endpoints
pub mod Machines
pub mod Updates
pub mod Service
mod Tests
use load_balancer_operator_f.Prelude.{
  String, Bool, true, false, not, ◌&&◌, Option, none, some, List, [], ◌∷◌, ◌++◌, Dict, ◌==◌, ◌⧺◌,
  if◌then◌else◌, keep, first, any, is_empty,
}
use load_balancer_operator_f.Go.Int.{ℤ, pos}
use load_balancer_operator_f.Go.Net.{Ip, parse_ip, to_4}
use load_balancer_operator_f.Kube.{
  ObjectMeta, Machine, MachineAddress, AddressType, external_ip, Cluster,
}
use load_balancer_operator_f.Api.{AkoDeploymentConfig}
use load_balancer_operator_f.Api.Constants.{ha_service_name}

-- corev1.EndpointAddress; NodeName is a pointer
pub record EndpointAddress : Type 0 where
  pub ip : String
  pub node_name : Option String

pub record EndpointPort : Type 0 where
  pub port : ℤ
  pub protocol : String

pub record EndpointSubset : Type 0 where
  pub addresses : List EndpointAddress
  pub ports : List EndpointPort

-- corev1.Endpoints; nil subsets are `none`
pub record EndpointsObject : Type 0 where
  pub metadata : ObjectMeta
  pub open metadata use *
  pub subsets : Option (List EndpointSubset)

unfoldable pub get_ha_service_name : Cluster → String
get_ha_service_name cluster = cluster.namespace ⧺ "-" ⧺ cluster.name ⧺ "-" ⧺ ha_service_name

unfoldable pub get_avi_infra_setting_name : AkoDeploymentConfig → String
get_avi_infra_setting_name adc = adc.name ⧺ "-ais"

abbrev pub is_external : AddressType → Bool
is_external external_ip = true
is_external _ = false

-- `net.ParseIP(s) != nil`
unfoldable pub is_valid_ip : String → Bool
is_valid_ip s = not (is_empty (parse_ip s))

-- The addresses of a machine that the loops do not pass over.
abbrev pub is_usable : MachineAddress → Bool
is_usable m = is_external m.kind && is_valid_ip m.address

abbrev pub names : Option String → String → Bool
names none name = false
names (some n) name = n == name

-- `address.NodeName != nil && *address.NodeName == machine.Name`
abbrev pub is_of : String → EndpointAddress → Bool
is_of name a = names a.node_name name

-- The loop that overwrites the IP with each usable address, so the last one stays.
unfoldable pub last_usable : String → List MachineAddress → String
last_usable ip [] = ip
last_usable ip (m ∷ ms) = last_usable (if is_usable m then m.address else ip) ms

unfoldable pub sync_endpoint_machine_ip : EndpointAddress → Machine → EndpointAddress
sync_endpoint_machine_ip a machine =
    if any (λ m. is_usable m && a.ip == m.address) machine.addresses
    then a
    else record a { ip = last_usable a.ip machine.addresses }

-- An empty first subset takes all the subsets with it.
abbrev with_addresses :
    EndpointSubset → List EndpointSubset → List EndpointAddress → Option (List EndpointSubset)
with_addresses s rest [] = none
with_addresses s rest (a ∷ as') = some (record s { addresses = a ∷ as' } ∷ rest)

abbrev remove_from : String → Option (List EndpointSubset) → Option (List EndpointSubset)
remove_from name none = none
remove_from name (some []) = some []
remove_from name (some (s ∷ rest)) =
    with_addresses s rest (keep (λ a. not (is_of name a)) s.addresses)

unfoldable pub remove_machine_ip_from_endpoints : EndpointsObject → Machine → EndpointsObject
remove_machine_ip_from_endpoints endpoints machine = record endpoints {
  subsets = remove_from machine.name endpoints.subsets;
}

-- The first loop: it syncs the first address of the machine and returns, or finds none.
unfoldable pub sync_listed : Machine → List EndpointAddress → Option (List EndpointAddress)
sync_listed machine [] = none
sync_listed machine (a ∷ as') =
    let rest = sync_listed machine as' in
    if is_of machine.name a
    then some (sync_endpoint_machine_ip a machine ∷ as')
    else elim rest [ none ↦ none | some bs ↦ some (a ∷ bs) ]

unfoldable pub fits_family : String → Ip → Bool
fits_family ip_family ip =
    if ip_family == "V6"
    then is_empty (to_4 ip)
    else if ip_family == "V4"
    then not (is_empty (to_4 ip))
    else false

abbrev pub is_joinable : String → MachineAddress → Bool
is_joinable ip_family m = is_usable m && fits_family ip_family (parse_ip m.address)

abbrev join : String → List EndpointAddress → Option MachineAddress → List EndpointAddress
join name as' none = as'
join name as' (some m) = as' ++ record { ip = m.address; node_name = some name } ∷ []

-- The second loop: it appends the first address that fits the family and breaks.
abbrev pub append_machine : Machine → String → List EndpointAddress → List EndpointAddress
append_machine machine ip_family as' =
    join machine.name as' (first (is_joinable ip_family) machine.addresses)

abbrev pub sync_or_append :
    Machine → String → List EndpointAddress → Option (List EndpointAddress) → List EndpointAddress
sync_or_append machine ip_family as' none = append_machine machine ip_family as'
sync_or_append machine ip_family as' (some bs) = bs

abbrev pub new_subset : EndpointSubset
new_subset = record { addresses = []; ports = record { port = pos 6443; protocol = "TCP" } ∷ [] }

-- `none` where the code reads the first subset of a list that is empty and not nil.
abbrev add_to : Machine → String → Option (List EndpointSubset) → Option (List EndpointSubset)
add_to machine ip_family none =
    some (record new_subset { addresses = append_machine machine ip_family [] } ∷ [])
add_to machine ip_family (some []) = none
add_to machine ip_family (some (s ∷ rest)) = some (
    record s {
      addresses = sync_or_append machine ip_family s.addresses (sync_listed machine s.addresses);
    }
    ∷ rest)

abbrev with_subsets : EndpointsObject → Option (List EndpointSubset) → Option EndpointsObject
with_subsets endpoints none = none
with_subsets endpoints (some subsets) = some (record endpoints { subsets = some subsets })

unfoldable pub add_machine_ip_to_endpoints :
    EndpointsObject → Machine → String → Option EndpointsObject
add_machine_ip_to_endpoints endpoints machine ip_family =
    with_subsets endpoints (add_to machine ip_family endpoints.subsets)
