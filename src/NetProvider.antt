-- ===== src/NetProvider.antt =====
-- AddUsableNetwork of pkg/netprovider/network_provider.go: a network is put into the IPAM profile of a cloud.
-- The URL and the name of a network are taken as present.
pub mod Usable
mod Tests
use load_balancer_operator_f.Prelude.{
  String, ◌⧺◌, Bool, true, false, Option, none, some, List, [], ◌∷◌, ◌++◌, if◌then◌else◌,
}
use load_balancer_operator_f.Go.Text.{contains_text, last_segment}
use load_balancer_operator_f.Kube.{Error, wrap, Result, ok, err}
use load_balancer_operator_f.Kube.Exec.{Exec, pure, read, attempt, unless_panic, ◌>>=◌}
use load_balancer_operator_f.AviNetwork.{Network}

-- models.Cloud
pub record Cloud : Type 0 where
  pub ipam_provider_ref : Option String

-- models.IPAMDNSProviderProfile: its name, and the references of InternalProfile.UsableNetworks, where the
-- profile has one
pub record IpamProfile : Type 0 where
  pub name : String
  pub usable_networks : Option (List (Option String))

pub record Answers : Type 0 where
  pub cloud_by_name : String → Result Cloud
  pub ipam_get : String → Result IpamProfile
  pub network_by_name : String → String → Result Network
  pub ipam_update : IpamProfile → Result (Unit {0})

pub data Write : Type 0 where
  ipam_updated : IpamProfile → Write

unfoldable pub get_uuid_from_ref : String → String
get_uuid_from_ref ref = last_segment ref

abbrev pub wrapped : {A : Type 0} → String → Result A → Result A
wrapped text (ok a) = ok a
wrapped text (err e) = err (wrap text e)

-- The loop: whether the network is listed; `none` is the panic on a nil reference.
unfoldable pub is_listed : String → List (Option String) → Option Bool
is_listed url [] = some false
is_listed url (none ∷ refs) = none
is_listed url (some ref ∷ refs) =
    let rest = is_listed url refs in if contains_text url ref then some true else rest

abbrev pub with_network : IpamProfile → List (Option String) → String → IpamProfile
with_network ipam refs url = record ipam { usable_networks = some (refs ++ some url ∷ []) }

module _ (ans : Answers) where
  abbrev pub add_if : Bool → IpamProfile → List (Option String) → Network → Exec Write Unit
  add_if true ipam refs network = pure tt
  add_if false ipam refs network = attempt (ipam_updated (with_network ipam refs network.url)) (
      wrapped ("Failed to add usable network " ⧺ network.name ⧺ "\n")
        (ans.ipam_update (with_network ipam refs network.url)))

  unfoldable pub ensure_usable : IpamProfile → Network → Exec Write Unit
  ensure_usable ipam network = do
    refs ← unless_panic ipam.usable_networks
    listed ← unless_panic (is_listed network.url refs)
    add_if listed ipam refs network

  -- errors.Wrap of the nil error gives nil, so a cloud without a provider is no error.
  abbrev pub with_provider : String → String → Option String → Exec Write Unit
  with_provider cloud_name network_name none = pure tt
  with_provider cloud_name network_name (some ref) = do
    ipam ← read (wrapped "Failed to find IPAM profile" (ans.ipam_get (get_uuid_from_ref ref)))
    network ← read (
        wrapped ("Failed to get Data Network " ⧺ network_name ⧺ " from AVI Controller\n")
          (ans.network_by_name network_name cloud_name))
    ensure_usable ipam network

  unfoldable pub add_usable_network : String → String → Exec Write Unit
  add_usable_network cloud_name network_name = do
    cloud ← read (
        wrapped ("Failed to find cloud " ⧺ cloud_name ⧺ ", requeue the request\n")
          (ans.cloud_by_name cloud_name))
    with_provider cloud_name network_name cloud.ipam_provider_ref
