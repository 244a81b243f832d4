-- ===== src/NetProvider/Tests.antt =====
-- Tests of AddUsableNetwork and a witness of its theorem.
use load_balancer_operator_f.Kube.Exec.{attempt, unless_panic, pure, read, ◌>>=◌, returns, panics}
use load_balancer_operator_f.NetProvider.{
  is_listed, ensure_usable, IpamProfile, Answers, ipam_updated, get_uuid_from_ref,
  add_usable_network,
}
use load_balancer_operator_f.Go.Text.{contains_text, last_segment}
use load_balancer_operator_f.Prelude.{String, Option, none, some, List, [], ◌∷◌, ◌≡◌, refl}
use load_balancer_operator_f.Kube.{ok}
use load_balancer_operator_f.AviNetwork.{Network}
use load_balancer_operator_f.NetProvider.Usable.{IsAdded, add_usable_network-IsAdded}

abbrev profile_with : Option (List (Option String)) → IpamProfile
profile_with refs = record { name = "ipam"; usable_networks = refs }

abbrev data_network : Network
data_network = record {
  name = "data";
  url = "https://avi/api/network/n-1#data";
  configured_subnets = [];
}

abbrev client : Option String → Option (List (Option String)) → Answers
client provider refs = record {
  cloud_by_name = λ name. ok (record { ipam_provider_ref = provider });
  ipam_get = λ uuid. ok (profile_with refs);
  network_by_name = λ name cloud. ok data_network;
  ipam_update = λ ipam. ok tt;
}

abbrev provider_ref : String
provider_ref = "https://avi/api/ipamdnsproviderprofile/p-7"

uuid_of_ref : get_uuid_from_ref provider_ref ≡ "p-7"
unfolding get_uuid_from_ref last_segment contains_text
uuid_of_ref = refl

-- No provider: no error, so nothing is tried again.
no_provider : add_usable_network (client none none) "cloud" "data" ≡ ([], returns tt)
unfolding add_usable_network ◌>>=◌ read pure
no_provider = refl

listed_already :
    add_usable_network
      (client (some provider_ref) (some (some "https://avi/api/network/n-1" ∷ [])))
      "cloud"
      "data"
    ≡ ([], returns tt)
unfolding add_usable_network ◌>>=◌ read ensure_usable unless_panic is_listed contains_text pure
listed_already = refl

nil_reference :
    add_usable_network (client (some provider_ref) (some (none ∷ []))) "cloud" "data" ≡ ([], panics)
unfolding add_usable_network ◌>>=◌ read ensure_usable unless_panic is_listed
nil_reference = refl

-- Another network is listed, so the network is added after it.
adds_at_end :
    add_usable_network (client (some provider_ref) (some (some "other" ∷ []))) "cloud" "data" ≡ (
      ipam_updated
            (profile_with (some (some "other" ∷ some "https://avi/api/network/n-1#data" ∷ [])))
          ∷ [],
      returns tt,
    )
unfolding add_usable_network ◌>>=◌ read ensure_usable unless_panic is_listed contains_text attempt
adds_at_end = refl

add_usable_network-IsAdded_example :
    IsAdded
      (client (some provider_ref) (some (some "other" ∷ [])))
      "cloud"
      "data"
      (add_usable_network (client (some provider_ref) (some (some "other" ∷ []))) "cloud" "data")
add_usable_network-IsAdded_example =
    add_usable_network-IsAdded (client (some provider_ref) (some (some "other" ∷ []))) "cloud"
      "data"
