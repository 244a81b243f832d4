-- ===== src/NetProvider/Usable.antt =====
-- What AddUsableNetwork makes of the IPAM profile.
use load_balancer_operator_f.Prelude.{
  String, Bool, true, false, Option, none, some, List, [], ◌∷◌, ◌++◌, Bool-cases, In, All, ◌≡◌,
  refl, inl, inr, ◌⊎◌,
}
use load_balancer_operator_f.Go.Text.{contains_text, contains_text_self}
use load_balancer_operator_f.Kube.{Result, ok, err}
use load_balancer_operator_f.Kube.Exec.{
  returns, fails, panics, Exec, pure, read, attempt, unless_panic, ◌>>=◌,
}
use load_balancer_operator_f.AviNetwork.{Network}
use load_balancer_operator_f.NetProvider.{
  Cloud, IpamProfile, Answers, Write, ipam_updated, get_uuid_from_ref, wrapped, is_listed,
  with_network, add_if, ensure_usable, with_provider, add_usable_network,
}

-- One of the references is part of the network's URL.
abbrev pub Lists : String → List (Option String) → Type 0
Lists url refs = (ref : String) × In (some ref) refs × (contains_text url ref ≡ true)

-- A reference that is not nil and not part of the network's URL.
abbrev pub IsOther : String → Option String → Type 0
IsOther url none = ⊥
IsOther url (some ref) = contains_text url ref ≡ false

Lists-tail :
    (url : String) (r : Option String) (refs : List (Option String))
    → Lists url refs
    → Lists url (r ∷ refs)
Lists-tail url r refs l = (l.0, inr l.1, l.2)

is_listed-Lists :
    (url : String) (refs : List (Option String)) → is_listed url refs ≡ some true → Lists url refs
unfolding is_listed
is_listed-Lists url [] h = cc
is_listed-Lists url (none ∷ refs) h = cc
is_listed-Lists url (some ref ∷ refs) h = elim (Bool-cases (contains_text url ref)) [
  | inl t ↦ (ref, inl refl, t)
  | inr f ↦ Lists-tail url (some ref) refs (is_listed-Lists url refs (rw f at h))
]

is_listed-IsOther :
    (url : String) (refs : List (Option String))
    → is_listed url refs ≡ some false
    → All (IsOther url) refs
unfolding is_listed
is_listed-IsOther url [] h = tt
is_listed-IsOther url (none ∷ refs) h = cc
is_listed-IsOther url (some ref ∷ refs) h = elim (Bool-cases (contains_text url ref)) [
  | inl t ↦ cc
  | inr f ↦ (f, is_listed-IsOther url refs (rw f at h))
]

Lists-append : (url : String) (refs : List (Option String)) → Lists url (refs ++ some url ∷ [])
Lists-append url [] = (url, inl refl, contains_text_self url)
Lists-append url (r ∷ refs) = Lists-tail url r (refs ++ some url ∷ []) (Lists-append url refs)

module _ (ans : Answers) (cloud_name network_name : String) where
  -- The profile of the cloud and the network, as the AVI Controller gives them.
  abbrev pub Finds : IpamProfile → Network → Type 0
  Finds ipam network =
      (cloud : Cloud) × (ref : String) × (ans.cloud_by_name cloud_name ≡ ok cloud)
      × (cloud.ipam_provider_ref ≡ some ref)
      × (ans.ipam_get (get_uuid_from_ref ref) ≡ ok ipam)
      × (ans.network_by_name network_name cloud_name ≡ ok network)

  abbrev pub NoProvider : Type 0
  NoProvider =
      (cloud : Cloud) × (ans.cloud_by_name cloud_name ≡ ok cloud) × (cloud.ipam_provider_ref ≡ none)

  -- How a call ends, by its writes and its outcome.
  abbrev pub IsAdded : Exec Write Unit → Type 0
  IsAdded (ws, returns u) =
      (ws ≡ []) × NoProvider
      ⊎ (ipam : IpamProfile) × (network : Network) × Finds ipam network
        × (refs : List (Option String)) × (ipam.usable_networks ≡ some refs)
        × ((ws ≡ []) × Lists network.url refs
            ⊎ All (IsOther network.url) refs
              × (after : IpamProfile) × (ws ≡ ipam_updated after ∷ [])
              × (after.name ≡ ipam.name)
              × (after.usable_networks ≡ some (refs ++ some network.url ∷ []))
              × Lists network.url (refs ++ some network.url ∷ []))
  IsAdded (ws, fails e) = Unit {0}
  IsAdded (ws, panics) = ws ≡ []

  module _ (ipam : IpamProfile) (network : Network) (found : Finds ipam network) where
    update_step :
        (refs : List (Option String)) (r : Result (Unit {0})) (text : String)
        → ipam.usable_networks ≡ some refs
        → is_listed network.url refs ≡ some false
        → IsAdded (attempt (ipam_updated (with_network ipam refs network.url)) (wrapped text r))
    unfolding attempt
    update_step refs (err e) text h k = tt
    update_step refs (ok u) text h k = inr (
      ipam,
      network,
      found,
      refs,
      h,
      inr (
        is_listed-IsOther network.url refs k,
        with_network ipam refs network.url,
        refl,
        refl,
        refl,
        Lists-append network.url refs,
      ),
    )

    listed_step :
        (refs : List (Option String)) (listed : Option Bool)
        → ipam.usable_networks ≡ some refs
        → is_listed network.url refs ≡ listed
        → IsAdded (unless_panic listed >>= λ b. add_if ans b ipam refs network)
    unfolding ◌>>=◌ unless_panic pure
    listed_step refs none h k = refl
    listed_step refs (some true) h k =
        inr (ipam, network, found, refs, h, inl (refl, is_listed-Lists network.url refs k))
    listed_step refs (some false) h k =
        update_step refs (ans.ipam_update (with_network ipam refs network.url)) _ h k

    ensure_step :
        (refs : Option (List (Option String)))
        → ipam.usable_networks ≡ refs
        → IsAdded (
            unless_panic refs >>= λ rs.
            unless_panic (is_listed network.url rs) >>= λ b. add_if ans b ipam rs network)
    unfolding ◌>>=◌ unless_panic
    ensure_step none h = refl
    ensure_step (some refs) h = listed_step refs (is_listed network.url refs) h refl

  module _ (cloud : Cloud) (at : ans.cloud_by_name cloud_name ≡ ok cloud) where
    network_step :
        (ref : String) (ipam : IpamProfile) (text : String) (r : Result Network)
        → cloud.ipam_provider_ref ≡ some ref
        → ans.ipam_get (get_uuid_from_ref ref) ≡ ok ipam
        → ans.network_by_name network_name cloud_name ≡ r
        → IsAdded (read (wrapped text r) >>= λ network. ensure_usable ans ipam network)
    unfolding ◌>>=◌ read ensure_usable
    network_step ref ipam text (err e) p i h = tt
    network_step ref ipam text (ok network) p i h =
        ensure_step ipam network (cloud, ref, at, p, i, h) ipam.usable_networks refl

    ipam_step :
        (ref : String) (r : Result IpamProfile) (text : String)
        → cloud.ipam_provider_ref ≡ some ref
        → ans.ipam_get (get_uuid_from_ref ref) ≡ r
        → IsAdded (
            read (wrapped "Failed to find IPAM profile" r) >>= λ ipam.
            read (wrapped text (ans.network_by_name network_name cloud_name)) >>= λ network.
            ensure_usable ans ipam network)
    unfolding ◌>>=◌ read
    ipam_step ref (err e) text p h = tt
    ipam_step ref (ok ipam) text p h =
        network_step ref ipam text (ans.network_by_name network_name cloud_name) p h refl

    provider_step :
        (provider : Option String)
        → cloud.ipam_provider_ref ≡ provider
        → IsAdded (with_provider ans cloud_name network_name provider)
    unfolding pure
    provider_step none p = inl (refl, (cloud, at, p))
    provider_step (some ref) p = ipam_step ref (ans.ipam_get (get_uuid_from_ref ref)) _ p refl

  cloud_step :
      (r : Result Cloud) (text : String)
      → ans.cloud_by_name cloud_name ≡ r
      → IsAdded (
          read (wrapped text r) >>= λ cloud.
          with_provider ans cloud_name network_name cloud.ipam_provider_ref)
  unfolding ◌>>=◌ read
  cloud_step (err e) text h = tt
  cloud_step (ok cloud) text h = provider_step cloud h cloud.ipam_provider_ref refl

-- AddUsableNetwork returns without an error in three ways only: without a write where the cloud has no
-- IPAM provider, which is no error; without a write where a reference of the provider's profile is part
-- of the network's URL; or, where no reference is nil or part of it, after one write, of the profile of
-- the same name with the same references and the network's URL at their end. A panic is before every
-- write.
pub add_usable_network-IsAdded :
    (ans : Answers) (cloud_name network_name : String)
    → IsAdded ans cloud_name network_name (add_usable_network ans cloud_name network_name)
unfolding add_usable_network
add_usable_network-IsAdded ans cloud_name network_name =
    cloud_step ans cloud_name network_name (ans.cloud_by_name cloud_name) _ refl
