-- ===== src/HaProvider/Endpoints.antt =====
-- The first subset of the Endpoints object, and the later ones, under removeMachineIpFromEndpoints.
use load_balancer_operator_f.Prelude.{
  String, Bool, not, Option, none, some, List, [], ◌∷◌, ◌++◌, ◌≡◌, refl, ap, arith, keep, is_empty,
  if◌then◌else◌,
}
use load_balancer_operator_f.Kube.{Machine}
use load_balancer_operator_f.HaProvider.{
  EndpointAddress, EndpointSubset, EndpointsObject, is_of, remove_from, with_addresses,
  remove_machine_ip_from_endpoints,
}

-- The addresses of the first subset, the only one that the code reads.
abbrev pub first_addresses : Option (List EndpointSubset) → List EndpointAddress
first_addresses none = []
first_addresses (some []) = []
first_addresses (some (s ∷ rest)) = s.addresses

abbrev pub listed : EndpointsObject → List EndpointAddress
listed e = first_addresses e.subsets

-- The subsets after the first one, which the code does not read.
abbrev later_subsets : Option (List EndpointSubset) → List EndpointSubset
later_subsets none = []
later_subsets (some []) = []
later_subsets (some (s ∷ rest)) = rest

abbrev pub later : EndpointsObject → List EndpointSubset
later e = later_subsets e.subsets

-- The addresses of a machine, and the others.
abbrev pub of_machine : String → List EndpointAddress → List EndpointAddress
of_machine name as' = keep (is_of name) as'

abbrev pub of_others : String → List EndpointAddress → List EndpointAddress
of_others name as' = keep (λ a. not (is_of name a)) as'

-- The subsets are nil or start with a subset: no `[]` that is not nil.
abbrev pub StartsFirst : Option (List EndpointSubset) → Type 0
StartsFirst none = Unit
StartsFirst (some []) = ⊥
StartsFirst (some (s ∷ rest)) = Unit

abbrev pub HasFirst : EndpointsObject → Type 0
HasFirst e = StartsFirst e.subsets

pub keep-append :
    {A : Type 0} (p : A → Bool) (xs ys : List A) → keep p (xs ++ ys) ≡ keep p xs ++ keep p ys
keep-append p [] ys = refl
keep-append p (x ∷ xs) ys = ground (arith, keep-append p xs ys)

of_others-removed :
    (name : String) (as' : List EndpointAddress) → of_machine name (of_others name as') ≡ []
of_others-removed name [] = refl
of_others-removed name (a ∷ as') = ground (arith, of_others-removed name as')

pub append_nil : {A : Type 0} (xs : List A) → xs ++ [] ≡ xs
append_nil [] = refl
append_nil (x ∷ xs) = ap (λ ys. x ∷ ys) (append_nil xs)

with_addresses-first :
    (s : EndpointSubset) (rest : List EndpointSubset) (as' : List EndpointAddress)
    → (first_addresses (with_addresses s rest as') ≡ as') × StartsFirst (with_addresses s rest as')
with_addresses-first s rest [] = (refl, tt)
with_addresses-first s rest (a ∷ as') = (refl, tt)

with_addresses-later :
    (s : EndpointSubset) (rest : List EndpointSubset) (as' : List EndpointAddress)
    → later_subsets (with_addresses s rest as') ≡ (if is_empty as' then [] else rest)
with_addresses-later s rest [] = refl
with_addresses-later s rest (a ∷ as') = refl

remove_from-later :
    (name : String) (o : Option (List EndpointSubset))
    → later_subsets (remove_from name o)
      ≡ (if is_empty (of_others name (first_addresses o)) then [] else later_subsets o)
remove_from-later name none = refl
remove_from-later name (some []) = refl
remove_from-later name (some (s ∷ rest)) = with_addresses-later s rest (of_others name s.addresses)

remove_from-others :
    (name : String) (o : Option (List EndpointSubset))
    → first_addresses (remove_from name o) ≡ of_others name (first_addresses o)
remove_from-others name none = refl
remove_from-others name (some []) = refl
remove_from-others name (some (s ∷ rest)) =
    (with_addresses-first s rest (of_others name s.addresses)).0

remove_from-first :
    (name : String) (o : Option (List EndpointSubset))
    → StartsFirst o
    → StartsFirst (remove_from name o)
remove_from-first name none h = tt
remove_from-first name (some []) h = h
remove_from-first name (some (s ∷ rest)) h =
    (with_addresses-first s rest (of_others name s.addresses)).1

-- Where the subsets are nil or start with a subset, removeMachineIpFromEndpoints keeps, of the first
-- subset, exactly the addresses of the other machines, in their order, so the machine has none there
-- afterwards. The later subsets stay as they are, with an address of the machine if they have one,
-- where the first subset still has an address; else they are all lost, with the addresses of the other
-- machines in them. The metadata stay, and subsets that are nil or start with a subset stay so.
pub remove_machine_ip_from_endpoints-others :
    (e : EndpointsObject) (machine : Machine)
    → HasFirst e
    → let after = remove_machine_ip_from_endpoints e machine in
      (listed after ≡ of_others machine.name (listed e))
      × (of_machine machine.name (listed after) ≡ [])
      × (later after ≡ (if is_empty (of_others machine.name (listed e)) then [] else later e))
      × (after.metadata ≡ e.metadata)
      × HasFirst after
unfolding remove_machine_ip_from_endpoints
remove_machine_ip_from_endpoints-others e machine h =
    let r = remove_from-others machine.name e.subsets in
    (
      r,
      rw r (of_others-removed machine.name (listed e)),
      remove_from-later machine.name e.subsets,
      refl,
      remove_from-first machine.name e.subsets h,
    )
