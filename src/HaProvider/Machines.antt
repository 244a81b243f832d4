-- ===== src/HaProvider/Machines.antt =====
-- Adding a machine to the Endpoints object: on lists of addresses first, then on the object.
use load_balancer_operator_f.Prelude.{
  ◌≤◌, String, Bool, true, false, not, ◌&&◌, ◌||◌, Option, none, some, List, [], ◌∷◌, ◌++◌, ◌≡◌,
  refl, sym, ap, subst, ◌∙◌, arith, ◌==◌, eq_refl, first, any, length, Bool-cases, inl, inr, ◌⊎◌,
  false≢true, In, eq_iff, is_empty,
}
use load_balancer_operator_f.Kube.{Machine, MachineAddress, AddressType, external_ip}
use load_balancer_operator_f.HaProvider.{
  is_external, is_valid_ip, fits_family, EndpointAddress, EndpointSubset, EndpointsObject, is_of,
  names, is_usable, is_joinable, last_usable, sync_endpoint_machine_ip, sync_listed, sync_or_append,
  append_machine, add_machine_ip_to_endpoints,
}
use load_balancer_operator_f.Go.Net.{parse_ip, to_4}
use load_balancer_operator_f.HaProvider.Endpoints.{
  StartsFirst, later, listed, of_machine, of_others, HasFirst, keep-append, append_nil,
}

abbrev has_ip : String → List MachineAddress → Bool
has_ip ip ms = any (λ m. is_usable m && ip == m.address) ms

-- An external address of a machine that parses.
abbrev pub IsUsable : MachineAddress → Type 0
IsUsable m = (m.kind ≡ external_ip) × (is_empty (parse_ip m.address) ≡ false)

-- The address is an IPv6 address where the family is V6, and an IPv4 address where it is V4.
abbrev pub Fits : String → MachineAddress → Type 0
Fits ip_family m =
    (ip_family ≡ "V6") × (is_empty (to_4 (parse_ip m.address)) ≡ true)
    ⊎ (ip_family ≡ "V4") × (is_empty (to_4 (parse_ip m.address)) ≡ false)

or_true : (b : Bool) → (b || true) ≡ true
or_true true = refl
or_true false = refl

and_left : (a b : Bool) → (a && b) ≡ true → a ≡ true
and_left true b h = refl
and_left false b h = h

and_right : (a b : Bool) → (a && b) ≡ true → b ≡ true
and_right true b h = h
and_right false b h = cc

of_kind : (k : AddressType) → is_external k ≡ true → k ≡ external_ip
of_kind external_ip h = refl
of_kind k h = cc

is_usable-IsUsable : (m : MachineAddress) → is_usable m ≡ true → IsUsable m
unfolding is_valid_ip
is_usable-IsUsable m h = (of_kind m.kind (and_left _ _ h), ground arith)

fits_family-Fits :
    (ip_family : String) (m : MachineAddress)
    → fits_family ip_family (parse_ip m.address) ≡ true
    → Fits ip_family m
unfolding fits_family
fits_family-Fits ip_family m h = elim (Bool-cases (ip_family == "V6")) [
  | inl t ↦ inl ((eq_iff ip_family "V6").0 t, rw t at h)
  | inr f ↦ elim (Bool-cases (ip_family == "V4")) [
    | inl t ↦ inr ((eq_iff ip_family "V4").0 t, ground arith)
    | inr g ↦ absurd (false≢true (rw (f, g) at h))
  ]
]

any-In :
    {A : Type 0} (p : A → Bool) (xs : List A) → any p xs ≡ true → (x : A) × In x xs × (p x ≡ true)
any-In p [] h = cc
any-In p (x ∷ xs) h = elim (Bool-cases (p x)) [
  | inl t ↦ (x, inl refl, t)
  | inr f ↦ let k = any-In p xs (rw f at h) in (k.0, inr k.1, k.2)
]

module _ (m : MachineAddress) (ms : List MachineAddress) where
  last_usable-usable :
      (ip : String) → is_usable m ≡ true → last_usable ip (m ∷ ms) ≡ last_usable m.address ms
  unfolding last_usable
  last_usable-usable ip t = rw t refl

  last_usable-skipped :
      (ip : String) → is_usable m ≡ false → last_usable ip (m ∷ ms) ≡ last_usable ip ms
  unfolding last_usable
  last_usable-skipped ip f = rw f refl

  has_ip-here :
      (ip : String)
      → is_usable m ≡ true
      → (has_ip ip ms ≡ true) ⊎ (ip ≡ m.address)
      → has_ip ip (m ∷ ms) ≡ true
  has_ip-here ip t (inl h) = rw h (or_true _)
  has_ip-here ip t (inr e) = rw (e, t, eq_refl) refl

last_usable-cases :
    (ip : String) (ms : List MachineAddress)
    → (has_ip (last_usable ip ms) ms ≡ true) ⊎ (last_usable ip ms ≡ ip)
last_usable-cases ip [] = unfold last_usable in inr refl
last_usable-cases ip (m ∷ ms) =
    let P = λ (y : String). (has_ip y (m ∷ ms) ≡ true) ⊎ (y ≡ ip) in
    elim (Bool-cases (is_usable m)) [
      | inl t ↦
          subst P (sym (last_usable-usable m ms ip t))
            (inl (has_ip-here m ms _ t (last_usable-cases m.address ms)))
      | inr f ↦
          subst P (sym (last_usable-skipped m ms ip f))
            (elim (last_usable-cases ip ms) [ inl h ↦ inl (rw h (or_true _)) | inr e ↦ inr e ])
    ]

any-skipped : (a b : Bool) → a ≡ false → (a || b) ≡ true → b ≡ true
any-skipped true b f h = cc
any-skipped false b f h = h

-- Where some address is usable, the last one is of the machine.
last_usable-found :
    (ip : String) (ms : List MachineAddress)
    → any is_usable ms ≡ true
    → has_ip (last_usable ip ms) ms ≡ true
last_usable-found ip [] h = cc
last_usable-found ip (m ∷ ms) h =
    let P = λ (y : String). has_ip y (m ∷ ms) ≡ true in
    elim (Bool-cases (is_usable m)) [
      | inl t ↦
          subst P (sym (last_usable-usable m ms ip t))
            (has_ip-here m ms _ t (last_usable-cases m.address ms))
      | inr f ↦
          subst P (sym (last_usable-skipped m ms ip f))
            (rw (last_usable-found ip ms (any-skipped (is_usable m) _ f h)) (or_true _))
    ]

joinable-usable :
    (ip_family : String) (ms : List MachineAddress)
    → any (is_joinable ip_family) ms ≡ true
    → any is_usable ms ≡ true
joinable-usable ip_family [] h = cc
joinable-usable ip_family (m ∷ ms) h = elim (Bool-cases (is_usable m)) [
  | inl t ↦ rw t refl
  | inr f ↦ rw f (joinable-usable ip_family ms (rw f at h))
]

has_ip-IsUsable :
    (ip : String) (ms : List MachineAddress)
    → has_ip ip ms ≡ true
    → (m : MachineAddress) × In m ms × IsUsable m × (ip ≡ m.address)
has_ip-IsUsable ip ms h =
    let k = any-In (λ m. is_usable m && ip == m.address) ms h in
    (
      k.0,
      k.1,
      is_usable-IsUsable k.0 (and_left _ _ k.2),
      (eq_iff ip k.0.address).0 (and_right _ _ k.2),
    )

named_by : (o : Option String) (name : String) → names o name ≡ true → o ≡ some name
named_by none name h = cc
named_by (some n) name h = ap some ((eq_iff n name).0 h)

module _ (machine : Machine) where
  sync-found :
      (a : EndpointAddress)
      → has_ip a.ip machine.addresses ≡ true
      → sync_endpoint_machine_ip a machine ≡ a
  unfolding sync_endpoint_machine_ip
  sync-found a h = rw h refl

  sync-missing :
      (a : EndpointAddress)
      → has_ip a.ip machine.addresses ≡ false
      → sync_endpoint_machine_ip a machine ≡ record a { ip = last_usable a.ip machine.addresses }
  unfolding sync_endpoint_machine_ip
  sync-missing a h = rw h refl

  sync_idem :
      (a : EndpointAddress)
      → sync_endpoint_machine_ip (sync_endpoint_machine_ip a machine) machine
        ≡ sync_endpoint_machine_ip a machine
  sync_idem a = elim (Bool-cases (has_ip a.ip machine.addresses)) [
    | inl t ↦ rw (sync-found a t, sync-found a t) refl
    | inr f ↦ rw (sync-missing a f) (elim (last_usable-cases a.ip machine.addresses) [
      | inl t ↦ sync-found _ t
      | inr e ↦ rw e (sync-missing a f ∙ ap (λ x. record a { ip = x }) e)
    ])
  ]

  sync-names : (a : EndpointAddress) → (sync_endpoint_machine_ip a machine).node_name ≡ a.node_name
  sync-names a = elim (Bool-cases (has_ip a.ip machine.addresses)) [
    | inl t ↦ rw (sync-found a t) refl
    | inr f ↦ rw (sync-missing a f) refl
  ]

  sync-is_of :
      (name : String) (a : EndpointAddress)
      → is_of name (sync_endpoint_machine_ip a machine) ≡ is_of name a
  sync-is_of name a = ap (λ o. names o name) (sync-names a)

  sync-has_ip :
      (a : EndpointAddress)
      → any is_usable machine.addresses ≡ true
      → has_ip (sync_endpoint_machine_ip a machine).ip machine.addresses ≡ true
  sync-has_ip a u = elim (Bool-cases (has_ip a.ip machine.addresses)) [
    | inl t ↦ rw (sync-found a t) t
    | inr f ↦ rw (sync-missing a f) (last_usable-found a.ip machine.addresses u)
  ]

  -- An address of the machine's that bears its name.
  abbrev HasOwn : List EndpointAddress → Type 0
  HasOwn bs =
      (a : EndpointAddress) × In a bs
      × (is_of machine.name a ≡ true)
      × (has_ip a.ip machine.addresses ≡ true)

  -- The first loop finds no address of the machine, or edits one and keeps everything else.
  record IsSynced (as' bs : List EndpointAddress) : Type 0 where
    again : sync_listed machine bs ≡ some bs
    count : length (of_machine machine.name bs) ≡ length (of_machine machine.name as')
    some_listed : 1 ≤ length (of_machine machine.name bs)
    others : of_others machine.name bs ≡ of_others machine.name as'
    own : any is_usable machine.addresses ≡ true → HasOwn bs

  sync_listed-cases :
      (as' : List EndpointAddress)
      → (sync_listed machine as' ≡ none) × (of_machine machine.name as' ≡ [])
        ⊎ (bs : List EndpointAddress) × (sync_listed machine as' ≡ some bs) × IsSynced as' bs
  unfolding sync_listed
  sync_listed-cases [] = inl (refl, refl)
  sync_listed-cases (a ∷ as') = elim (Bool-cases (is_of machine.name a)) [
    | inl t ↦
        let k = sync-is_of machine.name a ∙ t in
        rw t (
          inr (
            sync_endpoint_machine_ip a machine ∷ as',
            refl,
            record {
              again = rw (k, sync_idem a) refl;
              count = rw (k, t) refl;
              some_listed = rw k (omega arith);
              others = rw (k, t) refl;
              own = λ u. (sync_endpoint_machine_ip a machine, inl refl, k, sync-has_ip a u);
            },
          ))
    | inr f ↦ rw f (elim (sync_listed-cases as') [
      | inl (e, m) ↦ rw e (inl (refl, m))
      | inr (bs, e, v) ↦ rw e (
          inr (
            a ∷ bs,
            refl,
            record {
              again = rw (f, v.again) refl;
              count = rw f v.count;
              some_listed = rw f v.some_listed;
              others = rw f (ap (λ xs. a ∷ xs) v.others);
              own = λ u. let o = v.own u in (o.0, inr o.1, o.2, o.3);
            },
          ))
    ])
  ]

  -- The list after addMachineIpToEndpoints.
  abbrev after_add : String → List EndpointAddress → List EndpointAddress
  after_add ip_family as' = sync_or_append machine ip_family as' (sync_listed machine as')

  sync_listed-append :
      (as' : List EndpointAddress) (x : EndpointAddress)
      → of_machine machine.name as' ≡ []
      → is_of machine.name x ≡ true
      → sync_endpoint_machine_ip x machine ≡ x
      → sync_listed machine (as' ++ x ∷ []) ≡ some (as' ++ x ∷ [])
  unfolding sync_listed
  sync_listed-append [] x h t e = rw (t, e) refl
  sync_listed-append (a ∷ as') x h t e = elim (Bool-cases (is_of machine.name a)) [
    | inl u ↦ absurd (ground arith)
    | inr f ↦ rw (f, sync_listed-append as' x (ground arith) t e) refl
  ]

  first-cases :
      (ip_family : String) (ms : List MachineAddress)
      → (first (is_joinable ip_family) ms ≡ none) × (any (is_joinable ip_family) ms ≡ false)
        ⊎ (m : MachineAddress) × (first (is_joinable ip_family) ms ≡ some m)
          × (has_ip m.address ms ≡ true)
          × In m ms
          × (is_joinable ip_family m ≡ true)
  first-cases ip_family [] = inl (refl, refl)
  first-cases ip_family (m ∷ ms) = elim (Bool-cases (is_joinable ip_family m)) [
    | inl t ↦
        rw t (inr (m, refl, has_ip-here m ms m.address (and_left _ _ t) (inr refl), inl refl, t))
    | inr f ↦ rw f (elim (first-cases ip_family ms) [
      | inl (e, n) ↦ inl (e, n)
      | inr (n, e, h, i, j) ↦ inr (n, e, rw h (or_true _), inr i, j)
    ])
  ]

  abbrev entry : MachineAddress → EndpointAddress
  entry m = record { ip = m.address; node_name = some machine.name }

  -- The list ends with a new entry of the machine, at an address of its family, where it had none; or
  -- the machine had an entry, and has one at a usable address of it.
  abbrev pub IsPresent : String → List EndpointAddress → List EndpointAddress → Type 0
  IsPresent ip_family as' bs =
      (of_machine machine.name as' ≡ [])
        × ((m : MachineAddress) × In m machine.addresses
            × IsUsable m
            × Fits ip_family m
            × (bs ≡ as' ++ entry m ∷ []))
      ⊎ (1 ≤ length (of_machine machine.name as'))
        × (a : EndpointAddress) × In a bs
        × (a.node_name ≡ some machine.name)
        × (m : MachineAddress) × In m machine.addresses
        × IsUsable m
        × (a.ip ≡ m.address)

  HasOwn-IsPresent :
      (ip_family : String) (as' bs : List EndpointAddress)
      → 1 ≤ length (of_machine machine.name as')
      → HasOwn bs
      → IsPresent ip_family as' bs
  HasOwn-IsPresent ip_family as' bs n o =
      let k = has_ip-IsUsable o.0.ip machine.addresses o.3 in
      inr (n, o.0, o.1, named_by o.0.node_name machine.name o.2, k.0, k.1, k.2, k.3)

  -- What an addition does to the list of addresses.
  record IsAdded (ip_family : String) (as' bs : List EndpointAddress) : Type 0 where
    again : after_add ip_family bs ≡ bs
    others : of_others machine.name bs ≡ of_others machine.name as'
    count : length (of_machine machine.name as') ≤ 1 → length (of_machine machine.name bs) ≤ 1
    present : any (is_joinable ip_family) machine.addresses ≡ true → IsPresent ip_family as' bs

  append_machine-IsAdded :
      (ip_family : String) (as' : List EndpointAddress)
      → sync_listed machine as' ≡ none
      → of_machine machine.name as' ≡ []
      → IsAdded ip_family as' (append_machine machine ip_family as')
  append_machine-IsAdded ip_family as' e h = elim (first-cases ip_family machine.addresses) [
    | inl (n, f) ↦ rw n (record {
      again = rw (e, n) refl;
      others = refl;
      count = λ c. c;
      present = λ t. absurd (false≢true (sym f ∙ t));
    })
    | inr (m, n, u, i, j) ↦
        let x = entry m in
        let t = eq_refl machine.name in
        rw n (record {
          again = rw (sync_listed-append as' x h t (sync-found x u)) refl;
          others =
              rw (keep-append (λ a. not (is_of machine.name a)) as' (x ∷ []), t) (append_nil _);
          count = λ c. rw (keep-append (is_of machine.name) as' (x ∷ []), h, t) (omega arith);
          present = λ c. inl (
            h,
            (
              m,
              i,
              is_usable-IsUsable m (and_left _ _ j),
              fits_family-Fits ip_family m (and_right _ _ j),
              refl,
            ),
          );
        })
  ]

  after_add-IsAdded :
      (ip_family : String) (as' : List EndpointAddress)
      → IsAdded ip_family as' (after_add ip_family as')
  after_add-IsAdded ip_family as' = elim (sync_listed-cases as') [
    | inl (e, h) ↦ rw e (append_machine-IsAdded ip_family as' e h)
    | inr (bs, e, v) ↦ rw e (record {
      again = rw v.again refl;
      others = v.others;
      count = λ c. rw v.count c;
      present = λ t.
          HasOwn-IsPresent ip_family as' bs (rw (sym v.count) v.some_listed)
            (v.own (joinable-usable ip_family machine.addresses t));
    })
  ]

-- The object after an addition.
record IsAddedTo (e : EndpointsObject) (machine : Machine) (ip_family : String) : Type 0 where
  after : EndpointsObject
  is_after : add_machine_ip_to_endpoints e machine ip_family ≡ some after
  has_first : HasFirst after
  metadata_kept : after.metadata ≡ e.metadata
  later_kept : later after ≡ later e
  added : IsAdded machine ip_family (listed e) (listed after)
  again : add_machine_ip_to_endpoints after machine ip_family ≡ some after

added_to :
    (e : EndpointsObject) (machine : Machine) (ip_family : String)
    (o : Option (List EndpointSubset))
    → StartsFirst o
    → IsAddedTo (record e { subsets = o }) machine ip_family
unfolding add_machine_ip_to_endpoints sync_listed
added_to e machine ip_family none h =
    let v = after_add-IsAdded machine ip_family [] in
    record {
      after = _;
      is_after = refl;
      has_first = tt;
      metadata_kept = refl;
      later_kept = refl;
      added = v;
      again = rw v.again refl;
    }
added_to e machine ip_family (some []) h = absurd h
added_to e machine ip_family (some (s ∷ rest)) h =
    let v = after_add-IsAdded machine ip_family s.addresses in
    record {
      after = _;
      is_after = refl;
      has_first = tt;
      metadata_kept = refl;
      later_kept = refl;
      added = v;
      again = rw v.again refl;
    }

-- Where the subsets are nil or start with a subset, and the machine has at most one address in the
-- first subset, addMachineIpToEndpoints does not panic. It keeps the metadata, the later subsets and,
-- in the first subset, the addresses of the other machines in their order; and the machine has at most
-- one address there.
pub add_machine_ip_to_endpoints-frame :
    (e : EndpointsObject) (machine : Machine) (ip_family : String)
    → HasFirst e
    → length (of_machine machine.name (listed e)) ≤ 1
    → (after : EndpointsObject) × (add_machine_ip_to_endpoints e machine ip_family ≡ some after)
      × HasFirst after
      × (after.metadata ≡ e.metadata)
      × (later after ≡ later e)
      × (of_others machine.name (listed after) ≡ of_others machine.name (listed e))
      × (length (of_machine machine.name (listed after)) ≤ 1)
add_machine_ip_to_endpoints-frame e machine ip_family h c =
    let v = added_to e machine ip_family e.subsets h in
    (
      v.after,
      v.is_after,
      v.has_first,
      v.metadata_kept,
      v.later_kept,
      v.added.others,
      v.added.count c,
    )

-- Where the subsets are nil or start with a subset, and the machine has an external address that is
-- valid and fits the family, addMachineIpToEndpoints lists the machine in the first subset: where it
-- had no entry there, such an address of the machine is appended under its name; where it had one, the
-- list has an entry of its name whose IP is an external, valid address of the machine, of whichever
-- family.
pub add_machine_ip_to_endpoints-IsPresent :
    (e : EndpointsObject) (machine : Machine) (ip_family : String)
    → HasFirst e
    → any (is_joinable ip_family) machine.addresses ≡ true
    → (after : EndpointsObject) × (add_machine_ip_to_endpoints e machine ip_family ≡ some after)
      × IsPresent machine ip_family (listed e) (listed after)
add_machine_ip_to_endpoints-IsPresent e machine ip_family h t =
    let v = added_to e machine ip_family e.subsets h in (v.after, v.is_after, v.added.present t)

-- A second addMachineIpToEndpoints of the same machine changes nothing.
pub add_machine_ip_to_endpoints_idem :
    (e : EndpointsObject) (machine : Machine) (ip_family : String)
    → HasFirst e
    → (after : EndpointsObject) × (add_machine_ip_to_endpoints e machine ip_family ≡ some after)
      × (add_machine_ip_to_endpoints after machine ip_family ≡ some after)
add_machine_ip_to_endpoints_idem e machine ip_family h =
    let v = added_to e machine ip_family e.subsets h in (v.after, v.is_after, v.again)

pub add_machine_ip_to_endpoints-kept :
    (e : EndpointsObject) (machine : Machine) (ip_family : String)
    → HasFirst e
    → (after : EndpointsObject) × (add_machine_ip_to_endpoints e machine ip_family ≡ some after)
      × HasFirst after
      × (after.metadata ≡ e.metadata)
      × (later after ≡ later e)
      × (of_others machine.name (listed after) ≡ of_others machine.name (listed e))
add_machine_ip_to_endpoints-kept e machine ip_family h =
    let v = added_to e machine ip_family e.subsets h in
    (v.after, v.is_after, v.has_first, v.metadata_kept, v.later_kept, v.added.others)
