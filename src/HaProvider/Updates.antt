-- ===== src/HaProvider/Updates.antt =====
-- The run of CreateOrUpdateHAEndpoints in HaProvider/Handlers.antt: what it writes.
use load_balancer_operator_f.Prelude.{
  String, Bool, true, false, some, [], has, is_empty, ◌≡◌, refl, if◌then◌else◌, Bool-cases, inl,
  inr, ◌⊎◌,
}
use load_balancer_operator_f.Kube.{Result, ok, err, Machine, Cluster, NamespacedName, is_not_found}
use load_balancer_operator_f.Kube.Runs.{
  Answer, Any, Runs, run-pure, run-throw, run-bind, run-read, run-unless_panic, run-attempt,
  run-attempt_of,
}
use load_balancer_operator_f.Kube.Interfaces.{Env, Selectors, Finalizers}
use load_balancer_operator_f.HaProvider.{
  get_ha_service_name, EndpointsObject, remove_machine_ip_from_endpoints,
  add_machine_ip_to_endpoints,
}
use load_balancer_operator_f.HaProvider.Endpoints.{
  listed, later, of_machine, of_others, HasFirst, remove_machine_ip_from_endpoints-others,
}
use load_balancer_operator_f.HaProvider.Machines.{add_machine_ip_to_endpoints-kept}
use load_balancer_operator_f.HaProvider.Handlers.{
  Answers, Write, endpoints_created, endpoints_updated, found_or_created, ensure_endpoints,
  ip_family_of, update_ha_endpoints, create_or_update_ha_endpoints,
}

-- The cluster of the machine, as the API server gives it.
abbrev pub IsClusterOf : Answers → Machine → Cluster → Type 0
IsClusterOf ans machine cluster =
    ans.get_cluster (record { namespace = machine.namespace; name = machine.cluster_name })
    ≡ ok cluster

-- The Endpoints object of the control plane of a cluster, without addresses.
abbrev pub IsFresh : Cluster → EndpointsObject → Type 0
IsFresh cluster e =
    (e.name ≡ get_ha_service_name cluster) × (e.namespace ≡ cluster.namespace) × (listed e ≡ [])

-- The Endpoints object of the control plane of the machine's cluster, as the API server gave it on a Get
-- or on a Create.
abbrev pub IsStored : Answers → Machine → EndpointsObject → Type 0
IsStored ans machine e =
    (cluster : Cluster) × IsClusterOf ans machine cluster
    × ((ans.get_endpoints
            (record { namespace = cluster.namespace; name = get_ha_service_name cluster })
          ≡ ok e)
        ⊎ ((fresh : EndpointsObject) × IsFresh cluster fresh × (ans.create_endpoints fresh ≡ ok e)))

-- The object after the edit for a machine: of a machine that is being deleted, the entries of the first
-- subset go and no other, and an empty first subset takes all the later ones with it; else the entries
-- of the other machines and the later subsets stay.
abbrev pub IsEdited : Machine → EndpointsObject → EndpointsObject → Type 0
IsEdited machine before after =
    HasFirst after
    × (after.metadata ≡ before.metadata)
    × ((machine.deleting ≡ true)
          × (listed after ≡ of_others machine.name (listed before))
          × (of_machine machine.name (listed after) ≡ [])
          × (later after
              ≡ (if is_empty (of_others machine.name (listed before)) then [] else later before))
        ⊎ (machine.deleting ≡ false)
          × (of_others machine.name (listed after) ≡ of_others machine.name (listed before))
          × (later after ≡ later before))

-- What CreateOrUpdateHAEndpoints may write for a machine: a fresh object without addresses, or the edit
-- of an object that the API server gave.
abbrev pub IsFor : Answers → Machine → Write → Type 0
IsFor ans machine (endpoints_created e) =
    (cluster : Cluster) × IsClusterOf ans machine cluster × IsFresh cluster e
IsFor ans machine (endpoints_updated after) =
    (before : EndpointsObject) × IsStored ans machine before × IsEdited machine before after
IsFor ans machine _ = ⊥

-- What is held before the edit.
abbrev IsHeld : Answers → Machine → EndpointsObject → Type 0
IsHeld ans machine e = HasFirst e × IsStored ans machine e

-- The server stores no list of subsets that is empty and not nil.
abbrev pub StoresFirst : Answers → Type 0
StoresFirst ans =
    ((k : NamespacedName) → Answer HasFirst (ans.get_endpoints k))
    × ((e : EndpointsObject) → Answer HasFirst (ans.create_endpoints e))

edit-cases :
    (b : Bool) (machine : Machine) (e : EndpointsObject) (ip_family : String)
    → machine.deleting ≡ b
    → HasFirst e
    → (after : EndpointsObject) × ((if b
          then some (remove_machine_ip_from_endpoints e machine)
          else add_machine_ip_to_endpoints e machine ip_family)
        ≡ some after)
      × IsEdited machine e after
edit-cases true machine e ip_family d h =
    let r = remove_machine_ip_from_endpoints-others e machine h in
    (remove_machine_ip_from_endpoints e machine, refl, (r.4, r.3, inl (d, r.0, r.1, r.2)))
edit-cases false machine e ip_family d h =
    let (after, is_after, first, meta, rest, others) =
      add_machine_ip_to_endpoints-kept e machine ip_family h in
    (after, is_after, (first, meta, inr (d, others, rest)))

module _ (env : Env) (fin : Finalizers) (sel : Selectors) (ans : Answers) (machine : Machine) where
  module _ (cluster : Cluster) (is_cluster : IsClusterOf ans machine cluster) where
    got-IsHeld :
        (r : Result EndpointsObject)
        → ans.get_endpoints
            (record { namespace = cluster.namespace; name = get_ha_service_name cluster })
          ≡ r
        → Answer HasFirst r
        → Answer (IsHeld ans machine) r
    got-IsHeld (ok e) h a = (a, (cluster, is_cluster, inl h))
    got-IsHeld (err e) h a = tt

    created-IsHeld :
        (fresh : EndpointsObject) (r : Result EndpointsObject)
        → IsFresh cluster fresh
        → ans.create_endpoints fresh ≡ r
        → Answer HasFirst r
        → Answer (IsHeld ans machine) r
    created-IsHeld fresh (ok e) f h a = (a, (cluster, is_cluster, inr (fresh, f, h)))
    created-IsHeld fresh (err e) f h a = tt

    found_or_created-Runs :
        (fresh : EndpointsObject) (r : Result EndpointsObject)
        → IsFresh cluster fresh
        → Answer (IsHeld ans machine) r
        → ((e : EndpointsObject) → Answer HasFirst (ans.create_endpoints e))
        → Runs (IsFor ans machine) (IsHeld ans machine) (found_or_created env fin sel ans fresh r)
    found_or_created-Runs fresh (ok e) n h k = run-pure _ _ e h
    found_or_created-Runs fresh (err e) n h k = elim (Bool-cases (is_not_found e)) [
      | inl t ↦ rw t (
          run-attempt_of _ (IsHeld ans machine) (endpoints_created fresh)
            (ans.create_endpoints fresh) (cluster, is_cluster, n)
            (created-IsHeld fresh (ans.create_endpoints fresh) n refl (k fresh)))
      | inr f ↦ rw f (run-throw _ (IsHeld ans machine) e)
    ]

    ensure_endpoints-Runs :
        StoresFirst ans
        → Runs
            (IsFor ans machine)
            (IsHeld ans machine)
            (ensure_endpoints env fin sel ans (get_ha_service_name cluster) cluster.namespace)
    unfolding ensure_endpoints
    ensure_endpoints-Runs h =
        found_or_created-Runs _ (ans.get_endpoints _) (refl, refl, refl)
          (got-IsHeld (ans.get_endpoints _) refl (h.0 _)) h.1

  update_ha_endpoints-Runs :
      StoresFirst ans → Runs (IsFor ans machine) Any (update_ha_endpoints env fin sel ans machine)
  unfolding update_ha_endpoints
  update_ha_endpoints-Runs h = run-bind _ _ _ _ _ (run-read _ _) λ cluster found.
      run-bind _ (IsHeld ans machine) _ _ _ (ensure_endpoints-Runs cluster found h)
        λ endpoints held. run-bind _ _ _ _ _ (run-read _ _) λ adc _.
          let (after, is_after, for) =
            edit-cases machine.deleting machine endpoints (ip_family_of env fin sel ans adc) refl
              held.0 in
          run-bind _ _ _ _ _
            (run-unless_panic _ (λ x. IsFor ans machine (endpoints_updated x)) _ after is_after
              (endpoints, held.1, for))
            λ edited h. run-bind _ _ _ _ _ (run-attempt _ _ _ h) λ u _. run-pure _ Any tt tt

  -- Where the server stores no list of subsets that is empty and not nil, CreateOrUpdateHAEndpoints does
  -- not panic, and writes only the Endpoints object of the control plane of the machine's cluster: a fresh
  -- one has no address in its first subset; an update is an edit of the object that the server gave, with
  -- the same metadata. For a machine that is being
  -- deleted its first subset keeps exactly the addresses of the other machines; the later subsets stay,
  -- or all go where the first one is left empty. For any other machine the addresses of the other
  -- machines in the first subset and the later subsets stay.
  pub create_or_update_ha_endpoints-Runs :
      StoresFirst ans
      → Runs (IsFor ans machine) Any (create_or_update_ha_endpoints env fin sel ans machine)
  unfolding create_or_update_ha_endpoints
  create_or_update_ha_endpoints-Runs h =
      elim (Bool-cases (has "cluster.x-k8s.io/control-plane" machine.labels)) [
        | inl t ↦ rw t (update_ha_endpoints-Runs h)
        | inr f ↦ rw f (run-pure _ Any tt tt)
      ]
