-- ===== src/HaProvider/Service.antt =====
-- The run of CreateOrUpdateHAService in HaProvider/Handlers.antt: what it writes, and what the cluster
-- and the service agree on.
use load_balancer_operator_f.Prelude.{
  String, Bool, true, false, Option, none, some, [], ◌∷◌, Dict, lookup, lookup-insert, ◌==◌, ◌≡◌,
  refl, sym, ap, subst, Bool-cases, inl, inr,
}
use load_balancer_operator_f.Go.Int.{ℤ}
use load_balancer_operator_f.Kube.{Error, Result, ok, err, Cluster, is_not_found}
use load_balancer_operator_f.Kube.Runs.{
  Answer, Any, Runs, run-pure, run-throw, run-bind, run-read, run-check, run-attempt-Any, run-value,
  run-read_of, run-read-Any,
}
use load_balancer_operator_f.Kube.Interfaces.{Env, Selectors, Finalizers}
use load_balancer_operator_f.Api.{AkoDeploymentConfig}
use load_balancer_operator_f.Api.Constants.{
  tkg_system_namespace, ha_service_bootstrap_cluster_finalizer, ako_preferred_ip_annotation,
}
use load_balancer_operator_f.HaProvider.{EndpointsObject, get_ha_service_name}
use load_balancer_operator_f.HaProvider.Endpoints.{listed}
use load_balancer_operator_f.HaProvider.Handlers.{
  Service, Answers, Write, endpoints_created, endpoints_updated, service_created, service_updated,
  found_or_created, ensure_endpoints, annotate_service, annotate_with, base_service, with_endpoint,
  placed, is_management, resolve, place_at, owner_of, create_service, found_or_created_service,
  service_of, held_cluster, sync_service, update_control_plane_endpoint_to_service,
  update_cluster_control_plane_endpoint, create_or_update_ha_service,
}

module _ (env : Env) (fin : Finalizers) (sel : Selectors) (ans : Answers) (cluster : Cluster) where
  abbrev Protected : Bool → Service → Type 0
  Protected true s = fin.contains s.finalizers ha_service_bootstrap_cluster_finalizer ≡ true
  Protected false s = s.owner_references ≡ owner_of env fin sel ans cluster ∷ []

  -- The service bears the name of the cluster, and it has the finalizer in the system namespace and
  -- the cluster as its owner elsewhere.
  abbrev pub IsHaService : Service → Type 0
  IsHaService s =
      (s.name ≡ get_ha_service_name cluster)
      × (s.namespace ≡ cluster.namespace)
      × Protected (cluster.namespace == tkg_system_namespace) s

  -- What the run may write, for the cluster that the caller holds at its end.
  abbrev pub IsForService : Cluster → Write → Type 0
  IsForService c (service_created s) = IsHaService s
  IsForService c (service_updated s) =
      (lookup ako_preferred_ip_annotation s.annotations ≡ some s.load_balancer_ip)
      × (resolve env fin sel ans c.host ≡ ok s.load_balancer_ip)
  IsForService c (endpoints_created e) = listed e ≡ []
  IsForService c (endpoints_updated e) = ⊥

  module _ (c : Cluster) where
    annotate_with-Runs :
        (adc : Option AkoDeploymentConfig)
        → Runs (IsForService c) Any (annotate_with env fin sel ans cluster adc)
    annotate_with-Runs none = elim (Bool-cases (is_management env fin sel ans cluster)) [
      | inl t ↦ rw t (run-throw _ Any _)
      | inr f ↦ rw f (run-pure _ Any _ tt)
    ]
    annotate_with-Runs (some adc) = run-bind _ _ _ _ _ (run-read _ _) λ setting e. run-read-Any _ _

    base-Protected :
        (b : Bool) (a : Dict String) (port : ℤ) (family : String)
        → cluster.namespace == tkg_system_namespace ≡ b
        → Protected b (base_service env fin sel ans cluster a port family)
    base-Protected true a port family e = rw e (fin.contains-add_self [] _)
    base-Protected false a port family e = rw e refl

    place_at-Protected :
        (b : Bool) (s : Service) (ip : String)
        → Protected b s
        → Protected b (place_at env fin sel ans s ip)
    place_at-Protected true s ip h = h
    place_at-Protected false s ip h = h

    placed-IsHaService :
        (s : Service) (r : Result String)
        → IsHaService s
        → Answer IsHaService (placed env fin sel ans s r)
    placed-IsHaService s (ok ip) h = (h.0, h.1, place_at-Protected _ s ip h.2)
    placed-IsHaService s (err e) h = tt

    with_endpoint-IsHaService :
        (s : Service) (endpoint : String)
        → IsHaService s
        → Answer IsHaService (with_endpoint env fin sel ans s endpoint)
    with_endpoint-IsHaService s endpoint h = elim (Bool-cases (endpoint == "")) [
      | inl t ↦ rw t h
      | inr f ↦ rw f (placed-IsHaService s (resolve env fin sel ans endpoint) h)
    ]

    create_service-Runs : Runs (IsForService c) Any (create_service env fin sel ans cluster)
    unfolding create_service annotate_service
    create_service-Runs =
        run-bind _ Any _ _ _ (run-bind _ _ _ _ _ (run-read _ _) λ adc e. annotate_with-Runs adc)
          λ a u. run-bind _ _ _ _ _ (run-read _ _) λ port e.
            run-bind _ _ _ _ _ (run-read _ _) λ family e'.
              run-bind _ _ _ _ _ (run-read _ _) λ endpoint e''.
                run-bind _ IsHaService _ _ _
                  (run-read_of _ _ _ (
                    with_endpoint-IsHaService _ endpoint
                      (refl, refl, base-Protected _ a port family refl)))
                  λ s h. run-attempt-Any _ (service_created s) (ans.create_service s) h

    found_or_created_service-Runs :
        (r : Result Service)
        → Runs (IsForService c) Any (found_or_created_service env fin sel ans cluster r)
    found_or_created_service-Runs (ok s) = run-pure _ Any s tt
    found_or_created_service-Runs (err e) = elim (Bool-cases (is_not_found e)) [
      | inl t ↦ rw t create_service-Runs
      | inr f ↦ rw f (run-throw _ Any e)
    ]

    update_service-Runs :
        (service : Service)
        → Runs
            (IsForService c)
            Any
            (update_control_plane_endpoint_to_service env fin sel ans c service)
    unfolding update_control_plane_endpoint_to_service
    update_service-Runs service = run-bind _ _ _ _ _ (run-read _ _) λ host e.
        run-attempt-Any _ (service_updated (place_at env fin sel ans service host)) _
          (rw (lookup-insert ako_preferred_ip_annotation _ host service.annotations) refl, e)

    found_or_created-Runs :
        (fresh : EndpointsObject) (r : Result EndpointsObject)
        → listed fresh ≡ []
        → Runs (IsForService c) Any (found_or_created env fin sel ans fresh r)
    found_or_created-Runs fresh (ok e) h = run-pure _ Any e tt
    found_or_created-Runs fresh (err e) h = elim (Bool-cases (is_not_found e)) [
      | inl t ↦ rw t (run-attempt-Any _ (endpoints_created fresh) (ans.create_endpoints fresh) h)
      | inr f ↦ rw f (run-throw _ Any e)
    ]

  sync_service-Runs :
      (u : Cluster × Option Error) (service : Service)
      → Runs (IsForService u.0) Any (sync_service env fin sel ans u service)
  unfolding sync_service ensure_endpoints
  sync_service-Runs u service = run-bind _ _ _ _ _ (run-check _ _) λ x e.
      run-bind _ Any _ _ _ (update_service-Runs u.0 service) λ updated y.
        run-bind _ Any _ _ _ (found_or_created-Runs u.0 _ (ans.get_endpoints _) refl)
          λ z z'. run-pure _ Any tt tt

  -- CreateOrUpdateHAService never panics. A service that it creates bears the cluster's name and has
  -- the finalizer in the system namespace and the cluster as its owner elsewhere; the service that it
  -- updates asks for the IP in its annotation, which is the control plane endpoint of the cluster, or
  -- what the endpoint resolves to.
  pub create_or_update_ha_service-Runs :
      let r = create_or_update_ha_service env fin sel ans cluster in Runs (IsForService r.0) Any r.1
  unfolding create_or_update_ha_service
  create_or_update_ha_service-Runs =
      let c = held_cluster env fin sel ans cluster (service_of env fin sel ans cluster).1 in
      run-bind _ _ _ _ _
        (run-value _ Any (service_of env fin sel ans cluster) (found_or_created_service-Runs c _))
        λ service e.
          subst
            (λ (x : Cluster). Runs (IsForService x) Any (
              sync_service env fin sel ans
                (update_cluster_control_plane_endpoint env fin sel ans cluster service) service))
            (sym (ap (held_cluster env fin sel ans cluster) e)) (sync_service-Runs _ service)
