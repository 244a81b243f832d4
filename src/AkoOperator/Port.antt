-- ===== src/AkoOperator/Port.antt =====
-- The port of the control plane endpoint is always a port number.
use load_balancer_operator_f.Prelude.{
  ◌<◌, String, true, Option, none, some, ◌≡◌, refl, ◌≢◌, ◌⊎◌, inl, inr, arith, ltb, ◌&&◌,
  Bool-cases,
}
use load_balancer_operator_f.Go.Int.{ℤ, pos, negsuc}
use load_balancer_operator_f.Go.Json.{Json, JsonError, int, unmarshal_int}
use load_balancer_operator_f.Go.Strconv.{atoi}
use load_balancer_operator_f.Kube.{Error, Cluster}
use load_balancer_operator_f.Kube.Interfaces.{Env}
use load_balancer_operator_f.AkoOperator.{
  validate_port_number, to_int32, checked_port, port_of_json, port_of_text, port_of_env,
  port_of_variable, get_control_plane_endpoint_port, topology_variable, api_server_port,
  control_plane_endpoint_port, default_port, is_cluster_class_based_cluster,
}

topology_variable-classy :
    (name : String) (cluster : Cluster) {raw : Json}
    → topology_variable name cluster.topology ≡ some raw
    → is_cluster_class_based_cluster cluster ≡ true
unfolding topology_variable is_cluster_class_based_cluster
topology_variable-classy name cluster e = ground arith

-- A number from 1 to 65535.
abbrev pub IsPort : ℤ → Type 0
IsPort (pos n) = (0 < n) × (n < 65536)
IsPort (negsuc n) = ⊥

-- What the callers learn: a port number is returned as it is; for any other, and for each error,
-- the default port comes beside the error.
abbrev pub IsDefault : ℤ × Option Error → Type 0
IsDefault r = (r.0 ≡ default_port) × (r.1 ≢ none)

-- The conversion to int32 keeps a port number.
checked_port-cases :
    (z : ℤ) → IsPort z × (checked_port z ≡ (z, none)) ⊎ (¬ IsPort z) × IsDefault (checked_port z)
unfolding checked_port validate_port_number to_int32
checked_port-cases (pos n) = elim (Bool-cases (ltb 0 n && ltb n 65536)) [
  | inl t ↦ inl (ground arith, rw t (ground arith))
  | inr f ↦ inr ((λ h. ground arith), rw f (refl, λ e. cc))
]
checked_port-cases (negsuc n) = inr ((λ h. h), (refl, λ e. cc))

checked_port-IsPort :
    (z : ℤ) → IsPort (checked_port z).0 × (((checked_port z).1 ≡ none) ⊎ IsDefault (checked_port z))
checked_port-IsPort z = elim (checked_port-cases z) [
  | inl (h, e) ↦ rw e (h, inl refl)
  | inr (n, d) ↦ (rw d.0 (omega arith), inr d)
]

of_json :
    (r : ℤ × Option JsonError)
    → IsPort (port_of_json r).0 × (((port_of_json r).1 ≡ none) ⊎ IsDefault (port_of_json r))
of_json (n, some e) = (omega arith, inr (refl, λ x. cc))
of_json (n, none) = checked_port-IsPort n

of_text :
    (t : Option ℤ)
    → IsPort (port_of_text t).0 × (((port_of_text t).1 ≡ none) ⊎ IsDefault (port_of_text t))
of_text none = (omega arith, inr (refl, λ x. cc))
of_text (some n) = checked_port-IsPort n

of_env :
    (t : Option String)
    → IsPort (port_of_env t).0 × (((port_of_env t).1 ≡ none) ⊎ IsDefault (port_of_env t))
of_env none = (omega arith, inl refl)
of_env (some t) = of_text (atoi t)

of_variable :
    (v : Option Json)
    → IsPort (port_of_variable v).0
      × (((port_of_variable v).1 ≡ none) ⊎ IsDefault (port_of_variable v))
unfolding to_int32
of_variable none = (omega arith, inl refl)
of_variable (some raw) = of_json (unmarshal_int raw default_port)

-- GetControlPlaneEndpointPort returns a number from 1 to 65535 in every case, and with an error it
-- returns 6443.
pub get_control_plane_endpoint_port-IsPort :
    (env : Env) (cluster : Cluster)
    → let r = get_control_plane_endpoint_port env cluster in
      IsPort r.0 × ((r.1 ≡ none) ⊎ IsDefault r)
unfolding get_control_plane_endpoint_port
get_control_plane_endpoint_port-IsPort env cluster =
    elim (Bool-cases (is_cluster_class_based_cluster cluster)) [
      | inl t ↦ rw t (of_variable (topology_variable api_server_port cluster.topology))
      | inr f ↦ rw f (of_env (env control_plane_endpoint_port))
    ]

-- A classy cluster whose first apiServerPort variable is the integer z gets exactly z, without a
-- change by the conversion to int32, if z is a port number; otherwise it gets 6443 and an error.
pub get_control_plane_endpoint_port-declared :
    (env : Env) (cluster : Cluster) (z : ℤ)
    → topology_variable api_server_port cluster.topology ≡ some (int z)
    → let r = get_control_plane_endpoint_port env cluster in
      IsPort z × (r ≡ (z, none)) ⊎ (¬ IsPort z) × IsDefault r
unfolding get_control_plane_endpoint_port unmarshal_int
get_control_plane_endpoint_port-declared env cluster z e =
    rw (topology_variable-classy api_server_port cluster e, e) (checked_port-cases z)
