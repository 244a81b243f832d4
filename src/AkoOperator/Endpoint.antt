-- ===== src/AkoOperator/Endpoint.antt =====
-- Reading the control plane endpoint back, and what writing it leaves alone.
use load_balancer_operator_f.Prelude.{
  String, true, false, Option, none, some, List, [], ◌∷◌, ◌≡◌, refl, ◌≢◌, ap, arith, eq_iff,
  literal_ne, eq_refl, ◌==◌, ◌&&◌, if◌then◌else◌,
}
use load_balancer_operator_f.Go.Json.{Json, unmarshal_string, str}
use load_balancer_operator_f.Kube.{Cluster, ClusterVariable}
use load_balancer_operator_f.Kube.Interfaces.{Env}
use load_balancer_operator_f.AkoOperator.{
  find_variable, set_variable, set_topology, topology_variable, api_server_endpoint,
  api_server_port, avi_api_server_ha_provider, kube_vip_load_balancer_provider,
  is_cluster_class_based_cluster, is_control_plane_vip_provider, is_load_balancer_provider,
  has_topology, get_control_plane_endpoint, set_control_plane_endpoint,
  get_control_plane_endpoint_port,
}

find_variable-set_variable :
    (k j : String) (raw : Json) (vs : List ClusterVariable)
    → find_variable j (set_variable k raw vs) ≡ (if k == j then some raw else find_variable j vs)
unfolding find_variable set_variable
find_variable-set_variable k j raw [] = refl
find_variable-set_variable k j raw (v ∷ vs) =
    ground
      (arith, find_variable-set_variable k j raw vs, eq_iff v.name k, eq_iff v.name j, eq_iff k j)

set_variable-set_variable :
    (k : String) (a b : Json) (vs : List ClusterVariable)
    → set_variable k b (set_variable k a vs) ≡ set_variable k b vs
unfolding set_variable
set_variable-set_variable k a b [] = rw eq_refl
set_variable-set_variable k a b (v ∷ vs) = ground (arith, set_variable-set_variable k a b vs)

topology_variable-set_topology :
    (k j : String) (raw : Json) (t : Option (List ClusterVariable))
    → topology_variable j (set_topology k raw t)
      ≡ (if has_topology t && k == j then some raw else topology_variable j t)
unfolding topology_variable
topology_variable-set_topology k j raw none = refl
topology_variable-set_topology k j raw (some vs) = find_variable-set_variable k j raw vs

topology_variable-set_ne :
    (k j : String) (raw : Json) (t : Option (List ClusterVariable))
    → k ≢ j
    → topology_variable j (set_topology k raw t) ≡ topology_variable j t
topology_variable-set_ne k j raw t n =
    ground (arith, topology_variable-set_topology k j raw t, eq_iff k j)

-- After SetControlPlaneEndpoint on a classy cluster, GetControlPlaneEndpoint returns the endpoint
-- that was set, with no error.
pub get-set_control_plane_endpoint :
    (cluster : Cluster) (endpoint : String)
    → is_cluster_class_based_cluster cluster ≡ true
    → get_control_plane_endpoint (set_control_plane_endpoint cluster endpoint) ≡ (endpoint, none)
unfolding get_control_plane_endpoint set_control_plane_endpoint is_cluster_class_based_cluster
    unmarshal_string
get-set_control_plane_endpoint cluster endpoint h =
    rw (topology_variable-set_topology _ _ _ cluster.topology, h)

set_topology-class :
    (k : String) (raw : Json) (t : Option (List ClusterVariable))
    → has_topology (set_topology k raw t) ≡ has_topology t
set_topology-class k raw none = refl
set_topology-class k raw (some vs) = refl

set_topology-set_topology :
    (k : String) (a b : Json) (t : Option (List ClusterVariable))
    → set_topology k b (set_topology k a t) ≡ set_topology k b t
set_topology-set_topology k a b none = refl
set_topology-set_topology k a b (some vs) = ap some (set_variable-set_variable k a b vs)

set_topology-legacy :
    (k : String) (raw : Json) (t : Option (List ClusterVariable))
    → has_topology t ≡ false
    → set_topology k raw t ≡ t
set_topology-legacy k raw none h = refl
set_topology-legacy k raw (some vs) h = cc

-- SetControlPlaneEndpoint leaves every other variable, so what IsControlPlaneVIPProvider,
-- IsLoadBalancerProvider, GetControlPlaneEndpointPort and IsClusterClassBasedCluster return; a second
-- call overwrites the first; and on a legacy cluster it does nothing.
pub set_control_plane_endpoint-frame :
    (env : Env) (cluster : Cluster) (a b : String)
    → let c = set_control_plane_endpoint cluster a in
      (is_control_plane_vip_provider env c ≡ is_control_plane_vip_provider env cluster)
      × (is_load_balancer_provider c ≡ is_load_balancer_provider cluster)
      × (get_control_plane_endpoint_port env c ≡ get_control_plane_endpoint_port env cluster)
      × (is_cluster_class_based_cluster c ≡ is_cluster_class_based_cluster cluster)
      × (set_control_plane_endpoint c b ≡ set_control_plane_endpoint cluster b)
      × (is_cluster_class_based_cluster cluster ≡ false → c ≡ cluster)
unfolding is_control_plane_vip_provider is_load_balancer_provider get_control_plane_endpoint_port
    is_cluster_class_based_cluster set_control_plane_endpoint
set_control_plane_endpoint-frame env cluster a b =
    let other = topology_variable-set_ne api_server_endpoint in
    let t = cluster.topology in
    (
      rw (other avi_api_server_ha_provider (str a) t (literal_ne refl)) refl,
      rw (other kube_vip_load_balancer_provider (str a) t (literal_ne refl)) refl,
      rw (other api_server_port (str a) t (literal_ne refl), set_topology-class _ (str a) t) refl,
      set_topology-class _ (str a) t,
      ap (λ x. record cluster { topology = x }) (set_topology-set_topology _ (str a) (str b) t),
      λ h. ap (λ x. record cluster { topology = x }) (set_topology-legacy _ (str a) t h),
    )
