-- ===== src/Webhook/Pools.antt =====
-- When the checks of the networks accept, and when they panic.
use load_balancer_operator_f.Prelude.{
  String, Bool, true, false, not, ◌&&◌, ◌||◌, Option, none, some, List, [], ◌∷◌, ◌++◌, ◌==◌, ◌⧺◌,
  is_empty, is_some, all, ◌≡◌, refl, ◌∙◌, Bool-cases, inl, inr, arith,
}
use load_balancer_operator_f.Go.Net.{Ip, IpNet, parse_ip, parse_cidr, contains, greater}
use load_balancer_operator_f.Kube.{Error}
use load_balancer_operator_f.Api.{AkoDeploymentConfig, IpPool}
use load_balancer_operator_f.Webhook.{
  FieldError, issue, issue_if, missing_if, prepend, pool_issues, pools_issues, pools_path,
  family_of_ip, pools_list, cidr_issues, validate_avi_data_networks,
  validate_avi_control_plane_networks,
}

-- A check that ends without a panic and finds nothing.
abbrev pub accepts : Option (List FieldError) → Bool
accepts none = false
accepts (some es) = is_empty es

pub is_empty-append : (xs ys : List FieldError) → is_empty (xs ++ ys) ≡ (is_empty xs && is_empty ys)
is_empty-append [] ys = refl
is_empty-append (x ∷ xs) ys = refl

pub accepts-prepend :
    (es : List FieldError) (o : Option (List FieldError))
    → accepts (prepend es o) ≡ (is_empty es && accepts o)
accepts-prepend [] none = refl
accepts-prepend (e ∷ es) none = refl
accepts-prepend es (some fs) = is_empty-append es fs

pub is_empty-issue_if : (b : Bool) (p d : String) → is_empty (issue_if b p d) ≡ not b
is_empty-issue_if true p d = refl
is_empty-issue_if false p d = refl

pub is_empty-missing_if :
    (o : Option Error) (p d : String) → is_empty (missing_if o p d) ≡ not (is_some o)
is_empty-missing_if none p d = refl
is_empty-missing_if (some e) p d = refl

-- A pool has two addresses in the network, in order, and the type of the network.
abbrev pub is_pool_of : IpNet → String → IpPool → Bool
is_pool_of net addr_type pool =
    not (is_empty (parse_ip pool.start))
    && not (is_empty (parse_ip pool.end))
    && contains net (parse_ip pool.start)
    && contains net (parse_ip pool.end)
    && not (greater (parse_ip pool.start) (parse_ip pool.end))
    && pool.kind == addr_type

five_tests :
    (a b c d e : Bool) (p s t u v : String)
    → is_empty (issue_if a p s ++ issue_if b p t ++ issue_if (not c || not d) p u ++ issue_if e p v)
      ≡ (not a && not b && c && d && not e)
five_tests true b c d e p s t u v = refl
five_tests false true c d e p s t u v = refl
five_tests false false false d e p s t u v = refl
five_tests false false true false e p s t u v = refl
five_tests false false true true true p s t u v = refl
five_tests false false true true false p s t u v = refl

is_empty-pool_issues :
    (net : IpNet) (pool : IpPool)
    → is_empty (pool_issues net pool) ≡ (
        not (is_empty (parse_ip pool.start))
        && not (is_empty (parse_ip pool.end))
        && contains net (parse_ip pool.start)
        && contains net (parse_ip pool.end)
        && not (greater (parse_ip pool.start) (parse_ip pool.end)))
unfolding pool_issues
is_empty-pool_issues net pool =
    five_tests (is_empty (parse_ip pool.start)) (is_empty (parse_ip pool.end))
      (contains net (parse_ip pool.start)) (contains net (parse_ip pool.end))
      (greater (parse_ip pool.start) (parse_ip pool.end)) pools_path _ _ _ _

-- The loop accepts the pools that are of the network, each of them.
accepts-pools_issues :
    (net : IpNet) (addr_type : String) (pools : List IpPool)
    → accepts (pools_issues (some net) addr_type pools) ≡ all (is_pool_of net addr_type) pools
unfolding pools_issues
accepts-pools_issues net addr_type [] = refl
accepts-pools_issues net addr_type (pool ∷ pools) =
    let es = pool_issues net pool in
    let rest = pools_issues (some net) addr_type pools in
    let wrong =
      some (issue pools_path "data plane network ip pools type is not aligned with cidr") in
    elim (Bool-cases (pool.kind == addr_type)) [
      | inl t ↦ rw t (
          accepts-prepend es rest
          ∙ rw (is_empty-pool_issues net pool, accepts-pools_issues net addr_type pools)
              (ground arith))
      | inr f ↦ rw f (accepts-prepend es wrong ∙ rw (is_empty-pool_issues net pool) (ground arith))
    ]

-- What validateAviDataNetworks is to accept: the network is found, its CIDR parses, and each pool is of
-- the network that the CIDR gives.
abbrev pub pools_fit : Option (Ip × IpNet) → List IpPool → Bool
pools_fit none pools = false
pools_fit (some (addr, net)) pools = all (is_pool_of net (family_of_ip addr)) pools

abbrev pub is_data_network : Option Error → AkoDeploymentConfig → Bool
is_data_network network obj =
    not (is_some network)
    && pools_fit (parse_cidr obj.spec.data_network.cidr) (pools_list obj.spec.data_network.ip_pools)

accepts-cidr_issues :
    (cidr : String) (o : Option (Ip × IpNet)) (pools : List IpPool)
    → accepts (cidr_issues cidr o pools) ≡ pools_fit o pools
accepts-cidr_issues cidr none pools =
    accepts-prepend
      (issue "spec.dataNetwork.cidr" ("data plane network cidr " ⧺ cidr ⧺ " is not valid"))
      (pools_issues none "INVALID" pools)
accepts-cidr_issues cidr (some (addr, net)) pools =
    accepts-pools_issues net (family_of_ip addr) pools

-- validateAviDataNetworks ends without an error exactly where the AVI Controller has the network, the
-- CIDR parses, and each pool has two addresses in the CIDR, in order, and the type of its family.
pub validate_avi_data_networks-accepts :
    (network : Option Error) (obj : AkoDeploymentConfig)
    → accepts (validate_avi_data_networks network obj) ≡ is_data_network network obj
unfolding validate_avi_data_networks
validate_avi_data_networks-accepts network obj =
    accepts-prepend _ _
    ∙ rw
        (
          is_empty-missing_if network "spec.dataNetwork.name" "failed to get data plane network",
          accepts-cidr_issues obj.spec.data_network.cidr (parse_cidr obj.spec.data_network.cidr)
              (pools_list obj.spec.data_network.ip_pools),
        )
        refl

abbrev pub panics : Option (List FieldError) → Bool
panics none = true
panics (some es) = false

panics-prepend :
    (es : List FieldError) (o : Option (List FieldError)) → panics (prepend es o) ≡ panics o
panics-prepend es none = refl
panics-prepend es (some fs) = refl

pools_never_panic :
    (net : IpNet) (addr_type : String) (pools : List IpPool)
    → panics (pools_issues (some net) addr_type pools) ≡ false
unfolding pools_issues
pools_never_panic net addr_type [] = refl
pools_never_panic net addr_type (pool ∷ pools) =
    panics-prepend _ _ ∙ elim (Bool-cases (pool.kind == addr_type)) [
      | inl t ↦ rw t (pools_never_panic net addr_type pools)
      | inr f ↦ rw f refl
    ]

panics-cidr_issues :
    (cidr : String) (o : Option (Ip × IpNet)) (pools : List IpPool)
    → panics (cidr_issues cidr o pools) ≡ (not (is_some o) && not (is_empty pools))
unfolding pools_issues
panics-cidr_issues cidr none [] = refl
panics-cidr_issues cidr none (pool ∷ pools) = refl
panics-cidr_issues cidr (some (addr, net)) pools = pools_never_panic net (family_of_ip addr) pools

-- validateAviDataNetworks panics exactly where the CIDR does not parse and there is a pool.
pub validate_avi_data_networks-panics :
    (network : Option Error) (obj : AkoDeploymentConfig)
    → panics (validate_avi_data_networks network obj) ≡ (
        not (is_some (parse_cidr obj.spec.data_network.cidr))
        && not (is_empty (pools_list obj.spec.data_network.ip_pools)))
unfolding validate_avi_data_networks
validate_avi_data_networks-panics network obj =
    panics-prepend _ _
    ∙ panics-cidr_issues obj.spec.data_network.cidr (parse_cidr obj.spec.data_network.cidr)
        (pools_list obj.spec.data_network.ip_pools)

-- The control plane network is not checked where its name or its CIDR is empty.
abbrev pub is_control_plane_network : Option Error → AkoDeploymentConfig → Bool
is_control_plane_network network obj =
    obj.spec.control_plane_network.name == ""
    || obj.spec.control_plane_network.cidr == ""
    || not (is_some network) && is_some (parse_cidr obj.spec.control_plane_network.cidr)

two_checks :
    (network : Option Error) (b : Bool) (p d q e : String)
    → is_empty (missing_if network p d ++ issue_if (not b) q e) ≡ (not (is_some network) && b)
two_checks none true p d q e = refl
two_checks none false p d q e = refl
two_checks (some x) b p d q e = refl

pub is_empty-validate_avi_control_plane_networks :
    (network : Option Error) (obj : AkoDeploymentConfig)
    → is_empty (validate_avi_control_plane_networks network obj)
      ≡ is_control_plane_network network obj
unfolding validate_avi_control_plane_networks
is_empty-validate_avi_control_plane_networks network obj =
    elim (Bool-cases
      (obj.spec.control_plane_network.name == "" || obj.spec.control_plane_network.cidr == "")) [
        | inl t ↦ rw t refl
        | inr f ↦
            rw f (
              two_checks network (is_some (parse_cidr obj.spec.control_plane_network.cidr)) _ _ _ _)
      ]
