-- ===== src/IpFamily/Validate.antt =====
-- What ValidateClusterIpFamily accepts.
use load_balancer_operator_f.Prelude.{
  String, Bool, true, false, Option, none, some, ◌≡◌, refl, ◌≢◌, ◌⊎◌, ◌↔◌, inl, inr, arith, eq_iff,
  ◌==◌, Bool-cases, false≢true, sym, ◌∙◌,
}
use load_balancer_operator_f.Kube.{Error, Cluster}
use load_balancer_operator_f.Api.{AkoDeploymentConfig}
use load_balancer_operator_f.IpFamily.{
  validate_families, adc_ip_family, get_cluster_ip_family, get_primary_ip_family,
  validate_cluster_ip_family, primary_of,
}
use load_balancer_operator_f.IpFamily.Primary.{IsClusterFamily, get_cluster_ip_family-outcomes}

-- The combinations that AKO supports: an IPv4 cluster with an AKO that is not IPv6, and an IPv4
-- primary dual-stack cluster unless AKO is IPv6 and serves the control plane.
abbrev pub IsSupported : String → String → Bool → Type 0
IsSupported family adc_family is_vip_provider =
    (family ≡ "V4") × (adc_family ≢ "V6")
    ⊎ (family ≡ "V4,V6") × ((is_vip_provider ≡ false) ⊎ (adc_family ≢ "V6"))

-- A test against a literal decides.
eqb-cases : (a b : String) → ((a == b) ≡ true) × (a ≡ b) ⊎ ((a == b) ≡ false) × (a ≢ b)
eqb-cases a b = elim (Bool-cases (a == b)) [
  | inl t ↦ inl (t, (eq_iff a b).0 t)
  | inr t ↦ inr (t, λ e. false≢true (sym t ∙ (eq_iff a b).1 e))
]

accepts_v4 : (a : String) (vip : Bool) → (validate_families a vip ("V4", none) ≡ none) ↔ (a ≢ "V6")
accepts_v4 a vip = elim (eqb-cases a "V6") [
  | inl (t, e) ↦ rw t ((λ h. cc), λ n. absurd (n e))
  | inr (t, n) ↦ rw t ((λ h. n), λ n. ground arith)
]

accepts_dual :
    (a : String) (vip : Bool)
    → (validate_families a vip ("V4,V6", none) ≡ none) ↔ ((vip ≡ false) ⊎ (a ≢ "V6"))
accepts_dual a true = elim (eqb-cases a "V6") [
  | inl (t, e) ↦ rw t ((λ h. cc), λ s. elim s [ inl x ↦ cc | inr n ↦ absurd (n e) ])
  | inr (t, n) ↦ rw t ((λ h. inr n), λ s. refl)
]
accepts_dual a false = elim (eqb-cases a "V6") [
  | inl (t, e) ↦ rw t ((λ h. inl refl), λ s. refl)
  | inr (t, n) ↦ rw t ((λ h. inl refl), λ s. refl)
]

accepts :
    (f a : String) (vip : Bool)
    → IsClusterFamily f
    → (validate_families a vip (f, none) ≡ none) ↔ IsSupported f a vip
accepts f a vip (inl e) = rw e (
  (λ h. inl (refl, (accepts_v4 a vip).0 h)),
  λ s. elim s [
    | inl x ↦ (accepts_v4 a vip).1 x.1
    | inr x ↦ absurd (false≢true ((eq_iff "V4" "V4,V6").1 x.0))
  ],
)
accepts f a vip (inr (inl e)) = rw e (
  (λ h. cc),
  λ s. elim s [
    | inl x ↦ absurd (false≢true ((eq_iff "V6" "V4").1 x.0))
    | inr x ↦ absurd (false≢true ((eq_iff "V6" "V4,V6").1 x.0))
  ],
)
accepts f a vip (inr (inr (inl e))) = rw e (
  (λ h. inr (refl, (accepts_dual a vip).0 h)),
  λ s. elim s [
    | inl x ↦ absurd (false≢true ((eq_iff "V4,V6" "V4").1 x.0))
    | inr x ↦ (accepts_dual a vip).1 x.1
  ],
)
accepts f a vip (inr (inr (inr e))) = rw e (
  (λ h. cc),
  λ s. elim s [
    | inl x ↦ absurd (false≢true ((eq_iff "V6,V4" "V4").1 x.0))
    | inr x ↦ absurd (false≢true ((eq_iff "V6,V4" "V4,V6").1 x.0))
  ],
)

accepts_pair :
    (r : String × Option Error) (a : String) (vip : Bool)
    → (r.1 ≡ none) × IsClusterFamily r.0 ⊎ (r.1 ≢ none) × (r.0 ≡ "INVALID")
    → (validate_families a vip r ≡ none) ↔ (r.1 ≡ none) × IsSupported r.0 a vip
accepts_pair (f, none) a vip (inl o) =
    let t = accepts f a vip o.1 in ((λ h. (refl, t.0 h)), λ s. t.1 s.1)
accepts_pair (f, none) a vip (inr o) = absurd (o.0 refl)
accepts_pair (f, some e) a vip o = ((λ h. cc), λ s. cc)

-- ValidateClusterIpFamily returns no error exactly when GetClusterIPFamily returns none and the
-- families are a supported combination.
pub validate_cluster_ip_family_iff :
    (c : Cluster) (adc : AkoDeploymentConfig) (vip : Bool)
    → (validate_cluster_ip_family c adc vip ≡ none)
      ↔ ((get_cluster_ip_family c).1 ≡ none)
        × IsSupported (get_cluster_ip_family c).0 (adc_ip_family adc) vip
unfolding validate_cluster_ip_family
validate_cluster_ip_family_iff c adc vip =
    accepts_pair (get_cluster_ip_family c) (adc_ip_family adc) vip
      (get_cluster_ip_family-outcomes c)

supported_primary :
    (r : String × Option Error) (a : String) (vip : Bool)
    → (r.1 ≡ none) × IsSupported r.0 a vip
    → primary_of r ≡ ("V4", none)
supported_primary (f, some e) a vip s = cc
supported_primary (f, none) a vip (n, inl x) = rw x.0
supported_primary (f, none) a vip (n, inr x) = rw x.0

-- AKO is deployed only into clusters whose primary family is V4: where ValidateClusterIpFamily
-- returns no error, GetPrimaryIPFamily returns V4 with no error.
pub validate_cluster_ip_family-primary :
    (c : Cluster) (adc : AkoDeploymentConfig) (vip : Bool)
    → validate_cluster_ip_family c adc vip ≡ none
    → get_primary_ip_family c ≡ ("V4", none)
unfolding get_primary_ip_family
validate_cluster_ip_family-primary c adc vip h =
    supported_primary (get_cluster_ip_family c) (adc_ip_family adc) vip
      ((validate_cluster_ip_family_iff c adc vip).0 h)
