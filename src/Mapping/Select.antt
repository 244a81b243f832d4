-- ===== src/Mapping/Select.antt =====
-- Which clusters ListAkoDeploymentConfigSelectClusters returns.
use load_balancer_operator_f.Prelude.{
  String, Bool, true, false, Option, none, some, List, ◌≡◌, refl, ◌⊎◌, inl, inr, ◌↔◌, arith, lookup,
  eq_iff, In, In-keep, keep,
}
use load_balancer_operator_f.Kube.{Result, ok, err, ◌>>=◌, Cluster, Selector}
use load_balancer_operator_f.Kube.Interfaces.{Env, Selectors, Conditions}
use load_balancer_operator_f.Api.{AkoDeploymentConfig}
use load_balancer_operator_f.Api.Constants.{avi_cluster_label}
use load_balancer_operator_f.Mapping.{
  skip_cluster, is_default_wc_adc, selects, may_take, default_adc_has_empty_selector,
  list_ako_deployment_config_select_clusters,
}

-- Who may manage a cluster: it is not to be skipped, a cluster of tkg-system goes to the management
-- AKODeploymentConfig alone, and another owner gives it up only if that is the default one with an
-- empty selector.
pub record IsEligible (env : Env) (cond : Conditions) (name : String) (default_is_empty : Bool)
    (c : Cluster) : Type 0 where
  pub live : skip_cluster env cond c ≡ false
  pub management : c.namespace ≡ "tkg-system" → name ≡ "install-ako-for-management-cluster"
  pub owner :
      (o : String)
      → lookup avi_cluster_label c.labels ≡ some o
      → (o ≡ name) ⊎ (o ≡ "install-ako-for-all") × (default_is_empty ≡ true)

may_take_iff :
    (name : String) (d : Bool) (o : Option String)
    → (may_take name d o ≡ true)
      ↔ ((w : String) → o ≡ some w → (w ≡ name) ⊎ (w ≡ "install-ako-for-all") × (d ≡ true))
unfolding is_default_wc_adc
may_take_iff name d none = ((λ h w e. cc), λ h. refl)
may_take_iff name d (some o) = (
  (λ h w e. ground (arith, eq_iff o name, eq_iff o "install-ako-for-all")),
  λ h. ground (arith, h o refl, eq_iff o name, eq_iff o "install-ako-for-all"),
)

module _ (env : Env) (cond : Conditions) (name : String) (d : Bool) (c : Cluster) where
  pub selects-IsEligible : selects env cond name d c ≡ true → IsEligible env cond name d c
  unfolding selects
  selects-IsEligible h = record {
    live = ground arith;
    management =
        ground (
          arith,
          eq_iff c.namespace "tkg-system",
          eq_iff name "install-ako-for-management-cluster",
        );
    owner = (may_take_iff name d (lookup avi_cluster_label c.labels)).0 (ground arith);
  }

  IsEligible-selects : IsEligible env cond name d c → selects env cond name d c ≡ true
  unfolding selects
  IsEligible-selects v = ground (
    arith,
    v.live,
    v.management,
    (may_take_iff name d (lookup avi_cluster_label c.labels)).1 v.owner,
    eq_iff c.namespace "tkg-system",
    eq_iff name "install-ako-for-management-cluster",
  )

-- The answer: the error of the selector or of the List; or a list of exactly the eligible clusters among those that the
-- API server listed.
abbrev pub IsSelection :
    Env
    → Conditions
    → Selectors
    → (Selector → Result (List Cluster))
    → Result AkoDeploymentConfig
    → AkoDeploymentConfig
    → Result (List Cluster)
    → Type 0
IsSelection env cond sel list get obj (err e) =
    (sel.as_selector obj.spec.cluster_selector ≡ err e)
    ⊎ (s : Selector) × (sel.as_selector obj.spec.cluster_selector ≡ ok s) × (list s ≡ err e)
IsSelection env cond sel list get obj (ok cs) =
    (s : Selector) × (fetched : List Cluster) × (sel.as_selector obj.spec.cluster_selector ≡ ok s)
    × (list s ≡ ok fetched)
    × ((c : Cluster)
        → In c cs
          ↔ In c fetched × IsEligible env cond obj.name (default_adc_has_empty_selector sel get) c)

module _ (env : Env) (cond : Conditions) (sel : Selectors) (list : Selector → Result (List Cluster))
    (get : Result AkoDeploymentConfig) (obj : AkoDeploymentConfig) where
  listed-IsSelection :
      (s : Selector) (r : Result (List Cluster))
      → sel.as_selector obj.spec.cluster_selector ≡ ok s
      → list s ≡ r
      → IsSelection env cond sel list get obj (
          r >>= λ clusters.
          ok (keep (selects env cond obj.name (default_adc_has_empty_selector sel get)) clusters))
  listed-IsSelection s (err x) e f = inr (s, e, f)
  listed-IsSelection s (ok fetched) e f =
      let d = default_adc_has_empty_selector sel get in
      let p = selects env cond obj.name d in
      (
        s,
        fetched,
        e,
        f,
        λ c. (
          (λ i.
              let r = (In-keep p c fetched).0 i in
              (r.0, selects-IsEligible env cond obj.name d c r.1)),
          (λ h. (In-keep p c fetched).1 (h.0, IsEligible-selects env cond obj.name d c h.1)),
        ),
      )

  selector-IsSelection :
      (r : Result Selector)
      → sel.as_selector obj.spec.cluster_selector ≡ r
      → IsSelection env cond sel list get obj (
          r >>= λ selector. list selector >>= λ clusters.
          ok (keep (selects env cond obj.name (default_adc_has_empty_selector sel get)) clusters))
  selector-IsSelection (err x) e = inl e
  selector-IsSelection (ok s) e = listed-IsSelection s (list s) e refl

  -- ListAkoDeploymentConfigSelectClusters returns an error only where the selector does not convert or the List of the API
  -- server fails, and it is that error; where it returns a list, a cluster is in it exactly when the API server listed it
  -- and it is eligible.
  pub list_select_clusters-IsSelection :
      IsSelection env cond sel list get obj
        (list_ako_deployment_config_select_clusters env cond sel list get obj)
  unfolding list_ako_deployment_config_select_clusters
  list_select_clusters-IsSelection =
      selector-IsSelection (sel.as_selector obj.spec.cluster_selector) refl
