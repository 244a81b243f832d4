-- ===== src/Mapping/Choose.antt =====
-- Which AKODeploymentConfig GetAKODeploymentConfigForCluster returns.
use load_balancer_operator_f.Prelude.{
  String, true, false, Option, none, some, List, [], ◌∷◌, ◌≡◌, refl, ◌⊎◌, inl, inr, sym, ◌∙◌, Dict,
  eq_iff, In, All, subst, Bool-cases, false≢true, ◌==◌,
}
use mathlib.Core.Option.{some-injective}
use load_balancer_operator_f.Kube.{Result, ok, err, Cluster, Selector}
use load_balancer_operator_f.Kube.Interfaces.{Selectors}
use load_balancer_operator_f.Api.{AkoDeploymentConfig}
use load_balancer_operator_f.Mapping.{
  is_default_wc_adc, Verdict, pass, keep_default, choose, verdict, verdict_of, held_after, chosen,
  choose_adc, get_ako_deployment_config_for_cluster,
}

-- The selector converts, is not empty and matches the labels.
abbrev pub Matches : Dict String → Result Selector → Type 0
Matches labels (err e) = ⊥
Matches labels (ok s) = (s.empty ≡ false) × (s.matches labels ≡ true)

-- The selector converts and is empty.
abbrev pub IsBlank : Result Selector → Type 0
IsBlank (err e) = ⊥
IsBlank (ok s) = s.empty ≡ true

-- What the verdict on one AKODeploymentConfig means.
abbrev Means : String → Dict String → Result Selector → Verdict → Type 0
Means name labels r choose = Matches labels r
Means name labels r keep_default = IsBlank r × (name ≡ "install-ako-for-all") × (¬ Matches labels r)
Means name labels r pass = (¬ (IsBlank r × (name ≡ "install-ako-for-all"))) × (¬ Matches labels r)

verdict_of-Means :
    (name : String) (labels : Dict String) (r : Result Selector)
    → Means name labels r (verdict_of name labels r)
unfolding is_default_wc_adc
verdict_of-Means name labels (err x) = ((λ h. h.0), λ h. h)
verdict_of-Means name labels (ok s) = elim (Bool-cases s.empty) [
  | inl t ↦ rw t (elim (Bool-cases (name == "install-ako-for-all")) [
    | inl d ↦ rw d (refl, (eq_iff name "install-ako-for-all").0 d, λ h. false≢true (sym h.0))
    | inr d ↦ rw d (
      (λ h. false≢true (sym d ∙ (eq_iff name "install-ako-for-all").1 h.1)),
      λ h. false≢true (sym h.0),
    )
  ])
  | inr f ↦ rw f (elim (Bool-cases (s.matches labels)) [
    | inl m ↦ rw m (refl, m)
    | inr m ↦ rw m ((λ h. false≢true h.0), λ h. false≢true (sym m ∙ h.1))
  ])
]

module _ (sel : Selectors) (labels : Dict String) where
  abbrev pub Chooses : AkoDeploymentConfig → Type 0
  Chooses adc = Matches labels (sel.as_selector adc.spec.cluster_selector)

  -- The default AKODeploymentConfig, with an empty selector.
  abbrev pub IsFallback : AkoDeploymentConfig → Type 0
  IsFallback adc =
      IsBlank (sel.as_selector adc.spec.cluster_selector) × (adc.name ≡ "install-ako-for-all")

  -- What the loop has found, given the default that it holds already.
  abbrev Found :
      Option AkoDeploymentConfig → List AkoDeploymentConfig → Option AkoDeploymentConfig → Type 0
  Found held adcs none = (held ≡ none) × All (λ a. (¬ Chooses a) × (¬ IsFallback a)) adcs
  Found held adcs (some adc) =
      In adc adcs × Chooses adc
      ⊎ ((held ≡ some adc) ⊎ In adc adcs × IsFallback adc) × All (λ a. ¬ Chooses a) adcs

  Found-step :
      (v : Verdict) (adc : AkoDeploymentConfig) (held : Option AkoDeploymentConfig)
      (adcs : List AkoDeploymentConfig) (rest : Option AkoDeploymentConfig)
      → Means adc.name labels (sel.as_selector adc.spec.cluster_selector) v
      → Found (held_after v adc held) adcs rest
      → Found held (adc ∷ adcs) (chosen v adc rest)
  Found-step choose adc held adcs rest m f = inl (inl refl, m)
  Found-step keep_default adc held adcs none m f = cc (f.0)
  Found-step keep_default adc held adcs (some a) m (inl f) = inl (inr f.0, f.1)
  Found-step keep_default adc held adcs (some a) m (inr f) = inr (
    elim f.0 [
      | inl e ↦ let p = some-injective adc a e in inr (inl (sym p), subst IsFallback p (m.0, m.1))
      | inr g ↦ inr (inr g.0, g.1)
    ],
    (m.2, f.1),
  )
  Found-step pass adc held adcs none m f = (f.0, ((m.1, m.0), f.1))
  Found-step pass adc held adcs (some a) m (inl f) = inl (inr f.0, f.1)
  Found-step pass adc held adcs (some a) m (inr f) =
      inr (elim f.0 [ inl e ↦ inl e | inr g ↦ inr (inr g.0, g.1) ], (m.1, f.1))

  choose_adc-Found :
      (held : Option AkoDeploymentConfig) (adcs : List AkoDeploymentConfig)
      → Found held adcs (choose_adc sel labels held adcs)
  unfolding choose_adc verdict
  choose_adc-Found none [] = (refl, tt)
  choose_adc-Found (some a) [] = inr (inl refl, tt)
  choose_adc-Found held (adc ∷ adcs) =
      let v = verdict sel labels adc in
      Found-step v adc held adcs _
        (verdict_of-Means adc.name labels (sel.as_selector adc.spec.cluster_selector))
        (choose_adc-Found (held_after v adc held) adcs)

-- What GetAKODeploymentConfigForCluster has found in a list.
abbrev pub IsAnswer :
    Selectors → Dict String → List AkoDeploymentConfig → Option AkoDeploymentConfig → Type 0
IsAnswer sel labels adcs none =
    All (λ a. (¬ Chooses sel labels a) × (¬ IsFallback sel labels a)) adcs
IsAnswer sel labels adcs (some adc) =
    In adc adcs
    × (Chooses sel labels adc ⊎ IsFallback sel labels adc × All (λ a. ¬ Chooses sel labels a) adcs)

Found-IsAnswer :
    (sel : Selectors) (labels : Dict String) (adcs : List AkoDeploymentConfig)
    (o : Option AkoDeploymentConfig)
    → Found sel labels none adcs o
    → IsAnswer sel labels adcs o
Found-IsAnswer sel labels adcs none f = f.1
Found-IsAnswer sel labels adcs (some a) (inl f) = (f.0, inl f.1)
Found-IsAnswer sel labels adcs (some a) (inr f) = elim f.0 [
  | inl e ↦ cc
  | inr g ↦ (g.0, inr (g.1, f.1))
]

-- Where the List succeeds, GetAKODeploymentConfigForCluster returns no error. It returns an
-- AKODeploymentConfig of the list whose non-empty selector matches the labels of the cluster; where
-- there is none, the default one with an empty selector; and nothing only where neither is listed.
pub get_ako_deployment_config_for_cluster-IsAnswer :
    (sel : Selectors) (adcs : List AkoDeploymentConfig) (cluster : Cluster)
    → (o : Option AkoDeploymentConfig) × (get_ako_deployment_config_for_cluster sel
          (ok adcs)
          cluster
        ≡ ok o)
      × IsAnswer sel cluster.labels adcs o
unfolding get_ako_deployment_config_for_cluster
get_ako_deployment_config_for_cluster-IsAnswer sel adcs cluster =
    let o = choose_adc sel cluster.labels none adcs in
    (
      o,
      refl,
      Found-IsAnswer sel cluster.labels adcs o (choose_adc-Found sel cluster.labels none adcs),
    )
