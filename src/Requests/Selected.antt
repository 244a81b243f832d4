-- ===== src/Requests/Selected.antt =====
-- The configuration that a change of a cluster asks for is one that manages the cluster.
use load_balancer_operator_f.Prelude.{
  String, Bool, true, false, Option, none, some, List, [], ◌∷◌, lookup, ◌==◌, if◌then◌else◌, In,
  All, ◌⊎◌, ◌≡◌, refl, sym, ap, ◌∙◌,
}
use load_balancer_operator_f.Kube.{ok, Cluster, NamespacedName}
use load_balancer_operator_f.Kube.Interfaces.{Env, Conditions, Selectors}
use load_balancer_operator_f.Api.{AkoDeploymentConfig}
use load_balancer_operator_f.Api.Constants.{avi_cluster_label, tkg_system_namespace}
use load_balancer_operator_f.Mapping.{skip_cluster, selects}
use load_balancer_operator_f.Mapping.Select.{IsEligible, selects-IsEligible}
use load_balancer_operator_f.Mapping.Choose.{
  Chooses, IsFallback, IsAnswer, get_ako_deployment_config_for_cluster-IsAnswer,
}
use load_balancer_operator_f.Requests.{requests_of_adc, ako_deployment_config_for_cluster}

-- A listed configuration of the name in the request, which takes the cluster into its list: its own selector matches the
-- labels of the cluster; or it is the default one with an empty selector, and no listed selector matches them.
abbrev pub IsManaged :
    Env → Conditions → Selectors → List AkoDeploymentConfig → Cluster → NamespacedName → Type 0
IsManaged env cond sel adcs cluster request =
    (adc : AkoDeploymentConfig) × In adc adcs
    × (adc.name ≡ request.name)
    × (Chooses sel cluster.labels adc
        ⊎ IsFallback sel cluster.labels adc
          × All (λ (other : AkoDeploymentConfig). ¬ Chooses sel cluster.labels other) adcs)
    × ((default_is_empty : Bool) → IsEligible env cond adc.name default_is_empty cluster)

abbrev first_name : List NamespacedName → String
first_name [] = ""
first_name (request ∷ requests) = request.name

unless_skipped :
    (b : Bool) (requests : List NamespacedName) (request : NamespacedName)
    → (if b then [] else requests) ≡ request ∷ []
    → (b ≡ false) × (requests ≡ request ∷ [])
unless_skipped true requests request e = cc
unless_skipped false requests request e = (refl, e)

module _ (env : Env) (cond : Conditions) (sel : Selectors) (adcs : List AkoDeploymentConfig)
    (cluster : Cluster) (request : NamespacedName) where
  selects-unlabelled :
      (name : String) (default_is_empty : Bool)
      → skip_cluster env cond cluster ≡ false
      → (cluster.namespace == tkg_system_namespace) ≡ false
      → lookup avi_cluster_label cluster.labels ≡ none
      → selects env cond name default_is_empty cluster ≡ true
  unfolding selects
  selects-unlabelled name default_is_empty s n l = rw s (rw n (rw l refl))

  of_answer :
      (o : Option AkoDeploymentConfig)
      → IsAnswer sel cluster.labels adcs o
      → requests_of_adc (ok o) ≡ request ∷ []
      → (adc : AkoDeploymentConfig) × In adc adcs
        × (adc.name ≡ request.name)
        × (Chooses sel cluster.labels adc
            ⊎ IsFallback sel cluster.labels adc
              × All (λ (other : AkoDeploymentConfig). ¬ Chooses sel cluster.labels other) adcs)
  of_answer none a e = cc
  of_answer (some adc) a e = (adc, a.0, ap first_name e, a.1)

  -- Where the event of a cluster that carries no AVI label, and is not in the system namespace, asks for a configuration,
  -- a listed AKODeploymentConfig has that name; its selector matches the labels of the cluster, or it is the default one
  -- with an empty selector and no listed selector matches them; and the cluster is eligible for its list of clusters,
  -- whatever the selector of the default one is.
  pub ako_deployment_config_for_cluster-IsManaged :
      (cluster.namespace == tkg_system_namespace) ≡ false
      → lookup avi_cluster_label cluster.labels ≡ none
      → ako_deployment_config_for_cluster env cond sel (ok adcs) cluster ≡ request ∷ []
      → IsManaged env cond sel adcs cluster request
  unfolding ako_deployment_config_for_cluster
  ako_deployment_config_for_cluster-IsManaged n l e =
      let answer = get_ako_deployment_config_for_cluster-IsAnswer sel adcs cluster in
      let asked = unless_skipped (skip_cluster env cond cluster) _ request e in
      let found = of_answer answer.0 answer.2 (ap requests_of_adc (sym answer.1) ∙ asked.1) in
      (
        found.0,
        found.1,
        found.2,
        found.3,
        λ d.
            selects-IsEligible env cond found.0.name d cluster
              (selects-unlabelled found.0.name d asked.0 n l),
      )
