-- ===== src/Mapping/Tests.antt =====
-- Two AKODeploymentConfigs that compete for a cluster, and the theorems at them.
use load_balancer_operator_f.Prelude.{Option, some, [], ◌∷◌, ◌≡◌, refl, lookup}
use load_balancer_operator_f.Kube.{ok, err, status, not_found, Cluster}
use load_balancer_operator_f.Api.{AkoDeploymentConfig}
use load_balancer_operator_f.Mapping.{
  list_ako_deployment_config_select_clusters, get_ako_deployment_config_for_cluster, choose_adc,
  verdict, is_default_wc_adc,
}
use load_balancer_operator_f.Mapping.Select.{IsSelection, list_select_clusters-IsSelection}
use load_balancer_operator_f.Mapping.Choose.{
  IsAnswer, get_ako_deployment_config_for_cluster-IsAnswer,
}
use load_balancer_operator_f.Samples.{
  no_env, legacy, meta_of, adc_of, no_selector, team_selector, label_selectors,
}
use load_balancer_operator_f.Samples.Libraries.{list_conditions}

abbrev team : AkoDeploymentConfig
team = adc_of "team-a" team_selector

abbrev everyone : AkoDeploymentConfig
everyone = adc_of "install-ako-for-all" no_selector

abbrev of_team : Cluster
of_team = record legacy {
  metadata = record (meta_of "default" "wc") { labels = ("team", "a") ∷ [] };
}

-- The matching AKODeploymentConfig wins over the default one, in any order.
team_wins :
    get_ako_deployment_config_for_cluster label_selectors (ok (everyone ∷ team ∷ [])) of_team
    ≡ ok (some team)
unfolding get_ako_deployment_config_for_cluster choose_adc verdict is_default_wc_adc lookup
team_wins = refl

list_select_clusters-IsSelection_example :
    IsSelection no_env list_conditions label_selectors
      (λ s. ok (of_team ∷ []))
      (err (status not_found))
      team
      (list_ako_deployment_config_select_clusters no_env list_conditions label_selectors
        (λ s. ok (of_team ∷ []))
        (err (status not_found))
        team)
list_select_clusters-IsSelection_example =
    list_select_clusters-IsSelection no_env list_conditions label_selectors (λ s. ok (of_team ∷ []))
      (err (status not_found)) team

get_ako_deployment_config_for_cluster-IsAnswer_example :
    (o : Option AkoDeploymentConfig) × (get_ako_deployment_config_for_cluster label_selectors
        (ok (everyone ∷ team ∷ []))
        of_team
      ≡ ok o)
    × IsAnswer label_selectors of_team.labels (everyone ∷ team ∷ []) o
get_ako_deployment_config_for_cluster-IsAnswer_example =
    get_ako_deployment_config_for_cluster-IsAnswer label_selectors (everyone ∷ team ∷ []) of_team
