-- ===== src/Phases/Tests.antt =====
-- Two phases, of which the first fails, on a state that counts.
use load_balancer_operator_f.Prelude.{ℕ, suc, none, some, [], ◌∷◌, is_some, ◌≡◌, refl}
use load_balancer_operator_f.Kube.{message, ok, Cluster, done}
use load_balancer_operator_f.Api.{AkoDeploymentConfig}
use load_balancer_operator_f.Samples.{legacy, classy, adc_of, no_selector}
use load_balancer_operator_f.Samples.Libraries.{first_aggregates}
use load_balancer_operator_f.Phases.{
  Phase, Patches, phase_loop, reconcile_phases, reconcile_clusters_phases,
}
use load_balancer_operator_f.Phases.Runs.{visit_all, some_fails, reconcile_clusters_phases-all}

abbrev failing : Phase ℕ
failing n = (suc n, done, some (message "failed"))

abbrev counting : Phase ℕ
counting n = (suc n, done, none)

-- The second phase runs although the first one fails.
both_run : (reconcile_phases first_aggregates (failing ∷ counting ∷ []) 0).0 ≡ 2
unfolding reconcile_phases phase_loop
both_run = refl

abbrev obj : AkoDeploymentConfig
obj = adc_of "install-ako-for-all" no_selector

abbrev on_cluster : Phase (ℕ × Cluster)
on_cluster (n, c) = ((suc n, c), done, none)

-- Every patch fails.
abbrev patches : Patches first_aggregates ℕ
patches = record { new_helper = λ c. none; patch = λ n c. (n, some (message "conflict")) }

reconcile_clusters_phases-all_example :
    let r =
      reconcile_clusters_phases first_aggregates patches obj
        (on_cluster ∷ [])
        []
        (ok (legacy ∷ classy ∷ []))
        0 in
    (r.0 ≡ visit_all first_aggregates patches obj (on_cluster ∷ []) [] (legacy ∷ classy ∷ []) 0)
    × (is_some r.2
        ≡ some_fails first_aggregates patches obj (on_cluster ∷ []) [] (legacy ∷ classy ∷ []) 0)
reconcile_clusters_phases-all_example =
    reconcile_clusters_phases-all first_aggregates patches obj (on_cluster ∷ []) [] (λ c. refl)
      (legacy ∷ classy ∷ []) 0
