-- ===== src/AddonSecret/Deletion.antt =====
-- When the values ask AKO to delete its objects.
use load_balancer_operator_f.Prelude.{
  String, Bool, true, false, not, ◌&&◌, Option, none, some, Dict, lookup, ◌==◌, if◌then◌else◌,
  Bool-cases, ◌≡◌, ◌≢◌, ◌↔◌, refl, sym, ◌∙◌, arith, eq_iff, inl, inr, literal_ne,
}
use load_balancer_operator_f.Kube.{ok, Cluster}
use load_balancer_operator_f.Api.{AkoDeploymentConfig}
use load_balancer_operator_f.Api.Constants.{tkg_system_namespace, avi_cluster_delete_config_label}
use load_balancer_operator_f.AkoValues.Overrides.{new_values-delete_config}
use load_balancer_operator_f.AkoValues.{Values, new_values}
use load_balancer_operator_f.AddonSecret.{complete_values, asks_deletion, is_true_label}

asks_deletion_iff :
    (ns : String) (label : Option String)
    → (not (ns == tkg_system_namespace) && is_true_label label ≡ true)
      ↔ (ns ≢ tkg_system_namespace) × (label ≡ some "true")
asks_deletion_iff ns none = (λ h. ground (arith), λ h. cc)
asks_deletion_iff ns (some l) = (
  λ h. ground (arith, eq_iff ns tkg_system_namespace, eq_iff l "true"),
  λ h. ground (arith, eq_iff ns tkg_system_namespace, eq_iff l "true"),
)

deletes_iff :
    (b : Bool) (old : String) → old ≡ "false" → ((if b then "true" else old) ≡ "true") ↔ (b ≡ true)
deletes_iff true old h = (λ k. refl, λ k. refl)
deletes_iff false old h =
    (λ k. absurd (literal_ne {s = "false"} {t = "true"} refl (sym h ∙ k)), λ k. cc)

role_iff :
    (ns : String)
    → (◌≡◌ {A = String}
        (if ns == tkg_system_namespace then "management" else "workload")
        "management")
      ↔ (ns ≡ tkg_system_namespace)
role_iff ns = elim (Bool-cases (ns == tkg_system_namespace)) [
  | inl t ↦ rw t (λ h. (eq_iff ns tkg_system_namespace).0 t, λ h. refl)
  | inr f ↦ rw f (
    λ h. absurd (literal_ne {s = "workload"} {t = "management"} refl h),
    λ h. ground (arith, eq_iff ns tkg_system_namespace),
  )
]

-- The values that AkoAddonSecretDataYaml prints ask AKO to delete its objects exactly for a cluster that is
-- outside of the system namespace and has the label for it with the text true; and they say that the cluster is the
-- management cluster exactly in the system namespace.
pub complete_values-deletion :
    (obj : AkoDeploymentConfig) (name : String) (v : Values) (cluster : Cluster)
    (contents : Dict String)
    → new_values (some obj) name ≡ ok v
    → let w = complete_values cluster contents v in
      ((w.config.ako_settings.delete_config ≡ "true")
        ↔ (cluster.namespace ≢ tkg_system_namespace)
          × (lookup avi_cluster_delete_config_label cluster.labels ≡ some "true"))
      × ((w.config.tkg_cluster_role ≡ "management") ↔ (cluster.namespace ≡ tkg_system_namespace))
unfolding complete_values
complete_values-deletion obj name v cluster contents h =
    let d = deletes_iff (asks_deletion cluster) _ (new_values-delete_config obj name v h) in
    let a =
      asks_deletion_iff cluster.namespace (lookup avi_cluster_delete_config_label cluster.labels) in
    ((λ k. a.0 (d.0 k), λ k. d.1 (a.1 k)), role_iff cluster.namespace)
