-- ===== src/ClusterCleanup/Tests.antt =====
-- A cluster whose AKO has finished, one whose AKO is at work, and a secret without data.
use load_balancer_operator_f.Prelude.{
  ◌==◌, some, none, [], ◌∷◌, ◌≡◌, refl, index, lookup, if◌then◌else◌, String, Option, Dict,
}
use load_balancer_operator_f.Kube.{ok, Cluster, status_true}
use load_balancer_operator_f.Kube.Exec.{returns, panics, pure, read, attempt, unless_panic, ◌>>=◌}
use load_balancer_operator_f.AkoOperator.{is_cluster_class_based_cluster}
use load_balancer_operator_f.Api.Constants.{cluster_finalizer, avi_user_cleanup_succeeded_condition}
use load_balancer_operator_f.Samples.{meta_of, legacy}
use load_balancer_operator_f.Samples.Libraries.{list_conditions, list_finalizers}
use load_balancer_operator_f.ClusterCleanup.{
  Answers, values_updated, requeue_deletion, secret_name, reconcile_delete, cleanup,
  cleanup_finished, clean_resources, clean_with,
}
use load_balancer_operator_f.ClusterCleanup.Finalizer.{
  HasData, IsReleased, reconcile_delete-IsReleased,
}

abbrev deleting : Cluster
deleting = record legacy {
  metadata = record (meta_of "default" "wc") { finalizers = cluster_finalizer ∷ "other" ∷ [] };
  conditions =
      record { kind = avi_user_cleanup_succeeded_condition; status = status_true; text = "" } ∷ [];
}

-- A text without settings of AKO gives none.
abbrev settings_in : String → Option String
settings_in text =
    if text == "deleting" then some "true" else if text == "serving" then some "false" else none

-- The server answers with the data and with the status of the StatefulSet of AKO.
abbrev server : Option (Dict String) → String → Answers
server data_of finished = record {
  remote_client = ok tt;
  get_secret = λ name. ok data_of;
  delete_config = λ text. ok (settings_in text);
  marshal_deleting = λ text. ok "deleting";
  update_secret = λ name text. ok tt;
  get_stateful_set = ok (("AviObjectDeletionStatus", finished) ∷ []);
}

abbrev working : Answers
working = server (some (("values.yaml", "serving") ∷ [])) "Started"

abbrev finished : Answers
finished = server (some (("values.yaml", "deleting") ∷ [])) "Done"

working_test : (reconcile_delete list_finalizers list_conditions working deleting).1 ≡ (
  values_updated "load-balancer-and-ingress-service-data-values"
        "#@data/values\n#@overlay/match-child-defaults missing_ok=True\n---\ndeleting"
      ∷ [],
  returns requeue_deletion,
)
unfolding reconcile_delete cleanup clean_resources clean_with cleanup_finished secret_name ◌>>=◌
    read unless_panic index lookup is_cluster_class_based_cluster attempt
working_test = refl

finished_test :
    (reconcile_delete list_finalizers list_conditions finished deleting).0.finalizers ≡ "other" ∷ []
unfolding reconcile_delete cleanup clean_resources clean_with cleanup_finished secret_name ◌>>=◌
    read index lookup pure unless_panic is_cluster_class_based_cluster
finished_test = refl

-- The data have no settings of AKO, so the pointer to them is nil and its read panics.
nil_settings_test :
    (reconcile_delete list_finalizers list_conditions (server (some []) "Started") deleting).1.1
    ≡ panics
unfolding reconcile_delete cleanup clean_resources clean_with cleanup_finished secret_name ◌>>=◌
    read index lookup pure unless_panic is_cluster_class_based_cluster
nil_settings_test = refl

-- The map of the data is nil: so are the settings.
nil_data_test :
    (reconcile_delete list_finalizers list_conditions (server none "Started") deleting).1.1 ≡ panics
unfolding reconcile_delete cleanup clean_resources clean_with cleanup_finished secret_name ◌>>=◌
    read index lookup pure unless_panic is_cluster_class_based_cluster
nil_data_test = refl

has_data :
    HasData list_finalizers list_conditions finished (finished.get_secret (secret_name deleting))
unfolding index lookup
has_data = tt

reconcile_delete-IsReleased_example :
    let r = reconcile_delete list_finalizers list_conditions finished deleting in
    IsReleased list_finalizers list_conditions finished r.0 r.1.1
reconcile_delete-IsReleased_example =
    reconcile_delete-IsReleased list_finalizers list_conditions finished deleting has_data refl
