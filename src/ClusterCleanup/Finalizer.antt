-- ===== src/ClusterCleanup/Finalizer.antt =====
-- When the finalizer of a cluster goes: the phases that add and remove it, and the deletion of the
-- cluster.
use load_balancer_operator_f.Prelude.{
  String, Bool, true, false, not, ◌||◌, ◌&&◌, Option, none, some, Dict, index, ◌==◌, Bool-cases,
  ◌≡◌, refl, sym, ap, subst, ◌∙◌, ◌≢◌, List, inl, inr, ◌⊎◌,
}
use load_balancer_operator_f.Kube.{
  Result, ok, err, is_not_found, Condition, Cluster, CtrlResult, done,
}
use load_balancer_operator_f.AkoOperator.{is_cluster_class_based_cluster}
use load_balancer_operator_f.Kube.Exec.{
  Outcome, returns, fails, panics, Exec, pure, throw, read, unless_panic, ◌>>=◌,
}
use load_balancer_operator_f.Kube.Runs.{
  Runs, Any, run-bind, run-pure, run-throw, run-read-Any, run-attempt-Any,
}
use load_balancer_operator_f.Kube.Interfaces.{Finalizers, Conditions}
use load_balancer_operator_f.Api.Constants.{
  cluster_finalizer, tkg_system_namespace, avi_resource_cleanup_succeeded_condition,
  avi_user_cleanup_succeeded_condition,
}
use load_balancer_operator_f.ClusterCleanup.{
  secret_name, Answers, Write, requeue_deletion, store_values, ask_deletion, clean_with,
  clean_values, clean_resources, cleanup_finished, with_conditions, mark_after, cleanup_by, cleanup,
  release_by, released, reconcile_delete, add_finalizer_if, add_cluster_finalizer,
  remove_cluster_finalizer,
}

module _ (fin : Finalizers) (cond : Conditions) (ans : Answers) where
  -- The values do not parse, or they have the settings of AKO.
  abbrev pub HasSettings : Result (Option String) → Type 0
  HasSettings (ok (some delete_config)) = Unit {0}
  HasSettings (ok none) = ⊥
  HasSettings (err e) = Unit {0}

  -- The secrets that the server answers with have values with the settings of AKO.
  abbrev pub HasData : Result (Option (Dict String)) → Type 0
  HasData (ok (some entries)) = HasSettings (ans.delete_config (index "values.yaml" entries))
  HasData (ok none) = ⊥
  HasData (err e) = Unit {0}

  store_values-Runs :
      (obj : Cluster) (entries : Dict String) (r : Result String)
      → Runs (λ w. Unit {0}) Any (store_values fin cond ans obj (some entries) r)
  store_values-Runs obj entries (ok text) = run-attempt-Any _ _ _ tt
  store_values-Runs obj entries (err e) = run-throw _ _ _

  ask_deletion-Runs :
      (obj : Cluster) (entries : Dict String) (d : String)
      → Runs (λ w. Unit {0}) Any (ask_deletion fin cond ans obj (some entries) d)
  ask_deletion-Runs obj entries d = elim (Bool-cases (d == "true")) [
    | inl t ↦ rw t (run-pure _ _ _ tt)
    | inr f ↦ rw f (store_values-Runs obj entries _)
  ]

  clean_settings-Runs :
      (obj : Cluster) (entries : Dict String) (r : Result (Option String))
      → HasSettings r
      → Runs
          (λ w. Unit {0})
          Any
          (read r >>= λ settings. unless_panic settings >>= λ d.
            ask_deletion fin cond ans obj (some entries) d >>= λ u.
            read (cleanup_finished fin cond ans))
  unfolding ◌>>=◌ read unless_panic throw
  clean_settings-Runs obj entries (ok (some d)) h =
      run-bind _ Any _ _ _ (ask_deletion-Runs obj entries d) λ u v. run-read-Any _ _
  clean_settings-Runs obj entries (ok none) h = absurd h
  clean_settings-Runs obj entries (err e) h = run-throw _ _ _

  clean_values-Runs :
      (obj : Cluster) (r : Result (Option (Dict String)))
      → HasData r
      → Runs (λ w. Unit {0}) Any (clean_values fin cond ans obj r)
  unfolding clean_with
  clean_values-Runs obj (ok (some entries)) h =
      clean_settings-Runs obj entries (ans.delete_config (index "values.yaml" entries)) h
  clean_values-Runs obj (ok none) h = absurd h
  clean_values-Runs obj (err e) h = elim (Bool-cases (is_not_found e)) [
    | inl t ↦ rw t (run-pure _ _ _ tt)
    | inr f ↦ rw f (run-throw _ _ _)
  ]

  clean_resources-Runs :
      (obj : Cluster)
      → HasData (ans.get_secret (secret_name obj))
      → Runs (λ w. Unit {0}) Any (clean_resources fin cond ans obj)
  unfolding clean_resources
  clean_resources-Runs obj h =
      run-bind _ Any _ _ _ (run-read-Any _ _) λ u v. clean_values-Runs obj _ h

  secret_name-with_conditions :
      (obj : Cluster) (cs : List Condition)
      → secret_name (with_conditions fin cond ans obj cs) ≡ secret_name obj
  unfolding secret_name is_cluster_class_based_cluster
  secret_name-with_conditions obj cs = refl

  -- The finalizer of the cluster is as it was, and a result of true says that the condition of the
  -- resources is True.
  abbrev pub Cleaned : Cluster → Cluster → Outcome Bool → Type 0
  Cleaned before after (returns true) =
      (after.finalizers ≡ before.finalizers)
      × (cond.is_true after.conditions avi_resource_cleanup_succeeded_condition ≡ true)
  Cleaned before after (returns false) = after.finalizers ≡ before.finalizers
  Cleaned before after (fails e) = after.finalizers ≡ before.finalizers
  Cleaned before after panics = ⊥

  mark_after-Cleaned :
      (before obj : Cluster) (m : Exec Write Bool)
      → obj.finalizers ≡ before.finalizers
      → Runs (λ w. Unit {0}) Any m
      → Cleaned before (mark_after fin cond ans obj m.1) m.1
  mark_after-Cleaned before obj (ws, returns true) e r =
      (e, cond.is_true-mark_true obj.conditions _)
  mark_after-Cleaned before obj (ws, returns false) e r = e
  mark_after-Cleaned before obj (ws, fails x) e r = e
  mark_after-Cleaned before obj (ws, panics) e r = absurd r.ends

  cleanup_by-Cleaned :
      (has t : Bool) (obj : Cluster)
      → HasData (ans.get_secret (secret_name obj))
      → cond.is_true obj.conditions avi_resource_cleanup_succeeded_condition ≡ t
      → let r = cleanup_by fin cond ans has t obj in Cleaned obj r.0 r.1.1
  unfolding pure
  cleanup_by-Cleaned false t obj h e = mark_after-Cleaned obj _ _ refl (
      clean_resources-Runs _
        (subst (λ n. HasData (ans.get_secret n)) (sym (secret_name-with_conditions obj _)) h))
  cleanup_by-Cleaned true true obj h e = (refl, e)
  cleanup_by-Cleaned true false obj h e = mark_after-Cleaned obj _ _ refl (clean_resources-Runs _ h)

  -- What the deletion leaves.
  abbrev pub IsReleased : Cluster → Outcome CtrlResult → Type 0
  IsReleased after (returns r) =
      (fin.contains after.finalizers cluster_finalizer ≡ true) × (r ≡ requeue_deletion)
      ⊎ (fin.contains after.finalizers cluster_finalizer ≡ false)
        × (cond.is_true after.conditions avi_resource_cleanup_succeeded_condition ≡ true)
        × (cond.is_true after.conditions avi_user_cleanup_succeeded_condition ≡ true)
        × (r ≡ done)
  IsReleased after (fails e) = fin.contains after.finalizers cluster_finalizer ≡ true
  IsReleased after panics = ⊥

  module _ (before : Cluster) (held : fin.contains before.finalizers cluster_finalizer ≡ true) where
    kept :
        (c : Cluster)
        → c.finalizers ≡ before.finalizers
        → fin.contains c.finalizers cluster_finalizer ≡ true
    kept c e = ap (λ fs. fin.contains fs cluster_finalizer) e ∙ held

    release_by-IsReleased :
        (user : Bool) (c : Cluster)
        → c.finalizers ≡ before.finalizers
        → cond.is_true c.conditions avi_resource_cleanup_succeeded_condition ≡ true
        → cond.is_true c.conditions avi_user_cleanup_succeeded_condition ≡ user
        → let r = release_by fin cond ans user c in IsReleased r.0 r.1
    release_by-IsReleased true c e t u = inr (fin.contains-remove_self _ _, t, u, refl)
    release_by-IsReleased false c e t u = inl (kept c e, refl)

    released-IsReleased :
        (p : Cluster × Exec Write Bool)
        → Cleaned before p.0 p.1.1
        → let r = released fin cond ans p in IsReleased r.0 r.1.1
    released-IsReleased (c, (ws, returns true)) (e, t) = release_by-IsReleased _ c e t refl
    released-IsReleased (c, (ws, returns false)) e = inl (kept c e, refl)
    released-IsReleased (c, (ws, fails x)) e = kept c e
    released-IsReleased (c, (ws, panics)) h = h

add_finalizer_if-lem :
    (fin : Finalizers) (cond : Conditions) (ans : Answers) (cluster : Cluster) (other : String)
    → cluster_finalizer ≢ other
    → (held tkg : Bool) → fin.contains cluster.finalizers cluster_finalizer ≡ held
    → let added = add_finalizer_if fin cond ans (not held && not tkg) cluster in
      (fin.contains added.finalizers cluster_finalizer ≡ (held || not tkg))
      × (fin.contains added.finalizers other ≡ fin.contains cluster.finalizers other)
add_finalizer_if-lem fin cond ans cluster other ne true tkg e = (e, refl)
add_finalizer_if-lem fin cond ans cluster other ne false true e = (e, refl)
add_finalizer_if-lem fin cond ans cluster other ne false false e =
    (fin.contains-add_self _ _, fin.contains-add_ne _ _ _ ne)

-- For a cluster that has the AVI finalizer and, where the API server answers with the secret of the AKO
-- values, with data in it that do not parse or have the settings of AKO, ReconcileDelete never panics, and leaves the finalizer on every error. When it
-- returns, either the finalizer is there and the result asks for a requeue, or the finalizer is gone,
-- the conditions of the AVI resources and of the AVI user are both True, and the result asks for nothing.
pub reconcile_delete-IsReleased :
    (fin : Finalizers) (cond : Conditions) (ans : Answers) (cluster : Cluster)
    → HasData fin cond ans (ans.get_secret (secret_name cluster))
    → fin.contains cluster.finalizers cluster_finalizer ≡ true
    → let r = reconcile_delete fin cond ans cluster in IsReleased fin cond ans r.0 r.1.1
unfolding reconcile_delete cleanup
reconcile_delete-IsReleased fin cond ans cluster h held = rw held (
    released-IsReleased fin cond ans cluster held (cleanup fin cond ans cluster)
      (cleanup_by-Cleaned fin cond ans (cond.has cluster.conditions _) _ cluster h refl))

-- The phase of a living cluster leaves the AVI finalizer on a cluster that had it or is outside of the
-- namespace of TKG, the phase of a deleted AKODeploymentConfig leaves it on none, and neither changes which
-- other finalizers a cluster has.
pub add_cluster_finalizer-remove_cluster_finalizer :
    (fin : Finalizers) (cond : Conditions) (ans : Answers) (cluster : Cluster) (other : String)
    → cluster_finalizer ≢ other
    → let added = add_cluster_finalizer fin cond ans cluster in
      let removed = remove_cluster_finalizer fin cond ans cluster in
      (fin.contains added.finalizers cluster_finalizer ≡ (
        fin.contains cluster.finalizers cluster_finalizer
        || not (cluster.namespace == tkg_system_namespace)))
      × (fin.contains added.finalizers other ≡ fin.contains cluster.finalizers other)
      × (fin.contains removed.finalizers cluster_finalizer ≡ false)
      × (fin.contains removed.finalizers other ≡ fin.contains cluster.finalizers other)
unfolding remove_cluster_finalizer add_cluster_finalizer
add_cluster_finalizer-remove_cluster_finalizer fin cond ans cluster other ne =
    let added =
      add_finalizer_if-lem fin cond ans cluster other ne _
        (cluster.namespace == tkg_system_namespace) refl in
    (added.0, added.1, fin.contains-remove_self _ _, fin.contains-remove_ne _ _ _ ne)
