-- ===== src/AkoUser/Reconcile/Cleanup.antt =====
-- The cleanup of the AVI user of a cluster that is being deleted: when it runs, and when the condition
-- says that it has succeeded.
use load_balancer_operator_f.Prelude.{
  String, true, false, Option, none, some, [], Dict, ◌==◌, if◌then◌else◌, Bool-cases, ◌≡◌, refl,
  sym, ap, subst, ◌∙◌, inl, inr, ◌⊎◌,
}
use load_balancer_operator_f.Kube.{Cluster}
use load_balancer_operator_f.Kube.Exec.{Outcome, returns, fails, panics, Exec, pure, throw}
use load_balancer_operator_f.Kube.Runs.{Runs, Any, run-bind, run-read, run-attempt-Any}
use load_balancer_operator_f.Kube.Interfaces.{Conditions}
use load_balancer_operator_f.Api.{AkoDeploymentConfig, SecretRef}
use load_balancer_operator_f.Api.Constants.{
  tkg_system_namespace, avi_resource_cleanup_succeeded_condition,
  avi_user_cleanup_succeeded_condition,
}
use load_balancer_operator_f.AkoUser.Role.{AtLeast}
use load_balancer_operator_f.AkoUser.Account.{Answers, Write}
use load_balancer_operator_f.AkoUser.Reconcile.{
  delete_credentials, marked_after, clean_credentials, reconcile_avi_user_delete_inner, announce,
  delete_announced, reconcile_avi_user_delete,
}

module _ (at_least : AtLeast) (order : Dict String) (cond : Conditions) (ans : Answers) where
  -- On success the condition is True; on an error the cluster is as it was when the cleanup started.
  abbrev pub IsCleaned : Cluster → Cluster → Outcome (Unit {0}) → Type 0
  IsCleaned before after (returns u) =
      cond.is_true after.conditions avi_user_cleanup_succeeded_condition ≡ true
  IsCleaned before after (fails e) = after ≡ before
  IsCleaned before after panics = ⊥

  -- The conditions under which the user and the secret are deleted.
  pub record MayDelete (cluster : Cluster) (obj : AkoDeploymentConfig) : Type 0 where
    pub deleting : cluster.deleting ≡ true
    pub resources_gone :
        cond.is_true
          (announce at_least order cond ans cluster).conditions
          avi_resource_cleanup_succeeded_condition
        ≡ true
    pub is_workload : cluster.namespace == tkg_system_namespace ≡ false
    pub is_managed : obj.spec.workload_credential_ref ≡ none

  delete_credentials-Runs :
      (cluster : Cluster)
      → Runs (λ w. Unit {0}) Any (delete_credentials at_least order cond ans cluster)
  unfolding delete_credentials
  delete_credentials-Runs cluster =
      run-bind _ _ _ _ _ (run-read _ _)
        λ secret e. run-bind _ Any _ _ _ (run-attempt-Any _ _ _ tt) λ u v. run-attempt-Any _ _ _ tt

  marked_after-IsCleaned :
      (c : Cluster) (m : Exec Write (Unit {0}))
      → Runs (λ w. Unit {0}) Any m
      → IsCleaned c (marked_after at_least order cond ans c m.1) m.1
  marked_after-IsCleaned c (ws, returns u) r = cond.is_true-mark_true c.conditions _
  marked_after-IsCleaned c (ws, fails e) r = refl
  marked_after-IsCleaned c (ws, panics) r = absurd r.ends

  clean_credentials-IsCleaned :
      (c : Cluster) (ref : Option SecretRef)
      → let r = clean_credentials at_least order cond ans c ref in
        IsCleaned c r.0 r.1.1 × ((r.1.0 ≡ []) ⊎ (ref ≡ none))
  unfolding pure
  clean_credentials-IsCleaned c (some ref) = (cond.is_true-mark_true c.conditions _, inl refl)
  clean_credentials-IsCleaned c none =
      (marked_after-IsCleaned c _ (delete_credentials-Runs c), inr refl)

  module _ (obj : AkoDeploymentConfig) where
    inner-IsCleaned :
        (c : Cluster)
        → let r = reconcile_avi_user_delete_inner at_least order cond ans c obj in
          IsCleaned c r.0 r.1.1
          × ((r.1.0 ≡ [])
              ⊎ (c.namespace == tkg_system_namespace ≡ false)
                × (obj.spec.workload_credential_ref ≡ none))
    unfolding reconcile_avi_user_delete_inner pure
    inner-IsCleaned c = elim (Bool-cases (c.namespace == tkg_system_namespace)) [
      | inl t ↦ rw t (cond.is_true-mark_true c.conditions _, inl refl)
      | inr f ↦ elim (Bool-cases (cond.is_true c.conditions avi_user_cleanup_succeeded_condition)) [
        | inl t ↦ rw (f, t) (t, inl refl)
        | inr g ↦
            let k = clean_credentials-IsCleaned c obj.spec.workload_credential_ref in
            rw (f, g) (k.0, elim k.1 [ inl e ↦ inl e | inr e ↦ inr (refl, e) ])
      ]
    ]

    announce-namespace :
        (c : Cluster) → (announce at_least order cond ans c).namespace ≡ c.namespace
    announce-namespace c =
        elim (Bool-cases (cond.has c.conditions avi_user_cleanup_succeeded_condition)) [
          | inl t ↦ rw t refl
          | inr f ↦ rw f refl
        ]

    announced-IsCleaned :
        (c : Cluster)
        → let r = delete_announced at_least order cond ans c obj in
          IsCleaned c r.0 r.1.1
          × ((r.1.0 ≡ [])
              ⊎ (cond.is_true c.conditions avi_resource_cleanup_succeeded_condition ≡ true)
                × (c.namespace == tkg_system_namespace ≡ false)
                × (obj.spec.workload_credential_ref ≡ none))
    unfolding throw
    announced-IsCleaned c =
        elim (Bool-cases (cond.is_true c.conditions avi_resource_cleanup_succeeded_condition)) [
          | inl t ↦
              let k = inner-IsCleaned c in
              rw t (k.0, elim k.1 [ inl e ↦ inl e | inr e ↦ inr (refl, e.0, e.1) ])
          | inr f ↦ rw f (refl, inl refl)
        ]

    delete-announced :
        (cluster : Cluster)
        → cluster.deleting ≡ true
        → reconcile_avi_user_delete at_least order cond ans cluster obj
          ≡ delete_announced at_least order cond ans (announce at_least order cond ans cluster) obj
    unfolding reconcile_avi_user_delete
    delete-announced cluster d =
        ap
          (λ b.
            if b
            then delete_announced at_least order cond ans (announce at_least order cond ans cluster)
                obj
            else (cluster, pure tt))
          d

    -- For a cluster that is being deleted, ReconcileAviUserDelete does not panic. On success the
    -- condition AviUserCleanupSucceeded is True; on an error the cluster has only gained the announced
    -- condition; and where it writes anything, the AVI resources are gone, the cluster is not in the
    -- system namespace, and the credentials are not the customer's.
    pub reconcile_avi_user_delete-IsCleaned :
        (cluster : Cluster)
        → cluster.deleting ≡ true
        → let r = reconcile_avi_user_delete at_least order cond ans cluster obj in
          IsCleaned (announce at_least order cond ans cluster) r.0 r.1.1
          × ((r.1.0 ≡ []) ⊎ MayDelete cluster obj)
    reconcile_avi_user_delete-IsCleaned cluster d =
        let c = announce at_least order cond ans cluster in
        let k = announced-IsCleaned c in
        subst
          (λ (r : Cluster × Exec Write (Unit {0})).
            IsCleaned c r.0 r.1.1 × ((r.1.0 ≡ []) ⊎ MayDelete cluster obj))
          (sym (delete-announced cluster d))
          (
            k.0,
            elim k.1 [
              | inl e ↦ inl e
              | inr e ↦ inr (record {
                deleting = d;
                resources_gone = e.0;
                is_workload =
                    ap (λ n. n == tkg_system_namespace) (sym (announce-namespace cluster)) ∙ e.1;
                is_managed = e.2;
              })
            ],
          )
