-- ===== src/AddonSecret/Runs.antt =====
-- What a reconciliation of the secret of the add-on writes, and when.
use load_balancer_operator_f.Prelude.{
  String, ◌⧺◌, Bool, true, false, not, ◌&&◌, Option, none, some, [], Dict, Bool-cases, false≢true,
  eq_iff, ◌==◌, ◌≡◌, refl, sym, ◌∙◌, inl, inr, ◌⊎◌,
}
use load_balancer_operator_f.Kube.{Error, Result, ok, err, is_not_found, Cluster}
use load_balancer_operator_f.Kube.Interfaces.{Env, Conditions}
use load_balancer_operator_f.Kube.Exec.{returns, fails, Exec, pure, throw}
use load_balancer_operator_f.Kube.Runs.{
  Runs, Any, run-pure, run-throw, run-bind, run-read, run-check, run-attempt-Any,
}
use load_balancer_operator_f.Api.{AkoDeploymentConfig}
use load_balancer_operator_f.Api.Constants.{
  cluster_ip_family_validation_succeeded_condition, tkg_system_namespace,
}
use load_balancer_operator_f.AkoOperator.{
  is_cluster_class_based_cluster, is_bootstrap_cluster, is_control_plane_vip_provider,
}
use load_balancer_operator_f.IpFamily.{validate_cluster_ip_family}
use load_balancer_operator_f.AkoValues.{Values, new_values, ytt_yaml}
use load_balancer_operator_f.AddonSecret.Bootstrap.{ClusterBootstrap}
use load_balancer_operator_f.AddonSecret.Package.{
  HasAkoPackage, with_ako_package-HasAkoPackage, get_ako_package_ref_name-ako,
}
use load_balancer_operator_f.AddonSecret.{
  AddonSecret, Answers, Write, addon_created, addon_updated, addon_deleted, bootstrap_patched,
  key_of, complete_values, addon_secret_of, ako_addon_secret_data_yaml, create_ako_addon_secret,
  patch_ako_package_ref_to_cluster_bootstrap, patch_if, update_and_patch, store_secret,
  write_secret, refused, when_valid, after_service, when_provider, with_user_secret,
  reconcile_addon_secret, service_key, service_ready, avi_user_secret_name, with_secret, yaml_of,
}

module _ (env : Env) (cond : Conditions) (ans : Answers) (cluster : Cluster)
    (obj : AkoDeploymentConfig) where
  -- The secret holds the printed values of the configuration and the cluster.
  abbrev pub HasValues : AddonSecret → Type 0
  HasValues s =
      (contents : Dict String) × (v : Values) × (text : String) × (new_values (some obj)
          (cluster.namespace ⧺ "-" ⧺ cluster.name)
        ≡ ok v)
      × (ytt_yaml cluster (ans.marshal (complete_values cluster contents v)) ≡ ok text)
      × (s ≡ addon_secret_of cluster text)

  -- A ClusterBootstrap is patched only for a classy cluster outside of the bootstrap cluster.
  abbrev pub IsPatchOf : ClusterBootstrap → Type 0
  IsPatchOf after =
      (is_cluster_class_based_cluster cluster ≡ true)
      × (is_bootstrap_cluster env ≡ false)
      × (before : ClusterBootstrap) × (ref_name : String) × (ans.get_bootstrap
            (key_of cluster cluster.name)
          ≡ ok before)
      × HasAkoPackage cluster ref_name before after

  abbrev pub IsAddonWrite : Write → Type 0
  IsAddonWrite (addon_created s) = HasValues s
  IsAddonWrite (addon_updated s) = HasValues s
  IsAddonWrite (addon_deleted s) = ⊥
  IsAddonWrite (bootstrap_patched cb) = IsPatchOf cb

  -- The service of the control plane is asked for only in the management cluster, where it is to be
  -- there.
  abbrev pub IsReady : Bool → Type 0
  IsReady is_vip =
      (is_vip ≡ false)
      ⊎ (¬ (cluster.namespace ≡ tkg_system_namespace))
      ⊎ (ans.get_service (service_key env cond ans cluster) ≡ ok tt)

  -- What comes before the check of the families is there: the user's secret, the variables of the cluster
  -- and the service.
  abbrev pub IsRead : Bool → Type 0
  IsRead is_vip =
      ((contents : Dict String) × (ans.get_user_secret
            (key_of cluster (avi_user_secret_name cluster))
          ≡ ok contents))
      × (is_control_plane_vip_provider env cluster ≡ (is_vip, none))
      × IsReady is_vip

  -- One of them is not, with an error.
  abbrev pub IsUnread : Error → Type 0
  IsUnread e =
      (ans.get_user_secret (key_of cluster (avi_user_secret_name cluster)) ≡ err e)
      ⊎ ((is_vip : Bool) × (is_control_plane_vip_provider env cluster ≡ (is_vip, some e)))
      ⊎ (is_control_plane_vip_provider env cluster ≡ (true, none))
        × (cluster.namespace ≡ tkg_system_namespace)
        × (ans.get_service (service_key env cond ans cluster) ≡ err e)

  -- Something could not be read, and it ends with that error and no write; or the families go together,
  -- and the cluster is as it was; or they do not, and it ends without an error and without a write, and
  -- the cluster says so.
  abbrev pub IsReconciled : Cluster × Exec Write Unit → Type 0
  IsReconciled (after, m) =
      Runs IsAddonWrite Any m
      × (((e : Error) × IsUnread e × (after ≡ cluster) × (m.0 ≡ []) × (m.1 ≡ fails e))
          ⊎ ((is_vip : Bool) × IsRead is_vip
              × (validate_cluster_ip_family cluster obj is_vip ≡ none)
              × (after ≡ cluster))
          ⊎ ((is_vip : Bool) × IsRead is_vip
              × (refusal : Error) × (validate_cluster_ip_family cluster obj is_vip ≡ some refusal)
              × (m.0 ≡ [])
              × (m.1 ≡ returns tt)
              × (cond.is_false after.conditions cluster_ip_family_validation_succeeded_condition
                  ≡ true)))

  patch-Runs :
      is_cluster_class_based_cluster cluster ≡ true
      → is_bootstrap_cluster env ≡ false
      → Runs IsAddonWrite Any (patch_ako_package_ref_to_cluster_bootstrap env cond ans cluster)
  unfolding patch_ako_package_ref_to_cluster_bootstrap
  patch-Runs c b = run-bind _ _ _ _ _ (run-read _ _) λ cb e.
      run-bind _ _ Any _ _ (run-check _ _) λ u v. run-bind _ _ _ _ _ (run-read _ _) λ name f.
        run-attempt-Any _ _ _ (
          c,
          b,
          cb,
          name,
          e,
          with_ako_package-HasAkoPackage cluster cb name
              (get_ako_package_ref_name-ako ans.get_tkr cb name f),
        )

  patch_if-Runs :
      (t b : Bool)
      → is_cluster_class_based_cluster cluster ≡ t
      → is_bootstrap_cluster env ≡ b
      → Runs IsAddonWrite Any (patch_if env cond ans (t && not b) cluster)
  patch_if-Runs true false c b = patch-Runs c b
  patch_if-Runs true true c b = run-pure _ _ _ tt
  patch_if-Runs false b' c b = run-pure _ _ _ tt

  store_secret-Runs :
      (s : AddonSecret) (r : Result AddonSecret)
      → HasValues s
      → Runs IsAddonWrite Any (store_secret env cond ans cluster s r)
  unfolding update_and_patch
  store_secret-Runs s (ok old) h =
      run-bind _ Any _ _ _ (run-attempt-Any _ _ _ h) λ u v. patch_if-Runs _ _ refl refl
  store_secret-Runs s (err e) h = elim (Bool-cases (is_not_found e)) [
    | inl t ↦ rw t (run-attempt-Any _ _ _ h)
    | inr f ↦ rw f (run-throw _ _ _)
  ]

  with_secret-HasValues :
      (contents : Dict String) (v : Result Values) (t : Result String) (s : AddonSecret)
      → new_values (some obj) (cluster.namespace ⧺ "-" ⧺ cluster.name) ≡ v
      → yaml_of env cond ans cluster contents v ≡ t
      → with_secret cluster t ≡ ok s
      → HasValues s
  with_secret-HasValues contents (err e) (ok text) s h k l = cc
  with_secret-HasValues contents v (err e) s h k l = cc
  with_secret-HasValues contents (ok v) (ok text) s h k l = (contents, v, text, h, k, cc)

  write_secret-Runs :
      (contents : Dict String)
      → Runs IsAddonWrite Any (write_secret env cond ans cluster obj contents)
  unfolding write_secret create_ako_addon_secret ako_addon_secret_data_yaml
  write_secret-Runs contents =
      run-bind _ _ _ _ _ (run-read _ _)
        λ s e. store_secret-Runs s _ (with_secret-HasValues contents _ _ s refl refl e)

  nothing : (e : Error) → IsUnread e → IsReconciled (cluster, throw e)
  unfolding throw
  nothing e u = (run-throw _ _ _, inl (e, u, refl, refl, refl))

  is_false-refused :
      cond.is_false
        (refused env cond ans cluster).conditions
        cluster_ip_family_validation_succeeded_condition
      ≡ true
  is_false-refused = cond.is_false-set cluster.conditions _ refl

  service_ready-IsReady :
      (is_vip : Bool) (u : Unit {0})
      → service_ready env cond ans cluster is_vip ≡ ok u
      → IsReady is_vip
  service_ready-IsReady false u h = inl refl
  service_ready-IsReady true u h = elim (Bool-cases (cluster.namespace == tkg_system_namespace)) [
    | inl t ↦ inr (inr (rw t at h))
    | inr f ↦
        inr (inl (λ e. false≢true (sym f ∙ (eq_iff cluster.namespace tkg_system_namespace).1 e)))
  ]

  service_ready-err :
      (is_vip : Bool) (e : Error)
      → is_control_plane_vip_provider env cluster ≡ (is_vip, none)
      → service_ready env cond ans cluster is_vip ≡ err e
      → (is_control_plane_vip_provider env cluster ≡ (true, none))
        × (cluster.namespace ≡ tkg_system_namespace)
        × (ans.get_service (service_key env cond ans cluster) ≡ err e)
  service_ready-err false e p h = cc
  service_ready-err true e p h = elim (Bool-cases (cluster.namespace == tkg_system_namespace)) [
    | inl t ↦ (p, (eq_iff cluster.namespace tkg_system_namespace).0 t, rw t at h)
    | inr f ↦ cc
  ]

  when_valid-IsReconciled :
      (contents : Dict String) (is_vip : Bool) (v : Option Error)
      → IsRead is_vip
      → validate_cluster_ip_family cluster obj is_vip ≡ v
      → IsReconciled (when_valid env cond ans cluster obj contents v)
  unfolding pure
  when_valid-IsReconciled contents is_vip none p h =
      (write_secret-Runs contents, inr (inl (is_vip, p, h, refl)))
  when_valid-IsReconciled contents is_vip (some e) p h =
      (run-pure _ _ _ tt, inr (inr (is_vip, p, e, h, refl, refl, is_false-refused)))

  after_service-IsReconciled :
      (contents : Dict String) (is_vip : Bool) (r : Result (Unit {0}))
      → ans.get_user_secret (key_of cluster (avi_user_secret_name cluster)) ≡ ok contents
      → is_control_plane_vip_provider env cluster ≡ (is_vip, none)
      → service_ready env cond ans cluster is_vip ≡ r
      → IsReconciled (after_service env cond ans cluster obj contents is_vip r)
  after_service-IsReconciled contents is_vip (err e) c p s =
      nothing e (inr (inr (service_ready-err is_vip e p s)))
  after_service-IsReconciled contents is_vip (ok u) c p s =
      when_valid-IsReconciled contents is_vip _ ((contents, c), p, service_ready-IsReady is_vip u s)
        refl

  when_provider-IsReconciled :
      (contents : Dict String) (p : Bool × Option Error)
      → ans.get_user_secret (key_of cluster (avi_user_secret_name cluster)) ≡ ok contents
      → is_control_plane_vip_provider env cluster ≡ p
      → IsReconciled (when_provider env cond ans cluster obj contents p)
  when_provider-IsReconciled contents (is_vip, some e) c h = nothing e (inr (inl (is_vip, h)))
  when_provider-IsReconciled contents (is_vip, none) c h =
      after_service-IsReconciled contents is_vip _ c h refl

  with_user_secret-IsReconciled :
      (r : Result (Dict String))
      → ans.get_user_secret (key_of cluster (avi_user_secret_name cluster)) ≡ r
      → IsReconciled (with_user_secret env cond ans cluster obj r)
  with_user_secret-IsReconciled (err e) h = nothing e (inl h)
  with_user_secret-IsReconciled (ok contents) h = when_provider-IsReconciled contents _ h refl

-- ReconcileAddonSecret never panics. The secrets that it writes hold the printed values of the configuration
-- and the cluster; it patches a ClusterBootstrap only for a classy cluster outside of the bootstrap
-- cluster, and then with the AKO package in it. Where the user's secret, the variables of the cluster or,
-- in the management cluster, the service of the control plane cannot be read, it writes nothing, returns
-- that error and leaves the cluster. Where they are read and the IP families of the cluster and the
-- configuration go together, it leaves the cluster; where the families do not go together, it writes
-- nothing, returns no error, and sets the condition ClusterIpFamilyValidationSucceeded of the cluster to
-- False.
pub reconcile_addon_secret-IsReconciled :
    (env : Env) (cond : Conditions) (ans : Answers) (cluster : Cluster) (obj : AkoDeploymentConfig)
    → IsReconciled env cond ans cluster obj (reconcile_addon_secret env cond ans cluster obj)
unfolding reconcile_addon_secret
reconcile_addon_secret-IsReconciled env cond ans cluster obj =
    with_user_secret-IsReconciled env cond ans cluster obj _ refl
