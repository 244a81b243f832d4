-- ===== src/ClusterController/Labels.antt =====
-- What Reconcile leaves on the labels and the finalizers of a cluster.
use load_balancer_operator_f.Prelude.{
  String, Bool, true, false, not, ◌&&◌, Option, none, some, List, [], ◌∷◌, ◌==◌, lookup,
  lookup-delete, Bool-cases, ◌≡◌, refl, sym, ap, subst, ◌∙◌, inl, inr, ◌⊎◌, literal_ne,
}
use load_balancer_operator_f.Kube.{ObjectMeta, Error, Result, ok, err, Cluster}
use load_balancer_operator_f.Kube.Exec.{Outcome, returns, fails, panics, Exec, pure, throw}
use load_balancer_operator_f.Kube.Runs.{Runs, Any}
use load_balancer_operator_f.Kube.Interfaces.{Env, Finalizers, Selectors}
use load_balancer_operator_f.Api.{AkoDeploymentConfig}
use load_balancer_operator_f.Api.Constants.{avi_cluster_label, cluster_finalizer}
use load_balancer_operator_f.AkoOperator.{is_load_balancer_provider, set_control_plane_endpoint}
use load_balancer_operator_f.Mapping.{
  get_ako_deployment_config_for_cluster, apply_cluster_label, remove_cluster_label,
}
use load_balancer_operator_f.Mapping.Choose.{
  IsAnswer, get_ako_deployment_config_for_cluster-IsAnswer,
}
use load_balancer_operator_f.Mapping.Label.{cluster_label}
use load_balancer_operator_f.HaProvider.Handlers.{
  Service, Write, create_or_update_ha_service, held_cluster, service_of,
  update_cluster_control_plane_endpoint, host_of_ingress, endpoint_of_ingress, with_port_of,
}
use load_balancer_operator_f.HaProvider.Handlers
use load_balancer_operator_f.HaProvider.{is_valid_ip}
use load_balancer_operator_f.HaProvider.Service.{create_or_update_ha_service-Runs}
use load_balancer_operator_f.ClusterController.{
  Answers, settle, settled, when_provider, reconcile_labels, after_service, when_vip_provider,
  reconcile_cluster,
}

module _ (env : Env) (fin : Finalizers) (sel : Selectors) (ha : Handlers.Answers)
    (ans : Answers) where
  -- The label names the chosen AKODeploymentConfig, or the cluster has neither label nor finalizer.
  abbrev pub IsLabelled : Cluster → Option AkoDeploymentConfig → Cluster → Type 0
  IsLabelled before none after =
      (lookup avi_cluster_label after.labels ≡ none)
      × (fin.contains after.finalizers cluster_finalizer ≡ false)
  IsLabelled before (some adc) after =
      (lookup avi_cluster_label after.labels ≡ some adc.name)
      × (after.finalizers ≡ before.finalizers)

  abbrev pub IsSettled : Cluster → Cluster → Type 0
  IsSettled before after =
      (adcs : List AkoDeploymentConfig) × (ans.list_adcs ≡ ok adcs)
      × (o : Option AkoDeploymentConfig) × IsAnswer sel before.labels adcs o
      × IsLabelled before o after

  -- What a reconciliation leaves, by how it ends.
  abbrev pub IsReconciled : Cluster → Cluster → Outcome Unit → Type 0
  IsReconciled before after (returns u) =
      (is_load_balancer_provider after ≡ (false, none)) × (after.metadata ≡ before.metadata)
      ⊎ (is_load_balancer_provider after ≡ (true, none)) × IsSettled before after
  IsReconciled before after (fails e) = after.metadata ≡ before.metadata
  IsReconciled before after panics = ⊥

  settle-IsLabelled :
      (c : Cluster) (o : Option AkoDeploymentConfig)
      → IsLabelled c o (settle env fin sel ha ans c o)
  unfolding settle remove_cluster_label apply_cluster_label
  settle-IsLabelled c none =
      (lookup-delete avi_cluster_label avi_cluster_label c.labels, fin.contains-remove_self _ _)
  settle-IsLabelled c (some adc) = ((cluster_label c adc "" (literal_ne refl)).0, refl)

  settle-provider :
      (c : Cluster) (o : Option AkoDeploymentConfig)
      → is_load_balancer_provider (settle env fin sel ha ans c o) ≡ is_load_balancer_provider c
  unfolding settle remove_cluster_label apply_cluster_label is_load_balancer_provider
  settle-provider c none = refl
  settle-provider c (some adc) = refl

  settled-IsReconciled :
      (c : Cluster) (list : Result (List AkoDeploymentConfig))
      → is_load_balancer_provider c ≡ (true, none)
      → ans.list_adcs ≡ list
      → let r = settled env fin sel ha ans c (get_ako_deployment_config_for_cluster sel list c) in
        IsReconciled c r.0 r.1.1
  unfolding pure throw get_ako_deployment_config_for_cluster
  settled-IsReconciled c (err e) h l = refl
  settled-IsReconciled c (ok adcs) h l =
      let a = get_ako_deployment_config_for_cluster-IsAnswer sel adcs c in
      subst
        (λ (x : Result (Option AkoDeploymentConfig)).
          let r = settled env fin sel ha ans c x in IsReconciled c r.0 r.1.1)
        (sym a.1) (inr (settle-provider c a.0 ∙ h, (adcs, l, a.0, a.2, settle-IsLabelled c a.0)))

  when_provider-IsReconciled :
      (c : Cluster) (p : Bool × Option Error)
      → is_load_balancer_provider c ≡ p
      → let r = when_provider env fin sel ha ans c p in IsReconciled c r.0 r.1.1
  unfolding throw pure
  when_provider-IsReconciled c (b, some e) h = refl
  when_provider-IsReconciled c (false, none) h = inl (h, refl)
  when_provider-IsReconciled c (true, none) h = settled-IsReconciled c ans.list_adcs h refl

  reconcile_labels-IsReconciled :
      (c : Cluster) → let r = reconcile_labels env fin sel ha ans c in IsReconciled c r.0 r.1.1
  unfolding reconcile_labels
  reconcile_labels-IsReconciled c = when_provider-IsReconciled c _ refl

  -- The HA service leaves the labels and the finalizers.
  host_of_ingress-metadata :
      (c : Cluster) (endpoint ip : String)
      → (host_of_ingress env fin sel ha c endpoint ip).metadata ≡ c.metadata
  unfolding set_control_plane_endpoint
  host_of_ingress-metadata c endpoint ip =
      elim (Bool-cases (not (endpoint == "") && not (is_valid_ip endpoint))) [
        | inl t ↦ rw t refl
        | inr f ↦ rw f refl
      ]

  endpoint_of_ingress-metadata :
      (c : Cluster) (name : String) (ips : List String)
      → (endpoint_of_ingress env fin sel ha c name ips).0.metadata ≡ c.metadata
  endpoint_of_ingress-metadata c name [] = refl
  endpoint_of_ingress-metadata c name (ip ∷ ips) = elim (Bool-cases (is_valid_ip ip)) [
    | inl t ↦ rw t (host_of_ingress-metadata c _ ip)
    | inr f ↦ rw f refl
  ]

  held_cluster-metadata :
      (c : Cluster) (o : Outcome Service) → (held_cluster env fin sel ha c o).metadata ≡ c.metadata
  unfolding update_cluster_control_plane_endpoint
  held_cluster-metadata c (returns service) =
      endpoint_of_ingress-metadata c service.name service.ingress
  held_cluster-metadata c (fails e) = refl
  held_cluster-metadata c panics = refl

  service-metadata :
      (c : Cluster) → (create_or_update_ha_service env fin sel ha c).0.metadata ≡ c.metadata
  unfolding create_or_update_ha_service
  service-metadata c = held_cluster-metadata c _

  -- What is known of a cluster depends on the metadata that it had.
  IsReconciled-metadata :
      (b c after : Cluster) (o : Outcome Unit)
      → b.metadata ≡ c.metadata
      → IsReconciled b after o
      → IsReconciled c after o
  IsReconciled-metadata b c after (fails e) m h = h ∙ m
  IsReconciled-metadata b c after panics m h = h
  IsReconciled-metadata b c after (returns u) m (inl h) = inl (h.0, h.1 ∙ m)
  IsReconciled-metadata b c after (returns u) m (inr (p, (adcs, l, none, a, t))) =
      inr (p, (adcs, l, none, subst (λ (x : ObjectMeta). IsAnswer sel x.labels adcs none) m a, t))
  IsReconciled-metadata b c after (returns u) m (inr (p, (adcs, l, some adc, a, (t, f)))) = inr (
    p,
    (
      adcs,
      l,
      some adc,
      subst (λ (x : ObjectMeta). IsAnswer sel x.labels adcs (some adc)) m a,
      (t, f ∙ ap (λ (x : ObjectMeta). x.finalizers) m),
    ),
  )

  after_service-IsReconciled :
      {P : Write → Type 0} (c : Cluster) (r : Cluster × Exec Write Unit)
      → r.0.metadata ≡ c.metadata
      → Runs P Any r.1
      → let a = after_service env fin sel ha ans r in IsReconciled c a.0 a.1.1
  after_service-IsReconciled c (b, (ws, returns u)) m h =
      IsReconciled-metadata b c _ _ m (reconcile_labels-IsReconciled b)
  after_service-IsReconciled c (b, (ws, fails e)) m h = m
  after_service-IsReconciled c (b, (ws, panics)) m h = absurd h.ends

  when_vip_provider-IsReconciled :
      (c : Cluster) (p : Bool × Option Error)
      → let r = when_vip_provider env fin sel ha ans c p in IsReconciled c r.0 r.1.1
  unfolding throw
  when_vip_provider-IsReconciled c (b, some e) = refl
  when_vip_provider-IsReconciled c (false, none) = reconcile_labels-IsReconciled c
  when_vip_provider-IsReconciled c (true, none) =
      after_service-IsReconciled c _ (service-metadata c)
        (create_or_update_ha_service-Runs env fin sel ha c)

-- Between the patch helper and the patch, Reconcile of a cluster never panics, and on an error it leaves the
-- labels and the finalizers as they were. Where it returns without one, either the cluster uses kube-vip
-- for its services and its metadata is as it was, or the AKODeploymentConfigs are listed, and the label of
-- the cluster is the name of the one that GetAKODeploymentConfigForCluster finds for the labels that
-- the cluster had, with the finalizers as they were; where it finds none, the cluster has neither the
-- label nor the AVI finalizer.
pub reconcile_cluster-IsReconciled :
    (env : Env) (fin : Finalizers) (sel : Selectors) (ha : Handlers.Answers) (ans : Answers)
    (cluster : Cluster)
    → let r = reconcile_cluster env fin sel ha ans cluster in
      IsReconciled env fin sel ha ans cluster r.0 r.1.1
unfolding reconcile_cluster
reconcile_cluster-IsReconciled env fin sel ha ans cluster =
    when_vip_provider-IsReconciled env fin sel ha ans cluster _
