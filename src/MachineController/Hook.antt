-- ===== src/MachineController/Hook.antt =====
-- When the pre-terminate hook is kept, set and removed, and that nothing else of the machine changes.
use load_balancer_operator_f.Prelude.{
  String, Bool, true, false, Option, none, some, lookup, insert, has, lookup-insert, lookup-delete,
  ◌==◌, if◌then◌else◌, ◌≡◌, ◌≢◌, refl, ap, ◌∙◌, inl, inr, Bool-cases, arith, eq_iff,
}
use load_balancer_operator_f.Kube.{Error, Result, ok, err, Machine, Cluster}
use load_balancer_operator_f.Kube.Exec.{Outcome, returns, fails, panics}
use load_balancer_operator_f.Kube.Interfaces.{Env, Finalizers}
use load_balancer_operator_f.Api.Constants.{
  avi_cluster_label, cluster_finalizer, pre_terminate_annotation, tkg_system_namespace,
}
use load_balancer_operator_f.AkoOperator.{is_control_plane_vip_provider, is_load_balancer_provider}
use load_balancer_operator_f.MachineController.{
  update_endpoints, hook_prefix, Answers, with_annotations, without_hook,
  reconcile_machine_deletion_hook, reconcile_normal, hook_by, reconcile_hook, when_provider,
  after_endpoints, when_vip_provider, in_cluster, with_cluster_name, reconcile_machine,
  cluster_name_label,
}

-- The hook of a machine, if it has one.
abbrev pub hook : Machine → Option String
hook obj = lookup pre_terminate_annotation obj.annotations

-- The machine is the same but for the annotation of the hook.
pub record SameButHook (before after : Machine) : Type 0 where
  pub rest : after ≡ with_annotations before after.annotations
  pub others :
      (k : String)
      → pre_terminate_annotation ≢ k
      → lookup k after.annotations ≡ lookup k before.annotations

same : (obj : Machine) → SameButHook obj obj
same obj = record { rest = refl; others = λ k n. refl }

-- Each outcome of an edit: nothing, the removal of the hook, or the setting of it.
data Edit (before : Machine) : Machine → Type 0 where
  kept : Edit before before
  removed : Edit before (without_hook before)
  set_hook :
      Edit before (
        with_annotations before (insert pre_terminate_annotation "ako-operator" before.annotations))

Edit-SameButHook : {before after : Machine} → Edit before after → SameButHook before after
Edit-SameButHook kept = same _
Edit-SameButHook {before} removed = record {
  rest = refl;
  others = λ k n. ground (
    arith,
    lookup-delete pre_terminate_annotation k before.annotations,
    eq_iff pre_terminate_annotation k,
  );
}
Edit-SameButHook {before} set_hook = record {
  rest = refl;
  others = λ k n. ground (
    arith,
    lookup-insert pre_terminate_annotation k "ako-operator" before.annotations,
    eq_iff pre_terminate_annotation k,
  );
}

hook-without_hook : (obj : Machine) → hook (without_hook obj) ≡ none
hook-without_hook obj =
    lookup-delete pre_terminate_annotation pre_terminate_annotation obj.annotations

module _ (env : Env) (fin : Finalizers) (ans : Answers) where
  deletion-Edit :
      (obj : Machine) (cluster : Cluster)
      → Edit obj (reconcile_machine_deletion_hook env fin ans obj cluster)
  unfolding reconcile_machine_deletion_hook
  deletion-Edit obj cluster =
      elim (Bool-cases (fin.contains cluster.finalizers cluster_finalizer)) [
        | inl t ↦ rw t kept
        | inr f ↦ elim (Bool-cases (ans.has_with_prefix hook_prefix obj.annotations)) [
          | inl t ↦ rw (f, t) removed
          | inr g ↦ rw (f, g) kept
        ]
      ]

  normal-Edit :
      (obj : Machine) (cluster : Cluster) → Edit obj (reconcile_normal env fin ans obj cluster)
  unfolding reconcile_normal
  normal-Edit obj cluster = elim (Bool-cases (has hook_prefix obj.annotations)) [
    | inl t ↦ rw t kept
    | inr f ↦ elim (Bool-cases (cluster.namespace == tkg_system_namespace)) [
      | inl t ↦ rw (f, t) kept
      | inr g ↦ rw (f, g) set_hook
    ]
  ]

  hook_by-Edit :
      (l o c : Bool) (obj : Machine) (cluster : Cluster)
      → Edit obj (hook_by env fin ans l o c obj cluster)
  hook_by-Edit false o c obj cluster = removed
  hook_by-Edit true true false obj cluster = removed
  hook_by-Edit true true true obj cluster = deletion-Edit obj cluster
  hook_by-Edit true false true obj cluster = deletion-Edit obj cluster
  hook_by-Edit true false false obj cluster = normal-Edit obj cluster

  hook-Edit :
      (obj : Machine) (cluster : Cluster) → Edit obj (reconcile_hook env fin ans obj cluster)
  unfolding reconcile_hook
  hook-Edit obj cluster =
      hook_by-Edit (has avi_cluster_label cluster.labels) obj.deleting cluster.deleting obj cluster

  provider-Edit :
      (obj : Machine) (cluster : Cluster) (b : Bool × Option Error)
      → Edit obj (when_provider env fin ans obj cluster b).0
  provider-Edit obj cluster (b, some e) = kept
  provider-Edit obj cluster (false, none) = kept
  provider-Edit obj cluster (true, none) = hook-Edit obj cluster

  endpoints-Edit :
      (obj : Machine) (cluster : Cluster) (o : Outcome Unit)
      → Edit obj (after_endpoints env fin ans obj cluster o).0
  endpoints-Edit obj cluster (fails e) = kept
  endpoints-Edit obj cluster panics = kept
  endpoints-Edit obj cluster (returns u) =
      provider-Edit obj cluster (is_load_balancer_provider cluster)

  vip-Edit :
      (obj : Machine) (cluster : Cluster) (b : Bool × Option Error)
      → Edit obj (when_vip_provider env fin ans obj cluster b).0
  vip-Edit obj cluster (b, some e) = kept
  vip-Edit obj cluster (b, none) =
      endpoints-Edit obj cluster (if b then update_endpoints env fin ans obj else returns tt)

  cluster-Edit : (obj : Machine) (r : Result Cluster) → Edit obj (in_cluster env fin ans obj r).0
  cluster-Edit obj (err e) = kept
  cluster-Edit obj (ok cluster) = vip-Edit obj cluster (is_control_plane_vip_provider env cluster)

  name-Edit : (obj : Machine) (o : Option String) → Edit obj (with_cluster_name env fin ans obj o).0
  name-Edit obj none = kept
  name-Edit obj (some name) = cluster-Edit obj (ans.get_cluster _)

  -- On every path, errors and panics included, a reconciliation changes nothing of the machine but the annotation
  -- of the pre-terminate hook.
  pub reconcile_machine-SameButHook :
      (obj : Machine) → SameButHook obj (reconcile_machine env fin ans obj).0
  unfolding reconcile_machine
  reconcile_machine-SameButHook obj =
      Edit-SameButHook (name-Edit obj (lookup cluster_name_label obj.labels))

  -- The machine belongs to a cluster that has the AVI label and a load balancer by the operator, and
  -- its endpoint could be updated, where that is due.
  pub record InAviCluster (obj : Machine) (cluster : Cluster) : Type 0 where
    pub name : String
    pub is_vip : Bool
    pub named : lookup cluster_name_label obj.labels ≡ some name
    pub found : ans.get_cluster (record { namespace = obj.namespace; name = name }) ≡ ok cluster
    pub vip : is_control_plane_vip_provider env cluster ≡ (is_vip, none)
    pub endpoints : (if is_vip then update_endpoints env fin ans obj else returns tt) ≡ returns tt
    pub provided : is_load_balancer_provider cluster ≡ (true, none)
    pub labelled : has avi_cluster_label cluster.labels ≡ true

  reaches_hook :
      (obj : Machine) (cluster : Cluster)
      → InAviCluster obj cluster
      → reconcile_machine env fin ans obj ≡ (reconcile_hook env fin ans obj cluster, returns tt)
  unfolding reconcile_machine
  reaches_hook obj cluster v =
      ap (with_cluster_name env fin ans obj) v.named
      ∙ ap (in_cluster env fin ans obj) v.found
      ∙ ap (when_vip_provider env fin ans obj cluster) v.vip
      ∙ ap (after_endpoints env fin ans obj cluster) v.endpoints
      ∙ ap (when_provider env fin ans obj cluster) v.provided

  abbrev wanted_by : Bool → Bool → Machine → Cluster → Option String
  wanted_by true o obj cluster =
      if fin.contains cluster.finalizers cluster_finalizer then hook obj else none
  wanted_by false true obj cluster = none
  wanted_by false false obj cluster =
      if has hook_prefix obj.annotations
      then hook obj
      else if cluster.namespace == tkg_system_namespace
      then hook obj
      else some "ako-operator"

  -- The hook that the machine is to have: of a cluster that is being deleted, the one that it has
  -- until the finalizer is gone, and then none; none for a machine that is deleted alone; else the
  -- operator's, except in the system namespace.
  abbrev pub wanted_hook : Machine → Cluster → Option String
  wanted_hook obj cluster = wanted_by cluster.deleting obj.deleting obj cluster

  deletion-hook :
      (obj : Machine) (cluster : Cluster)
      → (ans.has_with_prefix hook_prefix obj.annotations ≡ false → hook obj ≡ none)
      → hook (reconcile_machine_deletion_hook env fin ans obj cluster)
        ≡ (if fin.contains cluster.finalizers cluster_finalizer then hook obj else none)
  unfolding reconcile_machine_deletion_hook
  deletion-hook obj cluster p =
      elim (Bool-cases (fin.contains cluster.finalizers cluster_finalizer)) [
        | inl t ↦ rw t refl
        | inr f ↦ elim (Bool-cases (ans.has_with_prefix hook_prefix obj.annotations)) [
          | inl t ↦ rw (f, t) (hook-without_hook obj)
          | inr g ↦ rw (f, g) (p g)
        ]
      ]

  normal-hook :
      (obj : Machine) (cluster : Cluster)
      → hook (reconcile_normal env fin ans obj cluster) ≡ (
          if has hook_prefix obj.annotations
          then hook obj
          else if cluster.namespace == tkg_system_namespace
          then hook obj
          else some "ako-operator")
  unfolding reconcile_normal
  normal-hook obj cluster = elim (Bool-cases (has hook_prefix obj.annotations)) [
    | inl t ↦ rw t refl
    | inr f ↦ elim (Bool-cases (cluster.namespace == tkg_system_namespace)) [
      | inl t ↦ rw (f, t) refl
      | inr g ↦
          rw (f, g)
            (lookup-insert pre_terminate_annotation pre_terminate_annotation "ako-operator"
              obj.annotations)
    ]
  ]

  hook_by-hook :
      (o c : Bool) (obj : Machine) (cluster : Cluster)
      → (ans.has_with_prefix hook_prefix obj.annotations ≡ false → hook obj ≡ none)
      → hook (hook_by env fin ans true o c obj cluster) ≡ wanted_by c o obj cluster
  hook_by-hook true false obj cluster p = hook-without_hook obj
  hook_by-hook true true obj cluster p = deletion-hook obj cluster p
  hook_by-hook false true obj cluster p = deletion-hook obj cluster p
  hook_by-hook false false obj cluster p = normal-hook obj cluster

  -- For a machine of such a cluster a reconciliation returns without an error and leaves the machine with the hook
  -- that it is to have, where annotations.HasWithPrefix finds a hook that is there.
  pub reconcile_machine-hook :
      (obj : Machine) (cluster : Cluster)
      → InAviCluster obj cluster
      → (ans.has_with_prefix hook_prefix obj.annotations ≡ false → hook obj ≡ none)
      → let r = reconcile_machine env fin ans obj in
        (hook r.0 ≡ wanted_hook obj cluster) × (r.1 ≡ returns tt)
  unfolding reconcile_hook
  reconcile_machine-hook obj cluster v p =
      let e = reaches_hook obj cluster v in
      (
        ap (λ (r : Machine × Outcome Unit). hook r.0) e
            ∙ ap (λ b. hook (hook_by env fin ans b obj.deleting cluster.deleting obj cluster))
                v.labelled
            ∙ hook_by-hook obj.deleting cluster.deleting obj cluster p,
        ap (λ (r : Machine × Outcome Unit). r.1) e,
      )
