-- ===== src/Phases/Runs.antt =====
-- Every phase runs and every cluster is visited, and the aggregated error is nil exactly where nothing
-- failed.
use load_balancer_operator_f.Prelude.{
  Bool, true, false, not, ◌||◌, Option, none, some, List, [], ◌∷◌, ◌++◌, is_empty, is_some,
  or_assoc, insert, if◌then◌else◌, ◌≡◌, refl, sym, ap, ◌∙◌,
}
use load_balancer_operator_f.Kube.{Error, ok, Cluster, CtrlResult, done}
use load_balancer_operator_f.Kube.Interfaces.{Aggregates}
use load_balancer_operator_f.Api.{AkoDeploymentConfig}
use load_balancer_operator_f.AkoOperator.{is_load_balancer_provider}
use load_balancer_operator_f.Api.Constants.{avi_cluster_label}
use load_balancer_operator_f.Mapping.{apply_cluster_label}
use load_balancer_operator_f.Phases.{
  Phase, with_error, next_result, phase_loop, reconcile_phases, Patches, Progress, goes_on,
  patch_after, provided, cluster_step, cluster_loop, finished, reconcile_clusters_phases,
}

-- The phases, one after the other: the last state, and the errors in order.
abbrev pub state_after : {S : Type 0} → List (Phase S) → S → S
state_after [] s = s
state_after (phase ∷ phases) s = state_after phases (phase s).0

abbrev pub errors_of : {S : Type 0} → List (Phase S) → S → List Error
errors_of [] s = []
errors_of (phase ∷ phases) s = with_error [] (phase s).2 ++ errors_of phases (phase s).0

append_assoc : {A : Type 0} (xs ys zs : List A) → (xs ++ ys) ++ zs ≡ xs ++ (ys ++ zs)
append_assoc [] ys zs = refl
append_assoc (x ∷ xs) ys zs = ap (λ l. x ∷ l) (append_assoc xs ys zs)

append_nil : {A : Type 0} (xs : List A) → xs ++ [] ≡ xs
append_nil [] = refl
append_nil (x ∷ xs) = ap (λ l. x ∷ l) (append_nil xs)

with_error-append :
    (errs : List Error) (o : Option Error) → with_error errs o ≡ errs ++ with_error [] o
with_error-append errs none = sym (append_nil errs)
with_error-append errs (some e) = refl

nonempty-append :
    (xs ys : List Error) → not (is_empty (xs ++ ys)) ≡ (not (is_empty xs) || not (is_empty ys))
nonempty-append [] ys = refl
nonempty-append (x ∷ xs) ys = refl

or_false : (b : Bool) → (b || false) ≡ b
or_false true = refl
or_false false = refl

one_or_none : (o : Option Error) → not (is_empty (with_error [] o)) ≡ is_some o
one_or_none none = refl
one_or_none (some e) = refl

module _ (agg : Aggregates) where
  phase_loop-all :
      {S : Type 0} (phases : List (Phase S)) (s : S) (res : CtrlResult) (errs : List Error)
      → ((phase_loop agg phases s res errs).0 ≡ state_after phases s)
        × ((phase_loop agg phases s res errs).2 ≡ errs ++ errors_of phases s)
  unfolding phase_loop
  phase_loop-all [] s res errs = (refl, sym (append_nil errs))
  phase_loop-all (phase ∷ phases) s res errs =
      let errs' = with_error errs (phase s).2 in
      let k = phase_loop-all phases (phase s).0 (next_result agg errs' res (phase s).1) errs' in
      (
        k.0,
        k.1
            ∙ ap (λ l. l ++ errors_of phases (phase s).0) (with_error-append errs (phase s).2)
            ∙ append_assoc errs (with_error [] (phase s).2) (errors_of phases (phase s).0),
      )

  is_some-new_aggregate :
      (errs : List Error) → is_some (agg.new_aggregate errs) ≡ not (is_empty errs)
  is_some-new_aggregate [] = ap is_some agg.new_aggregate-nil
  is_some-new_aggregate (e ∷ es) = agg.new_aggregate-cons e es

  -- ReconcilePhases runs every phase in order, the later ones also where an earlier one fails, and it
  -- returns an error exactly where some phase returned one.
  pub reconcile_phases-all :
      {S : Type 0} (phases : List (Phase S)) (s : S)
      → let r = reconcile_phases agg phases s in
        (r.0 ≡ state_after phases s) × (is_some r.2 ≡ not (is_empty (errors_of phases s)))
  unfolding reconcile_phases
  reconcile_phases-all phases s =
      let k = phase_loop-all phases s done [] in
      (k.0, is_some-new_aggregate _ ∙ ap (λ l. not (is_empty l)) k.1)

  module _ {S : Type 0} (patches : Patches agg S) (obj : AkoDeploymentConfig)
      (normal_phases delete_phases : List (Phase (S × Cluster))) where
    -- The delete phases where the cluster is being deleted, else the normal ones.
    abbrev cluster_phases : Cluster → List (Phase (S × Cluster))
    cluster_phases c = if c.deleting then delete_phases else normal_phases

    -- The cluster with the name of the configuration as its AVI label.
    abbrev named_after : Cluster → Cluster
    named_after c = record c {
      metadata = record c.metadata { labels = insert avi_cluster_label obj.name c.labels };
    }

    -- One cluster: passed over where kube-vip provides its load balancer or its variables do not
    -- parse; else labelled, put through its phases and patched.
    abbrev visit : Bool × Option Error → S → Cluster → S
    visit (is_provider, some e) s cluster = s
    visit (false, none) s cluster = s
    visit (true, none) s cluster =
        let c = named_after cluster in
        let r = state_after (cluster_phases c) (s, c) in (patches.patch r.0 r.1).0

    abbrev visit_fails : Bool × Option Error → S → Cluster → Bool
    visit_fails (is_provider, some e) s cluster = true
    visit_fails (false, none) s cluster = false
    visit_fails (true, none) s cluster =
        let c = named_after cluster in not (is_empty (errors_of (cluster_phases c) (s, c)))

    abbrev pub visit_all : List Cluster → S → S
    visit_all [] s = s
    visit_all (c ∷ cs) s = visit_all cs (visit (is_load_balancer_provider c) s c)

    abbrev pub some_fails : List Cluster → S → Bool
    some_fails [] s = false
    some_fails (c ∷ cs) s =
        visit_fails (is_load_balancer_provider c) s c
        || some_fails cs (visit (is_load_balancer_provider c) s c)

    -- A step of the loop that goes on, in the state of the visit.
    record Goes (s : S) (errs : List Error) (c : Cluster) (p : Progress agg S)
        (b : Bool × Option Error) : Type 0 where
      state : S
      result : CtrlResult
      errors : List Error
      is_on : p ≡ goes_on state result errors
      visited : state ≡ visit b s c
      failed : not (is_empty errors) ≡ (not (is_empty errs) || visit_fails b s c)

    module _ (helps : (c : Cluster) → patches.new_helper c ≡ none) where
      with_aggregate :
          (errs es : List Error)
          → not (is_empty (with_error errs (agg.new_aggregate es)))
            ≡ (not (is_empty errs) || not (is_empty es))
      with_aggregate errs es =
          ap (λ l. not (is_empty l)) (with_error-append errs (agg.new_aggregate es))
          ∙ nonempty-append errs (with_error [] (agg.new_aggregate es))
          ∙ ap (λ b. not (is_empty errs) || b)
              (one_or_none (agg.new_aggregate es) ∙ is_some-new_aggregate es)

      patch_after-Goes :
          (s : S) (errs : List Error) (c : Cluster) (res : CtrlResult)
          → let a = named_after c in
            Goes s errs c
              (patch_after agg patches obj normal_phases delete_phases errs
                (phase_loop agg (cluster_phases a) (s, a) res []))
              (true, none)
      patch_after-Goes s errs c res =
          let a = named_after c in
          let k = phase_loop-all (cluster_phases a) (s, a) res [] in
          record {
            state = _;
            result = _;
            errors = _;
            is_on = refl;
            visited = ap (λ (r : S × Cluster). (patches.patch r.0 r.1).0) k.0;
            failed = with_aggregate errs _ ∙ ap (λ l. not (is_empty errs) || not (is_empty l)) k.1;
          }

      provided-Goes :
          (s : S) (res : CtrlResult) (errs : List Error) (c : Cluster) (b : Bool × Option Error)
          → Goes s errs c (provided agg patches obj normal_phases delete_phases s res errs c b) b
      unfolding apply_cluster_label
      provided-Goes s res errs c (is_provider, some e) = record {
        state = s;
        result = res;
        errors = errs ++ e ∷ [];
        is_on = refl;
        visited = refl;
        failed = nonempty-append errs (e ∷ []);
      }
      provided-Goes s res errs c (false, none) = record {
        state = s;
        result = res;
        errors = errs;
        is_on = refl;
        visited = refl;
        failed = sym (or_false _);
      }
      provided-Goes s res errs c (true, none) = rw (helps c) (patch_after-Goes s errs c res)

      cluster_loop-all :
          (cs : List Cluster) (s : S) (res : CtrlResult) (errs : List Error)
          → let r =
              finished agg patches obj normal_phases delete_phases
                (cluster_loop agg patches obj normal_phases delete_phases cs s res errs) in
            (r.0 ≡ visit_all cs s) × (is_some r.2 ≡ (not (is_empty errs) || some_fails cs s))
      unfolding cluster_loop cluster_step
      cluster_loop-all [] s res errs = (refl, is_some-new_aggregate errs ∙ sym (or_false _))
      cluster_loop-all (c ∷ cs) s res errs =
          let v = provided-Goes s res errs c (is_load_balancer_provider c) in
          let k = cluster_loop-all cs v.state v.result v.errors in
          rw v.is_on (
            k.0 ∙ ap (visit_all cs) v.visited,
            k.1
                ∙ ap (λ b. b || some_fails cs v.state) v.failed
                ∙ or_assoc (not (is_empty errs)) _ _
                ∙ ap
                    (λ x.
                      not (is_empty errs)
                      || (visit_fails (is_load_balancer_provider c) s c || some_fails cs x))
                    v.visited,
          )

      -- Where the patch helper of each cluster can be made, ReconcileClustersPhases visits every
      -- cluster of the list in order: it passes over a cluster whose load balancer is kube-vip or whose
      -- variables do not parse, and labels any other with the name of the configuration, puts it through the delete phases where it is being deleted and else through
      -- the normal ones, and patches it. It returns an error exactly where the variables of some
      -- cluster do not parse or some phase of a cluster returned one; the error of a patch is lost.
      pub reconcile_clusters_phases-all :
          (clusters : List Cluster) (s : S)
          → let r =
              reconcile_clusters_phases agg patches obj normal_phases delete_phases
                (ok clusters)
                s in
            (r.0 ≡ visit_all clusters s) × (is_some r.2 ≡ some_fails clusters s)
      unfolding reconcile_clusters_phases
      reconcile_clusters_phases-all [] s = (refl, refl)
      reconcile_clusters_phases-all (c ∷ cs) s = cluster_loop-all (c ∷ cs) s done []
