-- ===== src/DeploymentConfig/Lifecycle.antt =====
-- The life of an AKODeploymentConfig as a machine of four stages, which the passes of the controller refine.
use load_balancer_operator_f.Prelude.{
  Bool, true, false, Option, none, some, List, Bool-cases, inl, inr, ◌≡◌, refl, sym, ap, ◌∙◌, subst,
  if◌then◌else◌,
}
use load_balancer_operator_f.Kube.{Error, ok, CtrlResult, done}
use load_balancer_operator_f.Api.{AkoDeploymentConfig, AkoDeploymentConfigSpec}
use load_balancer_operator_f.Api.Constants.{ako_deployment_config_finalizer}
use load_balancer_operator_f.Reconciler.{
  Write, Halt, waits_for_ever, has_panicked, State, Answers, Server,
}
use load_balancer_operator_f.DeploymentConfig.{
  has_finalizer, add_finalizer_unless, reconcile_normal, release_unless, deferred, after_phases,
  delete_phases, reconcile_delete, patched_by, handle, with_helper, reconcile,
}
use load_balancer_operator_f.DeploymentConfig.Finalizer.{
  has_finalizer-reconcile_normal, normal_phases-Same, delete_phases-Keeps,
}

-- Without the finalizer, with it, being deleted with it, and being deleted without it, so that the API server
-- removes the object.
pub data Stage : Type 0 where
  fresh managed terminating released : Stage

-- What one pass may do.
pub data Step : Stage → Stage → Type 0 where
  adopts : Step fresh managed
  maintains : Step managed managed
  retries : Step terminating terminating
  releases : Step terminating released
  rests : Step released released

abbrev stage : Bool → Bool → Stage
stage false false = fresh
stage false true = managed
stage true true = terminating
stage true false = released

adopts_or_maintains : (b : Bool) → Step (stage false b) managed
adopts_or_maintains true = maintains
adopts_or_maintains false = adopts

releases_or_retries : (b : Bool) → Step terminating (stage true b)
releases_or_retries true = retries
releases_or_retries false = releases

module _ (srv : Server) where
  abbrev pub stage_of : AkoDeploymentConfig → Stage
  stage_of obj =
      stage obj.deleting (srv.fin.contains obj.finalizers ako_deployment_config_finalizer)

  stage_of-eq :
      (s : State) (d f : Bool)
      → s.obj.deleting ≡ d
      → has_finalizer srv s ≡ f
      → stage_of s.obj ≡ stage d f
  stage_of-eq s d f h k = ap (λ b. stage b (has_finalizer srv s)) h ∙ ap (λ b. stage d b) k

  deleting-add :
      (b : Bool) (s : State) → (add_finalizer_unless srv b s).obj.deleting ≡ s.obj.deleting
  deleting-add true s = refl
  deleting-add false s = refl

  deleting-reconcile_normal : (s : State) → (reconcile_normal srv s).0.obj.deleting ≡ s.obj.deleting
  unfolding reconcile_normal
  deleting-reconcile_normal s =
      let start = add_finalizer_unless srv (has_finalizer srv s) s in
      ap (λ m. m.deleting) (normal_phases-Same srv start.obj.metadata start refl)
      ∙ deleting-add (has_finalizer srv s) s

  deleting-release :
      (b : Bool) (s : State) (res : CtrlResult) (e : Option Error)
      → (release_unless srv b s res e).0.obj.deleting ≡ s.obj.deleting
  deleting-release true s res e = refl
  deleting-release false s res e = refl

  deleting-deferred :
      (h : Option Halt) (s : State) (res : CtrlResult) (e : Option Error)
      → (deferred srv h (s, res, e)).0.obj.deleting ≡ s.obj.deleting
  deleting-deferred none s res (some e) = refl
  deleting-deferred none s res none = deleting-release res.requeue s res none
  deleting-deferred (some waits_for_ever) s res e = refl
  deleting-deferred (some has_panicked) s res e = refl

  normal-Step :
      (s : State)
      → s.obj.deleting ≡ false
      → Step (stage_of s.obj) (stage_of (reconcile_normal srv s).0.obj)
  normal-Step s d =
      subst (λ x. Step (stage_of s.obj) x)
        (sym (
          stage_of-eq (reconcile_normal srv s).0 false true (deleting-reconcile_normal s ∙ d)
            (has_finalizer-reconcile_normal srv s)))
        (subst (λ x. Step x managed) (sym (stage_of-eq s false (has_finalizer srv s) d refl))
          (adopts_or_maintains (has_finalizer srv s)))

  terminating-Step :
      (s : State)
      → s.obj.deleting ≡ true
      → has_finalizer srv s ≡ true
      → Step (stage_of s.obj) (stage_of (after_phases srv (delete_phases srv s)).0.obj)
  terminating-Step s d f =
      let r = delete_phases srv s in
      let after = after_phases srv r in
      let kept = delete_phases-Keeps srv (λ o. o.deleting ≡ true) s d in
      subst (λ x. Step (stage_of s.obj) x)
        (sym (
          stage_of-eq after.0 true (has_finalizer srv after.0)
            (deleting-deferred r.0.halt r.0 r.1 r.2 ∙ kept) refl))
        (subst (λ x. Step x (stage true (has_finalizer srv after.0)))
          (sym (stage_of-eq s true true d f)) (releases_or_retries (has_finalizer srv after.0)))

  rests-Step :
      (s : State)
      → s.obj.deleting ≡ true
      → has_finalizer srv s ≡ false
      → Step (stage_of s.obj) (stage_of s.obj)
  rests-Step s d f = subst (λ x. Step x x) (sym (stage_of-eq s true false d f)) rests

  delete-Step :
      (s : State)
      → s.obj.deleting ≡ true
      → Step (stage_of s.obj) (stage_of (reconcile_delete srv s).0.obj)
  unfolding reconcile_delete
  delete-Step s d =
      let by =
        λ (b : Bool). if b then after_phases srv (delete_phases srv s) else (s, done, none) in
      elim (Bool-cases (has_finalizer srv s)) [
        | inl t ↦
            subst (λ b. Step (stage_of s.obj) (stage_of (by b).0.obj)) (sym t)
              (terminating-Step s d t)
        | inr f ↦
            subst (λ b. Step (stage_of s.obj) (stage_of (by b).0.obj)) (sym f) (rests-Step s d f)
      ]

  handle-Step : (s : State) → Step (stage_of s.obj) (stage_of (handle srv s).0.obj)
  handle-Step s =
      let by = λ (b : Bool). if b then reconcile_delete srv s else reconcile_normal srv s in
      elim (Bool-cases s.obj.deleting) [
        | inl t ↦
            subst (λ b. Step (stage_of s.obj) (stage_of (by b).0.obj)) (sym t) (delete-Step s t)
        | inr f ↦
            subst (λ b. Step (stage_of s.obj) (stage_of (by b).0.obj)) (sym f) (normal-Step s f)
      ]

  abbrev StepsTo : AkoDeploymentConfig → Option AkoDeploymentConfig → Type 0
  StepsTo obj none = Unit {0}
  StepsTo obj (some after) = Step (stage_of obj) (stage_of after)

  patched_by-Step :
      (obj : AkoDeploymentConfig) (patch : AkoDeploymentConfig → Option Error) (h : Option Halt)
      (r : State × CtrlResult × Option Error)
      → Step (stage_of obj) (stage_of r.0.obj)
      → StepsTo obj (patched_by srv patch h r).patched
  patched_by-Step obj patch none r k = k
  patched_by-Step obj patch (some waits_for_ever) r k = tt
  patched_by-Step obj patch (some has_panicked) r k = k

  with_helper-Step :
      (patch : AkoDeploymentConfig → Option Error) (s : State) (o : Option Error)
      → StepsTo s.obj (with_helper srv patch s o).patched
  with_helper-Step patch s (some e) = tt
  with_helper-Step patch s none = patched_by-Step s.obj patch _ (handle srv s) (handle-Step s)

  pub reconcile-Step :
      (obj after : AkoDeploymentConfig) (new_helper patch : AkoDeploymentConfig → Option Error)
      (s : State)
      → (reconcile srv (ok obj) new_helper patch s).patched ≡ some after
      → Step (stage_of obj) (stage_of after)
  unfolding reconcile
  reconcile-Step obj after new_helper patch s e =
      subst (StepsTo obj) e (with_helper-Step patch (record s { obj = obj }) (new_helper obj))

-- The stages that a life runs through: steps of passes, and the request of a deletion.
pub data Life : Stage → Stage → Type 0 where
  begins : (x : Stage) → Life x x
  steps : {x y z : Stage} → Life x y → Step y z → Life x z
  is_deleted : {x : Stage} → Life x managed → Life x terminating

module _ (srv : Server) where
  -- What happens to an object: passes of the controller, in any state of the reconciler and with any answers of the
  -- servers, edits of its specification, and the request of its deletion, which marks it while it has the finalizer.
  pub data History : AkoDeploymentConfig → AkoDeploymentConfig → Type 0 where
    starts : (obj : AkoDeploymentConfig) → History obj obj
    passes :
        {a b : AkoDeploymentConfig} (after : AkoDeploymentConfig) (ans : List Write → Answers)
        (new_helper patch : AkoDeploymentConfig → Option Error) (s : State)
        → History a b
        → (reconcile (record srv { answers = ans }) (ok b) new_helper patch s).patched ≡ some after
        → History a after
    edited :
        {a b : AkoDeploymentConfig} (spec : AkoDeploymentConfigSpec)
        → History a b
        → History a (record b { spec = spec })
    marked :
        {a b : AkoDeploymentConfig}
        → History a b
        → srv.fin.contains b.finalizers ako_deployment_config_finalizer ≡ true
        → History a (record b { metadata = record b.metadata { deleting = true } })

  to_terminating : {x : Stage} (d : Bool) → Life x (stage d true) → Life x terminating
  to_terminating true l = l
  to_terminating false l = is_deleted l

  -- Whatever happens to an AKODeploymentConfig, its stages form a life: a pass adopts it, keeps it, tries again to
  -- release it or releases it, and what is released or being deleted is not adopted again.
  pub History-refines :
      {a b : AkoDeploymentConfig} → History a b → Life (stage_of srv a) (stage_of srv b)
  History-refines (starts obj) = begins (stage_of srv obj)
  History-refines (passes {a} {b} after ans new_helper patch s h e) =
      steps (History-refines h)
        (reconcile-Step (record srv { answers = ans }) b after new_helper patch s e)
  History-refines (edited spec h) = History-refines h
  History-refines (marked {a} {b} h f) =
      subst (λ c. Life (stage_of srv a) (stage true c)) (sym f)
        (to_terminating b.deleting
          (subst (λ c. Life (stage_of srv a) (stage b.deleting c)) f (History-refines h)))
