-- ===== src/AviInit/Lock.antt =====
-- What initAVI leaves of the client and the mutex, and what a failed call does to the later ones.
use load_balancer_operator_f.Prelude.{
  String, Bool, true, false, not, ◌||◌, Option, none, some, List, [], ◌∷◌, ◌==◌, Bool-cases, ◌≡◌,
  refl, sym, subst, inl, inr, ◌⊎◌,
}
use load_balancer_operator_f.Kube.{Result, ok, err}
use load_balancer_operator_f.Api.{AkoDeploymentConfig}
use load_balancer_operator_f.AviInit.{
  AviClient, Slot, no_client, nil_pointer, held, AviState, Ended, returned, blocked, panicked,
  Answers, is_nil, with_client, with_lock, init_user, unlocked, re_created, check_version, created,
  create_by, lock_by, with_ca, init_from, init_avi,
}

-- There is a client, and a user reconciler with a client of its own.
abbrev pub IsReady : AviState → Type 0
IsReady s =
    (s.locked ≡ false)
    × ((c : AviClient) × (s.avi_client ≡ held c))
    × ((u : Slot) × (s.user_client ≡ some u))

abbrev pub Leaves : Answers → AviState → AviState × Ended → Type 0
Leaves ans before (after, returned none) = IsReady after
Leaves ans before (after, returned (some e)) =
    (ans.avi_ca ≡ err e) × (after ≡ before) ⊎ (after.locked ≡ true)
Leaves ans before (after, blocked) = ⊥
Leaves ans before (after, panicked) = (before.avi_client ≡ nil_pointer) × (after ≡ before)

-- The methods of a client may be called.
abbrev IsUsable : Slot → Type 0
IsUsable nil_pointer = ⊥
IsUsable _ = Unit {0}

-- A call that ends without an error.
abbrev pub Succeeds : Ended → Type 0
Succeeds (returned none) = Unit {0}
Succeeds _ = ⊥

module _ (ans : Answers) (obj : AkoDeploymentConfig) (before : AviState) where
  init_user-Leaves :
      (re_init : Bool) (s : AviState) (u : Option Slot) (c : AviClient)
      → s.user_client ≡ u
      → s.locked ≡ false
      → s.avi_client ≡ held c
      → Leaves ans before (init_user ans obj re_init s u)
  init_user-Leaves true s u c h l e = (l, (c, e), (s.avi_client, refl))
  init_user-Leaves false s none c h l e = (l, (c, e), (s.avi_client, refl))
  init_user-Leaves false s (some u) c h l e = (l, (c, e), (u, h))

  unlocked-Leaves :
      (re_init : Bool) (s : AviState) (c : AviClient)
      → s.avi_client ≡ held c
      → Leaves ans before (unlocked ans obj re_init s)
  unlocked-Leaves re_init s c e =
      init_user-Leaves re_init (with_lock s false) s.user_client c refl refl e

  re_created-Leaves :
      (re_init : Bool) (s : AviState) (r : Result AviClient)
      → s.locked ≡ true
      → Leaves ans before (re_created ans obj re_init s r)
  re_created-Leaves re_init s (ok c) l = unlocked-Leaves re_init (with_client s (held c)) c refl
  re_created-Leaves re_init s (err e) l = inr l

  check_version-Leaves :
      (re_init : Bool) (s : AviState) (c : AviClient) (v : Result String)
      → s.locked ≡ true
      → s.avi_client ≡ held c
      → Leaves ans before (check_version ans obj re_init s v)
  check_version-Leaves re_init s c (err e) l h = inr l
  check_version-Leaves re_init s c (ok v) l h =
      elim (Bool-cases (obj.spec.controller_version == v)) [
        | inl t ↦ rw t (unlocked-Leaves re_init s c h)
        | inr f ↦ rw f (re_created-Leaves re_init s (ans.new_client v) l)
      ]

  created-Leaves :
      (re_init : Bool) (s : AviState) (r : Result AviClient)
      → s.locked ≡ true
      → Leaves ans before (created ans obj re_init s r)
  created-Leaves re_init s (err e) l = inr l
  created-Leaves re_init s (ok c) l =
      check_version-Leaves re_init (with_client s (held c)) c c.controller_version l refl

  create_by-Leaves :
      (re_init : Bool) (s : AviState) (slot : Slot)
      → s.locked ≡ true
      → s.avi_client ≡ slot
      → IsUsable slot
      → Leaves ans before (create_by ans obj (is_nil slot || re_init) re_init s)
  create_by-Leaves re_init s no_client l h n = created-Leaves re_init s _ l
  create_by-Leaves re_init s nil_pointer l h n = absurd n
  create_by-Leaves true s (held c) l h n = created-Leaves true s _ l
  create_by-Leaves false s (held c) l h n = unlocked-Leaves false s c h

  with_ca-Leaves :
      (current : String) (r : Result String)
      → ans.avi_ca ≡ r
      → before.locked ≡ false
      → IsUsable before.avi_client
      → Leaves ans before (with_ca ans obj current before r)
  with_ca-Leaves current (err e) h l n = inl (h, refl)
  with_ca-Leaves current (ok ca) h l n =
      subst (λ (x : Bool). Leaves ans before (lock_by ans obj x (not (current == ca)) before))
        (sym l) (create_by-Leaves _ (with_lock before true) before.avi_client refl refl n)

init_from-Leaves :
    (ans : Answers) (obj : AkoDeploymentConfig) (s : AviState) (slot : Slot)
    → s.avi_client ≡ slot
    → s.locked ≡ false
    → Leaves ans s (init_from ans obj slot s)
init_from-Leaves ans obj s no_client h l =
    with_ca-Leaves ans obj s _ _ refl l (subst IsUsable (sym h) tt)
init_from-Leaves ans obj s nil_pointer h l = (h, refl)
init_from-Leaves ans obj s (held c) h l =
    with_ca-Leaves ans obj s _ _ refl l (subst IsUsable (sym h) tt)

-- Where the mutex is free, initAVI does not wait for it, and it panics only where it holds a nil pointer, with
-- the state as it was. Where it returns without an error, the mutex is free, and there are a client of the
-- AVI Controller and a user reconciler. Where it returns an error, the certificate was not read and the
-- state is as it was, or the mutex stays locked.
pub init_avi-Leaves :
    (ans : Answers) (obj : AkoDeploymentConfig) (s : AviState)
    → s.locked ≡ false
    → Leaves ans s (init_avi ans obj s)
unfolding init_avi
init_avi-Leaves ans obj s l = init_from-Leaves ans obj s s.avi_client refl l

with_ca-stuck :
    (ans : Answers) (obj : AkoDeploymentConfig) (s : AviState) (current : String)
    (r : Result String)
    → s.locked ≡ true
    → let a = with_ca ans obj current s r in (a.0 ≡ s) × ¬ Succeeds a.1
with_ca-stuck ans obj s current (err e) l = (refl, λ h. h)
with_ca-stuck ans obj s current (ok ca) l =
    subst
      (λ (x : Bool).
        let a = lock_by ans obj x (not (current == ca)) s in (a.0 ≡ s) × ¬ Succeeds a.1)
      (sym l) (refl, λ h. h)

init_from-stuck :
    (ans : Answers) (obj : AkoDeploymentConfig) (s : AviState) (slot : Slot)
    → s.locked ≡ true
    → let a = init_from ans obj slot s in (a.0 ≡ s) × ¬ Succeeds a.1
init_from-stuck ans obj s no_client l = with_ca-stuck ans obj s _ _ l
init_from-stuck ans obj s nil_pointer l = (refl, λ h. h)
init_from-stuck ans obj s (held c) l = with_ca-stuck ans obj s _ _ l

locked-stuck :
    (ans : Answers) (obj : AkoDeploymentConfig) (s : AviState)
    → s.locked ≡ true
    → let a = init_avi ans obj s in (a.0 ≡ s) × ¬ Succeeds a.1
unfolding init_avi
locked-stuck ans obj s l = init_from-stuck ans obj s s.avi_client l

-- The calls after each other, each with its own answers and AKODeploymentConfig.
abbrev pub after_calls : List (Answers × AkoDeploymentConfig) → AviState → AviState
after_calls [] s = s
after_calls ((ans, obj) ∷ calls) s = after_calls calls (init_avi ans obj s).0

-- Once a call has left the mutex locked, no later call succeeds, whatever the server and the AVI Controller
-- answer, and whatever other calls come between.
pub init_avi-stuck :
    (s : AviState) (calls : List (Answers × AkoDeploymentConfig)) (ans : Answers)
    (obj : AkoDeploymentConfig)
    → s.locked ≡ true
    → ¬ Succeeds (init_avi ans obj (after_calls calls s)).1
init_avi-stuck s [] ans obj l = (locked-stuck ans obj s l).1
init_avi-stuck s ((a, o) ∷ calls) ans obj l =
    subst (λ (x : AviState). ¬ Succeeds (init_avi ans obj (after_calls calls x)).1)
      (sym (locked-stuck a o s l).0) (init_avi-stuck s calls ans obj l)
