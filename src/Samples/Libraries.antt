-- ===== src/Samples/Libraries.antt =====
-- Concrete functions with the laws of the interfaces, for the tests and the witnesses.
use load_balancer_operator_f.Prelude.{
  ◌∙◌, String, Bool, true, false, not, ◌&&◌, ◌||◌, Option, none, some, List, [], ◌∷◌, ◌≡◌, refl,
  ◌≢◌, ap, arith, ◌==◌, eq_iff, eq_refl, if◌then◌else◌,
}
use load_balancer_operator_f.Go.Int.{pos, lt_int}
use load_balancer_operator_f.Kube.{
  Error, Condition, ConditionStatus, status_true, status_false, CtrlResult,
}
use load_balancer_operator_f.Kube.Interfaces.{Finalizers, Conditions, Aggregates}

abbrev has_text : List String → String → Bool
has_text [] f = false
has_text (x ∷ xs) f = x == f || has_text xs f

abbrev drop_text : List String → String → List String
drop_text [] f = []
drop_text (x ∷ xs) f = let rest = drop_text xs f in if x == f then rest else x ∷ rest

pub has-drop_self : (fs : List String) (f : String) → has_text (drop_text fs f) f ≡ false
has-drop_self [] f = refl
has-drop_self (x ∷ xs) f = ground (arith, has-drop_self xs f)

pub has-drop_ne :
    (fs : List String) (f g : String) → f ≢ g → has_text (drop_text fs f) g ≡ has_text fs g
has-drop_ne [] f g n = refl
has-drop_ne (x ∷ xs) f g n = ground (arith, has-drop_ne xs f g n, eq_iff x f, eq_iff x g)

pub has-cons_self : (fs : List String) (f : String) → has_text (f ∷ fs) f ≡ true
has-cons_self fs f = rw eq_refl

pub has-cons_ne : (fs : List String) (f g : String) → f ≢ g → has_text (f ∷ fs) g ≡ has_text fs g
has-cons_ne fs f g n = ground (arith, eq_iff f g)

abbrev pub list_finalizers : Finalizers
list_finalizers = record {
  contains = has_text;
  add = λ fs f. f ∷ fs;
  remove = drop_text;
  contains-add_self = has-cons_self;
  contains-add_ne = has-cons_ne;
  contains-remove_self = has-drop_self;
  contains-remove_ne = has-drop_ne;
}

abbrev find_status : List Condition → String → Option ConditionStatus
find_status [] k = none
find_status (c ∷ cs) k = let rest = find_status cs k in if c.kind == k then some c.status else rest

abbrev is_status_true : Option ConditionStatus → Bool
is_status_true (some status_true) = true
is_status_true _ = false

abbrev is_status_false : Option ConditionStatus → Bool
is_status_false (some status_false) = true
is_status_false _ = false

abbrev is_present : Option ConditionStatus → Bool
is_present none = false
is_present (some s) = true

abbrev mark : ConditionStatus → List Condition → String → String → List Condition
mark s cs k r = record { kind = k; status = s; text = r } ∷ cs

pub find-mark_self :
    (s : ConditionStatus) (cs : List Condition) (k r : String)
    → find_status (mark s cs k r) k ≡ some s
find-mark_self s cs k r = rw eq_refl

pub find-mark_ne :
    (s : ConditionStatus) (cs : List Condition) (k j r : String)
    → k ≢ j
    → find_status (mark s cs k r) j ≡ find_status cs j
find-mark_ne s cs k j r n = ground (arith, eq_iff k j)

abbrev pub list_conditions : Conditions
list_conditions = record {
  has = λ cs k. is_present (find_status cs k);
  is_true = λ cs k. is_status_true (find_status cs k);
  is_false = λ cs k. is_status_false (find_status cs k);
  mark_true = λ cs k. mark status_true cs k "";
  mark_false = λ cs k r. mark status_false cs k r;
  set = λ cs c. mark c.status cs c.kind c.text;
  is_false-set = λ cs c e.
      ap is_status_false (find-mark_self c.status cs c.kind c.text)
      ∙ ap (λ (x : ConditionStatus). is_status_false (some x)) e;
  is_true-mark_true = λ cs k. ap is_status_true (find-mark_self status_true cs k "");
  is_true-mark_false = λ cs k r. ap is_status_true (find-mark_self status_false cs k r);
  has-mark_false = λ cs k r. ap is_present (find-mark_self status_false cs k r);
  is_true-mark_true_ne = λ cs k j n. ap is_status_true (find-mark_ne status_true cs k j "" n);
  is_true-mark_false_ne = λ cs k j r n. ap is_status_true (find-mark_ne status_false cs k j r n);
}

abbrev first_error : List Error → Option Error
first_error [] = none
first_error (e ∷ es) = some e

-- util.LowestNonZeroResult, as Cluster API documents it.
abbrev is_zero : CtrlResult → Bool
is_zero r = not r.requeue && not (lt_int (pos 0) r.requeue_after)

abbrev lowest : CtrlResult → CtrlResult → CtrlResult
lowest i j =
    if is_zero i
    then j
    else if is_zero j
    then i
    else if i.requeue
    then i
    else if j.requeue
    then j
    else if lt_int i.requeue_after j.requeue_after
    then i
    else j

abbrev pub first_aggregates : Aggregates
first_aggregates = record {
  new_aggregate = first_error;
  lowest_nonzero = lowest;
  new_aggregate-nil = refl;
  new_aggregate-cons = λ e es. refl;
  lowest_nonzero-zero = λ r. refl;
}
