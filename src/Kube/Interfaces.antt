-- ===== src/Kube/Interfaces.antt =====
-- What the operator calls in libraries outside the repository: finalizer and condition helpers,
-- label selectors, the aggregation of errors and of reconcile results. Each interface is a record of
-- operations with the documented laws that the theorems rely on.
use load_balancer_operator_f.Prelude.{
  String, Bool, true, false, Option, none, List, [], ◌∷◌, ◌≡◌, ◌≢◌, is_some,
}
use load_balancer_operator_f.Kube.{
  status_false, Error, Result, Condition, CtrlResult, LabelSelector, Selector, done,
}

-- controllerutil: ContainsFinalizer, AddFinalizer and RemoveFinalizer.
pub record Finalizers : Type 0 where
  pub contains : List String → String → Bool
  pub add : List String → String → List String
  pub remove : List String → String → List String
  pub contains-add_self : (fs : List String) (f : String) → contains (add fs f) f ≡ true
  pub contains-add_ne :
      (fs : List String) (f g : String) → f ≢ g → contains (add fs f) g ≡ contains fs g
  pub contains-remove_self : (fs : List String) (f : String) → contains (remove fs f) f ≡ false
  pub contains-remove_ne :
      (fs : List String) (f g : String) → f ≢ g → contains (remove fs f) g ≡ contains fs g

-- The package conditions of Cluster API.
pub record Conditions : Type 0 where
  pub has : List Condition → String → Bool
  pub is_true : List Condition → String → Bool
  pub is_false : List Condition → String → Bool
  pub mark_true : List Condition → String → List Condition
  -- the last argument is the reason
  pub mark_false : List Condition → String → String → List Condition
  pub set : List Condition → Condition → List Condition
  pub is_false-set :
      (cs : List Condition) (c : Condition)
      → c.status ≡ status_false
      → is_false (set cs c) c.kind ≡ true
  pub is_true-mark_true : (cs : List Condition) (k : String) → is_true (mark_true cs k) k ≡ true
  pub is_true-mark_false :
      (cs : List Condition) (k r : String) → is_true (mark_false cs k r) k ≡ false
  pub has-mark_false : (cs : List Condition) (k r : String) → has (mark_false cs k r) k ≡ true
  pub is_true-mark_true_ne :
      (cs : List Condition) (k j : String) → k ≢ j → is_true (mark_true cs k) j ≡ is_true cs j
  pub is_true-mark_false_ne :
      (cs : List Condition) (k j r : String) → k ≢ j → is_true (mark_false cs k r) j ≡ is_true cs j

-- metav1.LabelSelectorAsSelector, and LabelSelector.String.
pub record Selectors : Type 0 where
  pub as_selector : LabelSelector → Result Selector
  pub text : LabelSelector → String

-- kerrors.NewAggregate and util.LowestNonZeroResult.
pub record Aggregates : Type 0 where
  pub new_aggregate : List Error → Option Error
  pub lowest_nonzero : CtrlResult → CtrlResult → CtrlResult
  pub new_aggregate-nil : new_aggregate [] ≡ none
  pub new_aggregate-cons : (e : Error) (es : List Error) → is_some (new_aggregate (e ∷ es)) ≡ true
  pub lowest_nonzero-zero : (r : CtrlResult) → lowest_nonzero done r ≡ r

-- The environment variables of the process.
abbrev pub Env : Type 0
Env = String → Option String
