-- ===== src/Kube.antt =====
-- The Kubernetes and Cluster API objects, in the fields that the operator reads or writes, and Go's
-- errors. They belong to libraries outside the repository, so only their data is given here: what
-- those libraries compute is a parameter, in the interfaces of Kube/Interfaces.antt.
pub mod Interfaces
pub mod Exec
pub mod Runs
use load_balancer_operator_f.Prelude.{String, Bool, true, false, Option, List, Dict}
use load_balancer_operator_f.Go.Int.{ℤ}
use load_balancer_operator_f.Go.Json.{Json, JsonError}

-- Why an API call failed, as the package apierrors tells it apart.
pub data Reason : Type 0 where
  not_found already_exists gone other_reason : Reason

-- Go's error values: an API status, an error with a message, a JSON error, and an error wrapped
-- with a message.
pub data Error : Type 0 where
  status : Reason → Error
  message : String → Error
  json : JsonError → Error
  wrap : String → Error → Error

abbrev pub is_not_found : Error → Bool
is_not_found (status not_found) = true
is_not_found _ = false

abbrev pub is_already_exists : Error → Bool
is_already_exists (status already_exists) = true
is_already_exists _ = false

abbrev pub is_gone : Error → Bool
is_gone (status gone) = true
is_gone _ = false

-- A pair (value, error) of which Go's callers read one half.
pub data Result {ℓ} (A : Type ℓ) : Type ℓ where
  ok : A → Result A
  err : Error → Result A

infixl 5 ◌>>=◌ ◌>>◌
abbrev pub ◌>>=◌ {ℓ κ} : {A : Type ℓ} {B : Type κ} → Result A → (A → Result B) → Result B
ok a >>= f = f a
err e >>= f = err e

abbrev pub ◌>>◌ {ℓ κ} : {A : Type ℓ} {B : Type κ} → Result A → Result B → Result B
m >> k = m >>= λ _. k

pub record NamespacedName : Type 0 where
  pub namespace : String
  pub name : String

pub record ObjectMeta : Type 0 where
  pub name : String
  pub namespace : String
  pub uid : String
  pub labels : Dict String
  pub annotations : Dict String
  pub finalizers : List String
  -- the deletion timestamp is set
  pub deleting : Bool

pub data ConditionStatus : Type 0 where
  status_true status_false status_unknown : ConditionStatus

pub record Condition : Type 0 where
  pub kind : String
  pub status : ConditionStatus
  pub text : String

pub record ClusterVariable : Type 0 where
  pub name : String
  pub value : Json

-- spec.clusterNetwork; an absent block of ranges is `none`
pub record ClusterNetwork : Type 0 where
  pub pods : Option (List String)
  pub services : Option (List String)

pub record Cluster : Type 0 where
  pub metadata : ObjectMeta
  pub open metadata use *
  pub kind : String
  pub api_version : String
  -- spec.topology.variables; `none` where spec.topology is nil
  pub topology : Option (List ClusterVariable)
  pub host : String
  pub port : ℤ
  pub network : Option ClusterNetwork
  pub conditions : List Condition

pub data AddressType : Type 0 where
  external_ip internal_ip hostname other_address : AddressType

pub record MachineAddress : Type 0 where
  pub kind : AddressType
  pub address : String

pub record Machine : Type 0 where
  pub metadata : ObjectMeta
  pub open metadata use *
  pub cluster_name : String
  pub addresses : List MachineAddress

-- metav1.LabelSelector
pub record Requirement : Type 0 where
  pub key : String
  pub operator : String
  pub values : List String

pub record LabelSelector : Type 0 where
  pub match_labels : Dict String
  pub match_expressions : List Requirement

-- What the operator asks of a labels.Selector.
pub record Selector : Type 0 where
  pub empty : Bool
  pub matches : Dict String → Bool

-- ctrl.Result; the delay is in nanoseconds
pub record CtrlResult : Type 0 where
  pub requeue : Bool
  pub requeue_after : ℤ

abbrev pub done : CtrlResult
done = record { requeue = false; requeue_after = ℤ.pos 0 }
