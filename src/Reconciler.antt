-- ===== src/Reconciler.antt =====
-- The state that the phases of an AKODeploymentConfig change, the writes and the answers of the servers, and how the
-- handlers of clusters become phases: AKODeploymentConfigReconciler of
-- controllers/akodeploymentconfig/akodeploymentconfig_controller.go.
use load_balancer_operator_f.Prelude.{String, Option, none, some, List, [], ◌∷◌, ◌++◌, map, Dict}
use load_balancer_operator_f.Kube.{Error, Result, Cluster, Selector, CtrlResult, done}
use load_balancer_operator_f.Kube.Exec.{returns, fails, panics, Exec}
use load_balancer_operator_f.Kube.Interfaces.{Finalizers, Conditions, Env, Aggregates, Selectors}
use load_balancer_operator_f.Api.{AkoDeploymentConfig}
use load_balancer_operator_f.Phases.{Phase}
use load_balancer_operator_f.AviInit.{AviState, Answers as InitAnswers}
use load_balancer_operator_f.AviNetwork.{Network, Sorter}
use load_balancer_operator_f.NetProvider.{Write as IpamWrite, Answers as IpamAnswers}
use load_balancer_operator_f.AkoUser.Role.{AtLeast}
use load_balancer_operator_f.AkoUser.Account.{Write as UserWrite, Answers as UserAnswers}
use load_balancer_operator_f.AddonSecret.{Write as AddonWrite, Answers as AddonAnswers}
use load_balancer_operator_f.ClusterCleanup.{Write as CleanupWrite, Answers as CleanupAnswers}

-- akov1beta1.AviInfraSettingVipNetwork
pub record InfraVipNetwork : Type 0 where
  pub network_name : String
  pub cidr : String
  pub v6_cidr : String

-- akov1beta1.AviInfraSettingSpec, in the fields that the code sets
pub record InfraSpec : Type 0 where
  pub se_group : String
  pub vip_networks : List InfraVipNetwork
  pub shard_size : String
  pub t1_lr : Option String

pub record AviInfraSetting : Type 0 where
  pub name : String
  pub spec : InfraSpec

pub data Write : Type 0 where
  network_updated : Network → Write
  ipam : IpamWrite → Write
  infra_created infra_updated infra_deleted : AviInfraSetting → Write
  of_user : UserWrite → Write
  of_addon : AddonWrite → Write
  of_cleanup : CleanupWrite → Write
  cluster_patched : Cluster → Write

-- A run that will not go on.
pub data Halt : Type 0 where
  waits_for_ever has_panicked : Halt

pub record State : Type 0 where
  pub obj : AkoDeploymentConfig
  pub avi : AviState
  pub writes : List Write
  pub halt : Option Halt

-- What the servers answer after some writes.
pub record Answers : Type 0 where
  pub network_update : Network → Option Error
  pub usable : IpamAnswers
  pub get_infra : String → Result AviInfraSetting
  pub create_infra : AviInfraSetting → Option Error
  pub update_infra : AviInfraSetting → Option Error
  pub delete_infra : AviInfraSetting → Option Error
  pub list_clusters : Selector → Result (List Cluster)
  pub get_default_adc : Result AkoDeploymentConfig
  pub user : UserAnswers
  pub addon : AddonAnswers
  pub cleanup : Cluster → CleanupAnswers
  pub patch_cluster : Cluster → Option Error

-- The libraries and the servers.
pub record Server : Type 0 where
  pub env : Env
  pub cond : Conditions
  pub fin : Finalizers
  pub sel : Selectors
  pub agg : Aggregates
  pub at_least : AtLeast
  pub order : Dict String
  pub sorter : Sorter
  pub init : InitAnswers
  pub new_helper : Cluster → Option Error
  pub answers : List Write → Answers

abbrev pub written : State → List Write → State
written s ws = record s { writes = s.writes ++ ws }

abbrev pub stopped : State → Halt → State × CtrlResult × Option Error
stopped s h = (record s { halt = some h }, done, none)

-- A write, with the error of the server as the error of the phase.
abbrev pub wrote : State → Write → Option Error → State × CtrlResult × Option Error
wrote s w o = (written s (w ∷ []), done, o)

abbrev pub of_exec :
    {W A : Type 0}
    → (W → Write)
    → (A → CtrlResult)
    → State
    → Exec W A
    → State × CtrlResult × Option Error
of_exec f g s (ws, returns a) = (written s (map f ws), g a, none)
of_exec f g s (ws, fails e) = (written s (map f ws), done, some e)
of_exec f g s (ws, panics) = stopped (written s (map f ws)) has_panicked

abbrev pub by_halt : {S : Type 0} → Option Halt → Phase S → Phase S
by_halt none phase s = phase s
by_halt (some h) phase s = (s, done, none)

abbrev pub guarded : Phase State → Phase State
guarded phase s = by_halt s.halt phase s

abbrev pub guarded_in_cluster : Phase (State × Cluster) → Phase (State × Cluster)
guarded_in_cluster phase (s, cluster) = by_halt s.halt phase (s, cluster)

-- A handler of a cluster as a phase.
abbrev pub of_handler :
    {W A : Type 0}
    → (W → Write)
    → (A → CtrlResult)
    → (State → Cluster → Cluster × Exec W A)
    → Phase (State × Cluster)
of_handler f g handler (s, cluster) =
    let h = handler s cluster in let r = of_exec f g s h.1 in ((r.0, h.0), r.1, r.2)
