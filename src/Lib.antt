-- ===== src/Lib.antt =====
-- The load balancer operator for Kubernetes: a model of its core in a cubical type theory.
--
-- The operator watches AKODeploymentConfig objects and Cluster API clusters. For each configuration it
-- selects clusters (pkg/ako-operator), prepares networks and a user in the AVI Controller
-- (controllers/akodeploymentconfig), deploys AKO into the clusters, and, where it is the provider of
-- the control plane endpoint, keeps a load balancer service and its Endpoints for the control plane
-- (pkg/haprovider).
--
-- Files and the code that they model:
--   Prelude.antt           names, lists, maps and Boolean tests that all files share
--   Go.antt                the parts of Go's standard library that the code uses: text, strconv, JSON
--                          values and the package net
--   Kube.antt              the Kubernetes and Cluster API objects; Kube/Interfaces.antt has what the code
--                          asks of libraries, with their documented laws; Kube/Exec.antt has the runs of
--                          handlers, as the writes that they attempt and how they end; Kube/Runs.antt
--                          proves properties of runs
--   Api.antt               api/v1alpha1/akodeploymentconfig_types.go and constants.go
--   IpFamily.antt          pkg/utils/get_ipfamily.go, and ValidateClusterIpFamily of
--                          controllers/akodeploymentconfig/cluster/cluster_controller_addon_secret.go
--   AkoOperator.antt       pkg/ako-operator/lib.go
--   Mapping.antt           pkg/ako-operator/akodeploymentconfig_cluster_mapping_helper.go
--   AviInit.antt           initAVI of
--                          controllers/akodeploymentconfig/akodeploymentconfig_controller_avi_phase.go
--   AviNetwork.antt        EnsureAviNetwork and what it calls, of
--                          controllers/akodeploymentconfig/akodeploymentconfig_controller_avi_phase.go
--   HaProvider.antt        pkg/haprovider/haprovider.go: the edits of the Endpoints, and in
--                          HaProvider/Handlers.antt the handlers
--   AkoUser.antt           controllers/akodeploymentconfig/user: the permissions of the role, its sync, the
--                          account and its secret
--   ClusterController.antt controllers/cluster/cluster_controller.go: Reconcile
--   ClusterCleanup.antt    controllers/akodeploymentconfig/cluster/cluster_controller.go, pkg/ako/ako.go, and
--                          the finalizers of a cluster in
--                          controllers/akodeploymentconfig/akodeploymentconfig_controller_cluster_phase.go
--   Phases.antt            controllers/akodeploymentconfig/phases/phases.go
--   MachineController.antt controllers/machine/machine_controller.go: the pre-terminate hook
--   Webhook.antt           api/v1alpha1/akodeploymentconfig_webhook.go; Webhook/Admission.antt has the handlers
--   AkoValues.antt         pkg/ako/values.go: the values of the add-on, with its settings in child modules
--   AddonSecret.antt       controllers/akodeploymentconfig/cluster/cluster_controller_addon_secret.go: the secret of
--                          the add-on; AddonSecret/Bootstrap.antt has the patch of the ClusterBootstrap
--   NetProvider.antt       pkg/netprovider/network_provider.go
--   Reconciler.antt        the state of the AKODeploymentConfig reconciler (the object, the client and the writes),
--                          the answers of the servers, and how handlers become phases
--   AviPhase.antt          the phases of
--                          controllers/akodeploymentconfig/akodeploymentconfig_controller_avi_phase.go; it composes
--                          AviInit, AviNetwork, NetProvider, AkoUser and Phases
--   DeploymentConfig.antt  controllers/akodeploymentconfig/akodeploymentconfig_controller.go, with the lists of
--                          phases of akodeploymentconfig_controller_cluster_phase.go: a pass composes AviPhase,
--                          AddonSecret and ClusterCleanup
--   Requests.antt          pkg/handlers, and serviceToCluster of controllers/cluster/cluster_controller.go
--   Password.antt          pkg/utils/password_generator.go
--   AviClient.antt         pkg/aviclient/client.go: how a client is made, and the lookup of an object by name
--   Samples.antt           objects and instances of the interfaces for the tests and the witnesses
--
-- Correspondence. A Go function f or method F is the definition f in snake case. A Go map is an
-- association list, a nil slice that the code tells apart from an empty one is `none`, and a value beside
-- an error is a pair. A function that changes an object returns the changed object. What the API server,
-- the AVI Controller or a resolver answers is a record of answers; a handler is a run, the list of the
-- writes that it attempts with its outcome: a value, an error or a panic. Log lines are left out. A pass over an AKODeploymentConfig is a function on the state of the
-- reconciler, which also says whether a panic or a mutex that nobody unlocks has ended it; there the answers
-- may depend on the writes before.
--
-- Loops are recursion on the list that they visit or on the count of what is left, so no fuel is used.
-- Where Go visits a map, the order of the visit is an argument, and the theorems hold for every order;
-- sort.Slice is an argument too, with the law that it permutes the slice.
--
-- Not modelled: the wiring of the process and the controllers (main.go, controllers/controllers.go and the
-- functions SetupWithManager), the methods of pkg/aviclient/client.go that pass their arguments on to the
-- AVI SDK, the generated deep copies, tests and end-to-end support.
pub mod Prelude
pub mod Go
pub mod Kube
pub mod Samples
pub mod Api
pub mod IpFamily
pub mod AkoOperator
pub mod Mapping
pub mod AkoValues
pub mod AddonSecret
pub mod AviInit
pub mod NetProvider
pub mod Password
pub mod AviClient
pub mod Requests
pub mod Reconciler
pub mod AviPhase
pub mod DeploymentConfig
pub mod AviNetwork
pub mod HaProvider
pub mod AkoUser
pub mod ClusterCleanup
pub mod ClusterController
pub mod Phases
pub mod Webhook
pub mod MachineController
