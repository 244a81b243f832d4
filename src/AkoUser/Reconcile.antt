-- ===== src/AkoUser/Reconcile.antt =====
-- The reconciliation of the secret of the AVI user, and the cleanup of a cluster that is being
-- deleted, of controllers/akodeploymentconfig/user/user_controller.go.
pub mod Cleanup
use load_balancer_operator_f.Prelude.{
  String, Bool, true, false, Option, none, some, List, [], ◌∷◌, Dict, insert, index, ◌==◌, ◌⧺◌,
  if◌then◌else◌,
}
use load_balancer_operator_f.Kube.{
  Error, message, Result, ok, err, is_not_found, is_already_exists, is_gone, NamespacedName,
  Cluster,
}
use load_balancer_operator_f.Kube.Exec.{Outcome, returns, Exec, pure, throw, read, attempt, ◌>>=◌}
use load_balancer_operator_f.Kube.Interfaces.{Conditions}
use load_balancer_operator_f.Api.{AkoDeploymentConfig, SecretRef}
use load_balancer_operator_f.Api.Constants.{
  tkg_system_namespace, avi_resource_cleanup_reason, avi_resource_cleanup_succeeded_condition,
  avi_user_cleanup_succeeded_condition,
}
use load_balancer_operator_f.AkoUser.Role.{AtLeast}
use load_balancer_operator_f.AkoUser.Account.{
  Secret, Answers, Write, secret_created, secret_updated, secret_deleted, user_deleted,
  avi_certificate_key, create_or_update_avi_user,
}

unfoldable pub mc_avi_secret_name : String → String
mc_avi_secret_name cluster_name = cluster_name ⧺ "-" ⧺ "avi-credentials"

unfoldable pub create_avi_user_secret :
    String → String → String → String → String → AkoDeploymentConfig → Bool → Secret
create_avi_user_secret name namespace username password avi_ca obj is_workload_cluster = record {
  name = name;
  namespace = namespace;
  controller = if is_workload_cluster then none else some (obj.name, obj.uid);
  contents = ("username", username) ∷ ("password", password) ∷ (avi_certificate_key, avi_ca) ∷ [];
}

abbrev pub secret_key : SecretRef → NamespacedName
secret_key ref = record { namespace = ref.namespace; name = ref.name }

abbrev pub empty_secret : Secret
empty_secret = record { name = ""; namespace = ""; controller = none; contents = [] }

module _ (at_least : AtLeast) (order : Dict String) (cond : Conditions) (ans : Answers) where
  abbrev pub mark_cleaned : Cluster → Cluster
  mark_cleaned cluster = record cluster {
    conditions = cond.mark_true cluster.conditions avi_user_cleanup_succeeded_condition;
  }

  -- The secret, or the zero value where it is already gone.
  abbrev pub secret_or_zero : Result Secret → Result Secret
  secret_or_zero (ok s) = ok s
  secret_or_zero (err e) = if is_not_found e then ok empty_secret else err e

  abbrev pub unless_gone : Result (Unit {0}) → Result (Unit {0})
  unless_gone (ok u) = ok u
  unless_gone (err e) = if is_gone e then ok tt else err e

  -- The user and its secret are deleted.
  unfoldable pub delete_credentials : Cluster → Exec Write Unit
  delete_credentials cluster = do
    secret ← read (
        secret_or_zero (
          ans.get_secret
            (record { namespace = cluster.namespace; name = mc_avi_secret_name cluster.name })))
    let username = index "username" secret.contents
    _ ← attempt (user_deleted username) (ans.user_delete username)
    attempt (secret_deleted secret) (unless_gone (ans.delete_secret secret))

  abbrev pub marked_after : Cluster → Outcome (Unit {0}) → Cluster
  marked_after cluster (returns u) = mark_cleaned cluster
  marked_after cluster _ = cluster

  abbrev pub clean_credentials : Cluster → Option SecretRef → Cluster × Exec Write Unit
  clean_credentials cluster (some ref) = (mark_cleaned cluster, pure tt)
  clean_credentials cluster none =
      let run = delete_credentials cluster in (marked_after cluster run.1, run)

  -- The cluster that the caller patches, and the run.
  unfoldable pub reconcile_avi_user_delete_inner :
      Cluster → AkoDeploymentConfig → Cluster × Exec Write Unit
  reconcile_avi_user_delete_inner cluster obj =
      if cluster.namespace == tkg_system_namespace
      then (mark_cleaned cluster, pure tt)
      else if cond.is_true cluster.conditions avi_user_cleanup_succeeded_condition
      then (cluster, pure tt)
      else clean_credentials cluster obj.spec.workload_credential_ref

  -- A cluster without the condition gets it, with status False.
  abbrev pub announce : Cluster → Cluster
  announce cluster =
      if cond.has cluster.conditions avi_user_cleanup_succeeded_condition
      then cluster
      else record cluster {
        conditions =
            cond.mark_false cluster.conditions avi_user_cleanup_succeeded_condition
              avi_resource_cleanup_reason;
      }

  abbrev pub delete_announced : Cluster → AkoDeploymentConfig → Cluster × Exec Write Unit
  delete_announced cluster obj =
      if cond.is_true cluster.conditions avi_resource_cleanup_succeeded_condition
      then reconcile_avi_user_delete_inner cluster obj
      else (
        cluster,
        throw (
            message (
              "requeue to wait AVI resource deletion for cluster: " ⧺ cluster.namespace ⧺ "/"
              ⧺ cluster.name)),
      )

  unfoldable pub reconcile_avi_user_delete :
      Cluster → AkoDeploymentConfig → Cluster × Exec Write Unit
  reconcile_avi_user_delete cluster obj =
      if cluster.deleting then delete_announced (announce cluster) obj else (cluster, pure tt)

  abbrev pub created_or_updated : Secret → Result (Unit {0}) → Exec Write Unit
  created_or_updated secret (ok u) = (secret_created secret ∷ [], returns u)
  created_or_updated secret (err e) =
      if is_already_exists e
      then (
        secret_created secret ∷ secret_updated secret ∷ [],
        (attempt (secret_updated secret) (ans.update_secret secret)).1,
      )
      else attempt (secret_created secret) (err e)

  abbrev pub admin_copy : Cluster → Secret → Secret → Secret
  admin_copy cluster admin avi_controller_ca = record {
    name = mc_avi_secret_name cluster.name;
    namespace = cluster.namespace;
    controller = none;
    contents =
        ("username", index "username" admin.contents)
        ∷ ("password", index "password" admin.contents)
        ∷ (avi_certificate_key, index avi_certificate_key avi_controller_ca.contents)
        ∷ [];
  }

  unfoldable pub deploy_management_cluster_secret :
      Cluster → AkoDeploymentConfig → Secret → Exec Write Unit
  deploy_management_cluster_secret cluster obj avi_controller_ca = do
    admin ← read (ans.get_secret (secret_key obj.spec.admin_credential_ref))
    let secret = admin_copy cluster admin avi_controller_ca
    created_or_updated secret (ans.create_secret secret)

  abbrev pub new_secret : Cluster → AkoDeploymentConfig → String → Secret
  new_secret cluster obj avi_ca =
      create_avi_user_secret (mc_avi_secret_name cluster.name) cluster.namespace
        (cluster.name ⧺ "-" ⧺ cluster.namespace ⧺ "-ako-user") ans.generated_password avi_ca obj
        false

  unfoldable pub store_new_secret : Secret → Exec Write Secret
  store_new_secret secret = do
    _ ← attempt (secret_created secret) (ans.create_secret secret)
    pure secret

  -- The secret in the management cluster is the source of truth for the password.
  abbrev pub secret_or_new :
      Cluster → AkoDeploymentConfig → String → Result Secret → Exec Write Secret
  secret_or_new cluster obj avi_ca (ok s) = do
    let secret = record s { contents = insert avi_certificate_key avi_ca s.contents }
    _ ← attempt (secret_updated secret) (ans.update_secret secret)
    pure secret
  secret_or_new cluster obj avi_ca (err e) =
      if is_not_found e then store_new_secret (new_secret cluster obj avi_ca) else throw e

  unfoldable pub use_managed_credentials : Cluster → AkoDeploymentConfig → String → Exec Write Unit
  use_managed_credentials cluster obj avi_ca = do
    secret ← secret_or_new cluster obj avi_ca (
        ans.get_secret
          (record { namespace = cluster.namespace; name = mc_avi_secret_name cluster.name }))
    create_or_update_avi_user at_least order ans (index "username" secret.contents)
        (index "password" secret.contents) obj.spec.tenant.name

  abbrev pub use_credentials :
      Cluster → AkoDeploymentConfig → String → Option SecretRef → Exec Write Unit
  use_credentials cluster obj avi_ca (some ref) = do
    _ ← read (ans.get_secret (secret_key ref))
    pure tt
  use_credentials cluster obj avi_ca none = use_managed_credentials cluster obj avi_ca

  abbrev pub deploy_credentials : Cluster → AkoDeploymentConfig → Secret → Exec Write Unit
  deploy_credentials cluster obj ca =
      if cluster.namespace == tkg_system_namespace
      then deploy_management_cluster_secret cluster obj ca
      else use_credentials cluster obj (index avi_certificate_key ca.contents)
          obj.spec.workload_credential_ref

  unfoldable pub reconcile_avi_user_normal : AkoDeploymentConfig → Cluster → Exec Write Unit
  reconcile_avi_user_normal obj cluster = do
    ca ← read (ans.get_secret (secret_key obj.spec.certificate_authority_ref))
    deploy_credentials cluster obj ca

  unfoldable pub reconcile_avi_user : Cluster → AkoDeploymentConfig → Cluster × Exec Write Unit
  reconcile_avi_user cluster obj =
      if cluster.deleting
      then reconcile_avi_user_delete cluster obj
      else (cluster, reconcile_avi_user_normal obj cluster)
