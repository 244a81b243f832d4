-- ===== src/AkoUser/Tests.antt =====
-- An AVI Controller without the user, and a cluster that is being deleted.
use load_balancer_operator_f.Prelude.{true, some, [], ◌∷◌, ◌≡◌, refl, ◌⊎◌, index, lookup}
use load_balancer_operator_f.Kube.{status, message, not_found, gone, ok, err, Cluster, status_true}
use load_balancer_operator_f.Kube.Exec.{returns, read, attempt, ◌>>=◌}
use load_balancer_operator_f.Kube.Runs.{Runs, Any}
use load_balancer_operator_f.Api.{AkoDeploymentConfig}
use load_balancer_operator_f.Api.Constants.{avi_resource_cleanup_succeeded_condition}
use load_balancer_operator_f.Samples.{meta_of, legacy, adc_of, no_selector}
use load_balancer_operator_f.Samples.Libraries.{list_conditions}
use load_balancer_operator_f.AkoUser.Permissions.{ako_role_permission_map}
use load_balancer_operator_f.AkoUser.Role.{AtLeast}
use load_balancer_operator_f.AkoUser.Role.Fresh.{ako_role_permission_map-IsOrder}
use load_balancer_operator_f.AkoUser.Account.{
  Answers, user_deleted, secret_deleted, with_prefix, create_or_update_avi_user,
}
use load_balancer_operator_f.AkoUser.Account.Runs.{IsForUser, create_or_update_avi_user-Runs}
use load_balancer_operator_f.AkoUser.Reconcile.{
  empty_secret, announce, reconcile_avi_user_delete, reconcile_avi_user_delete_inner,
  delete_credentials,
}
use load_balancer_operator_f.AkoUser.Reconcile.Cleanup.{
  IsCleaned, MayDelete, reconcile_avi_user_delete-IsCleaned,
}

abbrev newest : AtLeast
newest version other = true

-- No secret, no user and no role exist; every write succeeds.
abbrev empty_controller : Answers
empty_controller = record {
  get_secret = λ k. err (status not_found);
  create_secret = λ s. ok tt;
  update_secret = λ s. ok tt;
  delete_secret = λ s. err (status gone);
  controller_version = ok "30.2.1";
  user_by_name = λ name. err (message "no user");
  user_create = λ u. ok u;
  user_update = λ u. ok u;
  user_delete = λ name. ok tt;
  tenant_url = λ name. ok (some "https://avi/api/tenant/admin");
  role_by_name = λ name. err (message "no role");
  role_create = λ r. ok r;
  role_update = λ r. ok r;
  is_user_missing = λ e. true;
  is_role_missing = λ e. true;
  generated_password = "Aa1!Aa1!Aa";
}

abbrev obj : AkoDeploymentConfig
obj = adc_of "install-ako-for-all" no_selector

abbrev deleting : Cluster
deleting = record legacy {
  metadata = record (meta_of "default" "wc") { deleting = true };
  conditions =
      record { kind = avi_resource_cleanup_succeeded_condition; status = status_true; text = "" }
      ∷ [];
}

with_prefix_test : (with_prefix "30.2.1" ≡ "v30.2.1") × (with_prefix "v30.2.1" ≡ "v30.2.1")
unfolding with_prefix
with_prefix_test = (refl, refl)

-- A secret that is already gone is deleted as the zero value, after a user with the empty name.
deletes_nobody :
    (reconcile_avi_user_delete newest ako_role_permission_map list_conditions empty_controller
      deleting obj).1
    ≡ (user_deleted "" ∷ secret_deleted empty_secret ∷ [], returns tt)
unfolding reconcile_avi_user_delete reconcile_avi_user_delete_inner delete_credentials read attempt
    ◌>>=◌ index lookup
deletes_nobody = refl

create_or_update_avi_user-Runs_example :
    Runs (IsForUser newest (with_prefix "30.2.1") "wc-default-ako-user" "secret") Any (
      create_or_update_avi_user newest ako_role_permission_map empty_controller
        "wc-default-ako-user" "secret" "")
create_or_update_avi_user-Runs_example =
    create_or_update_avi_user-Runs newest ako_role_permission_map empty_controller "30.2.1"
      "wc-default-ako-user" "secret" "" ako_role_permission_map-IsOrder refl

reconcile_avi_user_delete-IsCleaned_example :
    let r =
      reconcile_avi_user_delete newest ako_role_permission_map list_conditions empty_controller
        deleting obj in
    IsCleaned newest ako_role_permission_map list_conditions empty_controller
      (announce newest ako_role_permission_map list_conditions empty_controller deleting)
      r.0
      r.1.1
    × ((r.1.0 ≡ [])
        ⊎ MayDelete newest ako_role_permission_map list_conditions empty_controller deleting obj)
reconcile_avi_user_delete-IsCleaned_example =
    reconcile_avi_user_delete-IsCleaned newest ako_role_permission_map list_conditions
      empty_controller obj deleting refl
