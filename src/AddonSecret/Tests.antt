-- ===== src/AddonSecret/Tests.antt =====
-- A workload cluster whose add-on secret is there.
use load_balancer_operator_f.Prelude.{insert, index, String, none, [], ◌∷◌, lookup, ◌≡◌, refl}
use load_balancer_operator_f.Go.Text.{contains_text}
use load_balancer_operator_f.AddonSecret.Bootstrap.{
  has_install_name, skip_deletion, ClusterBootstrap, with_ako_package,
}
use load_balancer_operator_f.Kube.{ok, err, status, not_found}
use load_balancer_operator_f.Api.{AkoDeploymentConfig}
use load_balancer_operator_f.Samples.{no_env, classy, adc_of, no_selector}
use load_balancer_operator_f.Samples.Libraries.{list_conditions}
use load_balancer_operator_f.AddonSecret.{Answers, addon_secret_of, reconcile_addon_secret}
use load_balancer_operator_f.AddonSecret.Package.{HasAkoPackage, with_ako_package-HasAkoPackage}
use load_balancer_operator_f.AddonSecret.Runs.{IsReconciled, reconcile_addon_secret-IsReconciled}

abbrev obj : AkoDeploymentConfig
obj = adc_of "install-ako-for-all" no_selector

abbrev ref_name : String
ref_name = "load-balancer-and-ingress-service.tanzu.vmware.com.1.12.2"

abbrev bootstrap : ClusterBootstrap
bootstrap = record {
  annotations = ("run.tanzu.vmware.com/skip-packageinstall-deletion", "antrea") ∷ [];
  additional_packages =
      record { ref_name = "metrics-server.tanzu.vmware.com.0.6.2"; values_from = none }
      ∷ record {
        ref_name = "load-balancer-and-ingress-service.tanzu.vmware.com.1.9.3";
        values_from = none;
      }
      ∷ [];
  resolved_tkr = "v1.28";
}

abbrev server : Answers
server = record {
  get_user_secret = λ k. ok (("username", "u") ∷ ("password", "p") ∷ []);
  get_service = λ k. err (status not_found);
  marshal = λ v. ok "values";
  get_addon = λ k. ok (addon_secret_of classy "old");
  create_addon = λ s. ok tt;
  update_addon = λ s. ok tt;
  delete_addon = λ s. ok tt;
  get_bootstrap = λ k. ok bootstrap;
  new_helper = λ cb. none;
  patch_bootstrap = λ cb. ok tt;
  get_tkr = λ name. ok ("antrea.tanzu.vmware.com.1.11" ∷ ref_name ∷ []);
}

patched_test :
    (with_ako_package classy bootstrap ref_name).annotations
    ≡ (
      "run.tanzu.vmware.com/skip-packageinstall-deletion",
      "antrea,load-balancer-and-ingress-service",
    )
      ∷ []
unfolding with_ako_package skip_deletion has_install_name lookup contains_text index insert
patched_test = refl

reconcile_addon_secret-IsReconciled_example :
    IsReconciled no_env list_conditions server classy obj
      (reconcile_addon_secret no_env list_conditions server classy obj)
reconcile_addon_secret-IsReconciled_example =
    reconcile_addon_secret-IsReconciled no_env list_conditions server classy obj

with_ako_package-HasAkoPackage_example :
    HasAkoPackage classy ref_name bootstrap (with_ako_package classy bootstrap ref_name)
with_ako_package-HasAkoPackage_example =
    with_ako_package-HasAkoPackage classy bootstrap ref_name refl
