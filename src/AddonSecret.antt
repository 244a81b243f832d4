-- ===== src/AddonSecret.antt =====
-- controllers/akodeploymentconfig/cluster/cluster_controller_addon_secret.go: the secret with the values of
-- the AKO add-on of a cluster. ValidateClusterIpFamily is in IpFamily.antt.
pub mod Bootstrap
pub mod Package
pub mod Runs
pub mod Deletion
mod Tests
use load_balancer_operator_f.Prelude.{
  String, ◌⧺◌, Bool, true, false, not, ◌&&◌, Option, none, some, List, [], ◌∷◌, Dict, lookup, index,
  ◌==◌, if◌then◌else◌,
}
use load_balancer_operator_f.Kube.{
  Error, Result, ok, err, is_not_found, NamespacedName, Condition, status_false, Cluster,
}
use load_balancer_operator_f.Kube.Interfaces.{Env, Conditions}
use load_balancer_operator_f.Kube.Exec.{Exec, pure, throw, read, check, attempt, ◌>>=◌}
use load_balancer_operator_f.Api.{AkoDeploymentConfig}
use load_balancer_operator_f.Api.Constants.{
  tkg_system_namespace, tkg_addon_annotation_key, tkg_add_on_label_addon_name_key,
  tkg_add_on_label_cluster_name_key, tkg_add_on_label_clusterctl_key, tkg_add_on_secret_type,
  tkg_cluster_class_add_on_secret_type, tkg_add_on_secret_data_key, avi_cluster_delete_config_label,
  cluster_ip_family_validation_succeeded_condition, ha_service_name,
}
use load_balancer_operator_f.AkoOperator.{
  is_cluster_class_based_cluster, is_bootstrap_cluster, is_control_plane_vip_provider,
}
use load_balancer_operator_f.IpFamily.{validate_cluster_ip_family}
use load_balancer_operator_f.AkoUser.Account.{avi_certificate_key}
use load_balancer_operator_f.AkoValues.{Values, new_values, ytt_yaml}
use load_balancer_operator_f.AddonSecret.Bootstrap.{
  ClusterBootstrap, ako_addon_secret_name, get_ako_package_ref_name, with_ako_package,
}

-- corev1.Secret with StringData
pub record AddonSecret : Type 0 where
  pub name : String
  pub namespace : String
  pub annotations : Dict String
  pub labels : Dict String
  pub kind : String
  pub string_data : Dict String

-- What the code asks of the API server and of yaml.Marshal. The secret of the AVI user is given by its
-- data.
pub record Answers : Type 0 where
  pub get_user_secret : NamespacedName → Result (Dict String)
  pub get_service : NamespacedName → Result (Unit {0})
  pub marshal : Values → Result String
  pub get_addon : NamespacedName → Result AddonSecret
  pub create_addon : AddonSecret → Result (Unit {0})
  pub update_addon : AddonSecret → Result (Unit {0})
  pub delete_addon : AddonSecret → Result (Unit {0})
  pub get_bootstrap : NamespacedName → Result ClusterBootstrap
  pub new_helper : ClusterBootstrap → Option Error
  pub patch_bootstrap : ClusterBootstrap → Result (Unit {0})
  pub get_tkr : String → Result (List String)

pub data Write : Type 0 where
  addon_created addon_updated addon_deleted : AddonSecret → Write
  bootstrap_patched : ClusterBootstrap → Write

abbrev pub role_of : Cluster → String
role_of cluster = if cluster.namespace == tkg_system_namespace then "management" else "workload"

abbrev pub is_true_label : Option String → Bool
is_true_label none = false
is_true_label (some v) = v == "true"

abbrev pub asks_deletion : Cluster → Bool
asks_deletion cluster =
    not (cluster.namespace == tkg_system_namespace)
    && is_true_label (lookup avi_cluster_delete_config_label cluster.labels)

-- The values with the role, the credentials and the deletion, before they are printed.
unfoldable pub complete_values : Cluster → Dict String → Values → Values
complete_values cluster contents v = record v {
  config = record v.config {
    tkg_cluster_role = role_of cluster;
    ako_settings = record v.config.ako_settings {
      delete_config = if asks_deletion cluster then "true" else v.config.ako_settings.delete_config;
    };
    avi_credentials = record {
      username = index "username" contents;
      password = index "password" contents;
      certificate_authority_data = index avi_certificate_key contents;
    };
  };
}

abbrev pub secret_type : Cluster → String
secret_type cluster =
    if is_cluster_class_based_cluster cluster
    then tkg_cluster_class_add_on_secret_type
    else tkg_add_on_secret_type

abbrev pub addon_secret_of : Cluster → String → AddonSecret
addon_secret_of cluster text = record {
  name = ako_addon_secret_name cluster;
  namespace = cluster.namespace;
  annotations = (tkg_addon_annotation_key, "networking/load-balancer-and-ingress-service") ∷ [];
  labels =
      (tkg_add_on_label_addon_name_key, "load-balancer-and-ingress-service")
      ∷ (tkg_add_on_label_cluster_name_key, cluster.name)
      ∷ (tkg_add_on_label_clusterctl_key, "")
      ∷ [];
  kind = secret_type cluster;
  string_data = (tkg_add_on_secret_data_key, text) ∷ [];
}

abbrev pub avi_user_secret_name : Cluster → String
avi_user_secret_name cluster = cluster.name ⧺ "-avi-credentials"

abbrev pub key_of : Cluster → String → NamespacedName
key_of cluster name = record { namespace = cluster.namespace; name = name }

abbrev pub with_secret : Cluster → Result String → Result AddonSecret
with_secret cluster (ok text) = ok (addon_secret_of cluster text)
with_secret cluster (err e) = err e

module _ (env : Env) (cond : Conditions) (ans : Answers) where
  abbrev pub yaml_of : Cluster → Dict String → Result Values → Result String
  yaml_of cluster contents (err e) = err e
  yaml_of cluster contents (ok v) =
      ytt_yaml cluster (ans.marshal (complete_values cluster contents v))

  unfoldable pub ako_addon_secret_data_yaml :
      Cluster → AkoDeploymentConfig → Dict String → Result String
  ako_addon_secret_data_yaml cluster obj contents =
      yaml_of cluster contents (new_values (some obj) (cluster.namespace ⧺ "-" ⧺ cluster.name))

  unfoldable pub create_ako_addon_secret :
      Cluster → AkoDeploymentConfig → Dict String → Result AddonSecret
  create_ako_addon_secret cluster obj contents =
      with_secret cluster (ako_addon_secret_data_yaml cluster obj contents)

  unfoldable pub patch_ako_package_ref_to_cluster_bootstrap : Cluster → Exec Write Unit
  patch_ako_package_ref_to_cluster_bootstrap cluster = do
    cb ← read (ans.get_bootstrap (key_of cluster cluster.name))
    _ ← check (ans.new_helper cb)
    ref_name ← read (get_ako_package_ref_name ans.get_tkr cb)
    attempt (bootstrap_patched (with_ako_package cluster cb ref_name))
        (ans.patch_bootstrap (with_ako_package cluster cb ref_name))

  abbrev pub patch_if : Bool → Cluster → Exec Write Unit
  patch_if true cluster = patch_ako_package_ref_to_cluster_bootstrap cluster
  patch_if false cluster = pure tt

  unfoldable pub update_and_patch : Cluster → AddonSecret → Exec Write Unit
  update_and_patch cluster secret = do
    _ ← attempt (addon_updated secret) (ans.update_addon secret)
    patch_if (is_cluster_class_based_cluster cluster && not (is_bootstrap_cluster env)) cluster

  -- A secret that is created is not followed by the patch of the ClusterBootstrap.
  abbrev pub store_secret : Cluster → AddonSecret → Result AddonSecret → Exec Write Unit
  store_secret cluster secret (ok old) = update_and_patch cluster secret
  store_secret cluster secret (err e) =
      if is_not_found e then attempt (addon_created secret) (ans.create_addon secret) else throw e

  unfoldable pub write_secret : Cluster → AkoDeploymentConfig → Dict String → Exec Write Unit
  write_secret cluster obj contents = do
    secret ← read (create_ako_addon_secret cluster obj contents)
    store_secret cluster secret (ans.get_addon (key_of cluster (ako_addon_secret_name cluster)))

  abbrev pub refused : Cluster → Cluster
  refused cluster = record cluster {
    conditions = cond.set cluster.conditions (record {
      kind = cluster_ip_family_validation_succeeded_condition;
      status = status_false;
      text =
          "cluster " ⧺ cluster.namespace ⧺ "-" ⧺ cluster.name
          ⧺ "'s ip family is not allowed, stop deploying AKO into cluster " ⧺ cluster.namespace
          ⧺ "-" ⧺ cluster.name;
    });
  }

  -- The error of ValidateClusterIpFamily.
  abbrev pub when_valid :
      Cluster → AkoDeploymentConfig → Dict String → Option Error → Cluster × Exec Write Unit
  when_valid cluster obj contents (some e) = (refused cluster, pure tt)
  when_valid cluster obj contents none = (cluster, write_secret cluster obj contents)

  abbrev pub service_key : Cluster → NamespacedName
  service_key cluster = record {
    namespace = tkg_system_namespace;
    name = cluster.namespace ⧺ "-" ⧺ cluster.name ⧺ "-" ⧺ ha_service_name;
  }

  -- The service of the control plane has to be there first in the management cluster.
  abbrev pub service_ready : Cluster → Bool → Result (Unit {0})
  service_ready cluster is_vip =
      if is_vip && cluster.namespace == tkg_system_namespace
      then ans.get_service (service_key cluster)
      else ok tt

  abbrev pub after_service :
      Cluster
      → AkoDeploymentConfig
      → Dict String
      → Bool
      → Result (Unit {0})
      → Cluster × Exec Write Unit
  after_service cluster obj contents is_vip (err e) = (cluster, throw e)
  after_service cluster obj contents is_vip (ok u) =
      when_valid cluster obj contents (validate_cluster_ip_family cluster obj is_vip)

  abbrev pub when_provider :
      Cluster → AkoDeploymentConfig → Dict String → Bool × Option Error → Cluster × Exec Write Unit
  when_provider cluster obj contents (is_vip, some e) = (cluster, throw e)
  when_provider cluster obj contents (is_vip, none) =
      after_service cluster obj contents is_vip (service_ready cluster is_vip)

  abbrev pub with_user_secret :
      Cluster → AkoDeploymentConfig → Result (Dict String) → Cluster × Exec Write Unit
  with_user_secret cluster obj (err e) = (cluster, throw e)
  with_user_secret cluster obj (ok contents) =
      when_provider cluster obj contents (is_control_plane_vip_provider env cluster)

  -- The cluster is changed in place, so it comes beside the run. The result is always empty.
  unfoldable pub reconcile_addon_secret : Cluster → AkoDeploymentConfig → Cluster × Exec Write Unit
  reconcile_addon_secret cluster obj =
      with_user_secret cluster obj
        (ans.get_user_secret (key_of cluster (avi_user_secret_name cluster)))

  abbrev pub delete_found : Result AddonSecret → Exec Write Unit
  delete_found (ok secret) = attempt (addon_deleted secret) (ans.delete_addon secret)
  delete_found (err e) = if is_not_found e then pure tt else throw e

  unfoldable pub reconcile_addon_secret_delete : Cluster → Exec Write Unit
  reconcile_addon_secret_delete cluster =
      delete_found (ans.get_addon (key_of cluster (ako_addon_secret_name cluster)))
