-- ===== src/AddonSecret/Bootstrap.antt =====
-- The reference to the AKO package in the ClusterBootstrap of a cluster, of
-- controllers/akodeploymentconfig/cluster/cluster_controller_addon_secret.go.
use text.Mathlib.Text.{starts_with}
use load_balancer_operator_f.Prelude.{
  ℕ, zero, suc, String, ◌⧺◌, Bool, true, false, not, ◌&&◌, Option, none, some, List, [], ◌∷◌, ◌++◌,
  set, Dict, has, index, insert, ◌==◌, if◌then◌else◌,
}
use load_balancer_operator_f.Go.Text.{contains_text}
use load_balancer_operator_f.Kube.{message, Result, ok, err, Cluster}
use load_balancer_operator_f.Api.Constants.{
  ako_cluster_bootstrap_ref_name_prefix, ako_package_install_name,
  tkg_skip_delete_pkgi_annotation_key,
}

-- runv1alpha3.ValuesFrom; the last field says whether Inline or ProviderRef is set
pub record ValuesFrom : Type 0 where
  pub secret_ref : String
  pub others : Bool

pub record ClusterBootstrapPackage : Type 0 where
  pub ref_name : String
  pub values_from : Option ValuesFrom

-- runv1alpha3.ClusterBootstrap, in the fields that the code reads or writes
pub record ClusterBootstrap : Type 0 where
  pub annotations : Dict String
  pub additional_packages : List ClusterBootstrapPackage
  pub resolved_tkr : String

unfoldable pub ako_addon_secret_name : Cluster → String
ako_addon_secret_name cluster = cluster.name ⧺ "-load-balancer-and-ingress-service-addon"

abbrev pub is_ako_ref : String → Bool
is_ako_ref name = starts_with name ako_cluster_bootstrap_ref_name_prefix

-- The loop of GetAKOPackageRefNameFromTKR over the names of the bootstrap packages.
unfoldable pub get_ako_package_ref_name_from_tkr : String → List String → Result String
get_ako_package_ref_name_from_tkr tkr [] = err (
    message (
      "no bootstrapPackage name matches the prefix " ⧺ ako_cluster_bootstrap_ref_name_prefix
      ⧺ " within the BootstrapPackages of TanzuKubernetesRelease " ⧺ tkr))
get_ako_package_ref_name_from_tkr tkr (name ∷ names) =
    let rest = get_ako_package_ref_name_from_tkr tkr names in
    if is_ako_ref name then ok name else rest

-- `get_tkr` gives the names of the bootstrap packages of a TanzuKubernetesRelease.
abbrev pub names_of_tkr : String → Result (List String) → Result String
names_of_tkr tkr (err e) = err e
names_of_tkr tkr (ok names) = get_ako_package_ref_name_from_tkr tkr names

unfoldable pub get_ako_package_ref_name :
    (String → Result (List String)) → ClusterBootstrap → Result String
get_ako_package_ref_name get_tkr cb =
    if cb.resolved_tkr == ""
    then err (message "ClusterBootstrap.Status.ResolvedTKR is empty")
    else names_of_tkr cb.resolved_tkr (get_tkr cb.resolved_tkr)

-- The index and the package, from the index of the first element of the list.
unfoldable pub find_ako_package :
    ℕ → List ClusterBootstrapPackage → Option (ℕ × ClusterBootstrapPackage)
find_ako_package i [] = none
find_ako_package i (p ∷ ps) =
    let rest = find_ako_package (suc i) ps in if is_ako_ref p.ref_name then some (i, p) else rest

unfoldable pub get_ako_package_ref_from_cluster_bootstrap :
    ClusterBootstrap → Option (ℕ × ClusterBootstrapPackage)
unfolding find_ako_package
get_ako_package_ref_from_cluster_bootstrap cb = find_ako_package zero cb.additional_packages

abbrev pub expected_package : Cluster → String → ClusterBootstrapPackage
expected_package cluster ref_name = record {
  ref_name = ref_name;
  values_from = some (record { secret_ref = ako_addon_secret_name cluster; others = false });
}

-- reflect.DeepEqual
abbrev pub same_values : Option ValuesFrom → Option ValuesFrom → Bool
same_values none none = true
same_values (some v) (some w) = v.secret_ref == w.secret_ref && not v.others && not w.others
same_values _ _ = false

abbrev pub deep_equal : ClusterBootstrapPackage → ClusterBootstrapPackage → Bool
deep_equal p q = p.ref_name == q.ref_name && same_values p.values_from q.values_from

abbrev pub place_package :
    List ClusterBootstrapPackage
    → ClusterBootstrapPackage
    → Option (ℕ × ClusterBootstrapPackage)
    → List ClusterBootstrapPackage
place_package ps expected none = ps ++ expected ∷ []
place_package ps expected (some (i, p)) = if deep_equal p expected then ps else set ps i expected

-- The annotation that keeps the package install from being deleted: a name after a comma is added, where the
-- text does not have the name.
unfoldable pub has_install_name : Dict String → Bool
has_install_name annotations =
    has tkg_skip_delete_pkgi_annotation_key annotations
    && contains_text (index tkg_skip_delete_pkgi_annotation_key annotations)
        ako_package_install_name

abbrev pub skip_by : Bool → Dict String → Dict String
skip_by true annotations = annotations
skip_by false annotations =
    insert tkg_skip_delete_pkgi_annotation_key
      (index tkg_skip_delete_pkgi_annotation_key annotations ⧺ "," ⧺ ako_package_install_name)
      annotations

unfoldable pub skip_deletion : Dict String → Dict String
skip_deletion annotations = skip_by (has_install_name annotations) annotations

-- The ClusterBootstrap that is patched.
unfoldable pub with_ako_package : Cluster → ClusterBootstrap → String → ClusterBootstrap
with_ako_package cluster cb ref_name = record cb {
  additional_packages =
      place_package cb.additional_packages (expected_package cluster ref_name)
        (get_ako_package_ref_from_cluster_bootstrap cb);
  annotations = skip_deletion cb.annotations;
}
