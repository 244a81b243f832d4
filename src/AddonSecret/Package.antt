-- ===== src/AddonSecret/Package.antt =====
-- What patchAkoPackageRefToClusterBootstrap makes of the packages and the annotation.
use text.Mathlib.TextLemmas.{append_assoc}
use load_balancer_operator_f.Prelude.{
  ℕ, zero, suc, String, ◌⧺◌, Bool, true, false, not, Option, none, some, List, [], ◌∷◌, first, keep,
  Dict, index, insert, lookup, lookup-insert, ◌==◌, if◌then◌else◌, Bool-cases, ◌≡◌, ◌≢◌, refl, sym,
  ap, ◌∙◌, subst, inl, inr, arith, eq_iff, eq_refl,
}
use load_balancer_operator_f.Go.Text.{contains_text, contains_text-append}
use load_balancer_operator_f.Kube.{Result, ok, err, Cluster}
use load_balancer_operator_f.Api.Constants.{
  ako_package_install_name, tkg_skip_delete_pkgi_annotation_key,
}
use load_balancer_operator_f.AddonSecret.Bootstrap.{
  ValuesFrom, ClusterBootstrapPackage, ClusterBootstrap, ako_addon_secret_name, is_ako_ref,
  get_ako_package_ref_name_from_tkr, names_of_tkr, get_ako_package_ref_name, find_ako_package,
  get_ako_package_ref_from_cluster_bootstrap, expected_package, same_values, deep_equal,
  place_package, has_install_name, skip_by, skip_deletion, with_ako_package,
}

abbrev pub is_ako : ClusterBootstrapPackage → Bool
is_ako p = is_ako_ref p.ref_name

abbrev pub is_other : ClusterBootstrapPackage → Bool
is_other p = not (is_ako p)

-- The first AKO package is replaced, or the package is added at the end.
abbrev pub replace_first :
    ClusterBootstrapPackage → List ClusterBootstrapPackage → List ClusterBootstrapPackage
replace_first e [] = e ∷ []
replace_first e (p ∷ ps) = let rest = replace_first e ps in if is_ako p then e ∷ ps else p ∷ rest

abbrev later : Option (ℕ × ClusterBootstrapPackage) → Option (ℕ × ClusterBootstrapPackage)
later none = none
later (some (i, p)) = some (suc i, p)

find-suc :
    (i : ℕ) (ps : List ClusterBootstrapPackage)
    → find_ako_package (suc i) ps ≡ later (find_ako_package i ps)
unfolding find_ako_package
find-suc i [] = refl
find-suc i (p ∷ ps) = elim (Bool-cases (is_ako p)) [
  | inl t ↦ rw t refl
  | inr f ↦ rw f (find-suc (suc i) ps)
]

same_values-eq :
    (v : Option ValuesFrom) (s : String)
    → same_values v (some (record { secret_ref = s; others = false })) ≡ true
    → v ≡ some (record { secret_ref = s; others = false })
same_values-eq none s h = cc
same_values-eq (some v) s h = ground (arith, eq_iff v.secret_ref s)

deep_equal-eq :
    (p : ClusterBootstrapPackage) (cluster : Cluster) (name : String)
    → deep_equal p (expected_package cluster name) ≡ true
    → p ≡ expected_package cluster name
deep_equal-eq p cluster name h =
    ground
      (arith, eq_iff p.ref_name name, same_values-eq p.values_from (ako_addon_secret_name cluster))

module _ (cluster : Cluster) (name : String) where
  place-cons :
      (p : ClusterBootstrapPackage) (ps : List ClusterBootstrapPackage)
      (o : Option (ℕ × ClusterBootstrapPackage))
      → place_package (p ∷ ps) (expected_package cluster name) (later o)
        ≡ p ∷ place_package ps (expected_package cluster name) o
  place-cons p ps none = refl
  place-cons p ps (some (i, q)) = elim (Bool-cases (deep_equal q (expected_package cluster name))) [
    | inl t ↦ rw t refl
    | inr f ↦ rw f refl
  ]

  found :
      (p : ClusterBootstrapPackage) (ps : List ClusterBootstrapPackage)
      → (if deep_equal p (expected_package cluster name)
          then p ∷ ps
          else expected_package cluster name ∷ ps)
        ≡ expected_package cluster name ∷ ps
  found p ps = elim (Bool-cases (deep_equal p (expected_package cluster name))) [
    | inl t ↦ rw t (ap (λ (x : ClusterBootstrapPackage). x ∷ ps) (deep_equal-eq p cluster name t))
    | inr f ↦ rw f refl
  ]

  place-replace_first :
      (ps : List ClusterBootstrapPackage)
      → place_package ps (expected_package cluster name) (find_ako_package zero ps)
        ≡ replace_first (expected_package cluster name) ps
  unfolding find_ako_package
  place-replace_first [] = refl
  place-replace_first (p ∷ ps) = elim (Bool-cases (is_ako p)) [
    | inl t ↦ rw t (found p ps)
    | inr f ↦ rw f (
        subst
          (λ (x : Option (ℕ × ClusterBootstrapPackage)).
            place_package (p ∷ ps) (expected_package cluster name) x
            ≡ p ∷ replace_first (expected_package cluster name) ps)
          (sym (find-suc zero ps))
          (place-cons p ps (find_ako_package zero ps)
            ∙ ap (λ (x : List ClusterBootstrapPackage). p ∷ x) (place-replace_first ps)))
  ]

module _ (e : ClusterBootstrapPackage) (ako : is_ako e ≡ true) where
  first-replace_first :
      (ps : List ClusterBootstrapPackage) → first is_ako (replace_first e ps) ≡ some e
  first-replace_first [] = rw ako refl
  first-replace_first (p ∷ ps) = elim (Bool-cases (is_ako p)) [
    | inl t ↦ rw (t, ako) refl
    | inr f ↦ rw f (rw f (first-replace_first ps))
  ]

  keep-replace_first :
      (ps : List ClusterBootstrapPackage) → keep is_other (replace_first e ps) ≡ keep is_other ps
  keep-replace_first [] = rw ako refl
  keep-replace_first (p ∷ ps) = elim (Bool-cases (is_ako p)) [
    | inl t ↦ rw (t, ako) refl
    | inr f ↦ rw f (rw f (ap (λ (x : List ClusterBootstrapPackage). p ∷ x) (keep-replace_first ps)))
  ]

  replace_first_idem :
      (ps : List ClusterBootstrapPackage)
      → replace_first e (replace_first e ps) ≡ replace_first e ps
  replace_first_idem [] = rw ako refl
  replace_first_idem (p ∷ ps) = elim (Bool-cases (is_ako p)) [
    | inl t ↦ rw (t, ako) refl
    | inr f ↦ rw f (rw f (ap (λ (x : List ClusterBootstrapPackage). p ∷ x) (replace_first_idem ps)))
  ]

abbrev key : String
key = tkg_skip_delete_pkgi_annotation_key

lookup-insert_self : (v : String) (m : Dict String) → lookup key (insert key v m) ≡ some v
lookup-insert_self v m = ground (arith, lookup-insert key key v m, eq_refl key)

index-of_lookup : (m : Dict String) (v : String) → lookup key m ≡ some v → index key m ≡ v
unfolding index
index-of_lookup m v e = rw (e, index)

skip_by-has :
    (b : Bool) (m : Dict String) → has_install_name m ≡ b → has_install_name (skip_by b m) ≡ true
unfolding has_install_name
skip_by-has true m h = h
skip_by-has false m h =
    let text = index key m ⧺ "," ⧺ ako_package_install_name in
    let e = lookup-insert_self text m in
    rw (e, index-of_lookup (insert key text m) text e)
      (subst (λ (x : String). contains_text x ako_package_install_name ≡ true)
        (append_assoc (index key m) "," ako_package_install_name)
        (contains_text-append (index key m ⧺ ",") ako_package_install_name))

skip_by-others :
    (b : Bool) (m : Dict String) (k : String) → key ≢ k → lookup k (skip_by b m) ≡ lookup k m
skip_by-others true m k n = refl
skip_by-others false m k n =
    ground
      (arith, lookup-insert key k (index key m ⧺ "," ⧺ ako_package_install_name) m, eq_iff key k)

skip_deletion-has : (m : Dict String) → has_install_name (skip_deletion m) ≡ true
unfolding skip_deletion
skip_deletion-has m = skip_by-has (has_install_name m) m refl

skip_deletion_idem : (m : Dict String) → skip_deletion (skip_deletion m) ≡ skip_deletion m
unfolding skip_deletion
skip_deletion_idem m =
    ap (λ (b : Bool). skip_by b (skip_by (has_install_name m) m))
      (skip_by-has (has_install_name m) m refl)

-- The package that GetAKOPackageRefName gives is an AKO package.
names_of_tkr-ako :
    (tkr : String) (names : List String) (name : String)
    → get_ako_package_ref_name_from_tkr tkr names ≡ ok name
    → is_ako_ref name ≡ true
unfolding get_ako_package_ref_name_from_tkr
names_of_tkr-ako tkr [] name h = cc
names_of_tkr-ako tkr (n ∷ ns) name h = elim (Bool-cases (is_ako_ref n)) [
  | inl t ↦ ground (arith)
  | inr f ↦ names_of_tkr-ako tkr ns name (rw f at h)
]

of_tkr-ako :
    (tkr : String) (r : Result (List String)) (name : String)
    → names_of_tkr tkr r ≡ ok name
    → is_ako_ref name ≡ true
of_tkr-ako tkr (ok names) name h = names_of_tkr-ako tkr names name h
of_tkr-ako tkr (err e) name h = cc

pub get_ako_package_ref_name-ako :
    (get_tkr : String → Result (List String)) (cb : ClusterBootstrap) (name : String)
    → get_ako_package_ref_name get_tkr cb ≡ ok name
    → is_ako_ref name ≡ true
unfolding get_ako_package_ref_name
get_ako_package_ref_name-ako get_tkr cb name h = elim (Bool-cases (cb.resolved_tkr == "")) [
  | inl t ↦ ground arith
  | inr f ↦ of_tkr-ako cb.resolved_tkr (get_tkr cb.resolved_tkr) name (ground arith)
]

-- What the ClusterBootstrap is to have.
pub record HasAkoPackage (cluster : Cluster) (ref_name : String) (before after : ClusterBootstrap)
    : Type 0 where
  -- the first AKO package has the name, and its values from the secret of the add-on alone
  pub first_ako : first is_ako after.additional_packages ≡ some (expected_package cluster ref_name)
  pub others : keep is_other after.additional_packages ≡ keep is_other before.additional_packages
  pub kept_install : has_install_name after.annotations ≡ true
  pub annotations :
      (k : String)
      → tkg_skip_delete_pkgi_annotation_key ≢ k
      → lookup k after.annotations ≡ lookup k before.annotations
  pub same_tkr : after.resolved_tkr ≡ before.resolved_tkr

packages-replace_first :
    (cluster : Cluster) (cb : ClusterBootstrap) (ref_name : String)
    → (with_ako_package cluster cb ref_name).additional_packages
      ≡ replace_first (expected_package cluster ref_name) cb.additional_packages
unfolding with_ako_package get_ako_package_ref_from_cluster_bootstrap
packages-replace_first cluster cb ref_name =
    place-replace_first cluster ref_name cb.additional_packages

-- The ClusterBootstrap that is patched has the AKO package of the TanzuKubernetesRelease as its first AKO package,
-- all packages that are not of AKO, in their order, and the annotation that keeps the package install; its
-- other annotations are as they were.
pub with_ako_package-HasAkoPackage :
    (cluster : Cluster) (cb : ClusterBootstrap) (ref_name : String)
    → is_ako_ref ref_name ≡ true
    → HasAkoPackage cluster ref_name cb (with_ako_package cluster cb ref_name)
with_ako_package-HasAkoPackage cluster cb ref_name h = record {
  first_ako =
      rw (packages-replace_first cluster cb ref_name)
        (first-replace_first (expected_package cluster ref_name) h cb.additional_packages);
  others =
      rw (packages-replace_first cluster cb ref_name)
        (keep-replace_first (expected_package cluster ref_name) h cb.additional_packages);
  kept_install = unfold with_ako_package in skip_deletion-has cb.annotations;
  annotations =
      unfold with_ako_package skip_deletion in
      skip_by-others (has_install_name cb.annotations) cb.annotations;
  same_tkr = unfold with_ako_package in refl;
}

bootstrap-eq :
    {a b : ClusterBootstrap}
    → a.additional_packages ≡ b.additional_packages
    → a.annotations ≡ b.annotations
    → a.resolved_tkr ≡ b.resolved_tkr
    → a ≡ b
bootstrap-eq p q r = cc

-- A second patch of the ClusterBootstrap with the same package changes nothing.
pub with_ako_package_idem :
    (cluster : Cluster) (cb : ClusterBootstrap) (ref_name : String)
    → is_ako_ref ref_name ≡ true
    → with_ako_package cluster (with_ako_package cluster cb ref_name) ref_name
      ≡ with_ako_package cluster cb ref_name
with_ako_package_idem cluster cb ref_name h =
    let after = with_ako_package cluster cb ref_name in
    bootstrap-eq
      (packages-replace_first cluster after ref_name
        ∙ rw (packages-replace_first cluster cb ref_name)
            (replace_first_idem (expected_package cluster ref_name) h cb.additional_packages))
      (unfold with_ako_package in skip_deletion_idem cb.annotations)
      (unfold with_ako_package in refl)
