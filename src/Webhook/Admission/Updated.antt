-- ===== src/Webhook/Admission/Updated.antt =====
-- What an admitted update keeps.
use load_balancer_operator_f.Prelude.{
  String, true, not, ◌||◌, Option, none, some, List, [], ◌∷◌, ◌++◌, if◌then◌else◌, is_empty, ◌≡◌,
  refl, sym, ◌∙◌, Bool-cases, inl, inr, arith, eq_iff, false≢true,
}
use load_balancer_operator_f.Kube.{Result, ok, err}
use load_balancer_operator_f.Kube.Interfaces.{Selectors}
use load_balancer_operator_f.Api.{AkoDeploymentConfig}
use load_balancer_operator_f.Webhook.{
  FieldError, prepend, same_selector, validate_cluster_selector, validate_avi_controller_version,
}
use load_balancer_operator_f.Webhook.Pools.{
  accepts, is_empty-append, accepts-prepend, is_empty-issue_if,
}
use load_balancer_operator_f.Webhook.Admission.{
  AviClient, Answers, changed, field_issues, with_version, connect_with, again, versioned,
  first_try, secret_issues, connected_issues, validate_avi, both, validate_update,
}

abbrev pub KeepsPlane : AkoDeploymentConfig → AkoDeploymentConfig → Type 0
KeepsPlane old obj =
    (old.spec.control_plane_network.name ≡ obj.spec.control_plane_network.name)
    × (old.spec.control_plane_network.cidr ≡ obj.spec.control_plane_network.cidr)

unchanged : (a b c d : String) → not (changed a b || changed c d) ≡ true → (a ≡ b) × (c ≡ d)
unchanged a b c d h = (ground (arith, eq_iff a b), ground (arith, eq_iff c d))

accepts-rest :
    (es : List FieldError) (o : Option (List FieldError))
    → accepts (prepend es o) ≡ true
    → (is_empty es ≡ true) × (accepts o ≡ true)
accepts-rest es o h = let k = sym (accepts-prepend es o) ∙ h in (ground arith, ground arith)

is_empty-last : (xs ys : List FieldError) → is_empty (xs ++ ys) ≡ true → is_empty ys ≡ true
is_empty-last xs ys h = let k = sym (is_empty-append xs ys) ∙ h in ground arith

field_issues-KeepsPlane :
    (client : AviClient) (old obj : AkoDeploymentConfig)
    → accepts (field_issues client (some old) obj) ≡ true
    → KeepsPlane old obj
unfolding field_issues
field_issues-KeepsPlane client old obj h =
    let plane =
      changed old.spec.control_plane_network.name obj.spec.control_plane_network.name
      || changed old.spec.control_plane_network.cidr obj.spec.control_plane_network.cidr in
    unchanged _ _ _ _ (
      sym (is_empty-issue_if plane "spec.ControlPlaneNetwork" "field should not be changed")
      ∙ is_empty-last _ _ (accepts-rest _ _ h).0)

module _ (ans : Answers) (old : AkoDeploymentConfig) where
  again-KeepsPlane :
      (obj : AkoDeploymentConfig) (version : String) (r : Result AviClient)
      → accepts (connected_issues ans (some old) (again ans (with_version obj version) r)) ≡ true
      → KeepsPlane old obj
  again-KeepsPlane obj version (err e) h = absurd (false≢true h)
  again-KeepsPlane obj version (ok client) h =
      field_issues-KeepsPlane client old (with_version obj version) (accepts-rest _ _ h).1

  versioned-KeepsPlane :
      (obj : AkoDeploymentConfig) (r : Result String)
      → accepts (connected_issues ans (some old) (versioned ans obj r)) ≡ true
      → KeepsPlane old obj
  versioned-KeepsPlane obj (err e) h = absurd (false≢true h)
  versioned-KeepsPlane obj (ok version) h =
      again-KeepsPlane obj version (connect_with ans obj version) h

  first_try-KeepsPlane :
      (obj : AkoDeploymentConfig) (r : Result AviClient)
      → accepts (connected_issues ans (some old) (first_try ans obj r)) ≡ true
      → KeepsPlane old obj
  first_try-KeepsPlane obj (err e) h = absurd (false≢true h)
  first_try-KeepsPlane obj (ok client) h = versioned-KeepsPlane obj client.version h

  accepts-then :
      (es : List FieldError) (o : Option (List FieldError))
      → accepts (if is_empty es then o else some es) ≡ true
      → accepts o ≡ true
  accepts-then [] o h = h
  accepts-then (e ∷ es) o h = absurd (false≢true h)

  validate_avi-KeepsPlane :
      (obj : AkoDeploymentConfig)
      → accepts (validate_avi ans (some old) obj) ≡ true
      → KeepsPlane old obj
  unfolding validate_avi
  validate_avi-KeepsPlane obj h =
      first_try-KeepsPlane obj (connect_with ans obj "")
        (accepts-rest (validate_avi_controller_version obj) _
          (accepts-then (secret_issues ans obj) _ h)).1

  accepts-halves :
      (o p : Option (List FieldError))
      → accepts (both ans o p) ≡ true
      → (accepts o ≡ true) × (accepts p ≡ true)
  accepts-halves none p h = absurd (false≢true h)
  accepts-halves (some es) p h = accepts-rest es p h

  selector-same :
      (sel : Selectors) (obj : AkoDeploymentConfig)
      → accepts (validate_cluster_selector sel (some old) obj) ≡ true
      → sel.text old.spec.cluster_selector ≡ sel.text obj.spec.cluster_selector
  unfolding validate_cluster_selector
  selector-same sel obj h = elim (Bool-cases (same_selector sel old obj)) [
    | inl t ↦ (eq_iff _ _).0 t
    | inr f ↦ absurd (false≢true (sym (rw f refl) ∙ h))
  ]

  -- Where ValidateUpdate admits an update, without an error and without a panic, the cluster selector
  -- has the same text as before, and the name and the CIDR of the control plane network are those of
  -- the old object.
  pub validate_update-KeepsPlane :
      (sel : Selectors) (obj : AkoDeploymentConfig)
      → accepts (validate_update ans sel old obj) ≡ true
      → (sel.text old.spec.cluster_selector ≡ sel.text obj.spec.cluster_selector)
        × KeepsPlane old obj
  unfolding validate_update
  validate_update-KeepsPlane sel obj h =
      let k =
        accepts-halves (validate_cluster_selector sel (some old) obj)
          (validate_avi ans (some old) obj) h in
      (selector-same sel obj k.0, validate_avi-KeepsPlane obj k.1)
