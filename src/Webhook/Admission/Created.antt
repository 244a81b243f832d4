-- ===== src/Webhook/Admission/Created.antt =====
-- Which objects the webhook admits on creation.
use load_balancer_operator_f.Prelude.{
  String, Bool, true, false, not, ◌&&◌, ◌||◌, Option, none, some, List, [], ◌∷◌, ◌++◌, Dict, ◌==◌,
  if◌then◌else◌, is_empty, is_some, ◌≡◌, refl, ap, ◌∙◌, arith,
}
use load_balancer_operator_f.Go.Int.{ℤ, pos, lt_int}
use load_balancer_operator_f.Kube.{Result, ok, err, Selector}
use load_balancer_operator_f.Kube.Interfaces.{Selectors}
use load_balancer_operator_f.Api.{AkoDeploymentConfig, SecretRef}
use load_balancer_operator_f.Api.Constants.{workload_cluster_ako_deployment_config}
use load_balancer_operator_f.Webhook.{
  FieldError, prepend, selector_issues, check_selector, validate_cluster_selector, count_issues,
  validate_replica_count, is_version, validate_avi_controller_version,
}
use load_balancer_operator_f.Webhook.Pools.{
  accepts, is_empty-append, accepts-prepend, is_empty-issue_if, is_empty-missing_if,
  is_data_network, validate_avi_data_networks-accepts, is_control_plane_network,
  is_empty-validate_avi_control_plane_networks,
}
use load_balancer_operator_f.Webhook.Admission.{
  AviClient, Answers, validate_avi_secret, cloud_issues, validate_avi_cloud,
  validate_avi_service_engine_group, control_plane_issues, data_issues, field_issues, with_version,
  connect_with, again, versioned, first_try, secret_issues, connected_issues, validate_avi, both,
  validate_create,
}

-- A selector that is valid, and not empty but for the default configuration.
abbrev pub selector_fits : Bool → Result Selector → Bool
selector_fits is_default (err e) = false
selector_fits is_default (ok s) = is_default || not s.empty

abbrev pub is_found : Result (Dict String) → Bool
is_found (ok d) = true
is_found (err e) = false

abbrev pub count_fits : Option ℤ → Bool
count_fits none = true
count_fits (some n) = not (lt_int n (pos 1)) && not (lt_int (pos 2) n)

abbrev pub version_fits : String → Bool
version_fits version = version == "" || is_version version

abbrev pub has_ipam : Result (Option String) → Bool
has_ipam (ok (some ref)) = true
has_ipam _ = false

-- The fields fit what the AVI Controller has.
abbrev pub fields_fit : AviClient → AkoDeploymentConfig → Bool
fields_fit client obj =
    count_fits obj.spec.extra_configs.replica_count
    && has_ipam (client.ipam_of_cloud obj.spec.cloud_name)
    && not (is_some (client.group_error obj.spec.service_engine_group obj.spec.cloud_name))
    && is_control_plane_network
        (client.network_error obj.spec.control_plane_network.name obj.spec.cloud_name) obj
    && is_data_network (client.network_error obj.spec.data_network.name obj.spec.cloud_name) obj

accepts-selector_issues :
    (is_default : Bool) (r : Result Selector)
    → accepts (selector_issues is_default r) ≡ selector_fits is_default r
accepts-selector_issues true (err e) = refl
accepts-selector_issues false (err e) = refl
accepts-selector_issues true (ok s) = refl
accepts-selector_issues false (ok s) = is_empty-issue_if s.empty "spec.ClusterSelector" _

is_empty-validate_avi_secret :
    (ref : SecretRef) (r : Result (Dict String)) → is_empty (validate_avi_secret ref r) ≡ is_found r
is_empty-validate_avi_secret ref (ok d) = refl
is_empty-validate_avi_secret ref (err e) = refl

is_empty-cloud_issues : (r : Result (Option String)) → is_empty (cloud_issues r) ≡ has_ipam r
is_empty-cloud_issues (err e) = refl
is_empty-cloud_issues (ok none) = refl
is_empty-cloud_issues (ok (some ref)) = refl

is_empty-count_issues : (o : Option ℤ) → is_empty (count_issues o) ≡ count_fits o
is_empty-count_issues none = refl
is_empty-count_issues (some n) =
    is_empty-issue_if (lt_int n (pos 1) || lt_int (pos 2) n) "spec.extraConfigs.replicaCount" _
    ∙ ground arith

is_empty-validate_avi_controller_version :
    (obj : AkoDeploymentConfig)
    → is_empty (validate_avi_controller_version obj) ≡ version_fits obj.spec.controller_version
unfolding validate_avi_controller_version
is_empty-validate_avi_controller_version obj =
    is_empty-issue_if
      (not (obj.spec.controller_version == "") && not (is_version obj.spec.controller_version))
      "spec.ControllerVersion" _
    ∙ ground arith

accepts-all :
    (a b c d : List FieldError) (o : Option (List FieldError))
    → accepts (prepend a (prepend (b ++ c ++ d) o))
      ≡ (is_empty a && is_empty b && is_empty c && is_empty d && accepts o)
accepts-all a b c d o =
    accepts-prepend a (prepend (b ++ c ++ d) o)
    ∙ ap (λ x. is_empty a && x)
        (accepts-prepend (b ++ c ++ d) o
          ∙ ap (λ x. x && accepts o)
              (is_empty-append (b ++ c) d ∙ ap (λ x. x && is_empty d) (is_empty-append b c)))
    ∙ ground arith

is_empty-validate_replica_count :
    (obj : AkoDeploymentConfig)
    → is_empty (validate_replica_count obj) ≡ count_fits obj.spec.extra_configs.replica_count
unfolding validate_replica_count
is_empty-validate_replica_count obj = is_empty-count_issues obj.spec.extra_configs.replica_count

is_empty-validate_avi_cloud :
    (client : AviClient) (obj : AkoDeploymentConfig)
    → is_empty (validate_avi_cloud client obj) ≡ has_ipam (client.ipam_of_cloud obj.spec.cloud_name)
unfolding validate_avi_cloud
is_empty-validate_avi_cloud client obj =
    is_empty-cloud_issues (client.ipam_of_cloud obj.spec.cloud_name)

is_empty-validate_avi_service_engine_group :
    (client : AviClient) (obj : AkoDeploymentConfig)
    → is_empty (validate_avi_service_engine_group client obj)
      ≡ not (is_some (client.group_error obj.spec.service_engine_group obj.spec.cloud_name))
unfolding validate_avi_service_engine_group
is_empty-validate_avi_service_engine_group client obj =
    is_empty-missing_if (client.group_error obj.spec.service_engine_group obj.spec.cloud_name) _ _

accepts-connected :
    (client : AviClient) (obj : AkoDeploymentConfig)
    → accepts (prepend (validate_replica_count obj) (field_issues client none obj))
      ≡ fields_fit client obj
unfolding field_issues
accepts-connected client obj =
    accepts-all (validate_replica_count obj) (validate_avi_cloud client obj)
      (validate_avi_service_engine_group client obj) (control_plane_issues client obj)
      (data_issues client obj)
    ∙ rw
        (
          is_empty-validate_replica_count obj,
          is_empty-validate_avi_cloud client obj,
          is_empty-validate_avi_service_engine_group client obj,
          is_empty-validate_avi_control_plane_networks
              (client.network_error obj.spec.control_plane_network.name obj.spec.cloud_name) obj,
          validate_avi_data_networks-accepts
              (client.network_error obj.spec.data_network.name obj.spec.cloud_name) obj,
        )
        refl

module _ (ans : Answers) where
  -- The account works, with no version and with the one that the controller gives, and the client that
  -- it then has finds everything.
  abbrev connected_fits : AkoDeploymentConfig → Result AviClient → Bool
  connected_fits obj (err e) = false
  connected_fits obj (ok client) = fields_fit client obj

  abbrev versioned_fits : AkoDeploymentConfig → Result String → Bool
  versioned_fits obj (err e) = false
  versioned_fits obj (ok version) = connected_fits obj (connect_with ans obj version)

  abbrev account_fits : AkoDeploymentConfig → Result AviClient → Bool
  account_fits obj (err e) = false
  account_fits obj (ok client) = versioned_fits obj client.version

  -- What is asked of an object that is created.
  abbrev pub is_valid : Selectors → AkoDeploymentConfig → Bool
  is_valid sel obj =
      selector_fits (obj.name == workload_cluster_ako_deployment_config)
        (sel.as_selector obj.spec.cluster_selector)
      && is_found (ans.get_secret obj.spec.admin_credential_ref)
      && is_found (ans.get_secret obj.spec.certificate_authority_ref)
      && version_fits obj.spec.controller_version
      && account_fits obj (connect_with ans obj "")

  accepts-again :
      (obj : AkoDeploymentConfig) (version : String) (r : Result AviClient)
      → accepts (connected_issues ans none (again ans (with_version obj version) r))
        ≡ connected_fits obj r
  accepts-again obj version (err e) = refl
  accepts-again obj version (ok client) = accepts-connected client (with_version obj version)

  accepts-versioned :
      (obj : AkoDeploymentConfig) (r : Result String)
      → accepts (connected_issues ans none (versioned ans obj r)) ≡ versioned_fits obj r
  accepts-versioned obj (err e) = refl
  accepts-versioned obj (ok version) = accepts-again obj version (connect_with ans obj version)

  accepts-first_try :
      (obj : AkoDeploymentConfig) (r : Result AviClient)
      → accepts (connected_issues ans none (first_try ans obj r)) ≡ account_fits obj r
  accepts-first_try obj (err e) = refl
  accepts-first_try obj (ok client) = accepts-versioned obj client.version

  accepts-both :
      (o p : Option (List FieldError)) → accepts (both ans o p) ≡ (accepts o && accepts p)
  accepts-both none p = refl
  accepts-both (some es) p = accepts-prepend es p

  accepts-if :
      (es : List FieldError) (o : Option (List FieldError))
      → accepts (if is_empty es then o else some es) ≡ (is_empty es && accepts o)
  accepts-if [] o = refl
  accepts-if (e ∷ es) o = refl

  accepts-validate_avi :
      (obj : AkoDeploymentConfig)
      → accepts (validate_avi ans none obj) ≡ (
          is_found (ans.get_secret obj.spec.admin_credential_ref)
          && is_found (ans.get_secret obj.spec.certificate_authority_ref)
          && version_fits obj.spec.controller_version
          && account_fits obj (connect_with ans obj ""))
  unfolding validate_avi
  accepts-validate_avi obj =
      let a = ans.get_secret obj.spec.admin_credential_ref in
      let c = ans.get_secret obj.spec.certificate_authority_ref in
      let rest = connected_issues ans none (first_try ans obj (connect_with ans obj "")) in
      let secrets =
        is_empty-append (validate_avi_secret obj.spec.admin_credential_ref a)
          (validate_avi_secret obj.spec.certificate_authority_ref c) in
      accepts-if (secret_issues ans obj) (prepend (validate_avi_controller_version obj) rest)
      ∙ ap (λ b. b && accepts (prepend (validate_avi_controller_version obj) rest)) secrets
      ∙ rw
          (
            is_empty-validate_avi_secret obj.spec.admin_credential_ref a,
            is_empty-validate_avi_secret obj.spec.certificate_authority_ref c,
            accepts-prepend (validate_avi_controller_version obj) rest,
            is_empty-validate_avi_controller_version obj,
            accepts-first_try obj (connect_with ans obj ""),
          )
          (ground arith)

  -- ValidateCreate admits an object, without an error and without a panic, exactly where its selector
  -- is valid, and not empty but for the default configuration; both secrets exist; its version is
  -- empty or numerals between dots; the account works, with no version and with the one that the AVI
  -- Controller then gives; the replica count is absent, 1 or 2; the AVI Controller has its cloud, with
  -- an IPAM provider, and its service engine group; its control plane network has no name or no CIDR,
  -- or the AVI Controller has it and the CIDR parses; and the AVI Controller has its data network, the
  -- CIDR of which parses, and of each pool the start and the end are addresses in the CIDR, the start
  -- is not after the end, and the type is the family of the CIDR.
  pub validate_create-accepts :
      (sel : Selectors) (obj : AkoDeploymentConfig)
      → accepts (validate_create ans sel obj) ≡ is_valid sel obj
  unfolding validate_create validate_cluster_selector
  validate_create-accepts sel obj =
      accepts-both (check_selector sel obj) (validate_avi ans none obj)
      ∙ rw
          (
            accepts-selector_issues (obj.name == workload_cluster_ako_deployment_config)
                (sel.as_selector obj.spec.cluster_selector),
            accepts-validate_avi obj,
          )
          (ground arith)
