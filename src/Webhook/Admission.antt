-- ===== src/Webhook/Admission.antt =====
-- The checks of the webhook that ask the API server or the AVI Controller, and the handlers of a
-- creation and of an update.
pub mod Created
pub mod Updated
use load_balancer_operator_f.Prelude.{
  String, Bool, true, false, not, ◌&&◌, ◌||◌, Option, none, some, List, [], ◌∷◌, ◌++◌, Dict, index,
  ◌==◌, ◌⧺◌, if◌then◌else◌, is_empty, is_some,
}
use load_balancer_operator_f.Kube.{Error, Result, ok, err, is_not_found}
use load_balancer_operator_f.Kube.Interfaces.{Selectors}
use load_balancer_operator_f.Api.{AkoDeploymentConfig, SecretRef}
use load_balancer_operator_f.Webhook.{
  FieldError, issue, issue_if, missing_if, prepend, validate_cluster_selector,
  validate_replica_count, validate_avi_controller_version, validate_avi_data_networks,
  validate_avi_control_plane_networks,
}

-- What a client of the AVI Controller answers: the version, the IPAM provider of a cloud, and the
-- errors of the lookups of a service engine group and of a network, by name and cloud.
pub record AviClient : Type 0 where
  pub version : Result String
  pub ipam_of_cloud : String → Result (Option String)
  pub group_error : String → String → Option Error
  pub network_error : String → String → Option Error

-- `connect` is aviclient.NewAviClient: the controller, the user name, the password, the certificate
-- and the version.
pub record Answers : Type 0 where
  pub get_secret : SecretRef → Result (Dict String)
  pub connect : String → String → String → String → String → Result AviClient

-- The texts of the server's errors are left out of the details.
abbrev pub validate_avi_secret : SecretRef → Result (Dict String) → List FieldError
validate_avi_secret ref (ok d) = []
validate_avi_secret ref (err e) =
    issue ("spec." ⧺ ref.namespace ⧺ "/" ⧺ ref.name)
      (if is_not_found e then "can't find secret" else "failed to find secret:")

abbrev pub content : Result (Dict String) → String → String
content (ok d) key = index key d
content (err e) key = ""

abbrev pub cloud_issues : Result (Option String) → List FieldError
cloud_issues (err e) = issue "spec.cloudName" "failed to get cloud from avi controller"
cloud_issues (ok none) =
    issue "spec.cloudName" "this cloud doesn't have any ipam profile configured"
cloud_issues (ok (some ref)) = []

unfoldable pub validate_avi_cloud : AviClient → AkoDeploymentConfig → List FieldError
validate_avi_cloud client obj = cloud_issues (client.ipam_of_cloud obj.spec.cloud_name)

unfoldable pub validate_avi_service_engine_group : AviClient → AkoDeploymentConfig → List FieldError
validate_avi_service_engine_group client obj =
    missing_if (client.group_error obj.spec.service_engine_group obj.spec.cloud_name)
      "spec.serviceEngineGroup" "failed to get service engine group from avi controller"

abbrev pub control_plane_issues : AviClient → AkoDeploymentConfig → List FieldError
control_plane_issues client obj =
    validate_avi_control_plane_networks
      (client.network_error obj.spec.control_plane_network.name obj.spec.cloud_name) obj

abbrev pub data_issues : AviClient → AkoDeploymentConfig → Option (List FieldError)
data_issues client obj =
    validate_avi_data_networks (client.network_error obj.spec.data_network.name obj.spec.cloud_name)
      obj

abbrev pub changed : String → String → Bool
changed a b = not (a == b)

-- The checks of the fields: all of them on a creation, those of the changed fields on an update.
unfoldable pub field_issues :
    AviClient → Option AkoDeploymentConfig → AkoDeploymentConfig → Option (List FieldError)
field_issues client none obj =
    prepend
      (validate_avi_cloud client obj
        ++ validate_avi_service_engine_group client obj
        ++ control_plane_issues client obj)
      (data_issues client obj)
field_issues client (some old) obj =
    prepend
      ((if changed old.spec.cloud_name obj.spec.cloud_name
          then validate_avi_cloud client obj
          else [])
        ++ (if changed old.spec.service_engine_group obj.spec.service_engine_group
            then validate_avi_service_engine_group client obj
            else [])
        ++ issue_if
            (changed old.spec.control_plane_network.name obj.spec.control_plane_network.name
              || changed old.spec.control_plane_network.cidr obj.spec.control_plane_network.cidr)
            "spec.ControlPlaneNetwork" "field should not be changed")
      (if changed old.spec.data_network.name obj.spec.data_network.name
          || changed old.spec.data_network.cidr obj.spec.data_network.cidr
        then data_issues client obj
        else some [])

abbrev pub with_version : AkoDeploymentConfig → String → AkoDeploymentConfig
with_version obj version = record obj { spec = record obj.spec { controller_version = version } }

module _ (ans : Answers) where
  -- The account is tried twice: with no version, and with the one that the controller gives, which is
  -- stored in the object.
  abbrev pub connect_with : AkoDeploymentConfig → String → Result AviClient
  connect_with obj version =
      let admin = ans.get_secret obj.spec.admin_credential_ref in
      ans.connect obj.spec.controller (content admin "username") (content admin "password")
        (content (ans.get_secret obj.spec.certificate_authority_ref) "certificateAuthorityData")
        version

  -- The object and the client afterwards, or the error that ends the check.
  pub data Connected : Type 0 where
    connected : AkoDeploymentConfig → AviClient → Connected
    refused : AkoDeploymentConfig → FieldError → Connected

  abbrev pub again : AkoDeploymentConfig → Result AviClient → Connected
  again obj (err e) =
      refused obj
        (record { path = "spec.Controller"; detail = "failed to init avi client for controller" })
  again obj (ok client) = connected obj client

  abbrev pub versioned : AkoDeploymentConfig → Result String → Connected
  versioned obj (err e) =
      refused obj (record {
        path = "spec.ControllerVersion";
        detail = "failed to get avi controller version";
      })
  versioned obj (ok version) = again (with_version obj version) (connect_with obj version)

  abbrev pub first_try : AkoDeploymentConfig → Result AviClient → Connected
  first_try obj (err e) =
      refused obj
        (record { path = "spec.Controller"; detail = "failed to init avi client for controller" })
  first_try obj (ok client) = versioned obj client.version

  abbrev pub secret_issues : AkoDeploymentConfig → List FieldError
  secret_issues obj =
      validate_avi_secret obj.spec.admin_credential_ref
        (ans.get_secret obj.spec.admin_credential_ref)
      ++ validate_avi_secret obj.spec.certificate_authority_ref
          (ans.get_secret obj.spec.certificate_authority_ref)

  abbrev pub connected_issues : Option AkoDeploymentConfig → Connected → Option (List FieldError)
  connected_issues old (refused obj e) = some (e ∷ [])
  connected_issues old (connected obj client) =
      prepend (validate_replica_count obj) (field_issues client old obj)

  -- validateAVI outside the tests of the repository.
  unfoldable pub validate_avi :
      Option AkoDeploymentConfig → AkoDeploymentConfig → Option (List FieldError)
  validate_avi old obj =
      if is_empty (secret_issues obj)
      then prepend (validate_avi_controller_version obj)
          (connected_issues old (first_try obj (connect_with obj "")))
      else some (secret_issues obj)

  abbrev pub both : Option (List FieldError) → Option (List FieldError) → Option (List FieldError)
  both none o = none
  both (some es) o = prepend es o

  -- The object is admitted where the value is `some []`.
  unfoldable pub validate_create : Selectors → AkoDeploymentConfig → Option (List FieldError)
  validate_create sel obj = both (validate_cluster_selector sel none obj) (validate_avi none obj)

  unfoldable pub validate_update :
      Selectors → AkoDeploymentConfig → AkoDeploymentConfig → Option (List FieldError)
  validate_update sel old obj =
      both (validate_cluster_selector sel (some old) obj) (validate_avi (some old) obj)
