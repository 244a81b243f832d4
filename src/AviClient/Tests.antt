-- ===== src/AviClient/Tests.antt =====
-- Tests of the client of the AVI Controller, and a witness.
use load_balancer_operator_f.Prelude.{
  lookup, index, String, none, [], ◌∷◌, Dict, ◌==◌, if◌then◌else◌, ◌≡◌, refl,
}
use load_balancer_operator_f.AviClient.{
  new_avi_client, set_password, set_transport, set_insecure, no_transport, RealAviClient, Answers,
  err_empty_input, new_avi_client_from_secrets, get_object_by_name, session_options, config_of,
}
use load_balancer_operator_f.Kube.{ok, err, NamespacedName}
use load_balancer_operator_f.AviClient.Secrets.{IsClientOf, new_avi_client_from_secrets-IsClientOf}

abbrev cred : NamespacedName
cred = record { namespace = "tkg-system"; name = "avi-controller-credentials" }

abbrev ca : NamespacedName
ca = record { namespace = "tkg-system"; name = "avi-controller-ca" }

abbrev secret_of : NamespacedName → Dict String
secret_of key =
    if key.name == "avi-controller-ca" then [] else ("username", "admin") ∷ ("password", "p") ∷ []

-- The secret of the certificate has no certificate.
abbrev server : Answers
server = record { get_secret = λ key. ok (secret_of key); log_in = λ ip user options. ok tt }

abbrev made : RealAviClient
made = record {
  config = config_of server "10.0.0.1" (secret_of cred) [];
  server = "10.0.0.1";
  user = "admin";
  options = set_password "p" ∷ set_transport no_transport ∷ set_insecure ∷ [];
}

makes_client : new_avi_client_from_secrets server "10.0.0.1" cred ca "" ≡ ok made
unfolding new_avi_client_from_secrets new_avi_client index session_options lookup
makes_client = refl

empty_name :
    new_avi_client_from_secrets server "10.0.0.1" cred (record { namespace = ""; name = "ca" }) ""
    ≡ err err_empty_input
unfolding new_avi_client_from_secrets
empty_name = refl

new_avi_client_from_secrets-IsClientOf_example : IsClientOf server "10.0.0.1" cred ca "" made
new_avi_client_from_secrets-IsClientOf_example =
    new_avi_client_from_secrets-IsClientOf server "10.0.0.1" cred ca "" made makes_client

-- A count of one with no result panics.
no_result :
    get_object_by_name {A = String}
      (λ s. s)
      (λ uri. ok (record { count = 1; elements = ok [] }))
      "network"
      "data"
      "cloud"
    ≡ none
unfolding get_object_by_name
no_result = refl
