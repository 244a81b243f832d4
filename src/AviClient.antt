-- ===== src/AviClient.antt =====
-- pkg/aviclient/client.go: how a client of the AVI Controller is made, and how an object is looked up by its name. The
-- calls of the AVI SDK over the network are arguments.
pub mod Secrets
mod Tests
use load_balancer_operator_f.Prelude.{
  ℕ, zero, suc, String, ◌⧺◌, Bool, true, false, ◌||◌, Option, none, some, List, [], ◌∷◌, ◌++◌, Dict,
  index, ◌==◌, if◌then◌else◌,
}
use load_balancer_operator_f.Go.Text.{contains_text}
use load_balancer_operator_f.Kube.{Error, message, Result, ok, err, ◌>>=◌, NamespacedName}

-- AviClientConfig, without Insecure, which no code reads; `transport` names a transport that is passed in.
pub record AviClientConfig : Type 0 where
  pub server_ip : String
  pub username : String
  pub password : String
  pub ca : String
  pub transport : Option String
  pub server_name : String

-- http.Transport: the nil one, one that trusts a certificate and checks a name, or one that is passed in.
pub data Transport : Type 0 where
  no_transport : Transport
  trusting : String → String → Transport
  given : String → Transport

-- The options of a session of the AVI SDK.
pub data SessionOption : Type 0 where
  set_password : String → SessionOption
  set_transport : Transport → SessionOption
  set_version : String → SessionOption
  set_insecure : SessionOption

-- realAviClient, with the server, the user and the options of its session
pub record RealAviClient : Type 0 where
  pub config : AviClientConfig
  pub server : String
  pub user : String
  pub options : List SessionOption

abbrev pub err_empty_input : Error
err_empty_input = message "input is empty"

abbrev pub transport_by : Option String → String → String → Transport
transport_by (some t) ca server_name = given t
transport_by none ca server_name = if ca == "" then no_transport else trusting ca server_name

unfoldable pub session_options : AviClientConfig → String → List SessionOption
session_options config version =
    set_password config.password
      ∷ set_transport (transport_by config.transport config.ca config.server_name)
      ∷ (if version == "" then [] else set_version version ∷ [])
    ++ (if config.ca == "" then set_insecure ∷ [] else [])

-- What the code asks of the API server, and clients.NewAviClient of the AVI SDK, which logs in.
pub record Answers : Type 0 where
  pub get_secret : NamespacedName → Result (Dict String)
  pub log_in : String → String → List SessionOption → Result (Unit {0})

module _ (ans : Answers) where
  abbrev pub logged_in :
      AviClientConfig → List SessionOption → Result (Unit {0}) → Result RealAviClient
  logged_in config options (err e) = err e
  logged_in config options (ok u) = ok (record {
    config = config;
    server = config.server_ip;
    user = config.username;
    options = options;
  })

  unfoldable pub new_avi_client : AviClientConfig → String → Result RealAviClient
  new_avi_client config version =
      let options = session_options config version in
      logged_in config options (ans.log_in config.server_ip config.username options)

  abbrev pub config_of : String → Dict String → Dict String → AviClientConfig
  config_of controller_ip credential ca = record {
    server_ip = controller_ip;
    username = index "username" credential;
    password = index "password" credential;
    ca = index "certificateAuthorityData" ca;
    transport = none;
    server_name = "";
  }

  abbrev pub some_empty : NamespacedName → NamespacedName → Bool
  some_empty cred ca =
      cred.name == "" || cred.namespace == "" || ca.name == "" || ca.namespace == ""

  abbrev pub from_found : String → NamespacedName → NamespacedName → String → Result RealAviClient
  from_found controller_ip cred ca version = ans.get_secret cred >>= λ credential.
      ans.get_secret ca >>= λ authority.
      new_avi_client (config_of controller_ip credential authority) version

  unfoldable pub new_avi_client_from_secrets :
      String → NamespacedName → NamespacedName → String → Result RealAviClient
  new_avi_client_from_secrets controller_ip cred ca version =
      if controller_ip == ""
      then err err_empty_input
      else if some_empty cred ca
      then err err_empty_input
      else from_found controller_ip cred ca version

-- The answer of GetCollectionRaw: the count, and the elements of the raw results where they parse as a list, each
-- decoded as an object.
pub record Collection (A : Type 0) : Type 0 where
  pub count : ℕ
  pub elements : Result (List (Result A))

-- The first element; `none` is the panic where the list is empty.
abbrev pub first_element : {A : Type 0} → Result (List (Result A)) → Option (Result A)
first_element (err e) = some (err e)
first_element (ok []) = none
first_element (ok (a ∷ elements)) = some a

abbrev pub by_count :
    {A : Type 0} → String → String → ℕ → Result (List (Result A)) → Option (Result A)
by_count obj name zero elements =
    some (err (message ("No object of type " ⧺ obj ⧺ " with name " ⧺ name ⧺ " is found")))
by_count obj name (suc zero) elements = first_element elements
by_count obj name (suc (suc n)) elements =
    some
      (err (message ("More than one object of type " ⧺ obj ⧺ " with name " ⧺ name ⧺ " is found")))

abbrev pub of_collection :
    {A : Type 0} → String → String → Result (Collection A) → Option (Result A)
of_collection obj name (err e) = some (err e)
of_collection obj name (ok found) = by_count obj name found.count found.elements

-- `escape` is url.QueryEscape, and `get` is GetCollectionRaw.
unfoldable pub get_object_by_name :
    {A : Type 0}
    → (String → String)
    → (String → Result (Collection A))
    → String
    → String
    → String
    → Option (Result A)
get_object_by_name escape get obj name cloud_name = of_collection obj name (
    get (
      "/api/"
      ⧺ obj
      ⧺ "/?include_name&name="
      ⧺ escape name
      ⧺ "&cloud_ref.name="
      ⧺ escape cloud_name))

-- The text of the error; the pattern of the regular expression is plain text.
unfoldable pub is_avi_user_already_exists_error : Option String → Bool
is_avi_user_already_exists_error none = false
is_avi_user_already_exists_error (some text) =
    contains_text text "User with this Username already exist"
