-- ===== src/AviClient/Secrets.antt =====
-- What a client that NewAviClientFromSecrets returns is made of.
use load_balancer_operator_f.Prelude.{
  String, Bool, true, false, ◌||◌, List, [], ◌∷◌, ◌++◌, Dict, index, any, ◌==◌, if◌then◌else◌, ◌≡◌,
  refl, sym, ap, ◌∙◌, subst,
}
use load_balancer_operator_f.Kube.{Error, Result, ok, err, ◌>>=◌, NamespacedName}
use load_balancer_operator_f.AviClient.{
  AviClientConfig, no_transport, trusting, SessionOption, set_password, set_transport, set_version,
  set_insecure, RealAviClient, Answers, err_empty_input, session_options, logged_in, new_avi_client,
  config_of, some_empty, new_avi_client_from_secrets,
}

abbrev is_insecure : SessionOption → Bool
is_insecure set_insecure = true
is_insecure _ = false

-- The session checks no certificate.
abbrev pub trusts_anyone : List SessionOption → Bool
trusts_anyone options = any is_insecure options

by_tests :
    (no_version no_ca : Bool) (version : String)
    → trusts_anyone (
        (if no_version then [] else set_version version ∷ [])
        ++ (if no_ca then set_insecure ∷ [] else []))
      ≡ no_ca
by_tests true true version = refl
by_tests true false version = refl
by_tests false true version = refl
by_tests false false version = refl

trusts_anyone-session_options :
    (config : AviClientConfig) (version : String)
    → trusts_anyone (session_options config version) ≡ (config.ca == "")
unfolding session_options
trusts_anyone-session_options config version = by_tests (version == "") (config.ca == "") version

unless_err :
    {A : Type 0} (b : Bool) (e : Error) (r : Result A) (a : A)
    → (if b then err e else r) ≡ ok a
    → (b ≡ false) × (r ≡ ok a)
unless_err true e r a h = cc
unless_err false e r a h = (refl, h)

abbrev value_or : {A : Type 0} → A → Result A → A
value_or default (ok a) = a
value_or default (err e) = default

bind-ok :
    {A B : Type 0} (r : Result A) (f : A → Result B) (b : B)
    → (r >>= f) ≡ ok b
    → (a : A) × (r ≡ ok a) × (f a ≡ ok b)
bind-ok (ok a) f b h = (a, refl, h)
bind-ok (err e) f b h = cc

module _ (ans : Answers) where
  logged_in-ok :
      (config : AviClientConfig) (options : List SessionOption) (r : Result (Unit {0}))
      (client : RealAviClient)
      → logged_in ans config options r ≡ ok client
      → (r ≡ ok tt)
        × (client ≡ record {
          config = config;
          server = config.server_ip;
          user = config.username;
          options = options;
        })
  logged_in-ok config options (err e) client h = cc
  logged_in-ok config options (ok u) client h = (refl, sym (ap (value_or client) h))

  none_empty :
      (a b c d : Bool)
      → (a || b || c || d) ≡ false
      → (a ≡ false) × (b ≡ false) × (c ≡ false) × (d ≡ false)
  none_empty false false false false h = (refl, refl, refl, refl)
  none_empty false false false true h = cc
  none_empty false false true d h = cc
  none_empty false true c d h = cc
  none_empty true b c d h = cc

  -- The options of a session: the password; a transport that trusts the certificate, where there is one; the version,
  -- where one is asked for; and no check of certificates where there is no certificate.
  abbrev pub session_of : String → String → String → List SessionOption
  session_of password certificate version =
      set_password password
        ∷ set_transport (if certificate == "" then no_transport else trusting certificate "")
        ∷ (if version == "" then [] else set_version version ∷ [])
      ++ (if certificate == "" then set_insecure ∷ [] else [])

  -- The secrets exist, the client is for the address and has the credentials and the certificate of the secrets, the
  -- AVI Controller accepted them, and the session checks no certificate exactly where the secret has none.
  pub record IsClientOf (controller_ip : String) (cred ca : NamespacedName) (version : String)
      (client : RealAviClient) : Type 0 where
    pub address : (controller_ip == "") ≡ false
    pub credential_name : (cred.name == "") ≡ false
    pub credential_namespace : (cred.namespace == "") ≡ false
    pub authority_name : (ca.name == "") ≡ false
    pub authority_namespace : (ca.namespace == "") ≡ false
    pub credential : Dict String
    pub authority : Dict String
    pub credential_found : ans.get_secret cred ≡ ok credential
    pub authority_found : ans.get_secret ca ≡ ok authority
    pub server_ip : client.config.server_ip ≡ controller_ip
    pub username : client.config.username ≡ index "username" credential
    pub password : client.config.password ≡ index "password" credential
    pub certificate : client.config.ca ≡ index "certificateAuthorityData" authority
    pub server : client.server ≡ controller_ip
    pub user : client.user ≡ index "username" credential
    pub options :
        client.options
        ≡ session_of
            (index "password" credential)
            (index "certificateAuthorityData" authority)
            version
    pub accepted : ans.log_in controller_ip (index "username" credential) client.options ≡ ok tt
    pub unchecked :
        trusts_anyone client.options ≡ (index "certificateAuthorityData" authority == "")

  -- Where NewAviClientFromSecrets returns a client, the address and the names and namespaces of both secrets are not empty
  -- and both secrets were found; the client is for the address, has the user name and the password of the one secret and the
  -- certificate of the other, and has logged in with them. The options of its session are the password, a transport that
  -- trusts the certificate where there is one, and the version where one is asked for; the session checks no certificate of
  -- the AVI Controller exactly where the secret holds no certificate.
  pub new_avi_client_from_secrets-IsClientOf :
      (controller_ip : String) (cred ca : NamespacedName) (version : String)
      (client : RealAviClient)
      → new_avi_client_from_secrets ans controller_ip cred ca version ≡ ok client
      → IsClientOf controller_ip cred ca version client
  unfolding new_avi_client_from_secrets new_avi_client session_options
  new_avi_client_from_secrets-IsClientOf controller_ip cred ca version client h =
      let given = unless_err (controller_ip == "") err_empty_input _ client h in
      let named = unless_err (some_empty ans cred ca) err_empty_input _ client given.1 in
      let names =
        none_empty (cred.name == "") (cred.namespace == "") (ca.name == "") (ca.namespace == "")
          named.0 in
      let credential = bind-ok (ans.get_secret cred) _ client named.1 in
      let authority = bind-ok (ans.get_secret ca) _ client credential.2 in
      let config = config_of ans controller_ip credential.0 authority.0 in
      let made = logged_in-ok config (session_options config version) _ client authority.2 in
      record {
        address = given.0;
        credential_name = names.0;
        credential_namespace = names.1;
        authority_name = names.2;
        authority_namespace = names.3;
        credential = credential.0;
        authority = authority.0;
        credential_found = credential.1;
        authority_found = authority.1;
        server_ip = ap (λ (c : RealAviClient). c.config.server_ip) made.1;
        username = ap (λ (c : RealAviClient). c.config.username) made.1;
        password = ap (λ (c : RealAviClient). c.config.password) made.1;
        certificate = ap (λ (c : RealAviClient). c.config.ca) made.1;
        server = ap (λ (c : RealAviClient). c.server) made.1;
        user = ap (λ (c : RealAviClient). c.user) made.1;
        options = ap (λ (c : RealAviClient). c.options) made.1;
        accepted =
            subst
              (λ (c : RealAviClient).
                ans.log_in controller_ip (index "username" credential.0) c.options ≡ ok tt)
              (sym made.1) made.0;
        unchecked =
            ap (λ (c : RealAviClient). trusts_anyone c.options) made.1
            ∙ trusts_anyone-session_options config version;
      }
