-- ===== src/AkoUser/Permissions.antt =====
-- controllers/akodeploymentconfig/user/ako_role.go: the permissions of the AKO role, as the map that
-- the sync reads, as the list of a new role, and the versions that drop one.
use load_balancer_operator_f.Prelude.{String, List, [], ◌∷◌, Dict}

-- models.Permission; the AVI Controller requires both fields, so neither pointer is nil
pub record Permission : Type 0 where
  pub resource : String
  pub kind : String

abbrev permission : String → String → Permission
permission kind resource = record { resource = resource; kind = kind }

unfoldable pub ako_role_permission_map : Dict String
ako_role_permission_map =
    ("PERMISSION_VIRTUALSERVICE", "WRITE_ACCESS")
    ∷ ("PERMISSION_POOL", "WRITE_ACCESS")
    ∷ ("PERMISSION_POOLGROUP", "WRITE_ACCESS")
    ∷ ("PERMISSION_HTTPPOLICYSET", "WRITE_ACCESS")
    ∷ ("PERMISSION_NETWORKSECURITYPOLICY", "WRITE_ACCESS")
    ∷ ("PERMISSION_AUTOSCALE", "WRITE_ACCESS")
    ∷ ("PERMISSION_DNSPOLICY", "WRITE_ACCESS")
    ∷ ("PERMISSION_NETWORKPROFILE", "WRITE_ACCESS")
    ∷ ("PERMISSION_APPLICATIONPROFILE", "WRITE_ACCESS")
    ∷ ("PERMISSION_APPLICATIONPERSISTENCEPROFILE", "WRITE_ACCESS")
    ∷ ("PERMISSION_HEALTHMONITOR", "WRITE_ACCESS")
    ∷ ("PERMISSION_ANALYTICSPROFILE", "WRITE_ACCESS")
    ∷ ("PERMISSION_IPAMDNSPROVIDERPROFILE", "WRITE_ACCESS")
    ∷ ("PERMISSION_CUSTOMIPAMDNSPROFILE", "WRITE_ACCESS")
    ∷ ("PERMISSION_TRAFFICCLONEPROFILE", "WRITE_ACCESS")
    ∷ ("PERMISSION_VSDATASCRIPTSET", "WRITE_ACCESS")
    ∷ ("PERMISSION_PKIPROFILE", "WRITE_ACCESS")
    ∷ ("PERMISSION_SSLKEYANDCERTIFICATE", "WRITE_ACCESS")
    ∷ ("PERMISSION_SERVICEENGINEGROUP", "WRITE_ACCESS")
    ∷ ("PERMISSION_NETWORK", "WRITE_ACCESS")
    ∷ ("PERMISSION_VRFCONTEXT", "WRITE_ACCESS")
    ∷ ("PERMISSION_L4POLICYSET", "WRITE_ACCESS")
    ∷ ("PERMISSION_IPADDRGROUP", "READ_ACCESS")
    ∷ ("PERMISSION_STRINGGROUP", "READ_ACCESS")
    ∷ ("PERMISSION_PROTOCOLPARSER", "READ_ACCESS")
    ∷ ("PERMISSION_SSLPROFILE", "READ_ACCESS")
    ∷ ("PERMISSION_AUTHPROFILE", "READ_ACCESS")
    ∷ ("PERMISSION_PINGACCESSAGENT", "READ_ACCESS")
    ∷ ("PERMISSION_CERTIFICATEMANAGEMENTPROFILE", "READ_ACCESS")
    ∷ ("PERMISSION_HARDWARESECURITYMODULEGROUP", "READ_ACCESS")
    ∷ ("PERMISSION_SSOPOLICY", "READ_ACCESS")
    ∷ ("PERMISSION_WAFPROFILE", "READ_ACCESS")
    ∷ ("PERMISSION_WAFPOLICY", "READ_ACCESS")
    ∷ ("PERMISSION_CLOUD", "READ_ACCESS")
    ∷ ("PERMISSION_SYSTEMCONFIGURATION", "READ_ACCESS")
    ∷ ("PERMISSION_CONTROLLER", "READ_ACCESS")
    ∷ ("PERMISSION_TENANT", "READ_ACCESS")
    ∷ ("PERMISSION_NATPOLICY", "NO_ACCESS")
    ∷ ("PERMISSION_WAFPOLICYPSMGROUP", "NO_ACCESS")
    ∷ ("PERMISSION_ERRORPAGEPROFILE", "NO_ACCESS")
    ∷ ("PERMISSION_ERRORPAGEBODY", "NO_ACCESS")
    ∷ ("PERMISSION_ALERTCONFIG", "NO_ACCESS")
    ∷ ("PERMISSION_ALERT", "NO_ACCESS")
    ∷ ("PERMISSION_ACTIONGROUPCONFIG", "NO_ACCESS")
    ∷ ("PERMISSION_ALERTSYSLOGCONFIG", "NO_ACCESS")
    ∷ ("PERMISSION_ALERTEMAILCONFIG", "NO_ACCESS")
    ∷ ("PERMISSION_SNMPTRAPPROFILE", "NO_ACCESS")
    ∷ ("PERMISSION_TRAFFIC_CAPTURE", "NO_ACCESS")
    ∷ ("PERMISSION_SERVICEENGINE", "NO_ACCESS")
    ∷ ("PERMISSION_USER_CREDENTIAL", "NO_ACCESS")
    ∷ ("PERMISSION_REBOOT", "NO_ACCESS")
    ∷ ("PERMISSION_UPGRADE", "NO_ACCESS")
    ∷ ("PERMISSION_TECHSUPPORT", "NO_ACCESS")
    ∷ ("PERMISSION_INTERNAL", "NO_ACCESS")
    ∷ ("PERMISSION_CONTROLLERSITE", "NO_ACCESS")
    ∷ ("PERMISSION_IMAGE", "NO_ACCESS")
    ∷ ("PERMISSION_USER", "NO_ACCESS")
    ∷ ("PERMISSION_ROLE", "NO_ACCESS")
    ∷ ("PERMISSION_GSLB", "NO_ACCESS")
    ∷ ("PERMISSION_GSLBSERVICE", "NO_ACCESS")
    ∷ ("PERMISSION_GSLBGEODBPROFILE", "NO_ACCESS")
    ∷ []

unfoldable pub ako_role_permission : List Permission
ako_role_permission =
    permission "WRITE_ACCESS" "PERMISSION_VIRTUALSERVICE"
    ∷ permission "WRITE_ACCESS" "PERMISSION_POOL"
    ∷ permission "WRITE_ACCESS" "PERMISSION_POOLGROUP"
    ∷ permission "WRITE_ACCESS" "PERMISSION_HTTPPOLICYSET"
    ∷ permission "WRITE_ACCESS" "PERMISSION_NETWORKSECURITYPOLICY"
    ∷ permission "WRITE_ACCESS" "PERMISSION_AUTOSCALE"
    ∷ permission "WRITE_ACCESS" "PERMISSION_DNSPOLICY"
    ∷ permission "WRITE_ACCESS" "PERMISSION_NETWORKPROFILE"
    ∷ permission "WRITE_ACCESS" "PERMISSION_APPLICATIONPROFILE"
    ∷ permission "WRITE_ACCESS" "PERMISSION_APPLICATIONPERSISTENCEPROFILE"
    ∷ permission "WRITE_ACCESS" "PERMISSION_HEALTHMONITOR"
    ∷ permission "WRITE_ACCESS" "PERMISSION_ANALYTICSPROFILE"
    ∷ permission "WRITE_ACCESS" "PERMISSION_IPAMDNSPROVIDERPROFILE"
    ∷ permission "WRITE_ACCESS" "PERMISSION_CUSTOMIPAMDNSPROFILE"
    ∷ permission "WRITE_ACCESS" "PERMISSION_TRAFFICCLONEPROFILE"
    ∷ permission "READ_ACCESS" "PERMISSION_IPADDRGROUP"
    ∷ permission "READ_ACCESS" "PERMISSION_STRINGGROUP"
    ∷ permission "WRITE_ACCESS" "PERMISSION_VSDATASCRIPTSET"
    ∷ permission "READ_ACCESS" "PERMISSION_PROTOCOLPARSER"
    ∷ permission "READ_ACCESS" "PERMISSION_SSLPROFILE"
    ∷ permission "READ_ACCESS" "PERMISSION_AUTHPROFILE"
    ∷ permission "READ_ACCESS" "PERMISSION_PINGACCESSAGENT"
    ∷ permission "WRITE_ACCESS" "PERMISSION_PKIPROFILE"
    ∷ permission "WRITE_ACCESS" "PERMISSION_SSLKEYANDCERTIFICATE"
    ∷ permission "READ_ACCESS" "PERMISSION_CERTIFICATEMANAGEMENTPROFILE"
    ∷ permission "READ_ACCESS" "PERMISSION_HARDWARESECURITYMODULEGROUP"
    ∷ permission "READ_ACCESS" "PERMISSION_SSOPOLICY"
    ∷ permission "NO_ACCESS" "PERMISSION_NATPOLICY"
    ∷ permission "READ_ACCESS" "PERMISSION_WAFPROFILE"
    ∷ permission "READ_ACCESS" "PERMISSION_WAFPOLICY"
    ∷ permission "NO_ACCESS" "PERMISSION_WAFPOLICYPSMGROUP"
    ∷ permission "NO_ACCESS" "PERMISSION_ERRORPAGEPROFILE"
    ∷ permission "NO_ACCESS" "PERMISSION_ERRORPAGEBODY"
    ∷ permission "NO_ACCESS" "PERMISSION_ALERTCONFIG"
    ∷ permission "NO_ACCESS" "PERMISSION_ALERT"
    ∷ permission "NO_ACCESS" "PERMISSION_ACTIONGROUPCONFIG"
    ∷ permission "NO_ACCESS" "PERMISSION_ALERTSYSLOGCONFIG"
    ∷ permission "NO_ACCESS" "PERMISSION_ALERTEMAILCONFIG"
    ∷ permission "NO_ACCESS" "PERMISSION_SNMPTRAPPROFILE"
    ∷ permission "NO_ACCESS" "PERMISSION_TRAFFIC_CAPTURE"
    ∷ permission "READ_ACCESS" "PERMISSION_CLOUD"
    ∷ permission "NO_ACCESS" "PERMISSION_SERVICEENGINE"
    ∷ permission "WRITE_ACCESS" "PERMISSION_SERVICEENGINEGROUP"
    ∷ permission "WRITE_ACCESS" "PERMISSION_NETWORK"
    ∷ permission "WRITE_ACCESS" "PERMISSION_VRFCONTEXT"
    ∷ permission "NO_ACCESS" "PERMISSION_USER_CREDENTIAL"
    ∷ permission "READ_ACCESS" "PERMISSION_SYSTEMCONFIGURATION"
    ∷ permission "READ_ACCESS" "PERMISSION_CONTROLLER"
    ∷ permission "NO_ACCESS" "PERMISSION_REBOOT"
    ∷ permission "NO_ACCESS" "PERMISSION_UPGRADE"
    ∷ permission "NO_ACCESS" "PERMISSION_TECHSUPPORT"
    ∷ permission "NO_ACCESS" "PERMISSION_INTERNAL"
    ∷ permission "NO_ACCESS" "PERMISSION_CONTROLLERSITE"
    ∷ permission "NO_ACCESS" "PERMISSION_IMAGE"
    ∷ permission "NO_ACCESS" "PERMISSION_USER"
    ∷ permission "NO_ACCESS" "PERMISSION_ROLE"
    ∷ permission "READ_ACCESS" "PERMISSION_TENANT"
    ∷ permission "NO_ACCESS" "PERMISSION_GSLB"
    ∷ permission "NO_ACCESS" "PERMISSION_GSLBSERVICE"
    ∷ permission "NO_ACCESS" "PERMISSION_GSLBGEODBPROFILE"
    ∷ permission "WRITE_ACCESS" "PERMISSION_L4POLICYSET"
    ∷ []

unfoldable pub deprecate_permission_map : Dict String
deprecate_permission_map = ("PERMISSION_PINGACCESSAGENT", "v30.2.1") ∷ []
