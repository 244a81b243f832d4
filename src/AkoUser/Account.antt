-- ===== src/AkoUser/Account.antt =====
-- createOrUpdateAviUser and the role that it ensures, of
-- controllers/akodeploymentconfig/user/user_controller.go. What the API server and the AVI Controller
-- answer is an interface; each run lists the writes that it attempts.
pub mod Runs
use Prim.Native.Char.{code}
use load_balancer_operator_f.Prelude.{
  eqb, String, Bool, true, false, not, ◌&&◌, ◌||◌, Option, none, some, List, [], ◌∷◌, Dict, ◌==◌,
  ◌⧺◌, if◌then◌else◌,
}
use load_balancer_operator_f.Kube.{Error, Result, ok, err, NamespacedName}
use load_balancer_operator_f.Kube.Exec.{Exec, pure, throw, read, attempt, ◌>>=◌}
use load_balancer_operator_f.AkoUser.Permissions.{Permission, ako_role_permission}
use load_balancer_operator_f.AkoUser.Role.{
  AtLeast, sync_ako_user_role, filter_ako_role_permission_by_version,
}

abbrev pub ako_user_role_name : String
ako_user_role_name = "ako-essential-role"

abbrev pub avi_certificate_key : String
avi_certificate_key = "certificateAuthorityData"

-- corev1.Secret; `controller` is the name and the uid of the owner that it has, if any
pub record Secret : Type 0 where
  pub name : String
  pub namespace : String
  pub controller : Option (String × String)
  pub contents : Dict String

-- models.User and models.UserRole
pub record AviUser : Type 0 where
  pub name : String
  pub username : Option String
  pub password : Option String
  pub default_tenant : Option String
  pub access : List (Option String × Option String)

pub record AviRole : Type 0 where
  pub name : String
  pub url : Option String
  pub tenant : Option String
  pub privileges : List Permission

pub record Answers : Type 0 where
  pub get_secret : NamespacedName → Result Secret
  pub create_secret : Secret → Result (Unit {0})
  pub update_secret : Secret → Result (Unit {0})
  pub delete_secret : Secret → Result (Unit {0})
  pub controller_version : Result String
  pub user_by_name : String → Result AviUser
  pub user_create : AviUser → Result AviUser
  pub user_update : AviUser → Result AviUser
  pub user_delete : String → Result (Unit {0})
  pub tenant_url : String → Result (Option String)
  pub role_by_name : String → Result AviRole
  pub role_create : AviRole → Result AviRole
  pub role_update : AviRole → Result AviRole
  -- the error says that there is no such user or role
  pub is_user_missing : Error → Bool
  pub is_role_missing : Error → Bool
  -- utils.GenereatePassword(10, true, true, true, true)
  pub generated_password : String

pub data Write : Type 0 where
  secret_created secret_updated secret_deleted : Secret → Write
  user_created user_updated : AviUser → Write
  user_deleted : String → Write
  role_created role_updated : AviRole → Write

-- A version that does not start with the letter v gets one, unless it is empty.
unfoldable pub with_prefix : String → String
with_prefix String.[] = String.[]
with_prefix (String.◌∷◌ c s) = if eqb (code c) b'v' then String.◌∷◌ c s else "v" ⧺ String.◌∷◌ c s

module _ (at_least : AtLeast) (order : Dict String) (ans : Answers) where
  abbrev pub synced_role : AviRole → List Permission × Bool → Exec Write AviRole
  synced_role role (ps, true) =
      attempt (role_updated (record role { privileges = ps }))
        (ans.role_update (record role { privileges = ps }))
  synced_role role (ps, false) = pure role

  unfoldable pub ensure_ako_user_role : String → Exec Write AviRole
  ensure_ako_user_role version = do
    role ← read (ans.role_by_name ako_user_role_name)
    synced_role role (sync_ako_user_role at_least order role.privileges version)

  abbrev pub new_role : Option String → String → AviRole
  new_role tenant version = record {
    name = ako_user_role_name;
    url = none;
    tenant = tenant;
    privileges = filter_ako_role_permission_by_version at_least ako_role_permission version;
  }

  abbrev pub role_or_new : Option String → String → Result AviRole → Exec Write AviRole
  role_or_new tenant version (ok role) = ensure_ako_user_role version
  role_or_new tenant version (err e) =
      if ans.is_role_missing e
      then attempt (role_created (new_role tenant version))
          (ans.role_create (new_role tenant version))
      else throw e

  unfoldable pub get_or_create_ako_user_role : Option String → String → Exec Write AviRole
  get_or_create_ako_user_role tenant version =
      role_or_new tenant version (ans.role_by_name ako_user_role_name)

  abbrev pub new_user : String → String → String → Option String → Option String → AviUser
  new_user version username password tenant role = record {
    name = username;
    username = if at_least version "v30.0.0" then some username else none;
    password = some password;
    default_tenant = tenant;
    access = (role, tenant) ∷ [];
  }

  unfoldable pub create_user : String → String → String → String → Exec Write Unit
  create_user version username password tenant_name = do
    tenant ← read (ans.tenant_url (if tenant_name == "" then "admin" else tenant_name))
    role ← get_or_create_ako_user_role tenant version
    let user = new_user version username password tenant role.url
    _ ← attempt (user_created user) (ans.user_create user)
    pure tt

  abbrev pub has_password : Option String → String → Bool
  has_password none password = false
  has_password (some p) password = p == password

  abbrev pub set_password : AviUser → String → Exec Write AviUser
  set_password user password =
      if has_password user.password password
      then pure user
      else attempt (user_updated (record user { password = some password }))
          (ans.user_update (record user { password = some password }))

  unfoldable pub update_user : String → String → AviUser → Exec Write Unit
  update_user version password user = do
    _ ← ensure_ako_user_role version
    _ ← set_password user password
    pure tt

  abbrev pub user_or_new : String → String → String → String → Result AviUser → Exec Write Unit
  user_or_new version username password tenant_name (ok user) = update_user version password user
  user_or_new version username password tenant_name (err e) =
      if ans.is_user_missing e then create_user version username password tenant_name else throw e

  unfoldable pub create_or_update_avi_user : String → String → String → Exec Write Unit
  create_or_update_avi_user username password tenant_name = do
    version ← read ans.controller_version
    user_or_new (with_prefix version) username password tenant_name (ans.user_by_name username)
