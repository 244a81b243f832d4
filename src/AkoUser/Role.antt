-- ===== src/AkoUser/Role.antt =====
-- syncAkoUserRole and filterAkoRolePermissionByVersion, of user_controller.go and ako_role.go under
-- controllers/akodeploymentconfig/user/. Go visits a map in any order, so the order of the second
-- loop is an argument.
pub mod Sync
pub mod Complete
pub mod Fresh
mod Tests
use load_balancer_operator_f.Prelude.{
  String, Bool, true, false, not, ◌&&◌, ◌||◌, Option, none, some, List, [], ◌∷◌, ◌++◌, map, Dict,
  lookup, ◌==◌, if◌then◌else◌, is_some, is_empty, keep, any,
}
use load_balancer_operator_f.AkoUser.Permissions.{
  Permission, ako_role_permission_map, deprecate_permission_map,
}

-- `semver.Compare(version, other) >= 0`
abbrev pub AtLeast : Type 0
AtLeast = String → String → Bool

-- `AkoRolePermissionMap[resource]`
unfoldable pub desired_type : String → Option String
desired_type resource = lookup resource ako_role_permission_map

abbrev pub reached : AtLeast → String → Option String → Bool
reached at_least version none = false
reached at_least version (some v) = at_least version v

-- The condition of both deprecation checks.
unfoldable pub is_deprecated : AtLeast → String → String → Bool
is_deprecated at_least version resource =
    reached at_least version (lookup resource deprecate_permission_map)

unfoldable pub filter_ako_role_permission_by_version :
    AtLeast → List Permission → String → List Permission
filter_ako_role_permission_by_version at_least permissions version =
    keep (λ p. not (is_deprecated at_least version p.resource)) permissions

abbrev pub with_type : Permission → Option String → Permission
with_type p none = p
with_type p (some t) = if p.kind == t then p else record p { kind = t }

abbrev pub differs : Permission → Option String → Bool
differs p none = false
differs p (some t) = not (p.kind == t)

-- The body of the first loop: the permission afterwards, and whether it changed.
unfoldable pub correct : Permission → Permission
correct p = with_type p (desired_type p.resource)

unfoldable pub is_wrong : Permission → Bool
is_wrong p = differs p (desired_type p.resource)

unfoldable pub existing_resources : List Permission → List String
existing_resources [] = []
existing_resources (p ∷ ps) =
    let rest = existing_resources ps in
    if is_some (desired_type p.resource) then p.resource ∷ rest else rest

abbrev pub contains : List String → String → Bool
contains existing resource = any (λ r. r == resource) existing

-- The second loop: the permissions that it appends.
unfoldable pub missing : AtLeast → String → List String → Dict String → List Permission
missing at_least version existing [] = []
missing at_least version existing ((resource, t) ∷ order) =
    let rest = missing at_least version existing order in
    if contains existing resource || is_deprecated at_least version resource
    then rest
    else record { resource = resource; kind = t } ∷ rest

-- The privileges afterwards, and whether the role was changed.
unfoldable pub sync_ako_user_role :
    AtLeast → Dict String → List Permission → String → List Permission × Bool
sync_ako_user_role at_least order privileges version =
    let added = missing at_least version (existing_resources privileges) order in
    (map correct privileges ++ added, any is_wrong privileges || not (is_empty added))
