-- ===== src/AkoUser/Role/Tests.antt =====
-- A role that lacks permissions, has one of the wrong type and has one that AKO does not know.
use load_balancer_operator_f.Prelude.{true, false, List, [], ◌∷◌, lookup, ◌≡◌, refl}
use load_balancer_operator_f.AkoUser.Permissions.{
  Permission, ako_role_permission, ako_role_permission_map,
}
use load_balancer_operator_f.AkoUser.Role.{
  AtLeast, desired_type, correct, sync_ako_user_role, filter_ako_role_permission_by_version,
}
use load_balancer_operator_f.AkoUser.Role.Sync.{of_unknown}
use load_balancer_operator_f.AkoUser.Role.Complete.{IsSettled, sync_ako_user_role-IsSettled}
use load_balancer_operator_f.AkoUser.Role.Fresh.{
  ako_role_permission_map-IsOrder, filter_ako_role_permission-synced,
}

-- Every version is new enough to deprecate.
abbrev newest : AtLeast
newest version other = true

abbrev old_role : List Permission
old_role =
    record { resource = "PERMISSION_POOL"; kind = "READ_ACCESS" }
    ∷ record { resource = "PERMISSION_OTHER"; kind = "READ_ACCESS" }
    ∷ []

correct_test :
    correct (record { resource = "PERMISSION_POOL"; kind = "READ_ACCESS" })
    ≡ record { resource = "PERMISSION_POOL"; kind = "WRITE_ACCESS" }
unfolding correct desired_type ako_role_permission_map lookup
correct_test = refl

sync_ako_user_role-IsSettled_example :
    let after = (sync_ako_user_role newest ako_role_permission_map old_role "v30.2.1").0 in
    IsSettled newest "v30.2.1" after × (of_unknown after ≡ of_unknown old_role)
sync_ako_user_role-IsSettled_example =
    sync_ako_user_role-IsSettled newest "v30.2.1" ako_role_permission_map
      ako_role_permission_map-IsOrder old_role

filter_ako_role_permission-synced_example :
    let ps = filter_ako_role_permission_by_version newest ako_role_permission "v30.2.1" in
    sync_ako_user_role newest ako_role_permission_map ps "v30.2.1" ≡ (ps, false)
filter_ako_role_permission-synced_example =
    filter_ako_role_permission-synced newest "v30.2.1" ako_role_permission_map
      ako_role_permission_map-IsOrder
