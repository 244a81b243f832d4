-- ===== src/AkoUser/Account/Runs.antt =====
-- What createOrUpdateAviUser writes to the AVI Controller.
use load_balancer_operator_f.Prelude.{
  String, Bool, true, false, Option, some, List, Dict, Bool-cases, ◌≡◌, refl, sym, ◌∙◌, inl, inr,
}
use load_balancer_operator_f.Kube.{Result, ok, err}
use load_balancer_operator_f.Kube.Runs.{
  Runs, Any, run-pure, run-throw, run-bind, run-read, run-attempt-Any,
}
use load_balancer_operator_f.AkoUser.Permissions.{Permission}
use load_balancer_operator_f.AkoUser.Role.{AtLeast}
use load_balancer_operator_f.AkoUser.Role.Sync.{IsOrder}
use load_balancer_operator_f.AkoUser.Role.Complete.{IsSettled, sync_ako_user_role-IsSettled}
use load_balancer_operator_f.AkoUser.Role.Fresh.{filter_ako_role_permission-IsSettled}
use load_balancer_operator_f.AkoUser.Account.{
  AviUser, AviRole, Answers, Write, user_created, user_updated, role_created, role_updated,
  ako_user_role_name, with_prefix, synced_role, ensure_ako_user_role, new_role, role_or_new,
  get_or_create_ako_user_role, create_user, set_password, has_password, update_user, user_or_new,
  create_or_update_avi_user,
}

-- What may be written for a user: the role with all that AKO wants of the version, the user with the
-- name and the password, and an update of the password only.
abbrev pub IsForUser : AtLeast → String → String → String → Write → Type 0
IsForUser at_least version username password (role_created r) =
    (r.name ≡ ako_user_role_name) × IsSettled at_least version r.privileges
IsForUser at_least version username password (role_updated r) =
    IsSettled at_least version r.privileges
IsForUser at_least version username password (user_created u) =
    (u.name ≡ username) × (u.password ≡ some password)
IsForUser at_least version username password (user_updated u) = u.password ≡ some password
IsForUser at_least version username password _ = ⊥

module _ (at_least : AtLeast) (order : Dict String) (ans : Answers) (h : IsOrder order)
    (version username password : String) where
  synced_role-Runs :
      (role : AviRole) (r : List Permission × Bool)
      → IsSettled at_least version r.0
      → Runs
          (IsForUser at_least version username password)
          Any
          (synced_role at_least order ans role r)
  synced_role-Runs role (ps, true) s =
      run-attempt-Any _ (role_updated (record role { privileges = ps }))
        (ans.role_update (record role { privileges = ps })) s
  synced_role-Runs role (ps, false) s = run-pure _ Any role tt

  ensure_ako_user_role-Runs :
      Runs
        (IsForUser at_least version username password)
        Any
        (ensure_ako_user_role at_least order ans version)
  unfolding ensure_ako_user_role
  ensure_ako_user_role-Runs = run-bind _ _ _ _ _ (run-read _ _) λ role e.
      synced_role-Runs role _
        (sync_ako_user_role-IsSettled at_least version order h role.privileges).0

  role_or_new-Runs :
      (tenant : Option String) (r : Result AviRole)
      → Runs
          (IsForUser at_least version username password)
          Any
          (role_or_new at_least order ans tenant version r)
  role_or_new-Runs tenant (ok role) = ensure_ako_user_role-Runs
  role_or_new-Runs tenant (err e) = elim (Bool-cases (ans.is_role_missing e)) [
    | inl t ↦
        let role = new_role at_least order ans tenant version in
        rw t (
          run-attempt-Any _ (role_created role) (ans.role_create role)
            (refl, filter_ako_role_permission-IsSettled at_least version))
    | inr f ↦ rw f (run-throw _ Any e)
  ]

  create_user-Runs :
      (tenant_name : String)
      → Runs
          (IsForUser at_least version username password)
          Any
          (create_user at_least order ans version username password tenant_name)
  unfolding create_user get_or_create_ako_user_role
  create_user-Runs tenant_name = run-bind _ _ _ _ _ (run-read _ _) λ tenant e.
      run-bind _ Any _ _ _ (role_or_new-Runs tenant (ans.role_by_name ako_user_role_name)) λ role u.
        run-bind _ Any _ _ _ (run-attempt-Any _ _ _ (refl, refl)) λ x y. run-pure _ Any tt tt

  set_password-Runs :
      (user : AviUser)
      → Runs
          (IsForUser at_least version username password)
          Any
          (set_password at_least order ans user password)
  set_password-Runs user =
      elim (Bool-cases (has_password at_least order ans user.password password)) [
        | inl t ↦ rw t (run-pure _ Any user tt)
        | inr f ↦ rw f (
            run-attempt-Any _ (user_updated (record user { password = some password }))
              (ans.user_update (record user { password = some password })) refl)
      ]

  user_or_new-Runs :
      (tenant_name : String) (r : Result AviUser)
      → Runs
          (IsForUser at_least version username password)
          Any
          (user_or_new at_least order ans version username password tenant_name r)
  unfolding update_user
  user_or_new-Runs tenant_name (ok user) =
      run-bind _ Any _ _ _ ensure_ako_user_role-Runs
        λ role u. run-bind _ Any _ _ _ (set_password-Runs user) λ x y. run-pure _ Any tt tt
  user_or_new-Runs tenant_name (err e) = elim (Bool-cases (ans.is_user_missing e)) [
    | inl t ↦ rw t (create_user-Runs tenant_name)
    | inr f ↦ rw f (run-throw _ Any e)
  ]

ok-injective : (v w : String) → ok v ≡ ok w → v ≡ w
ok-injective v w e = cc

-- Where the AVI Controller tells its version, createOrUpdateAviUser does not panic; each role that it
-- writes has all that AKO wants of that version, a user that it creates has the name and the
-- password, and an update of the user sets the password.
pub create_or_update_avi_user-Runs :
    (at_least : AtLeast) (order : Dict String) (ans : Answers)
    (version username password tenant_name : String)
    → IsOrder order
    → ans.controller_version ≡ ok version
    → Runs
        (IsForUser at_least (with_prefix version) username password)
        Any
        (create_or_update_avi_user at_least order ans username password tenant_name)
unfolding create_or_update_avi_user
create_or_update_avi_user-Runs at_least order ans version username password tenant_name h e =
    run-bind _ _ _ _ _ (run-read _ _) λ v k.
      rw (ok-injective v version (sym k ∙ e)) (
        user_or_new-Runs at_least order ans h (with_prefix version) username password tenant_name _)
