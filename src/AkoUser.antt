-- ===== src/AkoUser.antt =====
-- controllers/akodeploymentconfig/user/: the AVI user that AKO runs as, and its role. The permissions
-- are in AkoUser/Permissions.antt, the sync of the role in AkoUser/Role.antt, the account in the AVI
-- Controller in AkoUser/Account.antt, and its secret in AkoUser/Reconcile.antt.
pub mod Permissions
pub mod Role
pub mod Account
pub mod Reconcile
mod Tests
