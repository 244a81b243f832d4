-- ===== src/AviInit.antt =====
-- initAVI of controllers/akodeploymentconfig/akodeploymentconfig_controller_avi_phase.go: the client of
-- the AVI Controller that the reconciler holds, and the mutex around its creation.
pub mod Lock
mod Tests
use load_balancer_operator_f.Prelude.{
  String, Bool, true, false, not, ◌||◌, Option, none, some, List, [], ◌∷◌, ◌==◌, if◌then◌else◌,
}
use load_balancer_operator_f.Kube.{Error, Result, ok, err}
use load_balancer_operator_f.Api.{AkoDeploymentConfig}

-- A client with its certificate and the answer of the AVI Controller to GetControllerVersion.
pub record AviClient : Type 0 where
  pub certificate : String
  pub controller_version : Result String

-- The field aviClient, an interface: nil, a nil pointer of the type of the client, or a client. The
-- second compares unequal to nil, and a call of its methods panics.
pub data Slot : Type 0 where
  no_client nil_pointer : Slot
  held : AviClient → Slot

-- The part of the reconciler that initAVI uses, with the mutex. `user_client` is the client of the user
-- reconciler, where there is one.
pub record AviState : Type 0 where
  pub avi_client : Slot
  pub locked : Bool
  pub user_client : Option Slot

-- How a call ends: it returns an error or none, it waits for the mutex, which no other code unlocks,
-- or it panics.
pub data Ended : Type 0 where
  returned : Option Error → Ended
  blocked panicked : Ended

-- getAviCAFromADC, and NewAviClientFromSecrets for a version.
pub record Answers : Type 0 where
  pub avi_ca : Result String
  pub new_client : String → Result AviClient

-- The client that a failed call of NewAviClientFromSecrets gives is a nil pointer.
abbrev pub slot_of : Result AviClient → Slot
slot_of (ok c) = held c
slot_of (err e) = nil_pointer

abbrev pub is_nil : Slot → Bool
is_nil no_client = true
is_nil _ = false

abbrev pub with_client : AviState → Slot → AviState
with_client s slot = record s { avi_client = slot }

abbrev pub with_lock : AviState → Bool → AviState
with_lock s b = record s { locked = b }

module _ (ans : Answers) (obj : AkoDeploymentConfig) where
  -- The end, after the mutex is unlocked; the last test is whether the certificate has changed.
  abbrev pub init_user : Bool → AviState → Option Slot → AviState × Ended
  init_user true s u = (record s { user_client = some s.avi_client }, returned none)
  init_user false s none = (record s { user_client = some s.avi_client }, returned none)
  init_user false s (some c) = (s, returned none)

  abbrev pub unlocked : Bool → AviState → AviState × Ended
  unlocked re_init s = init_user re_init (with_lock s false) s.user_client

  -- The client with the version of the AVI Controller.
  abbrev pub re_created : Bool → AviState → Result AviClient → AviState × Ended
  re_created re_init s (ok c) = unlocked re_init (with_client s (held c))
  re_created re_init s (err e) = (with_client s nil_pointer, returned (some e))

  abbrev pub check_version : Bool → AviState → Result String → AviState × Ended
  check_version re_init s (err e) = (s, returned (some e))
  check_version re_init s (ok version) =
      if obj.spec.controller_version == version
      then unlocked re_init s
      else re_created re_init s (ans.new_client version)

  abbrev pub created : Bool → AviState → Result AviClient → AviState × Ended
  created re_init s (err e) = (with_client s nil_pointer, returned (some e))
  created re_init s (ok c) = check_version re_init (with_client s (held c)) c.controller_version

  -- Under the mutex. The test is whether a client is to be created.
  abbrev pub create_by : Bool → Bool → AviState → AviState × Ended
  create_by true re_init s = created re_init s (ans.new_client obj.spec.controller_version)
  create_by false re_init s = unlocked re_init s

  abbrev pub lock_by : Bool → Bool → AviState → AviState × Ended
  lock_by true re_init s = (s, blocked)
  lock_by false re_init s = create_by (is_nil s.avi_client || re_init) re_init (with_lock s true)

  abbrev pub with_ca : String → AviState → Result String → AviState × Ended
  with_ca current s (err e) = (s, returned (some e))
  with_ca current s (ok new_ca) = lock_by s.locked (not (current == new_ca)) s

  abbrev pub init_from : Slot → AviState → AviState × Ended
  init_from no_client s = with_ca "" s ans.avi_ca
  init_from nil_pointer s = (s, panicked)
  init_from (held c) s = with_ca c.certificate s ans.avi_ca

  unfoldable pub init_avi : AviState → AviState × Ended
  init_avi s = init_from s.avi_client s
