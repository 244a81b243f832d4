-- ===== src/AviInit/Tests.antt =====
-- A first call that succeeds, and failed calls with the call after them.
use load_balancer_operator_f.Prelude.{true, false, none, some, [], ◌∷◌, ◌≡◌, refl, List}
use load_balancer_operator_f.Kube.{message, Result, ok, err}
use load_balancer_operator_f.Api.{AkoDeploymentConfig}
use load_balancer_operator_f.Samples.{adc_of, no_selector}
use load_balancer_operator_f.AviInit.{
  AviClient, no_client, held, AviState, returned, blocked, panicked, Answers, init_avi,
}
use load_balancer_operator_f.AviInit.Lock.{
  Leaves, Succeeds, after_calls, init_avi-Leaves, init_avi-stuck,
}

abbrev start : AviState
start = record { avi_client = no_client; locked = false; user_client = none }

abbrev obj : AkoDeploymentConfig
obj = adc_of "install-ako-for-all" no_selector

abbrev client : AviClient
client = record { certificate = "ca"; controller_version = ok "30.2.1" }

abbrev mute : AviClient
mute = record { certificate = "ca"; controller_version = err (message "no answer") }

abbrev answers : Result AviClient → Answers
answers r = record { avi_ca = ok "ca"; new_client = λ version. r }

abbrev unreachable : Result AviClient
unreachable = err (message "unreachable")

first_test : init_avi (answers (ok client)) obj start ≡ (
  record { avi_client = held client; locked = false; user_client = some (held client) },
  returned none,
)
unfolding init_avi
first_test = refl

-- The AVI Controller did not tell its version, so the next call waits for the mutex.
blocked_test :
    (init_avi (answers (ok client)) obj (init_avi (answers (ok mute)) obj start).0).1 ≡ blocked
unfolding init_avi
blocked_test = refl

-- No client could be created, so the next call calls a method of a nil pointer.
panicked_test :
    (init_avi (answers (ok client)) obj (init_avi (answers unreachable) obj start).0).1 ≡ panicked
unfolding init_avi
panicked_test = refl

init_avi-Leaves_example :
    Leaves (answers (ok client)) start (init_avi (answers (ok client)) obj start)
init_avi-Leaves_example = init_avi-Leaves (answers (ok client)) obj start refl

abbrev stuck : AviState
stuck = record { avi_client = held mute; locked = true; user_client = none }

abbrev retries : List (Answers × AkoDeploymentConfig)
retries = (answers unreachable, obj) ∷ (answers (ok mute), obj) ∷ []

init_avi-stuck_example :
    ¬ Succeeds (init_avi (answers (ok client)) obj (after_calls retries stuck)).1
init_avi-stuck_example = init_avi-stuck stuck retries (answers (ok client)) obj refl
