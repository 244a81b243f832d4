-- ===== src/Kube/Runs.antt =====
-- What holds of a run: a property of each write, and a postcondition of the value that it returns. A
-- run that has them does not panic.
use load_balancer_operator_f.Prelude.{Option, none, some, ◌≡◌, refl, All, All-append}
use load_balancer_operator_f.Kube.{Error, Result, ok, err}
use load_balancer_operator_f.Kube.Exec.{
  Outcome, returns, fails, panics, Exec, pure, throw, read, check, unless_panic, attempt, ◌>>=◌,
}

abbrev pub Holds : {A : Type 0} → (A → Type 0) → Outcome A → Type 0
Holds Q (returns a) = Q a
Holds Q (fails e) = Unit
Holds Q panics = ⊥

abbrev pub Any : {A : Type 0} → A → Type 0
Any a = Unit

-- What is known of an answer of the server, where it is not an error.
abbrev pub Answer : {A : Type 0} → (A → Type 0) → Result A → Type 0
Answer Q (ok a) = Q a
Answer Q (err e) = Unit

module _ {W : Type 0} (P : W → Type 0) where
  pub record Runs {A : Type 0} (Q : A → Type 0) (m : Exec W A) : Type 0 where
    pub writes : All P m.0
    pub ends : Holds Q m.1

  pub run-pure : {A : Type 0} (Q : A → Type 0) (a : A) → Q a → Runs Q (pure a)
  unfolding pure
  run-pure Q a h = record { writes = tt; ends = h }

  pub run-throw : {A : Type 0} (Q : A → Type 0) (e : Error) → Runs Q (throw e)
  unfolding throw
  run-throw Q e = record { writes = tt; ends = tt }

  pub run-bind :
      {A B : Type 0} (Q : A → Type 0) (R : B → Type 0) (m : Exec W A) (f : A → Exec W B)
      → Runs Q m
      → ((a : A) → Q a → Runs R (f a))
      → Runs R (m >>= f)
  unfolding ◌>>=◌
  run-bind Q R (ws, returns a) f h k =
      let r = k a h.ends in
      record { writes = All-append P ws (f a).0 h.writes r.writes; ends = r.ends }
  run-bind Q R (ws, fails e) f h k = record { writes = h.writes; ends = tt }
  run-bind Q R (ws, panics) f h k = absurd h.ends

  -- The postcondition of a read is the equation of its value.
  pub run-read : {A : Type 0} (r : Result A) → Runs (λ a. r ≡ ok a) (read r)
  unfolding read
  run-read (ok a) = record { writes = tt; ends = refl }
  run-read (err e) = record { writes = tt; ends = tt }

  pub run-check : (o : Option Error) → Runs (λ u. o ≡ none) (check o)
  unfolding check
  run-check none = record { writes = tt; ends = refl }
  run-check (some e) = record { writes = tt; ends = tt }

  -- A value that is present, with what is known of it.
  pub run-unless_panic :
      {A : Type 0} (Q : A → Type 0) (o : Option A) (a : A)
      → o ≡ some a
      → Q a
      → Runs Q (unless_panic o)
  unfolding unless_panic
  run-unless_panic Q o a e h = rw e (record { writes = tt; ends = h })

  pub run-attempt : {A : Type 0} (w : W) (r : Result A) → P w → Runs (λ a. r ≡ ok a) (attempt w r)
  unfolding attempt
  run-attempt w (ok a) h = record { writes = (h, tt); ends = refl }
  run-attempt w (err e) h = record { writes = (h, tt); ends = tt }

  -- What is known of every answer of the server.
  pub run-attempt_of :
      {A : Type 0} (Q : A → Type 0) (w : W) (r : Result A) → P w → Answer Q r → Runs Q (attempt w r)
  unfolding attempt
  run-attempt_of Q w (ok a) h k = record { writes = (h, tt); ends = k }
  run-attempt_of Q w (err e) h k = record { writes = (h, tt); ends = tt }

  pub run-read_of : {A : Type 0} (Q : A → Type 0) (r : Result A) → Answer Q r → Runs Q (read r)
  unfolding read
  run-read_of Q (ok a) k = record { writes = tt; ends = k }
  run-read_of Q (err e) k = record { writes = tt; ends = tt }

  pub run-read-Any : {A : Type 0} (r : Result A) → Runs Any (read r)
  unfolding read
  run-read-Any (ok a) = record { writes = tt; ends = tt }
  run-read-Any (err e) = record { writes = tt; ends = tt }

  pub run-attempt-Any : {A : Type 0} (w : W) (r : Result A) → P w → Runs Any (attempt w r)
  unfolding attempt
  run-attempt-Any w (ok a) h = record { writes = (h, tt); ends = tt }
  run-attempt-Any w (err e) h = record { writes = (h, tt); ends = tt }

  -- The postcondition is the equation of the value.
  pub run-value :
      {A : Type 0} (Q : A → Type 0) (m : Exec W A) → Runs Q m → Runs (λ a. m.1 ≡ returns a) m
  run-value Q (ws, returns a) h = record { writes = h.writes; ends = refl }
  run-value Q (ws, fails e) h = record { writes = h.writes; ends = tt }
  run-value Q (ws, panics) h = absurd h.ends
