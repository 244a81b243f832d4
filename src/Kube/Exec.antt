-- ===== src/Kube/Exec.antt =====
-- A handler's run: the writes it attempts, in order, and how it ends.
use load_balancer_operator_f.Prelude.{List, [], ◌∷◌, ◌++◌, Option, none, some}
use load_balancer_operator_f.Kube.{Error, Result, ok, err}

-- A run returns a value or an error, or it panics.
pub data Outcome (A : Type 0) : Type 0 where
  returns : A → Outcome A
  fails : Error → Outcome A
  panics : Outcome A

abbrev pub Exec : Type 0 → Type 0 → Type 0
Exec W A = List W × Outcome A

module _ {W : Type 0} where
  unfoldable pub pure : {A : Type 0} → A → Exec W A
  pure a = ([], returns a)

  unfoldable pub throw : {A : Type 0} → Error → Exec W A
  throw e = ([], fails e)

  infixl 5 ◌>>=◌ ◌>>◌
  unfoldable pub ◌>>=◌ : {A B : Type 0} → Exec W A → (A → Exec W B) → Exec W B
  (ws, returns a) >>= f = let r = f a in (ws ++ r.0, r.1)
  (ws, fails e) >>= f = (ws, fails e)
  (ws, panics) >>= f = (ws, panics)

  unfoldable pub ◌>>◌ : {A B : Type 0} → Exec W A → Exec W B → Exec W B
  unfolding ◌>>=◌
  m >> k = m >>= λ _. k

  -- A call that writes nothing.
  unfoldable pub read : {A : Type 0} → Result A → Exec W A
  read (ok a) = ([], returns a)
  read (err e) = ([], fails e)

  unfoldable pub check : Option Error → Exec W Unit
  check none = ([], returns tt)
  check (some e) = ([], fails e)

  -- A code path that panics on `none`.
  unfoldable pub unless_panic : {A : Type 0} → Option A → Exec W A
  unless_panic none = ([], panics)
  unless_panic (some a) = ([], returns a)

  -- An attempted write and the server's answer.
  unfoldable pub attempt : {A : Type 0} → W → Result A → Exec W A
  attempt w (ok a) = (w ∷ [], returns a)
  attempt w (err e) = (w ∷ [], fails e)
