-- ===== src/Password.antt =====
-- pkg/utils/password_generator.go. A password is the list of its bytes; `none` is a panic.
pub mod Classes
mod Tests
use load_balancer_operator_f.Prelude.{
  ℕ, zero, suc, ◌-◌, ◌<◌, String, ◌⧺◌, Bool, true, false, Option, none, some, List, [], ◌∷◌, ◌++◌,
  ◌≡◌, length, get_elem?, any, ltb, if◌then◌else◌,
}
use load_balancer_operator_f.Go.Int.{ℤ, pos, negsuc}
use load_balancer_operator_f.Go.Text.{codes}

-- The package math/rand: `intn i n` is the value of Intn(n) for the byte at the index i, and Shuffle permutes.
pub record Random : Type 0 where
  pub intn : ℕ → ℕ → ℕ
  pub shuffle : List ℕ → List ℕ
  pub intn-below : (i n : ℕ) → 0 < n → intn i n < n
  pub length-shuffle : (bytes : List ℕ) → length (shuffle bytes) ≡ length bytes
  pub any-shuffle : (p : ℕ → Bool) (bytes : List ℕ) → any p (shuffle bytes) ≡ any p bytes

abbrev pub numerics : String
numerics = "0123456789"

abbrev pub specials : String
specials = "~=+%^*/()[]{}/!@#$?|"

abbrev pub uppercases : String
uppercases = "ABCDEFGHIJKLMNOPQRSTUVWXYZ"

abbrev pub lowercases : String
lowercases = "abcdefghijklmnopqrstuvwxyz"

abbrev pub all_letters : String
all_letters = uppercases ⧺ lowercases ⧺ numerics ⧺ specials

abbrev pub and_then : {A B : Type 0} → Option A → (A → Option B) → Option B
and_then none f = none
and_then (some a) f = f a

abbrev pub appended : List ℕ → Option ℕ → Option (List ℕ)
appended buf none = none
appended buf (some b) = some (buf ++ b ∷ [])

module _ (rnd : Random) where
  unfoldable pub draw : ℕ → List ℕ → Option ℕ
  draw i letters = get_elem? letters (rnd.intn i (length letters))

  -- buf[i] = letters[rand.Intn(len(letters))] at the first free index, which panics where there is none.
  abbrev pub put_by : Bool → List ℕ → List ℕ → Option (List ℕ)
  put_by true letters buf = appended buf (draw (length buf) letters)
  put_by false letters buf = none

  abbrev pub put_if : Bool → String → ℕ → List ℕ → Option (List ℕ)
  put_if true letters size buf = put_by (ltb (length buf) size) (codes letters) buf
  put_if false letters size buf = some buf

  -- The loop for the rest of the bytes.
  unfoldable pub fill : ℕ → List ℕ → Option (List ℕ)
  fill zero buf = some buf
  fill (suc n) buf = and_then (appended buf (draw (length buf) (codes all_letters))) (fill n)

  abbrev pub shuffled : Option (List ℕ) → Option (List ℕ)
  shuffled none = none
  shuffled (some buf) = some (rnd.shuffle buf)

  unfoldable pub generate_password : ℤ → Bool → Bool → Bool → Bool → Option (List ℕ)
  generate_password (negsuc n) lower upper special numeric = none
  generate_password (pos size) lower upper special numeric = shuffled (
      and_then (put_if lower lowercases size []) (λ a.
        and_then (put_if upper uppercases size a) (λ b.
          and_then (put_if special specials size b)
            (λ c. and_then (put_if numeric numerics size c) (λ d. fill (size - length d) d)))))
