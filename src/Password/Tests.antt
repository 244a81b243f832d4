-- ===== src/Password/Tests.antt =====
-- Tests of the password generator, and a witness.
use load_balancer_operator_f.Password.{fill, draw, Random, generate_password}
use load_balancer_operator_f.Go.Text.{codes}
use load_balancer_operator_f.Prelude.{ℕ, true, none, some, List, [], ◌∷◌, ◌≡◌, refl, arith}
use load_balancer_operator_f.Go.Int.{pos}
use load_balancer_operator_f.Password.Classes.{IsPassword, generate_password-IsPassword}

-- The first letter of each class, in order.
abbrev first_letters : Random
first_letters = record {
  intn = λ i n. 0;
  shuffle = λ bytes. bytes;
  intn-below = λ i n h. h;
  length-shuffle = λ bytes. refl;
  any-shuffle = λ p bytes. refl;
}

short_password :
    generate_password first_letters (pos 5) true true true true
    ≡ some (97 ∷ 65 ∷ 126 ∷ 48 ∷ 65 ∷ [])
unfolding generate_password draw codes fill
short_password = refl

-- There is no room for the fourth class.
too_short : generate_password first_letters (pos 3) true true true true ≡ none
unfolding generate_password draw codes
too_short = refl

-- As it is called for the user of a cluster.
generate_password-IsPassword_example :
    (bytes : List ℕ) × (generate_password first_letters (pos 10) true true true true ≡ some bytes)
    × IsPassword 10 true true true true bytes
generate_password-IsPassword_example =
    generate_password-IsPassword first_letters 10 true true true true (omega arith)
