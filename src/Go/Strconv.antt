-- ===== src/Go/Strconv.antt =====
-- strconv.Atoi and strconv.FormatBool.

use load_balancer_operator_f.Prelude.{
  ℕ, ◌-◌, ◌^◌, String, Bool, true, false, Option, none, some, List, [], ◌∷◌, leb, ltb, eqb,
  if◌then◌else◌,
}
use load_balancer_operator_f.Go.Text.{codes, decimal}
use load_balancer_operator_f.Go.Int.{ℤ, pos, negsuc}

abbrev positive : Option ℕ → Option ℤ
positive none = none
positive (some n) = if ltb n (2 ^ 63) then some (pos n) else none

abbrev negative : Option ℕ → Option ℤ
negative none = none
negative (some n) =
    if eqb n 0 then some (pos 0) else if leb n (2 ^ 63) then some (negsuc (n - 1)) else none

atoi_codes : List ℕ → Option ℤ
unfolding decimal
atoi_codes [] = none
atoi_codes (c ∷ cs) =
    if eqb c b'-'
    then negative (decimal cs)
    else if eqb c b'+'
    then positive (decimal cs)
    else positive (decimal (c ∷ cs))

-- `none` is the error: no numeral, or one outside the range of int.
unfoldable pub atoi : String → Option ℤ
unfolding atoi_codes codes
atoi s = atoi_codes (codes s)

abbrev pub format_bool : Bool → String
format_bool true = "true"
format_bool false = "false"
