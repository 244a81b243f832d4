-- ===== src/Go/Text.antt =====
-- Texts as lists of code points: splitting at a separator, and decimal and hexadecimal numerals.
use Prim.Native.Char.{code}
use text.Mathlib.Text.{starts_with}
use text.Mathlib.TextLemmas.{append-nil, nil-append, cons-append}
use text.Mathlib.TextPositions.{starts_with-append}
use load_balancer_operator_f.Prelude.{
  ℕ, ◌+◌, ◌-◌, ◌*◌, String, ◌⧺◌, ◌≡◌, refl, subst, sym, true, false, ◌||◌, Bool, ◌&&◌, Option, none,
  some, List, [], ◌∷◌, leb, ltb, eqb, if◌then◌else◌, length,
}

unfoldable pub codes : String → List ℕ
codes String.[] = []
codes (String.◌∷◌ c s) = code c ∷ codes s

-- The part before the first `sep` and the part after it, if `sep` occurs.
unfoldable pub cut : ℕ → List ℕ → Option (List ℕ × List ℕ)
cut sep [] = none
cut sep (c ∷ cs) =
    let rest = cut sep cs in
    if eqb c sep then some ([], cs) else elim rest [ none ↦ none | some (a, b) ↦ some (c ∷ a, b) ]

push_piece : ℕ → ℕ → List (List ℕ) → List (List ℕ)
push_piece sep c [] = (c ∷ []) ∷ []
push_piece sep c (p ∷ ps) = (c ∷ p) ∷ ps

-- strings.Split by one character: never an empty list.
unfoldable pub split : ℕ → List ℕ → List (List ℕ)
unfolding push_piece
split sep [] = [] ∷ []
split sep (c ∷ cs) =
    let rest = split sep cs in if eqb c sep then [] ∷ rest else push_piece sep c rest

abbrev is_digit : ℕ → Bool
is_digit c = leb 48 c && leb c 57

-- A non-empty run of decimal digits.
digits_from : ℕ → List ℕ → Option ℕ
digits_from n [] = some n
digits_from n (c ∷ cs) =
    let rest = digits_from (n * 10 + (c - 48)) cs in if is_digit c then rest else none

unfoldable pub decimal : List ℕ → Option ℕ
unfolding digits_from
decimal [] = none
decimal (c ∷ cs) = digits_from 0 (c ∷ cs)

hex_digit : ℕ → Option ℕ
hex_digit c =
    if is_digit c
    then some (c - 48)
    else if leb 97 c && leb c 102
    then some (c - 87)
    else if leb 65 c && leb c 70
    then some (c - 55)
    else none

hex_from : ℕ → List ℕ → Option ℕ
unfolding hex_digit
hex_from n [] = some n
hex_from n (c ∷ cs) = elim (hex_digit c) [ none ↦ none | some d ↦ hex_from (n * 16 + d) cs ]

-- One to four hexadecimal digits.
unfoldable pub hexadecimal : List ℕ → Option ℕ
unfolding hex_from
hexadecimal [] = none
hexadecimal (c ∷ cs) = if ltb 4 (length (c ∷ cs)) then none else hex_from 0 (c ∷ cs)

-- strings.Contains(s, part).
unfoldable pub contains_text : String → String → Bool
contains_text String.[] part = starts_with String.[] part
contains_text (String.◌∷◌ c s) part = starts_with (String.◌∷◌ c s) part || contains_text s part

or-true : (a : Bool) {b : Bool} → b ≡ true → (a || b) ≡ true
or-true true h = refl
or-true false h = h

contains_text-of_starts :
    (s part : String) → starts_with s part ≡ true → contains_text s part ≡ true
unfolding contains_text
contains_text-of_starts String.[] part h = h
contains_text-of_starts (String.◌∷◌ c s) part h = rw h refl

starts_with_self : (s : String) → starts_with s s ≡ true
starts_with_self s =
    subst (λ (x : String). starts_with x s ≡ true) (append-nil s) (starts_with-append s "")

pub contains_text-append : (s part : String) → contains_text (s ⧺ part) part ≡ true
unfolding contains_text
contains_text-append String.[] part =
    subst (λ (x : String). contains_text x part ≡ true) (sym (nil-append part))
      (contains_text-of_starts part part (starts_with_self part))
contains_text-append (String.◌∷◌ c s) part =
    subst (λ (x : String). contains_text x part ≡ true) (sym (cons-append c s part))
      (or-true (starts_with (String.◌∷◌ c (s ⧺ part)) part) (contains_text-append s part))

pub contains_text_self : (s : String) → contains_text s s ≡ true
contains_text_self s = contains_text-of_starts s s (starts_with_self s)

-- The part after the last slash, or the whole text: the last element of strings.Split by "/".
unfoldable pub last_segment : String → String
last_segment String.[] = String.[]
last_segment (String.◌∷◌ c s) =
    let rest = last_segment s in
    if contains_text s "/" then rest else if eqb (code c) b'/' then s else String.◌∷◌ c s
