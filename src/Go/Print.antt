-- ===== src/Go/Print.antt =====
-- What the code prints: strconv.Itoa of small numbers, IP.String of the package net, and
-- json.Marshal of texts and of lists.
mod Tests
use Prim.Native.Char.{Char, code}
use load_balancer_operator_f.Prelude.{
  ℕ, zero, suc, ◌+◌, ◌*◌, ◌/◌, ◌%◌, String, ◌⧺◌, Bool, true, false, ◌&&◌, ◌||◌, List, [], ◌∷◌, ltb,
  leb, eqb, if◌then◌else◌, length, is_empty, take, drop,
}
use load_balancer_operator_f.Go.Net.{Ip, to_4}

digit_from : ℕ → List String → String
digit_from n [] = ""
digit_from zero (d ∷ ds) = d
digit_from (suc n) (d ∷ ds) = digit_from n ds

unfoldable pub digit : ℕ → String
unfolding digit_from
digit n = digit_from n (
    "0" ∷ "1" ∷ "2" ∷ "3" ∷ "4" ∷ "5" ∷ "6" ∷ "7" ∷ "8" ∷ "9" ∷ "a" ∷ "b" ∷ "c" ∷ "d" ∷ "e" ∷ "f"
    ∷ [])

-- strconv.Itoa below 1000.
unfoldable pub itoa : ℕ → String
unfolding digit
itoa n =
    if ltb n 10
    then digit n
    else if ltb n 100
    then digit (n / 10) ⧺ digit (n % 10)
    else digit (n / 100) ⧺ digit (n / 10 % 10) ⧺ digit (n % 10)

-- A 16-bit group in hexadecimal, without leading zeros.
unfoldable pub hex : ℕ → String
unfolding digit
hex n =
    if ltb n 16
    then digit n
    else if ltb n 256
    then digit (n / 16) ⧺ digit (n % 16)
    else if ltb n 4096
    then digit (n / 256) ⧺ digit (n / 16 % 16) ⧺ digit (n % 16)
    else digit (n / 4096) ⧺ digit (n / 256 % 16) ⧺ digit (n / 16 % 16) ⧺ digit (n % 16)

-- A list with a separator between its elements.
unfoldable pub join_texts : String → List String → String
join_texts sep [] = ""
join_texts sep (s ∷ []) = s
join_texts sep (s ∷ t ∷ ts) = s ⧺ sep ⧺ join_texts sep (t ∷ ts)

texts_of : (ℕ → String) → List ℕ → List String
texts_of f [] = []
texts_of f (n ∷ ns) = f n ∷ texts_of f ns

pairs : Ip → List ℕ
pairs (a ∷ b ∷ bs) = (a * 256 + b) ∷ pairs bs
pairs _ = []

-- The zero groups at the start.
zeros : List ℕ → ℕ
zeros [] = 0
zeros (g ∷ gs) = let rest = zeros gs in if eqb g 0 then suc rest else 0

-- The start and the length of the first longest run of zero groups; the arguments are the place, and
-- the best run before it.
longest : ℕ → ℕ × ℕ → List ℕ → ℕ × ℕ
unfolding zeros
longest i best [] = best
longest i (at, n) (g ∷ gs) =
    longest (i + 1) (if ltb n (zeros (g ∷ gs)) then (i, zeros (g ∷ gs)) else (at, n)) gs

-- A run of two or more is written as "::".
compressed : List ℕ → ℕ × ℕ → String
unfolding join_texts texts_of hex
compressed gs (at, n) =
    if ltb n 2
    then join_texts ":" (texts_of hex gs)
    else join_texts ":" (texts_of hex (take at gs))
      ⧺ "::"
      ⧺ join_texts ":" (texts_of hex (drop (at + n) gs))

-- IP.String, of an address that ParseIP or ParseCIDR gives.
unfoldable pub ip_string : Ip → String
unfolding compressed longest pairs join_texts texts_of itoa to_4
ip_string ip =
    if is_empty (to_4 ip)
    then compressed (pairs ip) (longest 0 (0, 0) (pairs ip))
    else join_texts "." (texts_of itoa (to_4 ip))

-- The four digits of an escape.
hex_4 : ℕ → String
unfolding digit
hex_4 n = digit (n / 4096 % 16) ⧺ digit (n / 256 % 16) ⧺ digit (n / 16 % 16) ⧺ digit (n % 16)

escape : Char → String
unfolding hex_4
escape c =
    if eqb (code c) b'"'
    then "\\\""
    else if eqb (code c) 92
    then "\\\\"
    else if eqb (code c) 8
    then "\\b"
    else if eqb (code c) 12
    then "\\f"
    else if eqb (code c) 10
    then "\\n"
    else if eqb (code c) 13
    then "\\r"
    else if eqb (code c) 9
    then "\\t"
    else if ltb (code c) 32
        || eqb (code c) b'<'
        || eqb (code c) b'>'
        || eqb (code c) b'&'
        || eqb (code c) 0x2028
        || eqb (code c) 0x2029
    then "\\u" ⧺ hex_4 (code c)
    else String.◌∷◌ c String.[]

escaped : String → String
unfolding escape
escaped String.[] = ""
escaped (String.◌∷◌ c s) = escape c ⧺ escaped s

-- json.Marshal of a text, with Go's escapes for HTML.
unfoldable pub json_text : String → String
unfolding escaped
json_text s = "\"" ⧺ escaped s ⧺ "\""

-- A document of elements that are documents.
unfoldable pub json_list : List String → String
unfolding join_texts
json_list ds = "[" ⧺ join_texts "," ds ⧺ "]"

texts : List String → List String
unfolding json_text
texts [] = []
texts (s ∷ ss) = json_text s ∷ texts ss

-- json.Marshal of a non-empty []string.
unfoldable pub json_texts : List String → String
unfolding json_list texts
json_texts ss = json_list (texts ss)

-- An object from its fields that are not left out.
unfoldable pub json_object : List String → String
unfolding join_texts
json_object fields = "{" ⧺ join_texts "," fields ⧺ "}"

unfoldable pub json_field : String → String → String
unfolding json_text
json_field name document = json_text name ⧺ ":" ⧺ document
