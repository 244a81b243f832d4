-- ===== src/Password/Classes.antt =====
-- The generator returns a password of the length asked for, with a byte of each class that is asked for.
use load_balancer_operator_f.Prelude.{
  ℕ, zero, suc, ◌+◌, ◌-◌, ◌<◌, ◌≤◌, String, Bool, true, false, not, ◌||◌, Option, some, List, [],
  ◌∷◌, ◌++◌, ◌≡◌, refl, sym, ap, ◌∙◌, subst, length, length-append, any-append, get_elem?, any, eqb,
  eqb_iff, ltb, arith,
}
use load_balancer_operator_f.Go.Int.{pos}
use load_balancer_operator_f.Go.Text.{codes}
use load_balancer_operator_f.Password.{
  Random, numerics, specials, uppercases, lowercases, all_letters, and_then, appended, draw, put_by,
  put_if, fill, generate_password,
}

abbrev pub has_letter : String → List ℕ → Bool
has_letter letters bytes = any (λ b. any (eqb b) (codes letters)) bytes

abbrev count : Bool → ℕ
count true = 1
count false = 0

or_true : (b : Bool) → (b || true) ≡ true
or_true true = refl
or_true false = refl

any-append_left : (p : ℕ → Bool) (xs ys : List ℕ) → any p xs ≡ true → any p (xs ++ ys) ≡ true
any-append_left p xs ys h = any-append p xs ys ∙ ap (λ b. b || any p ys) h

any-append_last : (p : ℕ → Bool) (xs : List ℕ) (y : ℕ) → p y ≡ true → any p (xs ++ y ∷ []) ≡ true
any-append_last p xs y h =
    any-append p xs (y ∷ []) ∙ ap (λ b. any p xs || (b || false)) h ∙ or_true (any p xs)

ltb_of : (a b : ℕ) → a < b → ltb a b ≡ true
ltb_of a b h = ground arith

lower_some : 0 < length (codes lowercases)
unfolding codes
lower_some = omega arith

upper_some : 0 < length (codes uppercases)
unfolding codes
upper_some = omega arith

special_some : 0 < length (codes specials)
unfolding codes
special_some = omega arith

numeric_some : 0 < length (codes numerics)
unfolding codes
numeric_some = omega arith

all_some : 0 < length (codes all_letters)
unfolding codes
all_some = omega arith

-- An element of a list that is read within bounds, which the list then has.
record Read (xs : List ℕ) (i : ℕ) : Type 0 where
  byte : ℕ
  is_read : get_elem? xs i ≡ some byte
  listed : any (eqb byte) xs ≡ true

read : (xs : List ℕ) (i : ℕ) → i < length xs → Read xs i
read [] i h = absurd (omega (arith, h))
read (x ∷ xs) zero h = record {
  byte = x;
  is_read = refl;
  listed = ap (λ b. b || any (eqb x) xs) ((eqb_iff x x).1 refl);
}
read (x ∷ xs) (suc i) h =
    let r = read xs i (omega (arith, h)) in
    record {
      byte = r.byte;
      is_read = r.is_read;
      listed = ap (λ b. eqb r.byte x || b) r.listed ∙ or_true (eqb r.byte x);
    }

-- A call that returns the bytes with `n` more, one of them of the class where it is asked for.
record Grows (buf : List ℕ) (n : ℕ) (letters : String) (asked : Bool) (r : Option (List ℕ))
    : Type 0 where
  after : List ℕ
  returned : r ≡ some after
  size : length after ≡ length buf + n
  keeps : (p : ℕ → Bool) → any p buf ≡ true → any p after ≡ true
  has : (not asked || has_letter letters after) ≡ true

module _ (rnd : Random) where
  draw-Read :
      (i : ℕ) (letters : List ℕ) → 0 < length letters → Read letters (rnd.intn i (length letters))
  draw-Read i letters h =
      read letters (rnd.intn i (length letters)) (rnd.intn-below i (length letters) h)

  append-Grows :
      (letters : String) (buf : List ℕ)
      → 0 < length (codes letters)
      → Grows buf 1 letters true (appended buf (draw rnd (length buf) (codes letters)))
  unfolding draw
  append-Grows letters buf h =
      let r = draw-Read (length buf) (codes letters) h in
      record {
        after = buf ++ r.byte ∷ [];
        returned = ap (appended buf) r.is_read;
        size = length-append buf (r.byte ∷ []);
        keeps = λ p. any-append_left p buf (r.byte ∷ []);
        has = any-append_last (λ b. any (eqb b) (codes letters)) buf r.byte r.listed;
      }

  put-Grows :
      (asked : Bool) (letters : String) (size : ℕ) (buf : List ℕ)
      → 0 < length (codes letters)
      → length buf + count asked ≤ size
      → Grows buf (count asked) letters asked (put_if rnd asked letters size buf)
  put-Grows true letters size buf h k =
      subst (λ b. Grows buf 1 letters true (put_by rnd b (codes letters) buf))
        (sym (ltb_of (length buf) size (omega (arith, k)))) (append-Grows letters buf h)
  put-Grows false letters size buf h k = record {
    after = buf;
    returned = refl;
    size = omega arith;
    keeps = λ p h. h;
    has = refl;
  }

  fill-Grows : (n : ℕ) (buf : List ℕ) → Grows buf n all_letters false (fill rnd n buf)
  unfolding fill
  fill-Grows zero buf = record {
    after = buf;
    returned = refl;
    size = omega arith;
    keeps = λ p h. h;
    has = refl;
  }
  fill-Grows (suc n) buf =
      let one = append-Grows all_letters buf all_some in
      let rest = fill-Grows n one.after in
      record {
        after = rest.after;
        returned = ap (λ o. and_then o (fill rnd n)) one.returned ∙ rest.returned;
        size = omega (arith, rest.size, one.size);
        keeps = λ p h. rest.keeps p (one.keeps p h);
        has = refl;
      }

-- The number of classes that are asked for.
abbrev pub asked : Bool → Bool → Bool → Bool → ℕ
asked lower upper special numeric = count lower + count upper + count special + count numeric

abbrev Has : Bool → String → List ℕ → Type 0
Has asked letters bytes = (not asked || has_letter letters bytes) ≡ true

-- A password of the length, with a byte of each class that is asked for.
pub record IsPassword (size : ℕ) (lower upper special numeric : Bool) (bytes : List ℕ)
    : Type 0 where
  pub long : length bytes ≡ size
  pub has_lower : Has lower lowercases bytes
  pub has_upper : Has upper uppercases bytes
  pub has_special : Has special specials bytes
  pub has_numeric : Has numeric numerics bytes

Has-mono :
    (asked : Bool) (letters : String) (xs ys : List ℕ)
    → Has asked letters xs
    → ((p : ℕ → Bool) → any p xs ≡ true → any p ys ≡ true)
    → Has asked letters ys
Has-mono false letters xs ys h k = refl
Has-mono true letters xs ys h k = k (λ b. any (eqb b) (codes letters)) h

module _ (rnd : Random) where
  any-to_shuffle : (xs : List ℕ) (p : ℕ → Bool) → any p xs ≡ true → any p (rnd.shuffle xs) ≡ true
  any-to_shuffle xs p h = rnd.any-shuffle p xs ∙ h

  -- Where the length is at least the number of classes that are asked for, GenereatePassword returns: without a panic,
  -- and with a password of that length that has a byte of each of those classes.
  pub generate_password-IsPassword :
      (size : ℕ) (lower upper special numeric : Bool)
      → asked lower upper special numeric ≤ size
      → (bytes : List ℕ) × (generate_password rnd (pos size) lower upper special numeric
          ≡ some bytes)
        × IsPassword size lower upper special numeric bytes
  unfolding generate_password
  generate_password-IsPassword size lower upper special numeric h =
      let a = put-Grows rnd lower lowercases size [] lower_some (omega (arith, h)) in
      let b = put-Grows rnd upper uppercases size a.after upper_some (omega (arith, h, a.size)) in
      let c =
        put-Grows rnd special specials size b.after special_some
          (omega (arith, h, a.size, b.size)) in
      let d =
        put-Grows rnd numeric numerics size c.after numeric_some
          (omega (arith, h, a.size, b.size, c.size)) in
      let e = fill-Grows rnd (size - length d.after) d.after in
      let keeps_d =
        λ (p : ℕ → Bool) (x : any p d.after ≡ true). any-to_shuffle e.after p (e.keeps p x) in
      let keeps_c = λ (p : ℕ → Bool) (x : any p c.after ≡ true). keeps_d p (d.keeps p x) in
      let keeps_b = λ (p : ℕ → Bool) (x : any p b.after ≡ true). keeps_c p (c.keeps p x) in
      let keeps_a = λ (p : ℕ → Bool) (x : any p a.after ≡ true). keeps_b p (b.keeps p x) in
      (
        rnd.shuffle e.after,
        rw a.returned (rw b.returned (rw c.returned (rw d.returned (rw e.returned refl)))),
        record {
          long =
              rnd.length-shuffle e.after ∙ omega (arith, h, a.size, b.size, c.size, d.size, e.size);
          has_lower = Has-mono lower lowercases a.after _ a.has keeps_a;
          has_upper = Has-mono upper uppercases b.after _ b.has keeps_b;
          has_special = Has-mono special specials c.after _ c.has keeps_c;
          has_numeric = Has-mono numeric numerics d.after _ d.has keeps_d;
        },
      )
