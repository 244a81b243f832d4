-- ===== src/AkoUser/Role/Sync.antt =====
-- syncAkoUserRole gives the role every permission that AKO wants of the version, leaves those it does
-- not know, and changes nothing when it is run again.
use load_balancer_operator_f.Prelude.{
  String, Bool, true, false, not, ◌&&◌, ◌||◌, Option, none, some, List, [], ◌∷◌, ◌++◌, map, Dict,
  ◌==◌, if◌then◌else◌, is_some, keep, any, All, In, Bool-cases, ◌≡◌, refl, sym, ap, inl, inr, arith,
  eq_iff, eq_refl,
}
use load_balancer_operator_f.AkoUser.Permissions.{Permission}
use load_balancer_operator_f.AkoUser.Role.{
  AtLeast, desired_type, is_deprecated, with_type, differs, correct, is_wrong, existing_resources,
  contains, missing,
}

-- The order visits the entries of the map, each of them.
pub record IsOrder (order : Dict String) : Type 0 where
  pub visits : (r t : String) → desired_type r ≡ some t → In (r, t) order
  pub only : (r t : String) → In (r, t) order → desired_type r ≡ some t

-- A permission of the resource is listed.
abbrev pub lists : String → List Permission → Bool
lists r ps = any (λ p. p.resource == r) ps

-- The permissions that AKO does not know.
abbrev pub of_unknown : List Permission → List Permission
of_unknown ps = keep (λ p. not (is_some (desired_type p.resource))) ps

pub or_true : (b : Bool) → (b || true) ≡ true
or_true true = refl
or_true false = refl

with_type-resource : (p : Permission) (o : Option String) → (with_type p o).resource ≡ p.resource
with_type-resource p none = refl
with_type-resource p (some t) = ground arith

with_type-right : (p : Permission) (o : Option String) → differs (with_type p o) o ≡ false
with_type-right p none = refl
with_type-right p (some t) = ground (arith, eq_iff p.kind t, eq_refl t)

with_type-same : (p : Permission) (o : Option String) → differs p o ≡ false → with_type p o ≡ p
with_type-same p none h = refl
with_type-same p (some t) h = ground arith

pub correct-resource : (p : Permission) → (correct p).resource ≡ p.resource
unfolding correct
correct-resource p = with_type-resource p (desired_type p.resource)

pub correct-right : (p : Permission) → is_wrong (correct p) ≡ false
unfolding is_wrong
correct-right p =
    rw (correct-resource p) (unfold correct in with_type-right p (desired_type p.resource))

pub correct-same : (p : Permission) → is_wrong p ≡ false → correct p ≡ p
unfolding is_wrong correct
correct-same p h = with_type-same p (desired_type p.resource) h

pub any-append :
    {A : Type 0} (p : A → Bool) (xs ys : List A) → any p (xs ++ ys) ≡ (any p xs || any p ys)
any-append p [] ys = refl
any-append p (x ∷ xs) ys = ground (arith, any-append p xs ys)

pub lists-correct : (r : String) (ps : List Permission) → lists r (map correct ps) ≡ lists r ps
lists-correct r [] = refl
lists-correct r (p ∷ ps) = rw (correct-resource p, lists-correct r ps) refl

contains-if :
    (b : Bool) (s r : String) (rest : List String)
    → contains (if b then s ∷ rest else rest) r ≡ ((b && s == r) || contains rest r)
contains-if true s r rest = refl
contains-if false s r rest = refl

-- The set of existing resources has the desired ones that are listed.
pub contains-existing_resources :
    (r : String) (ps : List Permission)
    → contains (existing_resources ps) r ≡ (is_some (desired_type r) && lists r ps)
unfolding existing_resources
contains-existing_resources r [] = ground arith
contains-existing_resources r (p ∷ ps) =
    let c = contains-if (is_some (desired_type p.resource)) p.resource r (existing_resources ps) in
    let k = contains-existing_resources r ps in
    elim (Bool-cases (p.resource == r)) [
      | inl t ↦
          let e = ap (λ x. is_some (desired_type x)) ((eq_iff p.resource r).0 t) in
          rw (c, k, t, e) (ground arith)
      | inr f ↦ rw (c, k, f) (ground arith)
    ]

module _ (at_least : AtLeast) (version : String) where
  -- What is missing and stays wanted is appended.
  pub lists-missing :
      (existing : List String) (order : Dict String) (r t : String)
      → In (r, t) order
      → contains existing r ≡ false
      → is_deprecated at_least version r ≡ false
      → lists r (missing at_least version existing order) ≡ true
  unfolding missing
  lists-missing existing [] r t i c d = absurd i
  lists-missing existing ((s, u) ∷ order) r t (inl e) c d =
      let k = ap (λ (x : String × String). x.0) e in rw (sym k, c, d, eq_refl) refl
  lists-missing existing ((s, u) ∷ order) r t (inr i) c d =
      elim (Bool-cases (contains existing s || is_deprecated at_least version s)) [
        | inl k ↦ rw k (lists-missing existing order r t i c d)
        | inr k ↦ rw (k, lists-missing existing order r t i c d) (or_true (s == r))
      ]

  -- Everything that the second loop appends is desired.
  pub All-missing :
      (P : Permission → Type 0) (existing : List String) (order : Dict String)
      → ((r t : String) → In (r, t) order → P (record { resource = r; kind = t }))
      → All P (missing at_least version existing order)
  unfolding missing
  All-missing P existing [] h = tt
  All-missing P existing ((s, u) ∷ order) h =
      elim (Bool-cases (contains existing s || is_deprecated at_least version s)) [
        | inl k ↦ rw k (All-missing P existing order (λ r t i. h r t (inr i)))
        | inr k ↦ rw k (h s u (inl refl), All-missing P existing order (λ r t i. h r t (inr i)))
      ]

  -- Nothing is appended where each entry is present or deprecated.
  pub missing-nil :
      (existing : List String) (order : Dict String)
      → ((r t : String)
          → In (r, t) order
          → (contains existing r || is_deprecated at_least version r) ≡ true)
      → missing at_least version existing order ≡ []
  unfolding missing
  missing-nil existing [] h = refl
  missing-nil existing ((s, u) ∷ order) h =
      rw (h s u (inl refl), missing-nil existing order (λ r t i. h r t (inr i))) refl
