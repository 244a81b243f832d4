-- ===== src/AviNetwork/Sorting.antt =====
-- A sort of ranges with the law of sort.Slice, by insertion, and what a permutation keeps under a map.
use mathlib.Core.List.Perm
use mathlib.Core.List.{Perm, Permᴰ, perm_middle, append-nil}
use mathlib.Core.Path.{ap}
use mathlib.Core.Logic.{∥∥₁_map}
use load_balancer_operator_f.Prelude.{
  Bool, List, [], ◌∷◌, ◌++◌, map, Bool-cases, inl, inr, if◌then◌else◌,
}
use load_balancer_operator_f.AviNetwork.{StaticIpRange, Sorter}

Permᴰ-map : {A B : Type 0} (f : A → B) {xs ys : List A} → Permᴰ xs ys → Permᴰ (map f xs) (map f ys)
Permᴰ-map f Permᴰ.nil = Permᴰ.nil
Permᴰ-map f (Permᴰ.cons e d) = Permᴰ.cons (ap f e) (Permᴰ-map f d)
Permᴰ-map f (Permᴰ.swap e d) = Permᴰ.swap (ap f e) (ap f d)
Permᴰ-map f (Permᴰ.trans d e) = Permᴰ.trans (Permᴰ-map f d) (Permᴰ-map f e)

pub Perm-map : {A B : Type 0} (f : A → B) (xs ys : List A) → Perm xs ys → Perm (map f xs) (map f ys)
Perm-map f xs ys p = ∥∥₁_map {B = Permᴰ (map f xs) (map f ys)} p (λ d. Permᴰ-map f d)

module _ (less : StaticIpRange → StaticIpRange → Bool) where
  unfoldable pub insert_range : StaticIpRange → List StaticIpRange → List StaticIpRange
  insert_range r [] = r ∷ []
  insert_range r (s ∷ rs) =
      let rest = insert_range r rs in if less r s then r ∷ s ∷ rs else s ∷ rest

  unfoldable pub sort_from : List StaticIpRange → List StaticIpRange → List StaticIpRange
  sort_from sorted [] = sorted
  sort_from sorted (r ∷ rs) = sort_from (insert_range r sorted) rs

  insert_range-perm :
      (r : StaticIpRange) (rs : List StaticIpRange) → Perm (insert_range r rs) (r ∷ rs)
  unfolding insert_range
  insert_range-perm r [] = Perm.refl _
  insert_range-perm r (s ∷ rs) = elim (Bool-cases (less r s)) [
    | inl t ↦ rw t (Perm.refl _)
    | inr f ↦ rw f (Perm.trans (Perm.cons s (insert_range-perm r rs)) (Perm.swap r s rs))
  ]

  pub sort_from-perm : (acc rs : List StaticIpRange) → Perm (sort_from acc rs) (acc ++ rs)
  unfolding sort_from
  sort_from-perm acc [] = rw append-nil (Perm.refl acc)
  sort_from-perm acc (r ∷ rs) = Perm.trans (sort_from-perm (insert_range r acc) rs) (
      Perm.trans (Perm.append (insert_range-perm r acc) (Perm.refl rs))
        (Perm.symm (perm_middle acc rs)))

abbrev pub insertion_sorter : Sorter
insertion_sorter = record {
  sort_slice = λ less rs. sort_from less [] rs;
  sort_slice-perm = λ less rs. sort_from-perm less [] rs;
}
