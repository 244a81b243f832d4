-- ===== src/IpFamily/Primary.antt =====
-- The family that pkg/utils/get_ipfamily.go returns, against the ranges of the cluster.
use load_balancer_operator_f.Prelude.{
  String, none, some, List, [], ◌∷◌, ◌≡◌, refl, ◌≢◌, ◌⊎◌, inl, inr, arith, ◌==◌, eq_iff,
  if◌then◌else◌, ◌||◌, sym, Option-cases,
}
use load_balancer_operator_f.Kube.{Error, Cluster}
use load_balancer_operator_f.IpFamily.{
  ipv4_ip_family, ipv6_ip_family, dual_stack_ipv4_primary, get_ip_family_from_cidr, find_families,
  ip_family_from_cidr_strings, block_family, primary_of_head, combine_families, ip_family_of_cidrs,
  get_cluster_ip_family, get_primary_ip_family, pod_cidrs, service_cidrs,
}

-- The three families of one range.
pub cidr_family-cases :
    (p : String)
    → (get_ip_family_from_cidr p ≡ "INVALID")
      ⊎ (get_ip_family_from_cidr p ≡ "V4")
      ⊎ (get_ip_family_from_cidr p ≡ "V6")
unfolding get_ip_family_from_cidr
cidr_family-cases p = ground arith

-- The outcomes of a block of ranges.
pub strings-cases :
    (cidrs : List String)
    → (ip_family_from_cidr_strings cidrs).1 ≡ none
    → ((ip_family_from_cidr_strings cidrs).0 ≡ "V4")
      ⊎ ((ip_family_from_cidr_strings cidrs).0 ≡ "V6")
      ⊎ ((ip_family_from_cidr_strings cidrs).0 ≡ "Dual-Stack")
unfolding ip_family_from_cidr_strings
strings-cases cidrs h = ground arith

strings_error :
    (cidrs : List String) {e : Error}
    → (ip_family_from_cidr_strings cidrs).1 ≡ some e
    → (ip_family_from_cidr_strings cidrs).0 ≡ "INVALID"
unfolding ip_family_from_cidr_strings
strings_error cidrs h = ground arith

-- A valid first range decides the family of its block, unless the block is dual-stack.
pub strings-head :
    (p : String) (ps : List String)
    → get_ip_family_from_cidr p ≢ "INVALID"
    → (ip_family_from_cidr_strings (p ∷ ps)).1 ≡ none
    → ((ip_family_from_cidr_strings (p ∷ ps)).0 ≡ get_ip_family_from_cidr p)
      ⊎ ((ip_family_from_cidr_strings (p ∷ ps)).0 ≡ "Dual-Stack")
unfolding ip_family_from_cidr_strings find_families
strings-head p [] v h = elim (cidr_family-cases p) [
  | inl i ↦ absurd (v i)
  | inr (inl e) ↦ rw e (inl refl)
  | inr (inr e) ↦ rw e (inl refl)
]
strings-head p (q ∷ []) v h = elim (cidr_family-cases p) [
  | inl i ↦ absurd (v i)
  | inr (inl e) ↦ rw e (ground (arith, cidr_family-cases q))
  | inr (inr e) ↦ rw e (ground (arith, cidr_family-cases q))
]
strings-head p (q ∷ r ∷ ps) v h = ground arith

-- The four families of a cluster.
abbrev pub IsClusterFamily : String → Type 0
IsClusterFamily f = (f ≡ "V4") ⊎ (f ≡ "V6") ⊎ (f ≡ "V4,V6") ⊎ (f ≡ "V6,V4")

primary_of_head-cases :
    (cidrs : List String) → (primary_of_head cidrs ≡ "V4,V6") ⊎ (primary_of_head cidrs ≡ "V6,V4")
unfolding primary_of_head
primary_of_head-cases [] = inr refl
primary_of_head-cases (p ∷ ps) = ground arith

abbrev pub IsBlockFamily : String → Type 0
IsBlockFamily f = (f ≡ "V4") ⊎ (f ≡ "V6") ⊎ (f ≡ "Dual-Stack")

-- One block alone: its family, or the family of its first range where it is dual-stack.
combine_services :
    (s : String) (ss : List String) (g : String)
    → IsBlockFamily g
    → IsClusterFamily (combine_families [] (s ∷ ss) "" g).0
unfolding combine_families
combine_services s ss g (inl e) = rw e (inl refl)
combine_services s ss g (inr (inl e)) = rw e (inr (inl refl))
combine_services s ss g (inr (inr e)) = rw e (inr (inr (primary_of_head-cases (s ∷ ss))))

combine_pods :
    (p : String) (ps : List String) (f : String)
    → IsBlockFamily f
    → IsClusterFamily (combine_families (p ∷ ps) [] f "").0
unfolding combine_families
combine_pods p ps f (inl e) = rw e (inl refl)
combine_pods p ps f (inr (inl e)) = rw e (inr (inl refl))
combine_pods p ps f (inr (inr e)) = rw e (inr (inr (primary_of_head-cases (p ∷ ps))))

-- Of two blocks the families agree.
combine_eq :
    (p s : String) (ps ss : List String) (f g : String)
    → (combine_families (p ∷ ps) (s ∷ ss) f g).1 ≡ none
    → f ≡ g
unfolding combine_families
combine_eq p s ps ss f g h = ground (arith, eq_iff f g)

combine_both :
    (p : String) (ps services : List String) (f : String)
    → IsBlockFamily f
    → IsClusterFamily (combine_families (p ∷ ps) services f f).0
unfolding combine_families
combine_both p ps services f (inl e) = rw e (inl refl)
combine_both p ps services f (inr (inl e)) = rw e (inr (inl refl))
combine_both p ps services f (inr (inr e)) = rw e (inr (inr (primary_of_head-cases (p ∷ ps))))

outcomes :
    (pods services : List String)
    → (ip_family_of_cidrs pods services).1 ≡ none
    → IsClusterFamily (ip_family_of_cidrs pods services).0
unfolding ip_family_of_cidrs block_family
outcomes [] [] h = inl refl
outcomes [] (s ∷ ss) h =
    ground (
      arith,
      strings-cases (s ∷ ss),
      combine_services s ss (ip_family_from_cidr_strings (s ∷ ss)).0,
    )
outcomes (p ∷ ps) [] h =
    ground
      (arith, strings-cases (p ∷ ps), combine_pods p ps (ip_family_from_cidr_strings (p ∷ ps)).0)
outcomes (p ∷ ps) (s ∷ ss) h = ground (
  arith,
  strings-cases (p ∷ ps),
  combine_both p ps (s ∷ ss) (ip_family_from_cidr_strings (p ∷ ps)).0,
  combine_eq p s ps ss (ip_family_from_cidr_strings (p ∷ ps)).0
      (ip_family_from_cidr_strings (s ∷ ss)).0,
)

errors :
    (pods services : List String) {e : Error}
    → (ip_family_of_cidrs pods services).1 ≡ some e
    → (ip_family_of_cidrs pods services).0 ≡ "INVALID"
unfolding ip_family_of_cidrs block_family combine_families
errors [] [] h = cc
errors [] (s ∷ ss) h = ground arith
errors (p ∷ ps) [] h = ground arith
errors (p ∷ ps) (s ∷ ss) h = ground arith

-- GetClusterIPFamily returns one of V4, V6, V4,V6 and V6,V4 with no error, or INVALID with one.
pub get_cluster_ip_family-outcomes :
    (c : Cluster)
    → ((get_cluster_ip_family c).1 ≡ none) × IsClusterFamily (get_cluster_ip_family c).0
      ⊎ ((get_cluster_ip_family c).1 ≢ none) × ((get_cluster_ip_family c).0 ≡ "INVALID")
unfolding get_cluster_ip_family
get_cluster_ip_family-outcomes c =
    let pods = pod_cidrs c.network in
    let services = service_cidrs c.network in
    elim (Option-cases (ip_family_of_cidrs pods services).1) [
      | inl e ↦ inl (e, outcomes pods services e)
      | inr (x, e) ↦ inr (λ n. cc, errors pods services e)
    ]

-- With pods, the primary family is that of the first range.
abbrev primary_family : String → String
primary_family f =
    if f == ipv4_ip_family || f == dual_stack_ipv4_primary then ipv4_ip_family else ipv6_ip_family

combine_head :
    (p : String) (ps services : List String) (f g q : String)
    → get_ip_family_from_cidr p ≡ q
    → (q ≡ "V4") ⊎ (q ≡ "V6")
    → (f ≡ q) ⊎ (f ≡ "Dual-Stack")
    → (services ≡ []) × (g ≡ "") ⊎ (g ≡ f)
    → primary_family (combine_families (p ∷ ps) services f g).0 ≡ q
unfolding combine_families primary_of_head
combine_head p ps services f g q e (inl v) (inl w) (inl x) = rw (x.1, x.0, w, v)
combine_head p ps services f g q e (inl v) (inl w) (inr x) = rw (x, w, v)
combine_head p ps services f g q e (inl v) (inr w) (inl x) = rw (x.1, x.0, w, e, v)
combine_head p ps services f g q e (inl v) (inr w) (inr x) = rw (x, w, e, v)
combine_head p ps services f g q e (inr v) (inl w) (inl x) = rw (x.1, x.0, w, v)
combine_head p ps services f g q e (inr v) (inl w) (inr x) = rw (x, w, v)
combine_head p ps services f g q e (inr v) (inr w) (inl x) = rw (x.1, x.0, w, e, v)
combine_head p ps services f g q e (inr v) (inr w) (inr x) = rw (x, w, e, v)

valid-cases :
    (p : String)
    → get_ip_family_from_cidr p ≢ "INVALID"
    → (get_ip_family_from_cidr p ≡ "V4") ⊎ (get_ip_family_from_cidr p ≡ "V6")
valid-cases p v = elim (cidr_family-cases p) [ inl i ↦ absurd (v i) | inr w ↦ w ]

head_primary :
    (p : String) (ps services : List String)
    → get_ip_family_from_cidr p ≢ "INVALID"
    → (ip_family_of_cidrs (p ∷ ps) services).1 ≡ none
    → primary_family (ip_family_of_cidrs (p ∷ ps) services).0 ≡ get_ip_family_from_cidr p
unfolding ip_family_of_cidrs block_family
head_primary p ps [] v h =
    let f = (ip_family_from_cidr_strings (p ∷ ps)).0 in
    ground (
      arith,
      λ (e : (ip_family_from_cidr_strings (p ∷ ps)).1 ≡ none).
          combine_head p ps [] f "" (get_ip_family_from_cidr p) refl (valid-cases p v)
            (strings-head p ps v e) (inl (refl, refl)),
    )
head_primary p ps (s ∷ ss) v h =
    let f = (ip_family_from_cidr_strings (p ∷ ps)).0 in
    let g = (ip_family_from_cidr_strings (s ∷ ss)).0 in
    ground (
      arith,
      λ (e : (ip_family_from_cidr_strings (p ∷ ps)).1 ≡ none)
            (e' : (combine_families (p ∷ ps) (s ∷ ss) f g).1 ≡ none).
          combine_head p ps (s ∷ ss) f g (get_ip_family_from_cidr p) refl (valid-cases p v)
            (strings-head p ps v e) (inr (sym (combine_eq p s ps ss f g e'))),
    )

-- When a cluster has pod ranges, the first is valid and GetClusterIPFamily returns no error,
-- GetPrimaryIPFamily returns the family of the first pod range, with no error.
pub get_primary_ip_family-head :
    (c : Cluster) (p : String) (ps : List String)
    → pod_cidrs c.network ≡ p ∷ ps
    → get_ip_family_from_cidr p ≢ "INVALID"
    → (get_cluster_ip_family c).1 ≡ none
    → get_primary_ip_family c ≡ (get_ip_family_from_cidr p, none)
unfolding get_primary_ip_family get_cluster_ip_family
get_primary_ip_family-head c p ps e v h =
    rw e (ground (arith, head_primary p ps (service_cidrs c.network) v (rw e at h)))
