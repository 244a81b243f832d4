-- ===== src/AkoUser/Role/Fresh.antt =====
-- A new AKO role is settled: the list that it is made of agrees with the map that the sync reads.
use load_balancer_operator_f.Prelude.{
  String, Bool, true, false, not, ◌||◌, Option, none, some, List, [], ◌∷◌, Dict, lookup, ◌==◌, keep,
  all, All, In, Bool-cases, ◌≡◌, refl, sym, ap, inl, inr, arith, eq_iff,
}
use load_balancer_operator_f.AkoUser.Permissions.{
  Permission, ako_role_permission, ako_role_permission_map,
}
use load_balancer_operator_f.AkoUser.Role.{
  AtLeast, desired_type, is_deprecated, is_wrong, sync_ako_user_role,
  filter_ako_role_permission_by_version,
}
use load_balancer_operator_f.AkoUser.Role.Sync.{IsOrder, lists}
use load_balancer_operator_f.AkoUser.Role.Complete.{IsSettled, sync_ako_user_role-settled}

all-In :
    {A : Type 0} (p : A → Bool) (xs : List A) → all p xs ≡ true → (x : A) → In x xs → p x ≡ true
all-In p [] h x i = absurd i
all-In p (y ∷ xs) h x (inl e) = rw e (ground arith)
all-In p (y ∷ xs) h x (inr i) = all-In p xs (ground arith) x i

lookup-In : (k v : String) (m : Dict String) → lookup k m ≡ some v → In (k, v) m
unfolding lookup
lookup-In k v [] h = cc
lookup-In k v ((j, w) ∷ m) h = elim (Bool-cases (j == k)) [
  | inl t ↦ let e = rw t at h in inl (ground (arith, eq_iff j k))
  | inr f ↦ inr (lookup-In k v m (rw f at h))
]

agrees : Option String → String → Bool
agrees none t = false
agrees (some u) t = u == t

agrees-some : (o : Option String) (t : String) → agrees o t ≡ true → o ≡ some t
unfolding agrees
agrees-some none t h = cc
agrees-some (some u) t h = ap some ((eq_iff u t).0 h)

-- The map itself is an order of visiting it: no key stands in it twice.
map_agrees : all (λ e. agrees (desired_type e.0) e.1) ako_role_permission_map ≡ true
unfolding agrees desired_type ako_role_permission_map lookup
map_agrees = refl

pub ako_role_permission_map-IsOrder : IsOrder ako_role_permission_map
ako_role_permission_map-IsOrder = record {
  visits = λ r t e. lookup-In r t ako_role_permission_map (unfold desired_type in e);
  only = λ r t i.
      agrees-some (desired_type r) t
        (all-In (λ e. agrees (desired_type e.0) e.1) ako_role_permission_map map_agrees (r, t) i);
}

-- The list has each entry of the map, and its types are those of the map.
list_complete : all (λ e. lists e.0 ako_role_permission) ako_role_permission_map ≡ true
unfolding ako_role_permission ako_role_permission_map
list_complete = refl

list_right : all (λ p. not (is_wrong p)) ako_role_permission ≡ true
unfolding ako_role_permission is_wrong desired_type ako_role_permission_map lookup
list_right = refl

All-right :
    (q : Permission → Bool) (ps : List Permission)
    → all (λ p. not (is_wrong p)) ps ≡ true
    → All (λ p. is_wrong p ≡ false) (keep q ps)
All-right q [] h = tt
All-right q (p ∷ ps) h = elim (Bool-cases (q p)) [
  | inl t ↦ rw t ((ground arith), All-right q ps (ground arith))
  | inr f ↦ rw f (All-right q ps (ground arith))
]

or_true : (b : Bool) → (b || true) ≡ true
or_true true = refl
or_true false = refl

-- The filter drops no permission of a resource that the version keeps.
lists-filter :
    (at_least : AtLeast) (version r : String) (ps : List Permission)
    → is_deprecated at_least version r ≡ false
    → lists r ps ≡ true
    → lists r (filter_ako_role_permission_by_version at_least ps version) ≡ true
unfolding filter_ako_role_permission_by_version
lists-filter at_least version r [] d h = h
lists-filter at_least version r (p ∷ ps) d h = elim (Bool-cases (p.resource == r)) [
  | inl t ↦ let k = rw (sym ((eq_iff p.resource r).0 t)) at d in rw (k, t) refl
  | inr f ↦
      let later = lists-filter at_least version r ps d (rw f at h) in
      elim (Bool-cases (is_deprecated at_least version p.resource)) [
        | inl t ↦ rw t later
        | inr u ↦ rw (u, later) (or_true _)
      ]
]

pub filter_ako_role_permission-IsSettled :
    (at_least : AtLeast) (version : String)
    → IsSettled at_least version
        (filter_ako_role_permission_by_version at_least ako_role_permission version)
filter_ako_role_permission-IsSettled at_least version = record {
  right =
      unfold filter_ako_role_permission_by_version in All-right _ ako_role_permission list_right;
  complete = λ r t e d. lists-filter at_least version r ako_role_permission d (
      all-In (λ e. lists e.0 ako_role_permission) ako_role_permission_map list_complete (r, t)
        (ako_role_permission_map-IsOrder.visits r t e));
}

-- The role that getOrCreateAkoUserRole creates needs no sync at its version: syncAkoUserRole reports
-- no change and makes none, in whatever order Go visits the map.
pub filter_ako_role_permission-synced :
    (at_least : AtLeast) (version : String) (order : Dict String)
    → IsOrder order
    → let ps = filter_ako_role_permission_by_version at_least ako_role_permission version in
      sync_ako_user_role at_least order ps version ≡ (ps, false)
filter_ako_role_permission-synced at_least version order h =
    sync_ako_user_role-settled at_least version order h _
      (filter_ako_role_permission-IsSettled at_least version)
