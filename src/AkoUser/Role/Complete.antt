-- ===== src/AkoUser/Role/Complete.antt =====
-- A role is settled when it has all that AKO wants: syncAkoUserRole settles a role, and leaves a
-- settled one as it is.
use load_balancer_operator_f.Prelude.{
  String, true, false, Option, none, some, List, [], ◌∷◌, ◌++◌, map, Dict, ◌==◌, is_some, any, All,
  All-append, Bool-cases, ◌≡◌, refl, ap, ◌∙◌, inl, inr, eq_refl,
}
use load_balancer_operator_f.AkoUser.Permissions.{Permission}
use load_balancer_operator_f.AkoUser.Role.{
  AtLeast, desired_type, is_deprecated, correct, differs, is_wrong, existing_resources, missing,
  sync_ako_user_role,
}
use load_balancer_operator_f.AkoUser.Role.Sync.{
  IsOrder, lists, of_unknown, correct-resource, correct-right, correct-same, any-append,
  lists-correct, contains-existing_resources, or_true, lists-missing, All-missing, missing-nil,
}

module _ (at_least : AtLeast) (version : String) where
  -- Every listed permission that AKO knows has the type that it wants, and every permission that it
  -- wants, unless the version deprecates it, is listed.
  pub record IsSettled (ps : List Permission) : Type 0 where
    pub right : All (λ p. is_wrong p ≡ false) ps
    pub complete :
        (r t : String)
        → desired_type r ≡ some t
        → is_deprecated at_least version r ≡ false
        → lists r ps ≡ true

map-correct-right : (ps : List Permission) → All (λ p. is_wrong p ≡ false) (map correct ps)
map-correct-right [] = tt
map-correct-right (p ∷ ps) = (correct-right p, map-correct-right ps)

desired-right :
    (r t : String) → desired_type r ≡ some t → is_wrong (record { resource = r; kind = t }) ≡ false
unfolding is_wrong
desired-right r t e = rw (e, eq_refl) refl

of_unknown-append :
    (ps qs : List Permission) → of_unknown (ps ++ qs) ≡ of_unknown ps ++ of_unknown qs
of_unknown-append [] qs = refl
of_unknown-append (p ∷ ps) qs = elim (Bool-cases (is_some (desired_type p.resource))) [
  | inl t ↦ rw t (of_unknown-append ps qs)
  | inr f ↦ rw f (ap (λ xs. p ∷ xs) (of_unknown-append ps qs))
]

differs-unknown : (p : Permission) (o : Option String) → is_some o ≡ false → differs p o ≡ false
differs-unknown p none h = refl
differs-unknown p (some t) h = cc

correct-unknown : (p : Permission) → is_some (desired_type p.resource) ≡ false → correct p ≡ p
correct-unknown p h =
    correct-same p (unfold is_wrong in differs-unknown p (desired_type p.resource) h)

of_unknown-correct : (ps : List Permission) → of_unknown (map correct ps) ≡ of_unknown ps
of_unknown-correct [] = refl
of_unknown-correct (p ∷ ps) = elim (Bool-cases (is_some (desired_type p.resource))) [
  | inl t ↦ rw (correct-resource p, t) (of_unknown-correct ps)
  | inr f ↦ rw (correct-unknown p f, f) (ap (λ xs. p ∷ xs) (of_unknown-correct ps))
]

of_unknown-known :
    (ps : List Permission)
    → All (λ p. is_some (desired_type p.resource) ≡ true) ps
    → of_unknown ps ≡ []
of_unknown-known [] h = refl
of_unknown-known (p ∷ ps) h = rw h.0 (of_unknown-known ps h.1)

append_nil : {A : Type 0} (xs : List A) → xs ++ [] ≡ xs
append_nil [] = refl
append_nil (x ∷ xs) = ap (λ ys. x ∷ ys) (append_nil xs)

map-correct-right_same :
    (ps : List Permission)
    → All (λ p. is_wrong p ≡ false) ps
    → (map correct ps ≡ ps) × (any is_wrong ps ≡ false)
map-correct-right_same [] h = (refl, refl)
map-correct-right_same (p ∷ ps) h =
    let k = map-correct-right_same ps h.1 in (rw (correct-same p h.0, k.0) refl, rw (h.0, k.1) refl)

module _ (at_least : AtLeast) (version : String) (order : Dict String) (h : IsOrder order)
    (ps : List Permission) where
  -- syncAkoUserRole settles the role, whatever the order in which Go visits the map, and keeps the
  -- permissions that AKO does not know, in their order.
  pub sync_ako_user_role-IsSettled :
      let after = (sync_ako_user_role at_least order ps version).0 in
      IsSettled at_least version after × (of_unknown after ≡ of_unknown ps)
  unfolding sync_ako_user_role
  sync_ako_user_role-IsSettled =
      let existing = existing_resources ps in
      let added = missing at_least version existing order in
      (
        record {
          right = All-append _ (map correct ps) added (map-correct-right ps) (
              All-missing at_least version _ existing order
                (λ r t i. desired-right r t (h.only r t i)));
          complete = λ r t e d. elim (Bool-cases (lists r ps)) [
            | inl l ↦
                rw (any-append (λ p. p.resource == r) (map correct ps) added, lists-correct r ps, l)
                  refl
            | inr f ↦
                let c = contains-existing_resources r ps ∙ rw (e, f) refl in
                rw
                  (
                    any-append (λ p. p.resource == r) (map correct ps) added,
                    lists-missing at_least version existing order r t (h.visits r t e) c d,
                  )
                  (or_true _)
          ];
        },
        of_unknown-append (map correct ps) added
            ∙ rw
                (
                  of_unknown-correct ps,
                  of_unknown-known added (
                      All-missing at_least version _ existing order
                        (λ r t i. rw (h.only r t i) refl)),
                )
                (append_nil _),
      )

  -- syncAkoUserRole reports no change of a settled role and makes none.
  pub sync_ako_user_role-settled :
      IsSettled at_least version ps → sync_ako_user_role at_least order ps version ≡ (ps, false)
  unfolding sync_ako_user_role
  sync_ako_user_role-settled s =
      let existing = existing_resources ps in
      let none_missing = missing-nil at_least version existing order λ r t i.
        elim (Bool-cases (is_deprecated at_least version r)) [
          | inl d ↦ rw d (or_true _)
          | inr d ↦
              let e = h.only r t i in
              rw (contains-existing_resources r ps, e, s.complete r t e d) refl
        ] in
      let same = map-correct-right_same ps s.right in
      rw (none_missing, same.0, same.1) (ap (λ xs. (xs, false)) (append_nil ps))

module _ (at_least : AtLeast) (version : String) (order : Dict String) (h : IsOrder order) where
  -- A second syncAkoUserRole with the same version reports no change and makes none.
  pub sync_ako_user_role_idem :
      (ps : List Permission)
      → let after = (sync_ako_user_role at_least order ps version).0 in
        sync_ako_user_role at_least order after version ≡ (after, false)
  sync_ako_user_role_idem ps =
      sync_ako_user_role-settled at_least version order h _
        (sync_ako_user_role-IsSettled at_least version order h ps).0
