-- ===== src/Merge/Order.antt =====
-- `groupingKeyLess` and `abLinkFromTargetLink` of pkg/frontend/reader/merge/merge.go.
use Prim.Native.Nat.{Ordering, compare as compare_nat}
use Prim.Native.Char.{code}
use Prim.Native.String.compare
use Prim.Native.String.{String, [] as empty, ◌∷◌ as ◌∷∷◌, then as next_if_eq, compare}
use text.Mathlib.Text.{is_eq}
use kelemetry.Base.{
  ℕ, ◌≡◌, refl, sym, ap, subst, ◌∙◌, ◌≢◌, ◌⊎◌, inl, inr, Bool, true, false, not, arith, ◌==◌,
  string_eq, Bool-cases, beq_sym_false,
}
use kelemetry.Aggregator.{Key}
use kelemetry.LinkTags.{LinkRole, parent_role, child_role, reverse_link_role}
use kelemetry.Merge.{
  string_less, less_then, grouping_key_less, is_child_role, ab_link, ab_link_from_target_link,
}

abbrev opposite : Ordering → Ordering
opposite Ordering.lt = Ordering.gt
opposite Ordering.eq = Ordering.eq
opposite Ordering.gt = Ordering.lt

opposite-next_if_eq :
    (o p : Ordering) → opposite (next_if_eq o p) ≡ next_if_eq (opposite o) (opposite p)
opposite-next_if_eq Ordering.lt p = refl
opposite-next_if_eq Ordering.eq p = refl
opposite-next_if_eq Ordering.gt p = refl

compare_nat_sym : (m n : ℕ) → compare_nat m n ≡ opposite (compare_nat n m)
compare_nat_sym m n = ground arith

compare_sym : (s t : String) → compare s t ≡ opposite (compare t s)
compare_sym empty empty = compare.nil-nil ∙ ap opposite (sym compare.nil-nil)
compare_sym empty (d ∷∷ t) = compare.nil-cons d t ∙ ap opposite (sym (compare.cons-nil d t))
compare_sym (c ∷∷ s) empty = compare.cons-nil c s ∙ ap opposite (sym (compare.nil-cons c s))
compare_sym (c ∷∷ s) (d ∷∷ t) =
    compare.cons-cons c d s t
    ∙ (λ i. next_if_eq (compare_nat_sym (code c) (code d) i) (compare_sym s t i))
    ∙ sym (opposite-next_if_eq (compare_nat (code d) (code c)) (compare t s))
    ∙ ap opposite (sym (compare.cons-cons d c t s))

abbrev less_of : Ordering → Bool
less_of o = elim o [ Ordering.lt ↦ true | _ ↦ false ]

less_of-flip : (o : Ordering) → is_eq (opposite o) ≡ false → less_of (opposite o) ≡ not (less_of o)
less_of-flip Ordering.lt h = refl
less_of-flip Ordering.eq h = absurd (cc)
less_of-flip Ordering.gt h = refl

-- Of two texts that differ one is less, and not the other.
string_less-flip : (s t : String) → (s == t) ≡ false → string_less s t ≡ not (string_less t s)
unfolding string_less
string_less-flip s t other =
    subst (λ o. is_eq o ≡ false → less_of o ≡ not (less_of (compare t s))) (sym (compare_sym s t))
      (less_of-flip (compare t s)) other

less_then-flip :
    (s t : String) (next next' : Bool)
    → (s ≡ t → next ≡ not next')
    → less_then s t next ≡ not (less_then t s next')
unfolding less_then
less_then-flip s t next next' h = elim (Bool-cases (s == t)) [
  | inl same ↦
      rw (same, (string_eq.beq_iff t s).1 (sym ((string_eq.beq_iff s t).0 same)))
        (h ((string_eq.beq_iff s t).0 same))
  | inr other ↦ rw (other, beq_sym_false s t other) (string_less-flip s t other)
]

-- Of two keys that differ one is less, and not the other.
grouping_key_less-flip : (a b : Key) → a ≢ b → grouping_key_less a b ≡ not (grouping_key_less b a)
unfolding grouping_key_less
grouping_key_less-flip a b other = less_then-flip a.group b.group _ _ (λ g.
    less_then-flip a.resource b.resource _ _ (λ r. less_then-flip a.cluster b.cluster _ _ (λ c.
      less_then-flip a.namespace b.namespace _ _ (λ ns. less_then-flip a.name b.name _ _ (λ n.
        absurd (
          other (λ i. record {
            cluster = c i;
            group = g i;
            resource = r i;
            namespace = ns i;
            name = n i;
          })))))))

ab_link-flip :
    (less greater : Bool) (a b : Key) (role : LinkRole) (class : String)
    → less ≡ not greater
    → (role ≡ parent_role) ⊎ (role ≡ child_role)
    → ab_link less a (record { key = b; role = role; class = class })
      ≡ ab_link greater b (record { key = a; role = reverse_link_role role; class = class })
unfolding ab_link is_child_role reverse_link_role
ab_link-flip true true a b role class h known = absurd (cc)
ab_link-flip true false a b role class h (inl t) = rw t refl
ab_link-flip true false a b role class h (inr t) = rw t refl
ab_link-flip false true a b role class h (inl t) = rw t refl
ab_link-flip false true a b role class h (inr t) = rw t refl
ab_link-flip false false a b role class h known = absurd (cc)

-- A link seen from its other end, with the role of parent or child reversed, is the same link of
-- the map, if it joins two objects.
ab_link_from_target_link-reverse_link_role :
    (a b : Key) (role : LinkRole) (class : String)
    → a ≢ b
    → (role ≡ parent_role) ⊎ (role ≡ child_role)
    → ab_link_from_target_link a (record { key = b; role = role; class = class })
      ≡ ab_link_from_target_link b
          (record { key = a; role = reverse_link_role role; class = class })
unfolding ab_link_from_target_link
ab_link_from_target_link-reverse_link_role a b role class other known =
    ab_link-flip (grouping_key_less a b) (grouping_key_less b a) a b role class
      (grouping_key_less-flip a b other) known
