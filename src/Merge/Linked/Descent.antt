-- ===== src/Merge/Linked/Descent.antt =====
-- The objects that `mergeLinkedTraces` of pkg/frontend/reader/merge/merge.go hangs below a root.
use kelemetry.Base.{
  ℕ, ◌+◌, ◌≤◌, ◌≡◌, refl, sym, ap, subst, ◌∙◌, ◌⊎◌, inl, inr, Bool, true, false, List, [], ◌∷◌,
  Option, none, some, String, arith, if◌then◌else◌, Eq, ◌==◌, length, Bool-cases, Option-cases,
}
use kelemetry.Base.Map.{Map, erase, has, has-insert, has-erase, length-erase_lt}
use kelemetry.Aggregator.{Key}
use kelemetry.SpanTree.{struct, Span}
use kelemetry.Merge.{TargetLink, key_eq, is_child_role}
use kelemetry.Merge.Roots.{Content}
use kelemetry.Merge.Objects.{Object}
use kelemetry.Merge.Linked.{Merging, follow_child_link, follow_child_links}
use kelemetry.Merge.Linked.Attached.{
  mem, links_to, Stays, Joins, Ever, Linked, LinkedBy, follow_child_link-Linked,
}

else_true : (b c : Bool) → c ≡ true → (if b then true else c) ≡ true
else_true true c h = refl
else_true false c h = h

one_link :
    (child same : Bool)
    → (if child then (if same then true else false) else false) ≡ true
    → (child ≡ true) × (same ≡ true)
one_link true true h = (refl, refl)
one_link true false h = absurd (cc)
one_link false same h = absurd (cc)

split_link :
    (child same later : Bool)
    → (if child then (if same then true else later) else later) ≡ true
    → ((if child then (if same then true else false) else false) ≡ true) ⊎ (later ≡ true)
split_link true true later h = inl refl
split_link true false later h = inr h
split_link false same later h = inr h

either_link :
    (child same later : Bool)
    → ((if child then (if same then true else false) else false) ≡ true) ⊎ (later ≡ true)
    → (if child then (if same then true else later) else later) ≡ true
either_link true true later h = refl
either_link true false later (inl h) = absurd (cc)
either_link true false later (inr h) = h
either_link false same later (inl h) = absurd (cc)
either_link false same later (inr h) = h

module _ {ℓ κ μ} {I : Type ℓ} {L : Type κ} {M : Type μ} (trees : Map Key (Object I L M)) where
  -- `left` holds the objects that are not in the tree, at least.
  abbrev pub Covers : Merging I L → Map Key (Object I L M) → Type 0
  Covers m left = (k : Key) → has k trees ≡ true → has k m.tree_objects ≡ false → has k left ≡ true

  -- The objects that are left and the pending ones do not grow in number.
  abbrev pub Shrinks : Merging I L → Merging I L → Type (ℓ ⊔ κ ⊔ μ)
  Shrinks m m' =
      (left : Map Key (Object I L M))
      → Covers m left
      → (left' : Map Key (Object I L M)) × Covers m' left'
        × (length left' + length m'.pending_objects ≤ length left + length m.pending_objects)

  -- What following some links does: objects are only added, each by a link to it, and then it is
  -- pending; every object that is linked is in the tree.
  pub record Follows (links : List TargetLink) (m m' : Merging I L) : Type (ℓ ⊔ κ ⊔ μ) where
    pub grows : (k : Key) → has k m.tree_objects ≡ true → has k m'.tree_objects ≡ true
    pub new :
        (k : Key)
        → has k m.tree_objects ≡ false
        → has k m'.tree_objects ≡ true
        → (links_to k links ≡ true) × (has k trees ≡ true) × (mem k m'.pending_objects ≡ true)
    pub waits : (k : Key) → mem k m.pending_objects ≡ true → mem k m'.pending_objects ≡ true
    pub all :
        (k : Key) → links_to k links ≡ true → has k trees ≡ true → has k m'.tree_objects ≡ true
    pub queued :
        (k : Key)
        → mem k m'.pending_objects ≡ true
        → (mem k m.pending_objects ≡ true) ⊎ (has k m'.tree_objects ≡ true)
    pub shrinks : Shrinks m m'

  none-Follows : (m : Merging I L) → Follows [] m m
  none-Follows m = record {
    grows = λ k h. h;
    new = λ k no yes. absurd (cc);
    waits = λ k h. h;
    all = λ k h there. absurd (cc);
    queued = λ k h. inl h;
    shrinks = λ left c. (left, c, omega arith);
  }

  -- One link: the object it leads to, if it is a link to a child.
  Stays-Follows :
      (link : TargetLink) (m m' : Merging I L)
      → Stays m m'
      → (is_child_role link.role ≡ true
          → has link.key trees ≡ true
          → has link.key m.tree_objects ≡ true)
      → Follows (link ∷ []) m m'
  Stays-Follows link m m' same there = record {
    grows = λ k h. ap (has k) same.0 ∙ h;
    new = λ k no yes. let still = ap (has k) (sym same.0) ∙ yes in absurd (cc);
    waits = λ k h. ap (mem k) same.1 ∙ h;
    all = λ k h known.
        ap (has k) same.0
        ∙ (let one = one_link (is_child_role link.role) (link.key == k) h in
            let same : link.key ≡ k = (key_eq.beq_iff link.key k).0 one.1 in
            subst (λ i. has i m.tree_objects ≡ true) same
              (there one.0 (subst (λ i. has i trees ≡ true) (sym same) known)));
    queued = λ k h. inl (ap (mem k) (sym same.1) ∙ h);
    shrinks = λ left c. (
      left,
      (λ k known no. c k known (ap (has k) (sym same.0) ∙ no)),
      omega (arith, ap length same.1),
    );
  }

  Joins-Follows :
      (link : TargetLink) (m m' : Merging I L)
      → is_child_role link.role ≡ true
      → Joins link.key m m'
      → has link.key trees ≡ true
      → Follows (link ∷ []) m m'
  Joins-Follows link m m' child j known = record {
    grows = λ k h.
        ap (has k) j.0
        ∙ has-insert link.key k struct m.tree_objects
        ∙ else_true (link.key == k) (has k m.tree_objects) h;
    new = λ k no yes.
        let now = sym (has-insert link.key k struct m.tree_objects) ∙ ap (has k) (sym j.0) ∙ yes in
        elim (Bool-cases (link.key == k)) [
          | inl t ↦ (
            rw child (rw t refl),
            subst (λ i. has i trees ≡ true) ((key_eq.beq_iff link.key k).0 t) known,
            ap (mem k) j.1 ∙ rw t refl,
          )
          | inr t ↦
              let old = subst (λ b. (if b then true else has k m.tree_objects) ≡ true) t now in
              absurd (cc)
        ];
    waits = λ k h. ap (mem k) j.1 ∙ else_true (link.key == k) (mem k m.pending_objects) h;
    all = λ k h known'.
        ap (has k) j.0
        ∙ has-insert link.key k struct m.tree_objects
        ∙ (let one = one_link (is_child_role link.role) (link.key == k) h in rw one.1 refl);
    queued = λ k h. elim (Bool-cases (link.key == k)) [
      | inl t ↦ inr (ap (has k) j.0 ∙ has-insert link.key k struct m.tree_objects ∙ rw t refl)
      | inr t ↦ inl (
          subst (λ b. (if b then true else mem k m.pending_objects) ≡ true) t
            (ap (mem k) (sym j.1) ∙ h))
    ];
    shrinks = λ left c. (
      erase link.key left,
      (λ k known' no.
          let out = sym (has-insert link.key k struct m.tree_objects) ∙ ap (has k) (sym j.0) ∙ no in
          elim (Bool-cases (link.key == k)) [
            | inl t ↦
                let yes : true ≡ false =
                  subst (λ b. (if b then true else has k m.tree_objects) ≡ false) t out in
                absurd (cc)
            | inr t ↦
                has-erase link.key k left
                ∙ rw t (
                    c k known'
                      (subst (λ b. (if b then true else has k m.tree_objects) ≡ false) t out))
          ]),
      omega (arith, ap length j.1, length-erase_lt link.key left (c link.key known j.2)),
    );
  }

  -- One link after the other.
  cons-Follows :
      (link : TargetLink) (links : List TargetLink) (m m' m'' : Merging I L)
      → Follows (link ∷ []) m m'
      → Follows links m' m''
      → Follows (link ∷ links) m m''
  cons-Follows link links m m' m'' f g = record {
    grows = λ k h. g.grows k (f.grows k h);
    new = λ k no yes. elim (Bool-cases (has k m'.tree_objects)) [
      | inl t ↦
          let first = f.new k no t in
          (
            either_link (is_child_role link.role) (link.key == k) (links_to k links) (inl first.0),
            first.1,
            g.waits k first.2,
          )
      | inr t ↦
          let later = g.new k t yes in
          (
            either_link (is_child_role link.role) (link.key == k) (links_to k links) (inr later.0),
            later.1,
            later.2,
          )
    ];
    waits = λ k h. g.waits k (f.waits k h);
    all = λ k h known.
        elim (split_link (is_child_role link.role) (link.key == k) (links_to k links) h) [
          | inl first ↦ g.grows k (f.all k first known)
          | inr later ↦ g.all k later known
        ];
    queued = λ k h. elim (g.queued k h) [
      | inl before ↦ elim (f.queued k before) [
        | inl old ↦ inl old
        | inr there ↦ inr (g.grows k there)
      ]
      | inr there ↦ inr there
    ];
    shrinks = λ left c.
        let one = f.shrinks left c in
        let two = g.shrinks one.0 one.1 in (two.0, two.1, omega (arith, one.2, two.2));
  }

  LinkedBy-Follows :
      (child : Bool) (link : TargetLink) (m m' : Merging I L)
      → is_child_role link.role ≡ child
      → LinkedBy trees child link m m'
      → Follows (link ∷ []) m m'
  LinkedBy-Follows true link m m' t (inl (same, there)) = Stays-Follows link m m' same (λ c. there)
  LinkedBy-Follows true link m m' t (inr (joins, known)) = Joins-Follows link m m' t joins known
  LinkedBy-Follows false link m m' t same = Stays-Follows link m m' same (λ c. absurd (cc))

  Ever-cons :
      (link : TargetLink) (links : List TargetLink) (m m' : Merging I L) (o : Option (Merging I L))
      → Follows (link ∷ []) m m'
      → Ever (Follows links m') o
      → Ever (Follows (link ∷ links) m) o
  Ever-cons link links m m' none f g = tt
  Ever-cons link links m m' (some m'') f g = cons-Follows link links m m' m'' f g

module _ {ℓ κ μ} {I : Type ℓ} {L : Type κ} {M : Type μ} ⦃e : Eq I⦄ (random_id : ℕ → I)
    (repeated : Key → String) (depth : ℕ) (trees : Map Key (Object I L M)) where
  pub follow_child_links-Follows :
      (root : Span I (Content L)) (links : List TargetLink) (m : Merging I L)
      → Ever
          (Follows trees links m)
          (follow_child_links random_id repeated depth trees root links m)
  unfolding follow_child_links
  follow_child_links-Follows root [] m = none-Follows trees m
  follow_child_links-Follows root (link ∷ links) m =
      elim (Option-cases (follow_child_link random_id repeated depth trees root link m)) [
        | inl failed ↦ rw (failed, follow_child_links) tt
        | inr (m', ran) ↦
            let first : Follows trees (link ∷ []) m m' =
              LinkedBy-Follows trees (is_child_role link.role) link m m' refl (
                subst (Ever (Linked trees link m)) ran
                  (follow_child_link-Linked random_id repeated depth trees root link m)) in
            rw (ran, follow_child_links)
              (Ever-cons trees link links m m' _ first (follow_child_links-Follows root links m'))
      ]
