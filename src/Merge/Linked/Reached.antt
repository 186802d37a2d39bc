-- ===== src/Merge/Linked/Reached.antt =====
-- The objects of the tree that `mergeLinkedTraces` of pkg/frontend/reader/merge/merge.go answers.
use kelemetry.Base.{
  ℕ, zero, suc, ◌+◌, ◌≤◌, ◌≡◌, refl, sym, ap, subst, ◌∙◌, ◌⊎◌, inl, inr, ◌↔◌, true, false, List, [],
  ◌∷◌, Option, none, some, String, arith, if◌then◌else◌, Eq, ◌==◌, length, Bool-cases, Option-cases,
}
use kelemetry.Base.Map.{Map, lookup, insert, erase, has, has-lookup, has-erase, length-erase_lt}
use kelemetry.Aggregator.{Key}
use kelemetry.SpanTree.{struct, SpanTree}
use kelemetry.Merge.{TargetLink, key_eq}
use kelemetry.Merge.Roots.{Content}
use kelemetry.Merge.Objects.{Object}
use kelemetry.Merge.Linked.{
  Merging, Outcome, merged, panicked, root_span, expand, drain, merge_below,
}
use kelemetry.SpanTree.Grafting.{Throughout, Present}
use kelemetry.Merge.Linked.Attached.{mem, links_to, Ever}
use kelemetry.Merge.Linked.Spans.{SoundTrees, SoundTrees-all_fit, Hangs, Good}
use kelemetry.Merge.Linked.Rounds.{EndsWell, drain-EndsWell, start_Good}
use kelemetry.Merge.Linked.Descent.{Covers, Follows, follow_child_links-Follows}

-- From an object downwards along links to children, each to an object of the component.
pub data Below {ℓ κ μ} {I : Type ℓ} {L : Type κ} {M : Type μ} (trees : Map Key (Object I L M))
    (root : Key) : Key → Type (ℓ ⊔ κ ⊔ μ) where
  at_root : Below trees root root
  below :
      (u k : Key) (object : Object I L M)
      → Below trees root u
      → lookup u trees ≡ some object
      → links_to k object.links ≡ true
      → has k trees ≡ true
      → Below trees root k

module _ {ℓ κ μ} {I : Type ℓ} {L : Type κ} {M : Type μ} (trees : Map Key (Object I L M))
    (root : Key) where
  -- What holds when the loop has these keys before it.
  pub record Descending (pending : List Key) (m : Merging I L) : Type (ℓ ⊔ κ ⊔ μ) where
    pub rooted : has root m.tree_objects ≡ true
    pub found : (k : Key) → has k m.tree_objects ≡ true → Below trees root k
    pub known : (k : Key) → mem k pending ≡ true → has k m.tree_objects ≡ true
    pub closed :
        (u k : Key) (object : Object I L M)
        → has u m.tree_objects ≡ true
        → mem u pending ≡ false
        → lookup u trees ≡ some object
        → links_to k object.links ≡ true
        → has k trees ≡ true
        → has k m.tree_objects ≡ true

  not_waiting :
      (links : List TargetLink) (m m' : Merging I L) (u : Key)
      → Follows trees links m m'
      → mem u m'.pending_objects ≡ false
      → mem u m.pending_objects ≡ false
  not_waiting links m m' u f h = elim (Bool-cases (mem u m.pending_objects)) [
    | inl t ↦ let waits = f.waits u t in absurd (cc)
    | inr t ↦ t
  ]

  Follows-Descending :
      (subj : Key) (rest : List Key) (subject : Object I L M) (m m' : Merging I L)
      → Descending (subj ∷ rest) m
      → lookup subj trees ≡ some subject
      → m.pending_objects ≡ rest
      → Follows trees subject.links m m'
      → Descending m'.pending_objects m'
  Follows-Descending subj rest subject m m' d at pending f = record {
    rooted = f.grows root d.rooted;
    found = λ k h. elim (Bool-cases (has k m.tree_objects)) [
      | inl t ↦ d.found k t
      | inr t ↦
          let n = f.new k t h in
          below subj k subject
            (d.found subj (d.known subj (rw ((key_eq.beq_iff subj subj).1 refl) refl))) at n.0 n.1
    ];
    known = λ k h. elim (f.queued k h) [
      | inl before ↦ f.grows k (
          d.known k (elim (Bool-cases (subj == k)) [
            | inl t ↦ rw t refl
            | inr t ↦ rw t (ap (mem k) (sym pending) ∙ before)
          ]))
      | inr there ↦ there
    ];
    closed = λ u k object there quiet look links known. elim (Bool-cases (has u m.tree_objects)) [
      | inl t ↦ elim (Bool-cases (subj == u)) [
        | inl same ↦
            let this : lookup u trees ≡ some subject =
              subst (λ i. lookup i trees ≡ some subject) ((key_eq.beq_iff subj u).0 same) at in
            let one : subject ≡ object = cc in
            f.all k (subst (λ o. links_to k o.links ≡ true) (sym one) links) known
        | inr other ↦ f.grows k (
            d.closed u k object t
              (rw other (ap (mem u) (sym pending) ∙ not_waiting subject.links m m' u f quiet)) look
              links known)
      ]
      | inr t ↦ let waits = (f.new u t there).2 in absurd (cc)
    ];
  }

  Below-there :
      (m : Merging I L) (k : Key)
      → Descending [] m
      → Below trees root k
      → has k m.tree_objects ≡ true
  Below-there m _ d at_root = d.rooted
  Below-there m _ d (below u k object way look links known) =
      d.closed u k object (Below-there m u d way) refl look links known

  -- The loop panicked, or it is done.
  abbrev pub Ended : Outcome (Merging I L) → Type (ℓ ⊔ κ ⊔ μ)
  Ended outcome =
      (outcome ≡ panicked) ⊎ ((m : Merging I L) × (outcome ≡ merged m) × Descending [] m)

  with_pending :
      (m : Merging I L) (pending rest : List Key)
      → Descending pending m
      → Descending pending (record m { pending_objects = rest })
  with_pending m pending rest d = record {
    rooted = d.rooted;
    found = d.found;
    known = d.known;
    closed = d.closed;
  }

module _ {ℓ κ μ} {I : Type ℓ} {L : Type κ} {M : Type μ} ⦃e : Eq I⦄ (depth : ℕ)
    (trees : Map Key (Object I L M)) where
  -- The keys and spans that the merged tree has.
  abbrev pub HasBelow : Key → Merging I L → Type (ℓ ⊔ κ ⊔ μ)
  HasBelow root m =
      ((k : Key) → (has k m.tree_objects ≡ true) ↔ Below trees root k)
      × ((k : Key) (object : Object I L M)
          → Below trees root k
          → lookup k trees ≡ some object
          → Throughout object.tree (Present object.tree m.tree) depth object.tree.root
            × ((root ≡ k) ⊎ Hangs depth trees k object m.tree))

module _ {ℓ κ μ} {I : Type ℓ} {L : Type κ} {M : Type μ} ⦃e : Eq I⦄ (random_id : ℕ → I)
    (repeated : Key → String) (depth : ℕ) (trees : Map Key (Object I L M)) where
  -- The subject of a round and what the round does.
  abbrev Expands : Key → Merging I L → Merging I L → Type (ℓ ⊔ κ ⊔ μ)
  Expands subj m m' =
      (subject : Object I L M) × (lookup subj trees ≡ some subject)
      × Follows trees subject.links m m'

  Ever-with :
      (subj : Key) (subject : Object I L M) (m : Merging I L) (o : Option (Merging I L))
      → lookup subj trees ≡ some subject
      → Ever (Follows trees subject.links m) o
      → Ever (Expands subj m) o
  Ever-with subj subject m none look f = tt
  Ever-with subj subject m (some m') look f = (subject, look, f)

  expand-Expands :
      (subj : Key) (m : Merging I L)
      → Ever (Expands subj m) (expand random_id repeated depth trees subj m)
  unfolding expand
  expand-Expands subj m = elim (Option-cases (lookup subj trees)) [
    | inl missing ↦ rw (missing, expand) tt
    | inr (subject, look) ↦ elim (Option-cases (root_span random_id repeated depth trees subject)) [
      | inl missing ↦ rw (look, missing, expand) tt
      | inr (root, there) ↦
          rw (look, there, expand)
            (Ever-with subj subject m _ look
              (follow_child_links-Follows random_id repeated depth trees root subject.links m))
    ]
  ]

  drain-Ended :
      (fuel : ℕ) (root : Key) (m : Merging I L) (pending : List Key) (left : Map Key (Object I L M))
      → Covers trees m left
      → Descending trees root pending m
      → length left + length pending ≤ fuel
      → Ended trees root (drain random_id repeated depth trees fuel m pending)
  unfolding drain
  drain-Ended fuel root m [] left c d small = inr (m, refl, d)
  drain-Ended zero root m (subj ∷ rest) left c d small = absurd (omega arith)
  drain-Ended (suc fuel) root m (subj ∷ rest) left c d small =
      let now : Merging I L = record m { pending_objects = rest } in
      elim (Option-cases (expand random_id repeated depth trees subj now)) [
        | inl failed ↦ rw (failed, drain) (inl refl)
        | inr (m', ran) ↦
            let round : Expands subj now m' =
              subst (Ever (Expands subj now)) ran (expand-Expands subj now) in
            let less = round.2.shrinks left c in
            rw (ran, drain)
              (drain-Ended fuel root m' m'.pending_objects less.0 less.1
                (Follows-Descending trees root subj rest round.0 now m'
                  (with_pending trees root m (subj ∷ rest) rest d) round.1 refl round.2)
                (omega (arith, less.2, small)))
      ]

  cover_rest :
      (root k : Key)
      → has k trees ≡ true
      → (if root == k then true else false) ≡ false
      → has k (erase root trees) ≡ true
  cover_rest root k known out = elim (Bool-cases (root == k)) [
    | inl t ↦
        let yes : true ≡ false = subst (λ b. (if b then true else false) ≡ false) t out in
        absurd (cc)
    | inr t ↦ has-erase root k trees ∙ rw t known
  ]

  start_Descending :
      (root : Key) (tree : SpanTree I (Content L))
      → Descending trees root (root ∷ []) (record {
        tree = tree;
        tree_objects = insert root struct [];
        pending_objects = root ∷ [];
        drawn = 0;
      })
  unfolding has insert
  start_Descending root tree = record {
    rooted = rw ((key_eq.beq_iff root root).1 refl) refl;
    found = λ k h. elim (Bool-cases (root == k)) [
      | inl t ↦ subst (Below trees root) ((key_eq.beq_iff root k).0 t) at_root
      | inr t ↦
          let no : false ≡ true = subst (λ b. (if b then true else false) ≡ true) t h in absurd (cc)
    ];
    known = λ k h. h;
    closed = λ u k object there quiet look links known. absurd (cc);
  }

  finish_below :
      (root : Key) (o : Outcome (Merging I L)) (sound : SoundTrees depth trees)
      → Ended trees root o
      → EndsWell random_id repeated depth trees sound root o
      → (m : Merging I L) × (o ≡ merged m) × HasBelow depth trees root m
  finish_below root o sound (inl failed) well =
      elim (subst (EndsWell random_id repeated depth trees sound root) failed well) [ ]
  finish_below root o sound (inr (m, ran, d)) well =
      let good : Good depth trees root m =
        subst (EndsWell random_id repeated depth trees sound root) ran well in
      (
        m,
        ran,
        (
          (λ k. (d.found k, Below-there trees root m k d)),
          λ k object way look. (
            good.spans k object (Below-there trees root m k d way) look,
            good.hangs k object (Below-there trees root m k d way) look,
          ),
        ),
      )

  pub merge_below-Below :
      (root : Key)
      → has root trees ≡ true
      → SoundTrees depth trees
      → (m : Merging I L) × (merge_below random_id repeated depth trees (length trees) root
          ≡ merged m)
        × HasBelow depth trees root m
  unfolding merge_below has insert
  merge_below-Below root there sound = elim (Option-cases (lookup root trees)) [
    | inl missing ↦ let absent = (has-lookup root trees).1 missing in absurd (cc)
    | inr (object, look) ↦
        let start : Merging I L = record {
          tree = object.tree;
          tree_objects = insert root struct [];
          pending_objects = root ∷ [];
          drawn = 0;
        } in
        let run =
          drain-Ended (length trees) root start (root ∷ []) (erase root trees) (cover_rest root)
            (start_Descending root object.tree) (omega (arith, length-erase_lt root trees there)) in
        let good = start_Good random_id repeated depth trees sound root object look in
        let well =
          drain-EndsWell random_id repeated depth trees sound root (length trees) start (root ∷ [])
            good good.known in
        let (m, ran, has_below) =
          finish_below root (drain random_id repeated depth trees (length trees) start (root ∷ []))
            sound run well in
        (m, rw (SoundTrees-all_fit depth trees sound, look, merge_below) ran, has_below)
  ]
