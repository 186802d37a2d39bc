-- ===== src/Manager/Search.antt =====
-- `insertDeps` of pkg/manager/interface.go puts a component behind its dependencies or meets a cycle.
use kelemetry.Base.{
  ℕ, zero, suc, ◌≤◌, ◌<◌, ◌≡◌, refl, sym, subst, ◌∙◌, inl, inr, true, false, not, ◌&&◌, ◌||◌, List,
  [], ◌∷◌, ◌++◌, some, arith, if◌then◌else◌, Eq, ◌==◌, nat_eq, Bool-cases, Option-cases,
}
use kelemetry.Base.Map.{Map, lookup, insert, erase, has, has-lookup, has-insert, has-erase}
use kelemetry.SpanTree.{IdSet, struct}
use kelemetry.Manager.{
  ComponentInfo, Insertion, inserted, cycle, fault, each_dep, finish, insert_deps,
}
use kelemetry.Manager.Marks.{
  is_entered, waiting, waiting-erase_le, waiting-insert_lt, has-entered, entered-insert,
  entered-erase,
}
use kelemetry.Manager.Ordered.{
  deps_or_none, deps_of, mem, mem-append_one, InOrder, InOrder-snoc, Chain, Chain-snoc,
}

module _ {Ty : Type 0} ⦃e : Eq Ty⦄ (components : Map Ty (ComponentInfo Ty)) where
  -- What has been inserted is in order, and is what has no mark any more.
  pub record Inv (into : List Ty) (keys : Map Ty ℕ) : Type 0 where
    pub in_order : InOrder components [] into
    pub parted : (k : Ty) → mem k into ≡ (has k components && not (has k keys))
    pub known : (k : Ty) → has k keys ≡ true → has k components ≡ true

  -- What a call leaves.
  pub record Finished (keys : Map Ty ℕ) (into' : List Ty) (keys' : Map Ty ℕ) : Type 0 where
    pub inv : Inv into' keys'
    pub fewer : waiting keys' ≤ waiting keys
    pub same_entered : (k : Ty) → is_entered (lookup k keys') ≡ is_entered (lookup k keys)
    pub gone : (k : Ty) → has k keys ≡ false → has k keys' ≡ false

  -- The path of an error: it starts at a component whose call was under way or that the path meets
  -- again, and ends at the one of the call.
  abbrev pub Cyclic : Map Ty ℕ → Ty → List Ty → Type 0
  Cyclic keys last path =
      (g : Ty) × (rest : List Ty) × (path ≡ g ∷ rest)
      × Chain components g rest last
      × ((is_entered (lookup g keys) || mem g rest) ≡ true)

  abbrev pub Inserts : Map Ty ℕ → Ty → Insertion Ty → Type 0
  Inserts keys of (inserted into' keys') =
      Finished keys into' keys'
      × (has of keys' ≡ false)
      × (has of keys ≡ true → waiting keys' < waiting keys)
  Inserts keys of (cycle path) = Cyclic keys of path
  Inserts keys of fault = ⊥

  abbrev InsertsAll : Map Ty ℕ → IdSet Ty → Insertion Ty → Type 0
  InsertsAll keys deps (inserted into' keys') =
      Finished keys into' keys' × ((d : Ty) → has d deps ≡ true → has d keys' ≡ false)
  InsertsAll keys deps (cycle path) = (d : Ty) × (has d deps ≡ true) × Cyclic keys d path
  InsertsAll keys deps fault = ⊥

  refl-Finished : (into : List Ty) (keys : Map Ty ℕ) → Inv into keys → Finished keys into keys
  refl-Finished into keys i = record {
    inv = i;
    fewer = omega arith;
    same_entered = λ k. refl;
    gone = λ k h. h;
  }

  trans-Finished :
      (keys keys' keys'' : Map Ty ℕ) (into' into'' : List Ty)
      → Finished keys into' keys'
      → Finished keys' into'' keys''
      → Finished keys into'' keys''
  trans-Finished keys keys' keys'' into' into'' f g = record {
    inv = g.inv;
    fewer = omega (arith, f.fewer, g.fewer);
    same_entered = λ k. g.same_entered k ∙ f.same_entered k;
    gone = λ k h. g.gone k (f.gone k h);
  }

  Cyclic-same :
      (keys keys' : Map Ty ℕ) (last : Ty) (path : List Ty)
      → ((k : Ty) → is_entered (lookup k keys') ≡ is_entered (lookup k keys))
      → Cyclic keys' last path
      → Cyclic keys last path
  Cyclic-same keys keys' last path same (g, rest, is, chain, back) =
      (g, rest, is, chain, subst (λ b. (b || mem g rest) ≡ true) (same g) back)

  -- The rest of the loop after the first dependency.
  InsertsAll-rest :
      (keys keys' : Map Ty ℕ) (into' : List Ty) (dep : Ty) (deps : IdSet Ty) (r : Insertion Ty)
      → Finished keys into' keys'
      → has dep keys' ≡ false
      → InsertsAll keys' deps r
      → InsertsAll keys ((dep, struct) ∷ deps) r
  unfolding has
  InsertsAll-rest keys keys' into' dep deps (inserted into'' keys'') f own (g, others) = (
    trans-Finished keys keys' keys'' into' into'' f g,
    λ d among. elim (Bool-cases (dep == d)) [
      | inl t ↦ subst (λ i. has i keys'' ≡ false) ((e.beq_iff dep d).0 t) (g.gone dep own)
      | inr t ↦ others d (subst (λ b. (if b then true else has d deps) ≡ true) t among)
    ],
  )
  InsertsAll-rest keys keys' into' dep deps (cycle path) f own (d, among, found) =
      (d, rw among (ground arith), Cyclic-same keys keys' d path f.same_entered found)
  InsertsAll-rest keys keys' into' dep deps fault f own h = h

  InsertsAll-cons :
      (keys : Map Ty ℕ) (dep : Ty) (deps : IdSet Ty)
      (insert_dep : List Ty → Map Ty ℕ → Ty → Insertion Ty)
      → ((into' : List Ty) (keys' : Map Ty ℕ)
          → Inv into' keys'
          → waiting keys' ≤ waiting keys
          → InsertsAll keys' deps (each_dep insert_dep deps into' keys'))
      → (r : Insertion Ty) → Inserts keys dep r
      → InsertsAll keys ((dep, struct) ∷ deps) (elim r [
        | inserted into' keys' ↦ each_dep insert_dep deps into' keys'
        | cycle path ↦ cycle path
        | fault ↦ fault
      ])
  unfolding has
  InsertsAll-cons keys dep deps insert_dep rec (inserted into' keys') (f, own, less) =
      InsertsAll-rest keys keys' into' dep deps (each_dep insert_dep deps into' keys') f own
        (rec into' keys' f.inv f.fewer)
  InsertsAll-cons keys dep deps insert_dep rec (cycle path) h =
      (dep, rw ((e.beq_iff dep dep).1 refl) refl, h)
  InsertsAll-cons keys dep deps insert_dep rec fault h = h

  each_dep-InsertsAll :
      (insert_dep : List Ty → Map Ty ℕ → Ty → Insertion Ty) (deps : IdSet Ty) (bound : ℕ)
      → ((into : List Ty) (keys : Map Ty ℕ) (of : Ty)
          → Inv into keys
          → waiting keys < bound
          → Inserts keys of (insert_dep into keys of))
      → (into : List Ty) (keys : Map Ty ℕ) → Inv into keys
      → waiting keys < bound
      → InsertsAll keys deps (each_dep insert_dep deps into keys)
  unfolding each_dep has
  each_dep-InsertsAll insert_dep [] bound rec into keys i enough =
      (refl-Finished into keys i, λ d h. absurd (cc))
  each_dep-InsertsAll insert_dep ((dep, struct) ∷ deps) bound rec into keys i enough =
      InsertsAll-cons keys dep deps insert_dep
        (λ into' keys' i' fewer.
          each_dep-InsertsAll insert_dep deps bound rec into' keys' i'
            (omega (arith, fewer, enough)))
        (insert_dep into keys dep) (rec into keys dep i enough)

  -- The state of the search when a key is entered.
  enter-Inv :
      (into : List Ty) (keys : Map Ty ℕ) (of : Ty)
      → has of keys ≡ true
      → Inv into keys
      → Inv into (insert of 1 keys)
  enter-Inv into keys of there i = record {
    in_order = i.in_order;
    parted = λ k. rw (has-insert of k 1 keys) (elim (Bool-cases (of == k)) [
      | inl t ↦
          let here = subst (λ j. has j keys ≡ true) ((e.beq_iff of k).0 t) there in
          i.parted k ∙ rw (t, here) refl
      | inr t ↦ i.parted k ∙ rw t refl
    ]);
    known = λ k h. elim (Bool-cases (of == k)) [
      | inl t ↦ i.known k (subst (λ j. has j keys ≡ true) ((e.beq_iff of k).0 t) there)
      | inr t ↦ i.known k (sym (has-insert of k 1 keys ∙ rw t refl) ∙ h)
    ];
  }

  finish-Inv :
      (into' : List Ty) (keys' : Map Ty ℕ) (of : Ty)
      → Inv into' keys'
      → has of keys' ≡ true
      → ((d : Ty) → has d (deps_of components of) ≡ true → has d keys' ≡ false)
      → Inv (into' ++ of ∷ []) (erase of keys')
  finish-Inv into' keys' of i there ready = record {
    in_order =
        InOrder-snoc components [] into' of i.in_order refl
          (i.parted of ∙ rw (there, i.known of there) refl)
          (λ d dep left. rw (i.parted d, left, ready d dep) refl);
    parted = λ k.
        mem-append_one k of into'
        ∙ rw (has-erase of k keys') (elim (Bool-cases (of == k)) [
          | inl t ↦
              let left =
                subst (λ j. has j components ≡ true) ((e.beq_iff of k).0 t) (i.known of there) in
              rw (t, left) refl
          | inr t ↦ rw t (i.parted k)
        ]);
    known = λ k h. elim (Bool-cases (of == k)) [
      | inl t ↦ subst (λ j. has j components ≡ true) ((e.beq_iff of k).0 t) (i.known of there)
      | inr t ↦ i.known k (sym (has-erase of k keys' ∙ rw t refl) ∙ h)
    ];
  }

  finish-Inserts :
      (keys : Map Ty ℕ) (of : Ty) (step : ℕ) (r : Insertion Ty)
      → lookup of keys ≡ some step
      → (step == 1) ≡ false
      → InsertsAll (insert of 1 keys) (deps_of components of) r
      → Inserts keys of (finish of r)
  unfolding finish
  finish-Inserts keys of step (inserted into' keys') there fresh (f, ready) =
      let self : (of == of) ≡ true = (e.beq_iff of of).1 refl in
      let entered : is_entered (lookup of keys') ≡ true =
        f.same_entered of ∙ entered-insert of of keys ∙ rw self refl in
      let marked = has-entered of keys' entered in
      let less = waiting-insert_lt of step keys there fresh in
      let fewer' = waiting-erase_le of keys' in
      (
        record {
          inv = finish-Inv into' keys' of f.inv marked ready;
          fewer = omega (arith, less, fewer', f.fewer);
          same_entered = λ k. rw (entered-erase of k keys') (elim (Bool-cases (of == k)) [
            | inl t ↦
                let own = subst (λ j. lookup j keys ≡ some step) ((e.beq_iff of k).0 t) there in
                rw (t, own, fresh) refl
            | inr t ↦ rw t (f.same_entered k ∙ entered-insert of k keys ∙ rw t refl)
          ]);
          gone = λ k h. rw (has-erase of k keys') (elim (Bool-cases (of == k)) [
            | inl t ↦ rw t refl
            | inr t ↦ rw t (f.gone k (has-insert of k 1 keys ∙ rw (t, h) refl))
          ]);
        },
        has-erase of of keys' ∙ rw self refl,
        λ _. omega (arith, less, fewer', f.fewer),
      )
  finish-Inserts keys of step (cycle path) there fresh (d, dep, (g, rest, is, chain, back)) = (
    g,
    rest ++ of ∷ [],
    rw is refl,
    Chain-snoc components g rest d of chain dep,
    rw (mem-append_one g of rest) (
        let back' = subst (λ b. (b || mem g rest) ≡ true) (entered-insert of g keys) back in
        ground arith),
  )
  finish-Inserts keys of step fault there fresh h = h

  pub insert_deps-Inserts :
      (fuel : ℕ) (into : List Ty) (keys : Map Ty ℕ) (of : Ty)
      → Inv into keys
      → waiting keys < fuel
      → Inserts keys of (insert_deps fuel components into keys of)
  unfolding insert_deps
  insert_deps-Inserts zero into keys of i enough = absurd (omega (arith, enough))
  insert_deps-Inserts (suc fuel) into keys of i enough = elim (Option-cases (lookup of keys)) [
    | inl missing ↦
        let absent = (has-lookup of keys).1 missing in
        rw (missing, insert_deps) (refl-Finished into keys i, absent, λ h. absurd (cc))
    | inr (step, there) ↦
        let marked : has of keys ≡ true = elim (Bool-cases (has of keys)) [
          | inl t ↦ t
          | inr t ↦ let none_there = (has-lookup of keys).0 t in absurd (cc)
        ] in
        elim (Bool-cases (step == 1)) [
          | inl t ↦
              rw (there, insert_deps)
                (rw t (of, [], refl, refl, rw (there, is_entered) (rw t refl)))
          | inr t ↦ elim (Option-cases (lookup of components)) [
            | inl missing ↦
                let absent = (has-lookup of components).1 missing in
                let known = i.known of marked in absurd (cc)
            | inr (info, found) ↦
                let less = waiting-insert_lt of step keys there t in
                let all : InsertsAll (insert of 1 keys) info.dependencies (
                    each_dep (insert_deps fuel components) info.dependencies into
                      (insert of 1 keys)) =
                  each_dep-InsertsAll (insert_deps fuel components) info.dependencies fuel
                    (insert_deps-Inserts fuel) into (insert of 1 keys)
                    (enter-Inv into keys of marked i) (omega (arith, less, enough)) in
                rw (there, insert_deps)
                  (rw t (
                    rw (found, insert_deps)
                      (finish-Inserts keys of step
                        (each_dep (insert_deps fuel components) info.dependencies into
                          (insert of 1 keys))
                        there t
                        (subst
                          (λ o. InsertsAll (insert of 1 keys) (deps_or_none o) (
                            each_dep (insert_deps fuel components) info.dependencies into
                              (insert of 1 keys)))
                          (sym found) all))))
          ]
        ]
  ]
