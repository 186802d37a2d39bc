-- ===== src/Manager/Marks.antt =====
-- The marks of `insertDeps` in pkg/manager/interface.go.
use kelemetry.Base.{
  ℕ, suc, ◌≤◌, ◌<◌, ◌≡◌, subst, inl, inr, Bool, true, false, [], ◌∷◌, Option, none, some, arith,
  if◌then◌else◌, length, Eq, ◌==◌, nat_eq, Bool-cases,
}
use kelemetry.Base.Map.{Map, lookup, insert, erase, has, lookup-insert, lookup-erase}

-- Whether the call for a key is under way.
abbrev pub is_entered : Option ℕ → Bool
is_entered none = false
is_entered (some step) = step == 1

-- How many entries are waiting.
abbrev pub count_if : Bool → ℕ → ℕ
count_if true n = n
count_if false n = suc n

abbrev pub waiting {ℓ} : {K : Type ℓ} → Map K ℕ → ℕ
waiting [] = 0
waiting ((k, step) ∷ keys) = count_if (step == 1) (waiting keys)

count_if-le : (b : Bool) (n : ℕ) → (n ≤ count_if b n) × (count_if b n ≤ suc n)
count_if-le true n = omega arith
count_if-le false n = omega arith

count_if_mono : (b : Bool) (n m : ℕ) → n ≤ m → count_if b n ≤ count_if b m
count_if_mono true n m h = h
count_if_mono false n m h = omega arith

count_if_mono_lt : (b : Bool) (n m : ℕ) → n < m → count_if b n < count_if b m
count_if_mono_lt true n m h = h
count_if_mono_lt false n m h = omega arith

pub waiting-le-length {ℓ} : {K : Type ℓ} (keys : Map K ℕ) → waiting keys ≤ length keys
waiting-le-length [] = omega arith
waiting-le-length ((k, step) ∷ keys) =
    omega (arith, waiting-le-length keys, (count_if-le (step == 1) (waiting keys)).1)

module _ {K : Type 0} ⦃e : Eq K⦄ where
  pub waiting-erase_le : (k : K) (keys : Map K ℕ) → waiting (erase k keys) ≤ waiting keys
  unfolding erase
  waiting-erase_le k [] = omega arith
  waiting-erase_le k ((j, step) ∷ keys) = elim (Bool-cases (j == k)) [
    | inl t ↦
        rw t (omega (arith, waiting-erase_le k keys, (count_if-le (step == 1) (waiting keys)).0))
    | inr t ↦ rw t (count_if_mono (step == 1) _ _ (waiting-erase_le k keys))
  ]

  -- Entering a key that waits leaves fewer that wait.
  pub waiting-insert_lt :
      (k : K) (step : ℕ) (keys : Map K ℕ)
      → lookup k keys ≡ some step
      → (step == 1) ≡ false
      → waiting (insert k 1 keys) < waiting keys
  unfolding insert lookup
  waiting-insert_lt k step [] there fresh = absurd (cc)
  waiting-insert_lt k step ((j, own) ∷ keys) there fresh = elim (Bool-cases (j == k)) [
    | inl t ↦
        let found : some own ≡ some step =
          subst (λ b. (if b then some own else lookup k keys) ≡ some step) t there in
        let same : own ≡ step = cc in rw (t, same, fresh) (omega arith)
    | inr t ↦
        let later = subst (λ b. (if b then some own else lookup k keys) ≡ some step) t there in
        rw t (count_if_mono_lt (own == 1) _ _ (waiting-insert_lt k step keys later fresh))
  ]

  pub has-entered : (k : K) (keys : Map K ℕ) → is_entered (lookup k keys) ≡ true → has k keys ≡ true
  unfolding lookup has
  has-entered k [] h = absurd (cc)
  has-entered k ((j, step) ∷ keys) h = ground (arith, has-entered k keys)

  pub entered-insert :
      (k j : K) (keys : Map K ℕ)
      → is_entered (lookup j (insert k 1 keys))
        ≡ (if k == j then true else is_entered (lookup j keys))
  entered-insert k j keys = rw (lookup-insert k j 1 keys) (ground arith)

  pub entered-erase :
      (k j : K) (keys : Map K ℕ)
      → is_entered (lookup j (erase k keys))
        ≡ (if k == j then false else is_entered (lookup j keys))
  entered-erase k j keys = rw (lookup-erase k j keys) (ground arith)
