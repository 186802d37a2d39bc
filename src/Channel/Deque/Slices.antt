-- ===== src/Channel/Deque/Slices.antt =====
-- How `set`, `take` and `drop` meet: the list laws behind the ring buffer.
use kelemetry.Base.{
  ℕ, zero, suc, ◌+◌, ◌≤◌, ◌<◌, ◌%◌, ◌≡◌, refl, sym, ap, ◌∙◌, ◌⊎◌, inl, inr, List, [], ◌∷◌, ◌++◌,
  some, arith, length, set, get_elem?, take, drop, length-set, length-append,
}
use mathlib.Core.List.{append_assoc}
use native.Mathlib.Decide.{dec_lt}
use native.Mathlib.Nat.{mod-eq_of_lt, mod_self}
use native.Mathlib.Numerals.{add-one, unary_clauses}
use kelemetry.Channel.Deque.{write_all, slice}

module _ {ℓ} {A : Type ℓ} where
  pub take-set-suc :
      (xs : List A) (i : ℕ) (v : A)
      → i < length xs
      → take (suc i) (set xs i v) ≡ take i xs ++ v ∷ []
  take-set-suc [] i v h = absurd (omega arith)
  take-set-suc (x ∷ xs) zero v h = refl
  take-set-suc (x ∷ xs) (suc i) v h = ap (◌∷◌ x) (take-set-suc xs i v (omega arith))

  pub take-set_ge : (xs : List A) (k i : ℕ) (v : A) → k ≤ i → take k (set xs i v) ≡ take k xs
  take-set_ge xs zero i v h = refl
  take-set_ge [] (suc k) i v h = refl
  take-set_ge (x ∷ xs) (suc k) zero v h = absurd (omega arith)
  take-set_ge (x ∷ xs) (suc k) (suc i) v h = ap (◌∷◌ x) (take-set_ge xs k i v (omega arith))

  pub drop-set_lt : (xs : List A) (k i : ℕ) (v : A) → i < k → drop k (set xs i v) ≡ drop k xs
  drop-set_lt xs zero i v h = absurd (omega arith)
  drop-set_lt [] (suc k) i v h = refl
  drop-set_lt (x ∷ xs) (suc k) zero v h = refl
  drop-set_lt (x ∷ xs) (suc k) (suc i) v h = drop-set_lt xs k i v (omega arith)

  -- A write at the end of a slice extends it by one.
  pub slice-set-suc :
      (xs : List A) (lo i : ℕ) (v : A)
      → lo ≤ i
      → i < length xs
      → slice lo (suc i) (set xs i v) ≡ slice lo i xs ++ v ∷ []
  slice-set-suc xs zero i v h l = simp unary_clauses (take-set-suc xs i v l)
  slice-set-suc [] (suc lo) i v h l = absurd (omega arith)
  slice-set-suc (x ∷ xs) (suc lo) zero v h l = absurd (omega arith)
  slice-set-suc (x ∷ xs) (suc lo) (suc i) v h l =
      simp unary_clauses (slice-set-suc xs lo i v (omega arith) (omega arith))

  pub take-length : (xs : List A) (n : ℕ) → length xs ≤ n → take n xs ≡ xs
  take-length [] zero h = refl
  take-length [] (suc n) h = refl
  take-length (x ∷ xs) zero h = absurd (omega arith)
  take-length (x ∷ xs) (suc n) h = ap (◌∷◌ x) (take-length xs n (omega arith))

  pub drop-length : (xs : List A) (n : ℕ) → length xs ≤ n → drop n xs ≡ []
  drop-length [] zero h = refl
  drop-length [] (suc n) h = refl
  drop-length (x ∷ xs) zero h = absurd (omega arith)
  drop-length (x ∷ xs) (suc n) h = drop-length xs n (omega arith)

  pub take-append_exact : (xs ys : List A) (n : ℕ) → length xs ≡ n → take n (xs ++ ys) ≡ xs
  take-append_exact [] ys zero h = refl
  take-append_exact [] ys (suc n) h = absurd (omega arith)
  take-append_exact (x ∷ xs) ys zero h = absurd (omega arith)
  take-append_exact (x ∷ xs) ys (suc n) h = ap (◌∷◌ x) (take-append_exact xs ys n (omega arith))

  pub drop-suc :
      (xs : List A) (i : ℕ) (v : A) → get_elem? xs i ≡ some v → drop i xs ≡ v ∷ drop (suc i) xs
  drop-suc [] i v h = cc
  drop-suc (x ∷ xs) zero v h = ground arith
  drop-suc (x ∷ xs) (suc i) v h = drop-suc xs i v h

  pub length-write_all :
      (xs : List A) (dst : List A) (i : ℕ) → length (write_all dst i xs) ≡ length dst
  unfolding write_all
  length-write_all [] dst i = refl
  length-write_all (x ∷ xs) dst i = length-write_all xs (set dst i x) (i + 1) ∙ length-set dst i x

  -- The loop writes its values in place of as many slots.
  pub write_all_lem :
      (xs : List A) (dst : List A) (i : ℕ)
      → i + length xs ≤ length dst
      → write_all dst i xs ≡ take i dst ++ (xs ++ drop (i + length xs) dst)
  unfolding write_all
  write_all_lem [] dst i h = let e : i + 0 ≡ i = omega arith in rw e (sym (take-append-drop i dst))
    where
      take-append-drop : (n : ℕ) (ys : List A) → take n ys ++ drop n ys ≡ ys
      take-append-drop zero ys = refl
      take-append-drop (suc n) [] = refl
      take-append-drop (suc n) (y ∷ ys) = rw (take-append-drop n ys)
  write_all_lem (x ∷ xs) dst i h =
      write_all_lem xs (set dst i x) (i + 1) (omega (arith, length-set dst i x)) ∙ shift
    where
      e : i + 1 ≡ suc i
      e = omega arith

      e' : i + suc (length xs) ≡ suc (i + length xs)
      e' = omega arith

      e'' : suc i + length xs ≡ suc (i + length xs)
      e'' = omega arith

      shift :
          take (i + 1) (set dst i x) ++ (xs ++ drop (i + 1 + length xs) (set dst i x))
          ≡ take i dst ++ (x ∷ xs ++ drop (i + suc (length xs)) dst)
      shift =
          rw (e, e', e'')
            (rw
              (
                take-set-suc dst i x (omega arith),
                drop-set_lt dst (suc (i + length xs)) i x (omega arith),
              )
              (append_assoc (take i dst) (x ∷ []) _))

-- Two runs of the loop, one behind the other, on a fresh slice.
pub take-write_all_twice {ℓ} :
    {A : Type ℓ} (fresh xs ys : List A) (n : ℕ)
    → length xs + length ys ≤ length fresh
    → length xs + length ys ≡ n
    → take n (write_all (write_all fresh 0 xs) (length xs) ys) ≡ xs ++ ys
take-write_all_twice {A} fresh xs ys n h e =
    ap (take n)
      (write_all_lem ys (write_all fresh 0 xs) (length xs) room ∙ ap (λ l. l ++ rest) front)
    ∙ ap (take n) (sym (append_assoc xs ys behind))
    ∙ take-append_exact (xs ++ ys) behind n (length-append xs ys ∙ e)
  where
    room : length xs + length ys ≤ length (write_all fresh 0 xs)
    room = omega (arith, length-write_all xs fresh 0)

    behind : List A
    behind = drop (length xs + length ys) (write_all fresh 0 xs)

    rest : List A
    rest = ys ++ behind

    front : take (length xs) (write_all fresh 0 xs) ≡ xs
    front =
        ap (take (length xs)) (write_all_lem xs fresh 0 (omega arith))
        ∙ take-append_exact xs _ (length xs) refl

-- The next index of the ring: one up, or back to 0 at the end of the slice.
pub next_index :
    (i n : ℕ) → i < n → (((i + 1) % n ≡ suc i) × (suc i < n)) ⊎ (((i + 1) % n ≡ 0) × (suc i ≡ n))
next_index i n h = elim (dec_lt (suc i) n) [
  | yes inside ↦ inl (rw add-one (mod-eq_of_lt inside), inside)
  | no outside ↦ let e : suc i ≡ n = omega arith in inr (rw (add-one, e) (mod_self n), e)
]
