-- ===== src/Steps/AuditDiff/Nearest.antt =====
-- `Get` of pkg/frontend/tf/defaults/step/collapse_nesting.go finds the class of the nearest field.
use Prim.Native.Char.{Char, code}
use Prim.Native.String.{String}
use kelemetry.Base.{
  ℕ, zero, suc, ◌<◌, ◌≡◌, refl, subst, ◌∙◌, inl, inr, true, false, Option, none, some, arith,
  if◌then◌else◌, ◌==◌, nat_eq, string_eq, Bool-cases, Option-cases,
}
use kelemetry.Base.Map.{lookup}
use kelemetry.Steps.AuditDiff.{
  AuditDiffClass, AuditDiffClassification, text_length, cut_before_dot, before_last_dot, get_class,
}

-- The class of a field, of the nearest field around it that has one, or the default one.
pub data Nearest (classes : AuditDiffClassification) : String → AuditDiffClass → Type 0 where
  own :
      (prefix : String) (class : AuditDiffClass)
      → lookup prefix classes.field_map ≡ some class
      → Nearest classes prefix class
  around :
      (prefix p : String) (class : AuditDiffClass)
      → lookup prefix classes.field_map ≡ none
      → before_last_dot prefix ≡ some p
      → (text_length p == 0) ≡ false
      → Nearest classes p class
      → Nearest classes prefix class
  outermost :
      (prefix : String)
      → lookup prefix classes.field_map ≡ none
      → ((p : String) → before_last_dot prefix ≡ some p → (text_length p == 0) ≡ true)
      → Nearest classes prefix classes.default_class

cut_before_dot_shorter :
    (c : Char) (o : Option String) (p : String) (n : ℕ)
    → ((q : String) → o ≡ some q → text_length q < n)
    → cut_before_dot c o ≡ some p
    → text_length p < suc n
cut_before_dot_shorter c none p n shorter h = elim (Bool-cases (code c == 46)) [
  | inl t ↦
      let is : some String.[] ≡ some p =
        subst (λ b. (if b then some String.[] else none) ≡ some p) t h in
      let same : String.[] ≡ p = cc in subst (λ q. text_length q < suc n) same (omega arith)
  | inr t ↦
      let is : none ≡ some p = subst (λ b. (if b then some String.[] else none) ≡ some p) t h in
      absurd (cc)
]
cut_before_dot_shorter c (some q) p n shorter h =
    let same : String.◌∷◌ c q ≡ p = cc in
    subst (λ r. text_length r < suc n) same (omega (arith, shorter q refl))

before_last_dot_shorter :
    (prefix p : String) → before_last_dot prefix ≡ some p → text_length p < text_length prefix
unfolding before_last_dot
before_last_dot_shorter String.[] p h = absurd (cc)
before_last_dot_shorter (String.◌∷◌ c s) p h =
    cut_before_dot_shorter c (before_last_dot s) p (text_length s) (before_last_dot_shorter s) h

get_class-found :
    (fuel : ℕ) (classes : AuditDiffClassification) (prefix : String) (class : AuditDiffClass)
    → (text_length prefix == 0) ≡ false
    → lookup prefix classes.field_map ≡ some class
    → get_class (suc fuel) classes prefix ≡ some class
unfolding get_class
get_class-found fuel classes prefix class some_text found =
    rw some_text (rw (found, get_class) refl)

get_class-shorter :
    (fuel : ℕ) (classes : AuditDiffClassification) (prefix p : String)
    → (text_length prefix == 0) ≡ false
    → lookup prefix classes.field_map ≡ none
    → before_last_dot prefix ≡ some p
    → get_class (suc fuel) classes prefix ≡ get_class fuel classes p
unfolding get_class
get_class-shorter fuel classes prefix p some_text missing cut =
    rw some_text (rw (missing, get_class) (rw (cut, get_class) refl))

get_class-no_dot :
    (fuel : ℕ) (classes : AuditDiffClassification) (prefix : String)
    → (text_length prefix == 0) ≡ false
    → lookup prefix classes.field_map ≡ none
    → before_last_dot prefix ≡ none
    → get_class (suc fuel) classes prefix ≡ some classes.default_class
unfolding get_class
get_class-no_dot fuel classes prefix some_text missing cut =
    rw some_text (rw (missing, get_class) (rw (cut, get_class) refl))

get_class_empty :
    (fuel : ℕ) (classes : AuditDiffClassification) (prefix : String)
    → text_length prefix < fuel
    → (text_length prefix == 0) ≡ true
    → get_class fuel classes prefix ≡ some classes.default_class
unfolding get_class
get_class_empty zero classes prefix enough empty = absurd (omega (arith, enough))
get_class_empty (suc fuel) classes prefix enough empty = rw empty refl

-- Asked for a field that is not empty, with fuel for its length, `Get` answers the class of the field
-- or, without one, that of the nearest field around it that has one, or else the default class.
pub get_class-Nearest :
    (fuel : ℕ) (classes : AuditDiffClassification) (prefix : String)
    → text_length prefix < fuel
    → (text_length prefix == 0) ≡ false
    → (class : AuditDiffClass) × (get_class fuel classes prefix ≡ some class)
      × Nearest classes prefix class
get_class-Nearest zero classes prefix enough some_text = absurd (omega (arith, enough))
get_class-Nearest (suc fuel) classes prefix enough some_text =
    elim (Option-cases (lookup prefix classes.field_map)) [
      | inr (class, found) ↦
          (class, get_class-found fuel classes prefix class some_text found, own prefix class found)
      | inl missing ↦ elim (Option-cases (before_last_dot prefix)) [
        | inl no_dot ↦ (
          classes.default_class,
          get_class-no_dot fuel classes prefix some_text missing no_dot,
          outermost prefix missing (λ p h. absurd (cc)),
        )
        | inr (p, cut) ↦
            let less = before_last_dot_shorter prefix p cut in
            let step = get_class-shorter fuel classes prefix p some_text missing cut in
            elim (Bool-cases (text_length p == 0)) [
              | inl t ↦ (
                classes.default_class,
                step ∙ get_class_empty fuel classes p (omega (arith, less, enough)) t,
                outermost prefix missing (λ q h.
                    let same : p ≡ q = cc in subst (λ r. (text_length r == 0) ≡ true) same t),
              )
              | inr t ↦
                  let (class, ran, near) =
                    get_class-Nearest fuel classes p (omega (arith, less, enough)) t in
                  (class, step ∙ ran, around prefix p class missing cut t near)
            ]
      ]
    ]
