-- ===== src/Manager/Tests.antt =====
-- The components of a process that writes audit logs: a server, a mux with two caches, and a clock.
use kelemetry.Base.{
  ℕ, ◌≡◌, refl, subst, inl, inr, Bool-cases, Bool, true, false, if◌then◌else◌, ◌==◌, List, [], ◌∷◌,
  Option, none, some, String, arith, nat_eq, string_eq,
}
use kelemetry.Base.Map.{Map, IsMap, lookup, insert, erase, has}
use kelemetry.SpanTree.{IdSet, struct}
use kelemetry.Manager.{ComponentInfo, inserted, cycle, order_components}
use kelemetry.Manager.Ordered.{InOrder}
use kelemetry.Manager.Ordering.{Orders, order_components-Orders}
use kelemetry.Manager.Lifecycle.{start_all, close_all, start_all-InOrder, Ends}
use kelemetry.Manager.Trim.{
  should_disable, Trimmable, Trimming, or_zero, MuxImplBase, trim_loop, trim_disabled,
}
use kelemetry.Manager.Trim.Fair.{count_on, wanted, Counted, count_on_le_length, AllOnce-lookup}
use kelemetry.Manager.Trim.Settles.{trim_loop-Settled}

abbrev set_of : List String → IdSet String
set_of [] = []
set_of (name ∷ names) = (name, struct) ∷ set_of names

abbrev needs : String → List String → String × ComponentInfo String
needs name deps = (name, record { name = name; dependencies = set_of deps })

abbrev components : Map String (ComponentInfo String)
components =
    needs "server" ("cache" ∷ "clock" ∷ []) ∷ needs "cache" ("clock" ∷ []) ∷ needs "clock" [] ∷ []

order_components-Orders_example : Orders components (order_components components)
order_components-Orders_example = order_components-Orders components

in_order : order_components components ≡ inserted ("clock" ∷ "cache" ∷ "server" ∷ []) []
unfolding order_components lookup insert erase
in_order = refl

cyclic :
    order_components (needs "a" ("b" ∷ []) ∷ needs "b" ("a" ∷ []) ∷ [])
    ≡ cycle ("a" ∷ "b" ∷ "a" ∷ [])
unfolding order_components lookup insert
cyclic = refl

-- Each component notes its name.
abbrev start : String → List String → List String × Option ℕ
start name log = (name ∷ log, if name == "cache" then some 5 else none)

components-InOrder : InOrder components [] ("clock" ∷ "cache" ∷ "server" ∷ [])
unfolding has lookup
components-InOrder = (refl, λ d h k. absurd (cc), (refl, λ d h k. h, (refl, λ d h k. h, tt)))

start_all-InOrder_example :
    InOrder components [] (start_all start ("clock" ∷ "cache" ∷ "server" ∷ []) []).1
    × Ends start
        ("clock" ∷ "cache" ∷ "server" ∷ [])
        []
        (start_all start ("clock" ∷ "cache" ∷ "server" ∷ []) [])
start_all-InOrder_example =
    start_all-InOrder components start ("clock" ∷ "cache" ∷ "server" ∷ []) [] components-InOrder

only_the_clock :
    start_all start ("clock" ∷ "cache" ∷ "server" ∷ []) []
    ≡ ("cache" ∷ "clock" ∷ [], "clock" ∷ [], some 5)
unfolding start_all
only_the_clock = refl

closed_backwards :
    close_all {Ty = String} (λ name log. name ∷ log) ("clock" ∷ "cache" ∷ []) []
    ≡ "clock" ∷ "cache" ∷ []
unfolding close_all
closed_backwards = refl

abbrev part : IdSet String → Option Bool → Option (MuxImplBase String) → Trimmable String
part deps flag mux = record {
  dependencies = deps;
  enable_flag = flag;
  is_list_impl = false;
  mux_impl = mux;
}

abbrev memory : MuxImplBase String
memory = record { parent = "cache"; parent_enable_flag = none; is_chosen_mux_impl = true }

-- The server is off, so that nobody needs the cache, nor its implementation.
abbrev trimming : Trimming String
trimming = record {
  components =
      ("memory", part [] none (some memory))
      ∷ ("cache", part (set_of ("memory" ∷ [])) none none)
      ∷ ("server", part (set_of ("cache" ∷ [])) (some false) none)
      ∷ ("clock", part [] (some true) none)
      ∷ [];
  dependents = ("memory", 1) ∷ ("cache", 1) ∷ ("server", 0) ∷ ("clock", 0) ∷ [];
  disabled = [];
}

trimming-IsMap : IsMap trimming.components
unfolding has
trimming-IsMap = (refl, (refl, (refl, (refl, tt))))

trimming_counts :
    (ty : String) → or_zero (lookup ty trimming.dependents) ≡ count_on ty trimming.components
unfolding lookup count_on has
trimming_counts ty =
    let counts_of =
      λ (j : String). or_zero (lookup j trimming.dependents) ≡ count_on j trimming.components in
    elim (Bool-cases ("memory" == ty)) [
      | inl u ↦ subst counts_of ((string_eq.beq_iff "memory" ty).0 u) refl
      | inr no_memory ↦ elim (Bool-cases ("cache" == ty)) [
        | inl u ↦ subst counts_of ((string_eq.beq_iff "cache" ty).0 u) refl
        | inr no_cache ↦ elim (Bool-cases ("server" == ty)) [
          | inl u ↦ subst counts_of ((string_eq.beq_iff "server" ty).0 u) refl
          | inr no_server ↦ elim (Bool-cases ("clock" == ty)) [
            | inl u ↦ subst counts_of ((string_eq.beq_iff "clock" ty).0 u) refl
            | inr no_clock ↦ rw (no_memory, no_cache, no_server, no_clock) refl
          ]
        ]
      ]
    ]

trimming-Counted : Counted trimming
unfolding has
trimming-Counted = record {
  distinct = trimming-IsMap;
  counts = trimming_counts;
  once = λ ty comp at.
      AllOnce-lookup trimming.components ty comp (tt, ((refl, tt), ((refl, tt), (tt, tt)))) at;
  few = λ ty. omega (arith, count_on_le_length ty trimming.components);
}

trim_loop-Settled_example :
    (t' : Trimming String) × (trim_loop 5 trimming ≡ some t')
    × ((ty : String) (comp : Trimmable String)
        → lookup ty trimming.components ≡ some comp
        → lookup ty t'.components ≡ (if wanted t'.components ty comp then some comp else none))
    × ((ty : String) (comp : Trimmable String)
        → lookup ty t'.components ≡ some comp
        → lookup ty trimming.components ≡ some comp)
trim_loop-Settled_example = trim_loop-Settled 5 trimming (omega arith) trimming-Counted

the_clock_is_left :
    trim_disabled (λ ty. []) trimming
    ≡ some (record {
      components = ("clock", part [] (some true) none) ∷ [];
      dependents = ("memory", 0) ∷ ("cache", 0) ∷ ("server", 0) ∷ ("clock", 0) ∷ [];
      disabled =
          ("server", part (set_of ("cache" ∷ [])) (some false) none)
          ∷ ("memory", part [] none (some memory))
          ∷ ("cache", part (set_of ("memory" ∷ [])) none none)
          ∷ [];
    })
unfolding trim_disabled should_disable erase lookup has insert
the_clock_is_left = refl
