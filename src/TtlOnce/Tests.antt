-- ===== src/TtlOnce/Tests.antt =====
-- Runs of the cache of pkg/util/cache/ttl.go on small inputs.
use kelemetry.Base.{ℕ, ◌^◌, ◌≡◌, refl, [], ◌∷◌, none, some, arith, String, if◌then◌else◌, string_eq}
use kelemetry.Base.Map.{lookup, insert, has}
use kelemetry.Channel.Deque.{advance, expand_if_full, note_length, get_all, push_back, new_deque}
use kelemetry.TtlOnce.{CleanupEntry, zero_entry, TtlOnce, new_ttl_once, add, get, do_cleanup}
use kelemetry.TtlOnce.Entries.{entries, mem_key, Inv, new_ttl_once-Inv}
use kelemetry.TtlOnce.Cleanup.{expired_part, kept_part, do_cleanup_lem}
use kelemetry.TtlOnce.Loop.{for_wakeup, Runner, Step, Reach, here, next, idle_loop_never_cleans}

abbrev entry_a : CleanupEntry
entry_a = record { key = "a"; expiry = 5 }

abbrev entry_b : CleanupEntry
entry_b = record { key = "b"; expiry = 50 }

abbrev two_values : TtlOnce ℕ
two_values = record {
  ttl = 60;
  cleanup_queue = record {
    slots = entry_a ∷ entry_b ∷ zero_entry ∷ [];
    start = 0;
    end = 2;
    max_length = 2;
  };
  values = ("a", 1) ∷ ("b", 2) ∷ [];
}

two_values-Inv : Inv two_values
unfolding has mem_key get_all
two_values-Inv = record {
  valid = record { start_in = omega arith; end_in = omega arith };
  distinct = (refl, (refl, tt));
  covers = λ k. ground arith;
}

-- The first entry has expired, and the second has not.
do_cleanup_lem_example :
    (c' : TtlOnce ℕ) × (do_cleanup (λ _. 10) two_values ≡ some c')
    × Inv c'
    × (entries c' ≡ kept_part (λ _. 10) 0 (entries two_values))
    × ((k : String)
        → get c' k ≡ (
            if mem_key k (expired_part (λ _. 10) 0 (entries two_values))
            then none
            else get two_values k))
do_cleanup_lem_example = do_cleanup_lem (λ _. 10) two_values two_values-Inv

abbrev empty_cache : TtlOnce ℕ
empty_cache = new_ttl_once 60

abbrev idle_runner : Runner ℕ
idle_runner = record { cache = empty_cache; now = 0; wait = for_wakeup }

abbrev one_value : TtlOnce ℕ
one_value = record {
  ttl = 60;
  cleanup_queue = (record {
    slots =
        record { key = "a"; expiry = 60 }
        ∷ zero_entry
        ∷ zero_entry
        ∷ zero_entry
        ∷ zero_entry
        ∷ zero_entry
        ∷ zero_entry
        ∷ zero_entry
        ∷ zero_entry
        ∷ zero_entry
        ∷ zero_entry
        ∷ zero_entry
        ∷ zero_entry
        ∷ zero_entry
        ∷ zero_entry
        ∷ zero_entry
        ∷ [];
    start = 0;
    end = 1;
    max_length = 1;
  });
  values = ("a", 1) ∷ [];
}

abbrev holding_runner : Runner ℕ
holding_runner = record { cache = one_value; now = 0; wait = for_wakeup }

abbrev late_runner : Runner ℕ
late_runner = record { cache = one_value; now = 10 ^ 15; wait = for_wakeup }

holding_runner-Reach : Reach idle_runner holding_runner
unfolding new_ttl_once add push_back new_deque insert has note_length expand_if_full advance
holding_runner-Reach = next here (Step.insertion "a" 1 one_value refl)

late_runner-Reach : Reach holding_runner late_runner
late_runner-Reach = next here (Step.pass (10 ^ 15))

held : get one_value "a" ≡ some 1
unfolding get lookup
held = refl

idle_loop_never_cleans_example : get one_value "a" ≡ some 1
idle_loop_never_cleans_example =
    idle_loop_never_cleans idle_runner holding_runner late_runner (new_ttl_once-Inv 60) refl
      holding_runner-Reach late_runner-Reach "a" 1 held
