-- ===== src/Examples/Flight.antt =====
-- The shared cache and the in-flight registry on a key or two.
use picante.Base.{
  ℕ, ◌+◌, ◌≤◌, ◌≡◌, ◌⊎◌, refl, true, false, [], arith, none, some, if◌then◌else◌, length,
}
use picante.Base.Table
use picante.Key.{dyn_key_eq}
use picante.Runtime.{RuntimeId}
use picante.Inflight.SharedCache.{
  SharedCache, SharedCacheRecord, SharedCacheKey, shared_cache_put, shared_cache_get,
  shared_cache_set_max_entries, shared_key_eq, shared_key_beq, shared_cache_max_entries,
}
use picante.Inflight.SharedCache as Cache
use picante.Inflight.Limit.{IsCache, put-IsCache, shared_cache_get-put, put_over_limit}
use picante.Inflight.Registry.{
  InFlightKey, running, InFlightGuard, inflight_key_eq, inflight_key_beq, empty, state, set_state,
  unregister, entry_complete, try_lead,
}
use picante.Inflight.SingleFlight.{
  Flights, Step, leads, completes, removes, update, written, is_finished,
}
use picante.Inflight.Interleaving.{Reach, start, next, one_leader, follower-has_leader}
use picante.Examples.Data.{key_of, kind_a, rev_of}

abbrev scope : RuntimeId
scope = record { num = 1 }

abbrev record_7 : SharedCacheRecord ℕ
record_7 = record {
  value = 7;
  deps = [];
  changed_at = rev_of 1;
  verified_at = rev_of 1;
  insert_id = 0;
}

empty-IsCache : IsCache (Cache.empty {V = ℕ})
unfolding Cache.empty Table.get
empty-IsCache = record { is_listed = λ k r p. cc; are_below = λ k r p. cc }

shared_cache_get-put_example :
    (shared_cache_get scope kind_a
        (key_of 2)
        (shared_cache_put none scope kind_a (key_of 1) record_7 Cache.empty)
      ≡ (if shared_key_beq
            (record { runtime_id = scope; kind = kind_a; key = key_of 1 })
            (record { runtime_id = scope; kind = kind_a; key = key_of 2 })
          then some (record record_7 { insert_id = 1 })
          else shared_cache_get scope kind_a (key_of 2) Cache.empty))
    ⊎ ((shared_key_beq
            (record { runtime_id = scope; kind = kind_a; key = key_of 1 })
            (record { runtime_id = scope; kind = kind_a; key = key_of 2 })
          ≡ false)
        × (shared_cache_get scope kind_a
              (key_of 2)
              (shared_cache_put none scope kind_a (key_of 1) record_7 Cache.empty)
            ≡ none))
unfolding Cache.empty
shared_cache_get-put_example =
    shared_cache_get-put none scope kind_a (key_of 1) record_7 Cache.empty scope kind_a (key_of 2)

put-IsCache_example :
    IsCache (shared_cache_put none scope kind_a (key_of 1) record_7 Cache.empty)
    × (length (shared_cache_put none scope kind_a (key_of 1) record_7 Cache.empty).entries
        ≤ shared_cache_max_entries {V = ℕ} none Cache.empty + 1)
unfolding Cache.empty
put-IsCache_example =
    put-IsCache none scope kind_a (key_of 1) record_7 Cache.empty empty-IsCache (omega arith)

-- A cache of one record, whose limit is one record.
abbrev full_cache : SharedCache ℕ
full_cache =
    shared_cache_put none scope kind_a (key_of 1) record_7
      (shared_cache_set_max_entries 1 Cache.empty)

put_over_limit_example :
    length (shared_cache_put none scope kind_a (key_of 2) record_7 full_cache).entries
    ≡ shared_cache_max_entries none full_cache + 1
unfolding Cache.empty shared_cache_put shared_cache_set_max_entries shared_cache_get
    shared_cache_max_entries Cache.evict Table.get Table.insert
put_over_limit_example = put_over_limit none scope kind_a (key_of 2) record_7 full_cache refl refl

abbrev flight : InFlightKey
flight = record { runtime_id = scope; revision = rev_of 1; kind = kind_a; key = key_of 1 }

abbrev guard_at : ℕ → InFlightGuard
guard_at n = record { key = flight; entry = n; completed = false }

-- Nobody computes; the first query leads; it writes its result; it removes its entry; the second one
-- leads.
abbrev idle : Flights ℕ
idle = record { registry = empty; holders = λ _. none; has_written = λ _. false }

abbrev led : Flights ℕ
led = record {
  registry = (try_lead flight idle.registry).1;
  holders = update idle.holders 0 (some (guard_at 0));
  has_written = update idle.has_written 0 false;
}

abbrev completed_guard : InFlightGuard
completed_guard = record { key = flight; entry = 0; completed = true }

abbrev completed : Flights ℕ
completed = written 0 completed_guard (entry_complete 7 [] (rev_of 1) 0 led.registry) led

abbrev removed : Flights ℕ
removed = record {
  registry = unregister flight completed.registry;
  holders = update completed.holders 0 none;
  has_written = update completed.has_written 0 false;
}

abbrev led_again : Flights ℕ
led_again = record {
  registry = (try_lead flight removed.registry).1;
  holders = update removed.holders 1 (some (guard_at 1));
  has_written = update removed.has_written 1 false;
}

led-Reach : Reach led
unfolding try_lead empty Table.get
led-Reach = next idle led (start idle refl) (leads 0 flight (guard_at 0) refl refl refl)

completed-Reach : Reach completed
completed-Reach =
    next led completed led-Reach (completes 0 (guard_at 0) 7 [] (rev_of 1) refl refl refl)

removed-Reach : Reach removed
removed-Reach = next completed removed completed-Reach (removes 0 completed_guard refl refl refl)

again-Step : Step removed led_again
unfolding try_lead empty Table.get Table.insert Table.remove unregister set_state
again-Step = leads 1 flight (guard_at 1) refl refl refl

abbrev first : ℕ
first = 0

one_leader_example : first ≡ first
one_leader_example =
    one_leader completed first first completed_guard completed_guard completed-Reach refl refl refl

-- A second query comes after the leader wrote its result, and before it removes the entry.
follower-has_leader_example :
    (t : ℕ) × (g : InFlightGuard) × (completed.holders t ≡ some g)
    × (g.entry ≡ 0)
    × (inflight_key_beq g.key flight ≡ true)
    × (((completed.has_written t ≡ false) × (state 0 completed.registry ≡ some running))
        ⊎ ((completed.has_written t ≡ true) × (is_finished (state 0 completed.registry) ≡ true)))
unfolding try_lead empty Table.get Table.insert set_state
follower-has_leader_example = follower-has_leader completed flight 0 completed-Reach refl
