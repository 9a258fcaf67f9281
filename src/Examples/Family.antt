-- ===== src/Examples/Family.antt =====
-- A live database and a snapshot of it that was taken before an input changed.
use picante.Base.{ℕ, ◌≡◌, refl, true, false, [], ◌∷◌, some, none, ◌==◌, if◌then◌else◌}
use picante.Base.Results.{err}
use picante.Key.{Key, Revision, dyn_key_eq}
use picante.Error.{PicanteResult, missing_interned_value}
use picante.Frame.{find_cycle}
use picante.Derived.Compute.{Config, interned}
use picante.Derived.Stuck.{access_scoped-stuck}
use picante.Base.Table
use picante.Runtime.{cache_scope_id}
use picante.Runtime as Rt
use picante.Inflight.SharedCache as Cache
use picante.Inflight.SharedCache.{SharedCache, SharedCacheRecord}
use picante.Derived.World.{World, returned, failed, blocked}
use picante.Derived.Access.{access_scoped}
use picante.Derived.Adoption.{access_scoped-adopts}
use picante.Derived.Consistency.{at}
use picante.Examples.Data.{a_key, b_key, a_dep, kind_b, key_of, rev_of}
use picante.Examples.Queries.{adding, empty_world, registry}

-- What the live database put at revision 2, with 9 in the input.
abbrev shared_ten : SharedCacheRecord ℕ
shared_ten = record {
  value = 10;
  deps = a_dep 1 ∷ [];
  changed_at = rev_of 2;
  verified_at = rev_of 2;
  insert_id = 1;
}

-- The snapshot stays at revision 1, with 5 in the input.
abbrev snapshot_world : World ℕ
snapshot_world = record empty_world {
  runtime = record (Rt.new_for_snapshot (record { num = 1 })) { current = 1 };
  inputs = (a_key 1, record { value = some 5; changed_at = rev_of 1 }) ∷ [];
  shared =
      Cache.shared_cache_put none (record { num = 1 }) kind_b (key_of 1) shared_ten Cache.empty;
}

access_scoped-adopts_example :
    (access_scoped adding 5 (b_key 1) true (at snapshot_world)).0
    ≡ returned (record { value = some 10; changed_at = rev_of 2 })
unfolding Table.get Cache.shared_cache_get Cache.shared_cache_put Cache.evict
    Cache.shared_cache_max_entries Cache.empty Table.insert cache_scope_id Rt.new_for_snapshot
access_scoped-adopts_example =
    access_scoped-adopts adding (b_key 1) true shared_ten 3 snapshot_world refl refl refl (refl, tt)
      refl

-- Interned values are of kind 3, and none of them is known.
abbrev refuse : Key → PicanteResult Revision
refuse k = err (missing_interned_value (record { id = 3 }) 7)

abbrev refusing : Config ℕ
refusing = record adding {
  ingredient = λ k. if k.id == 3 then some (interned refuse) else registry k;
}

abbrev refused_record : SharedCacheRecord ℕ
refused_record = record shared_ten {
  deps = a_dep 1 ∷ record { kind = record { id = 3 }; key = key_of 7 } ∷ [];
}

abbrev refused_world : World ℕ
refused_world = record snapshot_world {
  shared =
      Cache.shared_cache_put none (record { num = 1 }) kind_b (key_of 1) refused_record Cache.empty;
}

abbrev after_refusal : World ℕ
after_refusal = (access_scoped refusing 5 (b_key 1) true (at refused_world)).1

access_scoped-stuck_example :
    ((access_scoped refusing 5 (b_key 1) true (at refused_world)).0
      ≡ failed (missing_interned_value (record { id = 3 }) 7))
    × ((access_scoped refusing 9 (b_key 1) false (record after_refusal { stack = some [] })).0
        ≡ blocked)
unfolding find_cycle Table.get Cache.shared_cache_get Cache.shared_cache_put Cache.evict
    Cache.shared_cache_max_entries Cache.empty Table.insert cache_scope_id Rt.new_for_snapshot
access_scoped-stuck_example =
    access_scoped-stuck refusing (b_key 1) true (record refused_record { insert_id = 1 })
      (a_dep 1 ∷ []) (record { kind = record { id = 3 }; key = key_of 7 }) [] refuse
      (missing_interned_value (record { id = 3 }) 7) 3 7 false refused_world
      (record after_refusal { stack = some [] }) refl refl refl refl (refl, tt) refl refl refl refl
      refl
