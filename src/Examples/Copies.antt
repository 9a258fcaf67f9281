-- ===== src/Examples/Copies.antt =====
-- Snapshots, and a record that goes back from a database into a later one.
use picante.Base.{ℕ, ◌≡◌, refl, true, false, List, [], ◌∷◌, map, arith, ◌==◌}
use picante.Base.Results.{ok}
use picante.Base.Table
use picante.Key.{Dep, dyn_key_eq, from_bytes}
use picante.Encoding.{encode_facet}
use picante.Runtime.{cache_scope_id}
use picante.Runtime as Rt
use picante.Input.Reads.{sets}
use picante.Input.Snapshot.{snapshot, new_from_snapshot, new_from_snapshot-snapshot}
use picante.Derived.World.{World, ErasedState, ready, returned}
use picante.Derived.Cell.{set_cell}
use picante.Derived.Access.{access_scoped}
use picante.Derived.Persist.{ReadyRecord, ready_record}
use picante.Derived.Replay.{replay}
use picante.Derived.Revalidation.{all_unchanged}
use picante.Derived.Memo.{IsMemo}
use picante.Derived.Sound.{IsSound}
use picante.Derived.Consistency.{outcome_of}
use picante.Derived.Session.{change, change-IsSound}
use picante.Derived.Inputs.{InputDecl, AreInputs, of_kind}
use picante.Derived.Snapshot.{from_database, ask_all, from_database-asks}
use picante.Derived.Promotion.{
  set_cell-IsSound, change-Later, record_is_valid_on, insert_ready_record, insert_ready_record_lem,
}
use picante.Examples.Data.{
  small_hasher, byte_codec, byte_codec-RoundTrips, kind_a, kind_b, a_key, b_key, a_dep, rev_of,
}
use picante.Examples.Saves.{full, full-IsStored}
use picante.Examples.Sessions.{
  following, following-IsByKey, second-IsInputOnly, fresh_world, fresh_world-IsSound, fresh_scope,
  by_bytes,
}

new_from_snapshot_example :
    new_from_snapshot byte_codec full.kind full.kind_name (snapshot byte_codec full) ≡ full
new_from_snapshot_example =
    new_from_snapshot-snapshot byte_codec full byte_codec-RoundTrips full-IsStored

abbrev read_deps : List Dep
read_deps = record { kind = kind_a; key = record { bytes = 1 ∷ []; hash = 0 } } ∷ a_dep 5 ∷ []

-- The query with key 1 reads the inputs 1 and 5.
abbrev remembered : ReadyRecord ℕ
remembered = record { value = 5; verified_at = rev_of 0; changed_at = rev_of 0; deps = read_deps }

abbrev cell : ErasedState ℕ
cell = ready 5 (rev_of 0) (rev_of 0) read_deps

abbrev remembering : World ℕ
remembering = set_cell (b_key 1) cell fresh_world

cell-IsMemo :
    IsMemo following fresh_world.inputs 0 (by_bytes (1 ∷ [])) 5 (rev_of 0) (rev_of 0) read_deps
unfolding Table.get replay
cell-IsMemo = record {
  verified = omega arith;
  changed = omega arith;
  leaves = (refl, (refl, tt));
  fresh = λ e. refl;
  kept = λ e. refl;
}

remembering-IsSound : IsSound following fresh_scope remembering
unfolding Rt.new
remembering-IsSound =
    set_cell-IsSound following fresh_scope (b_key 1) cell fresh_world following-IsByKey
      fresh_world-IsSound cell-IsMemo

-- The input is an encoding of the one declared ingredient.
abbrev the_inputs : List InputDecl
the_inputs = record { Key = ℕ; codec = byte_codec; kind = kind_a; kind_name = "a" } ∷ []

remembering-AreInputs : AreInputs the_inputs remembering.inputs
unfolding set_cell Table.get of_kind encode_facet from_bytes
remembering-AreInputs = record {
  distinct = (refl, tt);
  codecs = (byte_codec-RoundTrips, tt);
  encoded = (((1, refl, refl), tt), tt);
  declared = λ k e p. ground (arith, p);
}

from_database_example :
    (ask_all following 3
      (b_key 1 ∷ b_key 4 ∷ b_key 1 ∷ [])
      (from_database the_inputs remembering)).0
    ≡ map
        (λ k. outcome_of (replay fresh_world.inputs (following.compute k)).0)
        (b_key 1 ∷ b_key 4 ∷ b_key 1 ∷ [])
unfolding set_cell Table.get Table.insert Rt.new cache_scope_id
from_database_example =
    from_database-asks following following-IsByKey (λ k. (refl, second-IsInputOnly k.key.bytes))
      the_inputs fresh_scope.id false 3 (b_key 1 ∷ b_key 4 ∷ b_key 1 ∷ []) remembering
      remembering-IsSound refl (refl, tt) remembering-AreInputs refl

abbrev later_world : World ℕ
later_world = (change (λ a b. a == b) (sets (a_key 3) 9) fresh_world 2).0

later_world-IsSound : IsSound following fresh_scope later_world
unfolding Rt.new
later_world-IsSound =
    change-IsSound following fresh_scope (λ a b. a == b) (sets (a_key 3) 9) fresh_world 2 refl
      fresh_world-IsSound (omega arith)

insert_ready_record_example :
    (record_is_valid_on following (access_scoped following 4) remembered later_world ≡ (
      returned (all_unchanged following later_world.inputs (rev_of 0) remembered.deps),
      later_world,
    ))
    × (all_unchanged following later_world.inputs (rev_of 0) remembered.deps ≡ true
        → replay later_world.inputs (by_bytes (1 ∷ [])) ≡ (ok 5, remembered.deps))
    × ((insert_ready_record byte_codec kind_b 1 remembered later_world).0 ≡ ok tt)
    × IsSound following fresh_scope
        (insert_ready_record byte_codec kind_b 1 remembered later_world).1
unfolding encode_facet from_bytes ready_record set_cell Table.get Table.insert Rt.new
insert_ready_record_example =
    insert_ready_record_lem following byte_codec kind_b (access_scoped following 4)
      following-IsByKey fresh_scope fresh_scope remembering later_world 1 (b_key 1) cell remembered
      remembering-IsSound refl refl
      (change-Later following (λ a b. a == b) (sets (a_key 3) 9) fresh_world 2 (omega arith))
      later_world-IsSound refl
