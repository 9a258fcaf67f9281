-- ===== src/Derived/Restored.antt =====
-- What a load restores in the runtime, and what a database snapshot takes of the cells.
use picante.Base.{◌≡◌, refl, ◌∙◌, some, Option, List, [], ◌∷◌, arith}
use picante.Base.Table
use picante.Base.Table.{Table, AreDistinct, over, over-insert, over_empty, get-insert, get-eq}
use picante.Key.{DynKey, Dep, dyn_key_eq}
use picante.Runtime.{Runtime, update_query_deps}
use picante.Runtime.Deps.{IsInverse, update_query_deps-IsInverse}
use picante.Derived.World.{ErasedState, vacant, running, ready, poisoned}
use picante.Derived.Persist.{DerivedCore, ready_record, new_ready}
use picante.Derived.Logged.{
  restore_loop, restore_runtime_state_inner, snapshot_loop, snapshot_cells_deep_inner,
}
use picante.Derived.Stored.{ready_cells, only_ready, get-ready_cells, free-ready_cells}

get-update_query_deps :
    (q k : DynKey) (deps : List Dep) (rt : Runtime)
    → Table.get (update_query_deps q deps rt).deps_by_query k
      ≡ Table.get (Table.insert rt.deps_by_query q deps) k
unfolding update_query_deps
get-update_query_deps q k deps rt = refl

module _ {V : Type 0} where
  -- The dependencies of a ready cell, or those that the runtime had.
  abbrev pub restored : Option (ErasedState V) → Option (List Dep) → Option (List Dep)
  restored (some (ready value verified_at changed_at deps)) old = some deps
  restored _ old = old

  restore_loop-IsInverse :
      (cells : Table DynKey (ErasedState V)) (rt : Runtime)
      → IsInverse rt
      → IsInverse (restore_loop cells rt)
  unfolding restore_loop ready_record
  restore_loop-IsInverse [] rt i = i
  restore_loop-IsInverse ((k, vacant) ∷ cells) rt i = restore_loop-IsInverse cells rt i
  restore_loop-IsInverse ((k, running s) ∷ cells) rt i = restore_loop-IsInverse cells rt i
  restore_loop-IsInverse ((k, poisoned e s) ∷ cells) rt i = restore_loop-IsInverse cells rt i
  restore_loop-IsInverse ((k, ready v a b deps) ∷ cells) rt i =
      restore_loop-IsInverse cells (update_query_deps k deps rt)
        (update_query_deps-IsInverse k deps rt i)

  restore_loop_lem :
      (cells : Table DynKey (ErasedState V)) (rt : Runtime) (k : DynKey)
      → AreDistinct cells
      → Table.get (restore_loop cells rt).deps_by_query k
        ≡ restored (Table.get cells k) (Table.get rt.deps_by_query k)
  unfolding restore_loop ready_record Table.get
  restore_loop_lem [] rt k d = refl
  restore_loop_lem ((j, vacant) ∷ cells) rt k (free, d) =
      ground (arith, restore_loop_lem cells rt k d, get-eq cells j k, free)
  restore_loop_lem ((j, running s) ∷ cells) rt k (free, d) =
      ground (arith, restore_loop_lem cells rt k d, get-eq cells j k, free)
  restore_loop_lem ((j, poisoned e s) ∷ cells) rt k (free, d) =
      ground (arith, restore_loop_lem cells rt k d, get-eq cells j k, free)
  restore_loop_lem ((j, ready v a b deps) ∷ cells) rt k (free, d) = ground (
    arith,
    restore_loop_lem cells (update_query_deps j deps rt) k d,
    get-update_query_deps j k deps rt,
    get-insert rt.deps_by_query j k deps,
    get-eq cells j k,
    free,
  )

  -- Restoring the runtime from cells whose keys are distinct records, for every key with a ready cell,
  -- the dependencies of that cell, whatever the runtime had for it, and leaves the dependencies of the
  -- other keys as they were. The two directions of the graph stay inverse.
  pub restore_runtime_state_lem :
      (core : DerivedCore V) (rt : Runtime)
      → AreDistinct core.cells
      → IsInverse rt
      → IsInverse (restore_runtime_state_inner core rt)
        × ((k : DynKey)
            → Table.get (restore_runtime_state_inner core rt).deps_by_query k
              ≡ restored (Table.get core.cells k) (Table.get rt.deps_by_query k))
  unfolding restore_runtime_state_inner
  restore_runtime_state_lem core rt d i =
      (restore_loop-IsInverse core.cells rt i, λ k. restore_loop_lem core.cells rt k d)

  snapshot_loop_lem :
      (cells result : Table DynKey (ErasedState V)) (k : DynKey)
      → AreDistinct cells
      → Table.get (snapshot_loop cells result) k ≡ over (ready_cells cells) result k
  unfolding snapshot_loop ready_record new_ready Table.get
  snapshot_loop_lem [] result k d = refl
  snapshot_loop_lem ((j, vacant) ∷ cells) result k (free, d) = snapshot_loop_lem cells result k d
  snapshot_loop_lem ((j, running s) ∷ cells) result k (free, d) = snapshot_loop_lem cells result k d
  snapshot_loop_lem ((j, poisoned e s) ∷ cells) result k (free, d) =
      snapshot_loop_lem cells result k d
  snapshot_loop_lem ((j, ready v a b deps) ∷ cells) result k (free, d) =
      snapshot_loop_lem cells (Table.insert result j (ready v a b deps)) k d
      ∙ over-insert (ready_cells cells) result j (ready v a b deps) k
          (free-ready_cells cells j d free)

  -- A deep snapshot of cells whose keys are distinct holds the ready cells, each as it was, and no
  -- other.
  pub snapshot_cells_deep_lem :
      (core : DerivedCore V) (k : DynKey)
      → AreDistinct core.cells
      → Table.get (snapshot_cells_deep_inner core) k ≡ only_ready (Table.get core.cells k)
  unfolding snapshot_cells_deep_inner
  snapshot_cells_deep_lem core k d =
      snapshot_loop_lem core.cells [] k d
      ∙ over_empty (ready_cells core.cells) k
      ∙ get-ready_cells core.cells k d
