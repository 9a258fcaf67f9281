-- ===== src/Runtime/Defs.antt =====
-- The state of `Runtime` in runtime.rs and its events. The atomics are plain fields, since each
-- function below is one step of one thread. `watched` is the value in the revision watch channel;
-- `events` is what was sent on the broadcast channel, the last one first.
use picante.Base.{
  ℕ, ◌+◌, ◌%◌, ◌^◌, Bool, true, false, not, none, some, List, [], ◌∷◌, ◌==◌, if◌then◌else◌,
}
use picante.Base.Table
use picante.Base.Table.{Table}
use picante.Base.Set
use picante.Key.{Revision, QueryKindId, Key, DynKey, Dep, dep_key, dyn_key_eq, dep_eq}

pub record RuntimeId : Type 0 where
  pub num : ℕ

pub data RuntimeEvent : Type 0 where
  revision_bumped : (revision : Revision) → RuntimeEvent
  revision_set : (revision : Revision) → RuntimeEvent
  input_set : (revision : Revision) (kind : QueryKindId) (key_hash : ℕ) (key : Key) → RuntimeEvent
  input_removed :
      (revision : Revision) (kind : QueryKindId) (key_hash : ℕ) (key : Key) → RuntimeEvent
  query_invalidated :
      (revision : Revision) (kind : QueryKindId) (key_hash : ℕ) (key : Key) (by_kind : QueryKindId)
      (by_key_hash : ℕ) (by_key : Key)
      → RuntimeEvent
  query_changed :
      (revision : Revision) (kind : QueryKindId) (key_hash : ℕ) (key : Key) → RuntimeEvent

pub record Runtime : Type 0 where
  pub id : RuntimeId
  pub is_snapshot : Bool
  pub divergent_scope : ℕ
  pub current : ℕ
  pub watched : Revision
  pub events : List RuntimeEvent
  pub deps_by_query : Table DynKey (List Dep)
  pub reverse_deps : Table DynKey (List DynKey)

-- `RUNTIME_ID_COUNTER.fetch_add(1)` on `u64`: the old value, and the counter after it.
unfoldable pub next_id : ℕ → ℕ × ℕ
next_id counter = (counter, (counter + 1) % 2 ^ 64)

abbrev fresh_runtime : RuntimeId → Bool → Runtime
fresh_runtime id is_snapshot = record {
  id = id;
  is_snapshot = is_snapshot;
  divergent_scope = 0;
  current = 0;
  watched = record { num = 0 };
  events = [];
  deps_by_query = [];
  reverse_deps = [];
}

-- `Runtime::default` and `Runtime::new`: the runtime, and the counter after it.
unfoldable pub new : ℕ → Runtime × ℕ
unfolding next_id
new counter =
    let (id, counter') = next_id counter in (fresh_runtime (record { num = id }) false, counter')

unfoldable pub new_for_snapshot : RuntimeId → Runtime
new_for_snapshot parent_id = fresh_runtime parent_id true

unfoldable pub cache_scope_id : Runtime → RuntimeId
cache_scope_id rt =
    if not (rt.divergent_scope == 0) then record { num = rt.divergent_scope } else rt.id

-- Takes and returns the counter of ids. In one thread the compare-exchange always succeeds.
unfoldable pub mark_divergent : Runtime → ℕ → Runtime × ℕ
unfolding next_id
mark_divergent rt counter =
    if not rt.is_snapshot
    then (rt, counter)
    else if not (rt.divergent_scope == 0)
    then (rt, counter)
    else (let (fresh, counter') = next_id counter in
        (record rt { divergent_scope = fresh }, counter'))

unfoldable pub current_revision : Runtime → Revision
current_revision rt = record { num = rt.current }

-- `events_tx.send`
unfoldable pub send : RuntimeEvent → Runtime → Runtime
send ev rt = record rt { events = ev ∷ rt.events }

unfoldable pub bump_revision : Runtime → Revision × Runtime
unfolding send
bump_revision rt =
    let next = (rt.current + 1) % 2 ^ 64 in
    let rev : Revision = record { num = next } in
    (rev, send (revision_bumped rev) (record rt { current = next; watched = rev }))

unfoldable pub set_current_revision : Revision → Runtime → Runtime
unfolding send
set_current_revision revision rt =
    send (revision_set revision) (record rt { current = revision.num; watched = revision })

unfoldable pub notify_query_changed : Revision → DynKey → Runtime → Runtime
unfolding send
notify_query_changed revision query rt =
    send (query_changed revision query.kind query.key.hash query.key) rt

unfoldable pub clear_dependency_graph : Runtime → Runtime
clear_dependency_graph rt = record rt { deps_by_query = []; reverse_deps = [] }

abbrev pub Reverse : Type 0
Reverse = Table DynKey (List DynKey)

-- The dependents of a key: those under its entry, none if it has no entry.
abbrev pub dependents_of : Reverse → DynKey → List DynKey
dependents_of rev d = elim (Table.get rev d) [ none ↦ [] | some set ↦ set ]

-- One round of the loop over the dependencies that are gone.
unfoldable pub remove_edge : DynKey → Dep → Reverse → Reverse
remove_edge query dep rev = elim (Table.get rev (dep_key dep)) [
  | none ↦ rev
  | some set ↦
      let set' = Set.remove set query in
      if Set.is_empty set'
      then Table.remove rev (dep_key dep)
      else Table.insert rev (dep_key dep) set'
]

-- One round of the loop over the new dependencies.
unfoldable pub add_edge : DynKey → Dep → Reverse → Reverse
add_edge query dep rev =
    Table.insert rev (dep_key dep) (Set.insert (dependents_of rev (dep_key dep)) query)

unfoldable pub remove_edges : DynKey → List Dep → Reverse → Reverse
unfolding remove_edge
remove_edges query [] rev = rev
remove_edges query (dep ∷ deps) rev = remove_edges query deps (remove_edge query dep rev)

unfoldable pub add_edges : DynKey → List Dep → Reverse → Reverse
unfolding add_edge
add_edges query [] rev = rev
add_edges query (dep ∷ deps) rev = add_edges query deps (add_edge query dep rev)

abbrev pub deps_of : Table DynKey (List Dep) → DynKey → List Dep
deps_of fwd q = elim (Table.get fwd q) [ none ↦ [] | some deps ↦ deps ]

unfoldable pub update_query_deps : DynKey → List Dep → Runtime → Runtime
update_query_deps query deps rt =
    let new_set = Set.of_list deps in
    let old_set = Set.of_list (deps_of rt.deps_by_query query) in
    record rt {
      deps_by_query = Table.insert rt.deps_by_query query deps;
      reverse_deps =
          add_edges query new_set
            (remove_edges query (Set.difference old_set new_set) rt.reverse_deps);
    }
