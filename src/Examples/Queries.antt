-- ===== src/Examples/Queries.antt =====
-- Accesses of derived queries in small worlds.
use picante.Base.{ℕ, ◌+◌, ◌≡◌, refl, true, false, ◌==◌, [], ◌∷◌, Option, none, some, if◌then◌else◌}
use picante.Base.Table
use picante.Key.{QueryKindId, dyn_key_eq}
use picante.Frame.{find_cycle}
use picante.Runtime.{cache_scope_id, current_revision}
use picante.Runtime as Rt
use picante.Inflight.SharedCache as Cache
use picante.Inflight.Registry.{state}
use picante.Inflight.Registry as Reg
use picante.Derived.World.{World, ready, dropped, blocked, returned}
use picante.Derived.Compute.{Config, ret, drops, read, Sort, input, derived}
use picante.Derived.Access.{access_scoped}
use picante.Derived.Cancel.{access_scoped-dropped}
use picante.Derived.Rounds.{try_revalidate}
use picante.Derived.Revalidation.{try_revalidate-leaves, all_unchanged}
use picante.Examples.Data.{kind_a, a_key, b_key, a_dep, rev_of}

abbrev pub registry : QueryKindId → Option Sort
registry k = if k.id == 1 then some input else (if k.id == 2 then some derived else none)

-- Every query reads the input of its key, and adds one.
abbrev pub adding : Config ℕ
adding = record {
  compute = λ k.
      read (record { kind = kind_a; key = k.key })
        (λ o. ret (elim o [ none ↦ 0 | some n ↦ n + 1 ]));
  ptr_eq = λ a b. false;
  eq_erased = λ a b. a == b;
  ingredient = registry;
  env = none;
}

-- Every query is dropped at its first await.
-- The function reads an input, and is dropped at the await behind it.
abbrev dropping : Config ℕ
dropping = record adding { compute = λ k. read (a_key 1) (λ v. drops) }

abbrev pub empty_world : World ℕ
empty_world = record {
  runtime = (Rt.new 1).0;
  inputs = (a_key 1, record { value = some 5; changed_at = rev_of 0 }) ∷ [];
  cells = [];
  stack = some [];
  shared = Cache.empty;
  inflight = Reg.empty;
}

abbrev hot_world : World ℕ
hot_world = record empty_world {
  cells = (b_key 1, ready 6 (rev_of 0) (rev_of 0) (a_dep 1 ∷ [])) ∷ [];
}

try_revalidate_example :
    try_revalidate adding
      (access_scoped adding 5)
      (b_key 1)
      (rev_of 0)
      (a_dep 1 ∷ [])
      (rev_of 0)
      hot_world
    ≡ (returned (all_unchanged adding hot_world.inputs (rev_of 0) (a_dep 1 ∷ [])), hot_world)
try_revalidate_example =
    try_revalidate-leaves adding (access_scoped adding 5) (b_key 1) (rev_of 0) (a_dep 1 ∷ [])
      (rev_of 0) hot_world (refl, tt)

abbrev after_drop : World ℕ
after_drop = (access_scoped dropping 5 (b_key 1) true empty_world).1

access_scoped-dropped_example :
    ((access_scoped dropping 5 (b_key 1) true empty_world).0 ≡ dropped)
    × (state 0 after_drop.inflight ≡ some Reg.cancelled)
    × ((access_scoped dropping 9 (b_key 1) true (record after_drop { stack = some [] })).0
        ≡ blocked)
unfolding find_cycle Table.get Cache.shared_cache_get Cache.empty Reg.empty
access_scoped-dropped_example =
    access_scoped-dropped dropping (b_key 1) true 3 7 true empty_world
      (record after_drop { stack = some [] }) tt refl refl refl refl refl refl
