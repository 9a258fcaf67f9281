-- ===== src/Examples/Sessions.antt =====
-- Sequences of changes and queries on a small database.
use picante.Base.{
  ℕ, ◌+◌, ◌≡◌, refl, ap, true, false, ◌==◌, [], ◌∷◌, List, none, some, Option, arith,
}
use picante.Base.Table
use picante.Key.{dyn_key_eq}
use picante.Key.Equality.{bytes_beq→eq}
use picante.Runtime.{cache_scope_id, RuntimeId}
use picante.Runtime as Rt
use picante.Inflight.SharedCache as Cache
use picante.Inflight.Registry as Reg
use picante.Input.Scope.{Scope}
use picante.Input.Reads.{sets, removes}
use picante.Derived.World.{World, Outcome, returned}
use picante.Derived.Compute.{Config, Comp, ret, read}
use picante.Derived.Replay.{IsInputOnly, replay}
use picante.Derived.Sound.{IsByKey, IsSound}
use picante.Derived.Rounds.{get_erased}
use picante.Derived.Access.{access_scoped}
use picante.Derived.Consistency.{get_erased-replay, outcome_of}
use picante.Derived.Session.{Call, change, change-IsSound, asks, changes, run_calls, run_calls_lem}
use picante.Examples.Data.{kind_a, a_key, b_key}
use picante.Examples.Queries.{adding, empty_world, registry}

-- Reads the input of its key, and then the one that this value names.
abbrev second : List ℕ → Option ℕ → Comp ℕ
second bytes none = ret 0
second bytes (some v) = read (a_key v) (λ o. ret (elim o [ none ↦ v | some u ↦ v + u ]))

abbrev pub by_bytes : List ℕ → Comp ℕ
by_bytes bytes =
    read (record { kind = kind_a; key = record { bytes = bytes; hash = 0 } }) (second bytes)

abbrev pub following : Config ℕ
following = record adding { compute = λ k. by_bytes k.key.bytes }

pub following-IsByKey : IsByKey following
following-IsByKey a b h = ap by_bytes (bytes_beq→eq a.key.bytes b.key.bytes (ground arith))

pub second-IsInputOnly : (bytes : List ℕ) (o : Option ℕ) → IsInputOnly registry (second bytes o)
second-IsInputOnly bytes none = tt
second-IsInputOnly bytes (some v) = (refl, λ o. tt)

abbrev pub fresh_world : World ℕ
fresh_world = record empty_world { stack = none }

abbrev pub fresh_scope : Scope
fresh_scope = record { id = cache_scope_id fresh_world.runtime; is_snapshot = false }

pub fresh_world-IsSound : IsSound following fresh_scope fresh_world
unfolding Cache.empty Cache.shared_cache_get Reg.empty Table.get Rt.new cache_scope_id
fresh_world-IsSound = record {
  in_scope = record { mode = refl; scoped = refl };
  cells = λ k st p. ground (arith, p);
  records = λ k r p. ground (arith, p);
  idle = λ k. refl;
}

same_number : (a b : ℕ) → (a == b) ≡ true → a ≡ b
same_number a b h = ground (arith, h)

abbrev calls : List (Call ℕ)
calls =
    asks (b_key 1)
    ∷ changes (sets (a_key 5) 9)
    ∷ asks (b_key 1)
    ∷ asks (b_key 1)
    ∷ changes (removes (a_key 1))
    ∷ asks (b_key 1)
    ∷ []

run_calls_example :
    (run_calls following (λ a b. a == b) 3 calls fresh_world 2).0
    ≡ returned 5 ∷ returned 14 ∷ returned 14 ∷ returned 0 ∷ []
unfolding Table.get Rt.new
run_calls_example =
    run_calls_lem following (λ a b. a == b) 3 following-IsByKey
      (λ k. (refl, second-IsInputOnly k.key.bytes)) same_number fresh_scope calls fresh_world 2 refl
      fresh_world-IsSound refl (omega arith)

abbrev asked : Outcome ℕ × World ℕ
asked = get_erased (access_scoped following 4) (b_key 1) fresh_world

get_erased_example :
    (asked.0 ≡ outcome_of (replay fresh_world.inputs (by_bytes (1 ∷ []))).0)
    × (asked.1.stack ≡ none)
    × (asked.1.inputs ≡ fresh_world.inputs)
    × (asked.1.runtime.current ≡ fresh_world.runtime.current)
    × IsSound following fresh_scope asked.1
get_erased_example =
    get_erased-replay following fresh_scope (b_key 1) 2 fresh_world following-IsByKey
      (refl, second-IsInputOnly (1 ∷ [])) fresh_world-IsSound refl

change_example :
    IsSound following fresh_scope (change (λ a b. a == b) (sets (a_key 5) 9) fresh_world 2).0
unfolding Rt.new
change_example =
    change-IsSound following fresh_scope (λ a b. a == b) (sets (a_key 5) 9) fresh_world 2 refl
      fresh_world-IsSound (omega arith)
