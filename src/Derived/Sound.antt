-- ===== src/Derived/Sound.antt =====
-- A database whose cells and shared records are right, and what its writes keep of that. The
-- database is live, and no computation is in flight between its accesses.
use picante.Base.{
  List, ℕ, ◌≡◌, sym, ◌∙◌, subst, true, false, Option, none, some, arith, inl, inr, Bool-cases,
}
use picante.Base.Eq.{◌==◌}
use picante.Base.Table
use picante.Base.Table.{Table, get-insert, get-remove}
use picante.Key.{Revision, DynKey, Dep, dyn_key_eq}
use picante.Error.{PicanteError}
use picante.Runtime.{RuntimeId}
use picante.Input.{InputEntry}
use picante.Input.Scope.{Scope, InScope}
use picante.Inflight.SharedCache.{
  SharedCache, SharedCacheRecord, SharedCacheKey, shared_cache_get, shared_cache_put,
  shared_key_beq,
}
use picante.Inflight.Limit.{shared_cache_get-put}
use picante.Inflight.Registry.{
  InFlightKey, InFlightGuard, Registry, inflight_key_eq, complete, fail, drop_guard, set_state,
  unregister,
}
use picante.Derived.World.{World, ErasedState}
use picante.Derived.Compute.{Config}
use picante.Derived.Memo.{IsMemo, IsGood}

module _ {V : Type 0} (x : Config V) where
  -- A query function sees the bytes of its key, so equal keys have one function.
  abbrev pub IsByKey : Type 0
  IsByKey = (a b : DynKey) → (a == b) ≡ true → x.compute a ≡ x.compute b

  abbrev pub AreCells : Table DynKey (InputEntry V) → ℕ → Table DynKey (ErasedState V) → Type 0
  AreCells inputs now cells =
      (k : DynKey) (st : ErasedState V)
      → Table.get cells k ≡ some st
      → IsGood x inputs now (x.compute k) st

  -- All cells but that of one key.
  abbrev pub AreOthers :
      DynKey → Table DynKey (InputEntry V) → ℕ → Table DynKey (ErasedState V) → Type 0
  AreOthers requested inputs now cells =
      (k : DynKey) (st : ErasedState V)
      → (requested == k) ≡ false
      → Table.get cells k ≡ some st
      → IsGood x inputs now (x.compute k) st

  abbrev pub IsRecordOf : Table DynKey (InputEntry V) → ℕ → DynKey → SharedCacheRecord V → Type 0
  IsRecordOf inputs now k r =
      IsMemo x inputs now (x.compute k) r.value r.verified_at r.changed_at r.deps

  abbrev pub AreRecords : RuntimeId → Table DynKey (InputEntry V) → ℕ → SharedCache V → Type 0
  AreRecords scope inputs now shared =
      (k : DynKey) (r : SharedCacheRecord V)
      → shared_cache_get scope k.kind k.key shared ≡ some r
      → IsRecordOf inputs now k r

  -- No computation is in flight.
  abbrev pub IsIdle : Registry V → Type 0
  IsIdle reg = (k : InFlightKey) → Table.get reg.entries k ≡ none

  pub record IsSound (scope : Scope) (w : World V) : Type 0 where
    pub in_scope : InScope scope w.runtime
    pub cells : AreCells w.inputs w.runtime.current w.cells
    pub records : AreRecords scope.id w.inputs w.runtime.current w.shared
    pub idle : IsIdle w.inflight

  pub AreCells-others :
      (requested : DynKey) (inputs : Table DynKey (InputEntry V)) (now : ℕ)
      (cells : Table DynKey (ErasedState V)) (st : ErasedState V)
      → AreOthers requested inputs now cells
      → AreOthers requested inputs now (Table.insert cells requested st)
  AreCells-others requested inputs now cells st h k st' e p =
      h k st' e (ground (arith, get-insert cells requested k st))

  -- Writing a right cell for the one key makes all cells right.
  pub AreOthers-insert :
      IsByKey
      → (requested : DynKey) (inputs : Table DynKey (InputEntry V)) (now : ℕ)
        (cells : Table DynKey (ErasedState V)) (st : ErasedState V)
      → AreOthers requested inputs now cells
      → IsGood x inputs now (x.compute requested) st
      → AreCells inputs now (Table.insert cells requested st)
  AreOthers-insert by requested inputs now cells st h g k st' p =
      elim (Bool-cases (requested == k)) [
        | inl e ↦
            subst (λ c. IsGood x inputs now c st') (by requested k e)
              (subst (IsGood x inputs now (x.compute requested)) (same e) g)
        | inr e ↦ AreCells-others requested inputs now cells st h k st' e p
      ]
    where
      same : (requested == k) ≡ true → st ≡ st'
      same e = ground (arith, get-insert cells requested k st)

  -- A right record that is put leaves only right records.
  pub AreRecords-put :
      IsByKey
      → (env : Option ℕ) (scope : RuntimeId) (requested : DynKey) (r : SharedCacheRecord V)
        (inputs : Table DynKey (InputEntry V)) (now : ℕ) (shared : SharedCache V)
      → AreRecords scope inputs now shared
      → IsRecordOf inputs now requested r
      → AreRecords scope inputs now
          (shared_cache_put env scope requested.kind requested.key r shared)
  AreRecords-put by env scope requested r inputs now shared h g k r' p =
      let at : DynKey → SharedCacheKey =
        λ (j : DynKey). record { runtime_id = scope; kind = j.kind; key = j.key } in
      let r1 : SharedCacheRecord V = record r { insert_id = shared.next_insert_id } in
      elim (shared_cache_get-put env scope requested.kind requested.key r shared scope k.kind
        k.key) [
          | inr (_, gone) ↦ absurd (some_ne_none (sym p ∙ gone))
          | inl q ↦ elim (Bool-cases (shared_key_beq (at requested) (at k))) [
            | inr e ↦ h k r' (ground (arith, p, q, e))
            | inl e ↦
                let same : r1 ≡ r' = ground (arith, p, q, e) in
                subst (IsRecordOf inputs now k) same (
                  subst (λ c. IsMemo x inputs now c r.value r.verified_at r.changed_at r.deps)
                    (by requested k (ground (arith, e))) g)
          ]
        ]
    where
      some_ne_none : some r' ≡ none → ⊥
      some_ne_none e = cc

  pub IsIdle-complete :
      (value : V) (deps : List Dep) (changed_at : Revision) (g : InFlightGuard) (a : ℕ)
      (reg reg' : Registry V)
      → IsIdle reg
      → reg'.entries ≡ Table.insert reg.entries g.key a
      → IsIdle (complete value deps changed_at g reg')
  unfolding complete drop_guard unregister set_state
  IsIdle-complete value deps changed_at g a reg reg' h e k =
      ground (arith, e, get-remove reg'.entries g.key k, get-insert reg.entries g.key k a, h k)

  pub IsIdle-fail :
      (error : PicanteError) (g : InFlightGuard) (a : ℕ) (reg reg' : Registry V)
      → IsIdle reg
      → reg'.entries ≡ Table.insert reg.entries g.key a
      → IsIdle (fail error g reg')
  unfolding fail drop_guard unregister set_state
  IsIdle-fail error g a reg reg' h e k =
      ground (arith, e, get-remove reg'.entries g.key k, get-insert reg.entries g.key k a, h k)
