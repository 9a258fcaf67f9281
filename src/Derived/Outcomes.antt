-- ===== src/Derived/Outcomes.antt =====
-- How an access ends: on a hot cell, on a cycle, on a cell that another computation holds, and when
-- the owner of the leader drops it.
use picante.Base.{ℕ, suc, ◌≡◌, ap, ◌∙◌, Bool, true, none, some, List, ◌==◌, arith, if◌then◌else◌}
use picante.Base.Table
use picante.Key.{Revision, DynKey, Dep, dyn_key_eq}
use picante.Frame.{find_cycle}
use picante.Runtime.{current_revision}
use picante.Derived.World.{World, ErasedState, vacant, running, ready, returned, blocked, current}
use picante.Derived.Compute.{Config, record_if_active}
use picante.Derived.Cell.{AccessResult, observe, cell_at, set_cell, ensure_cell, wanted}
use picante.Derived.Rounds.{Access, settle}
use picante.Derived.Access.{access_scoped, access_with, rounds, round, by_observed}

module _ {V : Type 0} where
  -- What an access leaves of the world when its cell answers at once.
  abbrev pub noted : DynKey → Bool → World V → World V
  noted requested want_value w = if want_value then record_if_active requested w else w

  noted-cells :
      (requested : DynKey) (want_value : Bool) (w : World V)
      → (noted requested want_value w).cells ≡ w.cells
  unfolding record_if_active
  noted-cells requested want_value w = ground arith

  noted-runtime :
      (requested : DynKey) (want_value : Bool) (w : World V)
      → (noted requested want_value w).runtime ≡ w.runtime
  unfolding record_if_active
  noted-runtime requested want_value w = ground arith

  ensure-noted :
      (requested : DynKey) (want_value : Bool) (w : World V) (st : ErasedState V)
      → Table.get w.cells requested ≡ some st
      → ensure_cell requested (noted requested want_value w) ≡ noted requested want_value w
  unfolding ensure_cell
  ensure-noted requested want_value w st h =
      ap
        (λ o. elim o [
          | none ↦ set_cell requested vacant (noted requested want_value w)
          | some st' ↦ noted requested want_value w
        ])
        (ap (λ cs. Table.get cs requested) (noted-cells requested want_value w) ∙ h)

  pub settle-current :
      (r : AccessResult V) (w : World V) → settle (current w) r w ≡ (returned (some r), w)
  unfolding settle
  settle-current r w = ap (λ o. (returned o, w)) (if_pos_beq (current w).num)
    where
      if_pos_beq : (n : ℕ) → (if n == n then some r else none) ≡ some r
      if_pos_beq n = ground arith

module _ {V : Type 0} (x : Config V) where
  -- An access of a key whose cell exists and that is not on the stack is its loop.
  access-rounds :
      (n : ℕ) (requested : DynKey) (want_value : Bool) (w : World V) (st : ErasedState V)
      → find_cycle requested w.stack ≡ none
      → Table.get w.cells requested ≡ some st
      → access_scoped x (suc n) requested want_value w
        ≡ rounds x (access_scoped x n) requested want_value n (noted requested want_value w)
  unfolding access_scoped access_with
  access-rounds n requested want_value w st c h =
      rw (c, access_scoped, access_with, ensure-noted requested want_value w st h)

  -- One round on a cell that is verified at the current revision, and on one that is running.
  round-ready :
      (access : Access V) (requested : DynKey) (want_value : Bool) (w : World V) (value : V)
      (verified_at changed_at : Revision) (deps : List Dep)
      → Table.get w.cells requested ≡ some (ready value verified_at changed_at deps)
      → (verified_at.num == (current w).num) ≡ true
      → round x access requested want_value w
        ≡ (returned (some (record { value = wanted want_value value; changed_at = changed_at })), w)
  unfolding round by_observed observe cell_at settle
  round-ready access requested want_value w value verified_at changed_at deps h v =
      rw (h, v, round, by_observed, observe, cell_at)
        (settle-current (record { value = wanted want_value value; changed_at = changed_at }) w)

  round-running :
      (access : Access V) (requested : DynKey) (want_value : Bool) (w : World V)
      (started_at : Revision)
      → Table.get w.cells requested ≡ some (running started_at)
      → round x access requested want_value w ≡ (blocked, w)
  unfolding round by_observed observe cell_at
  round-running access requested want_value w started_at h =
      rw (h, round, by_observed, observe, cell_at)

  -- Every access of a key whose cell is verified at the current revision returns the value of the cell
  -- if it is wanted, and its revision. The world stays as it is, but that an access for the value is
  -- recorded as a dependency of the frame on top of the stack: no query function runs, no dependency is
  -- looked at, and neither the shared cache nor the in-flight registry is used.
  access_scoped-ready :
      (n : ℕ) (requested : DynKey) (want_value : Bool) (w : World V) (value : V)
      (verified_at changed_at : Revision) (deps : List Dep)
      → find_cycle requested w.stack ≡ none
      → Table.get w.cells requested ≡ some (ready value verified_at changed_at deps)
      → (verified_at.num == (current w).num) ≡ true
      → access_scoped x (suc (suc n)) requested want_value w ≡ (
        returned (record { value = wanted want_value value; changed_at = changed_at }),
        (if want_value then record_if_active requested w else w),
      )
  unfolding rounds current current_revision
  access_scoped-ready n requested want_value w value verified_at changed_at deps c h v =
      access-rounds (suc n) requested want_value w _ c h
      ∙ rw (
          round-ready (access_scoped x (suc n)) requested want_value (noted requested want_value w)
            value verified_at changed_at deps
            (ap (λ cs. Table.get cs requested) (noted-cells requested want_value w) ∙ h)
            (ap (λ rt. verified_at.num == rt.current) (noted-runtime requested want_value w) ∙ v))

  -- Every access of a key whose cell is `Running` waits, at any revision; it records the dependency
  -- before it waits, and changes nothing else.
  pub access_scoped-running :
      (n : ℕ) (requested : DynKey) (want_value : Bool) (w : World V) (started_at : Revision)
      → find_cycle requested w.stack ≡ none
      → Table.get w.cells requested ≡ some (running started_at)
      → access_scoped x (suc (suc n)) requested want_value w
        ≡ (blocked, (if want_value then record_if_active requested w else w))
  unfolding rounds
  access_scoped-running n requested want_value w started_at c h =
      access-rounds (suc n) requested want_value w _ c h
      ∙ rw (
          round-running (access_scoped x (suc n)) requested want_value
            (noted requested want_value w) started_at
            (ap (λ cs. Table.get cs requested) (noted-cells requested want_value w) ∙ h))
