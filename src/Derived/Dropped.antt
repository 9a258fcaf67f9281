-- ===== src/Derived/Dropped.antt =====
-- A query function whose future is dropped after it has read some inputs.
use picante.Base.{◌≡◌, ap, ◌∙◌, none, some, [], ◌∷◌, refl, if◌then◌else◌}
use picante.Base.Table
use picante.Base.Table.{Table, get-insert}
use picante.Key.{DynKey, dyn_key_eq}
use picante.Frame.{Stack, has_active_frame, record_dep, pop_frame}
use picante.Base.Eq.{nat_eq}
use picante.Inflight.Registry.{inflight_key_eq}
use picante.Derived.World.{World, M, dropped, set_stack}
use picante.Derived.Compute.{
  Comp, ret, fails, panics, drops, read, ask, record_if_active, read_input, run_comp,
}
use picante.Input.{InputEntry, value_of}

abbrev noted_on : DynKey → Stack → Stack
noted_on k s =
    if has_active_frame s then record_dep (record { kind = k.kind; key = k.key }) s else s

pop_frame-noted_on : (k : DynKey) (s : Stack) → pop_frame (noted_on k s) ≡ pop_frame s
unfolding pop_frame has_active_frame record_dep
pop_frame-noted_on k none = refl
pop_frame-noted_on k (some []) = refl
pop_frame-noted_on k (some (f ∷ fs)) = refl

module _ {V : Type 0} where
  -- A run on these inputs reads inputs, any number of them, and then its future is dropped.
  abbrev pub IsDropped : Table DynKey (InputEntry V) → Comp V → Type 0
  IsDropped inputs drops = Unit {0}
  IsDropped inputs (read k f) = IsDropped inputs (f (value_of (Table.get inputs k)))
  IsDropped inputs (ret v) = ⊥
  IsDropped inputs (fails e) = ⊥
  IsDropped inputs (panics m) = ⊥
  IsDropped inputs (ask k f) = ⊥

  abbrev pub reads_on : Table DynKey (InputEntry V) → Comp V → Stack → Stack
  reads_on inputs (read k f) s = reads_on inputs (f (value_of (Table.get inputs k))) (noted_on k s)
  reads_on inputs drops s = s
  reads_on inputs (ret v) s = s
  reads_on inputs (fails e) s = s
  reads_on inputs (panics m) s = s
  reads_on inputs (ask k f) s = s

  record_if_active-stack :
      (k : DynKey) (s : Stack) (w : World V)
      → record_if_active k (set_stack s w) ≡ set_stack (noted_on k s) w
  unfolding record_if_active has_active_frame
  record_if_active-stack k none w = refl
  record_if_active-stack k (some []) w = refl
  record_if_active-stack k (some (f ∷ fs)) w = refl

  pub run_comp-dropped :
      (get : DynKey → M V V) (c : Comp V) (s : Stack) (w : World V)
      → IsDropped w.inputs c
      → run_comp get c (set_stack s w) ≡ (dropped, set_stack (reads_on w.inputs c s) w)
  unfolding run_comp read_input
  run_comp-dropped get drops s w d = refl
  run_comp-dropped get (ret v) s w d = absurd d
  run_comp-dropped get (fails e) s w d = absurd d
  run_comp-dropped get (panics m) s w d = absurd d
  run_comp-dropped get (ask k f) s w d = absurd d
  run_comp-dropped get (read k f) s w d =
      ap (λ (w' : World V). run_comp get (f (value_of (Table.get w'.inputs k))) w')
        (record_if_active-stack k s w)
      ∙ run_comp-dropped get (f (value_of (Table.get w.inputs k))) (noted_on k s) w d

  pub pop_frame-reads_on :
      (inputs : Table DynKey (InputEntry V)) (c : Comp V) (s : Stack)
      → pop_frame (reads_on inputs c s) ≡ pop_frame s
  pop_frame-reads_on inputs (read k f) s =
      pop_frame-reads_on inputs (f (value_of (Table.get inputs k))) (noted_on k s)
      ∙ pop_frame-noted_on k s
  pop_frame-reads_on inputs drops s = refl
  pop_frame-reads_on inputs (ret v) s = refl
  pop_frame-reads_on inputs (fails e) s = refl
  pop_frame-reads_on inputs (panics m) s = refl
  pop_frame-reads_on inputs (ask k f) s = refl
