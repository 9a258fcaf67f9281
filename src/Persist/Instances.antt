-- ===== src/Persist/Instances.antt =====
-- The ingredients as objects of the persistence: their implementations of `PersistableIngredient`.
use picante.Base.{ℕ, ◌≡◌, refl, ap, subst, ◌∙◌, sym, Option, List, [], ◌∷◌, arith}
use picante.Base.Results.{ok, err, try_each, after_ok}
use picante.Key.{Hasher, Codec, RoundTrips}
use picante.Error.{PicanteError, PicanteResult}
use picante.Interned.{Interned, InternedRecord}
use picante.Interned as Interned
use picante.Input.{InputCore}
use picante.Input.Persist as Input
use picante.Input.Persist.{InputRecord}
use picante.Input.Stored as Stored
use picante.Input.Stored.{load-save}
use picante.Input.Incremental.{apply-save, apply_all, IsBase}
use picante.Derived.Persist as Derived
use picante.Derived.Persist.{DerivedCore, DerivedRecord, PeekCodec, ReadsBack}
use picante.Derived.Logged as Logged
use picante.Derived.Stored as Cells
use picante.Derived.Saved.{load-save_cells}
use picante.Derived.Changes.{apply-save_changes, apply_changes}
use picante.Persist.Defs.{input, derived, interned}
use picante.Persist.Ingredients.{
  Ingredient, with_state, load_into, cleared, apply_to, default_restore, default_save_incremental,
}
use picante.Persist.RoundTrip.{Reloads}
use picante.Persist.Replay.{CatchesUp}

module _ {K V : Type 0} ⦃h : Hasher⦄ (c : Codec K) (rc : Codec (InputRecord K V))
    (vc : Codec V) where
  abbrev pub input_ingredient : InputCore V → Ingredient
  input_ingredient core = record {
    State = InputCore V;
    kind = core.kind;
    kind_name = core.kind_name;
    section_type = input;
    clear = Input.clear_entries;
    save_records = Input.save_records_erased c rc;
    load_records = Input.load_records_erased c rc;
    restore_runtime_state = default_restore;
    save_incremental_records = Input.save_incremental_records_erased c vc;
    apply_wal_entry = Input.apply_wal_entry_erased c vc;
    state = core;
  }

module _ {K : Type 0} ⦃h : Hasher⦄ (c : Codec K) (rc : Codec (InternedRecord K)) where
  -- The method returns the state also after an error, where it is as it was.
  abbrev apply_interned :
      ℕ × List ℕ × Option (List ℕ)
      → Interned.Interned K
      → PicanteResult (Unit {0}) × Interned.Interned K
  apply_interned (rev, key, value) t = elim (Interned.apply_wal_entry c rc value t) [
    | ok t' ↦ (ok tt, t')
    | err e ↦ (err e, t)
  ]

  -- No changes are logged for interned values.
  abbrev pub interned_ingredient : Interned.Interned K → Ingredient
  interned_ingredient t = record {
    State = Interned.Interned K;
    kind = t.kind;
    kind_name = t.kind_name;
    section_type = interned;
    clear = Interned.clear;
    save_records = Interned.save_records rc;
    load_records = Interned.load_records c rc;
    restore_runtime_state = default_restore;
    save_incremental_records = default_save_incremental;
    apply_wal_entry = apply_interned;
    state = t;
  }

module _ {Heap K V : Type 0} ⦃h : Hasher⦄ (c : Codec K) (kc : PeekCodec Heap K)
    (rc : PeekCodec Heap (DerivedRecord K V)) (bug : PicanteError → PicanteError) where
  abbrev pub derived_ingredient : DerivedCore V → Ingredient
  derived_ingredient core = record {
    State = DerivedCore V;
    kind = core.kind;
    kind_name = core.kind_name;
    section_type = derived;
    clear = Derived.clear_cells;
    save_records = Derived.save_records_erased c rc bug;
    load_records = Derived.load_records_erased c rc bug;
    restore_runtime_state = λ core' rt. (ok tt, Logged.restore_runtime_state_inner core' rt);
    save_incremental_records = Logged.save_incremental_records_erased c kc rc bug;
    apply_wal_entry = Logged.apply_wal_entry_erased c kc rc bug;
    state = core;
  }

abbrev pub SameDeclaration : Ingredient → Ingredient → Type 0
SameDeclaration i j =
    (i.kind ≡ j.kind) × (i.kind_name ≡ j.kind_name) × (i.section_type ≡ j.section_type)

-- A load of the records that were saved, with no error, is what a reload asks for.
loads-Reloads :
    (i j : Ingredient) (records : List (List ℕ))
    → SameDeclaration i j
    → i.save_records i.state ≡ ok records
    → (load_into records (cleared j)).0 ≡ ok tt
    → Reloads i j (load_into records (cleared j)).1
loads-Reloads i j records (kind, name, type) saved loaded = record {
  same_kind = ap (λ k. k.id) kind;
  same_name = name;
  same_type = type;
  reloads = λ others p.
      let same : records ≡ others = ground (arith, p, saved) in
      subst (λ rs. load_into rs (cleared j) ≡ (ok tt, (load_into records (cleared j)).1)) same
        (ap (λ r. (r, (load_into records (cleared j)).1)) loaded);
}

applies-CatchesUp :
    (since : ℕ) (i j k : Ingredient) (changes : List (ℕ × List ℕ × Option (List ℕ)))
    → i.kind ≡ j.kind
    → i.save_incremental_records since i.state ≡ ok changes
    → try_each apply_to changes j ≡ (ok tt, k)
    → CatchesUp since i j k
applies-CatchesUp since i j k changes kind saved applied = record {
  same_kind = sym (ap (λ q. q.id) kind);
  catches_up = λ others p.
      let same : changes ≡ others = ground (arith, p, saved) in
      subst (λ cs. try_each apply_to cs j ≡ (ok tt, k)) same applied;
}

-- The changes applied to the object are those applied to its state.
abbrev as_object :
    (j : Ingredient) → PicanteResult (Unit {0}) × j.State → PicanteResult (Unit {0}) × Ingredient
as_object j (r, s) = (r, with_state j s)

after_ok-as_object :
    (j : Ingredient) (next : Ingredient → PicanteResult (Unit {0}) × Ingredient)
    (next_state : j.State → PicanteResult (Unit {0}) × j.State)
    (o : PicanteResult (Unit {0}) × j.State)
    → ((s : j.State) → next (with_state j s) ≡ as_object j (next_state s))
    → after_ok next (as_object j o) ≡ as_object j (after_ok next_state o)
after_ok-as_object j next next_state (ok u, s) h = h s
after_ok-as_object j next next_state (err e, s) h = refl

try_each-apply_to :
    (changes : List (ℕ × List ℕ × Option (List ℕ))) (j : Ingredient) (s : j.State)
    → try_each apply_to changes (with_state j s)
      ≡ as_object j (try_each j.apply_wal_entry changes s)
unfolding try_each
try_each-apply_to [] j s = refl
try_each-apply_to (change ∷ changes) j s =
    after_ok-as_object j (try_each apply_to changes) (try_each j.apply_wal_entry changes)
      (j.apply_wal_entry change s) (λ s'. try_each-apply_to changes j s')

module _ {K V : Type 0} ⦃h : Hasher⦄ (c : Codec K) (rc : Codec (InputRecord K V))
    (vc : Codec V) where
  pub input_ingredient-Reloads :
      (core other : InputCore V) (records : List (List ℕ))
      → RoundTrips c
      → RoundTrips rc
      → Stored.IsStored c core
      → other.kind ≡ core.kind
      → other.kind_name ≡ core.kind_name
      → Input.save_records_erased c rc core ≡ ok records
      → let j = input_ingredient c rc vc other in
        Reloads (input_ingredient c rc vc core) j (load_into records (cleared j)).1
  input_ingredient-Reloads core other records r rr s kind name p =
      loads-Reloads (input_ingredient c rc vc core) (input_ingredient c rc vc other) records
        (sym kind, sym name, refl) p (load-save c rc core other records r rr s kind p).0

  pub input_ingredient-CatchesUp :
      (since : ℕ) (core base : InputCore V) (changes : List (ℕ × List ℕ × Option (List ℕ)))
      → RoundTrips c
      → RoundTrips vc
      → Stored.IsStored c core
      → IsBase c vc since core base
      → base.kind ≡ core.kind
      → Input.save_incremental_records_erased c vc since core ≡ ok changes
      → let j = input_ingredient c rc vc base in
        CatchesUp since
          (input_ingredient c rc vc core)
          j
          (with_state j (apply_all c vc changes base).1)
  input_ingredient-CatchesUp since core base changes r rv s b kind p =
      let j = input_ingredient c rc vc base in
      applies-CatchesUp since (input_ingredient c rc vc core) j
        (with_state j (apply_all c vc changes base).1) changes (sym kind) p
        (try_each-apply_to changes j base
          ∙ ap (λ q. (q, with_state j (apply_all c vc changes base).1))
              (apply-save c vc since core base changes r rv s b kind p).0)

module _ {Heap K V : Type 0} ⦃h : Hasher⦄ (c : Codec K) (kc : PeekCodec Heap K)
    (rc : PeekCodec Heap (DerivedRecord K V)) (bug : PicanteError → PicanteError) where
  pub derived_ingredient-Reloads :
      (core other : DerivedCore V) (records : List (List ℕ))
      → RoundTrips c
      → ReadsBack rc
      → Cells.IsStored c core
      → other.kind ≡ core.kind
      → other.kind_name ≡ core.kind_name
      → Derived.save_records_erased c rc bug core ≡ ok records
      → let j = derived_ingredient c kc rc bug other in
        Reloads (derived_ingredient c kc rc bug core) j (load_into records (cleared j)).1
  derived_ingredient-Reloads core other records r rr s kind name p =
      loads-Reloads (derived_ingredient c kc rc bug core) (derived_ingredient c kc rc bug other)
        records (sym kind, sym name, refl) p
        (load-save_cells c rc bug core other records r rr s kind p).0

  pub derived_ingredient-CatchesUp :
      (since : ℕ) (core base : DerivedCore V) (changes : List (ℕ × List ℕ × Option (List ℕ)))
      → RoundTrips c
      → ReadsBack kc
      → ReadsBack rc
      → Cells.IsStored c core
      → base.kind ≡ core.kind
      → Logged.save_incremental_records_erased c kc rc bug since core ≡ ok changes
      → let j = derived_ingredient c kc rc bug base in
        CatchesUp since
          (derived_ingredient c kc rc bug core)
          j
          (with_state j (apply_changes c kc rc bug changes base).1)
  derived_ingredient-CatchesUp since core base changes r rk rr s kind p =
      let j = derived_ingredient c kc rc bug base in
      applies-CatchesUp since (derived_ingredient c kc rc bug core) j
        (with_state j (apply_changes c kc rc bug changes base).1) changes (sym kind) p
        (try_each-apply_to changes j base
          ∙ ap (λ q. (q, with_state j (apply_changes c kc rc bug changes base).1))
              (apply-save_changes c kc rc bug since core base changes r rk rr s kind p).0)
