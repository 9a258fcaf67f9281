-- ===== src/Input/Defs.antt =====
-- The state of an input ingredient and its operations. `set` and `remove` act on the database's
-- runtime too, with the counter of runtime ids: a `Host`. `get` acts on the task's frame stack.
use picante.Base.{ℕ, Bool, Option, none, some, String, [], if◌then◌else◌}
use picante.Base.Results.{ok, err, ◌>>=◌}
use picante.Base.Table
use picante.Base.Table.{Table}
use picante.Key.{Revision, QueryKindId, Key, DynKey, Hasher, Codec, dyn_key_eq}
use picante.Encoding.{encode_facet}
use picante.Error.{PicanteResult}
use picante.Frame.{Stack, has_active_frame, record_dep}
use picante.Runtime.{Runtime, bump_revision, mark_divergent, notify_input_set, notify_input_removed}

-- A removed value leaves an entry with no value.
pub record InputEntry {ℓ} (V : Type ℓ) : Type ℓ where
  pub value : Option V
  pub changed_at : Revision

pub record InputCore {ℓ} (V : Type ℓ) : Type ℓ where
  pub kind : QueryKindId
  pub kind_name : String
  pub entries : Table DynKey (InputEntry V)

pub record Host : Type 0 where
  pub runtime : Runtime
  pub counter : ℕ

-- db.rs
pub record Touch : Type 0 where
  pub changed_at : Revision

abbrev pub revision_0 : Revision
revision_0 = record { num = 0 }

unfoldable pub new {ℓ} : {V : Type ℓ} → QueryKindId → String → InputCore V
new kind kind_name = record { kind = kind; kind_name = kind_name; entries = [] }

-- `bump_revision` and `mark_divergent`, which every change makes in a row.
unfoldable pub advance : Host → Revision × Host
advance host =
    let (rev, rt) = bump_revision host.runtime in
    let (rt', counter') = mark_divergent rt host.counter in
    (rev, record { runtime = rt'; counter = counter' })

module _ {ℓ} {V : Type ℓ} where
  -- The revision of an entry that holds this value already.
  unfoldable pub unchanged : (V → V → Bool) → Option (InputEntry V) → V → Option Revision
  unchanged facet_eq none value = none
  unchanged facet_eq (some e) value = elim e.value [
    | none ↦ none
    | some existing ↦ if facet_eq existing value then some e.changed_at else none
  ]

  unfoldable pub write_entry : DynKey → Option V → Revision → InputCore V → InputCore V
  write_entry k value rev core = record core {
    entries = Table.insert core.entries k (record { value = value; changed_at = rev });
  }

  -- `set` behind the encoding of the key.
  unfoldable pub set_at :
      (V → V → Bool) → DynKey → V → InputCore V → Host → Revision × InputCore V × Host
  unfolding unchanged write_entry
  set_at facet_eq k value core host = elim (unchanged facet_eq (Table.get core.entries k) value) [
    | some changed_at ↦ (changed_at, core, host)
    | none ↦
        let (rev, host') = advance host in
        (
          rev,
          write_entry k (some value) rev core,
          record host' { runtime = notify_input_set rev core.kind k.key host'.runtime },
        )
  ]

  -- What `remove` returns without a change: `none` if there is a value to remove.
  unfoldable pub already_removed : Option (InputEntry V) → Option Revision
  already_removed none = some revision_0
  already_removed (some e) = elim e.value [ none ↦ some e.changed_at | some existing ↦ none ]

  unfoldable pub remove_at : DynKey → InputCore V → Host → Revision × InputCore V × Host
  unfolding already_removed write_entry
  remove_at k core host = elim (already_removed (Table.get core.entries k)) [
    | some changed_at ↦ (changed_at, core, host)
    | none ↦
        let (rev, host') = advance host in
        (
          rev,
          write_entry k none rev core,
          record host' { runtime = notify_input_removed rev core.kind k.key host'.runtime },
        )
  ]

  abbrev pub value_of : Option (InputEntry V) → Option V
  value_of none = none
  value_of (some e) = e.value

module _ {ℓ} {K : Type 0} {V : Type ℓ} ⦃h : Hasher⦄ (c : Codec K) where
  unfoldable pub dyn_key_of : InputCore V → K → PicanteResult DynKey
  dyn_key_of core key = do k ← encode_facet c key; ok (record { kind = core.kind; key = k })

  unfoldable pub set : (V → V → Bool) → K → V → InputCore V → Host → Revision × InputCore V × Host
  unfolding dyn_key_of set_at
  set facet_eq key value core host = elim (dyn_key_of core key) [
    | err e ↦ (revision_0, core, host)
    | ok k ↦ set_at facet_eq k value core host
  ]

  unfoldable pub remove : K → InputCore V → Host → Revision × InputCore V × Host
  unfolding dyn_key_of remove_at
  remove key core host = elim (dyn_key_of core key) [
    | err e ↦ (revision_0, core, host)
    | ok k ↦ remove_at k core host
  ]

  unfoldable pub get : K → InputCore V → Stack → PicanteResult (Option V) × Stack
  unfolding dyn_key_of
  get key core stack = elim (dyn_key_of core key) [
    | err e ↦ (err e, stack)
    | ok k ↦ (
      ok (value_of (Table.get core.entries k)),
      (if has_active_frame stack
          then record_dep (record { kind = core.kind; key = k.key }) stack
          else stack),
    )
  ]

  unfoldable pub changed_at : K → InputCore V → Option Revision
  unfolding dyn_key_of
  changed_at key core = elim (dyn_key_of core key) [
    | err e ↦ none
    | ok k ↦ elim (Table.get core.entries k) [ none ↦ none | some e ↦ some e.changed_at ]
  ]

-- `DynIngredient::touch`
unfoldable pub touch {ℓ} : {V : Type ℓ} → Key → InputCore V → Touch
touch key core = elim (Table.get core.entries (record { kind = core.kind; key = key })) [
  | none ↦ record { changed_at = revision_0 }
  | some e ↦ record { changed_at = e.changed_at }
]
