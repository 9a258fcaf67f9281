-- ===== src/Input/Changes.antt =====
-- What changes an input: when the revision moves, and what the entry then is.
use picante.Base.{
  ◌+◌, ◌^◌, ◌<◌, ◌≡◌, refl, ap, ◌∙◌, Bool, true, Option, none, some, arith, if◌then◌else◌, inl, inr,
  Option-cases, ◌⊎◌,
}
use picante.Base.Table
use picante.Base.Table.{get-insert}
use picante.Key.{Revision, QueryKindId, DynKey, Key, dyn_key_eq, dyn_key_beq}
use picante.Runtime.{
  Runtime, current_revision, bump_revision, mark_divergent, notify_input_set, notify_input_removed,
  propagate_invalidation,
}
use picante.Runtime.Invalidation.{propagate_invalidation_lem}
use picante.Input.Defs.{
  InputEntry, InputCore, Host, advance, unchanged, set_at, already_removed, remove_at, value_of,
  revision_0,
}

-- Sending an invalidation changes nothing but the events.
current-propagate :
    (rev : Revision) (source : DynKey) (rt : Runtime)
    → (propagate_invalidation rev source rt).current ≡ rt.current
current-propagate rev source rt =
    let (ks, e, d, i) = propagate_invalidation_lem rev source rt in rw e

current-notify_input_set :
    (rev : Revision) (kind : QueryKindId) (key : Key) (rt : Runtime)
    → (notify_input_set rev kind key rt).current ≡ rt.current
unfolding notify_input_set
current-notify_input_set rev kind key rt = current-propagate rev _ _

current-notify_input_removed :
    (rev : Revision) (kind : QueryKindId) (key : Key) (rt : Runtime)
    → (notify_input_removed rev kind key rt).current ≡ rt.current
unfolding notify_input_removed
current-notify_input_removed rev kind key rt = current-propagate rev _ _

advance_lem :
    (host : Host)
    → host.runtime.current + 1 < 2 ^ 64
    → ((advance host).0.num ≡ host.runtime.current + 1)
      × ((advance host).1.runtime.current ≡ (advance host).0.num)
unfolding advance bump_revision mark_divergent
advance_lem host small = (omega arith, ground arith)

module _ {ℓ} {V : Type ℓ} where
  -- An operation that changes nothing: it returns the entry's revision.
  abbrev pub Kept : Revision → InputEntry V → (InputCore V × Host) → (InputCore V × Host) → Type ℓ
  Kept rev e before after = (rev ≡ e.changed_at) × (after ≡ before)

  -- An operation that writes: it advances the revision by one, returns it, and leaves every other
  -- key alone.
  abbrev pub Written :
      DynKey → Option V → Revision → (InputCore V × Host) → (InputCore V × Host) → Type ℓ
  Written k value rev (core, host) (core', host') =
      (rev.num ≡ host.runtime.current + 1)
      × (current_revision host'.runtime ≡ rev)
      × (core'.kind ≡ core.kind)
      × ((j : DynKey)
          → Table.get core'.entries j ≡ (
              if dyn_key_beq k j
              then some (record { value = value; changed_at = rev })
              else Table.get core.entries j))

  unchanged-some :
      (facet_eq : V → V → Bool) (o : Option (InputEntry V)) (value : V) (rev : Revision)
      → unchanged facet_eq o value ≡ some rev
      → (e : InputEntry V) × (old : V) × (o ≡ some e)
        × (e.value ≡ some old)
        × (facet_eq old value ≡ true)
        × (rev ≡ e.changed_at)
  unfolding unchanged
  unchanged-some facet_eq none value rev h = ground arith
  unchanged-some facet_eq (some e) value rev h = elim (Option-cases e.value) [
    | inl q ↦ ground (arith, q)
    | inr (old, q) ↦ (e, old, refl, q, ground (arith, q), ground (arith, q))
  ]

  -- A set at a key either finds an equal value and changes nothing, or writes the value.
  pub set_at_lem :
      (facet_eq : V → V → Bool) (k : DynKey) (value : V) (core : InputCore V) (host : Host)
      → host.runtime.current + 1 < 2 ^ 64
      → let (rev, core', host') = set_at facet_eq k value core host in
        ((e : InputEntry V) × (old : V) × (Table.get core.entries k ≡ some e)
          × (e.value ≡ some old)
          × (facet_eq old value ≡ true)
          × Kept rev e (core, host) (core', host'))
        ⊎ ((unchanged facet_eq (Table.get core.entries k) value ≡ none)
            × Written k (some value) rev (core, host) (core', host'))
  unfolding set_at current_revision
  set_at_lem facet_eq k value core host small =
      elim (Option-cases (unchanged facet_eq (Table.get core.entries k) value)) [
        | inr (rev, p) ↦
            let (e, old, q, r, s, t) =
              unchanged-some facet_eq (Table.get core.entries k) value rev p in
            rw (p, set_at) (inl (e, old, q, r, s, (t, refl)))
        | inl p ↦
            let a = advance_lem host small in
            let c =
              current-notify_input_set (advance host).0 core.kind k.key (advance host).1.runtime in
            rw (p, set_at)
              (inr (
                refl,
                (
                  a.0,
                  ap (λ n. record { num = n }) (c ∙ a.1),
                  refl,
                  λ j.
                      get-insert core.entries k j
                        (record { value = some value; changed_at = (advance host).0 }),
                ),
              ))
      ]

  abbrev pub revision_of : Option (InputEntry V) → Revision
  revision_of none = revision_0
  revision_of (some e) = e.changed_at

  already_removed_lem :
      (o : Option (InputEntry V))
      → ((value_of o ≡ none) × (already_removed o ≡ some (revision_of o)))
        ⊎ ((old : V) × (value_of o ≡ some old) × (already_removed o ≡ none))
  unfolding already_removed
  already_removed_lem none = inl (refl, refl)
  already_removed_lem (some e) = elim (Option-cases e.value) [
    | inl p ↦ inl (p, ground (arith, p))
    | inr (old, p) ↦ inr (old, p, ground (arith, p))
  ]

  -- A removal at a key changes nothing if there is no value, and returns the entry's revision, or
  -- zero where there is no entry; otherwise it writes an entry with no value.
  pub remove_at_lem :
      (k : DynKey) (core : InputCore V) (host : Host)
      → host.runtime.current + 1 < 2 ^ 64
      → let (rev, core', host') = remove_at k core host in
        ((value_of (Table.get core.entries k) ≡ none)
          × (rev ≡ revision_of (Table.get core.entries k))
          × (core' ≡ core)
          × (host' ≡ host))
        ⊎ ((old : V) × (value_of (Table.get core.entries k) ≡ some old)
            × Written k none rev (core, host) (core', host'))
  unfolding remove_at current_revision
  remove_at_lem k core host small = elim (already_removed_lem (Table.get core.entries k)) [
    | inl (p, q) ↦ rw (q, remove_at) (inl (p, refl, refl, refl))
    | inr (old, p, q) ↦
        let a = advance_lem host small in
        let c =
          current-notify_input_removed (advance host).0 core.kind k.key (advance host).1.runtime in
        rw (q, remove_at)
          (inr (
            old,
            p,
            (
              a.0,
              ap (λ n. record { num = n }) (c ∙ a.1),
              refl,
              λ j.
                  get-insert core.entries k j
                    (record { value = none; changed_at = (advance host).0 }),
            ),
          ))
  ]
