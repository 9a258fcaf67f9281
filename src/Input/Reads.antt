-- ===== src/Input/Reads.antt =====
-- An input is a map from keys to values: every history of sets and removals refines updates of that
-- map, and the revision counts the updates that changed it.
use picante.Base.{
  ◌+◌, ◌<◌, ◌^◌, ◌≡◌, ap, Bool, true, false, not, Option, none, some, arith, if◌then◌else◌, inl,
  inr,
}
use picante.Base.Table
use picante.Base.Table.{get-insert, get-eq}
use picante.Key.{Revision, DynKey, dyn_key_eq, dyn_key_beq}
use picante.Runtime.{current_revision}
use picante.Input.Defs.{InputCore, Host, unchanged, set_at, remove_at, value_of}
use picante.Input.Changes.{set_at_lem, remove_at_lem}

pub data Change {ℓ} (V : Type ℓ) : Type ℓ where
  sets : DynKey → V → Change V
  removes : DynKey → Change V

abbrev pub View {ℓ} : Type ℓ → Type ℓ
View V = DynKey → Option V

module _ {ℓ} {V : Type ℓ} where
  abbrev pub view : InputCore V → View V
  view core k = value_of (Table.get core.entries k)

  -- The abstract update.
  abbrev pub updated : View V → Change V → View V
  updated m (sets k v) j = if dyn_key_beq k j then some v else m j
  updated m (removes k) j = if dyn_key_beq k j then none else m j

  -- Whether a change changes the map.
  abbrev pub is_effective : (V → V → Bool) → View V → Change V → Bool
  is_effective facet_eq m (sets k v) = elim (m k) [ none ↦ true | some old ↦ not (facet_eq old v) ]
  is_effective facet_eq m (removes k) = elim (m k) [ none ↦ false | some old ↦ true ]

  unfoldable pub perform :
      (V → V → Bool) → Change V → InputCore V → Host → Revision × InputCore V × Host
  perform facet_eq (sets k v) core host = set_at facet_eq k v core host
  perform facet_eq (removes k) core host = remove_at k core host

  -- The result and revision of one change, in terms of the map.
  pub perform_lem :
      (facet_eq : V → V → Bool)
      → ((a b : V) → facet_eq a b ≡ true → a ≡ b)
      → (op : Change V) (core : InputCore V) (host : Host) → host.runtime.current + 1 < 2 ^ 64
      → let (rev, core', host') = perform facet_eq op core host in
        ((j : DynKey) → view core' j ≡ updated (view core) op j)
        × (host'.runtime.current
            ≡ host.runtime.current + (if is_effective facet_eq (view core) op then 1 else 0))
  unfolding perform current_revision unchanged
  perform_lem facet_eq sound (sets k v) core host small =
      elim (set_at_lem facet_eq k v core host small) [
        | inl (e, old, p, q, r, (s, t)) ↦ (
          λ j. ground (arith, sound old v, ap (λ c. view c.0 j) t, get-eq core.entries k j),
          ground (arith, ap (λ c. c.1.runtime.current) t),
        )
        | inr (n, (p, q, r, w)) ↦
            (λ j. ground (arith, w j), ground (arith, n, p, ap (λ (r : Revision). r.num) q))
      ]
  perform_lem facet_eq sound (removes k) core host small = elim (remove_at_lem k core host small) [
    | inl (p, q, r, s) ↦ (λ j. ground (arith, r, get-eq core.entries k j), ground (arith, p, s))
    | inr (old, p, (x, y, z, w)) ↦
        (λ j. ground (arith, w j), ground (arith, p, x, ap (λ (r : Revision). r.num) y))
  ]
