-- ===== src/Input/Writes.antt =====
-- Sets and removals keep an input ready to be saved.
use picante.Base.{◌≡◌, refl, none, some, Option, inl, inr, Bool, Option-cases}
use picante.Base.Results.{ok, Result-cases}
use picante.Base.Table
use picante.Base.Table.{Table, get-insert, AreDistinct-insert}
use picante.Key.{Revision, DynKey, Hasher, Codec, dyn_key_eq}
use picante.Encoding.{encode_facet, AreEncoded-insert}
use picante.Input.Defs.{
  InputCore, Host, set, set_at, remove, remove_at, dyn_key_of, unchanged, already_removed,
  write_entry,
}
use picante.Input.Stored.{IsStored}

module _ {K V : Type 0} ⦃h : Hasher⦄ (c : Codec K) where
  write_entry-IsStored :
      (k : DynKey) (value : Option V) (rev : Revision) (core : InputCore V) (key : K)
      → encode_facet c key ≡ ok k.key
      → k.kind ≡ core.kind
      → IsStored c core
      → IsStored c (write_entry k value rev core)
  unfolding write_entry
  write_entry-IsStored k value rev core key enc same s = record {
    distinct = AreDistinct-insert core.entries k _ s.distinct;
    encoded = AreEncoded-insert c core.kind core.entries k _ key enc same s.encoded;
  }

  -- A set through the typed interface keeps the keys distinct encodings of the ingredient's kind.
  pub set-IsStored :
      (facet_eq : V → V → Bool) (key : K) (value : V) (core : InputCore V) (host : Host)
      → IsStored c core
      → IsStored c (set c facet_eq key value core host).1
  unfolding set dyn_key_of set_at
  set-IsStored facet_eq key value core host s = elim (Result-cases (encode_facet c key)) [
    | inr (e, p) ↦ rw (p, set, dyn_key_of) s
    | inl (k, p) ↦
        let at : DynKey = record { kind = core.kind; key = k } in
        elim (Option-cases (unchanged facet_eq (Table.get core.entries at) value)) [
          | inr (rev, q) ↦ rw (p, set, dyn_key_of, set_at, q) s
          | inl q ↦
              rw (p, set, dyn_key_of, set_at, q)
                (write_entry-IsStored at (some value) _ core key p refl s)
        ]
  ]

  -- So does a removal.
  pub remove-IsStored :
      (key : K) (core : InputCore V) (host : Host)
      → IsStored c core
      → IsStored c (remove c key core host).1
  unfolding remove dyn_key_of remove_at
  remove-IsStored key core host s = elim (Result-cases (encode_facet c key)) [
    | inr (e, p) ↦ rw (p, remove, dyn_key_of) s
    | inl (k, p) ↦
        let at : DynKey = record { kind = core.kind; key = k } in
        elim (Option-cases (already_removed (Table.get core.entries at))) [
          | inr (rev, q) ↦ rw (p, remove, dyn_key_of, remove_at, q) s
          | inl q ↦
              rw (p, remove, dyn_key_of, remove_at, q)
                (write_entry-IsStored at none _ core key p refl s)
        ]
  ]
