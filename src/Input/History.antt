-- ===== src/Input/History.antt =====
-- Histories of sets and removals, reads through the typed interface, and the bound on revisions.
use mathlib.Core.Path.{fun_ext}
use picante.Base.{
  ℕ, ◌+◌, ◌≤◌, ◌<◌, ◌^◌, ◌≡◌, refl, ap, ◌∙◌, Bool, true, some, List, [], ◌∷◌, arith, length,
  if◌then◌else◌, inl, inr,
}
use picante.Base.Results.{ok, err, Result-cases}
use picante.Base.Table
use picante.Base.Table.{get-insert, get-eq}
use picante.Key.{Revision, DynKey, dyn_key_eq, dyn_key_beq, Hasher, Codec}
use picante.Encoding.{encode_facet}
use picante.Frame.{Stack}
use picante.Runtime.{current_revision}
use picante.Input.Defs.{InputEntry, InputCore, Host, set_at, set, dyn_key_of, get}
use picante.Input.Changes.{set_at_lem, remove_at_lem}
use picante.Input.Reads.{
  Change, sets, removes, View, view, updated, is_effective, perform, perform_lem,
}

module _ {ℓ} {V : Type ℓ} (facet_eq : V → V → Bool) where
  unfoldable pub run : List (Change V) → InputCore V → Host → InputCore V × Host
  run [] core host = (core, host)
  run (op ∷ ops) core host =
      let (rev, core', host') = perform facet_eq op core host in run ops core' host'

  -- What the history does to the map, and how many of its changes change it.
  abbrev pub final : List (Change V) → View V → View V
  final [] m = m
  final (op ∷ ops) m = final ops (updated m op)

  abbrev pub effective : List (Change V) → View V → ℕ
  effective [] m = 0
  effective (op ∷ ops) m =
      (if is_effective facet_eq m op then 1 else 0) + effective ops (updated m op)

  final-cong :
      (ops : List (Change V)) (m n : View V)
      → ((j : DynKey) → m j ≡ n j)
      → ((j : DynKey) → final ops m j ≡ final ops n j) × (effective ops m ≡ effective ops n)
  final-cong ops m n h =
      let e = fun_ext h in ((λ j. ap (λ v. final ops v j) e), ap (effective ops) e)

  -- After any history an input holds the map that the updates give, and the revision has advanced
  -- once for each change of the map: setting an equal value and removing what is not there are free.
  pub run_lem :
      ((a b : V) → facet_eq a b ≡ true → a ≡ b)
      → (ops : List (Change V)) (core : InputCore V) (host : Host)
      → host.runtime.current + length ops < 2 ^ 64
      → let (core', host') = run ops core host in
        ((j : DynKey) → view core' j ≡ final ops (view core) j)
        × (host'.runtime.current ≡ host.runtime.current + effective ops (view core))
  unfolding run
  run_lem sound [] core host small = (λ j. refl, omega arith)
  run_lem sound (op ∷ ops) core host small =
      let one = perform_lem facet_eq sound op core host (omega arith) in
      let core' : InputCore V = (perform facet_eq op core host).1 in
      let host' : Host = (perform facet_eq op core host).2 in
      let same = final-cong ops (view core') (updated (view core) op) one.0 in
      let rest = run_lem sound ops core' host' (ground (arith, one.1)) in
      (λ j. rest.0 j ∙ same.0 j, omega (arith, rest.1, same.1, one.1))

  -- Every entry was changed at a revision that the runtime has reached.
  pub record IsRecorded (core : InputCore V) (host : Host) : Type ℓ where
    pub reached :
        (k : DynKey) (e : InputEntry V)
        → Table.get core.entries k ≡ some e
        → e.changed_at.num ≤ host.runtime.current

  -- A change keeps every entry's revision within the runtime's.
  pub perform-IsRecorded :
      (op : Change V) (core : InputCore V) (host : Host)
      → IsRecorded core host
      → host.runtime.current + 1 < 2 ^ 64
      → let (rev, core', host') = perform facet_eq op core host in IsRecorded core' host'
  unfolding perform current_revision
  perform-IsRecorded (sets k v) core host h small = record {
    reached = λ j e p. elim (set_at_lem facet_eq k v core host small) [
      | inl (_, _, _, _, _, (_, t)) ↦ ground (
        arith,
        ap (λ c. Table.get c.0.entries j) t,
        ap (λ c. c.1.runtime.current) t,
        h.reached j e,
      )
      | inr (_, (p', q, _, w)) ↦
          ground (arith, w j, p', ap (λ (r : Revision). r.num) q, h.reached j e)
    ];
  }
  perform-IsRecorded (removes k) core host h small = record {
    reached = λ j e p. elim (remove_at_lem k core host small) [
      | inl (_, _, r, s) ↦ ground (
        arith,
        ap (λ (c : InputCore V). Table.get c.entries j) r,
        ap (λ (c : Host). c.runtime.current) s,
        h.reached j e,
      )
      | inr (_, _, (p', q, _, w)) ↦
          ground (arith, w j, p', ap (λ (r : Revision). r.num) q, h.reached j e)
    ];
  }

module _ {ℓ} {K : Type 0} {V : Type ℓ} ⦃h : Hasher⦄ (c : Codec K) (facet_eq : V → V → Bool) where
  set-eq-set_at :
      (key : K) (k : DynKey) (value : V) (core : InputCore V) (host : Host)
      → dyn_key_of c core key ≡ ok k
      → set c facet_eq key value core host ≡ set_at facet_eq k value core host
  unfolding set
  set-eq-set_at key k value core host e = rw (e, set)

  kind-set_at :
      (k : DynKey) (value : V) (core : InputCore V) (host : Host)
      → (set_at facet_eq k value core host).1.kind ≡ core.kind
  unfolding set_at
  kind-set_at k value core host = ground arith

  -- What a read returns depends on the kind and on the map alone.
  fst-get :
      (j : K) (core : InputCore V) (stack : Stack)
      → (get c j core stack).0 ≡ (elim (encode_facet c j) [
        | err e ↦ err e
        | ok i ↦ ok (view core (record { kind = core.kind; key = i }))
      ])
  unfolding get dyn_key_of
  fst-get j core stack = ground arith

  -- Let the comparison of values answer true on equal values only, which the structural comparison of
  -- the source does not for types with fields that it skips, let the key encode, and let the revision stay
  -- within u64. Then a read after a set returns the value for the keys that are equal to the one
  -- set, and what it returned before for the others; keys that do not encode give their error.
  pub get-set :
      ((a b : V) → facet_eq a b ≡ true → a ≡ b)
      → (key j : K) (k : DynKey) (value : V) (core : InputCore V) (host : Host) (stack : Stack)
      → dyn_key_of c core key ≡ ok k
      → host.runtime.current + 1 < 2 ^ 64
      → (get c j (set c facet_eq key value core host).1 stack).0 ≡ (elim (dyn_key_of c core j) [
        | err e ↦ err e
        | ok i ↦ ok (if dyn_key_beq k i then some value else view core i)
      ])
  unfolding dyn_key_of
  get-set sound key j k value core host stack e small =
      let one = perform_lem facet_eq sound (sets k value) core host small in
      rw
        (
          set-eq-set_at key k value core host e,
          fst-get j (set_at facet_eq k value core host).1 stack,
        )
        (elim (Result-cases (encode_facet c j)) [
          | inr (m, p) ↦ rw p
          | inl (i, p) ↦
              rw (p, kind-set_at k value core host)
                (ap ok (unfold perform in one.0 (record { kind = core.kind; key = i })))
        ])
