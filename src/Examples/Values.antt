-- ===== src/Examples/Values.antt =====
-- Inputs, interned values and encoded keys on small numbers.
use picante.Base.{
  ℕ, ◌+◌, ◌≡◌, ◌≢◌, ◌⊎◌, refl, Bool, true, ◌==◌, List, [], ◌∷◌, arith, none, some, if◌then◌else◌,
  ==_iff,
}
use picante.Base.Results.{ok, err}
use picante.Base.Table
use picante.Base.Eq.{nat_eq}
use picante.Key.{
  Revision, Key, DynKey, dyn_key_eq, dyn_key_beq, key_beq, from_str, from_bytes, Codec,
}
use picante.Encoding.{encode_facet}
use picante.Runtime.{Runtime, current_revision}
use picante.Runtime as Rt
use picante.Input.{
  InputCore, InputEntry, Host, new, set_at, remove_at, unchanged, value_of, set, get, dyn_key_of,
}
use picante.Input.Changes.{set_at_lem, remove_at_lem, Kept, Written, revision_of}
use picante.Input.Reads.{Change, sets, removes, view}
use picante.Input.History.{run, run_lem, final, effective, get-set, IsRecorded}
use picante.Input.Isolation.{run-isolates}
use picante.Runtime.Revisions.{IdsBelow}
use picante.Interned.{InternId, Interned, intern}
use picante.Interned as Intern
use picante.Interned.Stability.{IsInterned, intern-IsInterned, new-IsInterned}
use picante.Examples.Data.{small_hasher, byte_codec, kind_a, kind_b, key_of, a_key, b_key, rev_of}

abbrev five : ℕ
five = 5

abbrev six : ℕ
six = 6

abbrev same : ℕ → ℕ → Bool
same a b = a == b

same-eq : (a b : ℕ) → same a b ≡ true → a ≡ b
same-eq a b = (==_iff a b).0

abbrev no_inputs : InputCore ℕ
no_inputs = new kind_a "a"

abbrev host : Host
host = record { runtime = (Rt.new 1).0; counter = 2 }

-- Set 1 to 5 twice, then remove it: two changes.
abbrev changes : List (Change ℕ)
changes = sets (a_key 1) 5 ∷ sets (a_key 1) 5 ∷ removes (a_key 1) ∷ []

run_example :
    let (core', host') = run same changes no_inputs host in
    ((j : DynKey) → view core' j ≡ final same changes (view no_inputs) j)
    × (host'.runtime.current ≡ host.runtime.current + effective same changes (view no_inputs))
unfolding Rt.new
run_example = run_lem same same-eq changes no_inputs host (omega arith)

-- A snapshot of the database, before its first change.
abbrev snapshot_host : Host
snapshot_host = record { runtime = Rt.new_for_snapshot (record { num = 1 }); counter = 2 }

live-IdsBelow : IdsBelow 2 (Rt.new 1).0
unfolding Rt.new Rt.next_id
live-IdsBelow = record { id_below = omega arith; scope_below = omega arith }

run-isolates_example :
    let (core', host') = run same changes no_inputs snapshot_host in
    (run same changes no_inputs snapshot_host ≡ (no_inputs, snapshot_host))
    ⊎ (Rt.cache_scope_id host'.runtime ≢ Rt.cache_scope_id (Rt.new 1).0)
unfolding Rt.new_for_snapshot
run-isolates_example =
    run-isolates same changes no_inputs snapshot_host (Rt.new 1).0 refl refl (omega arith)
      live-IdsBelow

get-set_example :
    (get byte_codec 1 (set byte_codec same 1 five no_inputs host).1 none).0
    ≡ (elim (dyn_key_of byte_codec no_inputs 1) [
      | err e ↦ err e
      | ok i ↦ ok (if dyn_key_beq (a_key 1) i then some five else view no_inputs i)
    ])
unfolding Rt.new dyn_key_of encode_facet from_bytes picante.Key.stable_hash new
get-set_example =
    get-set byte_codec same same-eq 1 1 (a_key 1) five no_inputs host none refl (omega arith)

set_at_example :
    let (rev, core', host') = set_at same (a_key 1) five no_inputs host in
    ((e : InputEntry ℕ) × (old : ℕ) × (Table.get no_inputs.entries (a_key 1) ≡ some e)
      × (e.value ≡ some old)
      × (same old five ≡ true)
      × Kept rev e (no_inputs, host) (core', host'))
    ⊎ ((unchanged same (Table.get no_inputs.entries (a_key 1)) five ≡ none)
        × Written (a_key 1) (some five) rev (no_inputs, host) (core', host'))
unfolding Rt.new
set_at_example = set_at_lem same (a_key 1) five no_inputs host (omega arith)

-- The input after 5 was set at key 1.
abbrev one_input : InputCore ℕ
one_input = (set_at same (a_key 1) 5 no_inputs host).1

remove_at_example :
    let (rev, core', host') = remove_at (a_key 1) one_input host in
    ((value_of (Table.get one_input.entries (a_key 1)) ≡ none)
      × (rev ≡ revision_of (Table.get one_input.entries (a_key 1)))
      × (core' ≡ one_input)
      × (host' ≡ host))
    ⊎ ((old : ℕ) × (value_of (Table.get one_input.entries (a_key 1)) ≡ some old)
        × Written (a_key 1) none rev (one_input, host) (core', host'))
unfolding Rt.new
remove_at_example = remove_at_lem (a_key 1) one_input host (omega arith)

no_inputs-IsRecorded : IsRecorded same no_inputs host
unfolding new Table.get
no_inputs-IsRecorded = record { reached = λ k e p. cc }

-- 5 is interned, then 6.
abbrev empty_table : Interned ℕ
empty_table = Intern.new kind_b "b"

abbrev table_5 : Interned ℕ
table_5 = record {
  kind = kind_b;
  kind_name = "b";
  next_id = 1;
  by_value = (key_of 5, record { num = 0 }) ∷ [];
  by_id = (0, 5) ∷ [];
}

abbrev table_56 : Interned ℕ
table_56 = record {
  kind = kind_b;
  kind_name = "b";
  next_id = 2;
  by_value = (key_of 5, record { num = 0 }) ∷ (key_of 6, record { num = 1 }) ∷ [];
  by_id = (0, 5) ∷ (1, 6) ∷ [];
}

abbrev id_of : ℕ → InternId
id_of n = record { num = n }

abbrev id_codec : Codec InternId
id_codec = record {
  to_vec = λ i. ok (i.num ∷ []);
  from_slice =
      λ bytes. elim (picante.Examples.Data.byte_of bytes) [ ok n ↦ ok (id_of n) | err e ↦ err e ];
}

intern_5 : intern byte_codec five empty_table ≡ ok (id_of 0, table_5)
unfolding intern Intern.intern_at encode_facet from_bytes picante.Key.stable_hash Intern.new
    Table.get Table.insert
intern_5 = refl

intern_6 : intern byte_codec six table_5 ≡ ok (id_of 1, table_56)
unfolding intern Intern.intern_at encode_facet from_bytes picante.Key.stable_hash Intern.new
    Table.get Table.insert
intern_6 = refl

table_5-IsInterned : IsInterned byte_codec table_5
unfolding Intern.new
table_5-IsInterned =
    intern-IsInterned byte_codec five empty_table (id_of 0) table_5
      (new-IsInterned byte_codec kind_b "b") intern_5 (omega arith)
