-- ===== src/Examples/Storage.antt =====
-- A file system in memory, and a codec of cache files.
use text.Mathlib.Text.{◌==◌ as text_beq}
use text.Mathlib.TextEquality.{eq_iff}
use picante.Base.{
  ℕ, suc, ◌≡◌, refl, ap, sym, Bool, true, false, ◌&&◌, List, [], ◌∷◌, Option, none, some, String,
  arith, inl, inr, ◌==◌, ◌≢◌, ◌∙◌, if◌then◌else◌, Bool-cases,
}
use picante.Base.Eq.{nat_eq}
use picante.Base.Table
use picante.Base.Table.{Table, get-insert, get-remove}
use picante.Base.Results.{Result, ok, err}
use picante.Key.{Codec, RoundTrips}
use picante.Persist.{CacheFile, Section, SectionType, input, derived, interned, section_type_beq}
use picante.Persist.Files.{FileSystem, Behaves, ReadResult, found, not_found}
use picante.Persist.Untouched.{KeepsOthers}
use picante.Key.{dyn_key_eq}
use picante.Examples.Data.{small_hasher}

-- A file system: paths are numbers.
abbrev pub Files : Type 0
Files = Table ℕ (List ℕ)

abbrev read_file : Option (List ℕ) → ReadResult
read_file none = not_found
read_file (some bytes) = found bytes

abbrev is_there : Option (List ℕ) → Bool
is_there none = false
is_there (some bytes) = true

abbrev move : ℕ → Files → Option (List ℕ) → Result String (Unit {0}) × Files
move q fs none = (err "no such file", fs)
move q fs (some bytes) = (ok tt, Table.insert fs q bytes)

abbrev pub files : FileSystem ℕ Files
files = record {
  read = λ p fs. read_file (Table.get fs p);
  create_dir_all = λ p fs. (ok tt, fs);
  write = λ p bytes fs. (ok tt, Table.insert fs p bytes);
  rename = λ p q fs. move q fs (Table.get fs p);
  remove_file = λ p fs. (ok tt, Table.remove fs p);
  exists = λ p fs. is_there (Table.get fs p);
  parent = λ p. none;
  with_extension_tmp = λ p. suc p;
  compact_tmp = λ p. suc (suc p);
}

move-ok :
    (q : ℕ) (fs : Files) (o : Option (List ℕ))
    → (move q fs o).0 ≡ ok tt
    → read_file (Table.get (move q fs o).1 q) ≡ read_file o
move-ok q fs none h = ground (arith, h)
move-ok q fs (some bytes) h = rw (get-insert fs q q bytes) (ground arith)

move-err :
    (q r : ℕ) (fs : Files) (o : Option (List ℕ)) (e : String)
    → (move q fs o).0 ≡ err e
    → Table.get (move q fs o).1 r ≡ Table.get fs r
move-err q r fs none e h = refl
move-err q r fs (some bytes) e h = ground (arith, h)

pub files-Behaves : Behaves files
files-Behaves = record {
  read-write = λ p bytes fs h. rw (get-insert fs p p bytes) (ground arith);
  write_other = λ p q bytes fs h.
      let other : (p == q) ≡ false = ground (arith, h) in rw (get-insert fs p q bytes, other) refl;
  read-rename = λ p q fs h. move-ok q fs (Table.get fs p) h;
  rename_failed = λ p q r fs e h. ap read_file (move-err q r fs (Table.get fs p) e h);
  create_dir_parent = λ p d fs h. refl;
}

move-other :
    (q r : ℕ) (fs : Files) (o : Option (List ℕ))
    → q ≢ r
    → Table.get (move q fs o).1 r ≡ Table.get fs r
move-other q r fs none h = refl
move-other q r fs (some bytes) h =
    let other : (q == r) ≡ false = ground (arith, h) in rw (get-insert fs q r bytes, other) refl

pub files-KeepsOthers : KeepsOthers files
files-KeepsOthers = record {
  create_dir_keeps = λ d q fs bytes h. h;
  rename_other = λ p q r fs _ h. ap read_file (move-other q r fs (Table.get fs p) h);
  remove_other = λ p q fs h.
      let other : (p == q) ≡ false = ground (arith, h) in rw (get-remove fs p q, other) refl;
  exists-remove = λ p fs h.
      let gone : Table.get (Table.remove fs p) p ≡ none = rw (get-remove fs p p) (ground arith) in
      ap is_there gone;
}

-- Files of two sections, of an input `a` and a query `b`, with one record each.
abbrev is_a_b : Section → Section → Bool
is_a_b s t =
    (text_beq s.kind_name "a" && section_type_beq s.section_type input)
    && (text_beq t.kind_name "b" && section_type_beq t.section_type derived)

abbrev with_records : ℕ → ℕ → ℕ → ℕ → List (List ℕ) → List (List ℕ) → Result String (List ℕ)
with_records v r i j ((a ∷ b ∷ c ∷ []) ∷ []) ((d ∷ e ∷ f ∷ g ∷ h ∷ k ∷ []) ∷ []) =
    ok (v ∷ r ∷ i ∷ j ∷ a ∷ b ∷ c ∷ d ∷ e ∷ f ∷ g ∷ h ∷ k ∷ [])
with_records v r i j _ _ = err "other records"

abbrev file_bytes : ℕ → ℕ → List Section → Result String (List ℕ)
file_bytes v r (s ∷ t ∷ []) =
    if is_a_b s t
    then with_records v r s.kind_id t.kind_id s.records t.records
    else err "other sections"
file_bytes v r _ = err "not two sections"

abbrev file_at : List ℕ → Result String CacheFile
file_at (v ∷ r ∷ i ∷ j ∷ a ∷ b ∷ c ∷ d ∷ e ∷ f ∷ g ∷ h ∷ k ∷ []) = ok (record {
  format_version = v;
  current_revision = r;
  sections =
      record { kind_id = i; kind_name = "a"; section_type = input; records = (a ∷ b ∷ c ∷ []) ∷ [] }
      ∷ record {
        kind_id = j;
        kind_name = "b";
        section_type = derived;
        records = (d ∷ e ∷ f ∷ g ∷ h ∷ k ∷ []) ∷ [];
      }
      ∷ [];
})
file_at _ = err "bad file"

abbrev pub cache_codec : Codec CacheFile
cache_codec = record {
  to_vec = λ f. file_bytes f.format_version f.current_revision f.sections;
  from_slice = file_at;
}

abbrev named : ℕ → String → SectionType → List (List ℕ) → Section
named i name type records = record {
  kind_id = i;
  kind_name = name;
  section_type = type;
  records = records;
}

file_at-with_records :
    (v r i j : ℕ) (xs ys : List (List ℕ)) (bytes : List ℕ)
    → with_records v r i j xs ys ≡ ok bytes
    → file_at bytes
      ≡ ok (record {
        format_version = v;
        current_revision = r;
        sections = named i "a" input xs ∷ named j "b" derived ys ∷ [];
      })
file_at-with_records v r i j ((a ∷ b ∷ c ∷ []) ∷ []) ((d ∷ e ∷ f ∷ g ∷ h ∷ k ∷ []) ∷ []) bytes p =
    let same : v ∷ r ∷ i ∷ j ∷ a ∷ b ∷ c ∷ d ∷ e ∷ f ∷ g ∷ h ∷ k ∷ [] ≡ bytes = ground (arith, p) in
    rw⁻¹ same refl
file_at-with_records v r i j xs ys bytes p = ground (arith, p)

is_input : (t : SectionType) → section_type_beq t input ≡ true → t ≡ input
is_input input h = refl
is_input derived h = ground (arith, h)
is_input interned h = ground (arith, h)

is_derived : (t : SectionType) → section_type_beq t derived ≡ true → t ≡ derived
is_derived derived h = refl
is_derived input h = ground (arith, h)
is_derived interned h = ground (arith, h)

named-same :
    (s : Section) (name : String) (type : SectionType)
    → s.kind_name ≡ name
    → s.section_type ≡ type
    → named s.kind_id name type s.records ≡ s
named-same s name type p q =
    ap (λ n. named s.kind_id n type s.records) (sym p)
    ∙ ap (λ t. named s.kind_id s.kind_name t s.records) (sym q)

file_at-file_bytes :
    (v r : ℕ) (ss : List Section) (bytes : List ℕ)
    → file_bytes v r ss ≡ ok bytes
    → file_at bytes ≡ ok (record { format_version = v; current_revision = r; sections = ss })
file_at-file_bytes v r [] bytes p = ground (arith, p)
file_at-file_bytes v r (s ∷ []) bytes p = ground (arith, p)
file_at-file_bytes v r (s ∷ t ∷ u ∷ ss) bytes p = ground (arith, p)
file_at-file_bytes v r (s ∷ t ∷ []) bytes p = elim (Bool-cases (is_a_b s t)) [
  | inr q ↦ ground (arith, p, q)
  | inl q ↦
      let a : s.kind_name ≡ "a" = (eq_iff s.kind_name "a").0 (ground (arith, q)) in
      let b : t.kind_name ≡ "b" = (eq_iff t.kind_name "b").0 (ground (arith, q)) in
      let i = is_input s.section_type (ground (arith, q)) in
      let d = is_derived t.section_type (ground (arith, q)) in
      file_at-with_records v r s.kind_id t.kind_id s.records t.records bytes (ground (arith, p, q))
      ∙ rw (named-same s "a" input a i, named-same t "b" derived b d) refl
]

pub cache_codec-RoundTrips : RoundTrips cache_codec
cache_codec-RoundTrips = record {
  back = λ f bytes p. file_at-file_bytes f.format_version f.current_revision f.sections bytes p;
}
