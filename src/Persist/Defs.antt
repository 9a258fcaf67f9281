-- ===== src/Persist/Defs.antt =====
-- A cache file, and the records that are dropped to make it fit. The codec of the file is a parameter.
use picante.Base.{
  ℕ, zero, suc, ◌+◌, ◌-◌, Bool, true, false, Option, none, some, List, [], ◌∷◌, String, length, ltb,
  leb, if◌then◌else◌,
}
use picante.Base.Results.{ok, err, ◌>>=◌, map_err}
use picante.Key.{Codec}
use picante.Error.{PicanteResult, cache, encode}

pub data SectionType : Type 0 where
  input : SectionType
  derived : SectionType
  interned : SectionType

pub record Section : Type 0 where
  pub kind_id : ℕ
  pub kind_name : String
  pub section_type : SectionType
  pub records : List (List ℕ)

pub record CacheFile : Type 0 where
  pub format_version : ℕ
  pub current_revision : ℕ
  pub sections : List Section

abbrev pub section_type_beq : SectionType → SectionType → Bool
section_type_beq input input = true
section_type_beq derived derived = true
section_type_beq interned interned = true
section_type_beq _ _ = false

unfoldable pub encode_cache_file : Codec CacheFile → CacheFile → PicanteResult (List ℕ)
encode_cache_file c f = map_err (encode "cache file") (c.to_vec f)

-- The sums of the lengths of records.
unfoldable pub bytes_of : List (List ℕ) → ℕ
bytes_of [] = 0
bytes_of (r ∷ rs) = length r + bytes_of rs

unfoldable pub record_bytes : List Section → ℕ
unfolding bytes_of
record_bytes [] = 0
record_bytes (s ∷ ss) = bytes_of s.records + record_bytes ss

-- `sort_by_key(|r| r.len())`, which is stable.
unfoldable pub insert_by_len : List ℕ → List (List ℕ) → List (List ℕ)
insert_by_len r [] = r ∷ []
insert_by_len r (s ∷ rs) =
    let rest = insert_by_len r rs in if leb (length r) (length s) then r ∷ s ∷ rs else s ∷ rest

unfoldable pub sort_by_len : List (List ℕ) → List (List ℕ)
unfolding insert_by_len
sort_by_len [] = []
sort_by_len (r ∷ rs) = insert_by_len r (sort_by_len rs)

unfoldable pub sort_sections : List Section → List Section
unfolding sort_by_len
sort_sections [] = []
sort_sections (s ∷ ss) = record s { records = sort_by_len s.records } ∷ sort_sections ss

-- `records.last().map(|r| r.len())` and `records.pop()`
unfoldable pub last_len : List (List ℕ) → Option ℕ
last_len [] = none
last_len (r ∷ []) = some (length r)
last_len (r ∷ s ∷ rs) = last_len (s ∷ rs)

unfoldable pub pop : List (List ℕ) → List (List ℕ)
pop [] = []
pop (r ∷ []) = []
pop (r ∷ s ∷ rs) = r ∷ pop (s ∷ rs)

-- One round of the search of `drop_one_record`: the section with the longest last record.
unfoldable pub better : SectionType → ℕ → Section → Option (ℕ × ℕ) → Option (ℕ × ℕ)
unfolding last_len
better ty idx s best =
    if section_type_beq s.section_type ty
    then (elim (last_len s.records) [
      | none ↦ best
      | some len ↦ elim best [
        | none ↦ some (idx, len)
        | some (i, best_len) ↦ if ltb best_len len then some (idx, len) else some (i, best_len)
      ]
    ])
    else best

unfoldable pub best_section : SectionType → ℕ → List Section → Option (ℕ × ℕ) → Option (ℕ × ℕ)
unfolding better
best_section ty idx [] best = best
best_section ty idx (s ∷ ss) best = best_section ty (idx + 1) ss (better ty idx s best)

unfoldable pub pop_at : ℕ → List Section → List Section
unfolding pop
pop_at n [] = []
pop_at zero (s ∷ ss) = record s { records = pop s.records } ∷ ss
pop_at (suc n) (s ∷ ss) = s ∷ pop_at n ss

-- `none` where the source returns false.
unfoldable pub drop_one_record : SectionType → List Section → ℕ → Option (List Section × ℕ)
unfolding best_section pop_at
drop_one_record ty ss current = elim (best_section ty 0 ss none) [
  | none ↦ none
  | some (idx, len) ↦ some (pop_at idx ss, current - len)
]

-- Derived records go first, then inputs, then interned ones.
unfoldable pub drop_any : List Section → ℕ → Option (List Section × ℕ)
unfolding drop_one_record
drop_any ss current = elim (drop_one_record derived ss current) [
  | some r ↦ some r
  | none ↦ elim (drop_one_record input ss current) [
    | some r ↦ some r
    | none ↦ drop_one_record interned ss current
  ]
]

-- The `while` loops. Each round drops a record, so their number is fuel enough.
unfoldable pub drop_loop : ℕ → ℕ → List Section → ℕ → List Section
unfolding drop_any
drop_loop zero budget ss current = ss
drop_loop (suc n) budget ss current =
    if ltb budget current
    then (elim (drop_any ss current) [
      | none ↦ ss
      | some (ss', current') ↦ drop_loop n budget ss' current'
    ])
    else ss

unfoldable pub count : List Section → ℕ
count [] = 0
count (s ∷ ss) = length s.records + count ss

abbrev pub with_sections : CacheFile → List Section → CacheFile
with_sections f ss = record f { sections = ss }

module _ (c : Codec CacheFile) (max_bytes : ℕ) where
  abbrev pub finish_shrink : CacheFile → PicanteResult CacheFile
  finish_shrink f = do
    bytes ← encode_cache_file c f
    if ltb max_bytes (length bytes)
        then err (cache "cache remains too large after truncation")
        else ok f

  -- `for _ in 0..3`, and the check behind it. `saturating_sub` is the subtraction of the model.
  unfoldable pub shrink_rounds : ℕ → CacheFile → PicanteResult CacheFile
  unfolding drop_loop count record_bytes encode_cache_file
  shrink_rounds zero f = finish_shrink f
  shrink_rounds (suc n) f =
      let used = record_bytes f.sections in
      let smaller = λ (overhead : ℕ).
        with_sections f (drop_loop (count f.sections + 1) (max_bytes - overhead) f.sections used) in
      encode_cache_file c f >>= λ bytes.
      if leb (length bytes) max_bytes
      then ok f
      else (if leb max_bytes (length bytes - used)
          then finish_shrink f
          else shrink_rounds n (smaller (length bytes - used)))

  -- `checked_sub(..).unwrap_or(bytes.len())`
  abbrev pub overhead_of : ℕ → ℕ → ℕ
  overhead_of len used = if ltb len used then len else len - used

  unfoldable pub shrink_cache_to_fit : CacheFile → PicanteResult CacheFile
  unfolding shrink_rounds sort_sections
  shrink_cache_to_fit f =
      let used = record_bytes f.sections in
      encode_cache_file c f >>= λ bytes.
      if leb (length bytes) max_bytes
      then ok f
      else (let overhead = overhead_of (length bytes) used in
          if leb max_bytes overhead
          then err (cache "cache overhead exceeds max_bytes")
          else shrink_rounds 3 (
              with_sections f (
                drop_loop (count f.sections + 1) (max_bytes - overhead) (sort_sections f.sections)
                  used)))
