-- ===== src/Persist/Saving.antt =====
-- `save_cache_with_options`: the sections of the ingredients, made small enough, and written to a
-- temporary file that is renamed.
use picante.Base.{
  ℕ, zero, suc, Option, none, some, List, [], ◌∷◌, length, leb, if◌then◌else◌, String,
}
use picante.Base.Results.{Result, ok, err, ◌>>=◌}
use picante.Key.{Codec, as_u32}
use picante.Error.{PicanteResult, cache}
use picante.Runtime.{current_revision}
use picante.Persist.Defs.{Section, CacheFile, encode_cache_file, shrink_cache_to_fit}
use picante.Persist.Ingredients.{Ingredient, Db, ensure_unique_kinds}
use picante.Persist.Files.{FileSystem}

abbrev pub format_version : ℕ
format_version = 1

pub record CacheSaveOptions : Type 0 where
  pub max_bytes : Option ℕ
  pub max_records_per_section : Option ℕ
  pub max_record_bytes : Option ℕ

-- `CacheSaveOptions::default()`
abbrev pub default_save_options : CacheSaveOptions
default_save_options = record {
  max_bytes = none;
  max_records_per_section = none;
  max_record_bytes = none;
}

-- `records.retain(|r| r.len() <= max)`
unfoldable pub retain_small : ℕ → List (List ℕ) → List (List ℕ)
retain_small max [] = []
retain_small max (r ∷ records) =
    let rest = retain_small max records in if leb (length r) max then r ∷ rest else rest

abbrev pub skip_oversized : Option ℕ → List (List ℕ) → List (List ℕ)
skip_oversized none records = records
skip_oversized (some max) records = retain_small max records

abbrev pub section_of : Ingredient → List (List ℕ) → Section
section_of i records = record {
  kind_id = as_u32 i.kind;
  kind_name = i.kind_name;
  section_type = i.section_type;
  records = records;
}

unfoldable pub collect_sections : CacheSaveOptions → List Ingredient → PicanteResult (List Section)
unfolding retain_small
collect_sections options [] = ok []
collect_sections options (i ∷ is) = do
  records ← i.save_records i.state
  sections ← collect_sections options is
  ok (section_of i (skip_oversized options.max_record_bytes records) ∷ sections)

-- `section.records.truncate(max)`, which leaves a shorter list as it is.
unfoldable pub truncate : ℕ → List (List ℕ) → List (List ℕ)
truncate max [] = []
truncate zero (r ∷ records) = []
truncate (suc n) (r ∷ records) = r ∷ truncate n records

unfoldable pub truncate_sections : Option ℕ → List Section → List Section
unfolding truncate
truncate_sections none sections = sections
truncate_sections (some max) [] = []
truncate_sections (some max) (s ∷ sections) =
    record s { records = truncate max s.records } ∷ truncate_sections (some max) sections

module _ (c : Codec CacheFile) where
  abbrev pub shrink_if_limited : Option ℕ → CacheFile → PicanteResult CacheFile
  shrink_if_limited none f = ok f
  shrink_if_limited (some max_bytes) f = shrink_cache_to_fit c max_bytes f

  -- The file before it is encoded.
  unfoldable pub cache_of : CacheSaveOptions → Db → PicanteResult CacheFile
  unfolding ensure_unique_kinds collect_sections truncate_sections shrink_cache_to_fit
  cache_of options db = do
    u ← ensure_unique_kinds db.ingredients
    sections ← collect_sections options db.ingredients
    shrink_if_limited options.max_bytes (record {
      format_version = format_version;
      current_revision = (current_revision db.runtime).num;
      sections = truncate_sections options.max_records_per_section sections;
    })

module _ {FilePath Fs : Type 0} (f : FileSystem FilePath Fs) where
  -- An error of the file system, with what was being done.
  abbrev pub io_error : String → Result String (Unit {0}) → PicanteResult (Unit {0})
  io_error what (ok u) = ok u
  io_error what (err e) = err (cache what)

  abbrev pub and_then :
      (Fs → PicanteResult (Unit {0}) × Fs)
      → PicanteResult (Unit {0}) × Fs
      → PicanteResult (Unit {0}) × Fs
  and_then next (ok u, fs) = next fs
  and_then next (err e, fs) = (err e, fs)

  abbrev pub make_parent : Option FilePath → Fs → PicanteResult (Unit {0}) × Fs
  make_parent none fs = (ok tt, fs)
  make_parent (some dir) fs =
      let (r, fs') = f.create_dir_all dir fs in (io_error "create_dir_all" r, fs')

  abbrev pub write_tmp : FilePath → List ℕ → Fs → PicanteResult (Unit {0}) × Fs
  write_tmp path bytes fs =
      let (r, fs') = f.write (f.with_extension_tmp path) bytes fs in (io_error "write" r, fs')

  abbrev pub rename_tmp : FilePath → Fs → PicanteResult (Unit {0}) × Fs
  rename_tmp path fs =
      let (r, fs') = f.rename (f.with_extension_tmp path) path fs in (io_error "rename" r, fs')

  -- The part that touches files.
  unfoldable pub write_atomically : FilePath → List ℕ → Fs → PicanteResult (Unit {0}) × Fs
  write_atomically path bytes fs =
      and_then (λ fs1. and_then (rename_tmp path) (write_tmp path bytes fs1))
        (make_parent (f.parent path) fs)

  module _ (c : Codec CacheFile) where
    abbrev pub encoded_cache : CacheSaveOptions → Db → PicanteResult (List ℕ)
    encoded_cache options db = do file ← cache_of c options db; encode_cache_file c file

    unfoldable pub save_cache_with_options :
        FilePath → Db → CacheSaveOptions → Fs → PicanteResult (Unit {0}) × Fs
    unfolding cache_of encode_cache_file write_atomically
    save_cache_with_options path db options fs = elim (encoded_cache options db) [
      | err e ↦ (err e, fs)
      | ok bytes ↦ write_atomically path bytes fs
    ]

    unfoldable pub save_cache : FilePath → Db → Fs → PicanteResult (Unit {0}) × Fs
    unfolding save_cache_with_options
    save_cache path db fs = save_cache_with_options path db default_save_options fs
