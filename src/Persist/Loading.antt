-- ===== src/Persist/Loading.antt =====
-- `load_cache_with_options`: a file is read and checked, and its sections go to the ingredients.
use picante.Base.{
  ℕ, Bool, true, false, not, Option, none, some, List, [], ◌∷◌, length, ltb, ◌==◌, map,
  if◌then◌else◌,
}
use text.Mathlib.Text.{◌==◌ as text_beq}
use picante.Base.Results.{ok, err, map_err, after_ok}
use picante.Key.{Codec}
use picante.Error.{PicanteResult, cache, decode}
use picante.Runtime.{Runtime, clear_dependency_graph, set_current_revision}
use picante.Persist.Defs.{Section, CacheFile, section_type_beq}
use picante.Persist.Ingredients.{
  Ingredient, Db, ensure_unique_kinds, with_kind, load_into, cleared, restore_all,
}
use picante.Persist.Files.{FileSystem, ReadResult, found, not_found, unreadable}
use picante.Persist.Saving.{format_version}

pub data OnCorruptCache : Type 0 where
  error : OnCorruptCache
  ignore : OnCorruptCache
  delete : OnCorruptCache

pub record CacheLoadOptions : Type 0 where
  pub max_bytes : Option ℕ
  pub on_corrupt : OnCorruptCache

-- `CacheLoadOptions::default()`
abbrev pub default_load_options : CacheLoadOptions
default_load_options = record { max_bytes = none; on_corrupt = error }

unfoldable pub decode_cache_file : Codec CacheFile → List ℕ → PicanteResult CacheFile
decode_cache_file c bytes = map_err (decode "cache file") (c.from_slice bytes)

-- One section, for the ingredient of its kind.
unfoldable pub load_section : Section → Ingredient → PicanteResult (Unit {0}) × Ingredient
load_section s i =
    if not (text_beq s.kind_name i.kind_name)
    then (err (cache "kind name mismatch"), i)
    else if not (section_type_beq s.section_type i.section_type)
    then (err (cache "section type mismatch"), i)
    else load_into s.records i

-- The sections of no ingredient are skipped.
unfoldable pub load_sections :
    List Section → List Ingredient → PicanteResult (Unit {0}) × List Ingredient
unfolding with_kind load_section
load_sections [] is = (ok tt, is)
load_sections (s ∷ ss) is = elim (with_kind s.kind_id (load_section s) is) [
  | none ↦ load_sections ss is
  | some done ↦ after_ok (load_sections ss) done
]

-- The end of a load: the revision is set only if all ingredients were restored.
abbrev pub finish_load :
    ℕ → List Ingredient → PicanteResult (Unit {0}) × Runtime → PicanteResult Bool × Db
finish_load revision is (ok u, rt) = (
  ok true,
  record { runtime = set_current_revision (record { num = revision }) rt; ingredients = is },
)
finish_load revision is (err e, rt) = (err e, record { runtime = rt; ingredients = is })

abbrev pub restore_loaded :
    ℕ → Runtime → PicanteResult (Unit {0}) × List Ingredient → PicanteResult Bool × Db
restore_loaded revision rt (ok u, is) = finish_load revision is (restore_all is rt)
restore_loaded revision rt (err e, is) = (err e, record { runtime = rt; ingredients = is })

-- From the check of the version on.
unfoldable pub install : CacheFile → Db → PicanteResult Bool × Db
unfolding load_sections restore_all clear_dependency_graph set_current_revision
install file db =
    if not (file.format_version == format_version)
    then (err (cache "unsupported cache format version"), db)
    else restore_loaded file.current_revision (clear_dependency_graph db.runtime)
        (load_sections file.sections (map cleared db.ingredients))

abbrev pub is_too_large : Option ℕ → List ℕ → Bool
is_too_large none bytes = false
is_too_large (some max) bytes = ltb max (length bytes)

module _ (c : Codec CacheFile) where
  abbrev pub install_decoded : PicanteResult CacheFile → Db → PicanteResult Bool × Db
  install_decoded (ok file) db = install file db
  install_decoded (err e) db = (err e, db)

  unfoldable pub load_read : Option ℕ → ReadResult → Db → PicanteResult Bool × Db
  unfolding install decode_cache_file
  load_read max_bytes not_found db = (ok false, db)
  load_read max_bytes (unreadable e) db = (err (cache "read"), db)
  load_read max_bytes (found bytes) db =
      if is_too_large max_bytes bytes
      then (err (cache "cache file too large"), db)
      else install_decoded (decode_cache_file c bytes) db

  module _ {FilePath Fs : Type 0} (f : FileSystem FilePath Fs) where
    unfoldable pub load_cache_inner :
        FilePath → Db → CacheLoadOptions → Fs → PicanteResult Bool × Db
    unfolding load_read ensure_unique_kinds
    load_cache_inner path db options fs = elim (ensure_unique_kinds db.ingredients) [
      | err e ↦ (err e, db)
      | ok u ↦ load_read options.max_bytes (f.read path fs) db
    ]

    -- What is made of the result. A file that cannot be deleted stays.
    abbrev pub by_policy :
        OnCorruptCache → FilePath → Fs → PicanteResult Bool × Db → PicanteResult Bool × Db × Fs
    by_policy policy path fs (ok b, db) = (ok b, db, fs)
    by_policy error path fs (err e, db) = (err e, db, fs)
    by_policy ignore path fs (err e, db) = (ok false, db, fs)
    by_policy delete path fs (err e, db) = (ok false, db, (f.remove_file path fs).1)

    unfoldable pub load_cache_with_options :
        FilePath → Db → CacheLoadOptions → Fs → PicanteResult Bool × Db × Fs
    unfolding load_cache_inner
    load_cache_with_options path db options fs =
        by_policy options.on_corrupt path fs (load_cache_inner path db options fs)

    unfoldable pub load_cache : FilePath → Db → Fs → PicanteResult Bool × Db × Fs
    unfolding load_cache_with_options
    load_cache path db fs = load_cache_with_options path db default_load_options fs
