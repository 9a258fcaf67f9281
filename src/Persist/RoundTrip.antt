-- ===== src/Persist/RoundTrip.antt =====
-- A database that is saved and loaded into another one.
use picante.Base.{ℕ, ◌≡◌, ◌≢◌, refl, subst, true, List, [], ◌∷◌, arith, inl, inr, map, Bool-cases}
use picante.Base.Eq.{nat_eq}
use picante.Base.Set
use picante.Base.Results.{ok, Result-cases}
use picante.Key.{Codec, RoundTrips, as_u32}
use picante.Runtime.{Runtime, clear_dependency_graph, set_current_revision, current_revision}
use picante.Persist.Defs.{Section, CacheFile}
use picante.Persist.Ingredients.{Ingredient, Db, cleared, load_into, restore_all}
use picante.Persist.Files.{FileSystem, Behaves, found}
use picante.Persist.Saving.{
  cache_of, collect_sections, default_save_options, section_of, save_cache, save_cache_with_options,
  format_version, truncate_sections,
}
use picante.Persist.Loading.{
  load_cache, load_cache_with_options, load_cache_inner, load_read, install, decode_cache_file,
}
use picante.Persist.Atomic.{save_cache_with_options_lem}
use picante.Persist.Sections.{
  kinds, ensure_unique_kinds_lem, AllLoadAs, all_loaded, load_one, load_sections_lem,
}

-- Two ingredients of one declaration: what the first saves, the second, once it is cleared, loads, and
-- it becomes the third.
pub record Reloads (i j k : Ingredient) : Type 1 where
  pub same_kind : as_u32 i.kind ≡ as_u32 j.kind
  pub same_name : i.kind_name ≡ j.kind_name
  pub same_type : i.section_type ≡ j.section_type
  pub reloads :
      (records : List (List ℕ))
      → i.save_records i.state ≡ ok records
      → load_into records (cleared j) ≡ (ok tt, k)

pub data AllReload : List Ingredient → List Ingredient → List Ingredient → Type 1 where
  all_reloaded : AllReload [] [] []
  reload_one :
      (i j k : Ingredient) (is js ks : List Ingredient)
      → Reloads i j k
      → AllReload is js ks
      → AllReload (i ∷ is) (j ∷ js) (k ∷ ks)

kinds-AllReload :
    (is js ks : List Ingredient)
    → AllReload is js ks
    → (kinds is ≡ kinds js) × (kinds (map cleared js) ≡ kinds js)
kinds-AllReload _ _ _ all_reloaded = (refl, refl)
kinds-AllReload _ _ _ (reload_one i j k is js ks r a) =
    let (p, q) = kinds-AllReload is js ks a in rw (p, q, r.same_kind) (refl, refl)

collect_sections-AllLoadAs :
    (is js ks : List Ingredient) (ss : List Section)
    → AllReload is js ks
    → collect_sections default_save_options is ≡ ok ss
    → AllLoadAs ss (map cleared js) ks
unfolding collect_sections
collect_sections-AllLoadAs _ _ _ ss all_reloaded h =
    let same : [] ≡ ss = ground (arith, h) in subst (λ t. AllLoadAs t [] []) same all_loaded
collect_sections-AllLoadAs _ _ _ ss (reload_one i j k is js ks r a) h =
    elim (Result-cases (i.save_records i.state)) [
      | inr (e, p) ↦ ground (arith, h, p)
      | inl (records, p) ↦ elim (Result-cases (collect_sections default_save_options is)) [
        | inr (e, q) ↦ ground (arith, h, p, q)
        | inl (rest, q) ↦
            let same : section_of i records ∷ rest ≡ ss = ground (arith, h, p, q) in
            subst (λ t. AllLoadAs t (map cleared (j ∷ js)) (k ∷ ks)) same
              (load_one (section_of i records) (cleared j) k rest (map cleared js) ks
                (record {
                  same_kind = r.same_kind;
                  same_name = r.same_name;
                  same_type = r.same_type;
                  loads = r.reloads records p;
                })
                (collect_sections-AllLoadAs is js ks rest a q))
      ]
    ]

-- What a file holds that was made with the default options.
cache_of-default :
    (c : Codec CacheFile) (db : Db) (file : CacheFile)
    → cache_of c default_save_options db ≡ ok file
    → (ss : List Section) × (Set.distinct (kinds db.ingredients) ≡ true)
      × (collect_sections default_save_options db.ingredients ≡ ok ss)
      × (file ≡ record {
        format_version = format_version;
        current_revision = (current_revision db.runtime).num;
        sections = ss;
      })
unfolding cache_of truncate_sections
cache_of-default c db file h =
    let unique = ensure_unique_kinds_lem db.ingredients in
    elim (Bool-cases (Set.distinct (kinds db.ingredients))) [
      | inr d ↦ ground (arith, h, unique, d)
      | inl d ↦ elim (Result-cases (collect_sections default_save_options db.ingredients)) [
        | inr (e, q) ↦ ground (arith, h, unique, d, q)
        | inl (ss, q) ↦ (ss, d, q, ground (arith, h, unique, d, q))
      ]
    ]

install-AllLoadAs :
    (file : CacheFile) (other : Db) (ks : List Ingredient) (rt : Runtime)
    → file.format_version ≡ format_version
    → Set.distinct (kinds (map cleared other.ingredients)) ≡ true
    → AllLoadAs file.sections (map cleared other.ingredients) ks
    → restore_all ks (clear_dependency_graph other.runtime) ≡ (ok tt, rt)
    → install file other ≡ (
      ok true,
      record {
        runtime = set_current_revision (record { num = file.current_revision }) rt;
        ingredients = ks;
      },
    )
unfolding install
install-AllLoadAs file other ks rt v d a r =
    rw (v, load_sections_lem file.sections (map cleared other.ingredients) ks d a, r) refl

module _ {FilePath Fs : Type 0} (f : FileSystem FilePath Fs) (c : Codec CacheFile) where
  load_cache-found :
      (path : FilePath) (other : Db) (fs : Fs) (bytes : List ℕ) (file : CacheFile) (done : Db)
      → Set.distinct (kinds other.ingredients) ≡ true
      → f.read path fs ≡ found bytes
      → c.from_slice bytes ≡ ok file
      → install file other ≡ (ok true, done)
      → load_cache c f path other fs ≡ (ok true, done, fs)
  unfolding load_cache load_cache_with_options load_cache_inner load_read decode_cache_file
  load_cache-found path other fs bytes file done d r b i =
      let unique = ensure_unique_kinds_lem other.ingredients in
      rw (unique, d, load_cache_inner, r, b, i) refl

  -- Let the file system behave, the temporary file be another one than the cache file, and the codec
  -- read back what it writes. Let a database be saved with no error, and let another database declare
  -- the same ingredients, each of which loads the records that its counterpart saves. Then loading
  -- answers that the cache was loaded. It leaves every ingredient as the loading of its counterpart's
  -- records into it, cleared, leaves it, and the runtime as the ingredients restore it from an empty
  -- dependency graph, at the revision of the database that was saved.
  pub load_cache-save_cache :
      (path : FilePath) (db other : Db) (ks : List Ingredient) (rt : Runtime) (fs : Fs)
      → Behaves f
      → f.with_extension_tmp path ≢ path
      → RoundTrips c
      → (save_cache f c path db fs).0 ≡ ok tt
      → AllReload db.ingredients other.ingredients ks
      → restore_all ks (clear_dependency_graph other.runtime) ≡ (ok tt, rt)
      → load_cache c f path other (save_cache f c path db fs).1 ≡ (
        ok true,
        record {
          runtime = set_current_revision (current_revision db.runtime) rt;
          ingredients = ks;
        },
        (save_cache f c path db fs).1,
      )
  unfolding save_cache
  load_cache-save_cache path db other ks rt fs b ne r saved a restored =
      elim (save_cache_with_options_lem f b c path db default_save_options fs ne) [
        | inr (e, failed, _) ↦ ground (arith, saved, failed)
        | inl (_, file, bytes, made, enc, there) ↦
            let (ss, d, q, same) = cache_of-default c db file made in
            let (p, p') = kinds-AllReload db.ingredients other.ingredients ks a in
            let fs' = (save_cache_with_options f c path db default_save_options fs).1 in
            let loaded = collect_sections-AllLoadAs db.ingredients other.ingredients ks ss a q in
            let d' : Set.distinct (kinds other.ingredients) ≡ true = rw⁻¹ p d in
            load_cache-found path other fs' bytes file _ d' there (r.back file bytes enc)
              (rw same (install-AllLoadAs _ other ks rt refl (rw p' d') loaded restored))
      ]
