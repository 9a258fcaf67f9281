-- ===== src/Persist/Files.antt =====
-- The file system, as far as cache files need it: the functions of `tokio::fs`, and those of paths.
use picante.Base.{ℕ, ◌≡◌, ◌≢◌, Bool, Option, some, List, String}
use picante.Base.Results.{Result, ok, err}

-- What a read gives: the bytes, that there is no such file, or another error.
pub data ReadResult : Type 0 where
  found : List ℕ → ReadResult
  not_found : ReadResult
  unreadable : String → ReadResult

pub record FileSystem (FilePath Fs : Type 0) : Type 0 where
  pub read : FilePath → Fs → ReadResult
  pub create_dir_all : FilePath → Fs → Result String (Unit {0}) × Fs
  pub write : FilePath → List ℕ → Fs → Result String (Unit {0}) × Fs
  pub rename : FilePath → FilePath → Fs → Result String (Unit {0}) × Fs
  pub remove_file : FilePath → Fs → Result String (Unit {0}) × Fs
  pub exists : FilePath → Fs → Bool
  pub parent : FilePath → Option FilePath
  -- `path.with_extension("tmp")`, and the name of `compact_wal`
  pub with_extension_tmp : FilePath → FilePath
  pub compact_tmp : FilePath → FilePath

-- What the code relies on. A write that succeeds is read back; whether or not it succeeds it touches
-- no other path. A rename that succeeds gives the target what the source held and touches no third path;
-- one that fails changes nothing. Making the directory that a file
-- stands in does not change the file.
pub record Behaves {FilePath Fs : Type 0} (f : FileSystem FilePath Fs) : Type 0 where
  pub read-write :
      (p : FilePath) (bytes : List ℕ) (fs : Fs)
      → (f.write p bytes fs).0 ≡ ok tt
      → f.read p (f.write p bytes fs).1 ≡ found bytes
  pub write_other :
      (p q : FilePath) (bytes : List ℕ) (fs : Fs)
      → p ≢ q
      → f.read q (f.write p bytes fs).1 ≡ f.read q fs
  pub read-rename :
      (p q : FilePath) (fs : Fs)
      → (f.rename p q fs).0 ≡ ok tt
      → f.read q (f.rename p q fs).1 ≡ f.read p fs
  pub rename_failed :
      (p q r : FilePath) (fs : Fs) (e : String)
      → (f.rename p q fs).0 ≡ err e
      → f.read r (f.rename p q fs).1 ≡ f.read r fs
  pub create_dir_parent :
      (p d : FilePath) (fs : Fs)
      → f.parent p ≡ some d
      → f.read p (f.create_dir_all d fs).1 ≡ f.read p fs
