-- ===== src/Error.antt =====
-- error.rs: the errors, and the result type of the whole library.
use picante.Base.{ℕ, String, List}
use picante.Base.Results.{Result}
use picante.Key.{DynKey, QueryKindId}

pub data PicanteError : Type 0 where
  cycle : (requested : DynKey) (stack : List DynKey) → PicanteError
  encode : (what message : String) → PicanteError
  decode : (what message : String) → PicanteError
  cache : (message : String) → PicanteError
  missing_interned_value : (kind : QueryKindId) (id : ℕ) → PicanteError
  missing_input_value : (kind : QueryKindId) (key_hash : ℕ) → PicanteError
  panic : (message : String) → PicanteError

abbrev pub PicanteResult {ℓ} : Type ℓ → Type ℓ
PicanteResult A = Result PicanteError A
