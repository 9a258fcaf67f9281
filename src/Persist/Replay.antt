-- ===== src/Persist/Replay.antt =====
-- What a database appends to a log and another one replays.
use mathlib.Core.List.{append_assoc}
use picante.Base.{
  ℕ, suc, ◌+◌, ◌≡◌, refl, ap, subst, ◌∙◌, sym, true, false, none, some, List, [], ◌∷◌, ◌++◌, map,
  length, length-append, arith, inl, inr, All,
}
use picante.Base.Eq.{nat_eq, ◌==◌}
use picante.Base.Set
use picante.Base.Results.{ok, err, Result-cases, ◌>>=◌, try_each, after_ok-ok}
use picante.Key.{Codec, RoundTrips, as_u32}
use picante.Error.{PicanteResult}
use picante.Runtime.{Runtime}
use picante.Wal.{
  WalHeader, WalEntry, WalWriter, WalReader, append, create_with_threshold, drop_writer,
  read_entries, open_wal,
}
use picante.Wal.Framing.{IsReadable}
use picante.Wal.RoundTrip.{append_all, HasShortHeader, log_whole, create_with_threshold-base}
use picante.Persist.Ingredients.{Ingredient, Db, with_kind, apply_to, restore_all}
use picante.Persist.Files.{FileSystem, found}
use picante.Persist.Logging.{
  Change, entry_of, change_of, append_changes, append_ingredients, append_to_wal, then_append, max,
  replay_entries, replay_reader, replay_wal, catch_up,
}
use picante.Persist.Sections.{kinds, with_kind-here, with_kind-append}

-- The entries that the ingredients log.
abbrev pub wal_entries : ℕ → List Ingredient → PicanteResult (List WalEntry)
wal_entries since [] = ok []
wal_entries since (i ∷ is) = do
  changes ← i.save_incremental_records since i.state
  entries ← wal_entries since is
  ok (map (entry_of (as_u32 i.kind)) changes ++ entries)

module _ (ec : Codec WalEntry) where
  append_changes_lem :
      (kind_id : ℕ) (changes : List Change) (count n : ℕ) (w w' : WalWriter)
      → append_changes ec kind_id changes count w ≡ (ok n, w')
      → (append_all ec (map (entry_of kind_id) changes) w ≡ ok w')
        × (n ≡ count + length (map (entry_of kind_id) changes))
  unfolding append_changes append_all
  append_changes_lem kind_id [] count n w w' h = (ground (arith, h), ground (arith, h))
  append_changes_lem kind_id (change ∷ changes) count n w w' h =
      elim (Result-cases (append ec (entry_of kind_id change) w)) [
        | inr (e, p) ↦ ground (arith, h, p)
        | inl (w1, p) ↦
            let (a, b) =
              append_changes_lem kind_id changes (count + 1) n w1 w' (ground (arith, h, p)) in
            (rw p a, omega (arith, b))
      ]

  append_all-append :
      (xs ys : List WalEntry) (w w1 w2 : WalWriter)
      → append_all ec xs w ≡ ok w1
      → append_all ec ys w1 ≡ ok w2
      → append_all ec (xs ++ ys) w ≡ ok w2
  unfolding append_all
  append_all-append [] ys w w1 w2 h k = let same : w ≡ w1 = ground (arith, h) in rw same k
  append_all-append (x ∷ xs) ys w w1 w2 h k = elim (Result-cases (append ec x w)) [
    | inr (e, p) ↦ ground (arith, h, p)
    | inl (w3, p) ↦ rw p (append_all-append xs ys w3 w1 w2 (ground (arith, h, p)) k)
  ]

  then_append-ok :
      (next : ℕ → WalWriter → PicanteResult ℕ × WalWriter) (o : PicanteResult ℕ × WalWriter) (n : ℕ)
      (w' : WalWriter)
      → then_append ec next o ≡ (ok n, w')
      → (m : ℕ) × (w1 : WalWriter) × (o ≡ (ok m, w1)) × (next m w1 ≡ (ok n, w'))
  then_append-ok next (ok m, w1) n w' h = (m, w1, refl, h)
  then_append-ok next (err e, w1) n w' h = ground (arith, h)

  append_ingredients_lem :
      (since : ℕ) (is : List Ingredient) (count n : ℕ) (w w' : WalWriter)
      → append_ingredients ec since is count w ≡ (ok n, w')
      → (entries : List WalEntry) × (wal_entries since is ≡ ok entries)
        × (append_all ec entries w ≡ ok w')
        × (n ≡ count + length entries)
  unfolding append_ingredients append_all
  append_ingredients_lem since [] count n w w' h = ([], refl, ground (arith, h), ground (arith, h))
  append_ingredients_lem since (i ∷ is) count n w w' h =
      elim (Result-cases (i.save_incremental_records since i.state)) [
        | inr (e, p) ↦ ground (arith, h, p)
        | inl (changes, p) ↦
            let logged = map (entry_of (as_u32 i.kind)) changes in
            let step = append_changes ec (as_u32 i.kind) changes count w in
            let opened : append_ingredients ec since (i ∷ is) count w
                ≡ then_append ec (append_ingredients ec since is) step =
              rw (p, append_ingredients) refl in
            let (m, w1, q, rest) =
              then_append-ok (append_ingredients ec since is) step n w' (sym opened ∙ h) in
            let (a, b) = append_changes_lem (as_u32 i.kind) changes count m w w1 q in
            let (entries, made, all, total) = append_ingredients_lem since is m n w1 w' rest in
            (
              logged ++ entries,
              ap
                    (λ r. r >>= λ cs.
                      wal_entries since is >>= λ es. ok (map (entry_of (as_u32 i.kind)) cs ++ es))
                    p
                  ∙ ap (λ r. r >>= λ es. ok (logged ++ es)) made,
              append_all-append logged entries w w1 w' a all,
              omega (arith, b, total, length-append logged entries),
            )
      ]

-- The latest revision of entries and of a start.
abbrev pub latest : ℕ → List WalEntry → ℕ
latest m [] = m
latest m (entry ∷ entries) = latest (max m entry.revision) entries

latest-append : (m : ℕ) (xs ys : List WalEntry) → latest m (xs ++ ys) ≡ latest (latest m xs) ys
latest-append m [] ys = refl
latest-append m (x ∷ xs) ys = latest-append (max m x.revision) xs ys

change_of-entry_of : (kind_id : ℕ) (change : Change) → change_of (entry_of kind_id change) ≡ change
change_of-entry_of kind_id (rev, key, none) = refl
change_of-entry_of kind_id (rev, key, some value) = refl

-- One entry, for an ingredient that takes it.
replay_entries-one :
    (entry : WalEntry) (entries : List WalEntry) (m count : ℕ) (is is' : List Ingredient)
    → with_kind entry.kind_id (apply_to (change_of entry)) is ≡ some (ok tt, is')
    → replay_entries (entry ∷ entries) (m, count) is
      ≡ replay_entries entries (max m entry.revision, count + 1) is'
unfolding replay_entries
replay_entries-one entry entries m count is is' h = rw (h, replay_entries) refl

-- The changes of one ingredient, for the ingredient of its kind.
replay_entries-changes :
    (changes : List Change) (kind_id m count : ℕ) (rest : List WalEntry)
    (before is : List Ingredient) (j k : Ingredient)
    → as_u32 j.kind ≡ kind_id
    → Set.contains (kinds is) kind_id ≡ false
    → try_each apply_to changes j ≡ (ok tt, k)
    → let logged = map (entry_of kind_id) changes in
      replay_entries (logged ++ rest) (m, count) (before ++ j ∷ is)
      ≡ replay_entries rest (latest m logged, count + length logged) (before ++ k ∷ is)
unfolding replay_entries try_each
replay_entries-changes [] kind_id m count rest before is j k same absent h =
    let same_one : j ≡ k = ap (λ r. r.1) h in
    let none_more : count + 0 ≡ count = omega arith in rw (same_one, none_more) refl
replay_entries-changes (change ∷ changes) kind_id m count rest before is j k same absent h =
    let logged = map (entry_of kind_id) changes in
    let (j', one, later) = after_ok-ok (try_each apply_to changes) (apply_to change j) tt k h in
    let kept : as_u32 j'.kind ≡ kind_id = sym (ap (λ r. as_u32 r.1.kind) one) ∙ same in
    let found_it : with_kind kind_id (apply_to change) (before ++ j ∷ is)
        ≡ some (ok tt, before ++ j' ∷ is) =
      with_kind-append kind_id (apply_to change) before (j ∷ is) (j' ∷ is) (ok tt) (
        with_kind-here kind_id (apply_to change) j is (ground (arith, same)) absent
        ∙ ap (λ r. some (r.0, r.1 ∷ is)) one) in
    let total : count + 1 + length logged ≡ count + suc (length logged) = omega arith in
    let entry = entry_of kind_id change in
    let taken : with_kind kind_id (apply_to (change_of entry)) (before ++ j ∷ is)
        ≡ some (ok tt, before ++ j' ∷ is) =
      ap (λ c. with_kind kind_id (apply_to c) (before ++ j ∷ is))
        (change_of-entry_of kind_id change)
      ∙ found_it in
    (replay_entries-one entry (logged ++ rest) m count (before ++ j ∷ is) (before ++ j' ∷ is) taken
      ∙ replay_entries-changes changes kind_id (max m change.0) (count + 1) rest before is j' k kept
          absent later
      ∙ ap (λ n. replay_entries rest (latest (max m change.0) logged, n) (before ++ k ∷ is)) total)

-- Two ingredients of one declaration: the changes that the first logs bring the second to the third.
pub record CatchesUp (since : ℕ) (i j k : Ingredient) : Type 1 where
  pub same_kind : as_u32 j.kind ≡ as_u32 i.kind
  pub catches_up :
      (changes : List Change)
      → i.save_incremental_records since i.state ≡ ok changes
      → try_each apply_to changes j ≡ (ok tt, k)

pub data AllCatchUp (since : ℕ) : List Ingredient → List Ingredient → List Ingredient → Type 1 where
  all_caught_up : AllCatchUp since [] [] []
  catch_up_one :
      (i j k : Ingredient) (is js ks : List Ingredient)
      → CatchesUp since i j k
      → AllCatchUp since is js ks
      → AllCatchUp since (i ∷ is) (j ∷ js) (k ∷ ks)

replay_entries-all :
    (since : ℕ) (is js ks before : List Ingredient) (entries : List WalEntry) (m count : ℕ)
    → AllCatchUp since is js ks
    → Set.distinct (kinds js) ≡ true
    → wal_entries since is ≡ ok entries
    → replay_entries entries (m, count) (before ++ js)
      ≡ (ok (latest m entries, count + length entries), before ++ ks)
unfolding replay_entries Set.distinct
replay_entries-all since _ _ _ before entries m count all_caught_up d h =
    let same : [] ≡ entries = ground (arith, h) in
    let none_more : count ≡ count + 0 = omega arith in
    rw⁻¹ same (ap (λ n. (ok (m, n), before ++ [])) none_more)
replay_entries-all since _ _ _ before entries m count (catch_up_one i j k is js ks c a) d h =
    elim (Result-cases (i.save_incremental_records since i.state)) [
      | inr (e, p) ↦ ground (arith, h, p)
      | inl (changes, p) ↦ elim (Result-cases (wal_entries since is)) [
        | inr (e, q) ↦ ground (arith, h, p, q)
        | inl (rest, q) ↦
            let logged = map (entry_of (as_u32 i.kind)) changes in
            let same : logged ++ rest ≡ entries = ground (arith, h, p, q) in
            let absent : Set.contains (kinds js) (as_u32 i.kind) ≡ false =
              ground (arith, d, c.same_kind) in
            let one =
              replay_entries-changes changes (as_u32 i.kind) m count rest before js j k c.same_kind
                absent (c.catches_up changes p) in
            let later =
              replay_entries-all since is js ks (before ++ k ∷ []) rest (latest m logged)
                (count + length logged) a (ground (arith, d)) q in
            let total : count + length logged + length rest ≡ count + length (logged ++ rest) =
              omega (arith, length-append logged rest) in
            rw⁻¹ same (
              one
              ∙ ap (replay_entries rest (latest m logged, count + length logged))
                  (sym (append_assoc before (k ∷ []) js))
              ∙ later
              ∙ ap (λ r. (ok r, (before ++ k ∷ []) ++ ks))
                  (ap (λ x. (x, count + length logged + length rest))
                      (sym (latest-append m logged rest))
                    ∙ ap (λ n. (latest m (logged ++ rest), n)) total)
              ∙ ap (λ l. (ok (latest m (logged ++ rest), count + length (logged ++ rest)), l))
                  (append_assoc before (k ∷ []) ks))
      ]
    ]

module _ {FilePath Fs : Type 0} (f : FileSystem FilePath Fs) (hc : Codec WalHeader)
    (ec : Codec WalEntry) where
  replay_wal-found :
      (path : FilePath) (other : Db) (fs : Fs) (bytes : List ℕ) (r : WalReader)
      (entries : List WalEntry) (base m n : ℕ) (ks : List Ingredient) (rt : Runtime)
      → f.read path fs ≡ found bytes
      → open_wal hc bytes ≡ ok r
      → r.header.base_revision ≡ base
      → other.runtime.current ≡ base
      → read_entries ec (length r.rest + 1) r.rest ≡ (entries, ok tt)
      → replay_entries entries (base, 0) other.ingredients ≡ (ok (m, n), ks)
      → restore_all ks (catch_up base m other.runtime) ≡ (ok tt, rt)
      → replay_wal hc ec f path other fs ≡ (ok n, record { runtime = rt; ingredients = ks })
  unfolding replay_wal replay_reader
  replay_wal-found path other fs bytes r entries base m n ks rt there opened at_base same read
        replayed done =
      let equal : (other.runtime.current == base) ≡ true = ground (arith, same) in
      rw (there, replay_wal, opened, at_base, equal, read, replayed, done) refl

  -- Let a log be created at a base revision, with any threshold of the automatic flush, and let a
  -- database append to it, with no error and with no entry or header over the reader's limits, where
  -- both codecs read back what they write. Let another database stand at the base revision and declare
  -- the same ingredients, no two of one kind, each of which applies the changes that its counterpart
  -- logs. Then replaying the file that the dropped writer leaves answers the number of entries that were
  -- appended. It leaves every ingredient as the changes of its counterpart leave it, and the runtime,
  -- at the latest revision of an entry, as the ingredients restore it.
  pub replay_wal-append_to_wal :
      (base threshold n : ℕ) (w w' : WalWriter) (path : FilePath) (fs : Fs) (db other : Db)
      (ks : List Ingredient) (entries : List WalEntry) (rt : Runtime)
      → RoundTrips hc
      → RoundTrips ec
      → HasShortHeader hc base
      → create_with_threshold hc base threshold ≡ ok w
      → append_to_wal ec w db ≡ (ok n, w')
      → f.read path fs ≡ found (drop_writer w')
      → wal_entries base db.ingredients ≡ ok entries
      → All (IsReadable ec) entries
      → other.runtime.current ≡ base
      → Set.distinct (kinds other.ingredients) ≡ true
      → AllCatchUp base db.ingredients other.ingredients ks
      → restore_all ks (catch_up base (latest base entries) other.runtime) ≡ (ok tt, rt)
      → replay_wal hc ec f path other fs ≡ (ok n, record { runtime = rt; ingredients = ks })
  unfolding append_to_wal
  replay_wal-append_to_wal base threshold n w w' path fs db other ks entries rt rh re short made
        appended there logged small same d a restored =
      let based = create_with_threshold-base hc base threshold w made in
      let from_base =
        subst (λ b. append_ingredients ec b db.ingredients 0 w ≡ (ok n, w')) based appended in
      let (entries', logged', all, total) =
        append_ingredients_lem ec base db.ingredients 0 n w w' from_base in
      let one : entries' ≡ entries = ground (arith, logged, logged') in
      let (r, opened, at_base, read) =
        log_whole hc ec base threshold entries w w' rh re short small made
          (subst (λ es. append_all ec es w ≡ ok w') one all) in
      let replayed =
        replay_entries-all base db.ingredients other.ingredients ks [] entries base 0 a d logged in
      let count : 0 + length entries ≡ n = ap (λ es. 0 + length es) (sym one) ∙ sym total in
      replay_wal-found path other fs (drop_writer w') r entries base (latest base entries) n ks rt
        there opened at_base same read
        (replayed ∙ ap (λ k. (ok (latest base entries, k), ks)) count) restored
