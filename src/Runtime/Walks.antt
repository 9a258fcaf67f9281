-- ===== src/Runtime/Walks.antt =====
-- What one visit of a node's dependents does to the variables of the walk.
use picante.Base.{
  ℕ, ◌+◌, ◌≤◌, ◌≡◌, true, ◌&&◌, ◌||◌, not, List, [], ◌∷◌, arith, length, length-append,
}
use picante.Base.Eq.{◌==◌}
use picante.Base.Set.{contains, contains-eq, contains-append, distinct, missing, missing-lt}
use picante.Key.{DynKey, dyn_key_eq}
use picante.Key.Equality.{dyn_key_refl}
use picante.Runtime.Propagation.{Walk, visit_one, visit}

contains_seen-visit_one :
    (d : DynKey) (w : Walk) (y : DynKey)
    → contains (visit_one d w).seen y ≡ (contains w.seen y || d == y)
unfolding visit_one contains
contains_seen-visit_one d w y = ground (arith, contains-eq w.seen d y)

pub contains_seen-visit :
    (ds : List DynKey) (w : Walk) (y : DynKey)
    → contains (visit ds w).seen y ≡ (contains w.seen y || contains ds y)
unfolding visit contains
contains_seen-visit [] w y = ground arith
contains_seen-visit (d ∷ ds) w y =
    ground (arith, contains_seen-visit ds (visit_one d w) y, contains_seen-visit_one d w y)

contains_sent-visit_one :
    (d : DynKey) (w : Walk) (y : DynKey)
    → contains (visit_one d w).sent y ≡ (contains w.sent y || (d == y && not (contains w.seen y)))
unfolding visit_one contains
contains_sent-visit_one d w y = ground (arith, contains-eq w.seen d y)

pub contains_sent-visit :
    (ds : List DynKey) (w : Walk) (y : DynKey)
    → contains (visit ds w).sent y
      ≡ (contains w.sent y || (contains ds y && not (contains w.seen y)))
unfolding visit contains
contains_sent-visit [] w y = ground arith
contains_sent-visit (d ∷ ds) w y = ground (
  arith,
  contains_sent-visit ds (visit_one d w) y,
  contains_sent-visit_one d w y,
  contains_seen-visit_one d w y,
)

contains_queue-visit_one :
    (d : DynKey) (w : Walk) (y : DynKey)
    → contains (visit_one d w).queue y ≡ (contains w.queue y || (d == y && not (contains w.seen y)))
unfolding visit_one contains
contains_queue-visit_one d w y =
    ground (arith, contains-eq w.seen d y, contains-append w.queue (d ∷ []) y)

pub contains_queue-visit :
    (ds : List DynKey) (w : Walk) (y : DynKey)
    → contains (visit ds w).queue y
      ≡ (contains w.queue y || (contains ds y && not (contains w.seen y)))
unfolding visit contains
contains_queue-visit [] w y = ground arith
contains_queue-visit (d ∷ ds) w y = ground (
  arith,
  contains_queue-visit ds (visit_one d w) y,
  contains_queue-visit_one d w y,
  contains_seen-visit_one d w y,
)

-- What was sent stays without repetition, as long as what was sent was seen.
pub record IsOnce (w : Walk) : Type 0 where
  pub once : distinct w.sent ≡ true
  pub sent_seen : (y : DynKey) → contains w.sent y ≡ true → contains w.seen y ≡ true

IsOnce-visit_one : (d : DynKey) (w : Walk) → IsOnce w → IsOnce (visit_one d w)
unfolding visit_one contains distinct
IsOnce-visit_one d w h = record {
  once = ground (arith, h.once, h.sent_seen d);
  sent_seen = λ y p. ground (arith, h.sent_seen y);
}

pub IsOnce-visit : (ds : List DynKey) (w : Walk) → IsOnce w → IsOnce (visit ds w)
unfolding visit
IsOnce-visit [] w h = h
IsOnce-visit (d ∷ ds) w h = IsOnce-visit ds (visit_one d w) (IsOnce-visit_one d w h)

-- The measure of the walk: what is queued, and what of the universe is still to be seen.
abbrev pub remaining : List DynKey → Walk → ℕ
remaining all w = length w.queue + missing all w.seen

remaining-visit_one :
    (all : List DynKey) (d : DynKey) (w : Walk)
    → contains all d ≡ true
    → remaining all (visit_one d w) ≤ remaining all w
unfolding visit_one
remaining-visit_one all d w h =
    ground (arith, length-append w.queue (d ∷ []), missing-lt all w.seen d)

pub remaining-visit :
    (all ds : List DynKey) (w : Walk)
    → ((y : DynKey) → contains ds y ≡ true → contains all y ≡ true)
    → remaining all (visit ds w) ≤ remaining all w
unfolding visit contains
remaining-visit all [] w h = omega arith
remaining-visit all (d ∷ ds) w h = omega (
  arith,
  remaining-visit all ds (visit_one d w) (λ y p. h y (ground arith)),
  remaining-visit_one all d w (h d (ground (arith, dyn_key_refl d))),
)
