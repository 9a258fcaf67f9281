-- ===== src/Inflight/Registry.antt =====
-- The registry of inflight.rs. An entry is shared between the registry, its leader's guard and its
-- followers, so entries live on a heap, `states`, and the registry and guards hold addresses.
use picante.Base.{
  ℕ, ◌+◌, ◌≡◌, Bool, true, false, ◌&&◌, Option, none, some, List, [], arith, ◌==◌, if◌then◌else◌,
}
use picante.Base.Eq.{Eq, nat_eq}
use picante.Base.Table
use picante.Base.Table.{Table}
use picante.Key.{Revision, QueryKindId, Key, Dep, query_kind_beq, key_beq}
use picante.Key.Equality.{
  query_kind_refl, query_kind_sym, query_kind_trans, key_refl, key_sym, key_trans,
}
use picante.Error.{PicanteError}
use picante.Runtime.{RuntimeId}

pub record InFlightKey : Type 0 where
  pub runtime_id : RuntimeId
  pub revision : Revision
  pub kind : QueryKindId
  pub key : Key

abbrev pub inflight_key_beq : InFlightKey → InFlightKey → Bool
inflight_key_beq a b =
    a.runtime_id.num == b.runtime_id.num
    && (a.revision.num == b.revision.num && (query_kind_beq a.kind b.kind && key_beq a.key b.key))

pub inflight_key_refl : (a : InFlightKey) → inflight_key_beq a a ≡ true
inflight_key_refl a = ground (arith, query_kind_refl a.kind, key_refl a.key)

pub inflight_key_sym :
    (a b : InFlightKey) → inflight_key_beq a b ≡ true → inflight_key_beq b a ≡ true
inflight_key_sym a b h = ground (arith, query_kind_sym a.kind b.kind, key_sym a.key b.key)

pub inflight_key_trans :
    (a b c : InFlightKey)
    → inflight_key_beq a b ≡ true
    → inflight_key_beq b c ≡ true
    → inflight_key_beq a c ≡ true
inflight_key_trans a b c h k =
    ground (arith, query_kind_trans a.kind b.kind c.kind, key_trans a.key b.key c.key)

instance abbrev pub inflight_key_eq : Eq InFlightKey
inflight_key_eq = record {
  beq = inflight_key_beq;
  beq_refl = inflight_key_refl;
  beq_sym = inflight_key_sym;
  beq_trans = inflight_key_trans;
}

pub data InFlightState {ℓ} (V : Type ℓ) : Type ℓ where
  running : InFlightState V
  done : (value : V) (deps : List Dep) (changed_at : Revision) → InFlightState V
  failed : PicanteError → InFlightState V
  cancelled : InFlightState V

pub record Registry {ℓ} (V : Type ℓ) : Type ℓ where
  pub entries : Table InFlightKey ℕ
  pub states : Table ℕ (InFlightState V)
  pub next_address : ℕ

pub record InFlightGuard : Type 0 where
  pub key : InFlightKey
  pub entry : ℕ
  pub completed : Bool

pub data TryLeadResult : Type 0 where
  leader : InFlightGuard → TryLeadResult
  follower : (entry : ℕ) → TryLeadResult

module _ {ℓ} {V : Type ℓ} where
  unfoldable pub empty : Registry V
  empty = record { entries = []; states = []; next_address = 0 }

  -- `InFlightEntry::state`
  unfoldable pub state : ℕ → Registry V → Option (InFlightState V)
  state entry reg = Table.get reg.states entry

  -- A write of an entry's state (and a wake-up).
  unfoldable pub set_state : ℕ → InFlightState V → Registry V → Registry V
  set_state entry st reg = record reg { states = Table.insert reg.states entry st }

  -- `InFlightEntry::complete`, `fail` and `cancel`.
  abbrev pub entry_complete : V → List Dep → Revision → ℕ → Registry V → Registry V
  entry_complete value deps changed_at entry reg = set_state entry (done value deps changed_at) reg

  abbrev pub entry_fail : PicanteError → ℕ → Registry V → Registry V
  entry_fail error entry reg = set_state entry (failed error) reg

  abbrev pub entry_cancel : ℕ → Registry V → Registry V
  entry_cancel entry reg = set_state entry cancelled reg

  -- `IN_FLIGHT_REGISTRY.remove`
  unfoldable pub unregister : InFlightKey → Registry V → Registry V
  unregister k reg = record reg { entries = Table.remove reg.entries k }

  -- The guard's methods, with no other task in between: the state is written, and then the entry is
  -- removed. `Inflight.SingleFlight` takes the two as steps of their own.
  -- `Drop for InFlightGuard`
  unfoldable pub drop_guard : InFlightGuard → Registry V → Registry V
  unfolding set_state unregister
  drop_guard g reg = if g.completed then reg else unregister g.key (entry_cancel g.entry reg)

  -- The guard is consumed, so its `drop` runs at the end.
  unfoldable pub complete : V → List Dep → Revision → InFlightGuard → Registry V → Registry V
  unfolding set_state unregister drop_guard
  complete value deps changed_at g reg =
      drop_guard (record g { completed = true })
        (unregister g.key (entry_complete value deps changed_at g.entry reg))

  unfoldable pub fail : PicanteError → InFlightGuard → Registry V → Registry V
  unfolding set_state unregister drop_guard
  fail error g reg =
      drop_guard (record g { completed = true }) (unregister g.key (entry_fail error g.entry reg))

  unfoldable pub try_lead : InFlightKey → Registry V → TryLeadResult × Registry V
  try_lead k reg = elim (Table.get reg.entries k) [
    | some entry ↦ (follower entry, reg)
    | none ↦ (
      leader (record { key = k; entry = reg.next_address; completed = false }),
      record {
        entries = Table.insert reg.entries k reg.next_address;
        states = Table.insert reg.states reg.next_address running;
        next_address = reg.next_address + 1;
      },
    )
  ]
