-- ===== src/Inflight/SingleFlight.antt =====
-- Single flight: the steps of many queries on the registry of inflight.rs, in every order, and the
-- invariant that they keep.
use picante.Base.{
  ℕ, ◌<◌, ◌≡◌, refl, Bool, true, false, Option, none, some, List, arith, ◌==◌, if◌then◌else◌, inl,
  inr, Bool-cases,
}
use picante.Base.Eq.{nat_eq}
use picante.Base.Table
use picante.Base.Table.{Table, get-insert, get-remove, get-eq}
use picante.Key.{Revision, Dep}
use picante.Error.{PicanteError}
use picante.Inflight.Registry.{
  InFlightKey, InFlightState, running, done, failed, cancelled, Registry, InFlightGuard, leader,
  follower, inflight_key_beq, inflight_key_eq, inflight_key_refl, set_state, unregister,
  entry_complete, entry_fail, entry_cancel, complete, fail, drop_guard, try_lead,
}

-- The registry, the guards that are alive, each under the number of the query that holds it, and
-- whether the query has written the state of its entry, and has yet to remove it.
pub record Flights {ℓ} (V : Type ℓ) : Type ℓ where
  pub registry : Registry V
  pub holders : ℕ → Option InFlightGuard
  pub has_written : ℕ → Bool

abbrev pub update {ℓ} : {A : Type ℓ} → (ℕ → A) → ℕ → A → ℕ → A
update f t a u = if t == u then a else f u

-- What a query does after it wrote the state of its entry: it holds the guard until the entry is
-- removed.
abbrev pub written {ℓ} : {V : Type ℓ} → ℕ → InFlightGuard → Registry V → Flights V → Flights V
written t g reg s = record {
  registry = reg;
  holders = update s.holders t (some g);
  has_written = update s.has_written t true;
}

-- One access of shared data, by the query `t`: other queries may come between a write of the state of
-- an entry and its removal from the registry.
pub data Step {ℓ} {V : Type ℓ} (s t' : Flights V) : Type ℓ where
  leads :
      (t : ℕ) (k : InFlightKey) (g : InFlightGuard)
      → s.holders t ≡ none
      → (try_lead k s.registry).0 ≡ leader g
      → t' ≡ record {
        registry = (try_lead k s.registry).1;
        holders = update s.holders t (some g);
        has_written = update s.has_written t false;
      }
      → Step s t'
  follows :
      (k : InFlightKey) (entry : ℕ)
      → (try_lead k s.registry).0 ≡ follower entry
      → t' ≡ record s { registry = (try_lead k s.registry).1 }
      → Step s t'
  completes :
      (t : ℕ) (g : InFlightGuard) (value : V) (deps : List Dep) (changed_at : Revision)
      → s.holders t ≡ some g
      → s.has_written t ≡ false
      → t'
        ≡ written t
            (record g { completed = true })
            (entry_complete value deps changed_at g.entry s.registry)
            s
      → Step s t'
  fails :
      (t : ℕ) (g : InFlightGuard) (error : PicanteError)
      → s.holders t ≡ some g
      → s.has_written t ≡ false
      → t' ≡ written t (record g { completed = true }) (entry_fail error g.entry s.registry) s
      → Step s t'
  cancels :
      (t : ℕ) (g : InFlightGuard)
      → s.holders t ≡ some g
      → s.has_written t ≡ false
      → g.completed ≡ false
      → t' ≡ written t g (entry_cancel g.entry s.registry) s
      → Step s t'
  removes :
      (t : ℕ) (g : InFlightGuard)
      → s.holders t ≡ some g
      → s.has_written t ≡ true
      → t' ≡ record {
        registry = unregister g.key s.registry;
        holders = update s.holders t none;
        has_written = update s.has_written t false;
      }
      → Step s t'

abbrev pub is_finished {ℓ} : {V : Type ℓ} → Option (InFlightState V) → Bool
is_finished none = false
is_finished (some running) = false
is_finished (some (done value deps changed_at)) = true
is_finished (some (failed error)) = true
is_finished (some cancelled) = true

pub record IsSingle {ℓ} {V : Type ℓ} (s : Flights V) : Type ℓ where
  -- A live guard's entry is registered under its key. It is running until its query writes its state.
  pub registered :
      (t : ℕ) (g : InFlightGuard)
      → s.holders t ≡ some g
      → Table.get s.registry.entries g.key ≡ some g.entry
  pub is_running :
      (t : ℕ) (g : InFlightGuard)
      → s.holders t ≡ some g
      → s.has_written t ≡ false
      → Table.get s.registry.states g.entry ≡ some running
  pub finished :
      (t : ℕ) (g : InFlightGuard)
      → s.holders t ≡ some g
      → s.has_written t ≡ true
      → is_finished (Table.get s.registry.states g.entry) ≡ true
  pub apart :
      (t u : ℕ) (g h : InFlightGuard)
      → s.holders t ≡ some g
      → s.holders u ≡ some h
      → g.entry ≡ h.entry
      → t ≡ u
  -- A registered entry is a live guard's.
  pub owned :
      (k : InFlightKey) (entry : ℕ)
      → Table.get s.registry.entries k ≡ some entry
      → (t : ℕ) × (g : InFlightGuard) × (s.holders t ≡ some g)
        × (g.entry ≡ entry)
        × (inflight_key_beq g.key k ≡ true)
  pub allocated :
      (entry : ℕ) (st : InFlightState V)
      → Table.get s.registry.states entry ≡ some st
      → entry < s.registry.next_address
  pub held : (t : ℕ) (g : InFlightGuard) → s.holders t ≡ some g → g.entry < s.registry.next_address

module _ {ℓ} {V : Type ℓ} where
  -- The guard's methods are the two steps with no query in between.
  complete-unregister :
      (value : V) (deps : List Dep) (changed_at : Revision) (g : InFlightGuard) (reg : Registry V)
      → complete value deps changed_at g reg
        ≡ unregister g.key (entry_complete value deps changed_at g.entry reg)
  unfolding complete drop_guard
  complete-unregister value deps changed_at g reg = refl

  fail-unregister :
      (error : PicanteError) (g : InFlightGuard) (reg : Registry V)
      → fail error g reg ≡ unregister g.key (entry_fail error g.entry reg)
  unfolding fail drop_guard
  fail-unregister error g reg = refl

  drop_guard-unregister :
      (g : InFlightGuard) (reg : Registry V)
      → g.completed ≡ false
      → drop_guard g reg ≡ unregister g.key (entry_cancel g.entry reg)
  unfolding drop_guard
  drop_guard-unregister g reg h = rw (h, drop_guard) refl

  pub leads-IsSingle :
      (s : Flights V) (t : ℕ) (k : InFlightKey) (g : InFlightGuard)
      → s.holders t ≡ none
      → (try_lead k s.registry).0 ≡ leader g
      → IsSingle s
      → IsSingle (record {
        registry = (try_lead k s.registry).1;
        holders = update s.holders t (some g);
        has_written = update s.has_written t false;
      })
  unfolding try_lead
  leads-IsSingle s t k g free e h = record {
    registered = λ u j p. ground (
      arith,
      h.registered u j,
      get-insert s.registry.entries k j.key s.registry.next_address,
      get-eq s.registry.entries k j.key,
      inflight_key_refl k,
    );
    is_running = λ u j p q. ground (
      arith,
      h.is_running u j,
      get-insert s.registry.states s.registry.next_address j.entry running,
    );
    finished = λ u j p q. ground (
      arith,
      h.finished u j,
      h.held u j,
      get-insert s.registry.states s.registry.next_address j.entry running,
    );
    apart = λ u v j l p q r. ground (arith, h.apart u v j l, h.held u j, h.held v l);
    owned = λ j a p. elim (Bool-cases (inflight_key_beq k j)) [
      | inl same ↦ (
        t,
        g,
        ground arith,
        ground (arith, get-insert s.registry.entries k j s.registry.next_address),
        ground arith,
      )
      | inr other ↦
          let (u, l, q, r, x) =
            h.owned j a
              (ground (arith, get-insert s.registry.entries k j s.registry.next_address)) in
          (u, l, ground arith, r, x)
    ];
    allocated = λ a st p.
        ground
          (arith, h.allocated a st, get-insert s.registry.states s.registry.next_address a running);
    held = λ u j p. ground (arith, h.held u j);
  }

  -- A query writes a state that is not `running`.
  pub written-IsSingle :
      (s : Flights V) (t : ℕ) (g : InFlightGuard) (completed : Bool) (st : InFlightState V)
      → s.holders t ≡ some g
      → is_finished (some st) ≡ true
      → IsSingle s
      → IsSingle
          (written t (record g { completed = completed }) (set_state g.entry st s.registry) s)
  unfolding set_state
  written-IsSingle s t g completed st mine fin h = record {
    registered = λ u j p. ground (arith, h.registered u j, h.registered t g);
    is_running = λ u j p q.
        ground (
          arith,
          h.is_running u j,
          h.apart t u g j,
          get-insert s.registry.states g.entry j.entry st,
        );
    finished =
        λ u j p q. ground (arith, h.finished u j, get-insert s.registry.states g.entry j.entry st);
    apart = λ u v j l p q r. ground (arith, h.apart u v j l, h.apart t v g l, h.apart u t j g);
    owned = λ j a p.
        let (u, l, q, r, x) = h.owned j a p in
        elim (Bool-cases (t == u)) [
          | inl same ↦
              (t, record g { completed = completed }, ground arith, ground arith, ground arith)
          | inr other ↦ (u, l, ground arith, r, x)
        ];
    allocated = λ a st' p.
        ground (arith, h.allocated a st', h.held t g, get-insert s.registry.states g.entry a st);
    held = λ u j p. ground (arith, h.held u j, h.held t g);
  }

  -- A query removes its entry, and drops its guard.
  pub removes-IsSingle :
      (s : Flights V) (t : ℕ) (g : InFlightGuard)
      → s.holders t ≡ some g
      → IsSingle s
      → IsSingle (record {
        registry = unregister g.key s.registry;
        holders = update s.holders t none;
        has_written = update s.has_written t false;
      })
  unfolding unregister
  removes-IsSingle s t g mine h = record {
    registered = λ u j p. ground (
      arith,
      h.registered u j,
      h.registered t g,
      h.apart t u g j,
      get-remove s.registry.entries g.key j.key,
      get-eq s.registry.entries g.key j.key,
    );
    is_running = λ u j p q. ground (arith, h.is_running u j);
    finished = λ u j p q. ground (arith, h.finished u j);
    apart = λ u v j l p q r. ground (arith, h.apart u v j l);
    owned = λ j a p.
        let (u, l, q, r, x) = h.owned j a (ground (arith, get-remove s.registry.entries g.key j)) in
        (u, l, ground (arith, get-remove s.registry.entries g.key j), r, x);
    allocated = λ a st' p. ground (arith, h.allocated a st');
    held = λ u j p. ground (arith, h.held u j);
  }
