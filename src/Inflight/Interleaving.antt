-- ===== src/Inflight/Interleaving.antt =====
-- The guarantees of the registry over every interleaving of its queries' steps.
use picante.Base.{ℕ, ◌≡◌, ◌≢◌, ◌⊎◌, refl, true, false, none, some, arith, inl, inr, Bool-cases}
use picante.Base.Eq.{nat_eq}
use picante.Base.Table
use picante.Base.Table.{get-insert, get-eq}
use picante.Inflight.Registry.{
  InFlightKey, InFlightState, running, done, failed, cancelled, Registry, InFlightGuard, follower,
  inflight_key_beq, inflight_key_eq, empty, state, set_state, unregister, try_lead,
}
use picante.Inflight.SingleFlight.{
  Flights, Step, leads, follows, completes, fails, cancels, removes, is_finished, IsSingle,
  leads-IsSingle, written-IsSingle, removes-IsSingle,
}

pub data Reach {ℓ} {V : Type ℓ} : Flights V → Type ℓ where
  start :
      (s : Flights V)
      → s ≡ record { registry = empty; holders = λ _. none; has_written = λ _. false }
      → Reach s
  next : (s s' : Flights V) → Reach s → Step s s' → Reach s'

module _ {ℓ} {V : Type ℓ} where
  follows-same :
      (k : InFlightKey) (entry : ℕ) (reg : Registry V)
      → (try_lead k reg).0 ≡ follower entry
      → ((try_lead k reg).1 ≡ reg) × (Table.get reg.entries k ≡ some entry)
  unfolding try_lead
  follows-same k entry reg e = ground arith

  Step-IsSingle : (s s' : Flights V) → Step s s' → IsSingle s → IsSingle s'
  Step-IsSingle s s' (leads t k g free e p) h = rw p (leads-IsSingle s t k g free e h)
  Step-IsSingle s s' (follows k entry e p) h = rw (p, (follows-same k entry s.registry e).0) h
  Step-IsSingle s s' (completes t g value deps changed_at mine _ p) h =
      rw p (written-IsSingle s t g true (done value deps changed_at) mine refl h)
  Step-IsSingle s s' (fails t g error mine _ p) h =
      rw p (written-IsSingle s t g true (failed error) mine refl h)
  Step-IsSingle s s' (cancels t g mine _ _ p) h =
      rw p (written-IsSingle s t g g.completed cancelled mine refl h)
  Step-IsSingle s s' (removes t g mine _ p) h = rw p (removes-IsSingle s t g mine h)

  pub Reach-IsSingle : (s : Flights V) → Reach s → IsSingle s
  unfolding empty Table.get
  Reach-IsSingle s (start _ e) = rw e (record {
    registered = λ t g p. cc;
    is_running = λ t g p _. cc;
    finished = λ t g p _. cc;
    apart = λ t u g h p. cc;
    owned = λ k a p. cc;
    allocated = λ a st p. cc;
    held = λ t g p. cc;
  })
  Reach-IsSingle s' (next s _ r st) = Step-IsSingle s s' st (Reach-IsSingle s r)

  -- However the steps interleave, two queries that hold guards for one key, also while they finish, are
  -- the same query.
  pub one_leader :
      (s : Flights V) (t u : ℕ) (g h : InFlightGuard)
      → Reach s
      → s.holders t ≡ some g
      → s.holders u ≡ some h
      → inflight_key_beq g.key h.key ≡ true
      → t ≡ u
  one_leader s t u g h r p q e =
      let i = Reach-IsSingle s r in
      i.apart t u g h p q (
        ground
          (arith, i.registered t g p, i.registered u h q, get-eq s.registry.entries g.key h.key e))

  -- However the steps interleave, a follower is handed an entry that is registered, and whose leader, for
  -- an equal key, still holds its guard. Until the leader writes the state of the entry it is running;
  -- after that, and before the leader removes it, it holds a result, an error or a cancellation.
  pub follower-has_leader :
      (s : Flights V) (k : InFlightKey) (entry : ℕ)
      → Reach s
      → (try_lead k s.registry).0 ≡ follower entry
      → (t : ℕ) × (g : InFlightGuard) × (s.holders t ≡ some g)
        × (g.entry ≡ entry)
        × (inflight_key_beq g.key k ≡ true)
        × (((s.has_written t ≡ false) × (state entry s.registry ≡ some running))
            ⊎ ((s.has_written t ≡ true) × (is_finished (state entry s.registry) ≡ true)))
  unfolding state
  follower-has_leader s k entry r e =
      let i = Reach-IsSingle s r in
      let (t, g, p, q, b) = i.owned k entry (follows-same k entry s.registry e).1 in
      (
        t,
        g,
        p,
        q,
        b,
        elim (Bool-cases (s.has_written t)) [
          | inl w ↦ inr (w, rw (← q) (i.finished t g p w))
          | inr w ↦ inl (w, rw (← q) (i.is_running t g p w))
        ],
      )

  written-final :
      (s : Flights V) (entry : ℕ) (st st' : InFlightState V) (t : ℕ) (g : InFlightGuard)
      → Reach s
      → s.holders t ≡ some g
      → s.has_written t ≡ false
      → state entry s.registry ≡ some st
      → st ≢ running
      → state entry (set_state g.entry st' s.registry) ≡ some st
  unfolding state set_state
  written-final s entry st st' t g r mine before q n =
      let i = Reach-IsSingle s r in
      ground (arith, i.is_running t g mine before, get-insert s.registry.states g.entry entry st')

  -- A state that is not `running` is final: every follower that reads it reads the same result,
  -- whatever happens in between.
  pub finished-final :
      (s s' : Flights V) (entry : ℕ) (st : InFlightState V)
      → Reach s
      → Step s s'
      → state entry s.registry ≡ some st
      → st ≢ running
      → state entry s'.registry ≡ some st
  unfolding state try_lead unregister
  finished-final s s' entry st r (leads t k g free e p) q n =
      let i = Reach-IsSingle s r in
      rw p (
        ground (
          arith,
          i.allocated entry st,
          get-insert s.registry.states s.registry.next_address entry running,
        ))
  finished-final s s' entry st r (follows k a e p) q n = rw (p, (follows-same k a s.registry e).0) q
  finished-final s s' entry st r (completes t g value deps changed_at mine before p) q n =
      rw p (written-final s entry st (done value deps changed_at) t g r mine before q n)
  finished-final s s' entry st r (fails t g error mine before p) q n =
      rw p (written-final s entry st (failed error) t g r mine before q n)
  finished-final s s' entry st r (cancels t g mine before _ p) q n =
      rw p (written-final s entry st cancelled t g r mine before q n)
  finished-final s s' entry st r (removes t g mine _ p) q n = rw p q
