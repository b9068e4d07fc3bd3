-- ===== src/RwMutex/Invariant.antt =====
-- Every step keeps the counts of the mutex true, and every waiting coroutine in its queue.
use corpc.Base.{
  ℕ, zero, suc, ◌+◌, ◌-◌, ◌≡◌, ◌≢◌, refl, sym, ◌∙◌, inl, inr, some, List, [], ◌∷◌, ◌++◌, subst,
  arith, replicate, get_elem?, set, get_elem?-set_self, get_elem?-set_ne, ◌==◌, Bool-cases, ==_iff,
}
use native.Mathlib.Decide.{ℕ_discrete}
use corpc.RwMutex.{MuStatus, mu_free, mu_reading, mu_writing, rlock, wlock, runlock, wunlock}
use corpc.RwMutex.Modes.{
  Access, reader, writer, Mode, outside, waiting, woken, holding, read_weight, write_weight,
  wake_each, total, Has, Has-snoc, total-set, total-one, total-wake_each, read_weight-wake,
  write_weight-wake, wake_each_waiting, lt_of_get_elem?,
}
use corpc.RwMutex.System.{
  System, lock_at, unlock_at, MayAsk, Step, locks, unlocks, Reach, begin, later, Counts, Inv,
}

-- A mode that asks holds nothing.
MayAsk-weights : (a : Access) (m : Mode) → MayAsk a m → (read_weight m ≡ 0) × (write_weight m ≡ 0)
MayAsk-weights a outside h = (refl, refl)
MayAsk-weights a (woken b) h = (refl, refl)
MayAsk-weights a (waiting b) h = absurd h
MayAsk-weights a (holding b) h = absurd h

abbrev at : MuStatus → ℕ → List ℕ → List Mode → System
at st num q modes = record {
  mutex = record { state = st; reading_num = num; waiting_co = q };
  modes = modes;
}

module _ (num : ℕ) (q : List ℕ) (modes : List Mode) (i : ℕ) where
  abbrev Queued : List ℕ → List Mode → Type 0
  Queued q modes = (j : ℕ) (a : Access) → get_elem? modes j ≡ some (waiting a) → Has j q

  -- A coroutine that does not wait leaves the queue as it is; one that waits is put last.
  Queued-set :
      (new m : Mode)
      → get_elem? modes i ≡ some m
      → ((a : Access) → new ≢ waiting a)
      → Queued q modes
      → Queued q (set modes i new)
  Queued-set new m here idle old j a e = elim (ℕ_discrete i j) [
    | yes same ↦
        let e' : get_elem? (set modes i new) i ≡ some (waiting a) =
          subst (λ k. get_elem? (set modes i new) k ≡ some (waiting a)) (sym same) e in
        let self : get_elem? (set modes i new) i ≡ some new =
          get_elem?-set_self modes i new (lt_of_get_elem? modes i m here) in
        let f : new ≡ waiting a = cc in absurd (idle a f)
    | no other ↦ old j a (sym (get_elem?-set_ne modes new other) ∙ e)
  ]

  Queued-snoc : (new : Mode) → Queued q modes → Queued (q ++ i ∷ []) (set modes i new)
  Queued-snoc new old j a e = elim (ℕ_discrete i j) [
    | yes same ↦ Has-snoc j i q (inr same)
    | no other ↦ Has-snoc j i q (inl (old j a (sym (get_elem?-set_ne modes new other) ∙ e)))
  ]

  module _ (a : Access) (m : Mode) (here : get_elem? modes i ≡ some m) (asks : MayAsk a m) where
    weights :
        (w : Mode → ℕ) (new : Mode) → w m ≡ 0 → total w (set modes i new) ≡ total w modes + w new
    weights w new z = omega (arith, total-set w modes i m new here)

    reads :
        (new : Mode)
        → total read_weight (set modes i new) ≡ total read_weight modes + read_weight new
    reads new = weights read_weight new (MayAsk-weights a m asks).0

    writes :
        (new : Mode)
        → total write_weight (set modes i new) ≡ total write_weight modes + write_weight new
    writes new = weights write_weight new (MayAsk-weights a m asks).1

    waits-Inv :
        (st : MuStatus)
        → st ≢ mu_free
        → Inv (at st num q modes)
        → Inv (at st num (q ++ i ∷ []) (set modes i (waiting a)))
    waits-Inv st busy v = record {
      counted = v.counted ∙ omega (arith, reads (waiting a));
      counts =
          subst (λ w. Counts st (total read_weight (set modes i (waiting a))) w)
            (omega (arith, writes (waiting a)))
            (subst (λ r. Counts st r (total write_weight modes)) (omega (arith, reads (waiting a)))
              v.counts);
      queued = Queued-snoc (waiting a) v.queued;
      awaited = λ free. absurd (busy free);
    }

    rlock-Inv :
        a ≡ reader
        → (st : MuStatus) → Inv (at st num q modes)
        → Inv (lock_at (at st num q modes) i reader)
    unfolding rlock
    rlock-Inv e mu_free v = record {
      counted = omega (arith, v.counted, reads (holding reader));
      counts = omega (arith, v.counts, reads (holding reader), writes (holding reader));
      queued = Queued-set (holding reader) m here (λ b f. cc) v.queued;
      awaited = λ f. cc;
    }
    rlock-Inv e mu_reading v = record {
      counted = omega (arith, v.counted, reads (holding reader));
      counts = omega (arith, v.counts, reads (holding reader), writes (holding reader));
      queued = Queued-set (holding reader) m here (λ b f. cc) v.queued;
      awaited = λ f. cc;
    }
    rlock-Inv e mu_writing v = rw (← e) (waits-Inv mu_writing (λ f. cc) v)

    wlock-Inv :
        a ≡ writer
        → (st : MuStatus) → Inv (at st num q modes)
        → Inv (lock_at (at st num q modes) i writer)
    unfolding wlock
    wlock-Inv e mu_free v = record {
      counted = omega (arith, v.counted, reads (holding writer));
      counts = omega (arith, v.counts, reads (holding writer), writes (holding writer));
      queued = Queued-set (holding writer) m here (λ b f. cc) v.queued;
      awaited = λ f. cc;
    }
    wlock-Inv e mu_reading v = rw (← e) (waits-Inv mu_reading (λ f. cc) v)
    wlock-Inv e mu_writing v = rw (← e) (waits-Inv mu_writing (λ f. cc) v)

  -- The release of the whole lock: every coroutine of the queue is woken.
  freed-Inv :
      (held : Mode)
      → get_elem? modes i ≡ some held
      → Queued q modes
      → total read_weight (set modes i outside) ≡ 0
      → total write_weight (set modes i outside) ≡ 0
      → Inv (at mu_free 0 [] (wake_each (set modes i outside) q))
  freed-Inv held here old r w =
      let r' : total read_weight (wake_each (set modes i outside) q) ≡ 0 =
        total-wake_each read_weight read_weight-wake q (set modes i outside) ∙ r in
      let w' : total write_weight (wake_each (set modes i outside) q) ≡ 0 =
        total-wake_each write_weight write_weight-wake q (set modes i outside) ∙ w in
      record {
        counted = sym r';
        counts = (r', w');
        queued = λ j a e.
            let (there, gone) = wake_each_waiting q (set modes i outside) j a e in
            absurd (gone (Queued-set outside held here (λ b f. cc) old j a there));
        awaited = λ f. refl;
      }

  runlock-Inv :
      (st : MuStatus)
      → get_elem? modes i ≡ some (holding reader)
      → Inv (at st num q modes)
      → Inv (unlock_at (at st num q modes) i reader)
  unfolding runlock wake_each
  runlock-Inv mu_free here v =
      absurd (omega (arith, v.counts, total-one read_weight modes i (holding reader) here))
  runlock-Inv mu_writing here v =
      absurd (omega (arith, v.counts, total-one read_weight modes i (holding reader) here))
  runlock-Inv mu_reading here v =
      let r = total-set read_weight modes i (holding reader) outside here in
      let w = total-set write_weight modes i (holding reader) outside here in
      let counted = v.counted in
      let counts = v.counts in
      elim (Bool-cases (num == 1)) [
        | inl last ↦
            let one : num ≡ 1 = (==_iff num 1).0 last in
            let none_left : num - 1 ≡ 0 = omega arith in
            rw last
              (rw none_left (freed-Inv (holding reader) here v.queued (omega arith) (omega arith)))
        | inr more ↦
            let others : num ≢ 1 = λ e. cc in
            rw more record {
              counted = omega arith;
              counts = (omega arith, omega arith);
              queued = Queued-set outside (holding reader) here (λ b f. cc) v.queued;
              awaited = λ f. cc;
            }
      ]

  wunlock-Inv :
      (st : MuStatus)
      → get_elem? modes i ≡ some (holding writer)
      → Inv (at st num q modes)
      → Inv (unlock_at (at st num q modes) i writer)
  unfolding wunlock
  wunlock-Inv mu_free here v =
      absurd (omega (arith, v.counts, total-one write_weight modes i (holding writer) here))
  wunlock-Inv mu_reading here v =
      absurd (omega (arith, v.counts, total-one write_weight modes i (holding writer) here))
  wunlock-Inv mu_writing here v =
      let r = total-set read_weight modes i (holding writer) outside here in
      let w = total-set write_weight modes i (holding writer) outside here in
      let counted = v.counted in
      let counts = v.counts in
      let none_left : num ≡ 0 = omega arith in
      rw none_left (freed-Inv (holding writer) here v.queued (omega arith) (omega arith))

-- Every call keeps the invariant.
Step-Inv : (s t : System) → Inv s → Step s t → Inv t
Step-Inv s t v (locks i reader m here asks) =
    rlock-Inv s.mutex.reading_num s.mutex.waiting_co s.modes i reader m here asks refl s.mutex.state
      v
Step-Inv s t v (locks i writer m here asks) =
    wlock-Inv s.mutex.reading_num s.mutex.waiting_co s.modes i writer m here asks refl s.mutex.state
      v
Step-Inv s t v (unlocks i reader here) =
    runlock-Inv s.mutex.reading_num s.mutex.waiting_co s.modes i s.mutex.state here v
Step-Inv s t v (unlocks i writer here) =
    wunlock-Inv s.mutex.reading_num s.mutex.waiting_co s.modes i s.mutex.state here v

total-outside : (w : Mode → ℕ) → w outside ≡ 0 → (n : ℕ) → total w (replicate n outside) ≡ 0
unfolding total
total-outside w h zero = refl
total-outside w h (suc n) = omega (arith, h, total-outside w h n)

not_waiting : (n j : ℕ) (a : Access) → get_elem? (replicate n outside) j ≢ some (waiting a)
not_waiting zero j a e = cc
not_waiting (suc n) zero a e = cc
not_waiting (suc n) (suc j) a e = not_waiting n j a e

-- Every state that the calls can reach keeps the invariant.
pub Reach-Inv : (n : ℕ) (s : System) → Reach n s → Inv s
Reach-Inv n s begin =
    let r = total-outside read_weight refl n in
    let w = total-outside write_weight refl n in
    record {
      counted = sym r;
      counts = (r, w);
      queued = λ j a e. absurd (not_waiting n j a e);
      awaited = λ f. refl;
    }
Reach-Inv n s (later {s = before} past step) = Step-Inv before s (Reach-Inv n before past) step
