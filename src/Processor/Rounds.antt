-- ===== src/Processor/Rounds.antt =====
-- A round of the loop: every request gets a turn while the coroutine lives.
use corpc.Base.{
  ℕ, zero, suc, ◌+◌, ◌≡◌, refl, sym, ap, subst, ◌∙◌, inl, inr, true, false, not, Option, none, some,
  List, [], ◌∷◌, ◌++◌, ◌==◌, ==_iff, ◌&&◌, ◌||◌, if◌then◌else◌, Bool-cases, arith,
}
use corpc.Processor.{
  Coroutine, Processor, contains, run_until_switch, can_run, touch, resume_co, resume, take_in,
  run_pending, run_active, clear_removed, run_due, loop_round,
}
use corpc.Processor.Turns.{
  turns_left, count, View, view, contains-append, count-append, contains-insert, contains-erase_all,
  turns, ask, turns_zero, turns-turns,
}

left_of : (c : Coroutine) → can_run c.status ≡ true → turns_left c ≡ suc c.yields_left
left_of c h = rw h refl

none_left : (c : Coroutine) → can_run c.status ≡ false → turns_left c ≡ 0
none_left c h = rw h refl

View-eq :
    (v w : View) → v.known ≡ w.known → v.left ≡ w.left → v.runs ≡ w.runs → v.gone ≡ w.gone → v ≡ w
View-eq v w a b c d = λ i. record { known = a i; left = b i; runs = c i; gone = d i }

-- The switch to `x`, seen by `x` and by the others.
run_until_switch_self :
    (p : Processor) (x yields : ℕ)
    → turns_left (p.cors x) ≡ suc yields
    → view x (run_until_switch (record p { ran = p.ran ++ x ∷ [] }) x yields) ≡ turns 1 (view x p)
unfolding view run_until_switch
run_until_switch_self p x zero left =
    let here : (x == x) ≡ true = (==_iff x x).1 refl in
    View-eq _ _ refl (rw here (ground (arith, left))) (ground (arith, count-append x x p.ran, left))
      (ground (arith, contains-append p.removed_cors x x, left))
run_until_switch_self p x (suc yields) left =
    let here : (x == x) ≡ true = (==_iff x x).1 refl in
    View-eq _ _ refl (rw here (ground (arith, left))) (ground (arith, count-append x x p.ran, left))
      (ground (arith, left))

run_until_switch-other :
    (p : Processor) (x co yields : ℕ)
    → (x == co) ≡ false
    → view co (run_until_switch (record p { ran = p.ran ++ x ∷ [] }) x yields) ≡ view co p
unfolding view run_until_switch
run_until_switch-other p x co zero other =
    View-eq _ _ refl (rw other refl) (ground (arith, count-append co x p.ran))
      (ground (arith, contains-append p.removed_cors x co))
run_until_switch-other p x co (suc yields) other =
    View-eq _ _ refl (rw other refl) (ground (arith, count-append co x p.ran)) refl

-- Nothing runs where no turn is left.
turns_none : (v : View) → v.left ≡ 0 → turns 1 v ≡ v
turns_none v e = ground arith

view-touch : (p : Processor) (x co : ℕ) → view co (touch p x) ≡ view co p
unfolding view
view-touch p x co = refl

resume_co_self : (p : Processor) (x : ℕ) → view x (resume_co p x) ≡ turns 1 (view x p)
unfolding resume_co
resume_co_self p x = elim (Bool-cases (can_run (p.cors x).status)) [
  | inl able ↦ rw able (
      run_until_switch_self (touch p x) x (p.cors x).yields_left (left_of (p.cors x) able)
      ∙ ap (turns 1) (view-touch p x x))
  | inr idle ↦
      rw idle
        (view-touch p x x ∙ sym (turns_none (view x p) (unfold view in none_left (p.cors x) idle)))
]

resume_co-other :
    (p : Processor) (x co : ℕ) → (x == co) ≡ false → view co (resume_co p x) ≡ view co p
unfolding resume_co
resume_co-other p x co other = elim (Bool-cases (can_run (p.cors x).status)) [
  | inl able ↦
      rw able
        (run_until_switch-other (touch p x) x co (p.cors x).yields_left other ∙ view-touch p x co)
  | inr idle ↦ rw idle (view-touch p x co)
]

ask-known : (k : ℕ) (v : View) → v.known ≡ true → ask k v ≡ turns k v
ask-known k v e = ap (λ b. if b then turns k v else v) e

ask-unknown : (k : ℕ) (v : View) → v.known ≡ false → ask k v ≡ v
ask-unknown k v e = ap (λ b. if b then turns k v else v) e

ask_zero : (v : View) → ask 0 v ≡ v
ask_zero v = elim (Bool-cases v.known) [
  | inl known ↦ ask-known 0 v known ∙ turns_zero v
  | inr unknown ↦ ask-unknown 0 v unknown
]

ask-ask : (j k : ℕ) (v : View) → ask k (ask j v) ≡ ask (j + k) v
ask-ask j k v = elim (Bool-cases v.known) [
  | inl known ↦
      ap (ask k) (ask-known j v known)
      ∙ ask-known k (turns j v) known
      ∙ turns-turns j k v
      ∙ sym (ask-known (j + k) v known)
  | inr unknown ↦
      ap (ask k) (ask-unknown j v unknown)
      ∙ ask-unknown k v unknown
      ∙ sym (ask-unknown (j + k) v unknown)
]

resume-there :
    (p : Processor) (x : ℕ)
    → contains p.cors_set x ≡ true
    → resume p x ≡ resume_co (record p { cur_coroutine = some x }) x
unfolding resume
resume-there p x e = ap (λ b. if b then resume_co (record p { cur_coroutine = some x }) x else p) e

resume-absent : (p : Processor) (x : ℕ) → contains p.cors_set x ≡ false → resume p x ≡ p
unfolding resume
resume-absent p x e = ap (λ b. if b then resume_co (record p { cur_coroutine = some x }) x else p) e

view-cur_coroutine :
    (p : Processor) (x co : ℕ) → view co (record p { cur_coroutine = some x }) ≡ view co p
unfolding view
view-cur_coroutine p x co = refl

view-known : (p : Processor) (co : ℕ) → (view co p).known ≡ contains p.cors_set co
unfolding view
view-known p co = refl

resume_self : (p : Processor) (x : ℕ) → view x (resume p x) ≡ ask 1 (view x p)
resume_self p x = elim (Bool-cases (contains p.cors_set x)) [
  | inl there ↦
      ap (view x) (resume-there p x there)
      ∙ resume_co_self (record p { cur_coroutine = some x }) x
      ∙ ap (turns 1) (view-cur_coroutine p x x)
      ∙ sym (ask-known 1 (view x p) (view-known p x ∙ there))
  | inr absent ↦
      ap (view x) (resume-absent p x absent)
      ∙ sym (ask-unknown 1 (view x p) (view-known p x ∙ absent))
]

resume-other : (p : Processor) (x co : ℕ) → (x == co) ≡ false → view co (resume p x) ≡ view co p
resume-other p x co other = elim (Bool-cases (contains p.cors_set x)) [
  | inl there ↦
      ap (view co) (resume-there p x there)
      ∙ resume_co-other (record p { cur_coroutine = some x }) x co other
      ∙ view-cur_coroutine p x co
  | inr absent ↦ ap (view co) (resume-absent p x absent)
]

-- One request for `x`.
resume-view :
    (p : Processor) (x co : ℕ) → view co (resume p x) ≡ ask (if x == co then 1 else 0) (view co p)
resume-view p x co = elim (Bool-cases (x == co)) [
  | inl same ↦
      let e = (==_iff x co).0 same in
      rw same (subst (λ k. view k (resume p x) ≡ ask 1 (view k p)) e (resume_self p x))
  | inr other ↦ rw other (resume-other p x co other ∙ sym (ask_zero (view co p)))
]

-- The first request for a coroutine takes it into the set.
abbrev pub arrive : ℕ → View → View
arrive k v = if k == 0 then v else turns k (record v { known = true })

take_in-view :
    (p : Processor) (x co : ℕ)
    → view co (take_in p x) ≡ (if x == co then record (view co p) { known = true } else view co p)
unfolding view
take_in-view p x co = elim (Bool-cases (x == co)) [
  | inl same ↦ rw same (
      View-eq _ _ (contains-insert p.cors_set x co ∙ ap (λ b. b || contains p.cors_set co) same)
        refl refl refl)
  | inr other ↦ rw other (
      View-eq _ _ (contains-insert p.cors_set x co ∙ ap (λ b. b || contains p.cors_set co) other)
        refl refl refl)
]

arrive-arrive :
    (k : ℕ) (v : View) → arrive k (turns 1 (record v { known = true })) ≡ arrive (1 + k) v
arrive-arrive zero v = refl
arrive-arrive (suc k) v = ground arith

run_pending-view :
    (co : ℕ) (pending : List ℕ) (p : Processor)
    → view co (run_pending p pending) ≡ arrive (count co pending) (view co p)
unfolding run_pending count
run_pending-view co [] p = refl
run_pending-view co (x ∷ pending) p =
    run_pending-view co pending (resume (take_in p x) x)
    ∙ ap (arrive (count co pending))
        (resume-view (take_in p x) x co ∙ ap (ask (if x == co then 1 else 0)) (take_in-view p x co))
    ∙ elim (Bool-cases (x == co)) [
      | inl same ↦ rw same (arrive-arrive (count co pending) (view co p))
      | inr other ↦ rw other (
          ap (arrive (count co pending)) (ask_zero (view co p))
          ∙ ap (λ k. arrive k (view co p)) (omega arith))
    ]

-- Null pointers among the active tasks are passed over.
unfoldable pub asked : List (Option ℕ) → List ℕ
asked [] = []
asked (none ∷ active) = asked active
asked (some x ∷ active) = x ∷ asked active

run_active-view :
    (co : ℕ) (active : List (Option ℕ)) (p : Processor)
    → view co (run_active p active) ≡ ask (count co (asked active)) (view co p)
unfolding run_active asked count
run_active-view co [] p = sym (ask_zero (view co p))
run_active-view co (none ∷ active) p = run_active-view co active p
run_active-view co (some x ∷ active) p =
    run_active-view co active (resume p x)
    ∙ ap (ask (count co (asked active))) (resume-view p x co)
    ∙ ask-ask (if x == co then 1 else 0) (count co (asked active)) (view co p)

-- A coroutine that has returned leaves the set at the end of the round.
abbrev pub settle : View → View
settle v = record v { known = v.known && not v.gone; gone = false }

clear_removed-view : (co : ℕ) (p : Processor) → view co (clear_removed p) ≡ settle (view co p)
unfolding view contains
clear_removed-view co p =
    View-eq _ _ (contains-erase_all p.cors_set p.removed_cors co) refl refl refl

-- A round of the loop, seen by any coroutine: the requests of the new coroutines take it into the
-- set, and while it is there each request, a new one or that of an active task, gives it the processor
-- once, until it returns. A request for a coroutine that is not in the set, or that has returned, and a
-- null pointer change nothing. At the end of the round a coroutine that has returned is out of the set.
pub loop_round-view :
    (co : ℕ) (p : Processor) (pending : List ℕ) (active : List (Option ℕ))
    → view co (loop_round p pending active)
      ≡ settle (ask (count co (asked active)) (arrive (count co pending) (view co p)))
unfolding loop_round
loop_round-view co p pending active =
    clear_removed-view co (run_active (run_pending p pending) active)
    ∙ ap settle (
        run_active-view co active (run_pending p pending)
        ∙ ap (ask (count co (asked active))) (run_pending-view co pending p))

-- The requests of the timer's tasks.
pub run_due-view :
    (co : ℕ) (due : List ℕ) (p : Processor)
    → view co (run_due p due) ≡ ask (count co due) (view co p)
unfolding run_due count
run_due-view co [] p = sym (ask_zero (view co p))
run_due-view co (x ∷ due) p =
    run_due-view co due (resume p x)
    ∙ ap (ask (count co due)) (resume-view p x co)
    ∙ ask-ask (if x == co then 1 else 0) (count co due) (view co p)
