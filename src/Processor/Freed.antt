-- ===== src/Processor/Freed.antt =====
-- No object of a coroutine is used behind its deletion.
use corpc.Base.{
  ℕ, zero, suc, ◌+◌, ◌≡◌, refl, sym, ap, ◌∙◌, inl, inr, Bool, true, false, not, Option, none, some,
  List, [], ◌∷◌, ◌++◌, ◌==◌, ◌&&◌, ◌||◌, Bool-cases, arith,
}
use corpc.Processor.{
  Processor, contains, run_until_switch, can_run, touch, resume_co, resume, take_in, run_pending,
  run_active, clear_removed, run_due, loop_round,
}
use corpc.Processor.Turns.{turns_left, count, View, view, ask, contains-insert, contains-erase_all}
use corpc.Processor.Rounds.{asked, arrive, settle, loop_round-view, run_due-view}

-- Deleted objects are not in the set, and none was used.
abbrev pub Sound : Processor → Type 0
Sound p =
    ((co : ℕ) → contains p.freed co ≡ true → contains p.cors_set co ≡ false)
    × (p.use_after_free ≡ false)

-- The new coroutines are none of the deleted ones.
abbrev pub IsNew : Processor → List ℕ → Type 0
IsNew p pending = (co : ℕ) → contains p.freed co ≡ true → contains pending co ≡ false

clash : {b : Bool} → b ≡ true → b ≡ false → ⊥
clash s t = both (sym s ∙ t)
  where
    both : true ≡ false → ⊥
    both e = cc

abbrev Alike : Processor → Processor → Type 0
Alike p q = (q.freed ≡ p.freed) × (q.cors_set ≡ p.cors_set)

run_until_switch-Alike :
    (p : Processor) (co yields : ℕ)
    → Alike p (run_until_switch p co yields)
      × ((run_until_switch p co yields).use_after_free ≡ p.use_after_free)
unfolding run_until_switch
run_until_switch-Alike p co zero = ((refl, refl), refl)
run_until_switch-Alike p co (suc yields) = ((refl, refl), refl)

resume_co-Alike :
    (p : Processor) (co : ℕ)
    → Alike p (resume_co p co)
      × ((resume_co p co).use_after_free ≡ (p.use_after_free || contains p.freed co))
unfolding resume_co
resume_co-Alike p co = elim (Bool-cases (can_run (p.cors co).status)) [
  | inl able ↦ rw able (
      run_until_switch-Alike (record (touch p co) { ran = p.ran ++ co ∷ [] }) co
        (p.cors co).yields_left)
  | inr idle ↦ rw idle ((refl, refl), refl)
]

Sound-Alike : (p q : Processor) → Sound p → Alike p q → q.use_after_free ≡ false → Sound q
Sound-Alike p q s (f, e) unused =
    (λ co h. ap (λ l. contains l co) e ∙ s.0 co (ap (λ l. contains l co) (sym f) ∙ h), unused)

resume-Sound :
    (p : Processor) (co : ℕ) → Sound p → Sound (resume p co) × ((resume p co).freed ≡ p.freed)
unfolding resume
resume-Sound p co s = elim (Bool-cases (contains p.cors_set co)) [
  | inl there ↦
      let p' = record p { cur_coroutine = some co } in
      let ((f, e), used) = resume_co-Alike p' co in
      let alive : contains p.freed co ≡ false = elim (Bool-cases (contains p.freed co)) [
        | inl gone ↦ absurd (clash there (s.0 co gone))
        | inr alive ↦ alive
      ] in
      rw there (Sound-Alike p (resume_co p' co) s (f, e) (used ∙ rw (s.1, alive) refl), f)
  | inr absent ↦ rw absent (s, refl)
]

run_due-Sound :
    (p : Processor) (due : List ℕ)
    → Sound p
    → Sound (run_due p due) × ((run_due p due).freed ≡ p.freed)
unfolding run_due
run_due-Sound p [] s = (s, refl)
run_due-Sound p (co ∷ due) s =
    let (s', e) = resume-Sound p co s in
    let (s'', e') = run_due-Sound (resume p co) due s' in (s'', e' ∙ e)

run_active-Sound :
    (p : Processor) (active : List (Option ℕ)) → Sound p → Sound (run_active p active)
unfolding run_active
run_active-Sound p [] s = s
run_active-Sound p (none ∷ active) s = run_active-Sound p active s
run_active-Sound p (some co ∷ active) s =
    run_active-Sound (resume p co) active (resume-Sound p co s).0

run_pending-Sound :
    (p : Processor) (pending : List ℕ) → Sound p → IsNew p pending → Sound (run_pending p pending)
unfolding run_pending contains
run_pending-Sound p [] s new = s
run_pending-Sound p (x ∷ pending) s new =
    let taken : Sound (take_in p x) = (
      λ co h.
          contains-insert p.cors_set x co
          ∙ (let other : (x == co) ≡ false = front (x == co) (contains pending co) (new co h) in
              rw (other, s.0 co h) refl),
      s.1,
    ) in
    let (s', e) = resume-Sound (take_in p x) x taken in
    run_pending-Sound (resume (take_in p x) x) pending s' (λ co h.
      behind (x == co) (contains pending co) (new co (ap (λ l. contains l co) (sym e) ∙ h)))
  where
    front : (a b : Bool) → (a || b) ≡ false → a ≡ false
    front a b h = ground arith

    behind : (a b : Bool) → (a || b) ≡ false → b ≡ false
    behind a b h = ground arith

contains-append_list :
    (xs ys : List ℕ) (a : ℕ) → contains (xs ++ ys) a ≡ (contains xs a || contains ys a)
unfolding contains
contains-append_list [] ys a = refl
contains-append_list (x ∷ xs) ys a = ground (arith, contains-append_list xs ys a)

clear_removed-Sound : (p : Processor) → Sound p → Sound (clear_removed p)
clear_removed-Sound p s = (
  λ co h.
      contains-erase_all p.cors_set p.removed_cors co
      ∙ elim (Bool-cases (contains p.removed_cors co)) [
        | inl gone ↦ rw gone (and_false (contains p.cors_set co))
        | inr stays ↦
            let freed : contains p.freed co ≡ true =
              ap (λ b. b || contains p.freed co) (sym stays)
              ∙ sym (contains-append_list p.removed_cors p.freed co)
              ∙ h in
            rw (stays, s.0 co freed) refl
      ],
  s.1,
)
  where
    and_false : (b : Bool) → (b && not true) ≡ false
    and_false b = ground arith

-- What a round is given: the coroutines that the timer's tasks resume, the new ones and the active
-- tasks.
pub record Given : Type 0 where
  pub due : List ℕ
  pub pending : List ℕ
  pub active : List (Option ℕ)

abbrev pub given_round : Processor → Given → Processor
given_round p g = loop_round (run_due p g.due) g.pending g.active

unfoldable pub loop_rounds : Processor → List Given → Processor
loop_rounds p [] = p
loop_rounds p (g ∷ gs) = loop_rounds (given_round p g) gs

abbrev pub AreNew : Processor → List Given → Type 0
AreNew p [] = Unit
AreNew p (g ∷ gs) = IsNew p g.pending × AreNew (given_round p g) gs

given_round-Sound :
    (p : Processor) (g : Given) → Sound p → IsNew p g.pending → Sound (given_round p g)
unfolding loop_round
given_round-Sound p g s new =
    let (s', e) = run_due-Sound p g.due s in
    clear_removed-Sound (run_active (run_pending (run_due p g.due) g.pending) g.active) (
      run_active-Sound (run_pending (run_due p g.due) g.pending) g.active (
        run_pending-Sound (run_due p g.due) g.pending s'
          (λ co h. new co (ap (λ l. contains l co) (sym e) ∙ h))))

turns_sum :
    (i j k : ℕ) (v : View)
    → (settle (ask k (arrive j (ask i v)))).runs + (settle (ask k (arrive j (ask i v)))).left
      ≡ v.runs + v.left
turns_sum i j k v = ground arith

-- Over any rounds, whatever is requested by the timer's tasks and the active tasks, also by pointers to
-- coroutines that have returned and whose objects are deleted: no deleted object is used, and for every
-- coroutine, how often it has got the processor and how often it still can add up to the same number,
-- so that none runs behind its return. No deleted object is in the set to begin with, none was used, and
-- the new coroutines are none of the deleted ones.
pub loop_rounds-Sound :
    (p : Processor) (gs : List Given)
    → Sound p
    → AreNew p gs
    → Sound (loop_rounds p gs)
      × ((co : ℕ)
          → count co (loop_rounds p gs).ran + turns_left ((loop_rounds p gs).cors co)
            ≡ count co p.ran + turns_left (p.cors co))
unfolding loop_rounds view
loop_rounds-Sound p [] s new = (s, λ co. refl)
loop_rounds-Sound p (g ∷ gs) s (new, later) =
    let (s', same) = loop_rounds-Sound (given_round p g) gs (given_round-Sound p g s new) later in
    (
      s',
      λ co.
          same co
          ∙ ap (λ (v : View). v.runs + v.left)
              (loop_round-view co (run_due p g.due) g.pending g.active
                ∙ ap (λ v. settle (ask (count co (asked g.active)) (arrive (count co g.pending) v)))
                    (run_due-view co g.due p))
          ∙ turns_sum (count co g.due) (count co g.pending) (count co (asked g.active)) (view co p),
    )
