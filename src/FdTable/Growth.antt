-- ===== src/FdTable/Growth.antt =====
-- What the table holds when it is used and when it grows.
use corpc.Base.{
  ℕ, zero, suc, ◌+◌, ◌-◌, ◌*◌, ◌/◌, ◌≤◌, ◌<◌, ◌≡◌, refl, sym, ap, ◌∙◌, ◌⊎◌, inl, inr, none, some,
  List, [], ◌∷◌, ◌++◌, arith, length, length-append, get_elem?, ltb, Bool-cases,
}
use corpc.FdTable.{FdEvent, new_event, push_events, create, expand, get_fd_event}

-- The event at each index is that of the descriptor.
abbrev pub IsIndexed : List FdEvent → Type 0
IsIndexed fds = (i : ℕ) (e : FdEvent) → get_elem? fds i ≡ some e → e.fd ≡ i

length-push_events :
    (fds : List FdEvent) (i count : ℕ) → length (push_events fds i count) ≡ length fds + count
unfolding push_events
length-push_events fds i zero = omega arith
length-push_events fds i (suc count) = omega (
  arith,
  length-push_events (fds ++ new_event i ∷ []) (i + 1) count,
  length-append fds (new_event i ∷ []),
)

get_elem?-snoc_old :
    (fds : List FdEvent) (x e : FdEvent) (j : ℕ)
    → get_elem? fds j ≡ some e
    → get_elem? (fds ++ x ∷ []) j ≡ some e
get_elem?-snoc_old [] x e j h = cc
get_elem?-snoc_old (y ∷ fds) x e zero h = h
get_elem?-snoc_old (y ∷ fds) x e (suc j) h = get_elem?-snoc_old fds x e j h

get_elem?-snoc_cases :
    (fds : List FdEvent) (x e : FdEvent) (j : ℕ)
    → get_elem? (fds ++ x ∷ []) j ≡ some e
    → (get_elem? fds j ≡ some e) ⊎ ((j ≡ length fds) × (x ≡ e))
get_elem?-snoc_cases [] x e zero h = inr (refl, cc)
get_elem?-snoc_cases [] x e (suc j) h = cc
get_elem?-snoc_cases (y ∷ fds) x e zero h = inl h
get_elem?-snoc_cases (y ∷ fds) x e (suc j) h = elim (get_elem?-snoc_cases fds x e j h) [
  | inl old ↦ inl old
  | inr (at_end, same) ↦ inr (omega arith, same)
]

-- Growing keeps every event where it is.
push_events-old :
    (count : ℕ) (fds : List FdEvent) (i : ℕ) (j : ℕ) (e : FdEvent)
    → get_elem? fds j ≡ some e
    → get_elem? (push_events fds i count) j ≡ some e
unfolding push_events
push_events-old zero fds i j e h = h
push_events-old (suc count) fds i j e h =
    push_events-old count (fds ++ new_event i ∷ []) (i + 1) j e
      (get_elem?-snoc_old fds (new_event i) e j h)

push_events-IsIndexed :
    (count : ℕ) (fds : List FdEvent) (i : ℕ)
    → i ≡ length fds
    → IsIndexed fds
    → IsIndexed (push_events fds i count)
unfolding push_events
push_events-IsIndexed zero fds i at_end v = v
push_events-IsIndexed (suc count) fds i at_end v =
    push_events-IsIndexed count (fds ++ new_event i ∷ []) (i + 1)
      (omega (arith, length-append fds (new_event i ∷ []))) next
  where
    next : IsIndexed (fds ++ new_event i ∷ [])
    next j e h = elim (get_elem?-snoc_cases fds (new_event i) e j h) [
      | inl old ↦ v j e old
      | inr (last, same) ↦ ap (λ x. x.fd) (sym same) ∙ omega arith
    ]

in_range : (l : List FdEvent) (i : ℕ) → i < length l → (e : FdEvent) × (get_elem? l i ≡ some e)
in_range [] i h = absurd (omega arith)
in_range (e ∷ l) zero h = (e, refl)
in_range (e ∷ l) (suc i) h = in_range l i (omega arith)

-- A new table of `size` events holds the events of the descriptors below `size`.
pub create-IsIndexed : (size : ℕ) → IsIndexed (create size) × (length (create size) ≡ size)
unfolding create
create-IsIndexed size =
    (push_events-IsIndexed size [] 0 refl (λ i e h. cc), length-push_events [] 0 size ∙ omega arith)

-- What a call of `getFdEvent` leaves of the table `fds`.
pub record Kept (fds fds' : List FdEvent) : Type 0 where
  pub indexed : IsIndexed fds'
  pub larger : length fds ≤ length fds'
  pub same : (j : ℕ) (e : FdEvent) → get_elem? fds j ≡ some e → get_elem? fds' j ≡ some e

pub Kept-self : (fds : List FdEvent) → IsIndexed fds → Kept fds fds
Kept-self fds v = record { indexed = v; larger = omega arith; same = λ j e h. h }

expand-Kept : (fds : List FdEvent) (fd : ℕ) → IsIndexed fds → Kept fds (expand fds fd)
unfolding expand
expand-Kept fds fd v = record {
  indexed = push_events-IsIndexed (fd * 3 / 2 - length fds) fds (length fds) refl v;
  larger = omega (arith, length-push_events fds (length fds) (fd * 3 / 2 - length fds));
  same = push_events-old (fd * 3 / 2 - length fds) fds (length fds);
}

length-expand :
    (fds : List FdEvent) (fd : ℕ) → length fds ≤ fd → 2 ≤ fd → fd < length (expand fds fd)
unfolding expand
length-expand fds fd short large =
    omega (arith, length-push_events fds (length fds) (fd * 3 / 2 - length fds))

-- For a table that holds at each index the event of that descriptor, and a descriptor that is in the
-- table or not below 2, `getFdEvent` returns the descriptor's event: the one that the table held, if
-- any. It keeps every event at its index, and the larger table again holds at each index the event of
-- that descriptor.
pub get_fd_event-Kept :
    (fds : List FdEvent) (fd : ℕ)
    → IsIndexed fds
    → (fd < length fds) ⊎ (2 ≤ fd)
    → Kept fds (get_fd_event fds fd).1
      × ((e : FdEvent) × ((get_fd_event fds fd).0 ≡ some e)
          × (e.fd ≡ fd)
          × (get_elem? (get_fd_event fds fd).1 fd ≡ some e))
unfolding get_fd_event
get_fd_event-Kept fds fd v h = elim (Bool-cases (ltb fd (length fds))) [
  | inl inside ↦
      let (e, here) = in_range fds fd (ground arith) in
      rw inside (Kept-self fds v, (e, here, v fd e here, here))
  | inr outside ↦
      let short : length fds ≤ fd = ground arith in
      let large : 2 ≤ fd = elim h [ inl inside ↦ absurd (omega arith) | inr l ↦ l ] in
      let k = expand-Kept fds fd v in
      let (e, here) = in_range (expand fds fd) fd (length-expand fds fd short large) in
      rw outside (k, (e, here, k.indexed fd e here, here))
]

-- In an empty table, the growth for descriptor 0 or 1 does not reach the descriptor, and `getFdEvent`
-- reads past the end of the table.
pub get_fd_event_small : (fd : ℕ) → fd < 2 → (get_fd_event [] fd).0 ≡ none
unfolding get_fd_event expand push_events
get_fd_event_small zero h = refl
get_fd_event_small (suc zero) h = refl
get_fd_event_small (suc (suc fd)) h = absurd (omega arith)
