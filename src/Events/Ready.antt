-- ===== src/Events/Ready.antt =====
-- src/event/select_event_handler.c: which events `get_event` hands out, and with which `ev_type`.
use gnb_udp_over_tcp.Prelude.{
  ℕ, suc, ◌+◌, ◌≤◌, ◌<◌, ◌≡◌, refl, ap, ◌∙◌, inl, inr, Bool, true, false, ◌||◌, none, some, List,
  [], ◌∷◌, ◌++◌, append-nil, append_assoc, leb, ◌==◌, if◌then◌else◌, length, update, map,
  length-append, arith, Bool-cases, dec_lt,
}
use gnb_udp_over_tcp.Events.{GnbEvent}
use gnb_udp_over_tcp.Events.Select.{FdSet, ready_type, max_get_event, collect, collect_all}

-- The events among `ps` that stand in one of the sets, in their order.
module _ (r w x : FdSet) (fd_of : ℕ → ℕ) where
  abbrev pub is_ready : ℕ → Bool
  is_ready p = r (fd_of p) || w (fd_of p) || x (fd_of p)

  abbrev pub ready_events : List ℕ → List ℕ
  ready_events [] = []
  ready_events (p ∷ ps) = if is_ready p then p ∷ ready_events ps else ready_events ps

  abbrev pub type_of : ℕ → ℕ
  type_of p = ready_type (r (fd_of p)) (w (fd_of p)) (x (fd_of p))

  -- The round of the loop for an event that is ready.
  abbrev pub marked : ℕ → (ℕ → GnbEvent) → ℕ → GnbEvent
  marked p events = update events p (record (events p) { ev_type = type_of p })

  abbrev pub mark : List ℕ → (ℕ → GnbEvent) → ℕ → GnbEvent
  mark [] events = events
  mark (p ∷ ps) events = mark ps (marked p events)

-- The type for the sets that a descriptor is in: 1 for reading, 2 for writing, 16 for exceptions.
abbrev pub type_in : Bool → Bool → Bool → ℕ
type_in in_read in_write in_except =
    (if in_read then 1 else 0) + (if in_write then 2 else 0) + (if in_except then 16 else 0)

pub ready_type-type_in : (r w x : Bool) → ready_type r w x ≡ type_in r w x
unfolding ready_type
ready_type-type_in false false false = refl
ready_type-type_in false false true = refl
ready_type-type_in false true false = refl
ready_type-type_in false true true = refl
ready_type-type_in true false false = refl
ready_type-type_in true false true = refl
ready_type-type_in true true false = refl
ready_type-type_in true true true = refl

ready_type-zero : (r w x : Bool) → (r || w || x) ≡ false → ready_type r w x ≡ 0
unfolding ready_type
ready_type-zero false false false h = refl
ready_type-zero true w x h = cc
ready_type-zero false true x h = cc
ready_type-zero false false true h = cc

ready_type-pos : (r w x : Bool) → (r || w || x) ≡ true → (ready_type r w x == 0) ≡ false
unfolding ready_type
ready_type-pos false false false h = cc
ready_type-pos false false true h = refl
ready_type-pos false true false h = refl
ready_type-pos false true true h = refl
ready_type-pos true false false h = refl
ready_type-pos true false true h = refl
ready_type-pos true true false h = refl
ready_type-pos true true true h = refl

module _ (r w x : FdSet) (fd_of : ℕ → ℕ) (n : ℕ) where
  collect-skip :
      (p : ℕ) (out : List ℕ) (events : ℕ → GnbEvent)
      → (events p).fd ≡ fd_of p
      → is_ready r w x fd_of p ≡ false
      → collect r w x p out events ≡ some (out, events)
  unfolding collect
  collect-skip p out events fds h =
      rw fds (rw (ready_type-zero (r (fd_of p)) (w (fd_of p)) (x (fd_of p)) h) refl)

  collect-take :
      (p : ℕ) (out : List ℕ) (events : ℕ → GnbEvent)
      → (events p).fd ≡ fd_of p
      → is_ready r w x fd_of p ≡ true
      → length out < max_get_event
      → collect r w x p out events ≡ some (out ++ p ∷ [], marked r w x fd_of p events)
  unfolding collect
  collect-take p out events fds h room =
      let open_room : leb max_get_event (length out) ≡ false = ground arith in
      rw fds (rw (ready_type-pos (r (fd_of p)) (w (fd_of p)) (x (fd_of p)) h) (rw open_room refl))

  collect-full :
      (p : ℕ) (out : List ℕ) (events : ℕ → GnbEvent)
      → (events p).fd ≡ fd_of p
      → is_ready r w x fd_of p ≡ true
      → max_get_event ≤ length out
      → collect r w x p out events ≡ none
  unfolding collect
  collect-full p out events fds h full =
      let no_room : leb max_get_event (length out) ≡ true = ground arith in
      rw fds (rw (ready_type-pos (r (fd_of p)) (w (fd_of p)) (x (fd_of p)) h) (rw no_room refl))

  marked-fd :
      (p : ℕ) (events : ℕ → GnbEvent) (q : ℕ) → (marked r w x fd_of p events q).fd ≡ (events q).fd
  marked-fd p events q = ground arith

  ready_events-nil :
      (ps : List ℕ) → length (ready_events r w x fd_of ps) ≡ 0 → ready_events r w x fd_of ps ≡ []
  ready_events-nil ps h = ground arith

  ready_cons :
      (p : ℕ) (ps : List ℕ)
      → is_ready r w x fd_of p ≡ true
      → ready_events r w x fd_of (p ∷ ps) ≡ p ∷ ready_events r w x fd_of ps
  ready_cons p ps h = rw h refl

  ready_skip :
      (p : ℕ) (ps : List ℕ)
      → is_ready r w x fd_of p ≡ false
      → ready_events r w x fd_of (p ∷ ps) ≡ ready_events r w x fd_of ps
  ready_skip p ps h = rw h refl

  pub collect_all-ready :
      (ps out : List ℕ) (events : ℕ → GnbEvent)
      → ((p : ℕ) → (events p).fd ≡ fd_of p)
      → length out + length (ready_events r w x fd_of ps) ≤ max_get_event
      → length out + length (ready_events r w x fd_of ps) ≤ n
      → length out < n
      → collect_all r w x n (map some ps) out events
        ≡ some (
          out ++ ready_events r w x fd_of ps,
          mark r w x fd_of (ready_events r w x fd_of ps) events,
        )
  unfolding collect_all
  collect_all-ready [] out events fds small enough under = rw (append-nil out) refl
  collect_all-ready (p ∷ ps) out events fds small enough under =
      elim (Bool-cases (is_ready r w x fd_of p)) [
        | inl good ↦
            let count : length (ready_events r w x fd_of (p ∷ ps))
                ≡ suc (length (ready_events r w x fd_of ps)) =
              ap length (ready_cons p ps good) in
            let longer = length-append out (p ∷ []) in
            let rest = marked r w x fd_of p events in
            rw (collect-take p out events (fds p) good (omega arith))
              (elim (Bool-cases (length (out ++ p ∷ []) == n)) [
                | inl full ↦
                    let none_left : ready_events r w x fd_of ps ≡ [] =
                      ready_events-nil ps (ground (arith, longer, count)) in
                    rw full (rw good (rw none_left refl))
                | inr going ↦
                    let step =
                      collect_all-ready ps (out ++ p ∷ []) rest (λ q. marked-fd p events q ∙ fds q)
                        (omega (arith, longer, count)) (omega (arith, longer, count))
                        (ground (arith, longer, count)) in
                    rw going (
                      rw good
                        (step ∙ rw (append_assoc out (p ∷ []) (ready_events r w x fd_of ps)) refl))
              ])
        | inr skip ↦
            let more : (length out == n) ≡ false = ground arith in
            let count : length (ready_events r w x fd_of (p ∷ ps))
                ≡ length (ready_events r w x fd_of ps) =
              ap length (ready_skip p ps skip) in
            rw (collect-skip p out events (fds p) skip) (
              rw more (
                rw skip (
                  collect_all-ready ps out events fds (omega (arith, count)) (omega (arith, count))
                    under)))
      ]

  pub collect_all-overflow :
      (ps out : List ℕ) (events : ℕ → GnbEvent)
      → ((p : ℕ) → (events p).fd ≡ fd_of p)
      → length out ≤ max_get_event
      → max_get_event < n
      → max_get_event < length out + length (ready_events r w x fd_of ps)
      → collect_all r w x n (map some ps) out events ≡ none
  unfolding collect_all
  collect_all-overflow [] out events fds small enough over = absurd (omega arith)
  collect_all-overflow (p ∷ ps) out events fds small enough over =
      elim (Bool-cases (is_ready r w x fd_of p)) [
        | inl good ↦
            let count = ap length (ready_cons p ps good) in
            let longer = length-append out (p ∷ []) in
            elim (dec_lt (length out) max_get_event) [
              | yes room ↦
                  let going : (length (out ++ p ∷ []) == n) ≡ false = ground (arith, longer) in
                  rw (collect-take p out events (fds p) good room) (
                    rw going (
                      collect_all-overflow ps (out ++ p ∷ []) (marked r w x fd_of p events)
                        (λ q. marked-fd p events q ∙ fds q) (omega (arith, longer)) enough
                        (omega (arith, longer, count))))
              | no full ↦ rw (collect-full p out events (fds p) good (omega arith)) refl
            ]
        | inr skip ↦
            let more : (length out == n) ≡ false = ground arith in
            let count = ap length (ready_skip p ps skip) in
            rw (collect-skip p out events (fds p) skip)
              (rw more (collect_all-overflow ps out events fds small enough (omega (arith, count))))
      ]
