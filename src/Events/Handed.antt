-- ===== src/Events/Handed.antt =====
-- src/event/select_event_handler.c: what `get_event` hands out of the events that are watched.
use gnb_udp_over_tcp.Prelude.{
  ℕ, zero, suc, ◌≤◌, ◌<◌, ◌≡◌, refl, sym, ap, ◌∙◌, inl, inr, Bool, true, false, ◌||◌, Option, none,
  some, List, [], ◌∷◌, ◌==◌, if◌then◌else◌, length, get_elem?, ◌↔◌, ◌&&◌, map, take, ◌>>=◌, arith,
  Bool-cases, ℕ_discrete, update_self, update_ne,
}
use gnb_udp_over_tcp.Events.{GnbEvent, EventArray}
use gnb_udp_over_tcp.Events.Select.{FdSet, SelectCtx, ready, max_get_event, collect_all, select_get}
use gnb_udp_over_tcp.Events.Registry.{IsValid, Watches, entry-Watches}
use gnb_udp_over_tcp.Events.Ready.{
  is_ready, ready_events, type_of, type_in, ready_type-type_in, marked, mark, collect_all-ready,
  collect_all-overflow,
}

abbrev pub listed : ℕ → List ℕ → Bool
listed q [] = false
listed q (p ∷ ps) = q == p || listed q ps

if_same {ℓ} : {A : Type ℓ} (b : Bool) (v : A) → (if b then v else v) ≡ v
if_same true v = refl
if_same false v = refl

mark-listed :
    (r w x : FdSet) (fd_of : ℕ → ℕ) (ps : List ℕ) (events : ℕ → GnbEvent) (q : ℕ)
    → mark r w x fd_of ps events q
      ≡ (if listed q ps then record (events q) { ev_type = type_of r w x fd_of q } else events q)
mark-listed r w x fd_of [] events q = refl
mark-listed r w x fd_of (p ∷ ps) events q =
    mark-listed r w x fd_of ps (marked r w x fd_of p events) q ∙ elim (ℕ_discrete q p) [
      | yes same ↦
          let self : marked r w x fd_of p events q
              ≡ record (events q) { ev_type = type_of r w x fd_of q } =
            rw same (update_self events p _) in
          let here : listed q (p ∷ ps) ≡ true = ground arith in
          rw self (
            if_same (listed q ps) _
            ∙ ap
                (λ b. if b then record (events q) { ev_type = type_of r w x fd_of q } else events q)
                (sym here))
      | no other ↦
          let kept : marked r w x fd_of p events q ≡ events q = update_ne events _ q other in
          let there : listed q (p ∷ ps) ≡ listed q ps = ground arith in rw kept (rw there refl)
    ]

-- The watched events in the order of the array.
abbrev pub pointers : List (Option ℕ) → List ℕ
pointers [] = []
pointers (none ∷ list) = pointers list
pointers (some p ∷ list) = p ∷ pointers list

abbrev pub watched_events : EventArray → List ℕ
watched_events a = pointers (take a.nevent a.list)

take-pointers :
    (n : ℕ) (list : List (Option ℕ))
    → ((i : ℕ) → i < n → (p : ℕ) × (get_elem? list i ≡ some (some p)))
    → take n list ≡ map some (pointers (take n list))
take-pointers zero list h = refl
take-pointers (suc n) [] h = absurd (let (p, e) = h 0 (omega arith) in cc)
take-pointers (suc n) (none ∷ list) h = absurd (let (p, e) = h 0 (omega arith) in cc)
take-pointers (suc n) (some p ∷ list) h =
    ap (λ l. some p ∷ l) (take-pointers n list (λ i k. h (suc i) (omega arith)))

pointers-place :
    (n : ℕ) (list : List (Option ℕ)) (q : ℕ)
    → listed q (pointers (take n list)) ≡ true
    → (i : ℕ) × (i < n) × (get_elem? list i ≡ some (some q))
pointers-place zero list q h = cc
pointers-place (suc n) [] q h = cc
pointers-place (suc n) (none ∷ list) q h =
    let (i, below, found) = pointers-place n list q h in (suc i, omega arith, found)
pointers-place (suc n) (some p ∷ list) q h = elim (ℕ_discrete q p) [
  | yes same ↦ (0, omega arith, rw same refl)
  | no other ↦
      let (i, below, found) = pointers-place n list q (ground arith) in (suc i, omega arith, found)
]

place-pointers :
    (n : ℕ) (list : List (Option ℕ)) (q i : ℕ)
    → i < n
    → get_elem? list i ≡ some (some q)
    → listed q (pointers (take n list)) ≡ true
place-pointers zero list q i h e = absurd (omega arith)
place-pointers (suc n) [] q i h e = cc
place-pointers (suc n) (none ∷ list) q zero h e = cc
place-pointers (suc n) (none ∷ list) q (suc i) h e = place-pointers n list q i (omega arith) e
place-pointers (suc n) (some p ∷ list) q zero h e = ground arith
place-pointers (suc n) (some p ∷ list) q (suc i) h e =
    let rest = place-pointers n list q i (omega arith) e in ground arith

&&-false : (b : Bool) → (b && false) ≡ false
&&-false true = refl
&&-false false = refl

&&-left : (a b : Bool) → (a && b) ≡ true → a ≡ true
&&-left true b h = refl
&&-left false b h = h

&&-right : (a b : Bool) → (a && b) ≡ true → b ≡ true
&&-right true b h = h
&&-right false b h = absurd (let e : false ≡ true = h in cc)

length-nil : (xs : List ℕ) → length xs ≡ 0 → xs ≡ []
length-nil [] h = refl
length-nil (x ∷ xs) h = absurd (omega arith)

listed-ready_events :
    (r w x : FdSet) (fd_of : ℕ → ℕ) (ps : List ℕ) (q : ℕ)
    → listed q (ready_events r w x fd_of ps) ≡ (listed q ps && is_ready r w x fd_of q)
listed-ready_events r w x fd_of [] q = refl
listed-ready_events r w x fd_of (p ∷ ps) q =
    let ih = listed-ready_events r w x fd_of ps q in
    elim (ℕ_discrete q p) [
      | yes same ↦
          let alike : is_ready r w x fd_of q ≡ is_ready r w x fd_of p =
            ap (is_ready r w x fd_of) same in
          let here : (q == p) ≡ true = ground arith in
          elim (Bool-cases (is_ready r w x fd_of p)) [
            | inl good ↦ rw (good, listed) (rw (here, alike, good) refl)
            | inr skip ↦ rw skip (ih ∙ rw (here, alike, skip) (&&-false (listed q ps)))
          ]
      | no other ↦
          let there : (q == p) ≡ false = ground arith in
          elim (Bool-cases (is_ready r w x fd_of p)) [
            | inl good ↦ rw (good, there) ih
            | inr skip ↦ rw (skip, there) ih
          ]
    ]

module _ (c : SelectCtx) (n : ℕ) (r w x : FdSet) (v : IsValid c.event_array) where
  open c use {event_array}

  abbrev fd_of : ℕ → ℕ
  fd_of p = (event_array.events p).fd

  abbrev pub on : List ℕ
  on = ready_events r w x fd_of (watched_events event_array)

  in_array : take event_array.nevent event_array.list ≡ map some (watched_events event_array)
  in_array =
      take-pointers event_array.nevent event_array.list
        λ i h. let (p, found, at) = v.entry i h in (p, found)

  on-Watches :
      (q : ℕ) → (listed q on ≡ true) ↔ (Watches event_array q × (is_ready r w x fd_of q ≡ true))
  on-Watches q =
      let parts = listed-ready_events r w x fd_of (watched_events event_array) q in
      (
        λ (h : listed q on ≡ true).
            let both : (listed q (watched_events event_array) && is_ready r w x fd_of q) ≡ true =
              sym parts ∙ h in
            let (i, below, found) =
              pointers-place event_array.nevent event_array.list q (&&-left _ _ both) in
            (entry-Watches event_array v i q below found, &&-right _ _ both),
        λ (h : Watches event_array q × (is_ready r w x fd_of q ≡ true)).
            let inside = place-pointers event_array.nevent event_array.list q _ h.0.0 h.0.1 in
            parts ∙ rw inside h.1,
      )

  handed : ℕ → GnbEvent
  handed = mark r w x fd_of on event_array.events

  abbrev after : List ℕ × (ℕ → GnbEvent) → Option (List ℕ × SelectCtx)
  after got = some (got.0, record c { event_array = record event_array { events = got.1 } })

  select_get-handed :
      length on ≤ n
      → length on ≤ max_get_event
      → select_get (ready n r w x) c
        ≡ some (on, record c { event_array = record event_array { events = handed } })
  unfolding select_get handed
  select_get-handed enough small = elim (Bool-cases (n == 0)) [
    | inl zero_ready ↦
        let empty : on ≡ [] = length-nil on (ground arith) in
        rw zero_ready (
          ap
            (λ (l : List ℕ). some (
              l,
              record c {
                event_array = record event_array { events = mark r w x fd_of l event_array.events };
              },
            ))
            (sym empty))
    | inr some_ready ↦ rw some_ready (
        ap (λ l. collect_all r w x n l [] event_array.events >>= after) in_array
        ∙ ap (λ o. o >>= after)
            (collect_all-ready r w x fd_of n (watched_events event_array) [] event_array.events
              (λ p. refl) (omega arith) (omega arith) (ground arith)))
  ]

  -- For an array whose first nevent places are taken by events that know their place, and an
  -- answer of select whose count is at least the number of watched events that stand in one of its
  -- three sets, with no more than 100 of these: get_event of the select handler returns these
  -- events in the order of the array, an event is among them exactly when it is watched and stands
  -- in a set, the type of each becomes the sum of 1 where it stands in the set for reading, 2 in
  -- the set for writing and 16 in that for exceptions, and all else in memory stays.
  pub select_get-ready :
      length on ≤ n
      → length on ≤ 100
      → (events : ℕ → GnbEvent) × (select_get (ready n r w x) c
          ≡ some (on, record c { event_array = record event_array { events = events } }))
        × ((q : ℕ)
            → (listed q on ≡ true) ↔ (Watches event_array q × (is_ready r w x fd_of q ≡ true)))
        × ((q : ℕ)
            → events q ≡ (
                if listed q on
                then record (event_array.events q) {
                  ev_type = type_in (r (fd_of q)) (w (fd_of q)) (x (fd_of q));
                }
                else event_array.events q))
  unfolding handed
  select_get-ready enough small = (
    handed,
    select_get-handed enough small,
    on-Watches,
    λ q.
        mark-listed r w x fd_of on event_array.events q
        ∙ rw (ready_type-type_in (r (fd_of q)) (w (fd_of q)) (x (fd_of q))) refl,
  )

  -- For an array whose first nevent places are taken by events that know their place, and an
  -- answer of select whose count is at least the number of watched events that stand in one of its
  -- three sets: where these are more than 100, get_event of the select handler writes behind the
  -- list that it is given.
  pub select_get-overflow : length on ≤ n → 100 < length on → select_get (ready n r w x) c ≡ none
  unfolding select_get
  select_get-overflow enough over =
      let some_ready : (n == 0) ≡ false = ground arith in
      rw some_ready (
        rw in_array (
          rw
            (collect_all-overflow r w x fd_of n (watched_events event_array) [] event_array.events
              (λ p. refl) (omega arith) (omega arith) (omega arith))
            refl))
