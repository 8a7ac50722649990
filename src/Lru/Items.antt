-- ===== src/Lru/Items.antt =====
-- What src/gnb_lru32.c promises, without the structures: a list of keys with their data, of limited
-- length, in which a put or a use moves a key to the front as far as the code does it.
use gnb_udp_over_tcp.Prelude.{
  ℕ, ◌≡◌, refl, ap, ◌∙◌, sym, subst, Bool, Option, none, some, List, [], ◌∷◌, ◌++◌, map, ltb, leb,
  if◌then◌else◌, length, length-map, length-append, inl, inr, Bool-cases, arith,
}
use gnb_udp_over_tcp.Hash32.{same_bytes}
use gnb_udp_over_tcp.Hash32.Chain.{same_bytes_eq, same_bytes_refl}
use gnb_udp_over_tcp.Lru.Counts.{
  find, remove, count, find-map, find-append, find-split, remove-map, remove-append,
}
use gnb_udp_over_tcp.Lru.Index.{Entry, for_key}
use gnb_udp_over_tcp.Lru.Touch.{touched}
use gnb_udp_over_tcp.Lru.Put.{with_udata}

pub record Item : Type 0 where
  pub key : List ℕ
  pub udata : Option ℕ

abbrev pub is_key : List ℕ → Item → Bool
is_key key i = same_bytes key i.key

abbrev pub look : List ℕ → List Item → Option Item
look key items = find (is_key key) items

abbrev pub move_up : List ℕ → List Item → Option Item → List Item
move_up key items none = items
move_up key items (some i) = if ltb 2 (length items) then i ∷ remove (is_key key) items else items

-- A use of a key. It does not change the order of one or two items.
abbrev pub touch : List ℕ → List Item → List Item
touch key items = move_up key items (look key items)

abbrev pub exchange : List ℕ → Option ℕ → List Item → List Item
exchange key u [] = []
exchange key u (i ∷ items) =
    let rest = exchange key u items in
    (if same_bytes key i.key then record i { udata = u } else i) ∷ rest

abbrev pub last_udata : List Item → Option ℕ
last_udata [] = none
last_udata (i ∷ items) = let rest = last_udata items in elim items [ [] ↦ i.udata | _ ∷ _ ↦ rest ]

abbrev pub drop_last : List Item → List Item
drop_last [] = []
drop_last (i ∷ items) = let rest = drop_last items in elim items [ [] ↦ [] | _ ∷ _ ↦ i ∷ rest ]

abbrev pub first_udata : List Item → Option ℕ
first_udata [] = none
first_udata (i ∷ items) = i.udata

abbrev pub drop_first : List Item → List Item
drop_first [] = []
drop_first (i ∷ items) = items

abbrev pub udata_of : Option Item → Option ℕ
udata_of none = none
udata_of (some i) = i.udata

abbrev pub put_at : ℕ → List ℕ → Option ℕ → List Item → Option Item → Option ℕ × List Item
put_at max_size key u items (some _) = (none, exchange key u (touch key items))
put_at max_size key u items none =
    if leb max_size (length items)
    then (last_udata items, record { key = key; udata = u } ∷ drop_last items)
    else (none, record { key = key; udata = u } ∷ items)

-- The data that are pushed out, and the items.
abbrev pub put_item : ℕ → List ℕ → Option ℕ → List Item → Option ℕ × List Item
put_item max_size key u items = put_at max_size key u items (look key items)

abbrev pub item : Entry → Item
item e = record { key = e.key; udata = e.udata }

abbrev pub items_of : List Entry → List Item
items_of es = map item es

-- A property of a key that is found holds when it holds of the key of an entry.
pub by_entry :
    (P : List ℕ → List Entry → Type 0) (key : List ℕ) (es : List Entry) (e : Entry)
    → find (for_key key) es ≡ some e
    → ((xs ys : List Entry)
        → find (for_key e.key) (xs ++ e ∷ ys) ≡ some e
        → count (for_key e.key) xs ≡ 0
        → P e.key (xs ++ e ∷ ys))
    → P key es
by_entry P key es e found p =
    let (xs, ys, at, test, away) = find-split (for_key key) es e found in
    let same : key ≡ e.key = same_bytes_eq key e.key test in
    let away' : count (for_key e.key) xs ≡ 0 = ap (λ k. count (for_key k) xs) (sym same) ∙ away in
    let found' : find (for_key e.key) (xs ++ e ∷ ys) ≡ some e =
      find-append (for_key e.key) xs (e ∷ ys) away' ∙ rw (same_bytes_refl e.key) refl in
    subst (λ k. P k es) (sym same) (subst (P e.key) (sym at) (p xs ys found' away'))

pub look-missing :
    (key : List ℕ) (es : List Entry) → find (for_key key) es ≡ none → look key (items_of es) ≡ none
look-missing key es e =
    find-map (is_key key) item es ∙ ap (λ o. elim o [ none ↦ none | some a ↦ some (item a) ]) e

pub items-append : (xs ys : List Entry) → items_of (xs ++ ys) ≡ items_of xs ++ items_of ys
items-append [] ys = refl
items-append (x ∷ xs) ys = ap (λ l. item x ∷ l) (items-append xs ys)

pub last-lem :
    (xs : List Entry) (e : Entry)
    → (last_udata (items_of (xs ++ e ∷ [])) ≡ e.udata)
      × (drop_last (items_of (xs ++ e ∷ [])) ≡ items_of xs)
last-lem [] e = (refl, refl)
last-lem (x ∷ []) e = (refl, refl)
last-lem (x ∷ y ∷ xs) e = let (p, q) = last-lem (y ∷ xs) e in (p, ap (λ l. item x ∷ l) q)

module _ (xs : List Entry) (e : Entry) (ys : List Entry) where
  pub look-item :
      find (for_key e.key) (xs ++ e ∷ ys) ≡ some e
      → look e.key (items_of (xs ++ e ∷ ys)) ≡ some (item e)
  look-item found =
      find-map (is_key e.key) item (xs ++ e ∷ ys)
      ∙ ap (λ o. elim o [ none ↦ none | some a ↦ some (item a) ]) found

  pub remove-item :
      count (for_key e.key) xs ≡ 0
      → remove (is_key e.key) (items_of (xs ++ e ∷ ys)) ≡ items_of (xs ++ ys)
  remove-item away =
      remove-map (is_key e.key) item (xs ++ e ∷ ys)
      ∙ ap items_of (remove-append (for_key e.key) xs e ys away (same_bytes_refl e.key))

  pub touch-touched :
      find (for_key e.key) (xs ++ e ∷ ys) ≡ some e
      → count (for_key e.key) xs ≡ 0
      → items_of (touched xs e ys) ≡ touch e.key (items_of (xs ++ e ∷ ys))
  touch-touched found away =
      let len : length (items_of (xs ++ e ∷ ys)) ≡ length (xs ++ e ∷ ys) =
        length-map (xs ++ e ∷ ys) item in
      elim (Bool-cases (ltb 2 (length (xs ++ e ∷ ys)))) [
        | inl long ↦ rw (long, len, long) (ap (λ l. item e ∷ l) (sym (remove-item away)))
        | inr short ↦ rw (short, len, short) refl
      ]
      ∙ ap (move_up e.key (items_of (xs ++ e ∷ ys))) (sym (look-item found))

exchange-none :
    (key : List ℕ) (u : Option ℕ) (xs : List Entry)
    → count (for_key key) xs ≡ 0
    → exchange key u (items_of xs) ≡ items_of xs
exchange-none key u [] h = refl
exchange-none key u (x ∷ xs) h = elim (Bool-cases (same_bytes key x.key)) [
  | inl hit ↦ absurd (ground (arith, h, hit))
  | inr miss ↦ rw miss (ap (λ l. item x ∷ l) (exchange-none key u xs (ground (arith, h, miss))))
]

exchange-item :
    (u : Option ℕ) (xs : List Entry) (e : Entry) (ys : List Entry)
    → count (for_key e.key) xs ≡ 0
    → count (for_key e.key) ys ≡ 0
    → exchange e.key u (items_of (xs ++ e ∷ ys)) ≡ items_of (xs ++ with_udata u e ∷ ys)
exchange-item u [] e ys h h' =
    rw (same_bytes_refl e.key) (ap (λ l. item (with_udata u e) ∷ l) (exchange-none e.key u ys h'))
exchange-item u (x ∷ xs) e ys h h' = elim (Bool-cases (same_bytes e.key x.key)) [
  | inl hit ↦ absurd (ground (arith, h, hit))
  | inr miss ↦ rw miss (ap (λ l. item x ∷ l) (exchange-item u xs e ys (ground (arith, h, miss)) h'))
]

pub exchange-touched :
    (u : Option ℕ) (xs : List Entry) (e : Entry) (ys : List Entry)
    → count (for_key e.key) xs ≡ 0
    → count (for_key e.key) ys ≡ 0
    → count (for_key e.key) (xs ++ ys) ≡ 0
    → exchange e.key u (items_of (touched xs e ys)) ≡ items_of (touched xs (with_udata u e) ys)
exchange-touched u xs e ys h h' both =
    let len : length (xs ++ with_udata u e ∷ ys) ≡ length (xs ++ e ∷ ys) =
      omega (arith, length-append xs (e ∷ ys), length-append xs (with_udata u e ∷ ys)) in
    rw len (elim (Bool-cases (ltb 2 (length (xs ++ e ∷ ys)))) [
      | inl long ↦ rw long (exchange-item u [] e (xs ++ ys) refl both)
      | inr short ↦ rw short (exchange-item u xs e ys h h')
    ])
