-- ===== src/Lru/Entries.antt =====
-- The entries that a map of src/gnb_lru32.c holds, the last used first.
use gnb_udp_over_tcp.Prelude.{
  ℕ, ◌≡◌, ◌<◌, refl, ap, ◌∙◌, false, Option, some, List, [], ◌∷◌, ◌++◌, map, ◌==◌, length, update,
  arith,
}
use gnb_udp_over_tcp.DoublyLinked.Chain.{IsChain}
use gnb_udp_over_tcp.Hash32.{Kv}
use gnb_udp_over_tcp.Lru.{LruNode, Lru}
use gnb_udp_over_tcp.Lru.Counts.{All}
use gnb_udp_over_tcp.Lru.Pools.{Shares, tally}
use gnb_udp_over_tcp.Lru.Index.{Entry, IsIndex}

-- The fields of the nodes of an entry.
pub record Stored (n : ℕ) (nodes : ℕ → LruNode) (node_data : ℕ → Option ℕ) (e : Entry)
    : Type 0 where
  pub dl_node : (nodes e.node).dl_node ≡ some e.dl
  pub kv : Kv
  pub points : (nodes e.node).kv ≡ some kv
  pub key : kv.key ≡ e.key
  pub udata : (nodes e.node).udata ≡ e.udata
  pub back : node_data e.dl ≡ some e.node
  pub len : length e.key ≡ n

abbrev pub nodes_of : List Entry → List ℕ
nodes_of es = map (λ (e : Entry). e.node) es

abbrev pub dls_of : List Entry → List ℕ
dls_of es = map (λ (e : Entry). e.dl) es

-- `l` holds the entries `es`, whose keys have `n` bytes.
pub record IsLru (murmurhash_hash : List ℕ → ℕ) (n : ℕ) (l : Lru) (es : List Entry) : Type 0 where
  pub chain : IsChain l.doubly_linked_list (dls_of es)
  pub size : l.size ≡ length es
  pub bound : l.max_size < 4294967296
  pub stored : All (Stored n l.nodes l.doubly_linked_list.node_data) es
  pub index : IsIndex murmurhash_hash n l.lru_node_map es
  pub node_pool : Shares l.lru_node_fixed_pool l.max_size (nodes_of es)
  pub dl_pool : Shares l.dl_node_fixed_pool l.max_size (dls_of es)

pub map_mid {ℓ} :
    {A : Type ℓ} (f : A → ℕ) (xs : List A) (x : A) (ys : List A)
    → map f (xs ++ x ∷ ys) ≡ map f xs ++ f x ∷ map f ys
map_mid f [] x ys = refl
map_mid f (z ∷ xs) x ys = ap (λ l. f z ∷ l) (map_mid f xs x ys)

pub map-append {ℓ} :
    {A : Type ℓ} (f : A → ℕ) (xs ys : List A) → map f (xs ++ ys) ≡ map f xs ++ map f ys
map-append f [] ys = refl
map-append f (z ∷ xs) ys = ap (λ l. f z ∷ l) (map-append f xs ys)

module _ {ℓ κ} {A : Type ℓ} (P : A → Type κ) where
  pub All-mid : (xs : List A) (x : A) (ys : List A) → All P (xs ++ x ∷ ys) → P x × All P (xs ++ ys)
  All-mid [] x ys a = a
  All-mid (z ∷ xs) x ys (p, a) = let (q, b) = All-mid xs x ys a in (q, (p, b))

  pub All-join : (xs : List A) (x : A) (ys : List A) → P x → All P (xs ++ ys) → All P (xs ++ x ∷ ys)
  All-join [] x ys p a = (p, a)
  All-join (z ∷ xs) x ys p (q, a) = (q, All-join xs x ys p a)

module _ (n : ℕ) (nodes : ℕ → LruNode) (node_data : ℕ → Option ℕ) where
  -- A write at a node of no entry.
  pub node-Stored :
      (node : ℕ) (v : LruNode) (es : List Entry)
      → tally (nodes_of es) node ≡ 0
      → All (Stored n nodes node_data) es
      → All (Stored n (update nodes node v) node_data) es
  node-Stored node v [] away s = tt
  node-Stored node v (e ∷ es) away (s, rest) =
      let other : (e.node == node) ≡ false = ground (arith, away) in
      let read : update nodes node v e.node ≡ nodes e.node = rw other refl in
      (
        record {
          dl_node = ap (λ k. k.dl_node) read ∙ s.dl_node;
          kv = s.kv;
          points = ap (λ k. k.kv) read ∙ s.points;
          key = s.key;
          udata = ap (λ k. k.udata) read ∙ s.udata;
          back = s.back;
          len = s.len;
        },
        node-Stored node v es (ground (arith, away, other)) rest,
      )

  -- A write at a list node of no entry.
  pub data-Stored :
      (dl : ℕ) (d : Option ℕ) (es : List Entry)
      → tally (dls_of es) dl ≡ 0
      → All (Stored n nodes node_data) es
      → All (Stored n nodes (update node_data dl d)) es
  data-Stored dl d [] away s = tt
  data-Stored dl d (e ∷ es) away (s, rest) =
      let other : (e.dl == dl) ≡ false = ground (arith, away) in
      let read : update node_data dl d e.dl ≡ node_data e.dl = rw other refl in
      (
        record {
          dl_node = s.dl_node;
          kv = s.kv;
          points = s.points;
          key = s.key;
          udata = s.udata;
          back = read ∙ s.back;
          len = s.len;
        },
        data-Stored dl d es (ground (arith, away, other)) rest,
      )
