-- ===== src/Address/Update.antt =====
-- `gnb_address_list_update` of src/gnb_address.c and what a search finds after it.
use gnb_udp_over_tcp.Prelude.{ℕ, ◌+◌, ◌≡◌, ◌≢◌, ◌⊎◌, some, get_elem?, set}
use gnb_udp_over_tcp.Address.{Address, AddressList, address_list_find, address_list_update}
use gnb_udp_over_tcp.Address.Search.{IsList, IsInet, NoOlder}

-- What the write replaces: the entry of the address, the first free one, or one that is as old as any.
abbrev pub Replaces : AddressList → AddressList → Address → ℕ → Type 0
Replaces l l' a i =
    ((address_list_find l a ≡ some (some i)) × (l'.num ≡ l.num))
    ⊎ (((i ≡ l.num) × (l'.num ≡ l.num + 1))
        ⊎ ((x : Address) × (get_elem? l.array i ≡ some x)
            × NoOlder x.ts_sec l.array
            × (l.num ≡ l.size)
            × (l'.num ≡ l.num)))

abbrev written : AddressList → Address → ℕ → ℕ → AddressList
written l a i num = record l { num = num; array = set l.array i a }

module _ (l : AddressList) (a : Address) (c : IsList l) (ne : a.port ≢ 0) (t : IsInet a) where
  abbrev Updated : ℕ → AddressList → Type 0
  Updated i l' =
      (address_list_update l a ≡ some l')
      × IsList l'
      × (l'.size ≡ l.size)
      × (address_list_find l' a ≡ some (some i))
      × (get_elem? l'.array i ≡ some a)
      × ((j : ℕ) → i ≢ j → get_elem? l'.array j ≡ get_elem? l.array j)
      × Replaces l l' a i
