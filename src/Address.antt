-- ===== src/Address.antt =====
-- src/gnb_address.c: addresses, lists of them, byte order and the texts that are logged. The sockets'
-- functions `inet_pton`, `inet_ntop`, `strtoul` and `ntohs` are parameters. A text is its bytes
-- without the NUL. `none` is an access outside an object.
pub mod Text
pub mod Order
pub mod Search
pub mod Update
mod Tests
use gnb_udp_over_tcp.Prelude.{
  ℕ, zero, suc, ◌+◌, ◌-◌, ◌*◌, ◌/◌, ◌%◌, ◌^◌, Bool, true, false, ◌&&◌, ◌||◌, Option, none, some,
  List, [], ◌∷◌, ◌++◌, ltb, leb, ◌==◌, if◌then◌else◌, length, take, drop, get_elem?, set, replicate,
  memcpy, ◌>>=◌,
}
use gnb_udp_over_tcp.Hash32.{same_bytes}

-- `for(x= 0; x < 8; x++)`: the `|` is of numbers without a common bit.
unfoldable pub htonll_loop : ℕ → ℕ → ℕ → ℕ
htonll_loop zero rv val = rv
htonll_loop (suc x) rv val = htonll_loop x (rv * 256 % 2 ^ 64 + val % 256) (val / 256)

-- On a little-endian machine; `gnb_ntohll` is the same.
unfoldable pub htonll : ℕ → ℕ
htonll val = htonll_loop 8 0 val

unfoldable pub ntohll : ℕ → ℕ
ntohll val = htonll_loop 8 0 val

-- `~(NET) & addr` keeps the bits of the host.
unfoldable pub netmask_class : (ntohl : ℕ → ℕ) → ℕ → ℕ
netmask_class ntohl addr4 =
    if ntohl addr4 % 2 ^ 24 == 0
    then 97
    else (if ntohl addr4 % 2 ^ 16 == 0 then 98 else (if ntohl addr4 % 2 ^ 8 == 0 then 99 else 110))

-- `AF_UNSPEC`, `AF_INET` and `AF_INET6`.
abbrev pub af_unspec : ℕ
af_unspec = 0

abbrev pub af_inet : ℕ
af_inet = 2

abbrev pub af_inet6 : ℕ
af_inet6 = 10

-- `type` is a word of the language. `bytes` are those of the union.
pub record Address : Type 0 where
  pub addr_type : ℕ
  pub socket_idx : ℕ
  pub ts_sec : ℕ
  pub delay_usec : ℕ
  pub bytes : List ℕ
  pub port : ℕ

pub record AddressList : Type 0 where
  pub size : ℕ
  pub num : ℕ
  pub array : List Address

abbrev pub zero_address : Address
zero_address = record {
  addr_type = af_unspec;
  socket_idx = 0;
  ts_sec = 0;
  delay_usec = 0;
  bytes = replicate 16 0;
  port = 0;
}

unfoldable pub create_address_list : ℕ → AddressList
create_address_list size = record { size = size; num = 0; array = replicate size zero_address }

-- The tests of the loop of `gnb_address_list_find`.
abbrev pub same_address : Address → Address → Bool
same_address a x =
    (a.addr_type == x.addr_type)
    && (((a.addr_type == af_inet) && same_bytes (take 4 x.bytes) (take 4 a.bytes))
        || ((a.addr_type == af_inet6) && same_bytes (take 16 x.bytes) (take 16 a.bytes)))

-- From index `i` on, for the entries up to `num`; -1 is `none`.
unfoldable pub find_from : Address → ℕ → List Address → ℕ → Option (Option ℕ)
find_from a zero array i = some none
find_from a (suc num) [] i = none
find_from a (suc num) (x ∷ array) i =
    let rest = find_from a num array (i + 1) in if same_address a x then some (some i) else rest

unfoldable pub address_list_find : AddressList → Address → Option (Option ℕ)
unfolding find_from
address_list_find l a = find_from a l.num l.array 0

unfoldable pub free_from : ℕ → List Address → (i free_idx min_ts_sec : ℕ) → Option ℕ
free_from zero array i free_idx min_ts_sec = some free_idx
free_from (suc size) [] i free_idx min_ts_sec = none
free_from (suc size) (x ∷ array) i free_idx min_ts_sec =
    let older = leb x.ts_sec min_ts_sec in
    let rest =
      free_from size array (i + 1) (if older then i else free_idx)
        (if older then x.ts_sec else min_ts_sec) in
    if x.port == 0 then some i else rest

unfoldable pub address_list_get_free_idx : AddressList → Option ℕ
unfolding free_from
address_list_get_free_idx l =
    get_elem? l.array 0 >>= λ first. free_from l.size l.array 0 0 first.ts_sec

-- The place that `gnb_address_list_update` writes to.
unfoldable pub update_idx : AddressList → Address → Option ℕ
unfolding address_list_find address_list_get_free_idx
update_idx l a = address_list_find l a >>= λ found. elim found [
  | some idx ↦ some idx
  | none ↦ address_list_get_free_idx l
]

unfoldable pub address_list_update : AddressList → Address → Option AddressList
unfolding update_idx
address_list_update l a = update_idx l a >>= λ idx. get_elem? l.array idx >>= λ old.
    let more =
      if ltb l.num l.size then l.num + 1 else (if ltb l.size l.num then l.size else l.num) in
    some (record l { num = if old.port == 0 then more else l.num; array = set l.array idx a })

-- `struct sockaddr_in` and `struct sockaddr_in6`, by the fields that are read.
pub record SockAddr : Type 0 where
  pub sin_port : ℕ
  pub sin_addr : List ℕ

-- The bytes of the union behind an IPv4 address stay.
unfoldable pub set_address4 : Address → SockAddr → Address
set_address4 a in_addr = record a {
  addr_type = af_inet;
  port = in_addr.sin_port;
  bytes = take 4 in_addr.sin_addr ++ drop 4 a.bytes;
}

unfoldable pub set_address6 : Address → SockAddr → Address
set_address6 a in6 = record a {
  addr_type = af_inet6;
  port = in6.sin_port;
  bytes = take 16 in6.sin_addr;
}

-- `gnb_cmp_sockaddr_in` and `gnb_cmp_sockaddr_in6`
unfoldable pub cmp_sockaddr_in : SockAddr → SockAddr → ℕ
cmp_sockaddr_in in1 in2 =
    if in1.sin_port == in2.sin_port
    then (if same_bytes (take 4 in1.sin_addr) (take 4 in2.sin_addr) then 0 else 2)
    else 1

unfoldable pub cmp_sockaddr_in6 : SockAddr → SockAddr → ℕ
cmp_sockaddr_in6 in1 in2 =
    if in1.sin_port == in2.sin_port
    then (if same_bytes (take 16 in1.sin_addr) (take 16 in2.sin_addr) then 0 else 2)
    else 1

abbrev pub protocol_tcp : ℕ
protocol_tcp = 2

-- `SOCK_STREAM` and `SOCK_DGRAM`.
abbrev pub sock_stream : ℕ
sock_stream = 1

abbrev pub sock_dgram : ℕ
sock_dgram = 2

-- `addr` is the address in the union.
pub record SockAddress : Type 0 where
  pub addr_type : ℕ
  pub protocol : ℕ
  pub addr : SockAddr
  pub socklen : ℕ

-- A host that `inet_pton` refuses is left 0, as `INADDR_ANY` and `in6addr_any` are.
module _ (inet_pton : ℕ → List ℕ → Option (List ℕ)) (htons : ℕ → ℕ) where
  unfoldable pub host_bytes : ℕ → ℕ → Option (List ℕ) → List ℕ
  host_bytes family n host = elim (host >>= inet_pton family) [ none ↦ replicate n 0 | some b ↦ b ]

  unfoldable pub set_sockaddress4 : ℕ → Option (List ℕ) → ℕ → SockAddress
  unfolding host_bytes
  set_sockaddress4 protocol host port = record {
    addr_type = af_inet;
    protocol = if protocol == protocol_tcp then sock_stream else sock_dgram;
    addr = record { sin_port = htons port; sin_addr = host_bytes af_inet 4 host };
    socklen = 16;
  }

  unfoldable pub set_sockaddress6 : ℕ → Option (List ℕ) → ℕ → SockAddress
  unfolding host_bytes
  set_sockaddress6 protocol host port = record {
    addr_type = af_inet6;
    protocol = if protocol == protocol_tcp then sock_stream else sock_dgram;
    addr = record { sin_port = htons port; sin_addr = host_bytes af_inet6 16 host };
    socklen = 28;
  }

-- The full three entries are not kept: the first is overwritten.
unfoldable pub address_list3_fifo : AddressList → Address → AddressList
address_list3_fifo l a = record l { array = set l.array 0 a; num = 1 }
