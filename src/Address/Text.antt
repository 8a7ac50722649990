-- ===== src/Address/Text.antt =====
-- The texts of src/gnb_address.c: those that are logged, and the parser of an address with a port.
use gnb_udp_over_tcp.Prelude.{
  ℕ, zero, suc, ◌+◌, ◌-◌, ◌%◌, ◌^◌, Bool, ◌||◌, Option, none, some, List, [], ◌∷◌, ◌++◌, ◌==◌,
  if◌then◌else◌, length, take, drop, replicate, memcpy, ◌>>=◌,
}
use gnb_udp_over_tcp.Address.{af_inet, af_inet6, Address, zero_address, SockAddr, SockAddress}

-- `while( '\0' != *p )` up to a byte that `stop` accepts: '*' is 42.
unfoldable pub hide_until : (ℕ → Bool) → List ℕ → List ℕ
hide_until stop [] = []
hide_until stop (c ∷ s) = let rest = hide_until stop s in if stop c then c ∷ s else 42 ∷ rest

abbrev pub is_dot : ℕ → Bool
is_dot c = c == 46

abbrev pub is_colon : ℕ → Bool
is_colon c = c == 58

abbrev pub is_dot_or_colon : ℕ → Bool
is_dot_or_colon c = (c == 46) || (c == 58)

unfoldable pub hide_address_string : List ℕ → List ℕ
unfolding hide_until
hide_address_string s = hide_until is_dot_or_colon s

-- One byte further, behind the '['.
unfoldable pub hide_behind : (ℕ → Bool) → List ℕ → List ℕ
unfolding hide_until
hide_behind stop [] = []
hide_behind stop (c ∷ s) = c ∷ hide_until stop s

-- "NONE_ADDRESS"
abbrev none_text : List ℕ
none_text = b'N' ∷ b'O' ∷ b'N' ∷ b'E' ∷ b'_' ∷ b'A' ∷ b'D' ∷ b'D' ∷ b'R' ∷ b'E' ∷ b'S' ∷ b'S' ∷ []

-- `inet_ntop` of the bytes, and `snprintf` of a port.
module _ (inet_ntop : ℕ → List ℕ → List ℕ) (print_port : ℕ → List ℕ) (ntohs : ℕ → ℕ) where
  unfoldable pub address4string : List ℕ → Bool → List ℕ
  unfolding hide_until
  address4string byte4 addr_secure =
      let dest = inet_ntop af_inet byte4 in if addr_secure then hide_until is_dot dest else dest

  unfoldable pub address6string : List ℕ → Bool → List ℕ
  unfolding hide_until
  address6string byte16 addr_secure =
      let dest = inet_ntop af_inet6 byte16 in if addr_secure then hide_until is_colon dest else dest

  -- `snprintf(dest, size, ...)` keeps what fits before the NUL: the sizes are 24 and 55.
  unfoldable pub socket4string : SockAddr → Bool → List ℕ
  unfolding hide_until
  socket4string in_addr addr_secure =
      let dest =
        take 23 (inet_ntop af_inet in_addr.sin_addr ++ 58 ∷ print_port (ntohs in_addr.sin_port)) in
      if addr_secure then hide_until is_dot dest else dest

  unfoldable pub socket6string : SockAddr → Bool → List ℕ
  unfolding hide_behind
  socket6string in6 addr_secure =
      let dest =
        take 54
          (91 ∷ inet_ntop af_inet6 in6.sin_addr ++ 93 ∷ 58 ∷ print_port (ntohs in6.sin_port)) in
      if addr_secure then hide_behind is_colon dest else dest

  unfoldable pub ip_port_string : Address → Bool → List ℕ
  unfolding hide_until hide_behind
  ip_port_string a addr_secure =
      if a.addr_type == af_inet6
      then (let dest =
            take 54 (91 ∷ inet_ntop af_inet6 a.bytes ++ 93 ∷ 58 ∷ print_port (ntohs a.port)) in
          if addr_secure then hide_behind is_dot_or_colon dest else dest)
      else (let dest =
            if a.addr_type == af_inet
            then take 54 (inet_ntop af_inet (take 4 a.bytes) ++ 58 ∷ print_port (ntohs a.port))
            else none_text in
          if addr_secure then hide_until is_dot_or_colon dest else dest)

-- The loop that looks for the ':': the copy with a NUL there, and the place of `p`.
unfoldable pub cut_colon : ℕ → List ℕ → List ℕ × ℕ
cut_colon zero s = (s, 0)
cut_colon (suc n) [] = ([], suc n)
cut_colon (suc n) (c ∷ s) =
    let rest = cut_colon n s in if c == 58 then (0 ∷ s, 0) else (c ∷ rest.0, rest.1 + 1)

-- `uninit` are the 16 bytes of the copy before the call, and `behind` the bytes that follow it.
-- `inet_pton` gives the four bytes that it writes, if it writes.
module _ (inet_pton : List ℕ → Option (List ℕ)) (strtoul : List ℕ → ℕ) (htons : ℕ → ℕ) where
  unfoldable pub address4_from_string : (uninit behind : List ℕ) → List ℕ → Option Address
  unfolding cut_colon
  address4_from_string uninit behind text = memcpy uninit 0 text >>= λ copied.
      let (copy, p) = cut_colon (length text) copied in
      let ul = strtoul (drop (p + 1) (copy ++ behind)) in
      if ul == 2 ^ 64 - 1
      then some zero_address
      else some (record zero_address {
        bytes = elim (inet_pton (copy ++ behind)) [
          | none ↦ replicate 16 0
          | some b ↦ b ++ replicate 12 0
        ];
        port = htons (ul % 2 ^ 16);
        addr_type = af_inet;
      })

-- `gnb_get_sockaddress_string`; for another type the text stays as it is.
unfoldable pub sockaddress_string :
    (socket4 socket6 : SockAddr → Bool → List ℕ) → SockAddress → List ℕ → Bool → List ℕ
sockaddress_string socket4 socket6 s dest addr_secure =
    if s.addr_type == af_inet6
    then socket6 s.addr addr_secure
    else (if s.addr_type == af_inet then socket4 s.addr addr_secure else dest)
