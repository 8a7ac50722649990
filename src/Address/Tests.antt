-- ===== src/Address/Tests.antt =====
-- A full list of two addresses, and a number in network order.
use gnb_udp_over_tcp.Prelude.{ℕ, ◌≡◌, refl, some, [], ◌∷◌}
use gnb_udp_over_tcp.Address.{Address, AddressList, af_inet, htonll, address_list_update}
use gnb_udp_over_tcp.Address.Text.{hide_address_string}
use gnb_udp_over_tcp.Address.Order.{htonll-reverse, le_bytes, reverse}

abbrev host : ℕ → ℕ → Address
host last ts = record {
  addr_type = af_inet;
  socket_idx = 0;
  ts_sec = ts;
  delay_usec = 0;
  bytes = 10 ∷ 0 ∷ 0 ∷ last ∷ [];
  port = 9000;
}

abbrev two_hosts : AddressList
two_hosts = record { size = 2; num = 2; array = host 1 50 ∷ host 2 40 ∷ [] }

-- The older host is replaced.
update_runs :
    address_list_update two_hosts (host 3 60)
    ≡ some (record two_hosts { array = host 1 50 ∷ host 3 60 ∷ [] })
unfolding address_list_update
update_runs = refl

htonll-reverse_example : le_bytes 8 (htonll 258) ≡ reverse (le_bytes 8 258)
htonll-reverse_example = htonll-reverse 258

-- "10.0" is shown as "**.0".
hide_runs : hide_address_string (49 ∷ 48 ∷ 46 ∷ 48 ∷ []) ≡ 42 ∷ 42 ∷ 46 ∷ 48 ∷ []
unfolding hide_address_string
hide_runs = refl
