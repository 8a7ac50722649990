-- ===== src/Payload/Tests.antt =====
-- Runs of the codec and of `gnb_payload16_handle`, and the theorems at concrete frames.
use gnb_udp_over_tcp.Prelude.{
  ℕ, zero, suc, ◌≡◌, refl, ap, List, [], ◌∷◌, ◌++◌, some, flatten, length, take, memcpy, ntohs,
  arith,
}
use gnb_udp_over_tcp.Payload.{
  put_size, payload16_create, payload16_dup, payload16_size, payload16_data_len, payload16_type,
  payload16_data, Ctx, Outcome, handled, returned, fault, payload16_handle,
}
use gnb_udp_over_tcp.Payload.Codec.{create_fields}
use gnb_udp_over_tcp.Payload.Stream.{pending, feed}
use gnb_udp_over_tcp.Payload.Held.{Holds, ReadsFrame, Agrees}
use gnb_udp_over_tcp.Payload.Handle.{handle_all, Correct, handle-Correct}
use gnb_udp_over_tcp.Payload.Chunks.{handle_all-Agrees, frames-arrive}
use gnb_udp_over_tcp.Payload.Faults.{size_one-fault}

-- A callback that notes the frames, the last one first.
abbrev note : List ℕ → List (List ℕ) → List (List ℕ)
note mem seen = take (ntohs mem) mem ∷ seen

take_front-append {ℓ} :
    {A : Type ℓ} (xs ys : List A) (n : ℕ) → n ≡ length xs → take n (xs ++ ys) ≡ take n xs
take_front-append [] ys zero h = refl
take_front-append [] ys (suc n) h = absurd (omega arith)
take_front-append (x ∷ xs) ys zero h = refl
take_front-append (x ∷ xs) ys (suc n) h =
    ap (λ zs. x ∷ zs) (take_front-append xs ys n (omega arith))

note-ReadsFrame : ReadsFrame note
unfolding ntohs
note-ReadsFrame [] tail s h lt = absurd (omega arith)
note-ReadsFrame (a ∷ []) tail s h lt = absurd (omega arith)
note-ReadsFrame (a ∷ b ∷ q) tail s h lt =
    ap (λ f. f ∷ s) (take_front-append (a ∷ b ∷ q) tail (ntohs (a ∷ b ∷ [])) h)

abbrev ctx : Ctx
ctx = record {
  r_len = 0;
  buffer = 7 ∷ 7 ∷ [];
  payload = 9 ∷ 9 ∷ 9 ∷ 9 ∷ 9 ∷ 9 ∷ 9 ∷ 9 ∷ 9 ∷ 9 ∷ [];
  max_payload_size = 6;
}

abbrev first : List ℕ
first = 0 ∷ 5 ∷ b'o' ∷ 0 ∷ 42 ∷ []

abbrev second : List ℕ
second = 0 ∷ 6 ∷ b'o' ∷ 0 ∷ 1 ∷ 2 ∷ []

abbrev chunks : List (List ℕ)
chunks = (0 ∷ []) ∷ (5 ∷ b'o' ∷ []) ∷ (0 ∷ 42 ∷ 0 ∷ 6 ∷ b'o' ∷ 0 ∷ []) ∷ (1 ∷ 2 ∷ []) ∷ []

create_runs : payload16_create b'o' (42 ∷ []) ≡ some first
unfolding payload16_create put_size memcpy
create_runs = refl

seen : Outcome (List (List ℕ)) → List (List ℕ)
seen (returned r c s) = s
seen o = []

handle_all_runs : seen (handle_all note chunks ctx []) ≡ second ∷ first ∷ []
unfolding handle_all seen ntohs memcpy
handle_all_runs = refl

frames-arrive_example :
    (c' : Ctx) × (handle_all note chunks ctx [] ≡ returned handled c' (second ∷ first ∷ []))
    × (c'.max_payload_size ≡ 6)
    × Holds c' []
unfolding flatten ntohs
frames-arrive_example =
    frames-arrive 6 note ctx chunks (first ∷ second ∷ []) [] note-ReadsFrame refl (refl, refl, refl)
      ((refl, omega arith, omega arith), ((refl, omega arith, omega arith), tt)) refl

create_fields_example :
    (q : List ℕ) × (payload16_create b'o' (42 ∷ []) ≡ some q)
    × (payload16_size q ≡ length q)
    × (length q ≡ 5)
    × (payload16_data_len q ≡ 1)
    × (payload16_type q ≡ b'o')
    × (payload16_data q ≡ 42 ∷ [])
    × (payload16_dup q ≡ some q)
create_fields_example = create_fields b'o' (42 ∷ []) (omega arith)

ctx-Holds : Holds ctx []
ctx-Holds = (refl, refl, refl)

handle-Correct_example :
    Correct note ctx [] (0 ∷ 5 ∷ b'o' ∷ []) [] (payload16_handle note (0 ∷ 5 ∷ b'o' ∷ []) ctx [])
handle-Correct_example = handle-Correct note ctx [] (0 ∷ 5 ∷ b'o' ∷ []) [] note-ReadsFrame ctx-Holds

handle_all-Agrees_example :
    Agrees 6 (feed 6 note (pending [] []) (flatten chunks)) (handle_all note chunks ctx [])
handle_all-Agrees_example = handle_all-Agrees 6 note chunks ctx [] [] note-ReadsFrame refl ctx-Holds

size_one-fault_example : payload16_handle note (0 ∷ 1 ∷ 8 ∷ []) ctx [] ≡ fault
size_one-fault_example = size_one-fault note ctx 8 [] [] ctx-Holds (omega arith)
