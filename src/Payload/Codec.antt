-- ===== src/Payload/Codec.antt =====
-- The size field of a frame, and the frames that `gnb_payload16_create` makes.
use gnb_udp_over_tcp.Prelude.{
  take-all, ltb, false, ℕ, zero, suc, ◌+◌, ◌%◌, ◌<◌, ◌≡◌, refl, ap, ◌∙◌, List, [], ◌∷◌, ◌++◌, some,
  append-nil, length, drop, replicate, length-replicate, memcpy, memcpy-append, ntohs, arith,
}
use gnb_udp_over_tcp.Payload.{
  head_size, put_size, payload16_init, payload16_create, payload16_dup, payload16_size,
  payload16_set_data_len, payload16_data_len, payload16_type, payload16_data,
}

-- The frame of `type` that carries `bytes`.
abbrev pub frame_of : ℕ → List ℕ → List ℕ
frame_of type bytes = put_size (0 ∷ 0 ∷ type ∷ 0 ∷ []) (length bytes + 4) ++ bytes

drop-all {ℓ} : {A : Type ℓ} (xs : List A) (n : ℕ) → length xs ≡ n → drop n xs ≡ []
drop-all [] zero h = refl
drop-all [] (suc n) h = refl
drop-all (x ∷ xs) zero h = absurd (omega arith)
drop-all (x ∷ xs) (suc n) h = drop-all xs n (omega arith)

-- What is written as a size is read back modulo 2 ^ 16, and nothing behind the field changes.
pub size-put_size :
    (hi lo n : ℕ) (p : List ℕ)
    → (ntohs (put_size (hi ∷ lo ∷ p) n) ≡ n % 65536) × (drop 2 (put_size (hi ∷ lo ∷ p) n) ≡ p)
unfolding put_size ntohs
size-put_size hi lo n p = (omega arith, refl)

abbrev head : ℕ → ℕ → List ℕ
head type n = put_size (0 ∷ 0 ∷ type ∷ 0 ∷ []) (n + 4)

init-head : (type n : ℕ) → payload16_init type n ≡ head type n ++ replicate n 0
unfolding payload16_init put_size
init-head type n =
    let e : head_size + n ≡ suc (suc (suc (suc n))) = omega arith in
    rw e (ap (λ k. put_size (0 ∷ 0 ∷ type ∷ 0 ∷ replicate n 0) k) (omega arith))

pub create-frame_of :
    (type : ℕ) (bytes : List ℕ) → payload16_create type bytes ≡ some (frame_of type bytes)
unfolding payload16_create put_size
create-frame_of type bytes =
    let n = length bytes in
    ap (λ p. memcpy p head_size bytes) (init-head type n)
    ∙ memcpy-append (head type n) (replicate n 0) bytes
        (omega (arith, length-replicate {A = ℕ} n 0))
    ∙ ap (λ tail. some ((head type n ++ bytes) ++ tail))
        (drop-all (replicate n 0) n (length-replicate {A = ℕ} n 0))
    ∙ ap some (append-nil (head type n ++ bytes))

whole_frame :
    (type : ℕ) (bytes : List ℕ)
    → length bytes < 65532
    → ltb (length (frame_of type bytes)) (ntohs (frame_of type bytes)) ≡ false
unfolding put_size ntohs
whole_frame type bytes h = ground arith

-- For fewer than 65532 bytes of data, gnb_payload16_create gives a frame that is four bytes
-- longer, whose size field is its length, whose data length, type and data read back what went in,
-- and whose copy by gnb_payload16_dup is the frame itself.
pub create_fields :
    (type : ℕ) (bytes : List ℕ)
    → length bytes < 65532
    → (q : List ℕ) × (payload16_create type bytes ≡ some q)
      × (payload16_size q ≡ length q)
      × (length q ≡ length bytes + 4)
      × (payload16_data_len q ≡ length bytes)
      × (payload16_type q ≡ type)
      × (payload16_data q ≡ bytes)
      × (payload16_dup q ≡ some q)
unfolding payload16_size payload16_data_len payload16_type payload16_data payload16_dup put_size
    ntohs
create_fields type bytes h = (
  frame_of type bytes,
  create-frame_of type bytes,
  omega arith,
  omega arith,
  omega arith,
  refl,
  refl,
  rw (whole_frame type bytes h) (ap some (take-all (frame_of type bytes) _ (omega arith))),
)

-- For a block of at least two bytes and a length n below 65536, gnb_payload16_set_data_len returns
-- n, gnb_payload16_data_len reads n back, the size field is n + 4 modulo 65536, and the bytes
-- behind the size field stay.
pub set_data_len_fields :
    (p : List ℕ) (n : ℕ)
    → 1 < length p
    → n < 65536
    → let q = (payload16_set_data_len p n).0 in
      ((payload16_set_data_len p n).1 ≡ n)
      × (payload16_size q ≡ (n + 4) % 65536)
      × (payload16_data_len q ≡ n)
      × (drop 2 q ≡ drop 2 p)
unfolding payload16_set_data_len payload16_size payload16_data_len put_size ntohs
set_data_len_fields [] n h lt = absurd (omega arith)
set_data_len_fields (a ∷ []) n h lt = absurd (omega arith)
set_data_len_fields (a ∷ b ∷ p) n h lt = (refl, omega arith, omega arith, refl)
