-- ===== src/Generator/Bytes.antt =====
-- The stream and the sequence number in the bytes of the packets that send_one of
-- firmware/main/generator.c encodes.
use esp_now_harness.Common.{
  ℕ, zero, suc, ◌+◌, ◌*◌, ◌^◌, ◌≤◌, ◌<◌, ◌≡◌, refl, ap, ◌∙◌, sym, Bool, true, List, [], ◌∷◌, ◌++◌,
  Option, some, arith, ◌==◌, if◌then◌else◌, take, get_or, length, u16, u32, drop, replicate,
}
use mathlib.Core.List.{append_assoc, append-nil}
use esp_now_harness.Protocol.{Header, bench_encode, write_header}
use esp_now_harness.Protocol.Layout.{header_bytes, write_header_lem}
use esp_now_harness.Generator.{filled, packet_header}

-- The stream and the number in the bytes of a packet, big-endian at 12 and at 16.
unfoldable pub stream_in : List ℕ → ℕ
stream_in q = get_or q 12 0 * 2 ^ 8 + get_or q 13 0

unfoldable pub number_in : List ℕ → ℕ
number_in q =
    get_or q 16 0 * 2 ^ 24 + get_or q 17 0 * 2 ^ 16 + get_or q 18 0 * 2 ^ 8 + get_or q 19 0

abbrev pub one_if : Bool → ℕ → List ℕ
one_if b n = if b then n ∷ [] else []

-- The numbers of the packets of a stream.
unfoldable pub carried : ℕ → List (List ℕ) → List ℕ
carried k [] = []
carried k (q ∷ qs) = one_if (stream_in q == k) (number_in q) ++ carried k qs

get_or-take : (xs : List ℕ) (n i : ℕ) → i < n → get_or (take n xs) i 0 ≡ get_or xs i 0
get_or-take xs zero i h = absurd (omega arith)
get_or-take [] (suc n) i h = refl
get_or-take (x ∷ xs) (suc n) zero h = refl
get_or-take (x ∷ xs) (suc n) (suc i) h = get_or-take xs n i (omega arith)

pub carried_last :
    (k : ℕ) (qs : List (List ℕ)) (q : List ℕ)
    → carried k (qs ++ (q ∷ [])) ≡ carried k qs ++ one_if (stream_in q == k) (number_in q)
unfolding carried
carried_last k [] q = append-nil _
carried_last k (r ∷ qs) q =
    ap (λ l. one_if (stream_in r == k) (number_in r) ++ l) (carried_last k qs q)
    ∙ sym (append_assoc (one_if (stream_in r == k) (number_in r)) (carried k qs) _)

stream_in-header_bytes :
    (h : Header) (r : List ℕ) → stream_in (header_bytes h ++ r) ≡ u16 h.stream_id
unfolding stream_in header_bytes
stream_in-header_bytes h r = ground arith

number_in-header_bytes : (h : Header) (r : List ℕ) → number_in (header_bytes h ++ r) ≡ u32 h.seq
unfolding number_in header_bytes
number_in-header_bytes h r = ground arith

stream_in-take : (q : List ℕ) (n : ℕ) → 28 ≤ n → stream_in (take n q) ≡ stream_in q
unfolding stream_in
stream_in-take q n h = rw (get_or-take q n 12 (omega arith), get_or-take q n 13 (omega arith)) refl

number_in-take : (q : List ℕ) (n : ℕ) → 28 ≤ n → number_in (take n q) ≡ number_in q
unfolding number_in
number_in-take q n h =
    rw
      (
        get_or-take q n 16 (omega arith),
        get_or-take q n 17 (omega arith),
        get_or-take q n 18 (omega arith),
        get_or-take q n 19 (omega arith),
      )
      refl

-- The bytes that are sent of an encoded packet carry the stream and the number.
abbrev pub Shows : ℕ → ℕ → ℕ → Bool × Option (List ℕ) → Type 0
Shows stream sequence size encoded =
    (q : List ℕ)
    → encoded ≡ (true, some q)
    → (stream_in (take size q) ≡ u16 stream) × (number_in (take size q) ≡ u32 sequence)

encode_inv :
    (d q : List ℕ) (n : ℕ) (h : Header)
    → bench_encode (some d) n (some h) ≡ (true, some q)
    → (q ≡ write_header d h) × (28 ≤ h.packet_len)
unfolding bench_encode
encode_inv d q n h e = ground arith

length-filled : (size n : ℕ) (rest : List ℕ) → n ≤ size → n ≤ length (filled size rest)
unfolding replicate
length-filled zero n rest h = omega arith
length-filled (suc size) zero rest h = omega arith
length-filled (suc size) (suc n) rest h =
    let more = length-filled size n rest (omega arith) in omega (arith, more)

pub bench_encode-Shows :
    (type stream sequence size run_id now : ℕ) (rest : List ℕ)
    → type < 2 ^ 8
    → Shows stream sequence size (
        bench_encode
          (some (filled size rest))
          250
          (some (packet_header type stream sequence size run_id now)))
bench_encode-Shows type stream sequence size run_id now rest h q e =
    let header = packet_header type stream sequence size run_id now in
    let d = filled size rest in
    let (written, fits) = encode_inv d q 250 header e in
    let bytes = written ∙ write_header_lem header d h (length-filled size 28 rest fits) in
    (
      stream_in-take q size fits ∙ ap stream_in bytes ∙ stream_in-header_bytes header (drop 28 d),
      number_in-take q size fits ∙ ap number_in bytes ∙ number_in-header_bytes header (drop 28 d),
    )
