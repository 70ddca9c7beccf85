-- ===== src/Protocol/RoundTrip.antt =====
-- What `bench_decode` accepts, and that it reads back what `bench_encode` wrote.
use esp_now_harness.Common.{
  ℕ, ◌^◌, ◌≤◌, ◌<◌, ◌≡◌, refl, true, List, ◌++◌, some, arith, length, get_or, drop, All,
}
use esp_now_harness.Protocol.{
  Header, bench_magic, bench_protocol_version, get32, read_header, bench_encode, bench_decode,
}
use esp_now_harness.Protocol.Room.{Room, room, Room-of_length}
use esp_now_harness.Protocol.Layout.{InRange, header_bytes, bench_encode_ok}

decode_bytes :
    (h prev : Header) (rest : List ℕ)
    → InRange h
    → 28 ≤ h.packet_len
    → h.stream_id < 16
    → bench_decode (some (header_bytes h ++ rest)) h.packet_len (some prev) ≡ (true, some h)
unfolding bench_decode read_header header_bytes
decode_bytes h prev rest r lo st = ground arith

-- A header whose fields fit their types, with a length between the header's size and the capacity
-- and a stream below 16, is read back unchanged from the buffer that it was written to.
pub bench_decode-bench_encode :
    (h prev : Header) (d : List ℕ) (n : ℕ)
    → InRange h
    → 28 ≤ length d
    → 28 ≤ h.packet_len
    → h.packet_len ≤ n
    → h.stream_id < 16
    → let (written, out) = bench_encode (some d) n (some h) in
      (written ≡ true) × (bench_decode out h.packet_len (some prev) ≡ (true, some h))
bench_decode-bench_encode h prev d n r fits lo hi st =
    rw (bench_encode_ok h d n r.type_fits fits lo hi)
      (refl, decode_bytes h prev (drop 28 d) r lo st)

abbrev IsByte : ℕ → Type 0
IsByte b = b < 2 ^ 8

-- What a success of `bench_decode` says of the buffer.
decode_inv :
    (s : List ℕ) (n : ℕ) (prev h : Header)
    → bench_decode (some s) n (some prev) ≡ (true, some h)
    → (h ≡ read_header s)
      × (28 ≤ n)
      × (get32 s 0 ≡ bench_magic)
      × (get_or s 4 0 ≡ bench_protocol_version)
      × (h.packet_len ≡ n)
      × (h.stream_id < 16)
unfolding bench_decode
decode_inv s n prev h e = ground arith

bytes_of_Room :
    (s : List ℕ)
    → Room s
    → All IsByte s
    → get32 s 0 ≡ bench_magic
    → get_or s 4 0 ≡ bench_protocol_version
    → (s ≡ header_bytes (read_header s) ++ drop 28 s) × InRange (read_header s)
unfolding read_header header_bytes
bytes_of_Room _
      (room b0 b1 b2 b3 b4 b5 b6 b7 b8 b9 b10 b11 b12 b13 b14 b15 b16 b17 b18 b19 b20 b21 b22 b23
        b24 b25 b26 b27 rest)
      bytes magic version =
    (ground arith, omega arith)

-- `bench_decode` accepts nothing but the wire format: if it succeeds on a buffer of bytes that holds
-- `n` of them, the buffer begins with the bytes of the header that it returns, each field fits its
-- type, the length field is `n`, at least the header's size, and the stream is below 16.
pub bench_decode_sound :
    (s : List ℕ) (n : ℕ) (prev h : Header)
    → All IsByte s
    → n ≤ length s
    → bench_decode (some s) n (some prev) ≡ (true, some h)
    → (s ≡ header_bytes h ++ drop 28 s)
      × InRange h
      × (28 ≤ n)
      × (h.packet_len ≡ n)
      × (h.stream_id < 16)
bench_decode_sound s n prev h bytes fits e =
    let (same, lo, magic, version, len, st) = decode_inv s n prev h e in
    let (layout, range) = bytes_of_Room s (Room-of_length s (omega arith)) bytes magic version in
    rw same (layout, range, lo, rw (← same) len, rw (← same) st)
