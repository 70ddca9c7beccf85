-- ===== src/Protocol.antt =====
-- firmware/main/protocol.h and firmware/main/protocol.c: the 28 byte frame header, big-endian.
-- A pointer that may be NULL is an `Option`; a buffer is the list of its bytes, and `p` is the
-- offset that the source adds to its pointer. A function that fills a buffer or a header returns it.
pub mod Room
pub mod Layout
pub mod RoundTrip
pub mod Tests
use esp_now_harness.Common.{
  ℕ, ◌+◌, ◌*◌, ◌/◌, ◌^◌, Bool, true, false, ◌&&◌, ◌||◌, not, List, Option, none, some, ltb, ◌==◌,
  if◌then◌else◌, get_or, set, u8, u16, u32,
}

abbrev pub bench_magic : ℕ
bench_magic = 0x4553504e

abbrev pub bench_protocol_version : ℕ
bench_protocol_version = 1

abbrev pub bench_header_size : ℕ
bench_header_size = 28

-- bench_packet_type_t; `type` of a header is a uint8_t that may hold another value.
abbrev pub packet_stream : ℕ
packet_stream = 1

abbrev pub packet_ping : ℕ
packet_ping = 2

abbrev pub packet_echo : ℕ
packet_echo = 3

-- bench_header_t
pub record Header : Type 0 where
  pub type : ℕ  -- uint8_t
  pub flags : ℕ  -- uint16_t
  pub run_id : ℕ  -- uint32_t
  pub stream_id : ℕ  -- uint16_t
  pub packet_len : ℕ  -- uint16_t
  pub seq : ℕ  -- uint32_t
  pub timestamp_us : ℕ  -- uint64_t

unfoldable pub put16 : List ℕ → ℕ → ℕ → List ℕ
put16 d p v = set (set d p (u8 (v / 2 ^ 8))) (p + 1) (u8 v)

unfoldable pub put32 : List ℕ → ℕ → ℕ → List ℕ
put32 d p v =
    set (set (set (set d p (u8 (v / 2 ^ 24))) (p + 1) (u8 (v / 2 ^ 16))) (p + 2) (u8 (v / 2 ^ 8)))
      (p + 3) (u8 v)

unfoldable pub put64 : List ℕ → ℕ → ℕ → List ℕ
unfolding put32
put64 d p v = put32 (put32 d p (u32 (v / 2 ^ 32))) (p + 4) (u32 v)

-- The parts that `|` joins have no bit in common, so the sum is the same.
unfoldable pub get16 : List ℕ → ℕ → ℕ
get16 s p = u16 (get_or s p 0 * 2 ^ 8 + get_or s (p + 1) 0)

unfoldable pub get32 : List ℕ → ℕ → ℕ
get32 s p =
    get_or s p 0 * 2 ^ 24
    + get_or s (p + 1) 0 * 2 ^ 16
    + get_or s (p + 2) 0 * 2 ^ 8
    + get_or s (p + 3) 0

unfoldable pub get64 : List ℕ → ℕ → ℕ
unfolding get32
get64 s p = get32 s p * 2 ^ 32 + get32 s (p + 4)

-- The stores of `bench_encode`, in their order.
unfoldable pub write_header : List ℕ → Header → List ℕ
unfolding put16 put32 put64
write_header d h =
    let d1 = put32 d 0 bench_magic in
    let d2 = set d1 4 bench_protocol_version in
    let d3 = set d2 5 h.type in
    let d4 = put16 d3 6 h.flags in
    let d5 = put32 d4 8 h.run_id in
    let d6 = put16 d5 12 h.stream_id in
    let d7 = put16 d6 14 h.packet_len in let d8 = put32 d7 16 h.seq in put64 d8 20 h.timestamp_us

unfoldable pub bench_encode : Option (List ℕ) → ℕ → Option Header → Bool × Option (List ℕ)
bench_encode none n h = (false, none)
bench_encode (some d) n none = (false, some d)
bench_encode (some d) n (some h) =
    if ltb n h.packet_len || ltb h.packet_len bench_header_size
    then (false, some d)
    else (true, some (write_header d h))

-- The loads of `bench_decode`.
unfoldable pub read_header : List ℕ → Header
unfolding get16 get32 get64
read_header s = record {
  type = get_or s 5 0;
  flags = get16 s 6;
  run_id = get32 s 8;
  stream_id = get16 s 12;
  packet_len = get16 s 14;
  seq = get32 s 16;
  timestamp_us = get64 s 20;
}

-- The header is filled also where the last test fails.
unfoldable pub bench_decode : Option (List ℕ) → ℕ → Option Header → Bool × Option Header
bench_decode none n h = (false, h)
bench_decode (some s) n none = (false, none)
bench_decode (some s) n (some h) =
    let out = read_header s in
    if ltb n bench_header_size
      || (not (get32 s 0 == bench_magic) || not (get_or s 4 0 == bench_protocol_version))
    then (false, some h)
    else (out.packet_len == n && ltb out.stream_id 16, some out)
