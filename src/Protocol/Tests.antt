-- ===== src/Protocol/Tests.antt =====
-- The run of firmware/test/test_protocol.c, and the theorems of Protocol at concrete inputs.
use esp_now_harness.Common.{
  ℕ, ◌≤◌, ◌<◌, ◌≡◌, refl, true, false, List, [], ◌∷◌, ◌++◌, some, arith, replicate, set, length,
  length-replicate, drop,
}
use esp_now_harness.Protocol.{
  Header, packet_ping, put16, put32, put64, get16, get32, get64, write_header, read_header,
  bench_encode, bench_decode,
}
use esp_now_harness.Protocol.Layout.{InRange, header_bytes, bench_encode_ok}
use esp_now_harness.Protocol.RoundTrip.{bench_decode-bench_encode, bench_decode_sound}

abbrev sample : Header
sample = record {
  type = packet_ping;
  flags = 0x1234;
  run_id = 42;
  stream_id = 15;
  packet_len = 64;
  seq = 0x10203040;
  timestamp_us = 0x0102030405060708;
}

abbrev empty_header : Header
empty_header = record {
  type = 0;
  flags = 0;
  run_id = 0;
  stream_id = 0;
  packet_len = 0;
  seq = 0;
  timestamp_us = 0;
}

sample-InRange : InRange sample
sample-InRange = omega arith

-- A buffer of 64 bytes, as memset leaves it.
abbrev wire : List ℕ
wire = replicate 64 0xa5

wire_fits : 28 ≤ length wire
wire_fits = omega (arith, length-replicate {A = ℕ} 64 0xa5)

-- A whole frame of 28 bytes.
abbrev frame : List ℕ
frame =
    0x45 ∷ 0x53 ∷ 0x50 ∷ 0x4e ∷ 1 ∷ 2 ∷ 0x12 ∷ 0x34 ∷ 0 ∷ 0 ∷ 0 ∷ 42 ∷ 0 ∷ 15 ∷ 0 ∷ 28 ∷ 0x10 ∷ 0x20
    ∷ 0x30 ∷ 0x40 ∷ 1 ∷ 2 ∷ 3 ∷ 4 ∷ 5 ∷ 6 ∷ 7 ∷ 8 ∷ []

frame_read :
    bench_decode (some frame) 28 (some empty_header)
    ≡ (true, some (record sample { packet_len = 28 }))
unfolding bench_decode read_header get16 get32 get64
frame_read = refl

-- `wire[4]=9; assert(!bench_decode(...))`
other_version : (bench_decode (some (set frame 4 9)) 28 (some empty_header)).0 ≡ false
unfolding bench_decode read_header get16 get32 get64
other_version = refl

frame_written :
    bench_encode (some (replicate 28 0)) 28 (some (record sample { packet_len = 28 }))
    ≡ (true, some frame)
unfolding bench_encode write_header put16 put32 put64 replicate
frame_written = refl

bench_decode-bench_encode_example :
    let (written, out) = bench_encode (some wire) 64 (some sample) in
    (written ≡ true) × (bench_decode out 64 (some empty_header) ≡ (true, some sample))
bench_decode-bench_encode_example =
    bench_decode-bench_encode sample empty_header wire 64 sample-InRange wire_fits (omega arith)
      (omega arith) (omega arith)

bench_decode_sound_example :
    let h = record sample { packet_len = 28 } in
    (frame ≡ header_bytes h ++ [])
    × InRange h
    × (28 ≤ 28)
    × (h.packet_len ≡ 28)
    × (h.stream_id < 16)
bench_decode_sound_example =
    bench_decode_sound frame 28 empty_header (record sample { packet_len = 28 }) (omega arith)
      (omega arith) frame_read

bench_encode_ok_example :
    bench_encode (some wire) 64 (some sample) ≡ (true, some (header_bytes sample ++ drop 28 wire))
bench_encode_ok_example =
    bench_encode_ok sample wire 64 (omega arith) wire_fits (omega arith) (omega arith)
