-- ===== src/Protocol/Layout.antt =====
-- The wire format as the README states it: each field in big-endian bytes, one after the other.
use esp_now_harness.Common.{
  ℕ, zero, suc, ◌*◌, ◌/◌, ◌%◌, ◌^◌, ◌≤◌, ◌<◌, ◌≡◌, ◌⊎◌, true, false, List, [], ◌∷◌, ◌++◌, some,
  arith, length, drop,
}
use esp_now_harness.Protocol.{
  Header, bench_magic, bench_protocol_version, write_header, bench_encode,
}
use esp_now_harness.Protocol.Room.{Room, room, Room-of_length}

-- The last `k` bytes of `v`, the highest first.
unfoldable pub big_endian : ℕ → ℕ → List ℕ
big_endian zero v = []
big_endian (suc k) v = (v / 2 ^ (8 * k)) % 2 ^ 8 ∷ big_endian k v

unfoldable pub header_bytes : Header → List ℕ
unfolding big_endian
header_bytes h =
    big_endian 4 bench_magic
    ++ (big_endian 1 bench_protocol_version
        ++ (big_endian 1 h.type
            ++ (big_endian 2 h.flags
                ++ (big_endian 4 h.run_id
                    ++ (big_endian 2 h.stream_id
                        ++ (big_endian 2 h.packet_len
                            ++ (big_endian 4 h.seq ++ big_endian 8 h.timestamp_us)))))))

-- Each field holds a value of its C type.
pub record InRange (h : Header) : Type 0 where
  pub type_fits : h.type < 2 ^ 8
  pub flags_fit : h.flags < 2 ^ 16
  pub run_id_fits : h.run_id < 2 ^ 32
  pub stream_id_fits : h.stream_id < 2 ^ 16
  pub packet_len_fits : h.packet_len < 2 ^ 16
  pub seq_fits : h.seq < 2 ^ 32
  pub timestamp_fits : h.timestamp_us < 2 ^ 64

write_header-Room :
    (h : Header) (d : List ℕ)
    → h.type < 2 ^ 8
    → Room d
    → write_header d h ≡ header_bytes h ++ drop 28 d
unfolding write_header header_bytes
write_header-Room h _ t
      (room b0 b1 b2 b3 b4 b5 b6 b7 b8 b9 b10 b11 b12 b13 b14 b15 b16 b17 b18 b19 b20 b21 b22 b23
        b24 b25 b26 b27 rest) =
    ground arith

-- The stores write the bytes of the wire format and leave what follows them.
pub write_header_lem :
    (h : Header) (d : List ℕ)
    → h.type < 2 ^ 8
    → 28 ≤ length d
    → write_header d h ≡ header_bytes h ++ drop 28 d
write_header_lem h d t fits = write_header-Room h d t (Room-of_length d fits)

-- If the packet length lies between the header's size and the capacity, and the buffer holds the
-- header, `bench_encode` succeeds and writes the wire format, and nothing behind it.
pub bench_encode_ok :
    (h : Header) (d : List ℕ) (n : ℕ)
    → h.type < 2 ^ 8
    → 28 ≤ length d
    → 28 ≤ h.packet_len
    → h.packet_len ≤ n
    → bench_encode (some d) n (some h) ≡ (true, some (header_bytes h ++ drop 28 d))
bench_encode_ok h d n t fits lo hi =
    rw (← write_header_lem h d t fits) (unfold bench_encode in ground arith)

-- In every other case it fails and leaves the buffer as it was.
bench_encode_refused :
    (h : Header) (d : List ℕ) (n : ℕ)
    → (h.packet_len < 28) ⊎ (n < h.packet_len)
    → bench_encode (some d) n (some h) ≡ (false, some d)
unfolding bench_encode
bench_encode_refused h d n bad = ground arith
