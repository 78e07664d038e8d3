-- ===== src/Net/Udp.antt =====
-- kernel/src/net/udp.rs: UDP datagrams in Ethernet frames.
use forward_os_kernel_base.Base.{ℕ, ◌+◌, ◌*◌, ◌/◌, ◌%◌, ◌^◌, ◌<◌}
use forward_os_kernel_base.Base.{◌≡◌, refl, arith, List, [], ◌∷◌, ◌++◌, length}
use forward_os_kernel_base.Base.{
  u16, u32, ◌==◌, if◌then◌else◌, Bool-cases, ==→≡, inl, inr, get_or, take, drop,
}
use forward_os_kernel_base.Net.Checksum.{fold_carries, fold_fuel, complement, be_word, be_word_lem}
use forward_os_kernel_base.Net.Checksum.{
  add_words, add_words_lem, word_sum, word_sum-le, IsOctets, Verifies,
}
use forward_os_kernel_base.Net.Checksum.{
  complement-Verifies, ones-Verifies, high_byte, low_byte, bytes_of,
}
use forward_os_kernel_base.Net.Ip.{Ipv4Addr, IsAddr, to_be, header_bytes}
use forward_os_kernel_base.Net.Ip

-- `[u8; 6]`.
pub record MacAddr : Type 0 where
  pub m₀ : ℕ
  pub m₁ : ℕ
  pub m₂ : ℕ
  pub m₃ : ℕ
  pub m₄ : ℕ
  pub m₅ : ℕ

abbrev pub mac_bytes : MacAddr → List ℕ
mac_bytes m = m.m₀ ∷ m.m₁ ∷ m.m₂ ∷ m.m₃ ∷ m.m₄ ∷ m.m₅ ∷ []

pub record UdpHeader : Type 0 where
  pub src_port : ℕ
  pub dst_port : ℕ
  pub length : ℕ
  pub checksum : ℕ

unfoldable pub new : ℕ → ℕ → ℕ → UdpHeader
new src_port dst_port data_len = record {
  src_port = to_be src_port;
  dst_port = to_be dst_port;
  length = to_be (u16 (8 + u16 data_len));
  checksum = 0;
}

-- The words of the pseudo-header and of the datagram, added up in a `u32`.
unfoldable pub udp_sum : Ipv4Addr → Ipv4Addr → ℕ → List ℕ → ℕ
unfolding add_words
udp_sum src dst protocol udp_data =
    add_words
      (u32 (
        be_word src.a src.b
        + be_word src.c src.d
        + be_word dst.a dst.b
        + be_word dst.c dst.d
        + protocol
        + u16 (length udp_data)))
      udp_data

unfoldable pub calc_udp_checksum : Ipv4Addr → Ipv4Addr → ℕ → List ℕ → ℕ
calc_udp_checksum src dst protocol udp_data =
    let sum = fold_carries fold_fuel (udp_sum src dst protocol udp_data) in
    if sum == 0xFFFF then 0xFFFF else complement sum

-- `udp_buf`: the header's fields by `to_be_bytes`, the checksum's two bytes, the data.
unfoldable pub udp_bytes : UdpHeader → ℕ → List ℕ → List ℕ
udp_bytes h checksum payload =
    h.src_port / 256
    ∷ h.src_port % 256
    ∷ h.dst_port / 256
    ∷ h.dst_port % 256
    ∷ h.length / 256
    ∷ h.length % 256
    ∷ high_byte checksum
    ∷ low_byte checksum
    ∷ payload

-- The datagram with its checksum put in.
unfoldable pub udp_datagram : Ipv4Addr → Ipv4Addr → ℕ → ℕ → List ℕ → List ℕ
udp_datagram src dst src_port dst_port payload =
    let udp = new src_port dst_port (length payload) in
    udp_bytes udp (calc_udp_checksum src dst 17 (udp_bytes udp 0 payload)) payload

unfoldable pub build_udp_packet : MacAddr → MacAddr → Ipv4Addr → Ipv4Addr → ℕ → ℕ → List ℕ → List ℕ
unfolding udp_datagram Ip.new header_bytes
build_udp_packet src_mac dst_mac src dst src_port dst_port payload =
    let udp_buf = udp_datagram src dst src_port dst_port payload in
    mac_bytes dst_mac
    ++ (mac_bytes src_mac
        ++ (0x08 ∷ 0x00 ∷ (header_bytes (Ip.new src dst (u16 (length udp_buf)) 17) ++ udp_buf)))

-- The sum that a receiver forms: pseudo-header and datagram, with no wrap.
abbrev pub received_sum : Ipv4Addr → Ipv4Addr → List ℕ → ℕ
received_sum src dst d =
    src.a * 256
    + src.b
    + (src.c * 256 + src.d)
    + (dst.a * 256 + dst.b)
    + (dst.c * 256 + dst.d)
    + 17
    + length d
    + word_sum d

udp_sum_lem :
    (src dst : Ipv4Addr) (d : List ℕ)
    → IsAddr src
    → IsAddr dst
    → IsOctets d
    → length d < 65536
    → udp_sum src dst 17 d ≡ received_sum src dst d
unfolding udp_sum
udp_sum_lem src dst d hs hd ho hl =
    let small = word_sum-le d ho in
    let start : u32 (
          be_word src.a src.b
          + be_word src.c src.d
          + be_word dst.a dst.b
          + be_word dst.c dst.d
          + 17
          + u16 (length d))
        ≡ src.a * 256
          + src.b
          + (src.c * 256 + src.d)
          + (dst.a * 256 + dst.b)
          + (dst.c * 256 + dst.d)
          + 17
          + length d =
      omega (
        arith,
        be_word_lem src.a src.b hs.0 hs.1,
        be_word_lem src.c src.d hs.2 hs.3,
        be_word_lem dst.a dst.b hd.0 hd.1,
        be_word_lem dst.c dst.d hd.2 hd.3,
      ) in
    rw start (add_words_lem _ d ho (omega arith))

udp_bytes-checksum :
    (h : UdpHeader) (c : ℕ) (payload : List ℕ)
    → c < 65536
    → word_sum (udp_bytes h c payload) ≡ word_sum (udp_bytes h 0 payload) + c
unfolding udp_bytes word_sum
udp_bytes-checksum h c payload hc = omega (arith, bytes_of c hc)

new-IsOctets :
    (src_port dst_port c : ℕ) (payload : List ℕ)
    → IsOctets payload
    → IsOctets (udp_bytes (new src_port dst_port (length payload)) c payload)
unfolding new udp_bytes
new-IsOctets sp dp c payload h = (
  omega arith,
  (
    omega arith,
    (omega arith, (omega arith, (omega arith, (omega arith, (omega arith, (omega arith, h)))))),
  ),
)

length-udp_bytes : (h : UdpHeader) (c : ℕ) (p : List ℕ) → length (udp_bytes h c p) ≡ length p + 8
unfolding udp_bytes
length-udp_bytes h c p = omega arith

checksum_Verifies :
    (src dst : Ipv4Addr) (h : UdpHeader) (payload : List ℕ)
    → IsAddr src
    → IsAddr dst
    → IsOctets (udp_bytes h 0 payload)
    → length payload + 8 < 65536
    → Verifies (
        received_sum src dst
          (udp_bytes h (calc_udp_checksum src dst 17 (udp_bytes h 0 payload)) payload))
unfolding calc_udp_checksum
checksum_Verifies src dst h payload hs hd ho hl =
    let d = udp_bytes h 0 payload in
    let s = received_sum src dst d in
    let length_d : length d < 65536 = omega (arith, length-udp_bytes h 0 payload) in
    let sum : udp_sum src dst 17 d ≡ s = udp_sum_lem src dst d hs hd ho length_d in
    let small : s + 65535 < 2 ^ 32 = omega (arith, word_sum-le d ho) in
    let total : (c : ℕ) → c < 65536 → received_sum src dst (udp_bytes h c payload) ≡ s + c = λ c hc.
      omega (
        arith,
        udp_bytes-checksum h c payload hc,
        length-udp_bytes h 0 payload,
        length-udp_bytes h c payload,
      ) in
    elim (Bool-cases (fold_carries fold_fuel s == 0xFFFF)) [
      | inl ones ↦
          rw (sum, ones, total 0xFFFF (omega arith))
            (ones-Verifies s small (==→≡ (fold_carries fold_fuel s) 0xFFFF ones))
      | inr other ↦
          let c = complement (fold_carries fold_fuel s) in
          rw (sum, other, total c (omega arith)) (complement-Verifies s small)
    ]

-- The checksum that `build_udp_packet` puts in verifies at a receiver, pseudo-header included, for
-- octets that fit a datagram.
pub udp_datagram-Verifies :
    (src dst : Ipv4Addr) (src_port dst_port : ℕ) (payload : List ℕ)
    → IsAddr src
    → IsAddr dst
    → IsOctets payload
    → length payload + 8 < 65536
    → Verifies (received_sum src dst (udp_datagram src dst src_port dst_port payload))
unfolding udp_datagram
udp_datagram-Verifies src dst sp dp payload hs hd ho hl =
    checksum_Verifies src dst (new sp dp (length payload)) payload hs hd
      (new-IsOctets sp dp 0 payload ho) hl

-- The 16-bit field at an offset of a packet, as a receiver reads it.
abbrev pub field : List ℕ → ℕ → ℕ
field pkt i = get_or pkt i 0 * 256 + get_or pkt (i + 1) 0

-- The frame has the two link addresses, the EtherType of IPv4 and the payload at its end; the ports
-- and the length of the UDP header stand there with their bytes exchanged.
pub build_udp_packet_fields :
    (src_mac dst_mac : MacAddr) (src dst : Ipv4Addr) (src_port dst_port : ℕ) (payload : List ℕ)
    → src_port < 65536
    → dst_port < 65536
    → let pkt = build_udp_packet src_mac dst_mac src dst src_port dst_port payload in
      (length pkt ≡ length payload + 42)
      × (take 14 pkt ≡ mac_bytes dst_mac ++ (mac_bytes src_mac ++ (0x08 ∷ 0x00 ∷ [])))
      × (field pkt 34 ≡ to_be src_port)
      × (field pkt 36 ≡ to_be dst_port)
      × (field pkt 38 ≡ to_be (u16 (8 + u16 (length payload))))
      × (drop 42 pkt ≡ payload)
unfolding build_udp_packet new udp_bytes
build_udp_packet_fields sm dm src dst sp dp payload hs hd =
    (omega arith, refl, omega arith, omega arith, omega arith, refl)
