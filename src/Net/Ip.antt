-- ===== src/Net/Ip.antt =====
-- kernel/src/net/ip.rs: the IPv4 header. Its 16-bit fields are native words of a little-endian
-- machine, and the struct is packed, so its memory is the wire format.
use forward_os_kernel_base.Base.{ℕ, zero, suc, ◌+◌, ◌*◌, ◌/◌, ◌%◌, ◌^◌, ◌<◌}
use forward_os_kernel_base.Base.{◌≡◌, refl, ap, arith, List, [], ◌∷◌, u16, u32}
use forward_os_kernel_base.Net.Checksum.{fold_carries, fold_fuel, fold_carries_lem, complement}
use forward_os_kernel_base.Net.Checksum.{complement-Verifies, Verifies, word_sum}

-- `[u8; 4]`.
pub record Ipv4Addr : Type 0 where
  pub a : ℕ
  pub b : ℕ
  pub c : ℕ
  pub d : ℕ

abbrev pub IsAddr : Ipv4Addr → Type 0
IsAddr i = (i.a < 256) × (i.b < 256) × (i.c < 256) × (i.d < 256)

pub record Ipv4Header : Type 0 where
  pub version_ihl : ℕ
  pub dscp_ecn : ℕ
  pub total_len : ℕ
  pub id : ℕ
  pub flags_offset : ℕ
  pub ttl : ℕ
  pub protocol : ℕ
  pub checksum : ℕ
  pub src_ip : Ipv4Addr
  pub dst_ip : Ipv4Addr

-- `u16::to_be` on a little-endian machine.
abbrev pub to_be : ℕ → ℕ
to_be x = x % 256 * 256 + x / 256 % 256

-- The struct's memory.
unfoldable pub header_bytes : Ipv4Header → List ℕ
header_bytes h =
    h.version_ihl
    ∷ h.dscp_ecn
    ∷ h.total_len % 256
    ∷ h.total_len / 256
    ∷ h.id % 256
    ∷ h.id / 256
    ∷ h.flags_offset % 256
    ∷ h.flags_offset / 256
    ∷ h.ttl
    ∷ h.protocol
    ∷ h.checksum % 256
    ∷ h.checksum / 256
    ∷ h.src_ip.a
    ∷ h.src_ip.b
    ∷ h.src_ip.c
    ∷ h.src_ip.d
    ∷ h.dst_ip.a
    ∷ h.dst_ip.b
    ∷ h.dst_ip.c
    ∷ h.dst_ip.d
    ∷ []

-- The ten native words read from that memory.
unfoldable pub add_native_words : ℕ → ℕ → List ℕ → ℕ
add_native_words zero sum l = sum
add_native_words (suc n) sum [] = sum
add_native_words (suc n) sum (a ∷ []) = sum
add_native_words (suc n) sum (a ∷ b ∷ r) = add_native_words n (u32 (sum + (a + 256 * b))) r

unfoldable pub calc_checksum : Ipv4Header → ℕ
calc_checksum h = complement (fold_carries fold_fuel (add_native_words 10 0 (header_bytes h)))

unfoldable pub new : Ipv4Addr → Ipv4Addr → ℕ → ℕ → Ipv4Header
new src dst payload_len protocol =
    let hdr : Ipv4Header = record {
      version_ihl = 0x45;
      dscp_ecn = 0;
      total_len = to_be (u16 (20 + payload_len));
      id = 0;
      flags_offset = 0;
      ttl = 64;
      protocol = protocol;
      checksum = 0;
      src_ip = src;
      dst_ip = dst;
    } in
    record hdr { checksum = calc_checksum hdr }

native_sum : Ipv4Header → ℕ
native_sum h =
    h.version_ihl
    + 256 * h.dscp_ecn
    + h.total_len
    + h.id
    + h.flags_offset
    + (h.ttl + 256 * h.protocol)
    + h.checksum
    + (h.src_ip.a + 256 * h.src_ip.b)
    + (h.src_ip.c + 256 * h.src_ip.d)
    + (h.dst_ip.a + 256 * h.dst_ip.b)
    + (h.dst_ip.c + 256 * h.dst_ip.d)

-- Each field in its range.
record IsHeader (h : Ipv4Header) : Type 0 where
  bytes : (h.version_ihl < 256) × (h.dscp_ecn < 256) × (h.ttl < 256) × (h.protocol < 256)
  words : (h.total_len < 65536) × (h.id < 65536) × (h.flags_offset < 65536) × (h.checksum < 65536)
  src : IsAddr h.src_ip
  dst : IsAddr h.dst_ip

add_native_words_lem :
    (h : Ipv4Header) → IsHeader h → add_native_words 10 0 (header_bytes h) ≡ native_sum h
unfolding add_native_words header_bytes native_sum
add_native_words_lem h v = omega (arith, v.bytes, v.words, v.src, v.dst)

-- Summing the words in the other byte order multiplies the sum by 256, modulo 65535.
word_sum-native_sum :
    (h : Ipv4Header) → IsHeader h → (256 * native_sum h) % 65535 ≡ word_sum (header_bytes h) % 65535
unfolding word_sum header_bytes native_sum
word_sum-native_sum h v = omega (arith, v.bytes, v.words, v.src, v.dst)

native_sum-checksum :
    (h : Ipv4Header) (c : ℕ)
    → h.checksum ≡ 0
    → native_sum (record h { checksum = c }) ≡ native_sum h + c
unfolding native_sum
native_sum-checksum h c e = omega arith

native_sum-lt : (h : Ipv4Header) → IsHeader h → native_sum h + 65535 < 2 ^ 32
unfolding native_sum
native_sum-lt h v = omega (arith, v.bytes, v.words, v.src, v.dst)

word_sum-lt : (h : Ipv4Header) → IsHeader h → word_sum (header_bytes h) < 2 ^ 32
unfolding word_sum header_bytes
word_sum-lt h v = omega (arith, v.bytes, v.words, v.src, v.dst)

word_sum-pos : (h : Ipv4Header) → h.version_ihl ≡ 0x45 → 0 < word_sum (header_bytes h)
unfolding word_sum header_bytes
word_sum-pos h e = omega arith

checksum_Verifies :
    (h : Ipv4Header)
    → IsHeader h
    → h.checksum ≡ 0
    → h.version_ihl ≡ 0x45
    → Verifies (word_sum (header_bytes (record h { checksum = calc_checksum h })))
unfolding calc_checksum
checksum_Verifies h v e version =
    let s = native_sum h in
    let c = complement (fold_carries fold_fuel (add_native_words 10 0 (header_bytes h))) in
    let h' = record h { checksum = c } in
    let v' : IsHeader h' = record {
      bytes = v.bytes;
      words = (v.words.0, v.words.1, v.words.2, omega arith);
      src = v.src;
      dst = v.dst;
    } in
    let same : native_sum h' ≡ s + c = native_sum-checksum h c e in
    let small : s + 65535 < 2 ^ 32 = native_sum-lt h v in
    let c_is : c ≡ complement (fold_carries fold_fuel s) =
      ap (λ n. complement (fold_carries fold_fuel n)) (add_native_words_lem h v) in
    let f = fold_carries_lem (s + c) (omega arith) in
    let g = fold_carries_lem (word_sum (header_bytes h')) (word_sum-lt h' v') in
    let ones : fold_carries fold_fuel (s + c) ≡ 0xFFFF = rw c_is (complement-Verifies s small) in
    let divides : (s + c) % 65535 ≡ 0 = omega (arith, f.congruent) in
    let order = word_sum-native_sum h' v' in
    omega (arith, g.small, g.congruent, g.positive (word_sum-pos h' version))

-- The header that `new` builds verifies at a receiver, which adds the words in network order; and
-- it carries the length, the protocol and the addresses.
pub new-Verifies :
    (src dst : Ipv4Addr) (payload_len protocol : ℕ)
    → IsAddr src
    → IsAddr dst
    → payload_len < 65536
    → protocol < 256
    → let h = new src dst payload_len protocol in
      Verifies (word_sum (header_bytes h))
      × (to_be h.total_len ≡ u16 (20 + payload_len))
      × (h.protocol ≡ protocol)
      × (h.src_ip ≡ src)
      × (h.dst_ip ≡ dst)
unfolding new
new-Verifies src dst payload_len protocol hs hd hl hp = (
  checksum_Verifies _ (record { bytes = omega arith; words = omega arith; src = hs; dst = hd }) refl
      refl,
  omega arith,
  refl,
  refl,
  refl,
)
