-- ===== src/Net/Icmp.antt =====
-- kernel/src/net/icmp.rs: the reply to an echo request.
use forward_os_kernel_base.Base.{ℕ, suc, ◌+◌, ◌-◌, ◌^◌, ◌≤◌, ◌<◌, min}
use forward_os_kernel_base.Base.{
  ◌≡◌, refl, ◌∙◌, sym, ap, ap₂, ◌⊎◌, arith, List, [], ◌∷◌, ◌++◌, length,
}
use forward_os_kernel_base.Base.{u16, ltb, if◌then◌else◌, inl, inr, get_or, take, drop}
use forward_os_kernel_base.Base.{
  replicate, Option, none, some, All-append, All-take, All-drop, All-replicate,
}
use forward_os_kernel_base.Base.{
  length-take, length-drop, length-replicate, length-append, take-append,
}
use forward_os_kernel_base.Base.{take_all, take-replicate}
use forward_os_kernel_base.Net.Checksum.{
  fold_carries, fold_fuel, complement, add_words, add_words_lem,
}
use forward_os_kernel_base.Net.Checksum.{
  word_sum, word_sum-le, IsOctets, Verifies, complement-Verifies,
}
use forward_os_kernel_base.Net.Checksum.{high_byte, low_byte, bytes_of}
use forward_os_kernel_base.Net.Ip.{Ipv4Addr, header_bytes}
use forward_os_kernel_base.Net.Ip
use forward_os_kernel_base.Net.Udp.{MacAddr, mac_bytes}

unfoldable pub calc_icmp_checksum : List ℕ → ℕ
calc_icmp_checksum message = complement (fold_carries fold_fuel (add_words 0 message))

abbrev pub icmp_off : ℕ
icmp_off = 34

-- The array of 64 bytes: type, code and checksum 0, then what is copied of the request.
unfoldable pub icmp_array : List ℕ → List ℕ
icmp_array icmp_data =
    let copy_len = min (length icmp_data) 62 in
    0 ∷ 0 ∷ 0 ∷ 0 ∷ (take (copy_len - 4) (drop 4 icmp_data) ++ replicate (64 - copy_len) 0)

unfoldable pub put_checksum : ℕ → List ℕ → List ℕ
put_checksum c (a ∷ b ∷ _ ∷ _ ∷ r) = a ∷ b ∷ high_byte c ∷ low_byte c ∷ r
put_checksum c l = l

-- The ICMP message of the reply.
unfoldable pub echo_message : List ℕ → List ℕ
unfolding icmp_array put_checksum calc_icmp_checksum
echo_message icmp_data =
    let zeroed = take (length icmp_data) (icmp_array icmp_data) in
    put_checksum (calc_icmp_checksum zeroed) zeroed

unfoldable pub addr_at : List ℕ → ℕ → Ipv4Addr
addr_at l i = record {
  a = get_or l i 0;
  b = get_or l (i + 1) 0;
  c = get_or l (i + 2) 0;
  d = get_or l (i + 3) 0;
}

-- `none` is a panic: a message of more than 64 bytes does not fit the array. A request that is too
-- short gets no reply, the empty packet.
unfoldable pub build_echo_reply : List ℕ → MacAddr → MacAddr → Option (List ℕ)
unfolding echo_message addr_at
build_echo_reply request our_mac dst_mac =
    let icmp_data = drop icmp_off request in
    let icmp_len = length icmp_data in
    let src_ip = addr_at request 26 in
    let dst_ip = addr_at request 30 in
    if ltb (length request) (icmp_off + 8)
    then some []
    else if ltb 64 icmp_len
    then none
    else some (
        mac_bytes dst_mac
        ++ (mac_bytes our_mac
            ++ (0x08
                ∷ 0x00
                ∷ (header_bytes (Ip.new dst_ip src_ip (u16 icmp_len) 1)
                    ++ echo_message icmp_data))))

take_same : (k : ℕ) (l : List ℕ) → (k ≡ 58) ⊎ ((length l ≤ k) × (k ≤ 58)) → take k l ≡ take 58 l
take_same k l (inl e) = ap (λ i. take i l) e
take_same k l (inr (h, g)) = take_all k l h ∙ sym (take_all 58 l (omega arith))

zeroed_lem :
    (l : List ℕ)
    → 8 ≤ length l
    → length l ≤ 64
    → take (length l) (icmp_array l)
      ≡ 0 ∷ 0 ∷ 0 ∷ 0 ∷ (take 58 (drop 4 l) ++ replicate (length l - 62) 0)
unfolding icmp_array
zeroed_lem l lo hi =
    let n = length l in
    let c = min n 62 in
    let tail = drop 4 l in
    let body = take (c - 4) tail in
    let fill : List ℕ = replicate (64 - c) 0 in
    let size : length body ≡ c - 4 = omega (arith, length-take (c - 4) tail, length-drop 4 l) in
    let same : body ≡ take 58 tail = take_same (c - 4) tail (omega (arith, length-drop 4 l)) in
    let four : n ≡ suc (suc (suc (suc (n - 4)))) = omega arith in
    ap (λ (i : ℕ). take i (0 ∷ 0 ∷ 0 ∷ 0 ∷ (body ++ fill))) four
    ∙ ap (λ (r : List ℕ). 0 ∷ 0 ∷ 0 ∷ 0 ∷ r)
        (take-append (n - 4) (n - 62) body fill (omega (arith, size))
          ∙ ap₂ (λ (a b : List ℕ). a ++ b) same (take-replicate (n - 62) (64 - c) 0 (omega arith)))

put_checksum_sum :
    (c : ℕ) (r : List ℕ)
    → c < 65536
    → word_sum (put_checksum c (0 ∷ 0 ∷ 0 ∷ 0 ∷ r)) ≡ word_sum (0 ∷ 0 ∷ 0 ∷ 0 ∷ r) + c
unfolding put_checksum word_sum
put_checksum_sum c r h = omega (arith, bytes_of c h)

checksum_Verifies :
    (r : List ℕ)
    → IsOctets r
    → length r ≤ 60
    → let l = 0 ∷ 0 ∷ 0 ∷ 0 ∷ r in Verifies (word_sum (put_checksum (calc_icmp_checksum l) l))
unfolding calc_icmp_checksum
checksum_Verifies r ho small =
    let l = 0 ∷ 0 ∷ 0 ∷ 0 ∷ r in
    let octets : IsOctets l = (omega arith, (omega arith, (omega arith, (omega arith, ho)))) in
    let s = word_sum l in
    let bound : s + 65535 < 2 ^ 32 = omega (arith, word_sum-le l octets) in
    let sum : add_words 0 l ≡ s = add_words_lem 0 l octets (omega arith) ∙ omega arith in
    let c = complement (fold_carries fold_fuel s) in
    rw (sum, put_checksum_sum c r (omega arith)) (complement-Verifies s bound)

-- A message of 8 to 64 bytes is answered by one of the same length with type and code 0 and a
-- checksum that verifies. It repeats the request from its fifth byte on, but the bytes after the
-- 62nd are 0.
pub echo_message_lem :
    (icmp_data : List ℕ)
    → IsOctets icmp_data
    → 8 ≤ length icmp_data
    → length icmp_data ≤ 64
    → let reply = echo_message icmp_data in
      Verifies (word_sum reply)
      × (length reply ≡ length icmp_data)
      × (take 2 reply ≡ 0 ∷ 0 ∷ [])
      × (drop 4 reply ≡ take 58 (drop 4 icmp_data) ++ replicate (length icmp_data - 62) 0)
unfolding echo_message
echo_message_lem l ho lo hi =
    let r = take 58 (drop 4 l) ++ replicate (length l - 62) 0 in
    let octets : IsOctets r =
      All-append _ _ _ (All-take _ 58 (drop 4 l) (All-drop _ 4 l ho))
        (All-replicate _ (length l - 62) 0 (omega arith)) in
    let size : length r ≡ length l - 4 = omega (
      arith,
      length-append (take 58 (drop 4 l)) (replicate (length l - 62) 0),
      length-take 58 (drop 4 l),
      length-drop 4 l,
      length-replicate (length l - 62) (let z : ℕ = 0 in z),
    ) in
    rw (zeroed_lem l lo hi) (checksum_Verifies r octets (omega arith), omega arith, refl, refl)
