-- ===== src/Net/Tests.antt =====
-- kernel/src/net: headers and packets between two concrete addresses.
use forward_os_kernel_base.Base.{ℕ, ◌≡◌, arith}
use forward_os_kernel_base.Base.{List, [], ◌∷◌, ◌++◌, length, take, drop, replicate}
use forward_os_kernel_base.Net.Checksum.{word_sum, Verifies}
use forward_os_kernel_base.Net.Ip.{Ipv4Addr}
use forward_os_kernel_base.Net.Udp.{MacAddr, udp_datagram, received_sum}
use forward_os_kernel_base.Net.Udp.{udp_datagram-Verifies}
use forward_os_kernel_base.Net.Icmp.{echo_message, echo_message_lem}

abbrev here : Ipv4Addr
here = record { a = 10; b = 0; c = 2; d = 15 }

abbrev there : Ipv4Addr
there = record { a = 10; b = 0; c = 2; d = 2 }

abbrev our_mac : MacAddr
our_mac = record { m₀ = 0x52; m₁ = 0x54; m₂ = 0; m₃ = 0x12; m₄ = 0x34; m₅ = 0x56 }

udp_datagram_example :
    Verifies (received_sum here there (udp_datagram here there 68 67 (1 ∷ 2 ∷ 3 ∷ [])))
udp_datagram_example =
    udp_datagram-Verifies here there 68 67 (1 ∷ 2 ∷ 3 ∷ []) (omega arith) (omega arith)
      (omega arith) (omega arith)

-- An echo request of 64 bytes, all 1.
abbrev long_ping : List ℕ
long_ping = replicate 64 1

echo_message_example :
    let reply = echo_message long_ping in
    Verifies (word_sum reply)
    × (length reply ≡ 64)
    × (take 2 reply ≡ 0 ∷ 0 ∷ [])
    × (drop 4 reply ≡ replicate 58 1 ++ (0 ∷ 0 ∷ []))
echo_message_example = echo_message_lem long_ping (omega arith) (omega arith) (omega arith)
