-- ===== src/Boot/Arp.antt =====
-- The search of the host's address by ARP, in `standard_boot` of kernel/src/boot/mod.rs.
use mathlib.Core.Option.{none-ne-some}
use forward_os_kernel_base.Base.{ℕ, zero, suc, ◌≡◌, refl, ap, ◌∙◌, arith, subst}
use forward_os_kernel_base.Base.{
  Option, none, some, Option-cases, inl, inr, List, [], ◌∷◌, ◌++◌, take, drop,
}
use forward_os_kernel_base.E1000.{E1000, poll_receive, send, slice_bytes}
use forward_os_kernel_base.Boot.{arp_pkt, host_mac, listen, find_host}
use forward_os_kernel_base.Net.Udp.{MacAddr, mac_bytes}

-- The answer of the host `mac` to a request, as RFC 826 has it: the sender becomes the target.
abbrev pub answer : MacAddr → List ℕ → List ℕ
answer mac request =
    take 6 (drop 6 request)
    ++ (mac_bytes mac
        ++ (take 8 (drop 12 request)
            ++ ((0 ∷ 2 ∷ [])
                ++ (mac_bytes mac ++ (take 4 (drop 38 request) ++ take 10 (drop 22 request))))))

-- The first address that one of the packets tells.
abbrev pub first_host : List (List ℕ) → Option MacAddr
first_host [] = none
first_host (p ∷ ps) = elim (host_mac p) [ none ↦ first_host ps | some mac ↦ some mac ]

-- The packets after a poll, with the one that it brought.
abbrev with_packet : Option (ℕ × ℕ) → E1000 → List (List ℕ) → List (List ℕ)
with_packet none m ps = ps
with_packet (some s) m ps = slice_bytes m s ∷ ps

-- The packets that so many polls bring.
abbrev pub received : (E1000 → E1000) → ℕ → E1000 → List (List ℕ)
received hw zero n = []
received hw (suc k) n =
    let (slice, m) = poll_receive (hw n) in with_packet slice m (received hw k m)

-- The loop has found an address.
pub record Hears (host : MacAddr) (o : Option (MacAddr × E1000)) : Type 0 where
  pub after : E1000
  pub found : o ≡ some (host, after)

listen_lem :
    (hw : E1000 → E1000) (fuel : ℕ) (n : E1000) (host : MacAddr)
    → first_host (received hw fuel n) ≡ some host
    → Hears host (listen hw fuel n)
unfolding listen
listen_lem hw zero n host h = absurd (none-ne-some host h)
listen_lem hw (suc fuel) n host h =
    let m = (poll_receive (hw n)).1 in
    elim (Option-cases (poll_receive (hw n)).0) [
      | inl nothing ↦
          rw (nothing, listen)
            (listen_lem hw fuel m host (
              subst (λ o. first_host (with_packet o m (received hw fuel m)) ≡ some host) nothing h))
      | inr (s, came) ↦
          let here : first_host (slice_bytes m s ∷ received hw fuel m) ≡ some host =
            subst (λ o. first_host (with_packet o m (received hw fuel m)) ≡ some host) came h in
          elim (Option-cases (host_mac (slice_bytes m s))) [
            | inl other ↦
                rw (came, other, listen) (listen_lem hw fuel m host (ground (arith, here, other)))
            | inr (mac, told) ↦
                rw (came, told, listen)
                  (record { after = m; found = ap (λ x. some (x, m)) (ground (arith, here, told)) })
          ]
    ]

host_mac-answer : (mac our : MacAddr) → host_mac (answer mac (arp_pkt our)) ≡ some mac
unfolding host_mac arp_pkt
host_mac-answer mac our = refl

first_host-append :
    (before : List (List ℕ)) (p : List ℕ) (after : List (List ℕ)) {mac : MacAddr}
    → first_host before ≡ none
    → host_mac p ≡ some mac
    → first_host (before ++ p ∷ after) ≡ some mac
first_host-append [] p after h e = ground (arith, e)
first_host-append (q ∷ before) p after h e = elim (Option-cases (host_mac q)) [
  | inl other ↦
      rw (other, first_host) (first_host-append before p after (ground (arith, h, other)) e)
  | inr (mac, told) ↦ ground (arith, h, told)
]

-- The request is no answer. When the host's answer is among the packets that come in after the
-- request, and those before it are no answers, the search ends with the host's address.
pub find_host_lem :
    (hw : E1000 → E1000) (fuel : ℕ) (n : E1000) (host : MacAddr) (before after : List (List ℕ))
    → first_host before ≡ none
    → received hw fuel (send n (arp_pkt n.mac)).1 ≡ before ++ answer host (arp_pkt n.mac) ∷ after
    → (host_mac (arp_pkt n.mac) ≡ none) × Hears host (find_host hw fuel n)
unfolding find_host host_mac arp_pkt
find_host_lem hw fuel n host before after quiet comes = (
  refl,
  listen_lem hw fuel (send n (arp_pkt n.mac)).1 host (
      ap first_host comes
      ∙ first_host-append before (answer host (arp_pkt n.mac)) after quiet
          (host_mac-answer host n.mac)),
)
