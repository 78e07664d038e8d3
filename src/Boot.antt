-- ===== src/Boot.antt =====
-- The start of the machine: the menu of `kmain` (kernel/src/main.rs), and what `standard_boot`
-- (kernel/src/boot/mod.rs) does on the network and with the keyboard. `in_port` reads a port. The
-- messages on the screen are left out.
pub mod Menu
pub mod Arp
mod Tests
use forward_os_kernel_base.Base.{ℕ, zero, suc, leb, bit_and, bit_or}
use forward_os_kernel_base.Base.{
  Bool, true, false, not, ◌&&◌, ◌||◌, ◌==◌, if◌then◌else◌, Option, none, some, List, [], ◌∷◌, ◌++◌,
  length, get_or,
}
use forward_os_kernel_base.E1000.{E1000, poll_receive, send, slice_bytes}
use forward_os_kernel_base.Net.Udp.{MacAddr, mac_bytes}

-- The mode that a scan code chooses: 1 is the standard boot, 2 the debug shell, 0 none yet.
abbrev pub chosen_mode : ℕ → ℕ
chosen_mode sc =
    if not (sc == 0) && (bit_and sc 0x80 == 0)
    then if sc == 0x3B then 1 else if sc == 0x3C then 2 else 2
    else 0

module _ {E : Type 0} (in_port : ℕ → E → ℕ × E) where
  -- `while boot_mode == 0`
  unfoldable pub choose_boot_mode : ℕ → E → Option (ℕ × E)
  choose_boot_mode zero e = none
  choose_boot_mode (suc fuel) e =
      let (status, e₁) = in_port 0x64 e in
      let (sc, e₂) = in_port 0x60 e₁ in
      elim (bit_and status 0x01 == 0) [
        | true ↦ choose_boot_mode fuel e₁
        | false ↦ elim (chosen_mode sc == 0) [
          | true ↦ choose_boot_mode fuel e₂
          | false ↦ some (chosen_mode sc, e₂)
        ]
      ]

  -- The loop of `standard_boot` that waits for a shift key.
  unfoldable pub wait_shift : ℕ → E → Option E
  wait_shift zero e = none
  wait_shift (suc fuel) e =
      let (status, e₁) = in_port 0x64 e in
      let (sc, e₂) = in_port 0x60 e₁ in
      elim (bit_and status 0x01 == 0) [
        | true ↦ wait_shift fuel e₁
        | false ↦ elim ((sc == 0x2A) || (sc == 0x36)) [
          | true ↦ some e₂
          | false ↦ wait_shift fuel e₂
        ]
      ]

-- The request for the address of 10.0.2.2, from 10.0.2.15.
unfoldable pub arp_pkt : MacAddr → List ℕ
arp_pkt our_mac =
    (0xff ∷ 0xff ∷ 0xff ∷ 0xff ∷ 0xff ∷ 0xff ∷ [])
    ++ (mac_bytes our_mac
        ++ ((0x08 ∷ 0x06 ∷ 0x00 ∷ 0x01 ∷ 0x08 ∷ 0x00 ∷ 0x06 ∷ 0x04 ∷ 0x00 ∷ 0x01 ∷ [])
            ++ (mac_bytes our_mac
                ++ (0x0a ∷ 0x00 ∷ 0x02 ∷ 0x0f ∷ 0x00 ∷ 0x00 ∷ 0x00 ∷ 0x00 ∷ 0x00 ∷ 0x00 ∷ 0x0a
                    ∷ 0x00 ∷ 0x02 ∷ 0x02 ∷ []))))

-- The sender's address in an answer; `none` for another packet.
unfoldable pub host_mac : List ℕ → Option MacAddr
host_mac pkt =
    let at = λ (i : ℕ). get_or pkt i 0 in
    if leb 42 (length pkt)
      && ((at 12 == 0x08) && ((at 13 == 0x06) && ((at 20 == 0x00) && (at 21 == 0x02))))
    then some (record { m₀ = at 22; m₁ = at 23; m₂ = at 24; m₃ = at 25; m₄ = at 26; m₅ = at 27 })
    else none

-- The loop that listens. `hw` is what the controller does before each poll.
unfoldable pub listen : (E1000 → E1000) → ℕ → E1000 → Option (MacAddr × E1000)
unfolding host_mac poll_receive
listen hw zero n = none
listen hw (suc fuel) n =
    let (slice, m) = poll_receive (hw n) in
    elim slice [
      | none ↦ listen hw fuel m
      | some s ↦ elim (host_mac (slice_bytes m s)) [
        | none ↦ listen hw fuel m
        | some mac ↦ some (mac, m)
      ]
    ]

unfoldable pub find_host : (E1000 → E1000) → ℕ → E1000 → Option (MacAddr × E1000)
unfolding arp_pkt send listen
find_host hw fuel n = listen hw fuel (send n (arp_pkt n.mac)).1
