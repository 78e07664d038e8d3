-- ===== src/Boot/Tests.antt =====
-- The theorems applied to a keyboard with three codes, and to a card that hears two packets.
use forward_os_kernel_base.Base.{ℕ, ◌+◌, ◌%◌, ◌≡◌, refl, ap, arith, bit_and, false}
use forward_os_kernel_base.Base.{◌==◌, if◌then◌else◌, none, List, [], ◌∷◌, replicate}
use forward_os_kernel_base.Boot.{choose_boot_mode, arp_pkt, host_mac, find_host}
use forward_os_kernel_base.Boot.Arp.{Hears, answer, find_host_lem}
use forward_os_kernel_base.Boot.Menu.{IsKeyboard, Chooses, choose_boot_mode_lem}
use forward_os_kernel_base.E1000.{update, E1000, receive, poll_receive, send}
use forward_os_kernel_base.Net.Udp.{MacAddr}

abbrev port : ℕ → List ℕ → ℕ × List ℕ
port p [] = (0, [])
port p (x ∷ xs) = if p == 0x64 then (1, x ∷ xs) else (x, xs)

port_ready :
    (e : List ℕ) (x : ℕ) (xs : List ℕ) → e ≡ x ∷ xs → (bit_and (port 0x64 e).0 0x01 == 0) ≡ false
port_ready e x xs h = ap (λ (l : List ℕ). bit_and (port 0x64 l).0 0x01 == 0) h

port_asks : (e : List ℕ) → (port 0x64 e).1 ≡ e
port_asks [] = refl
port_asks (x ∷ xs) = refl

port-IsKeyboard : IsKeyboard port (λ xs. xs)
port-IsKeyboard = record {
  ready = port_ready;
  asks = port_asks;
  reads =
      λ e x xs h. (ap (λ (l : List ℕ). (port 0x60 l).0) h, ap (λ (l : List ℕ). (port 0x60 l).1) h);
}

-- Enter is released, F1 is pressed and released.
abbrev typed : List ℕ
typed = 0x9C ∷ 0x3B ∷ 0xBB ∷ []

choose_boot_mode_example :
    Chooses (λ (xs : List ℕ). xs) 1 (0xBB ∷ []) (choose_boot_mode port 9 typed)
choose_boot_mode_example =
    choose_boot_mode_lem port (λ xs. xs) port-IsKeyboard 9 typed (omega arith) refl

abbrev card : E1000
card = record {
  reg = λ o. 0;
  mac = record { m₀ = 0x52; m₁ = 0x54; m₂ = 0; m₃ = 0x12; m₄ = 0x34; m₅ = 0x56 };
  rx_descs_addr = 0;
  tx_descs_addr = 0;
  rx_descs = λ i. record { buffer_addr = 0; length = 0; status = 0 };
  rx_buffers = λ i. [];
  tx_descs = λ i. record { buffer_addr = 0; length = 0; cmd = 0; status = 1 };
  tx_buffers = λ i. replicate 64 0;
}

abbrev host : MacAddr
host = record { m₀ = 0x52; m₁ = 0x55; m₂ = 10; m₃ = 0; m₄ = 2; m₅ = 2 }

-- Before a poll the card fills the next descriptor: first with a packet of three bytes, then with
-- the answers of the host.
abbrev hears : E1000 → E1000
hears n =
    let i = (n.reg 0x2818 + 1) % 32 in
    let packet = if i == 1 then 9 ∷ 8 ∷ 7 ∷ [] else answer host (n.tx_buffers 0) in
    record n {
      rx_descs =
          update n.rx_descs i
            (record { buffer_addr = 0; length = if i == 1 then 3 else 42; status = 3 });
      rx_buffers = update n.rx_buffers i packet;
    }

find_host_example : (host_mac (arp_pkt card.mac) ≡ none) × Hears host (find_host hears 2 card)
unfolding host_mac arp_pkt send receive poll_receive
find_host_example = find_host_lem hears 2 card host ((9 ∷ 8 ∷ 7 ∷ []) ∷ []) [] refl refl
