-- ===== src/E1000/Tests.antt =====
-- The theorems applied to a card that has one frame, and one packet to send.
use forward_os_kernel_base.Base.{
  ℕ, ◌+◌, ◌%◌, ◌≤◌, ◌<◌, ◌≡◌, ◌≢◌, ◌⊎◌, refl, arith, true, false, ◌==◌, if◌then◌else◌, some,
  bit_and,
}
use forward_os_kernel_base.Base.{List, [], ◌∷◌, ◌++◌, length, replicate, if-eq_false}
use forward_os_kernel_base.E1000.{update, E1000, setup_rx, setup_tx, receive, send, slice_bytes}
use forward_os_kernel_base.E1000.Rings.{rdh, Delivers, begin, delivers, returns}
use forward_os_kernel_base.E1000.Receive.{waiting, receive_in_order}
use forward_os_kernel_base.E1000.Send.{tdt, HandsOver, send_lem}

abbrev card : E1000
card = record {
  reg = λ o. 0;
  mac = record { m₀ = 0x52; m₁ = 0x54; m₂ = 0; m₃ = 0x12; m₄ = 0x34; m₅ = 0x56 };
  rx_descs_addr = 0;
  tx_descs_addr = 0;
  rx_descs = λ i. record { buffer_addr = 0; length = 0; status = 0 };
  rx_buffers = λ i. replicate 8 0;
  tx_descs = λ i. record { buffer_addr = 0; length = 0; cmd = 0; status = 0 };
  tx_buffers = λ i. replicate 8 0;
}

abbrev frame : List ℕ
frame = 9 ∷ 8 ∷ 7 ∷ []

abbrev ready : E1000
ready = setup_rx 0x10000 0x20000 card

-- The card puts the frame into the descriptor at RDH.
abbrev fill : E1000 → E1000
fill n = record n {
  reg = λ o. if o == 0x2810 then (rdh n + 1) % 32 else n.reg o;
  rx_descs =
      update n.rx_descs (rdh n) (record { buffer_addr = 0; length = length frame; status = 3 });
  rx_buffers = update n.rx_buffers (rdh n) frame;
}

fill-Delivers : Delivers ready (fill ready) frame
unfolding setup_rx
fill-Delivers = record {
  room = λ e. omega (arith, e);
  regs = λ o. refl;
  filled = refl;
  done = refl;
  others = λ i away. (if-eq_false _ away, if-eq_false _ away);
}

receive_filled : receive (fill ready) ≡ (some (0, 3), (receive (fill ready)).1)
unfolding receive setup_rx
receive_filled = refl

in_order_example :
    (slice_bytes (fill ready) (0, 3) ∷ []) ++ waiting (receive (fill ready)).1 ≡ frame ∷ []
in_order_example =
    receive_in_order 0x10000 0x20000 card
      (returns (0, 3) (receive (fill ready)).1 (delivers frame begin fill-Delivers) receive_filled)

abbrev sender : E1000
sender = setup_tx 0x30000 0x40000 card

send_example :
    ((send sender frame ≡ (false, sender))
      × ((2048 < length frame) ⊎ (bit_and (sender.tx_descs (tdt sender)).status 0x0F ≢ 1)))
    ⊎ (((send sender frame).0 ≡ true)
        × (length frame ≤ 2048)
        × (bit_and (sender.tx_descs (tdt sender)).status 0x0F ≡ 1)
        × HandsOver sender (send sender frame).1 frame)
send_example = send_lem sender frame
