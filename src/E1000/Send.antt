-- ===== src/E1000/Send.antt =====
-- The driver's ring of transmit descriptors: what one call of `send` hands to the controller.
use forward_os_kernel_base.Base.{
  ℕ, ◌+◌, ◌-◌, ◌%◌, ◌≤◌, ◌<◌, ◌≡◌, ◌≢◌, refl, ap, ap₂, subst, ◌∙◌, arith,
}
use forward_os_kernel_base.Base.{
  Bool, true, false, ltb, ◌==◌, if-eq_false, if-eq_true, List, ◌++◌, take, drop, length,
}
use forward_os_kernel_base.Base.{bit_and, Bool-cases, inl, inr, ==_refl, ◌⊎◌, u16, take-append}
use forward_os_kernel_base.Base.{◌*◌, ◌/◌, ◌^◌}
use forward_os_kernel_base.Base.Bits.{bit_and_mask, bit_and_shifted}
use mathlib.Core.List.{append-nil}
use forward_os_kernel_base.E1000.{update, E1000, TxDesc, send}

abbrev pub tdh : E1000 → ℕ
tdh n = n.reg 0x3810

abbrev pub tdt : E1000 → ℕ
tdt n = n.reg 0x3818

-- The descriptors from TDH up to TDT, which the controller has yet to send.
abbrev pub unsent : E1000 → ℕ
unsent n = (tdt n + 8 - tdh n) % 8

-- What the controller reads at a descriptor.
abbrev pub packet_at : E1000 → ℕ → List ℕ
packet_at n i = take (n.tx_descs i).length (n.tx_buffers i)

-- The descriptor at the tail is handed over with this packet.
pub record HandsOver (n n' : E1000) (packet : List ℕ) : Type 0 where
  pub holds : packet_at n' (tdt n) ≡ packet
  pub at : (n'.tx_descs (tdt n)).buffer_addr ≡ (n.tx_descs (tdt n)).buffer_addr
  -- DD and the three bits above it are reset, and the upper ones stay.
  pub reset : (n'.tx_descs (tdt n)).status ≡ (n.tx_descs (tdt n)).status % 2 ^ 8 / 2 ^ 4 * 2 ^ 4
  pub asks : (n'.tx_descs (tdt n)).cmd ≡ 0x0B
  pub next : tdt n' ≡ (tdt n + 1) % 8
  pub head : tdh n' ≡ tdh n
  pub others :
      (i : ℕ)
      → (tdt n == i) ≡ false
      → (n'.tx_descs i ≡ n.tx_descs i) × (n'.tx_buffers i ≡ n.tx_buffers i)

-- The state after a packet was handed over.
abbrev handed : E1000 → List ℕ → E1000
handed n packet = record n {
  tx_buffers = update n.tx_buffers (tdt n) (packet ++ drop (length packet) (n.tx_buffers (tdt n)));
  tx_descs = update n.tx_descs (tdt n) (record (n.tx_descs (tdt n)) {
    length = u16 (length packet);
    cmd = 0x0B;
    status = bit_and (n.tx_descs (tdt n)).status 0xFE;
  });
  reg = update n.reg 0x3818 ((tdt n + 1) % 8);
}

reset_bits : (x : ℕ) → bit_and x (2 ^ 4 - 1) ≡ 1 → bit_and x 0xFE ≡ x % 2 ^ 8 / 2 ^ 4 * 2 ^ 4
reset_bits x done =
    omega
      (arith, done, bit_and_mask 4 x, bit_and_shifted 1 x (2 ^ 7 - 1), bit_and_mask 7 (x / 2 ^ 1))

module _ (n : E1000) (packet : List ℕ) where
  handed-desc : (handed n packet).tx_descs (tdt n) ≡ record (n.tx_descs (tdt n)) {
    length = u16 (length packet);
    cmd = 0x0B;
    status = bit_and (n.tx_descs (tdt n)).status 0xFE;
  }
  handed-desc = if-eq_true _ (==_refl (tdt n))

  handed-packet : length packet ≤ 2048 → packet_at (handed n packet) (tdt n) ≡ packet
  handed-packet fits =
      ap₂ (λ (x : TxDesc) (b : List ℕ). take x.length b) handed-desc
        (if-eq_true _ (==_refl (tdt n)))
      ∙ take-append (u16 (length packet)) 0 packet _ (omega arith)
      ∙ append-nil packet

  handed-HandsOver :
      length packet ≤ 2048
      → bit_and (n.tx_descs (tdt n)).status (2 ^ 4 - 1) ≡ 1
      → HandsOver n (handed n packet) packet
  handed-HandsOver fits done = record {
    holds = handed-packet fits;
    at = ap (λ (x : TxDesc). x.buffer_addr) handed-desc;
    reset = ap (λ (x : TxDesc). x.status) handed-desc ∙ reset_bits (n.tx_descs (tdt n)).status done;
    asks = ap (λ (x : TxDesc). x.cmd) handed-desc;
    next = refl;
    head = refl;
    others = λ i away. (if-eq_false _ away, if-eq_false _ away);
  }

-- A call of `send` returns false and changes nothing, where the packet is longer than a buffer or
-- the descriptor at the tail is not done, or it returns true and hands over the packet.
pub send_lem :
    (n : E1000) (packet : List ℕ)
    → ((send n packet ≡ (false, n))
        × ((2048 < length packet) ⊎ (bit_and (n.tx_descs (tdt n)).status 0x0F ≢ 1)))
      ⊎ (((send n packet).0 ≡ true)
          × (length packet ≤ 2048)
          × (bit_and (n.tx_descs (tdt n)).status 0x0F ≡ 1)
          × HandsOver n (send n packet).1 packet)
unfolding send
send_lem n packet = elim (Bool-cases (ltb 2048 (length packet))) [
  | inl long ↦ inl (rw (long, send) refl, inl (ground (arith, long)))
  | inr fits ↦ elim (Bool-cases (bit_and (n.tx_descs (tdt n)).status 0x0F == 1)) [
    | inr busy ↦ inl (rw (fits, busy, send) refl, inr (ground (arith, busy)))
    | inl done ↦
        let sent : (true, handed n packet) ≡ send n packet = rw (fits, done, send) refl in
        let short : length packet ≤ 2048 = ground (arith, fits) in
        inr (
          subst
            (λ (r : Bool × E1000).
              (r.0 ≡ true)
              × (length packet ≤ 2048)
              × (bit_and (n.tx_descs (tdt n)).status 0x0F ≡ 1)
              × HandsOver n r.1 packet)
            sent
            (
              refl,
              short,
              ground (arith, done),
              handed-HandsOver n packet short (ground (arith, done)),
            ))
  ]
]

-- Each packet handed over is one more to send, counted modulo 8: where seven were left to send, an
-- eighth makes the ring look empty to the controller.
pub unsent-send :
    (n : E1000) (packet : List ℕ)
    → tdh n < 8
    → tdt n < 8
    → (send n packet).0 ≡ true
    → (unsent (send n packet).1 ≡ (unsent n + 1) % 8)
      × ((unsent n ≡ 7) → unsent (send n packet).1 ≡ 0)
unsent-send n packet head tail sent = elim (send_lem n packet) [
  | inl (same, reason) ↦ ground (arith, same, sent)
  | inr (_, short, done, over) ↦ (
    omega (arith, head, tail, over.next, over.head),
    λ full. omega (arith, head, tail, over.next, over.head),
  )
]
