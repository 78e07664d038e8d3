-- ===== src/E1000.antt =====
-- kernel/src/net/e1000.rs: the driver of the Ethernet controller. The controller's registers are a
-- function from offsets to words, its descriptors and buffers functions from their number. What the
-- controller does by itself between two readings of a register is the parameter `hw` of the loops
-- that wait for it; Rings.antt says what it does with the descriptors.
pub mod Rings
pub mod Receive
pub mod Send
mod Tests
use forward_os_kernel_base.Base.{
  ℕ, zero, suc, ◌+◌, ◌-◌, ◌*◌, ◌/◌, ◌%◌, ◌^◌, bit_and, bit_or, ◌<<◌, ◌>>◌,
}
use forward_os_kernel_base.Base.{
  Bool, true, false, not, ltb, leb, ◌==◌, if◌then◌else◌, Option, none, some,
}
use forward_os_kernel_base.Base.{List, [], ◌∷◌, ◌++◌, length, take, drop, u8, u16, u32, u64}
use forward_os_kernel_base.Net.Udp.{MacAddr}

abbrev pub rx_desc_count : ℕ
rx_desc_count = 32

abbrev pub tx_desc_count : ℕ
tx_desc_count = 8

abbrev pub buffer_size : ℕ
buffer_size = 2048

-- The fields of the descriptors that the driver uses.
pub record RxDesc : Type 0 where
  pub buffer_addr : ℕ
  pub length : ℕ
  pub status : ℕ

pub record TxDesc : Type 0 where
  pub buffer_addr : ℕ
  pub length : ℕ
  pub cmd : ℕ
  pub status : ℕ

-- `reg` is the memory at `mmio_base`. A buffer is the list of its bytes.
pub record E1000 : Type 0 where
  pub reg : ℕ → ℕ
  pub mac : MacAddr
  pub rx_descs_addr : ℕ
  pub tx_descs_addr : ℕ
  pub rx_descs : ℕ → RxDesc
  pub rx_buffers : ℕ → List ℕ
  pub tx_descs : ℕ → TxDesc
  pub tx_buffers : ℕ → List ℕ

abbrev pub update : {A : Type 0} → (ℕ → A) → ℕ → A → ℕ → A
update f i a j = if i == j then a else f j

abbrev pub read_reg : E1000 → ℕ → ℕ
read_reg n offset = n.reg offset

abbrev pub write_reg : E1000 → ℕ → ℕ → E1000
write_reg n offset value = record n { reg = update n.reg offset value }

-- The address that the card's EEPROM left in RAL and RAH.
unfoldable pub read_mac : (ℕ → ℕ) → MacAddr
read_mac reg =
    let ral = reg 0x5400 in
    let rah = reg 0x5404 in
    record {
      m₀ = u8 ral;
      m₁ = u8 (ral >> 8);
      m₂ = u8 (ral >> 16);
      m₃ = u8 (ral >> 24);
      m₄ = u8 rah;
      m₅ = u8 (rah >> 8);
    }

-- `while self.read_reg(offset) & bit != 0 {}` for `set`, and `== 0` for its absence; `none` when the
-- fuel is used up.
unfoldable pub wait_reg : (E1000 → E1000) → ℕ → ℕ → ℕ → Bool → E1000 → Option E1000
wait_reg hw zero offset bit set n = none
wait_reg hw (suc fuel) offset bit set n =
    let rest = wait_reg hw fuel offset bit set (hw n) in
    let is_set = not (bit_and (read_reg n offset) bit == 0) in
    if (if set then is_set else not is_set) then rest else some n

-- The reset, and the wait for the link.
unfoldable pub init : (E1000 → E1000) → ℕ → E1000 → Option E1000
unfolding wait_reg
init hw fuel n =
    let m = hw (write_reg n 0x0000 (bit_or (read_reg n 0x0000) (1 << 26))) in
    elim (wait_reg hw fuel 0x0000 (1 << 26) true m) [
      | none ↦ none
      | some m' ↦ wait_reg hw fuel 0x0008 (1 << 1) false m'
    ]

-- The descriptors' page and the buffers' pages are those that two calls of `sys_mmap` gave.
unfoldable pub setup_rx : ℕ → ℕ → E1000 → E1000
setup_rx desc_addr buf_addr n = record n {
  rx_descs_addr = desc_addr;
  rx_descs = λ i.
      if ltb i rx_desc_count
      then record { buffer_addr = u64 (buf_addr + i * buffer_size); length = 0; status = 0 }
      else n.rx_descs i;
  reg =
      update
        (update
          (update (update (update n.reg 0x2800 (u32 desc_addr)) 0x2804 (desc_addr >> 32)) 0x2808
            (rx_desc_count * 16))
          0x2810 0)
        0x2818 (rx_desc_count - 1);
}

-- Status 1 is `Done`.
unfoldable pub setup_tx : ℕ → ℕ → E1000 → E1000
setup_tx desc_addr buf_addr n = record n {
  tx_descs_addr = desc_addr;
  tx_descs = λ i.
      if ltb i tx_desc_count
      then record {
        buffer_addr = u64 (buf_addr + i * buffer_size);
        length = 0;
        cmd = 0;
        status = 1;
      }
      else n.tx_descs i;
  reg =
      update
        (update
          (update (update (update n.reg 0x3800 (u32 desc_addr)) 0x3804 (desc_addr >> 32)) 0x3808
            (tx_desc_count * 16))
          0x3810 0)
        0x3818 0;
}

-- `rctl &= !0xFFFF`, and the bits set one by one.
abbrev pub rctl_bits : ℕ → ℕ
rctl_bits rctl =
    bit_or
      (bit_or
        (bit_or
          (bit_or (bit_or (bit_or (bit_or (bit_and rctl 0xFFFF0000) (1 << 1)) (1 << 3)) (1 << 4))
            (1 << 6))
          (1 << 15))
        (1 << 27))
      1

unfoldable pub enable : E1000 → E1000
enable n =
    let m = write_reg n 0x0100 (rctl_bits (read_reg n 0x0100)) in
    write_reg m 0x0400 (bit_or (bit_or (read_reg m 0x0400) (1 << 1)) (1 << 3))

-- The addresses are those of the four calls of `sys_mmap`, in order.
unfoldable pub new : (E1000 → E1000) → ℕ → ℕ → ℕ → ℕ → ℕ → E1000 → Option E1000
unfolding read_mac init setup_rx setup_tx enable
new hw fuel rx_desc rx_buf tx_desc tx_buf n =
    elim (init hw fuel (record n { mac = read_mac n.reg })) [
      | none ↦ none
      | some m ↦ some (enable (setup_tx tx_desc tx_buf (setup_rx rx_desc rx_buf m)))
    ]

-- What `receive` returns is a slice of a buffer: the buffer's number, and a length.
unfoldable pub receive : E1000 → Option (ℕ × ℕ) × E1000
receive n =
    let rdt = read_reg n 0x2818 in
    let idx = (rdt + 1) % rx_desc_count in
    let desc = n.rx_descs idx in
    let emptied = record n { rx_descs = update n.rx_descs idx (record desc { status = 0 }) } in
    if bit_and desc.status 1 == 0
    then (none, n)
    else (some (idx, desc.length), write_reg emptied 0x2818 idx)

unfoldable pub poll_receive : E1000 → Option (ℕ × ℕ) × E1000
unfolding receive
poll_receive n = receive n

-- The bytes that such a slice has.
abbrev pub slice_bytes : E1000 → ℕ × ℕ → List ℕ
slice_bytes n s = take s.1 (n.rx_buffers s.0)

unfoldable pub send : E1000 → List ℕ → Bool × E1000
send n packet =
    let tdt = read_reg n 0x3818 in
    let desc = n.tx_descs tdt in
    if ltb 2048 (length packet)
    then (false, n)
    else if not (bit_and desc.status 0x0F == 1)
    then (false, n)
    else (
      true,
      write_reg
          (record n {
            tx_buffers =
                update n.tx_buffers tdt (packet ++ drop (length packet) (n.tx_buffers tdt));
            tx_descs = update n.tx_descs tdt (record desc {
              length = u16 (length packet);
              cmd = 0x0B;
              status = bit_and desc.status 0xFE;
            });
          })
          0x3818 ((tdt + 1) % tx_desc_count),
    )
