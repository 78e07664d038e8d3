-- ===== src/Shell/Key.antt =====
-- kernel/src/main.rs: what the debug shell does with a scan code, and a round of its loop.
use forward_os_kernel_base.Base.{ℕ, ◌+◌, ◌-◌, Bool, true, false, not, ◌&&◌, ltb, ◌==◌}
use forward_os_kernel_base.Base.{
  if◌then◌else◌, Option, some, bit_and, set_byte, u8, Outcome, ret, and_then,
}
use forward_os_kernel_base.Draw.{Font}
use forward_os_kernel_base.Keys.Map.{key_char}
use forward_os_kernel_base.Shell.{Shell, draw_prompt}
use forward_os_kernel_base.Shell.Command.{enter}

unfoldable pub left : Shell → Shell
left s = if ltb 0 s.debug_lba then record s { debug_lba = s.debug_lba - 1 } else s

unfoldable pub right : Shell → Shell
right s = if ltb s.debug_lba 0xFFFFFFFF then record s { debug_lba = s.debug_lba + 1 } else s

unfoldable pub backspace : Shell → Shell
backspace s = if ltb 0 s.input_len then record s { input_len = s.input_len - 1 } else s

unfoldable pub type_char : ℕ → Shell → Shell
unfolding key_char
type_char sc s =
    let c = key_char s.is_shift sc in
    if ltb sc 0x80
    then (if not (c == 0) && (not (c == 0x08) && (not (c == 0x0A) && ltb s.input_len 63))
        then record s {
          input_buf = set_byte s.input_buf s.input_len (u8 c);
          input_len = s.input_len + 1;
        }
        else s)
    else s

unfoldable pub on_key : Font → ℕ → ℕ → Shell → Outcome (Option Shell)
unfolding left right backspace type_char enter
on_key font fuel sc s = elim (bit_and sc 0x80 == 0) [
  | false ↦ ret (some s)
  | true ↦ elim (sc == 0x4B) [
    | true ↦ ret (some (left s))
    | false ↦ elim (sc == 0x4D) [
      | true ↦ ret (some (right s))
      | false ↦ elim (sc == 0x1C) [
        | true ↦ enter font fuel s
        | false ↦ elim (sc == 0x0E) [
          | true ↦ ret (some (backspace s))
          | false ↦ ret (some (type_char sc s))
        ]
      ]
    ]
  ]
]

-- A round of the loop, for the scan code that the future gives and what it leaves in IS_SHIFT.
unfoldable pub round : Font → ℕ → ℕ → Bool → Shell → Outcome (Option Shell)
unfolding draw_prompt on_key
round font fuel sc is_shift s =
    and_then (draw_prompt font s) (λ t. on_key font fuel sc (record t { is_shift = is_shift }))
