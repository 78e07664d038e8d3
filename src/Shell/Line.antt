-- ===== src/Shell/Line.antt =====
-- The keys of the shell edit a line of ASCII text.
use forward_os_kernel_base.Base.{ℕ, ◌*◌, ◌/◌, ◌≤◌, ◌<◌, ◌≡◌, ◌≢◌, refl, sym, ap, subst, ◌∙◌, arith}
use forward_os_kernel_base.Base.{
  true, false, leb, ◌==◌, ==→≡, ◌⊎◌, Bool-cases, inl, inr, some, ret, bit_and,
}
use native.Mathlib.Decide.{dec_lt}
use forward_os_kernel_base.Base.Bits.{bit_and_mask, bit_and_shifted}
use forward_os_kernel_base.Draw.{Font}
use forward_os_kernel_base.Shell.{Shell, command_line}
use forward_os_kernel_base.Shell.Edit.{
  IsShell, Edited, edited, moved, unchanged, type_char-Edited, backspace-Edited, left-Edited,
  right-Edited,
}
use forward_os_kernel_base.Shell.Key.{left, right, backspace, type_char, on_key}

-- What becomes of the shell at a key.
abbrev AfterKey : Font → ℕ → Shell → ℕ → Type 0
AfterKey font fuel s sc =
    (t : Shell) × (on_key font fuel sc s ≡ ret (some t))
    × Edited s t (edited s.is_shift sc (command_line s)) (moved sc s.debug_lba)

on_key-released :
    (font : Font) (fuel sc : ℕ) (s : Shell)
    → IsShell s
    → 128 ≤ sc
    → sc < 256
    → bit_and sc 0x80 ≡ sc / 128 * 128
    → AfterKey font fuel s sc
unfolding on_key
on_key-released font fuel sc s v high byte top =
    let up : (bit_and sc 0x80 == 0) ≡ false = ground (arith, top) in
    let out : leb 0x80 sc ≡ true = ground (arith, high) in
    let t1 : (sc == 0x4B) ≡ false = ground (arith, high) in
    let t2 : (sc == 0x4D) ≡ false = ground (arith, high) in
    rw (up, out, t1, t2, on_key) (s, refl, unchanged s v)

on_key-typed :
    (font : Font) (fuel sc : ℕ) (s : Shell)
    → IsShell s
    → sc < 128
    → bit_and sc 0x80 ≡ sc / 128 * 128
    → (sc == 0x4B) ≡ false
    → (sc == 0x4D) ≡ false
    → (sc == 0x1C) ≡ false
    → (sc == 0x0E) ≡ false
    → AfterKey font fuel s sc
unfolding on_key
on_key-typed font fuel sc s v low top t1 t2 t3 t4 =
    let down : (bit_and sc 0x80 == 0) ≡ true = ground (arith, top) in
    let code : leb 0x80 sc ≡ false = ground (arith, low) in
    rw (down, code, t1, t2, t3, t4, on_key) (type_char sc s, refl, type_char-Edited sc s v low)

on_key-edits :
    (font : Font) (fuel sc : ℕ) (s : Shell)
    → IsShell s
    → (sc ≡ 0x4B) ⊎ ((sc ≡ 0x4D) ⊎ (sc ≡ 0x0E))
    → AfterKey font fuel s sc
unfolding on_key
on_key-edits font fuel sc s v (inl e) =
    subst (AfterKey font fuel s) (sym e) (left s, refl, left-Edited s v)
on_key-edits font fuel sc s v (inr (inl e)) =
    subst (AfterKey font fuel s) (sym e) (right s, refl, right-Edited s v)
on_key-edits font fuel sc s v (inr (inr e)) =
    subst (AfterKey font fuel s) (sym e) (backspace s, refl, backspace-Edited s v)

-- Every key but Enter returns; it edits the line as a line of at most 63 characters, or moves along
-- the disk, and leaves everything else. What is on the line stays ASCII.
pub on_key_lem :
    (font : Font) (fuel sc : ℕ) (s : Shell)
    → IsShell s
    → sc < 256
    → sc ≢ 0x1C
    → (t : Shell) × (on_key font fuel sc s ≡ ret (some t))
      × Edited s t (edited s.is_shift sc (command_line s)) (moved sc s.debug_lba)
on_key_lem font fuel sc s v byte other =
    let top : bit_and sc 0x80 ≡ sc / 128 * 128 =
      bit_and_shifted 7 sc 1 ∙ ap (λ (n : ℕ). n * 128) (bit_and_mask 1 (sc / 128) ∙ omega arith) in
    elim (dec_lt sc 128) [
      | no high ↦ on_key-released font fuel sc s v (omega arith) byte top
      | yes low ↦ elim (Bool-cases (sc == 0x4B)) [
        | inl a ↦ on_key-edits font fuel sc s v (inl (==→≡ sc 0x4B a))
        | inr a ↦ elim (Bool-cases (sc == 0x4D)) [
          | inl b ↦ on_key-edits font fuel sc s v (inr (inl (==→≡ sc 0x4D b)))
          | inr b ↦ elim (Bool-cases (sc == 0x0E)) [
            | inl c ↦ on_key-edits font fuel sc s v (inr (inr (==→≡ sc 0x0E c)))
            | inr c ↦
                let not_enter : (sc == 0x1C) ≡ false = elim (Bool-cases (sc == 0x1C)) [
                  | inl e ↦ absurd (other (==→≡ sc 0x1C e))
                  | inr e ↦ e
                ] in
                on_key-typed font fuel sc s v low top a b not_enter c
          ]
        ]
      ]
    ]
