-- ===== src/Draw/Digits.antt =====
-- kernel/src/draw.rs: the text of numbers. A buffer is the list of its bytes up to `i`.
use forward_os_kernel_base.Base.{
  ℕ, zero, suc, ◌+◌, ◌-◌, ◌*◌, ◌/◌, ◌%◌, ◌^◌, ◌≤◌, ◌<◌, ◌≡◌, refl, sym, ap, ap₂, ◌∙◌, arith, min,
}
use forward_os_kernel_base.Base.{
  ltb, ◌==◌, in_range, if◌then◌else◌, if-eq_true, if-eq_false, Option, none, some, Option-cases,
  List, [], ◌∷◌, ◌++◌, length, get_or,
}
use forward_os_kernel_base.Base.{Bool-cases, inl, inr, ==→≡, u32, bit_and, ◌>>◌, Bytes}
use mathlib.Core.Option.{some-injective}
use forward_os_kernel_base.Draw.{
  DoubleBuffer, FrameBufferConfig, Font, for_each, draw_text, draw_char, draw_char_db,
  draw_string_db,
}

-- `if m < 10 { b'0' + m } else { b'A' + (m - 10) }`
abbrev pub hex_char : ℕ → ℕ
hex_char m = if ltb m 10 then 48 + m else 65 + (m - 10)

-- `while val > 0 && i < 20 { .. }`: the digits, the lowest first.
unfoldable pub decimal_digits : ℕ → ℕ → List ℕ
decimal_digits zero val = []
decimal_digits (suc room) val =
    let rest = decimal_digits room (val / 10) in if val == 0 then [] else (48 + val % 10) ∷ rest

unfoldable pub draw_u64 : Font → ℕ → ℕ → ℕ → ℕ → FrameBufferConfig → Option FrameBufferConfig
unfolding decimal_digits for_each draw_char
draw_u64 font x y val color fb =
    let buf = decimal_digits 20 val in
    if val == 0
    then draw_char font x y 48 color fb
    else for_each
        (λ j. draw_char font (u32 (x + u32 ((length buf - 1 - j) * 8))) y (get_or buf j 0) color) 0
        (length buf) fb

-- `while val > 0 { .. }`, where the buffer has this room; `none` is an index out of range.
unfoldable pub hex_digits : ℕ → ℕ → Option (List ℕ)
hex_digits zero val = if val == 0 then some [] else none
hex_digits (suc room) val =
    let rest = hex_digits room (val / 16) in
    if val == 0
    then some []
    else elim rest [ none ↦ none | some ds ↦ some (hex_char (val % 16) ∷ ds) ]

unfoldable pub draw_u64_db : Font → ℕ → ℕ → ℕ → ℕ → DoubleBuffer → Option DoubleBuffer
unfolding hex_digits for_each draw_string_db
draw_u64_db font x y val color db =
    if val == 0 then draw_string_db font x y (48 ∷ []) color db else elim (hex_digits 20 val) [
      | none ↦ none
      | some buf ↦
          for_each
            (λ j.
              draw_string_db font (u32 (x + u32 (j * 8))) y (get_or buf (length buf - 1 - j) 0 ∷ [])
                color)
            0 (length buf) db
    ]

-- The loop ends with the byte 127. Each byte is two digits and a space, sixteen in a row.
unfoldable pub draw_hex_dump : Font → ℕ → ℕ → Bytes → ℕ → ℕ → DoubleBuffer → Option DoubleBuffer
unfolding for_each draw_string_db
draw_hex_dump font x y bytes len color db =
    for_each
      (λ i.
        let val = bytes i in
        draw_string_db font (u32 (x + i % 16 * 24)) (u32 (y + i / 16 * 12))
          (hex_char (bit_and (val >> 4) 0xF) ∷ hex_char (bit_and val 0xF) ∷ 32 ∷ []) color)
      0 (min len 128) db

-- `for i in (0..16).rev()`
unfoldable pub draw_hex_from : Font → ℕ → ℕ → ℕ → ℕ → ℕ → DoubleBuffer → Option DoubleBuffer
draw_hex_from font x y color zero temp db = some db
draw_hex_from font x y color (suc i) temp db =
    elim (draw_char_db font (u32 (x + i * 8)) y (hex_char (bit_and temp 0xF)) color db) [
      | none ↦ none
      | some db' ↦ draw_hex_from font x y color i (temp >> 4) db'
    ]

unfoldable pub draw_hex_db : Font → ℕ → ℕ → ℕ → ℕ → DoubleBuffer → Option DoubleBuffer
unfolding draw_hex_from
draw_hex_db font x y value color db = draw_hex_from font x y color 16 value db

-- The value of a digit, and of a text of them, read from the left.
abbrev pub hex_value : ℕ → Option ℕ
hex_value c =
    if in_range 48 10 c then some (c - 48) else if in_range 65 6 c then some (c - 55) else none

pub read_hex : ℕ → List ℕ → Option ℕ
read_hex acc [] = some acc
read_hex acc (c ∷ cs) = elim (hex_value c) [ none ↦ none | some d ↦ read_hex (16 * acc + d) cs ]

hex_value-char : (m : ℕ) → m < 16 → hex_value (hex_char m) ≡ some m
hex_value-char m h = ground arith

read_hex-cons :
    (acc c d : ℕ) (cs : List ℕ)
    → hex_value c ≡ some d
    → read_hex acc (c ∷ cs) ≡ read_hex (16 * acc + d) cs
unfolding read_hex
read_hex-cons acc c d cs e = rw (e, read_hex) refl

read_hex-append :
    (acc v d c : ℕ) (cs : List ℕ)
    → read_hex acc cs ≡ some v
    → hex_value c ≡ some d
    → read_hex acc (cs ++ (c ∷ [])) ≡ some (16 * v + d)
unfolding read_hex
read_hex-append acc v d c [] e h =
    rw (h, read_hex) (ap (λ a. some (16 * a + d)) (some-injective acc v e))
read_hex-append acc v d c (b ∷ cs) e h = elim (Option-cases (hex_value b)) [
  | inl bad ↦ ground (arith, bad, e)
  | inr (n, good) ↦
      rw (good, read_hex)
        (read_hex-append (16 * acc + n) v d c cs (sym (read_hex-cons acc b n cs good) ∙ e) h)
]

-- The first `n` bytes of a buffer, from the last one on.
pub text_of : List ℕ → ℕ → List ℕ
text_of buf zero = []
text_of buf (suc n) = get_or buf n 0 ∷ text_of buf n

length-text_of : (buf : List ℕ) (n : ℕ) → length (text_of buf n) ≡ n
unfolding text_of
length-text_of buf zero = refl
length-text_of buf (suc n) = ap suc (length-text_of buf n)

text_of-cons : (d : ℕ) (ds : List ℕ) (n : ℕ) → text_of (d ∷ ds) (suc n) ≡ text_of ds n ++ (d ∷ [])
unfolding text_of
text_of-cons d ds zero = refl
text_of-cons d ds (suc n) = ap (λ t. get_or ds n 0 ∷ t) (text_of-cons d ds n)

-- What the loop leaves in the buffer.
record Digits (k val : ℕ) (r : Option (List ℕ)) : Type 0 where
  buf : List ℕ
  returns : r ≡ some buf
  short : length buf ≤ k
  reads : read_hex 0 (text_of buf (length buf)) ≡ some val

hex_digits-Digits : (room k val : ℕ) → val < 16 ^ k → k ≤ room → Digits k val (hex_digits room val)
unfolding hex_digits read_hex text_of
hex_digits-Digits zero (suc k) val v h = absurd (omega arith)
hex_digits-Digits zero zero val v h =
    let low : val ≡ 0 = omega arith in
    record { buf = []; returns = rw low refl; short = omega arith; reads = ap some (sym low) }
hex_digits-Digits (suc room) zero val v h =
    let low : val ≡ 0 = omega arith in
    record {
      buf = [];
      returns = rw (low, hex_digits) refl;
      short = omega arith;
      reads = ap some (sym low);
    }
hex_digits-Digits (suc room) (suc k) val v h = elim (Bool-cases (val == 0)) [
  | inl none_left ↦ record {
    buf = [];
    returns = rw (none_left, hex_digits) refl;
    short = omega arith;
    reads = ap some (sym (==→≡ val 0 none_left));
  }
  | inr more ↦
      let rest = hex_digits-Digits room k (val / 16) (omega arith) (omega arith) in
      record {
        buf = hex_char (val % 16) ∷ rest.buf;
        returns = rw (more, rest.returns, hex_digits) refl;
        short = omega (arith, rest.short);
        reads =
            ap (read_hex 0) (text_of-cons (hex_char (val % 16)) rest.buf (length rest.buf))
            ∙ read_hex-append 0 (val / 16) (val % 16) (hex_char (val % 16))
                (text_of rest.buf (length rest.buf)) rest.reads
                (hex_value-char (val % 16) (omega arith))
            ∙ ap some (omega arith);
      }
]

one_char :
    (font : Font) (x y c color : ℕ) (db : DoubleBuffer)
    → draw_string_db font x y (c ∷ []) color db ≡ draw_char_db font x y c color db
unfolding draw_string_db draw_text
one_char font x y c color db = elim (Option-cases (draw_char_db font x y c color db)) [
  | inl failed ↦ rw (failed, draw_text, draw_string_db) refl
  | inr (after, drawn) ↦ rw (drawn, draw_text, draw_string_db) refl
]

module _ (font : Font) (x y color : ℕ) (buf : List ℕ) (n : ℕ) (wide : x + 8 * n < 2 ^ 32) where
  abbrev draw_digit : ℕ → DoubleBuffer → Option DoubleBuffer
  draw_digit j = draw_string_db font (u32 (x + u32 (j * 8))) y (get_or buf (n - 1 - j) 0 ∷ []) color

  draw_digit_lem :
      (i m : ℕ) (db : DoubleBuffer)
      → i + suc m ≡ n
      → draw_digit i db ≡ draw_char_db font (x + 8 * i) y (get_or buf m 0) color db
  draw_digit_lem i m db e =
      ap₂ (λ (p q : ℕ). draw_string_db font p y (get_or buf q 0 ∷ []) color db) (omega arith)
        (omega arith)
      ∙ one_char font (x + 8 * i) y (get_or buf m 0) color db

  for_each-text :
      (i m : ℕ) (db : DoubleBuffer)
      → i + m ≡ n
      → for_each draw_digit i m db
        ≡ draw_text (λ cx c. draw_char_db font cx y c color) (x + 8 * i) (text_of buf m) db
  unfolding for_each draw_text text_of
  for_each-text i zero db e = refl
  for_each-text i (suc m) db e =
      elim (Option-cases (draw_char_db font (x + 8 * i) y (get_or buf m 0) color db)) [
        | inl failed ↦ rw (draw_digit_lem i m db e, failed, for_each, draw_text) refl
        | inr (after, drawn) ↦
            rw (draw_digit_lem i m db e, drawn, for_each, draw_text)
              (for_each-text (suc i) m after (omega arith)
                ∙ ap
                    (λ cx.
                      draw_text (λ cx c. draw_char_db font cx y c color) cx (text_of buf m) after)
                    (omega arith))
      ]

-- Drawing a number is drawing a text of sixteen digits at most that, read from the left, has the
-- number for its value; the buffer of twenty bytes never overflows.
pub draw_u64_db_lem :
    (font : Font) (x y val color : ℕ) (db : DoubleBuffer)
    → val < 2 ^ 64
    → x + 8 * 16 < 2 ^ 32
    → (s : List ℕ) × (draw_u64_db font x y val color db ≡ draw_string_db font x y s color db)
      × (read_hex 0 s ≡ some val)
      × (length s ≤ 16)
unfolding draw_u64_db draw_string_db read_hex
draw_u64_db_lem font x y val color db small wide = elim (Bool-cases (val == 0)) [
  | inl nothing ↦ (48 ∷ [], if-eq_true _ nothing, ap some (sym (==→≡ val 0 nothing)), omega arith)
  | inr more ↦
      let d = hex_digits-Digits 20 16 val small (omega arith) in
      (
        text_of d.buf (length d.buf),
        if-eq_false _ more
            ∙ rw d.returns (
                for_each-text font x y color d.buf (length d.buf) (omega (arith, d.short)) 0
                  (length d.buf) db (omega arith)
                ∙ ap
                    (λ cx.
                      draw_text (λ cx c. draw_char_db font cx y c color) cx
                        (text_of d.buf (length d.buf)) db)
                    (omega arith)),
        d.reads,
        omega (arith, d.short, length-text_of d.buf (length d.buf)),
      )
]
