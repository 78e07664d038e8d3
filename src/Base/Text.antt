-- ===== src/Base/Text.antt =====
-- Texts as lists of their bytes, and what Rust's library does with them: numbers printed and parsed,
-- and words. The texts are ASCII.
use Prim.Native.Nat.{ℕ, zero, suc, ◌+◌, ◌-◌, ◌*◌, ◌/◌, ◌%◌, ◌^◌}
use Prim.Native.Char.{code}
use Prim.Native.String.{String, [] as no_chars, ◌∷◌ as ◌⊳◌}
use mathlib.Core.Bool.{Bool, true, false, ◌&&◌, ◌||◌}
use mathlib.Core.Option.{Option, none, some}
use mathlib.Core.List.{List, [], ◌∷◌, ◌++◌}
use forward_os_kernel_base.Base.Tests.{ltb, ◌==◌, if◌then◌else◌, in_range}

-- The bytes of a literal.
abbrev pub text : String → List ℕ
text no_chars = []
text (c ⊳ s) = code c ∷ text s

abbrev pub digit_char : ℕ → ℕ
digit_char d = if ltb d 10 then 48 + d else 55 + d

-- The digits of a number, the highest first; none for 0.
unfoldable pub digits : ℕ → ℕ → ℕ → List ℕ
digits radix zero n = []
digits radix (suc room) n =
    let rest = digits radix room (n / radix) in
    if n == 0 then [] else rest ++ (digit_char (n % radix) ∷ [])

-- `{}`, `{:X}` of a `u64`, and `{:02X}` of a byte.
unfoldable pub decimal : ℕ → List ℕ
unfolding digits
decimal n = if n == 0 then text "0" else digits 10 20 n

unfoldable pub upper_hex : ℕ → List ℕ
unfolding digits
upper_hex n = if n == 0 then text "0" else digits 16 16 n

abbrev pub hex_byte : ℕ → List ℕ
hex_byte b = digit_char (b / 16) ∷ digit_char (b % 16) ∷ []

-- `char::to_digit`.
unfoldable pub to_digit : ℕ → ℕ → Option ℕ
to_digit radix c =
    let d =
      if in_range 48 10 c
      then c - 48
      else if in_range 65 26 c
      then c - 55
      else if in_range 97 26 c
      then c - 87
      else radix in
    if ltb d radix then some d else none

-- `none`: not a digit, or beyond 64 bits.
unfoldable pub parse_digits : ℕ → ℕ → List ℕ → Option ℕ
unfolding to_digit
parse_digits radix acc [] = some acc
parse_digits radix acc (c ∷ cs) = elim (to_digit radix c) [
  | none ↦ none
  | some d ↦ elim (ltb (acc * radix + d) (2 ^ 64)) [
    | true ↦ parse_digits radix (acc * radix + d) cs
    | false ↦ none
  ]
]

-- `u64::from_str_radix`; `str::parse::<u64>` is the radix 10.
unfoldable pub from_str_radix : ℕ → List ℕ → Option ℕ
unfolding parse_digits
from_str_radix radix [] = none
from_str_radix radix (c ∷ []) =
    if (c == 43) || (c == 45) then none else parse_digits radix 0 (c ∷ [])
from_str_radix radix (c ∷ d ∷ cs) =
    if c == 43 then parse_digits radix 0 (d ∷ cs) else parse_digits radix 0 (c ∷ d ∷ cs)

abbrev pub is_whitespace : ℕ → Bool
is_whitespace c = in_range 9 5 c || (c == 32)

abbrev add_word : List ℕ → List (List ℕ) → List (List ℕ)
add_word [] ws = ws
add_word (c ∷ cs) ws = (c ∷ cs) ∷ ws

-- `str::split_whitespace`, behind the word that has been begun.
unfoldable pub split_from : List ℕ → List ℕ → List (List ℕ)
split_from word [] = add_word word []
split_from word (c ∷ cs) = elim (is_whitespace c) [
  | true ↦ add_word word (split_from [] cs)
  | false ↦ split_from (word ++ (c ∷ [])) cs
]

unfoldable pub split_whitespace : List ℕ → List (List ℕ)
unfolding split_from
split_whitespace cs = split_from [] cs

abbrev pub equal_text : List ℕ → List ℕ → Bool
equal_text [] [] = true
equal_text [] (d ∷ ds) = false
equal_text (c ∷ cs) [] = false
equal_text (c ∷ cs) (d ∷ ds) = (c == d) && equal_text cs ds
