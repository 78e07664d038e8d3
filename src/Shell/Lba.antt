-- ===== src/Shell/Lba.antt =====
-- The numbers of the shell: what `set lba` reads of what it prints.
use forward_os_kernel_base.Base.{
  ℕ, zero, suc, ◌+◌, ◌*◌, ◌/◌, ◌%◌, ◌^◌, ◌<◌, ◌≡◌, refl, sym, ap, subst, ◌∙◌, arith,
}
use forward_os_kernel_base.Base.{
  ◌⊎◌, inl, inr, true, false, ◌||◌, ltb, ◌==◌, in_range, if-eq_false, Bool-cases, Option-cases,
  ==→≡, some, List, [], ◌∷◌, ◌++◌, All, All-append,
}
use mathlib.Core.Option.{some-injective}
use forward_os_kernel_base.Base.Text.{
  text, digit_char, digits, decimal, upper_hex, to_digit, parse_digits, from_str_radix,
}
use forward_os_kernel_base.Directory.{starts_with}
use forward_os_kernel_base.Shell.Command.{parse_lba, or_else}

parse_digits-cons :
    (radix acc c d : ℕ) (cs : List ℕ)
    → to_digit radix c ≡ some d
    → ltb (acc * radix + d) (2 ^ 64) ≡ true
    → parse_digits radix acc (c ∷ cs) ≡ parse_digits radix (acc * radix + d) cs
unfolding parse_digits
parse_digits-cons radix acc c d cs h under = rw (h, under, parse_digits) refl

parse_digits-append :
    (radix acc v d c : ℕ) (cs : List ℕ)
    → parse_digits radix acc cs ≡ some v
    → to_digit radix c ≡ some d
    → v * radix + d < 2 ^ 64
    → parse_digits radix acc (cs ++ (c ∷ [])) ≡ some (v * radix + d)
unfolding parse_digits
parse_digits-append radix acc v d c [] e h fits =
    let same : acc ≡ v = some-injective acc v e in
    let below : ltb (acc * radix + d) (2 ^ 64) ≡ true =
      subst (λ (a : ℕ). ltb (a * radix + d) (2 ^ 64) ≡ true) (sym same) (ground (arith, fits)) in
    rw (h, below, parse_digits) (ap (λ (a : ℕ). some (a * radix + d)) same)
parse_digits-append radix acc v d c (b ∷ cs) e h fits = elim (Option-cases (to_digit radix b)) [
  | inl bad ↦ ground (arith, bad, e)
  | inr (n, good) ↦ elim (Bool-cases (ltb (acc * radix + n) (2 ^ 64))) [
    | inr over ↦ ground (arith, good, over, e)
    | inl under ↦
        let rest : parse_digits radix (acc * radix + n) cs ≡ some v =
          sym (parse_digits-cons radix acc b n cs good under) ∙ e in
        rw (good, under, parse_digits)
          (parse_digits-append radix (acc * radix + n) v d c cs rest h fits)
  ]
]

-- A digit below 10 is a decimal digit's character, and one below 16 is a hexadecimal one's.
abbrev IsDigit : ℕ → Type 0
IsDigit c = (in_range 48 10 c || in_range 65 6 c) ≡ true

module _ (radix : ℕ) (known : (radix ≡ 10) ⊎ (radix ≡ 16)) where
  -- The last digit of a number and those before it.
  split_last :
      (room n : ℕ)
      → n < radix ^ suc room
      → (n / radix < radix ^ room) × (n / radix * radix + n % radix ≡ n) × (n % radix < radix)
  split_last room n h = elim known [
    | inl ten ↦
        let h' = subst (λ (r : ℕ). n < r ^ suc room) ten h in
        subst (λ (r : ℕ). (n / r < r ^ room) × (n / r * r + n % r ≡ n) × (n % r < r)) (sym ten)
          (omega arith, omega arith, omega arith)
    | inr sixteen ↦
        let h' = subst (λ (r : ℕ). n < r ^ suc room) sixteen h in
        subst (λ (r : ℕ). (n / r < r ^ room) × (n / r * r + n % r ≡ n) × (n % r < r)) (sym sixteen)
          (omega arith, omega arith, omega arith)
  ]

  nothing_left : (n : ℕ) → n < radix ^ 0 → n ≡ 0
  nothing_left n h = elim known [
    | inl ten ↦ let h' = subst (λ (r : ℕ). n < r ^ 0) ten h in omega arith
    | inr sixteen ↦ let h' = subst (λ (r : ℕ). n < r ^ 0) sixteen h in omega arith
  ]

  to_digit-digit_char : (d : ℕ) → d < radix → to_digit radix (digit_char d) ≡ some d
  unfolding to_digit
  to_digit-digit_char d h = elim known [ inl ten ↦ ground arith | inr sixteen ↦ ground arith ]

  parse_digits-digits :
      (room n : ℕ)
      → n < radix ^ room
      → n < 2 ^ 64
      → parse_digits radix 0 (digits radix room n) ≡ some n
  unfolding parse_digits digits
  parse_digits-digits zero n h small = ap some (sym (nothing_left n h))
  parse_digits-digits (suc room) n h small = elim (Bool-cases (n == 0)) [
    | inl nothing ↦ rw (nothing, digits) (ap some (sym (==→≡ n 0 nothing)))
    | inr more ↦
        let (high, whole, low) = split_last room n h in
        rw (more, digits)
          (parse_digits-append radix 0 (n / radix) (n % radix) (digit_char (n % radix))
              (digits radix room (n / radix))
              (parse_digits-digits room (n / radix) high (omega (arith, whole)))
              (to_digit-digit_char (n % radix) low) (omega (arith, whole))
            ∙ ap some whole)
  ]

  All-digits :
      (P : ℕ → Type 0)
      → ((d : ℕ) → d < radix → P (digit_char d))
      → (room n : ℕ) → n < radix ^ room
      → All P (digits radix room n)
  unfolding digits
  All-digits P p zero n h = tt
  All-digits P p (suc room) n h = elim (Bool-cases (n == 0)) [
    | inl nothing ↦ rw (nothing, digits) tt
    | inr more ↦
        let (high, whole, low) = split_last room n h in
        rw (more, digits)
          (All-append P (digits radix room (n / radix)) (digit_char (n % radix) ∷ [])
            (All-digits P p room (n / radix) high) (p (n % radix) low, tt))
  ]

digit_char-IsDigit : (d : ℕ) → d < 16 → IsDigit (digit_char d)
digit_char-IsDigit d h = ground arith

-- Without a sign in front, and not empty, a text is its digits.
from_str_radix-digits :
    (radix n : ℕ) (cs : List ℕ)
    → All IsDigit cs
    → (n == 0) ≡ false
    → parse_digits radix 0 cs ≡ some n
    → from_str_radix radix cs ≡ some n
unfolding from_str_radix parse_digits
from_str_radix-digits radix n [] d pos e =
    let nothing : 0 ≡ n = some-injective 0 n e in ground arith
from_str_radix-digits radix n (c ∷ []) d pos e =
    let sign : ((c == 43) || (c == 45)) ≡ false = ground (arith, d.0) in if-eq_false _ sign ∙ e
from_str_radix-digits radix n (c ∷ b ∷ cs) d pos e =
    let sign : (c == 43) ≡ false = ground (arith, d.0) in if-eq_false _ sign ∙ e

-- No text of digits is one of the marks of a hexadecimal number, whose second letter is `x` or `X`.
no_mark :
    (cs : List ℕ)
    → All IsDigit cs
    → (starts_with cs (text "0x") || starts_with cs (text "0X")) ≡ false
unfolding starts_with
no_mark [] d = refl
no_mark (c ∷ []) d = ground arith
no_mark (c ∷ b ∷ cs) d =
    let lower : (b == 120) ≡ false = ground (arith, d.1.0) in
    let upper : (b == 88) ≡ false = ground (arith, d.1.0) in
    elim (Bool-cases (c == 48)) [ inl e ↦ rw (e, lower, upper) refl | inr e ↦ rw e refl ]

digits-decimal : (n : ℕ) → (n == 0) ≡ false → decimal n ≡ digits 10 20 n
unfolding decimal
digits-decimal n more = if-eq_false _ more

digits-upper_hex : (n : ℕ) → (n == 0) ≡ false → upper_hex n ≡ digits 16 16 n
unfolding upper_hex
digits-upper_hex n more = if-eq_false _ more

parse_lba-decimal :
    (n : ℕ) (cs : List ℕ) → All IsDigit cs → from_str_radix 10 cs ≡ some n → parse_lba cs ≡ n
unfolding parse_lba
parse_lba-decimal n cs d e = if-eq_false _ (no_mark cs d) ∙ ap (λ o. or_else o 0) e

parse_lba-hex :
    (n : ℕ) (cs : List ℕ) → from_str_radix 16 cs ≡ some n → parse_lba (text "0x" ++ cs) ≡ n
unfolding parse_lba starts_with
parse_lba-hex n cs e = ap (λ o. or_else o 0) e

parse_lba_zero : (parse_lba (decimal 0) ≡ 0) × (parse_lba (text "0x" ++ upper_hex 0) ≡ 0)
unfolding parse_lba decimal upper_hex
parse_lba_zero = (refl, refl)

-- A number printed in either base, as the shell does, is what `set lba` reads of that text.
pub parse_lba_lem :
    (n : ℕ) → n < 2 ^ 64 → (parse_lba (decimal n) ≡ n) × (parse_lba (text "0x" ++ upper_hex n) ≡ n)
parse_lba_lem n h = elim (Bool-cases (n == 0)) [
  | inl nothing ↦
      subst (λ (k : ℕ). (parse_lba (decimal k) ≡ k) × (parse_lba (text "0x" ++ upper_hex k) ≡ k))
        (sym (==→≡ n 0 nothing)) parse_lba_zero
  | inr more ↦
      let ten = digits 10 20 n in
      let shape : All IsDigit ten =
        All-digits 10 (inl refl) IsDigit (λ d low. digit_char-IsDigit d (omega arith)) 20 n
          (omega arith) in
      let dec : from_str_radix 10 ten ≡ some n =
        from_str_radix-digits 10 n ten shape more
          (parse_digits-digits 10 (inl refl) 20 n (omega arith) h) in
      let sixteen = digits 16 16 n in
      let hex : from_str_radix 16 sixteen ≡ some n =
        from_str_radix-digits 16 n sixteen
          (All-digits 16 (inr refl) IsDigit digit_char-IsDigit 16 n (omega arith)) more
          (parse_digits-digits 16 (inr refl) 16 n (omega arith) h) in
      (
        ap parse_lba (digits-decimal n more) ∙ parse_lba-decimal n ten shape dec,
        ap (λ cs. parse_lba (text "0x" ++ cs)) (digits-upper_hex n more)
            ∙ parse_lba-hex n sixteen hex,
      )
]
