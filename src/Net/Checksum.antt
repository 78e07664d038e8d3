-- ===== src/Net/Checksum.antt =====
-- The one's-complement sum that kernel/src/net/ip.rs, icmp.rs and udp.rs compute: 16-bit words added
-- up in a `u32`, and the carries folded in.
use forward_os_kernel_base.Base.{
  ℕ, zero, suc, ◌+◌, ◌-◌, ◌*◌, ◌/◌, ◌%◌, ◌^◌, ◌≤◌, ◌<◌, bit_and, bit_or,
}
use forward_os_kernel_base.Base.{◌≡◌, refl, ◌∙◌, arith, true, false, ◌==◌, Bool-cases, inl, inr}
use forward_os_kernel_base.Base.{List, [], ◌∷◌, length, All, u8, u16, u32, ◌<<◌, ◌>>◌}
use native.Mathlib.Decide.{ℕ_discrete}
use forward_os_kernel_base.Base.Bits.{bit_and_mask, bit_or_fields}

abbrev pub IsOctets : List ℕ → Type 0
IsOctets = All (λ b. b < 256)

-- `while sum >> 16 != 0 { sum = (sum & 0xFFFF) + (sum >> 16); }`
unfoldable pub fold_carries : ℕ → ℕ → ℕ
fold_carries zero s = s
fold_carries (suc fuel) s = elim (s >> 16 == 0) [
  | true ↦ s
  | false ↦ fold_carries fuel (u32 (bit_and s 0xFFFF + (s >> 16)))
]

-- Three tests are enough for a `u32`.
abbrev pub fold_fuel : ℕ
fold_fuel = 3

-- `!(sum as u16)`
abbrev pub complement : ℕ → ℕ
complement s = 65535 - u16 s

-- The word at the head of the data, in network order; a last odd byte is padded with 0.
abbrev pub be_word : ℕ → ℕ → ℕ
be_word a b = bit_or (u16 (a << 8)) b

-- `while i < data.len() { …; i += 2; }`, from `sum` on.
unfoldable pub add_words : ℕ → List ℕ → ℕ
add_words sum [] = sum
add_words sum (a ∷ []) = u32 (sum + u16 (a << 8))
add_words sum (a ∷ b ∷ r) = add_words (u32 (sum + be_word a b)) r

-- The sum of the words as a number, with no wrap.
unfoldable pub word_sum : List ℕ → ℕ
word_sum [] = 0
word_sum (a ∷ []) = a * 256
word_sum (a ∷ b ∷ r) = a * 256 + b + word_sum r

-- What a receiver tests: the folded sum of all words, the checksum included, is all ones.
abbrev pub Verifies : ℕ → Type 0
Verifies sum = fold_carries fold_fuel sum ≡ 0xFFFF

fold_round : (s : ℕ) → s < 2 ^ 32 → u32 (bit_and s 0xFFFF + (s >> 16)) ≡ s % 65536 + s / 65536
fold_round s h = omega (arith, bit_and_mask 16 s)

-- The loop ends by its test, with the sum reduced modulo 65535, and 0 only for 0.
pub record Folds (s r : ℕ) : Type 0 where
  pub small : r < 65536
  pub congruent : r % 65535 ≡ s % 65535
  pub positive : 0 < s → 0 < r
  pub empty : s ≡ 0 → r ≡ 0

Folds-step : (s : ℕ) {r : ℕ} → Folds (s % 65536 + s / 65536) r → Folds s r
Folds-step s f = record {
  small = f.small;
  congruent = f.congruent ∙ omega arith;
  positive = λ h. f.positive (omega arith);
  empty = λ h. f.empty (omega arith);
}

fold_carries_step :
    (fuel s : ℕ)
    → s < 2 ^ 32
    → ((s < 65536) → Folds s s)
    → Folds (s % 65536 + s / 65536) (fold_carries fuel (s % 65536 + s / 65536))
    → Folds s (fold_carries (suc fuel) s)
unfolding fold_carries
fold_carries_step fuel s h done next = elim (Bool-cases (s >> 16 == 0)) [
  | inl ends ↦ rw (ends, fold_carries) (done (ground arith))
  | inr more ↦ rw (more, fold_round s h, fold_carries) (Folds-step s next)
]

Folds-refl : (s : ℕ) → s < 65536 → Folds s s
Folds-refl s h = record { small = h; congruent = refl; positive = λ p. p; empty = λ p. p }

pub fold_carries_lem : (s : ℕ) → s < 2 ^ 32 → Folds s (fold_carries fold_fuel s)
fold_carries_lem s h =
    let t = s % 65536 + s / 65536 in
    let u = t % 65536 + t / 65536 in
    fold_carries_step 2 s h (Folds-refl s) (
      fold_carries_step 1 t (omega arith) (Folds-refl t)
        (fold_carries_step 0 u (omega arith) (Folds-refl u) last))
  where
    v : ℕ
    v =
        ((s % 65536 + s / 65536) % 65536 + (s % 65536 + s / 65536) / 65536) % 65536
        + ((s % 65536 + s / 65536) % 65536 + (s % 65536 + s / 65536) / 65536) / 65536

    last : Folds v (fold_carries 0 v)
    last = unfold fold_carries in Folds-refl v (omega arith)

-- A sum with its complement added verifies; so does one whose folded sum is all ones, with all
-- ones added in place of 0.
pub complement-Verifies :
    (s : ℕ) → s + 65535 < 2 ^ 32 → Verifies (s + complement (fold_carries fold_fuel s))
complement-Verifies s h =
    let f = fold_carries_lem s (omega arith) in
    let g = fold_carries_lem (s + complement (fold_carries fold_fuel s)) (omega arith) in
    let nonzero : 0 < s + complement (fold_carries fold_fuel s) = elim (ℕ_discrete s 0) [
      | yes e ↦ omega (arith, f.empty e)
      | no ne ↦ omega arith
    ] in
    omega (arith, f.small, f.congruent, g.small, g.congruent, g.positive nonzero)

pub ones-Verifies :
    (s : ℕ) → s + 65535 < 2 ^ 32 → fold_carries fold_fuel s ≡ 0xFFFF → Verifies (s + 0xFFFF)
ones-Verifies s h e =
    let f = fold_carries_lem s (omega arith) in
    let g = fold_carries_lem (s + 0xFFFF) (omega arith) in
    omega (arith, f.congruent, g.small, g.congruent, g.positive (omega arith))

pub be_word_lem : (a b : ℕ) → a < 256 → b < 256 → be_word a b ≡ a * 256 + b
be_word_lem a b ha hb =
    let e : u16 (a << 8) ≡ a * 2 ^ 8 = omega arith in rw (e, bit_or_fields 8 a b hb)

pub word_sum-le : (l : List ℕ) → IsOctets l → 2 * word_sum l ≤ 65535 * (length l + 1)
unfolding word_sum
word_sum-le [] h = omega arith
word_sum-le (a ∷ []) h = omega arith
word_sum-le (a ∷ b ∷ r) h = omega (arith, word_sum-le r h.1.1)

-- As long as the `u32` does not wrap, the loop gives the sum of the words.
pub add_words_lem :
    (sum : ℕ) (l : List ℕ)
    → IsOctets l
    → sum + word_sum l < 2 ^ 32
    → add_words sum l ≡ sum + word_sum l
unfolding add_words word_sum
add_words_lem sum [] h fits = omega arith
add_words_lem sum (a ∷ []) h fits = omega arith
add_words_lem sum (a ∷ b ∷ r) h fits =
    let e : u32 (sum + be_word a b) ≡ sum + (a * 256 + b) =
      omega (arith, be_word_lem a b h.0 h.1.0) in
    rw e (add_words_lem (sum + (a * 256 + b)) r h.1.1 (omega arith) ∙ omega arith)

-- The two bytes of a checksum.
abbrev pub high_byte : ℕ → ℕ
high_byte c = u8 (c >> 8)

abbrev pub low_byte : ℕ → ℕ
low_byte c = u8 (bit_and c 0xFF)

pub bytes_of : (c : ℕ) → c < 65536 → high_byte c * 256 + low_byte c ≡ c
bytes_of c h = omega (arith, bit_and_mask 8 c)

pub complement-lt : (s : ℕ) → complement s < 65536
complement-lt s = omega arith
