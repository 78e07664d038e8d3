-- ===== src/Shell/Text.antt =====
-- A part of a buffer as a text, and the characters of the keys, which are ASCII.
use forward_os_kernel_base.Base.{ℕ, zero, suc, ◌+◌, ◌≤◌, ◌<◌, ◌≡◌, refl, ap, ap₂, arith}
use forward_os_kernel_base.Base.{
  Bool, true, false, ◌&&◌, ltb, ◌==◌, if-eq_true, if-eq_false, List, [], ◌∷◌, ◌++◌, length, take,
  get_or, Bytes, set_byte,
}
use forward_os_kernel_base.Directory.{slice}
use forward_os_kernel_base.Keys.Map.{keymap, shift_keymap, key_char}

pub length-slice : (b : Bytes) (o n : ℕ) → length (slice b o n) ≡ n
length-slice b o zero = refl
length-slice b o (suc n) = ap suc (length-slice b (o + 1) n)

pub slice-set_byte :
    (b : Bytes) (v o n a : ℕ)
    → a ≡ o + n
    → slice (set_byte b a v) o (suc n) ≡ slice b o n ++ (v ∷ [])
slice-set_byte b v o zero a e =
    let here : (a == o) ≡ true = ground arith in ap (λ (x : ℕ). x ∷ []) (if-eq_true _ here)
slice-set_byte b v o (suc n) a e =
    let other : (a == o) ≡ false = ground arith in
    ap₂ (λ (x : ℕ) (l : List ℕ). x ∷ l) (if-eq_false _ other)
      (slice-set_byte b v (o + 1) n a (omega arith))

pub take-slice : (b : Bytes) (o k n : ℕ) → k ≤ n → take k (slice b o n) ≡ slice b o k
take-slice b o zero n h = refl
take-slice b o (suc k) zero h = absurd (omega arith)
take-slice b o (suc k) (suc n) h = ap (λ l. b o ∷ l) (take-slice b (o + 1) k n (omega arith))

abbrev pub all_ascii : List ℕ → Bool
all_ascii [] = true
all_ascii (c ∷ cs) = ltb c 128 && all_ascii cs

pub get_or-lt : (cs : List ℕ) (i : ℕ) → all_ascii cs ≡ true → get_or cs i 0 < 128
get_or-lt [] i h = omega arith
get_or-lt (c ∷ cs) zero h = ground (arith, h)
get_or-lt (c ∷ cs) (suc i) h = get_or-lt cs i (ground (arith, h))

pub key_char-lt : (is_shift : Bool) (sc : ℕ) → key_char is_shift sc < 128
unfolding key_char
key_char-lt true sc = get_or-lt shift_keymap sc refl
key_char-lt false sc = get_or-lt keymap sc refl
