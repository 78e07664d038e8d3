-- ===== src/Boot/Menu.antt =====
-- The menu of `kmain` in kernel/src/main.rs, and the wait for a shift key of `standard_boot`.
use mathlib.Core.Option.{some-injective}
use forward_os_kernel_base.Base.Bits.{bit_and_mask, bit_and_shifted}
use forward_os_kernel_base.Base.{
  Bool, ◌&&◌, not, if◌then◌else◌, if-eq_true, if-eq_false, ◌/◌, ◌%◌, ◌*◌, ◌^◌, ◌-◌,
}
use forward_os_kernel_base.Base.{ℕ, zero, suc, ◌<◌, ◌≡◌, refl, ap, ◌∙◌, arith}
use forward_os_kernel_base.Base.{
  true, false, ◌==◌, Option, none, some, List, [], ◌∷◌, length, bit_and, Bool-cases, inl, inr,
}
use forward_os_kernel_base.Boot.{chosen_mode, choose_boot_mode}

-- A keyboard's controller with codes to read: the status tells that there is one, and reading the
-- code takes it.
pub record IsKeyboard {E : Type 0} (in_port : ℕ → E → ℕ × E) (codes : E → List ℕ) : Type 0 where
  pub ready :
      (e : E) (x : ℕ) (xs : List ℕ)
      → codes e ≡ x ∷ xs
      → (bit_and (in_port 0x64 e).0 0x01 == 0) ≡ false
  pub asks : (e : E) → codes (in_port 0x64 e).1 ≡ codes e
  pub reads :
      (e : E) (x : ℕ) (xs : List ℕ)
      → codes e ≡ x ∷ xs
      → ((in_port 0x60 e).0 ≡ x) × (codes (in_port 0x60 e).1 ≡ xs)

-- A code of a key that is pressed: it is not 0, and bit 7 is not set.
abbrev pub is_press : ℕ → Bool
is_press x = not (x == 0) && (x / 2 ^ 7 % 2 == 0)

-- F1 is key 0x3B.
abbrev pub key_mode : ℕ → ℕ
key_mode x = if x == 0x3B then 1 else 2

chosen_mode-is_press : (x : ℕ) → chosen_mode x ≡ (if is_press x then key_mode x else 0)
chosen_mode-is_press x =
    let bit : bit_and x 0x80 ≡ x / 2 ^ 7 % 2 * 2 ^ 7 =
      omega (arith, bit_and_shifted 7 x (2 ^ 1 - 1), bit_and_mask 1 (x / 2 ^ 7)) in
    ground (arith, bit)

-- The mode of the first key that is pressed, and the codes behind it.
abbrev pub first_mode : List ℕ → Option (ℕ × List ℕ)
first_mode [] = none
first_mode (x ∷ xs) = elim (is_press x) [ true ↦ some (key_mode x, xs) | false ↦ first_mode xs ]

-- The same in the loop's terms.
abbrev first_chosen : List ℕ → Option (ℕ × List ℕ)
first_chosen [] = none
first_chosen (x ∷ xs) = elim (chosen_mode x == 0) [
  | true ↦ first_chosen xs
  | false ↦ some (chosen_mode x, xs)
]

first_chosen-first_mode : (xs : List ℕ) → first_chosen xs ≡ first_mode xs
first_chosen-first_mode [] = refl
first_chosen-first_mode (x ∷ xs) = elim (Bool-cases (is_press x)) [
  | inl press ↦
      let e : chosen_mode x ≡ key_mode x = chosen_mode-is_press x ∙ if-eq_true _ press in
      let some_mode : (chosen_mode x == 0) ≡ false = ground (arith, e) in
      rw (some_mode, press, first_chosen, first_mode) (ap (λ (m : ℕ). some (m, xs)) e)
  | inr other ↦
      let e : chosen_mode x ≡ 0 = chosen_mode-is_press x ∙ if-eq_false _ other in
      let skip : (chosen_mode x == 0) ≡ true = ground (arith, e) in
      rw (skip, other, first_chosen, first_mode) (first_chosen-first_mode xs)
]

-- The loop has ended with this mode, and has left these codes.
pub record Chooses {E : Type 0} (codes : E → List ℕ) (mode : ℕ) (rest : List ℕ) (o : Option (ℕ × E))
    : Type 0 where
  pub env : E
  pub chosen : o ≡ some (mode, env)
  pub left : codes env ≡ rest

same_choice :
    (x : ℕ) {mode : ℕ} (xs : List ℕ) {rest : List ℕ}
    → (chosen_mode x == 0) ≡ false
    → first_chosen (x ∷ xs) ≡ some (mode, rest)
    → (chosen_mode x ≡ mode) × (xs ≡ rest)
same_choice x {mode} xs {rest} pressed h =
    let p : ℕ × List ℕ = (chosen_mode x, xs) in
    let q : ℕ × List ℕ = (mode, rest) in
    let e : some p ≡ some q = ground (arith, h, pressed) in
    let both : p ≡ q = some-injective p q e in
    (ap (λ (p : ℕ × List ℕ). p.0) both, ap (λ (p : ℕ × List ℕ). p.1) both)

module _ {E : Type 0} (in_port : ℕ → E → ℕ × E) (codes : E → List ℕ)
    (keyboard : IsKeyboard in_port codes) where
  choose_codes :
      (fuel : ℕ) (e : E) (xs : List ℕ) {mode : ℕ} {rest : List ℕ}
      → codes e ≡ xs
      → length xs < fuel
      → first_chosen xs ≡ some (mode, rest)
      → Chooses codes mode rest (choose_boot_mode in_port fuel e)
  unfolding choose_boot_mode
  choose_codes zero e xs at lt h = absurd (omega arith)
  choose_codes (suc fuel) e [] at lt h = ground (arith, h)
  choose_codes (suc fuel) e (x ∷ xs) {mode} {rest} at lt h =
      let e₁ = (in_port 0x64 e).1 in
      let ready = keyboard.ready e x xs at in
      let (code, onward) = keyboard.reads e₁ x xs (keyboard.asks e ∙ at) in
      elim (Bool-cases (chosen_mode x == 0)) [
        | inl skipped ↦
            let skip : (chosen_mode (in_port 0x60 e₁).0 == 0) ≡ true =
              ap (λ (c : ℕ). chosen_mode c == 0) code ∙ skipped in
            rw (ready, skip, choose_boot_mode)
              (choose_codes fuel (in_port 0x60 e₁).1 xs onward (omega (arith, lt))
                (ground (arith, h, skipped)))
        | inr pressed ↦
            let press : (chosen_mode (in_port 0x60 e₁).0 == 0) ≡ false =
              ap (λ (c : ℕ). chosen_mode c == 0) code ∙ pressed in
            let both = same_choice x xs pressed h in
            rw (ready, press, choose_boot_mode)
              (record {
                env = (in_port 0x60 e₁).1;
                chosen =
                    ap (λ (c : ℕ). some (c, (in_port 0x60 e₁).1)) (ap chosen_mode code ∙ both.0);
                left = onward ∙ both.1;
              })
      ]

  -- With more turns than codes, the menu ends at the first key that is pressed: F1 chooses the
  -- standard boot, any other key the shell; the codes of keys that are released are skipped, and
  -- those behind the key are left.
  pub choose_boot_mode_lem :
      (fuel : ℕ) (e : E) {mode : ℕ} {rest : List ℕ}
      → length (codes e) < fuel
      → first_mode (codes e) ≡ some (mode, rest)
      → Chooses codes mode rest (choose_boot_mode in_port fuel e)
  choose_boot_mode_lem fuel e lt h =
      choose_codes fuel e (codes e) refl lt (first_chosen-first_mode (codes e) ∙ h)
