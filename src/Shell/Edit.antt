-- ===== src/Shell/Edit.antt =====
-- What each key that edits does to the line and the sector of the shell.
use forward_os_kernel_base.Base.{ℕ, suc, ◌+◌, ◌-◌, ◌≤◌, ◌<◌, ◌≡◌, refl, sym, ap, subst, ◌∙◌, arith}
use forward_os_kernel_base.Base.{
  Bool, true, false, not, ◌&&◌, ◌||◌, leb, ltb, ltb→lt, ◌==◌, if◌then◌else◌, if-eq_true,
  if-eq_false, Bool-cases, inl, inr, List, [], ◌∷◌, ◌++◌, length, take, set_byte, u8,
}
use forward_os_kernel_base.Directory.{slice}
use forward_os_kernel_base.Keys.Map.{key_char}
use forward_os_kernel_base.Shell.{Shell, command_line}
use forward_os_kernel_base.Shell.Text.{length-slice, slice-set_byte, take-slice, key_char-lt}
use forward_os_kernel_base.Shell.Key.{left, right, backspace, type_char}

-- The buffer has 64 bytes; what is typed is ASCII, so text.
pub record IsShell (s : Shell) : Type 0 where
  pub room : s.input_len ≤ 63
  pub ascii : (i : ℕ) → i < s.input_len → s.input_buf i < 128

-- The keys that give a character, and the line after a key.
abbrev is_typed : ℕ → Bool
is_typed c = not (c == 0) && (not (c == 0x08) && not (c == 0x0A))

abbrev pub edited : Bool → ℕ → List ℕ → List ℕ
edited is_shift sc line =
    let c = key_char is_shift sc in
    if leb 0x80 sc || ((sc == 0x4B) || (sc == 0x4D))
    then line
    else if sc == 0x0E
    then take (length line - 1) line
    else if is_typed c && ltb (length line) 63
    then line ++ (c ∷ [])
    else line

-- The sector that is shown, after a key.
abbrev pub moved : ℕ → ℕ → ℕ
moved sc lba =
    if (sc == 0x4B) && ltb 0 lba
    then lba - 1
    else if (sc == 0x4D) && ltb lba 0xFFFFFFFF
    then lba + 1
    else lba

-- A shell after a key: its line and its sector, and the rest as it was.
pub record Edited (s t : Shell) (line : List ℕ) (lba : ℕ) : Type 0 where
  pub valid : IsShell t
  pub shows : command_line t ≡ line
  pub rest : t ≡ record s { input_buf = t.input_buf; input_len = t.input_len; debug_lba = lba }

pub unchanged : (s : Shell) → IsShell s → Edited s s (command_line s) s.debug_lba
unchanged s v = record { valid = v; shows = refl; rest = refl }

Edited-subst :
    {s t t' : Shell} {line line' : List ℕ} {lba lba' : ℕ}
    → t' ≡ t
    → line' ≡ line
    → lba' ≡ lba
    → Edited s t' line' lba'
    → Edited s t line lba
Edited-subst {s} {t} {t'} {line} {line'} {lba} {lba'} a b c e =
    subst (λ (x : Shell). Edited s x line lba) a
      (subst (λ (x : List ℕ). Edited s t' x lba) b (subst (λ (x : ℕ). Edited s t' line' x) c e))

and_assoc : (a b c d : Bool) → (a && (b && (c && d))) ≡ ((a && (b && c)) && d)
and_assoc false b c d = refl
and_assoc true false c d = refl
and_assoc true true c d = refl

-- The shell with one more character on its line.
abbrev typed_shell : ℕ → Shell → Shell
typed_shell c s = record s {
  input_buf = set_byte s.input_buf s.input_len (u8 c);
  input_len = s.input_len + 1;
}

typed_shell-Edited :
    (c : ℕ) (s : Shell)
    → IsShell s
    → c < 128
    → s.input_len < 63
    → Edited s (typed_shell c s) (command_line s ++ (c ∷ [])) s.debug_lba
typed_shell-Edited c s v small room = record {
  valid = record { room = omega arith; ascii = λ i below. ground (arith, v.ascii i) };
  shows =
      ap (λ (n : ℕ). slice (set_byte s.input_buf s.input_len (u8 c)) 0 n)
        (let grown : s.input_len + 1 ≡ suc s.input_len = omega arith in grown)
      ∙ slice-set_byte s.input_buf (u8 c) 0 s.input_len s.input_len (omega arith)
      ∙ ap (λ (x : ℕ). command_line s ++ (x ∷ [])) (let kept : u8 c ≡ c = omega arith in kept);
  rest = refl;
}

and_right : (a b : Bool) → (a && b) ≡ true → b ≡ true
and_right a b h = ground arith

pub type_char-Edited :
    (sc : ℕ) (s : Shell)
    → IsShell s
    → sc < 0x80
    → Edited s
        (type_char sc s)
        (if is_typed (key_char s.is_shift sc) && ltb (length (command_line s)) 63
          then command_line s ++ (key_char s.is_shift sc ∷ [])
          else command_line s)
        s.debug_lba
unfolding type_char
type_char-Edited sc s v h =
    let c = key_char s.is_shift sc in
    let small : c < 128 = key_char-lt s.is_shift sc in
    let size : length (command_line s) ≡ s.input_len = length-slice s.input_buf 0 s.input_len in
    let valid_code : ltb sc 0x80 ≡ true = ground (arith, h) in
    elim (Bool-cases (is_typed c && ltb s.input_len 63)) [
      | inl typed ↦
          let room : s.input_len < 63 =
            ltb→lt s.input_len 63 (and_right (is_typed c) (ltb s.input_len 63) typed) in
          let test : (is_typed c && ltb (length (command_line s)) 63) ≡ true =
            ap (λ (n : ℕ). is_typed c && ltb n 63) size ∙ typed in
          let code =
            and_assoc (not (c == 0)) (not (c == 0x08)) (not (c == 0x0A)) (ltb s.input_len 63)
            ∙ typed in
          Edited-subst (sym (if-eq_true s valid_code ∙ if-eq_true s code))
            (sym (if-eq_true (command_line s) test)) refl (typed_shell-Edited c s v small room)
      | inr ignored ↦
          let test : (is_typed c && ltb (length (command_line s)) 63) ≡ false =
            ap (λ (n : ℕ). is_typed c && ltb n 63) size ∙ ignored in
          let code =
            and_assoc (not (c == 0)) (not (c == 0x08)) (not (c == 0x0A)) (ltb s.input_len 63)
            ∙ ignored in
          Edited-subst (sym (if-eq_true s valid_code ∙ if-eq_false (typed_shell c s) code))
            (sym (if-eq_false (command_line s ++ (c ∷ [])) test)) refl (unchanged s v)
    ]

pub backspace-Edited :
    (s : Shell)
    → IsShell s
    → Edited s (backspace s) (take (length (command_line s) - 1) (command_line s)) s.debug_lba
unfolding backspace
backspace-Edited s v =
    let size : length (command_line s) ≡ s.input_len = length-slice s.input_buf 0 s.input_len in
    let shorter : take (length (command_line s) - 1) (command_line s)
        ≡ slice s.input_buf 0 (s.input_len - 1) =
      ap (λ (n : ℕ). take (n - 1) (command_line s)) size
      ∙ take-slice s.input_buf 0 (s.input_len - 1) s.input_len (omega arith) in
    elim (Bool-cases (ltb 0 s.input_len)) [
      | inl some_left ↦ Edited-subst (sym (if-eq_true _ some_left)) (sym shorter) refl (record {
        valid = record { room = omega (arith, v.room); ascii = λ i h. v.ascii i (omega arith) };
        shows = refl;
        rest = refl;
      })
      | inr nothing ↦
          let same : s.input_len ≡ s.input_len - 1 = ground (arith, nothing) in
          Edited-subst (sym (if-eq_false _ nothing))
            (ap (λ (n : ℕ). slice s.input_buf 0 n) same ∙ sym shorter) refl (unchanged s v)
    ]

-- The keys that move along the disk leave the line.
moved_shell :
    (s : Shell) (lba : ℕ) → IsShell s → Edited s (record s { debug_lba = lba }) (command_line s) lba
moved_shell s lba v = record {
  valid = record { room = v.room; ascii = v.ascii };
  shows = refl;
  rest = refl;
}

pub left-Edited :
    (s : Shell) → IsShell s → Edited s (left s) (command_line s) (moved 0x4B s.debug_lba)
unfolding left
left-Edited s v = elim (Bool-cases (ltb 0 s.debug_lba)) [
  | inl more ↦ rw more (moved_shell s (s.debug_lba - 1) v)
  | inr first ↦ rw first (unchanged s v)
]

pub right-Edited :
    (s : Shell) → IsShell s → Edited s (right s) (command_line s) (moved 0x4D s.debug_lba)
unfolding right
right-Edited s v = elim (Bool-cases (ltb s.debug_lba 0xFFFFFFFF)) [
  | inl more ↦ rw more (moved_shell s (s.debug_lba + 1) v)
  | inr last ↦ rw last (unchanged s v)
]
