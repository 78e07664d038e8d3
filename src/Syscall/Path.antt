-- ===== src/Syscall/Path.antt =====
-- SYS_OPEN, through the buffer that the path is copied into.
use forward_os_kernel_base.Base.{
  ℕ, zero, suc, ◌+◌, ◌-◌, ◌≤◌, ◌<◌, ◌≡◌, refl, sym, ap, ◌∙◌, arith, min,
}
use forward_os_kernel_base.Base.{
  true, false, ◌==◌, in_range, if◌then◌else◌, if-eq_true, if-eq_false, Bool-cases, inl, inr, List,
  [], ◌∷◌, length, take, length-take, take_all, get_or, Bytes, set_byte, u32, Option, Outcome, ret,
  panic, stuck, and_then,
}
use native.Mathlib.Decide.{dec_lt}
use forward_os_kernel_base.Disk.{Machine}
use forward_os_kernel_base.Directory.{syscall_open}
use forward_os_kernel_base.Draw.{Font}
use forward_os_kernel_base.File.Table.{FdTable}
use forward_os_kernel_base.Syscall.{
  System, or_minus_one, returns, path_at, open_path, syscall_int80_handler,
}
use forward_os_kernel_base.Syscall.Calls.{store, call, call_open}

-- A text up to its first zero.
pub until_zero : List ℕ → List ℕ
until_zero [] = []
until_zero (c ∷ cs) = if c == 0 then [] else c ∷ until_zero cs

store_before : (a : ℕ) (cs : List ℕ) (m : Bytes) (x : ℕ) → x < a → store a cs m x ≡ m x
unfolding store
store_before a [] m x h = refl
store_before a (c ∷ cs) m x h =
    let other : (a == x) ≡ false = ground arith in
    store_before (a + 1) cs (set_byte m a c) x (omega arith) ∙ if-eq_false _ other

store_at :
    (a : ℕ) (cs : List ℕ) (m : Bytes) (x : ℕ)
    → store a cs m x ≡ (if in_range a (length cs) x then get_or cs (x - a) 0 else m x)
unfolding store
store_at a [] m x =
    let none_in : in_range a 0 x ≡ false = ground arith in sym (if-eq_false _ none_in)
store_at a (c ∷ cs) m x = elim (Bool-cases (a == x)) [
  | inl here ↦
      let inside : in_range a (suc (length cs)) x ≡ true = ground (arith, here) in
      let first : x - a ≡ 0 = ground (arith, here) in
      store_before (a + 1) cs (set_byte m a c) x (ground (arith, here))
      ∙ if-eq_true _ here
      ∙ ap (λ (i : ℕ). get_or (c ∷ cs) i 0) (sym first)
      ∙ sym (if-eq_true _ inside)
  | inr other ↦
      store_at (a + 1) cs (set_byte m a c) x
      ∙ ap (λ (v : ℕ). if in_range (a + 1) (length cs) x then get_or cs (x - (a + 1)) 0 else v)
          (if-eq_false _ other)
      ∙ elim (Bool-cases (in_range (a + 1) (length cs) x)) [
        | inl inside ↦
            let inside' : in_range a (suc (length cs)) x ≡ true = ground (arith, inside) in
            let next : x - a ≡ suc (x - (a + 1)) = ground (arith, inside) in
            if-eq_true _ inside
            ∙ ap (λ (i : ℕ). get_or (c ∷ cs) i 0) (sym next)
            ∙ sym (if-eq_true _ inside')
        | inr outside ↦
            let outside' : in_range a (suc (length cs)) x ≡ false =
              ground (arith, outside, other) in
            if-eq_false _ outside ∙ sym (if-eq_false _ outside')
      ]
]

get_or_end : (cs : List ℕ) (i : ℕ) → length cs ≤ i → get_or cs i 0 ≡ 0
get_or_end [] i h = refl
get_or_end (c ∷ cs) zero h = absurd (omega arith)
get_or_end (c ∷ cs) (suc i) h = get_or_end cs i (omega arith)

-- A text with a zero behind it, in memory.
terminated :
    (a end : ℕ) (cs : List ℕ) (m : Bytes) (x : ℕ)
    → end ≡ a + length cs
    → set_byte (store a cs m) end 0 x
      ≡ (if in_range a (length cs + 1) x then get_or cs (x - a) 0 else m x)
terminated a end cs m x e = elim (Bool-cases (end == x)) [
  | inl last ↦
      let inside : in_range a (length cs + 1) x ≡ true = ground (arith, last) in
      let behind : length cs ≤ x - a = ground (arith, last) in
      if-eq_true _ last ∙ sym (if-eq_true (m x) inside ∙ get_or_end cs (x - a) behind)
  | inr other ↦
      if-eq_false _ other ∙ store_at a cs m x ∙ elim (Bool-cases (in_range a (length cs) x)) [
        | inl inside ↦
            let inside' : in_range a (length cs + 1) x ≡ true = ground (arith, inside) in
            if-eq_true _ inside ∙ sym (if-eq_true (m x) inside')
        | inr outside ↦
            let outside' : in_range a (length cs + 1) x ≡ false = ground (arith, outside, other) in
            if-eq_false _ outside ∙ sym (if-eq_false _ outside')
      ]
]

-- What SYS_OPEN reads of a text that has been stored with a zero behind it.
path_at-store :
    (cs : List ℕ) (a end room : ℕ) (m : Bytes)
    → length cs < room
    → end ≡ a + length cs
    → path_at (set_byte (store a cs m) end 0) a room ≡ until_zero cs
unfolding path_at until_zero store
path_at-store cs a end zero m h e = absurd (omega arith)
path_at-store [] a end (suc room) m h e =
    let here : (end == a) ≡ true = ground arith in rw here refl
path_at-store (c ∷ cs) a end (suc room) m h e =
    let M = set_byte (store (a + 1) cs (set_byte m a c)) end 0 in
    let other : (end == a) ≡ false = ground arith in
    let same : (a == a) ≡ true = ground arith in
    let head : M a ≡ c =
      if-eq_false _ other
      ∙ (store_before (a + 1) cs (set_byte m a c) a (omega arith) ∙ if-eq_true _ same) in
    let rest = path_at-store cs (a + 1) end room (set_byte m a c) (omega arith) (omega arith) in
    ap (λ (v : ℕ). if v == 0 then [] else v ∷ path_at M (a + 1) room) head
    ∙ ap (λ (l : List ℕ). if c == 0 then [] else c ∷ l) rest

take-min : (n : ℕ) (cs : List ℕ) → take (min (length cs) n) cs ≡ take n cs
take-min n cs = elim (dec_lt n (length cs)) [
  | yes shorter ↦ let cut : min (length cs) n ≡ n = omega arith in ap (λ (k : ℕ). take k cs) cut
  | no whole ↦ take_all (min (length cs) n) cs (omega arith) ∙ sym (take_all n cs (omega arith))
]

module _ {E : Type 0} (font : Font) (error_text : List ℕ → List ℕ) (in_port : ℕ → E → ℕ × E)
    (fuel : ℕ) where
  -- The result of a search and of the entry that it takes, as `sys_open` passes it on.
  abbrev pub opened :
      Bytes → System E → Outcome (Option ℕ × FdTable × Machine) → Outcome (ℕ × System E)
  opened memory s o = and_then o (λ (fd, fds, machine). ret (
    u32 (or_minus_one fd),
    record s {
      kernel = record { machine = machine; fds = fds; memory = memory };
      syscall_ret = or_minus_one fd;
    },
  ))

  returns-opened :
      (s : System E) (o : Outcome (Option ℕ × FdTable × Machine))
      → and_then
          (and_then
            (and_then o (λ (fd, fds, machine).
              returns
                (or_minus_one fd)
                (record s { kernel = record s.kernel { fds = fds; machine = machine } })))
            (λ (rax, t). ret (t.syscall_ret, t)))
          (λ (n, t). ret (u32 n, t))
        ≡ opened s.kernel.memory s o
  returns-opened s (ret (fd, fds, machine)) = refl
  returns-opened s panic = refl
  returns-opened s stuck = refl

  -- `sys_open` opens the file of that very path, as far as its first 127 bytes and a zero among them
  -- go; besides, it writes those bytes and a zero into its buffer, and no other memory.
  pub call_open_lem :
      (path_buf : ℕ) (path : List ℕ) (s : System E)
      → let copied = take 127 path in
        (memory : Bytes) × (call_open font error_text in_port fuel path_buf path s
          ≡ opened memory s (syscall_open fuel (until_zero copied) s.kernel.fds s.kernel.machine))
        × ((x : ℕ)
            → memory x ≡ (
                if in_range path_buf (length copied + 1) x
                then get_or copied (x - path_buf) 0
                else s.kernel.memory x))
  unfolding call_open call syscall_int80_handler open_path
  call_open_lem path_buf path s =
      let len = min (length path) 127 in
      let copied = take len path in
      let M = set_byte (store path_buf copied s.kernel.memory) (path_buf + len) 0 in
      let s' = record s { kernel = record s.kernel { memory = M } } in
      let size : length copied ≡ len = omega (arith, length-take len path) in
      (
        M,
        returns-opened s' (syscall_open fuel (path_at M path_buf 128) s.kernel.fds s.kernel.machine)
            ∙ ap (λ (l : List ℕ). opened M s (syscall_open fuel l s.kernel.fds s.kernel.machine))
                (path_at-store copied path_buf (path_buf + len) 128 s.kernel.memory (omega arith)
                    (omega arith)
                  ∙ ap until_zero (take-min 127 path)),
        λ x.
            terminated path_buf (path_buf + len) copied s.kernel.memory x (omega arith)
            ∙ ap
                (λ (l : List ℕ).
                  if in_range path_buf (length l + 1) x
                  then get_or l (x - path_buf) 0
                  else s.kernel.memory x)
                (take-min 127 path),
      )
