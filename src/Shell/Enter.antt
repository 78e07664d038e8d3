-- ===== src/Shell/Enter.antt =====
-- A line of output of the shell, and Enter behind a `set lba` line.
use forward_os_kernel_base.Base.{
  ℕ, zero, suc, ◌+◌, ◌*◌, ◌/◌, ◌^◌, ◌≤◌, ◌<◌, ◌≡◌, refl, sym, ap, ◌∙◌, arith,
}
use forward_os_kernel_base.Base.{
  true, false, ltb, ◌==◌, if◌then◌else◌, if-eq_true, if-eq_false, Bool-cases, inl, inr, ◌⊎◌, Option,
  none, some, Outcome, ret, and_then, or_panic, List, [], ◌∷◌, ◌++◌, length, length-append, u32,
}
use forward_os_kernel_base.Base.Text.{text, digits, decimal, upper_hex, split_whitespace}
use forward_os_kernel_base.Draw.{Font, DoubleBuffer, get_font_info, fill_rect_db}
use forward_os_kernel_base.Draw.Shapes.{IsShadow, fill_rect_db_lem}
use forward_os_kernel_base.Draw.Text.{draw_string_db_lem}
use forward_os_kernel_base.Shell.{Shell, command_line, write_line, both_bases}
use forward_os_kernel_base.Shell.Command.{
  next_word, or_else, parse_lba, stay, set, run_command, enter,
}
use forward_os_kernel_base.Shell.Lba.{parse_lba_lem}

length-digits : (radix room n : ℕ) → length (digits radix room n) ≤ room
unfolding digits
length-digits radix zero n = omega arith
length-digits radix (suc room) n = elim (Bool-cases (n == 0)) [
  | inl nothing ↦ rw (nothing, digits) (omega arith)
  | inr more ↦
      rw (more, digits)
        (omega (
          arith,
          length-digits radix room (n / radix),
          length-append (digits radix room (n / radix)) (_ ∷ []),
        ))
]

length-if :
    (b : _) (cs : List ℕ) (k : ℕ) → length cs ≤ k → 1 ≤ k → length (if b then text "0" else cs) ≤ k
length-if true cs k h one = one
length-if false cs k h one = h

length-both_bases : (n : ℕ) → length (both_bases n) ≤ 42
unfolding both_bases decimal upper_hex
length-both_bases n =
    let d : length (decimal n) ≤ 20 =
      length-if (n == 0) (digits 10 20 n) 20 (length-digits 10 20 n) (omega arith) in
    let h : length (upper_hex n) ≤ 16 =
      length-if (n == 0) (digits 16 16 n) 16 (length-digits 16 16 n) (omega arith) in
    omega (
      arith,
      d,
      h,
      length-append (decimal n) (text " (0x" ++ (upper_hex n ++ text ")")),
      length-append (upper_hex n) (text ")"),
    )

next_line : Shell → Shell
next_line s = record s { console = record s.console { current_y = u32 (s.console.current_y + 20) } }

-- Enter runs the first word, and empties the line.
enter-run_command :
    (font : Font) (fuel : ℕ) (cmd : List ℕ) (args : List (List ℕ)) (s u : Shell)
    → split_whitespace (command_line s) ≡ cmd ∷ args
    → run_command font fuel cmd args (next_line s) ≡ ret (some u)
    → enter font fuel s ≡ ret (some (record u { input_len = 0 }))
unfolding enter next_line
enter-run_command font fuel cmd args s u words ran =
    ap
      (λ (ws : List (List ℕ)).
        and_then
          (run_command font fuel (or_else (next_word ws).0 []) (next_word ws).1 (next_line s))
          (λ next. elim next [
            | none ↦ ret none
            | some v ↦ ret (some (record v { input_len = 0 }))
          ]))
      words
    ∙ ap
        (λ (o : Outcome (Option Shell)). and_then o (λ next. elim next [
          | none ↦ ret none
          | some v ↦ ret (some (record v { input_len = 0 }))
        ]))
        ran

run_command-set :
    (font : Font) (fuel : ℕ) (v : List ℕ) (rest : List (List ℕ)) (s : Shell)
    → run_command font fuel (text "set") (text "lba" ∷ v ∷ rest) s
      ≡ stay (
          write_line font
            (text "LBA set to " ++ both_bases (parse_lba v))
            0x00FF00
            (record s { debug_lba = parse_lba v }))
unfolding run_command set
run_command-set font fuel v rest s = refl

module _ (W H L : ℕ) (font : Font) (header_size glyph_size height : ℕ)
    (info : get_font_info font ≡ some (some (header_size, glyph_size, height))) where
  -- A shell behind a line of output.
  record Written (s : Shell) (y : ℕ) (r : _) : Type 0 where
    db : DoubleBuffer
    returns :
        r
        ≡ ret (record s {
          console = record s.console { current_y = if ltb 440 y then 220 else y };
          db = db;
        })
    valid : IsShadow W H L db

  write_line_lem :
      (line : List ℕ) (color : ℕ) (s : Shell)
      → 10 + 8 * length line < 2 ^ 32
      → s.console.current_y + s.console.line_height < 2 ^ 32
      → s.console.current_y + height ≤ 2 ^ 32
      → IsShadow W H L s.db
      → Written s (s.console.current_y + s.console.line_height) (write_line font line color s)
  unfolding write_line
  write_line_lem line color s wide next tall v =
      let y = u32 (s.console.current_y + s.console.line_height) in
      let y_is : y ≡ s.console.current_y + s.console.line_height = omega arith in
      let drawn =
        draw_string_db_lem W H L color font header_size glyph_size height 10 s.console.current_y
          line s.db info wide tall v in
      let cleared =
        fill_rect_db_lem W H L 0 0 220 800 260 drawn.after (omega arith) (omega arith)
          drawn.valid in
      let step : write_line font line color s ≡ (
          if ltb 440 y
          then and_then (or_panic (fill_rect_db 0 220 800 260 0x000000 drawn.after))
              (λ db. ret (record s { console = record s.console { current_y = 220 }; db = db }))
          else ret (record s { console = record s.console { current_y = y }; db = drawn.after })) =
        rw (drawn.returns, write_line) refl in
      elim (Bool-cases (ltb 440 y)) [
        | inl below ↦ record {
          db = cleared.after;
          returns =
              step
              ∙ (if-eq_true _ below
                  ∙ (ap
                        (λ (o : Option DoubleBuffer). and_then (or_panic o) (λ db.
                          ret
                            (record s { console = record s.console { current_y = 220 }; db = db })))
                        cleared.returns
                      ∙ ap
                          (λ (j : ℕ). ret (record s {
                            console = record s.console { current_y = j };
                            db = cleared.after;
                          }))
                          (sym (if-eq_true _ (ap (ltb 440) (sym y_is) ∙ below)))));
          valid = cleared.valid;
        }
        | inr on ↦ record {
          db = drawn.after;
          returns =
              step
              ∙ (if-eq_false _ on
                  ∙ ap
                      (λ (j : ℕ). ret (record s {
                        console = record s.console { current_y = j };
                        db = drawn.after;
                      }))
                      (y_is ∙ sym (if-eq_false 220 (ap (ltb 440) (sym y_is) ∙ on))));
          valid = drawn.valid;
        }
      ]

  -- Behind a line of `set`, `lba` and a number in either base, Enter shows that sector from then on,
  -- whatever else is on the line; the line is empty again, and its place is 40 pixels further down,
  -- or at 220 where that is below 440. For a number of 64 bits, a font that can be read, a line
  -- height of 20, a place that does not wrap, and a shadow buffer of its geometry, which stays one.
  pub enter_lem :
      (fuel n : ℕ) (v : List ℕ) (rest : List (List ℕ)) (s : Shell)
      → split_whitespace (command_line s) ≡ text "set" ∷ text "lba" ∷ v ∷ rest
      → (v ≡ decimal n) ⊎ (v ≡ text "0x" ++ upper_hex n)
      → n < 2 ^ 64
      → s.console.line_height ≡ 20
      → s.console.current_y + 40 + height < 2 ^ 32
      → IsShadow W H L s.db
      → (t : Shell) × (enter font fuel s ≡ ret (some t))
        × (t.debug_lba ≡ n)
        × (command_line t ≡ [])
        × (t.console.current_y
            ≡ (if ltb 440 (s.console.current_y + 40) then 220 else s.console.current_y + 40))
        × IsShadow W H L t.db
  unfolding next_line
  enter_lem fuel n v rest s words number small lh tall valid =
      let y = u32 (s.console.current_y + 20) in
      let y_is : y ≡ s.console.current_y + 20 = omega arith in
      let y_next : y + s.console.line_height ≡ s.console.current_y + 40 = omega (arith, y_is, lh) in
      let val : parse_lba v ≡ n = elim number [
        | inl e ↦ ap parse_lba e ∙ (parse_lba_lem n small).0
        | inr e ↦ ap parse_lba e ∙ (parse_lba_lem n small).1
      ] in
      let u : Shell = record s {
        console = record s.console { current_y = y };
        debug_lba = parse_lba v;
      } in
      let w =
        write_line_lem (text "LBA set to " ++ both_bases (parse_lba v)) 0x00FF00 u
          (omega (arith, length-both_bases (parse_lba v))) (omega arith) (omega arith) valid in
      (
        record u {
          console = record u.console {
            current_y =
                if ltb 440 (y + s.console.line_height) then 220 else y + s.console.line_height;
          };
          db = w.db;
          input_len = 0;
        },
        enter-run_command font fuel (text "set") (text "lba" ∷ v ∷ rest) s _ words
            (run_command-set font fuel v rest (next_line s) ∙ ap stay w.returns),
        val,
        refl,
        ap (λ (k : ℕ). if ltb 440 k then 220 else k) y_next,
        w.valid,
      )
