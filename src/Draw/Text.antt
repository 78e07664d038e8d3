-- ===== src/Draw/Text.antt =====
-- A line of text, on any canvas with a pen, and in the shadow of the frame buffer.
use forward_os_kernel_base.Base.{
  ℕ, suc, ◌+◌, ◌-◌, ◌*◌, ◌/◌, ◌%◌, ◌^◌, ◌≤◌, ◌<◌, ◌≡◌, refl, sym, ap, ap₂, subst, ◌∙◌, arith,
}
use forward_os_kernel_base.Base.{
  Bool, true, false, ◌&&◌, ◌||◌, not, ltb, leb, ◌==◌, in_range, if◌then◌else◌, Option, none, some,
  List, [], ◌∷◌, length, get_elem?,
}
use forward_os_kernel_base.Base.{Bool-cases, inl, inr, u8, u32, bit_and, ◌<<◌}
use forward_os_kernel_base.Draw.{
  DoubleBuffer, Font, get_font_info, for_rect, draw_glyph, draw_text, draw_char_db, draw_string_db,
}
use forward_os_kernel_base.Draw.Paint.{
  Canvas, Paints, IsPen, for_rect-Paints, repaint, paint_none, if-or, or_false,
}
use forward_os_kernel_base.Draw.Shapes.{IsShadow, canvas, put_char_db-IsPen}

-- Whether a character has a pixel at this column and row of its glyph; one whose glyph lies beyond
-- the end of the font has none.
abbrev pub glyph_bit : Font → ℕ × ℕ × ℕ → ℕ → ℕ → ℕ → Bool
glyph_bit font (header_size, glyph_size, height) c dx dy =
    let offset = header_size + c * glyph_size in
    if ltb font.len (offset + height)
    then false
    else not (bit_and (u8 (font.bytes (offset + dy) << dx)) 0x80 == 0)

abbrev pub char_bit : Font → ℕ × ℕ × ℕ → Option ℕ → ℕ → ℕ → Bool
char_bit font info none dx dy = false
char_bit font info (some c) dx dy = glyph_bit font info c dx dy

-- Whether a line of characters, 8 pixels each, has a pixel at this column and row.
abbrev pub text_bit : Font → ℕ × ℕ × ℕ → List ℕ → ℕ → ℕ → Bool
text_bit font info s dx dy = char_bit font info (get_elem? s (dx / 8)) (dx % 8) dy

-- A line that starts at `x`, followed by the rest at `x + 8`.
text_bit-cons :
    (font : Font) (info : ℕ × ℕ × ℕ) (c : ℕ) (cs : List ℕ) (x x' qx dy : ℕ) (row : Bool)
    → x' ≡ x + 8
    → ((leb x' qx && (row && text_bit font info cs (qx - x') dy))
        || (in_range x 8 qx && (row && glyph_bit font info c (qx - x) dy)))
      ≡ (leb x qx && (row && text_bit font info (c ∷ cs) (qx - x) dy))
text_bit-cons font info c cs x x' qx dy row e = elim (Bool-cases (ltb qx x)) [
  | inl left ↦
      let l1 : leb x' qx ≡ false = ground (arith, left) in
      let l2 : leb x qx ≡ false = ground (arith, left) in rw (l1, l2) refl
  | inr from ↦ elim (Bool-cases (ltb qx x')) [
    | inl cell ↦
        let l1 : leb x' qx ≡ false = ground (arith, cell) in
        let l2 : leb x qx ≡ true = ground (arith, from) in
        let l3 : ltb qx (x + 8) ≡ true = ground (arith, cell) in
        let low : qx - x < 8 = ground (arith, cell, from) in
        let d : (qx - x) / 8 ≡ 0 = omega arith in
        let m : (qx - x) % 8 ≡ qx - x = omega arith in
        rw (l1, l2, l3)
          (ap₂ (λ (i j : ℕ). row && char_bit font info (get_elem? (c ∷ cs) i) j dy) (sym d) (sym m))
    | inr later ↦
        let l1 : leb x' qx ≡ true = ground (arith, later) in
        let l2 : leb x qx ≡ true = ground (arith, from) in
        let l3 : ltb qx (x + 8) ≡ false = ground (arith, later) in
        let far : x + 8 ≤ qx = ground (arith, later) in
        let d : (qx - x) / 8 ≡ suc ((qx - x') / 8) = omega arith in
        let m : (qx - x) % 8 ≡ (qx - x') % 8 = omega arith in
        rw (l1, l2, l3)
          (or_false (row && text_bit font info cs (qx - x') dy)
            ∙ ap₂ (λ (i j : ℕ). row && char_bit font info (get_elem? (c ∷ cs) i) j dy) (sym d)
                (sym m))
  ]
]

none_here : (a b : Bool) → (a && (b && false)) ≡ false
none_here true true = refl
none_here true false = refl
none_here false b = refl

module _ {S : Type 0} (k : Canvas S) (put : ℕ → ℕ → S → Option S) (pen : IsPen k put) where
  paint_unless :
      (beyond : Bool) (test : ℕ → ℕ → Bool) (x y h : ℕ)
      → x + 8 ≤ 2 ^ 32
      → y + h ≤ 2 ^ 32
      → (s : S) → k.IsValid s
      → Paints k s
          (if beyond
            then some s
            else for_rect
                (λ dx dy s'. if test dx dy then put (u32 (x + dx)) (u32 (y + dy)) s' else some s')
                8
                h
                s)
          (λ qx qy.
            in_range x 8 qx
            && (in_range y h qy && (if beyond then false else test (qx - x) (qy - y))))
  paint_unless true test x y h xw yh s v =
      repaint k (paint_none k s v) (λ qx qy. sym (none_here (in_range x 8 qx) (in_range y h qy)))
  paint_unless false test x y h xw yh s v = for_rect-Paints k put test x y 8 h pen xw yh s v

  module _ (font : Font) (header_size glyph_size height : ℕ)
      (info : get_font_info font ≡ some (some (header_size, glyph_size, height))) where
    draw_glyph-Paints :
        (x y c : ℕ)
        → x + 8 ≤ 2 ^ 32
        → y + height ≤ 2 ^ 32
        → (s : S) → k.IsValid s
        → Paints k s (draw_glyph font put x y c s) (λ qx qy.
          in_range x 8 qx
          && (in_range y height qy
              && glyph_bit font (header_size, glyph_size, height) c (qx - x) (qy - y)))
    unfolding draw_glyph
    draw_glyph-Paints x y c xw yh s v =
        let offset = header_size + c * glyph_size in
        subst
          (λ r. Paints k s r (λ qx qy.
            in_range x 8 qx
            && (in_range y height qy
                && glyph_bit font (header_size, glyph_size, height) c (qx - x) (qy - y))))
          (rw (info, draw_glyph) refl)
          (paint_unless (ltb font.len (offset + height))
            (λ dx dy. not (bit_and (u8 (font.bytes (offset + dy) << dx)) 0x80 == 0)) x y height xw
            yh s v)

    draw_text-Paints :
        (x y : ℕ) (cs : List ℕ)
        → x + 8 * length cs < 2 ^ 32
        → y + height ≤ 2 ^ 32
        → (s : S) → k.IsValid s
        → Paints k s (draw_text (λ cx c. draw_glyph font put cx y c) x cs s) (λ qx qy.
          leb x qx
          && (in_range y height qy
              && text_bit font (header_size, glyph_size, height) cs (qx - x) (qy - y)))
    unfolding draw_text
    draw_text-Paints x y [] xw yh s v =
        repaint k (paint_none k s v) (λ qx qy. sym (none_here (leb x qx) (in_range y height qy)))
    draw_text-Paints x y (c ∷ cs) xw yh s v =
        let one = draw_glyph-Paints x y c (omega arith) yh s v in
        let rest = draw_text-Paints (u32 (x + 8)) y cs (omega arith) yh one.after one.valid in
        record {
          after = rest.after;
          returns = rw (one.returns, draw_text) rest.returns;
          valid = rest.valid;
          pixels = λ qx qy w h.
              rest.pixels qx qy w h
              ∙ ap
                  (λ p.
                    if leb (u32 (x + 8)) qx
                      && (in_range y height qy
                          && text_bit font (header_size, glyph_size, height) cs (qx - u32 (x + 8))
                              (qy - y))
                    then k.color
                    else p)
                  (one.pixels qx qy w h)
              ∙ if-or _ _ k.color (k.pixel s qx qy)
              ∙ ap (λ b. if b then k.color else k.pixel s qx qy)
                  (text_bit-cons font (header_size, glyph_size, height) c cs x (u32 (x + 8)) qx
                    (qy - y) (in_range y height qy) (omega arith));
        }

-- Writing a line of text returns; it gives the colour to exactly the pixels on the screen that the
-- font's glyphs have, 8 columns for each character, and leaves the others.
pub draw_string_db_lem :
    (W H L color : ℕ) (font : Font) (header_size glyph_size height x y : ℕ) (s : List ℕ)
    (db : DoubleBuffer)
    → get_font_info font ≡ some (some (header_size, glyph_size, height))
    → x + 8 * length s < 2 ^ 32
    → y + height ≤ 2 ^ 32
    → IsShadow W H L db
    → Paints (canvas W H L color) db (draw_string_db font x y s color db) (λ qx qy.
      leb x qx
      && (in_range y height qy
          && text_bit font (header_size, glyph_size, height) s (qx - x) (qy - y)))
unfolding draw_string_db draw_char_db
draw_string_db_lem W H L color font header_size glyph_size height x y s db info xw yh v =
    draw_text-Paints (canvas W H L color) _ (put_char_db-IsPen W H L color) font header_size
      glyph_size height info x y s xw yh db v
