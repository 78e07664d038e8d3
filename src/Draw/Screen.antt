-- ===== src/Draw/Screen.antt =====
-- kernel/src/boot/mod.rs: the screen of the standard boot. `back_buffer` is an array of 1920 * 1080
-- words; a pixel beyond it is left out. `frame_buffer` is the memory at `FB_PTR`, and `has_frame`
-- tells that the pointer is not null.
use forward_os_kernel_base.Base.{ℕ, ◌+◌, ◌*◌, ◌^◌, ◌≤◌, ◌<◌, ◌≡◌, sym, ap, ap₂, ◌∙◌, arith, min}
use forward_os_kernel_base.Base.{
  Bool, true, false, ◌&&◌, ltb, ◌==◌, in_range, if◌then◌else◌, if-eq_true, if-eq_false, Option,
  none, some, List, [], ◌∷◌,
}
use forward_os_kernel_base.Base.{Bool-cases, inl, inr, u32, lt→ltb}
use forward_os_kernel_base.Draw.{Font, for_rect, draw_glyph}
use forward_os_kernel_base.Draw.Paint.{Canvas, Paints, IsPen, for_rect-Paints, repaint, and_true}
use forward_os_kernel_base.Draw.Shapes.{same_place, in_shadow, apart}

abbrev pub buffer_len : ℕ
buffer_len = 1920 * 1080

pub record Screen : Type 0 where
  pub has_frame : Bool
  pub frame_buffer : ℕ → ℕ
  pub stride : ℕ
  pub width : ℕ
  pub height : ℕ
  pub back_buffer : ℕ → ℕ
  pub debug_x : ℕ
  pub debug_y : ℕ
  pub debug_line_count : ℕ

unfoldable pub put_pixel : ℕ → ℕ → ℕ → Screen → Screen
put_pixel x y color s =
    let idx = u32 (u32 (y * s.stride) + x) in
    if ltb x s.width && ltb y s.height
    then (if ltb idx buffer_len
        then record s { back_buffer = λ i. if idx == i then color else s.back_buffer i }
        else s)
    else s

unfoldable pub fill_screen : ℕ → Screen → Screen
fill_screen color s = record s {
  back_buffer =
      λ i. if ltb i (min (u32 (s.stride * s.height)) buffer_len) then color else s.back_buffer i;
}

unfoldable pub flip : Screen → Screen
flip s =
    if s.has_frame
    then record s {
      frame_buffer = λ i.
          if ltb i (min (u32 (s.stride * s.height)) buffer_len)
          then s.back_buffer i
          else s.frame_buffer i;
    }
    else s

unfoldable pub fill_rect : ℕ → ℕ → ℕ → ℕ → ℕ → Screen → Option Screen
unfolding for_rect put_pixel
fill_rect x y w h color s =
    for_rect (λ dx dy s'. some (put_pixel (u32 (x + dx)) (u32 (y + dy)) color s')) w h s

unfoldable pub draw_char : Font → ℕ → ℕ → ℕ → ℕ → Screen → Option Screen
unfolding draw_glyph put_pixel
draw_char font x y c color s = draw_glyph font (λ px py s'. some (put_pixel px py color s')) x y c s

-- A newline is left out.
unfoldable pub draw_string : Font → ℕ → ℕ → List ℕ → ℕ → Screen → Option Screen
unfolding draw_char
draw_string font cx y [] color s = some s
draw_string font cx y (c ∷ cs) color s =
    let skipped = draw_string font cx y cs color s in
    if c == 10 then skipped else elim (draw_char font cx y c color s) [
      | none ↦ none
      | some s' ↦ draw_string font (u32 (cx + 8)) y cs color s'
    ]

abbrev pub max_debug_lines : ℕ
max_debug_lines = 15

unfoldable pub debug_print : Font → List ℕ → Screen → Option Screen
unfolding fill_rect draw_string flip
debug_print font text s =
    let cleared =
      if ltb s.debug_line_count max_debug_lines
      then some s
      else elim (fill_rect 0 550 s.width 200 0x00336699 s) [
        | none ↦ none
        | some s' ↦ some (record s' { debug_y = 560; debug_line_count = 0 })
      ] in
    elim cleared [
      | none ↦ none
      | some s' ↦ elim (draw_string font s'.debug_x s'.debug_y text 0x00FFFF00 s') [
        | none ↦ none
        | some t ↦ some (
            flip (record t {
              debug_y = u32 (t.debug_y + 12);
              debug_line_count = u32 (t.debug_line_count + 1);
            }))
      ]
    ]

unfoldable pub debug_clear : Screen → Screen
debug_clear s = record s { debug_y = 600; debug_x = 10 }

unfoldable pub set_framebuffer : Bool → (ℕ → ℕ) → ℕ → ℕ → ℕ → Screen → Screen
set_framebuffer has_frame frame stride width height s = record s {
  has_frame = has_frame;
  frame_buffer = frame;
  stride = stride;
  width = width;
  height = height;
}

-- A screen with this width, height and length of a line, that the array has room for.
pub record IsScreen (W H L : ℕ) (s : Screen) : Type 0 where
  pub width : s.width ≡ W
  pub height : s.height ≡ H
  pub stride : s.stride ≡ L
  pub line : W ≤ L
  pub room : L * H ≤ 1920 * 1080

abbrev pub canvas : ℕ → ℕ → ℕ → ℕ → Canvas Screen
canvas W H L color = record {
  IsValid = IsScreen W H L;
  pixel = λ s x y. s.back_buffer (y * L + x);
  width = W;
  height = H;
  color = color;
}

module _ (W H L color : ℕ) where
  within_place :
      (px py : ℕ) (s : Screen)
      → IsScreen W H L s
      → px < W
      → py < H
      → (u32 (u32 (py * s.stride) + px) ≡ py * L + px) × (py * L + px < buffer_len)
  within_place px py s v x y =
      let below = in_shadow px py W H L x y v.line in
      (
        ap (λ l. u32 (u32 (py * l) + px)) v.stride ∙ omega (arith, below, v.room),
        omega (arith, below, v.room),
      )

  put_pixel_within :
      (px py : ℕ) (s : Screen)
      → IsScreen W H L s
      → px < W
      → py < H
      → put_pixel px py color s
        ≡ record s { back_buffer = λ i. if py * L + px == i then color else s.back_buffer i }
  unfolding put_pixel
  put_pixel_within px py s v x y =
      let (place, below) = within_place px py s v x y in
      if-eq_true _ (ap₂ (λ (w h : ℕ). ltb px w && ltb py h) v.width v.height ∙ ground (arith, x, y))
      ∙ ap
          (λ (j : ℕ).
            if ltb j buffer_len
            then record s { back_buffer = λ i. if j == i then color else s.back_buffer i }
            else s)
          place
      ∙ if-eq_true _ (lt→ltb (py * L + px) buffer_len below)

  put_pixel_outside :
      (px py : ℕ) (s : Screen)
      → IsScreen W H L s
      → (ltb px W && ltb py H) ≡ false
      → put_pixel px py color s ≡ s
  unfolding put_pixel
  put_pixel_outside px py s v out =
      if-eq_false _ (ap₂ (λ (w h : ℕ). ltb px w && ltb py h) v.width v.height ∙ out)

  put_pixel-IsPen : IsPen (canvas W H L color) (λ x y s. some (put_pixel x y color s))
  put_pixel-IsPen px py s v = elim (Bool-cases (ltb px W && ltb py H)) [
    | inr out ↦ record {
      after = s;
      returns = ap some (put_pixel_outside px py s v out);
      valid = v;
      pixels = λ qx qy w h.
          ap (λ b. if b then color else s.back_buffer (qy * L + qx))
            (sym (apart px py qx qy W H out w h));
    }
    | inl within ↦
        let x : px < W = ground arith in
        let y : py < H = ground arith in
        record {
          after = record s {
            back_buffer = λ i. if py * L + px == i then color else s.back_buffer i;
          };
          returns = ap some (put_pixel_within px py s v x y);
          valid = record {
            width = v.width;
            height = v.height;
            stride = v.stride;
            line = v.line;
            room = v.room;
          };
          pixels = λ qx qy w h.
              ap (λ b. if b then color else s.back_buffer (qy * L + qx))
                (same_place px py qx qy L (omega (arith, v.line)) (omega (arith, v.line)));
        }
  ]

  -- Filling a rectangle returns; it gives the colour to exactly the pixels of the rectangle that are
  -- on the screen.
  pub fill_rect_lem :
      (x y w h : ℕ) (s : Screen)
      → x + w ≤ 2 ^ 32
      → y + h ≤ 2 ^ 32
      → IsScreen W H L s
      → Paints
          (canvas W H L color)
          s
          (fill_rect x y w h color s)
          (λ qx qy. in_range x w qx && in_range y h qy)
  unfolding fill_rect
  fill_rect_lem x y w h s xw yh v =
      repaint (canvas W H L color)
        (for_rect-Paints (canvas W H L color) (λ px py s'. some (put_pixel px py color s'))
          (λ dx dy. true) x y w h put_pixel-IsPen xw yh s v)
        (λ qx qy. ap (λ b. in_range x w qx && b) (and_true (in_range y h qy)))
