-- ===== src/Draw.antt =====
-- kernel/src/draw.rs: drawing into a shadow of the frame buffer, and the text of numbers. `none` is a
-- panic. The font is the bytes of a file that the build includes, so a parameter. The loops over the
-- pixels of a glyph or a rectangle are shared by the functions that the source writes one by one:
-- those of draw.rs for the shadow (`_db`) and for the frame itself, and those of
-- kernel/src/boot/mod.rs (Screen.antt).
pub mod Paint
pub mod Shapes
pub mod Text
pub mod Digits
pub mod Screen
mod Tests
use forward_os_kernel_base.Base.{ℕ, zero, suc, ◌+◌, ◌-◌, ◌*◌, ◌/◌, ◌%◌, ◌^◌, bit_and, ◌<<◌, ◌>>◌}
use forward_os_kernel_base.Base.{
  Bool, true, false, ◌&&◌, not, ltb, ◌==◌, if◌then◌else◌, Option, none, some,
}
use forward_os_kernel_base.Base.{List, [], ◌∷◌, ◌++◌, length, get_elem?, Bytes, u8, u32, read_u32}

-- `frame_buffer` is the memory that it points to.
pub record FrameBufferConfig : Type 0 where
  pub frame_buffer : ℕ → ℕ
  pub pixels_per_scan_line : ℕ
  pub horizontal_resolution : ℕ
  pub vertical_resolution : ℕ

-- `size` is the length of the vector.
pub record DoubleBuffer : Type 0 where
  pub vram_shadow : ℕ → ℕ
  pub size : ℕ
  pub width : ℕ
  pub height : ℕ
  pub scanline : ℕ

pub record Font : Type 0 where
  pub bytes : Bytes
  pub len : ℕ

unfoldable pub new : FrameBufferConfig → DoubleBuffer
new fb = record {
  vram_shadow = λ i. 0;
  size = u32 (fb.pixels_per_scan_line * fb.vertical_resolution);
  width = fb.horizontal_resolution;
  height = fb.vertical_resolution;
  scanline = fb.pixels_per_scan_line;
}

unfoldable pub flip : DoubleBuffer → FrameBufferConfig → FrameBufferConfig
flip db fb = record fb {
  frame_buffer = λ i. if ltb i db.size then db.vram_shadow i else fb.frame_buffer i;
}

-- The sizes of the header and of a glyph, and the height. The outer `none` is an index out of range.
unfoldable pub get_font_info : Font → Option (Option (ℕ × ℕ × ℕ))
get_font_info font =
    if ltb font.len 4
    then some none
    else if (font.bytes 0 == 0x72)
        && (font.bytes 1 == 0xb5)
        && (font.bytes 2 == 0x4a)
        && (font.bytes 3 == 0x86)
    then (if ltb font.len 28
        then none
        else some (some (read_u32 font.bytes 12, read_u32 font.bytes 24, read_u32 font.bytes 20)))
    else if (font.bytes 0 == 0x36) && (font.bytes 1 == 0x04)
    then some (some (4, font.bytes 3, font.bytes 3))
    else some none

-- `for i in i..i + n`
unfoldable pub for_each {ℓ} : {S : Type ℓ} → (ℕ → S → Option S) → ℕ → ℕ → S → Option S
for_each body i zero s = some s
for_each body i (suc n) s = elim (body i s) [ none ↦ none | some s' ↦ for_each body (suc i) n s' ]

-- `for dy in 0..height { for dx in 0..width { .. } }`
unfoldable pub for_rect {ℓ} : {S : Type ℓ} → (ℕ → ℕ → S → Option S) → ℕ → ℕ → S → Option S
unfolding for_each
for_rect body width height s = for_each (λ dy. for_each (λ dx. body dx dy) 0 width) 0 height s

-- `draw_char`, where `put` sets a pixel: a glyph's rows are bytes, the leftmost pixel their top bit.
unfoldable pub draw_glyph {ℓ} :
    {S : Type ℓ} → Font → (ℕ → ℕ → S → Option S) → ℕ → ℕ → ℕ → S → Option S
unfolding get_font_info for_rect
draw_glyph font put x y c s = elim (get_font_info font) [
  | none ↦ none
  | some none ↦ some s
  | some (some (header_size, glyph_size, height)) ↦
      let offset = header_size + c * glyph_size in
      if ltb font.len (offset + height)
      then some s
      else for_rect
          (λ dx dy s'.
            if not (bit_and (u8 (font.bytes (offset + dy) << dx)) 0x80 == 0)
            then put (u32 (x + dx)) (u32 (y + dy)) s'
            else some s')
          8 height s
]

-- `draw_string`, where `draw` draws a character.
unfoldable pub draw_text {ℓ} : {S : Type ℓ} → (ℕ → ℕ → S → Option S) → ℕ → List ℕ → S → Option S
draw_text draw x [] s = some s
draw_text draw x (c ∷ cs) s = elim (draw x c s) [
  | none ↦ none
  | some s' ↦ draw_text draw (u32 (x + 8)) cs s'
]

-- `if px < fb.horizontal_resolution && py < fb.vertical_resolution { .. }`
unfoldable pub put_direct : ℕ → ℕ → ℕ → FrameBufferConfig → Option FrameBufferConfig
put_direct color px py fb =
    if ltb px fb.horizontal_resolution && ltb py fb.vertical_resolution
    then (let index = u32 (fb.pixels_per_scan_line * py + px) in
        some (record fb { frame_buffer = λ i. if index == i then color else fb.frame_buffer i }))
    else some fb

unfoldable pub draw_char : Font → ℕ → ℕ → ℕ → ℕ → FrameBufferConfig → Option FrameBufferConfig
unfolding draw_glyph put_direct
draw_char font x y c color fb = draw_glyph font (put_direct color) x y c fb

unfoldable pub draw_string :
    Font → ℕ → ℕ → List ℕ → ℕ → FrameBufferConfig → Option FrameBufferConfig
unfolding draw_text draw_char
draw_string font x y s color fb = draw_text (λ cx c. draw_char font cx y c color) x s fb

unfoldable pub clear_screen : ℕ → FrameBufferConfig → FrameBufferConfig
clear_screen color fb = record fb {
  frame_buffer = λ i.
      if ltb i (u32 (fb.pixels_per_scan_line * fb.vertical_resolution))
      then color
      else fb.frame_buffer i;
}

-- `db.vram_shadow[index] = color`
abbrev pub set_shadow : ℕ → ℕ → DoubleBuffer → Option DoubleBuffer
set_shadow index color db =
    if ltb index db.size
    then some (record db { vram_shadow = λ i. if index == i then color else db.vram_shadow i })
    else none

-- The pixel of a character; the index is a `u32`.
unfoldable pub put_char_db : ℕ → ℕ → ℕ → DoubleBuffer → Option DoubleBuffer
put_char_db color px py db =
    if ltb px db.width && ltb py db.height
    then set_shadow (u32 (db.scanline * py + px)) color db
    else some db

unfoldable pub draw_char_db : Font → ℕ → ℕ → ℕ → ℕ → DoubleBuffer → Option DoubleBuffer
unfolding draw_glyph put_char_db
draw_char_db font x y c color db = draw_glyph font (put_char_db color) x y c db

unfoldable pub draw_string_db : Font → ℕ → ℕ → List ℕ → ℕ → DoubleBuffer → Option DoubleBuffer
unfolding draw_text draw_char_db
draw_string_db font x y s color db = draw_text (λ cx c. draw_char_db font cx y c color) x s db

unfoldable pub clear_screen_db : ℕ → DoubleBuffer → DoubleBuffer
clear_screen_db color db = record db {
  vram_shadow = λ i. if ltb i db.size then color else db.vram_shadow i;
}

-- The pixel of a rectangle; the index is a `usize`.
unfoldable pub put_rect_db : ℕ → ℕ → ℕ → DoubleBuffer → Option DoubleBuffer
put_rect_db color px py db =
    if ltb px db.width && ltb py db.height
    then set_shadow (py * db.scanline + px) color db
    else some db

unfoldable pub fill_rect_db : ℕ → ℕ → ℕ → ℕ → ℕ → DoubleBuffer → Option DoubleBuffer
unfolding for_rect put_rect_db
fill_rect_db x y width height color db =
    for_rect (λ dx dy. put_rect_db color (u32 (x + dx)) (u32 (y + dy))) width height db

unfoldable pub draw_rect_db : ℕ → ℕ → ℕ → ℕ → ℕ → DoubleBuffer → Option DoubleBuffer
unfolding for_rect put_rect_db
draw_rect_db x y width height color db =
    for_rect (λ dx dy. put_rect_db color (u32 (x + dx)) (u32 (y + dy))) width height db
