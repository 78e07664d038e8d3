-- ===== src/Draw/Tests.antt =====
-- The theorems applied to a small screen and a font of two rows.
use forward_os_kernel_base.Base.{
  ◌-◌, ◌≡◌, refl, arith, leb, ◌==◌, ◌&&◌, in_range, if◌then◌else◌, some,
}
use forward_os_kernel_base.Base.{[], ◌∷◌}
use forward_os_kernel_base.Draw.{DoubleBuffer, Font, get_font_info, draw_string_db}
use forward_os_kernel_base.Draw.Paint.{Paints}
use forward_os_kernel_base.Draw.Shapes.{IsShadow, canvas}
use forward_os_kernel_base.Draw.Text.{text_bit, draw_string_db_lem}

abbrev shadow : DoubleBuffer
shadow = record { vram_shadow = λ i. 0; size = 400; width = 18; height = 20; scanline = 20 }

shadow-IsShadow : IsShadow 18 20 20 shadow
shadow-IsShadow = record {
  width = refl;
  height = refl;
  scanline = refl;
  size = refl;
  line = omega arith;
  small = omega arith;
}

abbrev two_rows : Font
two_rows = record {
  bytes = λ i. if i == 0 then 0x36 else if i == 1 then 0x04 else if i == 3 then 2 else 0x81;
  len = 516;
}

two_rows_info : get_font_info two_rows ≡ some (some (4, 2, 2))
unfolding get_font_info
two_rows_info = refl

draw_string_db_example :
    Paints
      (canvas 18 20 20 5)
      shadow
      (draw_string_db two_rows 1 2 (72 ∷ 105 ∷ []) 5 shadow)
      (λ qx qy.
        leb 1 qx
        && (in_range 2 2 qy && text_bit two_rows (4, 2, 2) (72 ∷ 105 ∷ []) (qx - 1) (qy - 2)))
draw_string_db_example =
    draw_string_db_lem 18 20 20 5 two_rows 4 2 2 1 2 (72 ∷ 105 ∷ []) shadow two_rows_info
      (omega arith) (omega arith) shadow-IsShadow
