-- ===== src/Draw/Shapes.antt =====
-- Rectangles and text in the shadow of the frame buffer.
use forward_os_kernel_base.Base.{
  ℕ, ◌+◌, ◌*◌, ◌^◌, ◌≤◌, ◌<◌, ◌≡◌, refl, sym, ap, ap₂, subst, ◌∙◌, arith,
}
use forward_os_kernel_base.Base.{
  Bool, true, false, ◌&&◌, ltb, ◌==◌, in_range, if◌then◌else◌, if-eq_true, some,
}
use forward_os_kernel_base.Base.{Bool-cases, inl, inr, u32, lt→ltb}
use forward_os_kernel_base.Draw.{
  DoubleBuffer, set_shadow, put_char_db, put_rect_db, fill_rect_db, draw_rect_db,
}
use forward_os_kernel_base.Draw.Paint.{Canvas, Paints, IsPen, for_rect-Paints, repaint, and_true}

-- A shadow with this width, height and length of a line; the frame buffer has 2^32 pixels at most.
pub record IsShadow (W H L : ℕ) (db : DoubleBuffer) : Type 0 where
  pub width : db.width ≡ W
  pub height : db.height ≡ H
  pub scanline : db.scanline ≡ L
  pub size : db.size ≡ L * H
  pub line : W ≤ L
  pub small : L * H ≤ 2 ^ 32

abbrev pub canvas : ℕ → ℕ → ℕ → ℕ → Canvas DoubleBuffer
canvas W H L color = record {
  IsValid = IsShadow W H L;
  pixel = λ db x y. db.vram_shadow (y * L + x);
  width = W;
  height = H;
  color = color;
}

next_line : (a b L : ℕ) → a < b → a * L + L ≤ b * L
next_line a b L h = grind arith

pub same_place :
    (px py qx qy L : ℕ)
    → px < L
    → qx < L
    → (py * L + px == qy * L + qx) ≡ ((px == qx) && (py == qy))
same_place px py qx qy L p q = grind (arith, next_line py qy L, next_line qy py L)

pub in_shadow : (px py W H L : ℕ) → px < W → py < H → W ≤ L → py * L + px < L * H
in_shadow px py W H L x y l = grind (arith, next_line py H L)

pub apart :
    (px py qx qy W H : ℕ)
    → (ltb px W && ltb py H) ≡ false
    → qx < W
    → qy < H
    → ((px == qx) && (py == qy)) ≡ false
apart px py qx qy W H out w h = ground arith

module _ (W H L color : ℕ) where
  set_shadow-Paints :
      (px py : ℕ) (db : DoubleBuffer)
      → IsShadow W H L db
      → px < W
      → py < H
      → Paints
          (canvas W H L color)
          db
          (set_shadow (py * L + px) color db)
          (λ qx qy. (px == qx) && (py == qy))
  set_shadow-Paints px py db v x y = record {
    after = record db { vram_shadow = λ i. if py * L + px == i then color else db.vram_shadow i };
    returns = if-eq_true _ (
        lt→ltb (py * L + px) db.size
          (subst (λ n. py * L + px < n) (sym v.size) (in_shadow px py W H L x y v.line)));
    valid = record {
      width = v.width;
      height = v.height;
      scanline = v.scanline;
      size = v.size;
      line = v.line;
      small = v.small;
    };
    pixels = λ qx qy w h.
        ap (λ b. if b then color else db.vram_shadow (qy * L + qx))
          (same_place px py qx qy L (omega (arith, v.line)) (omega (arith, v.line)));
  }

  out_of_shadow :
      (px py : ℕ) (db : DoubleBuffer)
      → IsShadow W H L db
      → (ltb px W && ltb py H) ≡ false
      → Paints (canvas W H L color) db (some db) (λ qx qy. (px == qx) && (py == qy))
  out_of_shadow px py db v out = record {
    after = db;
    returns = refl;
    valid = v;
    pixels = λ qx qy w h.
        ap (λ b. if b then color else db.vram_shadow (qy * L + qx))
          (sym (apart px py qx qy W H out w h));
  }

  clipped :
      (index px py : ℕ) (db : DoubleBuffer)
      → IsShadow W H L db
      → (px < W → py < H → index ≡ py * L + px)
      → Paints
          (canvas W H L color)
          db
          (if ltb px db.width && ltb py db.height then set_shadow index color db else some db)
          (λ qx qy. (px == qx) && (py == qy))
  clipped index px py db v place =
      let P : Bool → Type 0 = λ b.
        Paints (canvas W H L color) db (if b then set_shadow index color db else some db)
          (λ qx qy. (px == qx) && (py == qy)) in
      subst P (ap₂ (λ (w h : ℕ). ltb px w && ltb py h) (sym v.width) (sym v.height))
        (elim (Bool-cases (ltb px W && ltb py H)) [
          | inr out ↦ subst P (sym out) (out_of_shadow px py db v out)
          | inl within ↦
              let x : px < W = ground arith in
              let y : py < H = ground arith in
              subst P (sym within) (
                subst
                  (λ (i : ℕ).
                    Paints (canvas W H L color) db (set_shadow i color db)
                      (λ qx qy. (px == qx) && (py == qy)))
                  (sym (place x y)) (set_shadow-Paints px py db v x y))
        ])

  put_rect_db-IsPen : IsPen (canvas W H L color) (put_rect_db color)
  unfolding put_rect_db
  put_rect_db-IsPen px py db v =
      clipped (py * db.scanline + px) px py db v (λ x y. ap (λ l. py * l + px) v.scanline)

  pub put_char_db-IsPen : IsPen (canvas W H L color) (put_char_db color)
  unfolding put_char_db
  put_char_db-IsPen px py db v = clipped (u32 (db.scanline * py + px)) px py db v (λ x y.
      ap (λ l. u32 (l * py + px)) v.scanline
      ∙ grind (arith, in_shadow px py W H L x y v.line, v.small))

  -- Filling a rectangle returns; it gives the colour to exactly the pixels of the rectangle that are
  -- on the screen.
  pub fill_rect_db_lem :
      (x y width height : ℕ) (db : DoubleBuffer)
      → x + width ≤ 2 ^ 32
      → y + height ≤ 2 ^ 32
      → IsShadow W H L db
      → Paints
          (canvas W H L color)
          db
          (fill_rect_db x y width height color db)
          (λ qx qy. in_range x width qx && in_range y height qy)
  unfolding fill_rect_db
  fill_rect_db_lem x y width height db xw yh v =
      repaint (canvas W H L color)
        (for_rect-Paints (canvas W H L color) (put_rect_db color) (λ dx dy. true) x y width height
          put_rect_db-IsPen xw yh db v)
        (λ qx qy. ap (λ b. in_range x width qx && b) (and_true (in_range y height qy)))

  -- The two functions that fill a rectangle are one.
  draw_rect_db_lem :
      (x y width height : ℕ) (db : DoubleBuffer)
      → draw_rect_db x y width height color db ≡ fill_rect_db x y width height color db
  unfolding draw_rect_db fill_rect_db
  draw_rect_db_lem x y width height db = refl
