-- ===== src/Draw/Paint.antt =====
-- What a drawing operation does to a canvas, whatever its representation: it returns, and afterwards
-- the pixels that it hits have the colour and the others what they had. Loops and text are put
-- together from such operations.
use forward_os_kernel_base.Base.{
  ℕ, zero, suc, ◌+◌, ◌-◌, ◌^◌, ◌≤◌, ◌<◌, ◌≡◌, ◌≢◌, refl, sym, ap, ap₂, ◌∙◌, arith,
}
use forward_os_kernel_base.Base.{
  Bool, true, false, ◌&&◌, ◌||◌, ◌==◌, in_range, if◌then◌else◌, Option, some,
}
use forward_os_kernel_base.Base.{Bool-cases, inl, inr, ==→≡, ==→≢, u32}
use forward_os_kernel_base.Draw.{for_each, for_rect}

pub record Canvas (S : Type 0) : Type 1 where
  pub IsValid : S → Type 0
  pub pixel : S → ℕ → ℕ → ℕ
  pub width : ℕ
  pub height : ℕ
  pub color : ℕ

pub record Paints {S : Type 0} (k : Canvas S) (s : S) (r : Option S) (hit : ℕ → ℕ → Bool)
    : Type 0 where
  pub after : S
  pub returns : r ≡ some after
  pub valid : k.IsValid after
  pub pixels :
      (qx qy : ℕ)
      → qx < k.width
      → qy < k.height
      → k.pixel after qx qy ≡ (if hit qx qy then k.color else k.pixel s qx qy)

-- An operation that sets one pixel, where it is on the canvas.
abbrev pub IsPen : {S : Type 0} → Canvas S → (ℕ → ℕ → S → Option S) → Type 0
IsPen k put =
    (px py : ℕ) (s : _) → k.IsValid s → Paints k s (put px py s) (λ qx qy. (px == qx) && (py == qy))

pub any : (ℕ → Bool) → ℕ → ℕ → Bool
any test i zero = false
any test i (suc n) = any test (suc i) n || test i

any_ext : (f g : ℕ → Bool) (i n : ℕ) → ((j : ℕ) → f j ≡ g j) → any f i n ≡ any g i n
unfolding any
any_ext f g i zero e = refl
any_ext f g i (suc n) e = ap₂ (λ a b. a || b) (any_ext f g (suc i) n e) (e i)

in_range-zero : (s q : ℕ) → in_range s 0 q ≡ false
in_range-zero s q = ground arith

in_range-first : (s n q : ℕ) → s ≡ q → in_range s (suc n) q ≡ true
in_range-first s n q e = ground arith

in_range-later : (s n q : ℕ) → s ≡ q → in_range (suc s) n q ≡ false
in_range-later s n q e = ground arith

in_range-other : (s n q : ℕ) → s ≢ q → in_range s (suc n) q ≡ in_range (suc s) n q
in_range-other s n q ne = ground arith

pub or_false : (a : Bool) → (a || false) ≡ a
or_false true = refl
or_false false = refl

-- Of the numbers `x + i, x + i + 1, ..` at most one is `q`.
any-at :
    (c : ℕ → Bool) (x q i n : ℕ)
    → any (λ j. (x + j == q) && c j) i n ≡ in_range (x + i) n q && c (q - x)
unfolding any
any-at c x q i zero = rw (in_range-zero (x + i) q) refl
any-at c x q i (suc n) = elim (Bool-cases (x + i == q)) [
  | inl at ↦
      let e : x + i ≡ q = ==→≡ (x + i) q at in
      let this : i ≡ q - x = omega arith in
      ap (λ b. b || ((x + i == q) && c i))
        (any-at c x q (suc i) n ∙ ap (λ b. b && c (q - x)) (later e))
      ∙ ap (λ b. b && c i) at
      ∙ ap c this
      ∙ ap (λ b. b && c (q - x)) (sym (in_range-first (x + i) n q e))
  | inr away ↦
      ap₂ (λ a b. a || (b && c i)) (any-at c x q (suc i) n) away
      ∙ or_false (in_range (x + suc i) n q && c (q - x))
      ∙ ap (λ b. b && c (q - x)) (sym (other (==→≢ (x + i) q away)))
]
  where
    later : x + i ≡ q → in_range (x + suc i) n q ≡ false
    later e = ap (λ s. in_range s n q) (omega arith) ∙ in_range-later (x + i) n q e

    other : x + i ≢ q → in_range (x + i) (suc n) q ≡ in_range (x + suc i) n q
    other ne = in_range-other (x + i) n q ne ∙ ap (λ s. in_range s n q) (omega arith)

pub and_true : (a : Bool) → (a && true) ≡ a
and_true true = refl
and_true false = refl

and_false : (a : Bool) → (a && false) ≡ false
and_false true = refl
and_false false = refl

and_assoc : (a b c : Bool) → ((a && b) && c) ≡ (a && (b && c))
and_assoc true b c = refl
and_assoc false b c = refl

and_swap : (a b c : Bool) → (a && (b && c)) ≡ (b && (a && c))
and_swap true b c = refl
and_swap false true c = refl
and_swap false false c = refl

abbrev dot : ℕ → ℕ → (ℕ → ℕ → Bool) → ℕ → ℕ → ℕ → ℕ → Bool
dot x y test dx dy qx qy = (x + dx == qx) && ((y + dy == qy) && test dx dy)

any_at_0 :
    (c : ℕ → Bool) (x q n : ℕ) → any (λ j. (x + j == q) && c j) 0 n ≡ in_range x n q && c (q - x)
any_at_0 c x q n =
    let e : x + 0 ≡ x = omega arith in any-at c x q 0 n ∙ ap (λ s. in_range s n q && c (q - x)) e

any-dots :
    (x y w h : ℕ) (test : ℕ → ℕ → Bool) (qx qy : ℕ)
    → any (λ dy. any (λ dx. dot x y test dx dy qx qy) 0 w) 0 h
      ≡ (in_range x w qx && (in_range y h qy && test (qx - x) (qy - y)))
any-dots x y w h test qx qy =
    any_ext _ (λ dy. (y + dy == qy) && (in_range x w qx && test (qx - x) dy)) 0 h
      (λ dy.
        any_at_0 (λ dx. (y + dy == qy) && test dx dy) x qx w
        ∙ and_swap (in_range x w qx) (y + dy == qy) (test (qx - x) dy))
    ∙ any_at_0 (λ dy. in_range x w qx && test (qx - x) dy) y qy h
    ∙ and_swap (in_range y h qy) (in_range x w qx) (test (qx - x) (qy - y))

pub if-or :
    {A : Type 0} (a b : Bool) (x y : A)
    → (if a then x else if b then x else y) ≡ (if a || b then x else y)
if-or true b x y = refl
if-or false b x y = refl

module _ {S : Type 0} (k : Canvas S) where
  pub paint_none : (s : S) → k.IsValid s → Paints k s (some s) (λ qx qy. false)
  paint_none s v = record { after = s; returns = refl; valid = v; pixels = λ qx qy w h. refl }

  pub repaint :
      {s : S} {r : Option S} {hit hit' : ℕ → ℕ → Bool}
      → Paints k s r hit
      → ((qx qy : ℕ) → hit qx qy ≡ hit' qx qy)
      → Paints k s r hit'
  repaint {s} p e = record {
    after = p.after;
    returns = p.returns;
    valid = p.valid;
    pixels = λ qx qy w h.
        p.pixels qx qy w h ∙ ap (λ b. if b then k.color else k.pixel s qx qy) (e qx qy);
  }

  for_each-Paints :
      (body : ℕ → S → Option S) (hits : ℕ → ℕ → ℕ → Bool) (i n : ℕ)
      → ((j : ℕ) → j < i + n → (s : S) → k.IsValid s → Paints k s (body j s) (hits j))
      → (s : S) → k.IsValid s
      → Paints k s (for_each body i n s) (λ qx qy. any (λ j. hits j qx qy) i n)
  unfolding for_each any
  for_each-Paints body hits i zero step s v = paint_none s v
  for_each-Paints body hits i (suc n) step s v =
      let one = step i (omega arith) s v in
      let rest =
        for_each-Paints body hits (suc i) n (λ j h. step j (omega arith)) one.after one.valid in
      record {
        after = rest.after;
        returns = rw (one.returns, for_each) rest.returns;
        valid = rest.valid;
        pixels = λ qx qy w h.
            rest.pixels qx qy w h
            ∙ ap (λ p. if any (λ j. hits j qx qy) (suc i) n then k.color else p)
                (one.pixels qx qy w h)
            ∙ if-or (any (λ j. hits j qx qy) (suc i) n) (hits i qx qy) k.color (k.pixel s qx qy);
      }

  paint_when :
      {s : S} {r : Option S} {hit : ℕ → ℕ → Bool} (t : Bool)
      → k.IsValid s
      → Paints k s r hit
      → Paints k s (if t then r else some s) (λ qx qy. hit qx qy && t)
  paint_when true v p = repaint p (λ qx qy. sym (and_true _))
  paint_when {s} {r} {hit} false v p =
      repaint (paint_none s v) (λ qx qy. sym (and_false (hit qx qy)))

  paint_dot :
      (put : ℕ → ℕ → S → Option S) (test : ℕ → ℕ → Bool) (x y dx dy : ℕ)
      → IsPen k put
      → x + dx < 2 ^ 32
      → y + dy < 2 ^ 32
      → (s : S) → k.IsValid s
      → Paints k s
          (if test dx dy then put (u32 (x + dx)) (u32 (y + dy)) s else some s)
          (dot x y test dx dy)
  paint_dot put test x y dx dy pen xw yh s v =
      repaint (paint_when (test dx dy) v (pen (u32 (x + dx)) (u32 (y + dy)) s v)) (λ qx qy.
        ap₂ (λ (a b : ℕ). ((a == qx) && (b == qy)) && test dx dy) (omega arith) (omega arith)
        ∙ and_assoc (x + dx == qx) (y + dy == qy) (test dx dy))

  -- A rectangle of pixels, those of them for which `test` is true.
  pub for_rect-Paints :
      (put : ℕ → ℕ → S → Option S) (test : ℕ → ℕ → Bool) (x y w h : ℕ)
      → IsPen k put
      → x + w ≤ 2 ^ 32
      → y + h ≤ 2 ^ 32
      → (s : S) → k.IsValid s
      → Paints k s
          (for_rect
            (λ dx dy s'. if test dx dy then put (u32 (x + dx)) (u32 (y + dy)) s' else some s')
            w
            h
            s)
          (λ qx qy. in_range x w qx && (in_range y h qy && test (qx - x) (qy - y)))
  unfolding for_rect
  for_rect-Paints put test x y w h pen xw yh s v =
      repaint
        (for_each-Paints
          (λ dy.
            for_each (λ dx s'. if test dx dy then put (u32 (x + dx)) (u32 (y + dy)) s' else some s')
              0 w)
          (λ dy qx qy. any (λ dx. dot x y test dx dy qx qy) 0 w) 0 h
          (λ dy below.
            for_each-Paints
              (λ dx s'. if test dx dy then put (u32 (x + dx)) (u32 (y + dy)) s' else some s')
              (λ dx. dot x y test dx dy) 0 w
              (λ dx left s' v'. paint_dot put test x y dx dy pen (omega arith) (omega arith) s' v'))
          s v)
        (λ qx qy. any-dots x y w h test qx qy)
