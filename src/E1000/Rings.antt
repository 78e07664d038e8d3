-- ===== src/E1000/Rings.antt =====
-- What the controller does with the ring of receive descriptors, as its manual says: it owns the
-- descriptors from RDH up to RDT, RDT itself not, and fills the one at RDH with the next frame.
use forward_os_kernel_base.Base.{ℕ, zero, suc, ◌+◌, ◌%◌, ◌<◌, ◌≡◌, ◌≢◌, refl, ap, ap₂, ◌∙◌, arith}
use forward_os_kernel_base.Base.{
  Bool, true, false, not, ◌==◌, if◌then◌else◌, none, some, List, [], ◌∷◌, ◌++◌, bit_and,
}
use forward_os_kernel_base.E1000.{E1000, rx_desc_count, slice_bytes, receive}

abbrev pub rdh : E1000 → ℕ
rdh n = n.reg 0x2810

abbrev pub rdt : E1000 → ℕ
rdt n = n.reg 0x2818

-- The frame that the descriptor with this number tells of, and whether it tells of one.
abbrev pub frame_at : E1000 → ℕ → List ℕ
frame_at n i = slice_bytes n (i, (n.rx_descs i).length)

abbrev pub is_done : E1000 → ℕ → Bool
is_done n i = not (bit_and (n.rx_descs i).status 1 == 0)

-- The controller receives a frame.
pub record Delivers (n n' : E1000) (frame : List ℕ) : Type 0 where
  pub room : rdh n ≢ rdt n
  pub regs : (o : ℕ) → n'.reg o ≡ (if o == 0x2810 then (rdh n + 1) % rx_desc_count else n.reg o)
  pub filled : frame_at n' (rdh n) ≡ frame
  pub done : is_done n' (rdh n) ≡ true
  pub others :
      (i : ℕ)
      → (rdh n == i) ≡ false
      → (n'.rx_descs i ≡ n.rx_descs i) × (n'.rx_buffers i ≡ n.rx_buffers i)

-- The life of the receive ring, from `start` on: what the controller delivered, what the driver
-- returned, in order, and the state after it.
pub data Run (start : E1000) : List (List ℕ) → List (List ℕ) → E1000 → Type 0 where
  begin : Run start [] [] start
  delivers :
      {i o : List (List ℕ)} {n n' : E1000} (frame : List ℕ)
      → Run start i o n
      → Delivers n n' frame
      → Run start (i ++ (frame ∷ [])) o n'
  returns :
      {i o : List (List ℕ)} {n : E1000} (s : ℕ × ℕ) (n' : E1000)
      → Run start i o n
      → receive n ≡ (some s, n')
      → Run start i (o ++ (slice_bytes n s ∷ [])) n'
  finds_none :
      {i o : List (List ℕ)} {n : E1000} (n' : E1000)
      → Run start i o n
      → receive n ≡ (none, n')
      → Run start i o n'

-- The elements of a ring of 32 from place `t` on.
unfoldable pub ring_list : (ℕ → List ℕ) → ℕ → ℕ → List (List ℕ)
ring_list f t zero = []
ring_list f t (suc n) = f t ∷ ring_list f ((t + 1) % 32) n

pub ring_list-zero : (f : ℕ → List ℕ) (t : ℕ) → ring_list f t 0 ≡ []
unfolding ring_list
ring_list-zero f t = refl

pub ring_list-cons :
    (f : ℕ → List ℕ) (t n : ℕ) → ring_list f t (suc n) ≡ f t ∷ ring_list f ((t + 1) % 32) n
unfolding ring_list
ring_list-cons f t n = refl

pub ring_list-suc :
    (f : ℕ → List ℕ) (t n : ℕ)
    → t < 32
    → ring_list f t (suc n) ≡ ring_list f t n ++ (f ((t + n) % 32) ∷ [])
unfolding ring_list
ring_list-suc f t zero h = ap (λ (x : ℕ). f x ∷ []) (omega arith)
ring_list-suc f t (suc n) h =
    ap (λ l. f t ∷ l)
      (ring_list-suc f ((t + 1) % 32) n (omega arith)
        ∙ ap (λ (x : ℕ). ring_list f ((t + 1) % 32) n ++ (f x ∷ [])) (omega arith))

pub ring_list_ext :
    (f g : ℕ → List ℕ) (t n : ℕ)
    → t < 32
    → ((i : ℕ) → i < n → f ((t + i) % 32) ≡ g ((t + i) % 32))
    → ring_list f t n ≡ ring_list g t n
unfolding ring_list
ring_list_ext f g t zero h e = refl
ring_list_ext f g t (suc n) h e =
    ap₂ (λ x l. x ∷ l) (ap f (omega arith) ∙ e 0 (omega arith) ∙ ap g (omega arith))
      (ring_list_ext f g ((t + 1) % 32) n (omega arith)
        (λ i below. ap f (omega arith) ∙ e (i + 1) (omega arith) ∙ ap g (omega arith)))
