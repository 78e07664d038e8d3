-- ===== src/E1000/Receive.antt =====
-- The driver returns the frames in the order in which the controller delivers them.
use forward_os_kernel_base.Base.{
  ℕ, suc, ◌+◌, ◌-◌, ◌%◌, ◌<◌, ◌≡◌, ◌≢◌, refl, sym, ap, ap₂, subst, ◌∙◌, arith,
}
use forward_os_kernel_base.Base.{
  true, false, not, ltb, ◌==◌, if-eq_false, none, some, List, [], ◌∷◌, ◌++◌, take,
}
use forward_os_kernel_base.Base.{
  bit_and, Bool-cases, inl, inr, ==→≡, ==→≢, lt→ltb, ge→ltb, if-eq_true, ◌⊎◌,
}
use mathlib.Core.List.{append_assoc}
use mathlib.Core.Option.{some-injective}
use forward_os_kernel_base.E1000.{update, E1000, RxDesc, setup_rx, receive, slice_bytes}
use forward_os_kernel_base.E1000.Rings.{
  rdh, rdt, frame_at, is_done, Delivers, Run, begin, delivers, returns, finds_none,
}
use forward_os_kernel_base.E1000.Rings.{
  ring_list, ring_list-zero, ring_list-cons, ring_list-suc, ring_list_ext,
}

-- The first descriptor that the driver looks at, how many wait from there on, and their frames.
abbrev pub first : E1000 → ℕ
first n = (rdt n + 1) % 32

abbrev pub count : E1000 → ℕ
count n = (rdh n + 31 - rdt n) % 32

abbrev pub waiting : E1000 → List (List ℕ)
waiting n = ring_list (frame_at n) (first n) (count n)

-- Exactly the descriptors that wait are marked.
pub record IsRing (n : E1000) : Type 0 where
  pub head : rdh n < 32
  pub tail : rdt n < 32
  pub marks : (i : ℕ) → i < 32 → is_done n ((first n + i) % 32) ≡ ltb i (count n)

ltb-suc : (i k k' : ℕ) → i ≢ k → k' ≡ suc k → ltb i k ≡ ltb i k'
ltb-suc i k k' ne e = ground arith

≢→== : (a b : ℕ) → a ≢ b → (a == b) ≡ false
≢→== a b ne = ground arith

ltb-pred : (i k k' : ℕ) → suc k' ≡ k → ltb (i + 1) k ≡ ltb i k'
ltb-pred i k k' e = ground arith

setup_rx-IsRing :
    (desc buf : ℕ) (n : E1000) → IsRing (setup_rx desc buf n) × (count (setup_rx desc buf n) ≡ 0)
unfolding setup_rx
setup_rx-IsRing desc buf n =
    (record { head = omega arith; tail = omega arith; marks = λ i h. ground arith }, refl)

module _ (n n' : E1000) (frame : List ℕ) (d : Delivers n n' frame) (r : IsRing n) where
  same_tail : rdt n' ≡ rdt n
  same_tail = d.regs 0x2818

  new_head : rdh n' ≡ (rdh n + 1) % 32
  new_head = d.regs 0x2810

  count-deliver : count n' ≡ suc (count n)
  count-deliver = omega (arith, same_tail, new_head, r.head, r.tail, d.room)

  last_is : (first n + count n) % 32 ≡ rdh n
  last_is = omega (arith, r.head, r.tail)

  same_first : first n' ≡ first n
  same_first = ap (λ (x : ℕ). (x + 1) % 32) same_tail

  before_head : (i : ℕ) → i < count n → (rdh n == (first n + i) % 32) ≡ false
  before_head i below = ≢→== (rdh n) ((first n + i) % 32) (λ e. omega (arith, r.head, r.tail))

  -- A descriptor apart from the one that was filled.
  same_done : (i : ℕ) → (rdh n == i) ≡ false → is_done n' i ≡ is_done n i
  same_done i h = ap (λ (x : RxDesc). not (bit_and x.status 1 == 0)) (d.others i h).0

  same_frame : (i : ℕ) → (rdh n == i) ≡ false → frame_at n' i ≡ frame_at n i
  same_frame i h =
      ap₂ (λ (x : RxDesc) (b : List ℕ). take x.length b) (d.others i h).0 (d.others i h).1

  marks-deliver : (i : ℕ) → i < 32 → is_done n' ((first n' + i) % 32) ≡ ltb i (count n')
  marks-deliver i h = elim (Bool-cases (rdh n == (first n + i) % 32)) [
    | inl at ↦
        let e = ==→≡ (rdh n) ((first n + i) % 32) at in
        ap (λ (x : ℕ). is_done n' ((x + i) % 32)) same_first
        ∙ ap (is_done n') (sym e)
        ∙ d.done
        ∙ sym (lt→ltb i (count n') (omega (arith, count-deliver, r.head, r.tail)))
    | inr away ↦
        let ne : i ≢ count n = λ same.
          ==→≢ (rdh n) ((first n + i) % 32) away
            (sym last_is ∙ ap (λ (x : ℕ). (first n + x) % 32) (sym same)) in
        ap (λ (x : ℕ). is_done n' ((x + i) % 32)) same_first
        ∙ same_done ((first n + i) % 32) away
        ∙ r.marks i h
        ∙ ltb-suc i (count n) (count n') ne count-deliver
  ]

  deliver-IsRing : IsRing n'
  deliver-IsRing = record {
    head = omega (arith, new_head);
    tail = omega (arith, same_tail, r.tail);
    marks = marks-deliver;
  }

  deliver-waiting : waiting n' ≡ waiting n ++ (frame ∷ [])
  deliver-waiting =
      ap₂ (λ (t k : ℕ). ring_list (frame_at n') t k) same_first count-deliver
      ∙ ring_list-suc (frame_at n') (first n) (count n) (omega arith)
      ∙ ap₂ (λ l x. l ++ (x ∷ []))
          (ring_list_ext (frame_at n') (frame_at n) (first n) (count n) (omega arith)
            (λ i below. same_frame ((first n + i) % 32) (before_head i below)))
          (ap (frame_at n') last_is ∙ d.filled)

-- The state after a frame was returned.
abbrev taken : E1000 → E1000
taken n = record n {
  rx_descs = update n.rx_descs (first n) (record (n.rx_descs (first n)) { status = 0 });
  reg = update n.reg 0x2818 (first n);
}

receive_branches :
    (n : E1000)
    → ((receive n ≡ (none, n)) × (is_done n (first n) ≡ false))
      ⊎ ((receive n ≡ (some (first n, (n.rx_descs (first n)).length), taken n))
          × (is_done n (first n) ≡ true))
unfolding receive
receive_branches n = elim (Bool-cases (bit_and (n.rx_descs (first n)).status 1 == 0)) [
  | inl unset ↦ inl (rw (unset, receive), ground (arith, unset))
  | inr set ↦ inr (rw (set, receive), ground (arith, set))
]

module _ (n : E1000) (r : IsRing n) where
  count-taken : 0 < count n → suc (count (taken n)) ≡ count n
  count-taken some_wait = omega (arith, r.head, r.tail)

  marks-taken :
      0 < count n
      → (i : ℕ) → i < 32
      → is_done (taken n) ((first (taken n) + i) % 32) ≡ ltb i (count (taken n))
  marks-taken some_wait i h = elim (Bool-cases (first n == (first (taken n) + i) % 32)) [
    | inl at ↦
        ap (λ (x : RxDesc). not (bit_and x.status 1 == 0)) (if-eq_true _ at)
        ∙ sym (
            ge→ltb i (count (taken n)) (
              omega (
                arith,
                ==→≡ (first n) ((first (taken n) + i) % 32) at,
                count-taken some_wait,
                r.tail,
              )))
    | inr away ↦
        let later : i + 1 < 32 =
          omega (arith, ==→≢ (first n) ((first (taken n) + i) % 32) away, r.tail) in
        ap (λ (x : RxDesc). not (bit_and x.status 1 == 0)) (if-eq_false _ away)
        ∙ ap (is_done n) (omega arith)
        ∙ r.marks (i + 1) later
        ∙ ltb-pred i (count n) (count (taken n)) (count-taken some_wait)
  ]

  taken-IsRing : 0 < count n → IsRing (taken n)
  taken-IsRing some_wait = record {
    head = r.head;
    tail = omega arith;
    marks = marks-taken some_wait;
  }

  frame-taken : (x : ℕ) → frame_at (taken n) x ≡ frame_at n x
  frame-taken x = elim (Bool-cases (first n == x)) [
    | inl same ↦
        ap (λ (y : RxDesc). take y.length (n.rx_buffers x)) (if-eq_true _ same)
        ∙ ap (λ (y : ℕ). take (n.rx_descs y).length (n.rx_buffers x)) (==→≡ (first n) x same)
    | inr other ↦ ap (λ (y : RxDesc). take y.length (n.rx_buffers x)) (if-eq_false _ other)
  ]

  taken-waiting : 0 < count n → waiting n ≡ frame_at n (first n) ∷ waiting (taken n)
  taken-waiting some_wait =
      ap (ring_list (frame_at n) (first n)) (sym (count-taken some_wait))
      ∙ ring_list-cons (frame_at n) (first n) (count (taken n))
      ∙ ap (λ l. frame_at n (first n) ∷ l)
          (ring_list_ext (frame_at n) (frame_at (taken n)) (first (taken n)) (count (taken n))
            (omega arith) (λ i below. sym (frame-taken ((first (taken n) + i) % 32))))

  any_wait : is_done n (first n) ≡ ltb 0 (count n)
  any_wait = ap (is_done n) (omega (arith, r.tail)) ∙ r.marks 0 (omega arith)

  -- The driver finds nothing exactly when nothing waits.
  receive_cases :
      ((receive n ≡ (none, n)) × (count n ≡ 0))
      ⊎ ((receive n ≡ (some (first n, (n.rx_descs (first n)).length), taken n)) × (0 < count n))
  receive_cases = elim (receive_branches n) [
    | inl (nothing, unset) ↦ inl (nothing, ground (arith, any_wait, unset))
    | inr (one, set) ↦ inr (one, ground (arith, any_wait, set))
  ]

-- What the driver returned, and then what waits, is what the controller delivered, in order; from
-- the setup of the ring on, whatever the order of deliveries and calls.
pub Run_lem :
    {start n : E1000} {i o : List (List ℕ)}
    → IsRing start
    → count start ≡ 0
    → Run start i o n
    → IsRing n × (o ++ waiting n ≡ i)
Run_lem {start} r empty begin = (r, rw empty (ring_list-zero (frame_at start) (first start)))
Run_lem r empty (delivers {i} {o} {n} {n'} frame run d) =
    let (ring, order) = Run_lem r empty run in
    (
      deliver-IsRing n n' frame d ring,
      ap (λ l. o ++ l) (deliver-waiting n n' frame d ring)
          ∙ sym (append_assoc o (waiting n) (frame ∷ []))
          ∙ ap (λ l. l ++ (frame ∷ [])) order,
    )
Run_lem r empty (returns {i} {o} {n} s n' run h) =
    let (ring, order) = Run_lem r empty run in
    elim (receive_cases n ring) [
      | inl (nothing, zero_wait) ↦ ground (arith, sym nothing ∙ h)
      | inr (one, some_wait) ↦
          let same : taken n ≡ n' = ap (λ p. p.1) (sym one ∙ h) in
          let frame : frame_at n (first n) ≡ slice_bytes n s =
            ap (slice_bytes n) (some-injective _ _ (ap (λ p. p.0) (sym one ∙ h))) in
          (
            subst IsRing same (taken-IsRing n ring some_wait),
            subst (λ m. (o ++ (slice_bytes n s ∷ [])) ++ waiting m ≡ i) same
                (append_assoc o (slice_bytes n s ∷ []) (waiting (taken n))
                  ∙ ap (λ (x : List ℕ). o ++ (x ∷ waiting (taken n))) (sym frame)
                  ∙ ap (λ l. o ++ l) (sym (taken-waiting n ring some_wait))
                  ∙ order),
          )
    ]
Run_lem r empty (finds_none {i} {o} {n} n' run h) =
    let (ring, order) = Run_lem r empty run in
    elim (receive_cases n ring) [
      | inr (one, some_wait) ↦ ground (arith, sym one ∙ h)
      | inl (nothing, zero_wait) ↦
          let same : n ≡ n' = ap (λ p. p.1) (sym nothing ∙ h) in
          subst (λ m. IsRing m × (o ++ waiting m ≡ i)) same (ring, order)
    ]

-- In every run from the setup of the ring on, the frames that the driver returned, in the order in
-- which it returned them, followed by those that wait in the ring, are the frames that the
-- controller delivered, in the order in which it delivered them.
pub receive_in_order :
    (desc buf : ℕ) (n : E1000) {n' : E1000} {i o : List (List ℕ)}
    → Run (setup_rx desc buf n) i o n'
    → o ++ waiting n' ≡ i
receive_in_order desc buf n run =
    (Run_lem (setup_rx-IsRing desc buf n).0 (setup_rx-IsRing desc buf n).1 run).1

deliver-keeps_tail :
    (n n' n'' : E1000) (frame : List ℕ)
    → Delivers n' n'' frame
    → taken n ≡ n'
    → (n''.rx_buffers (first n) ≡ n.rx_buffers (first n)) × (rdt n'' ≡ first n)
deliver-keeps_tail n n' n'' frame d same =
    let tail : rdt n' ≡ first n = ap rdt (sym same) in
    let away : (rdh n' == first n) ≡ false = ≢→== (rdh n') (first n) (λ e. d.room (e ∙ sym tail)) in
    (
      (d.others (first n) away).1 ∙ ap (λ (m : E1000). m.rx_buffers (first n)) (sym same),
      d.regs 0x2818 ∙ tail,
    )

-- A slice that the driver returned keeps its bytes while the controller delivers a further frame:
-- its buffer is that of the descriptor at RDT, which is not filled.
deliver-keeps_returned :
    (n n' n'' : E1000) (s : ℕ × ℕ) (frame : List ℕ)
    → receive n ≡ (some s, n')
    → Delivers n' n'' frame
    → (slice_bytes n'' s ≡ slice_bytes n s) × (rdt n'' ≡ s.0)
deliver-keeps_returned n n' n'' s frame h d = elim (receive_branches n) [
  | inl (nothing, unset) ↦ ground (arith, sym nothing ∙ h)
  | inr (one, set) ↦
      let is : (some (first n, (n.rx_descs (first n)).length), taken n) ≡ (some s, n') =
        sym one ∙ h in
      let slice : (first n, (n.rx_descs (first n)).length) ≡ s =
        some-injective _ _ (ap (λ p. p.0) is) in
      let (kept, tail) = deliver-keeps_tail n n' n'' frame d (ap (λ p. p.1) is) in
      subst (λ x. (slice_bytes n'' x ≡ slice_bytes n x) × (rdt n'' ≡ x.0)) slice
        (ap (take (n.rx_descs (first n)).length) kept, tail)
]
