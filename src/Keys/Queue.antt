-- ===== src/Keys/Queue.antt =====
-- The ring is a queue of at most 15 scan codes.
use forward_os_kernel_base.Base.{
  ℕ, zero, suc, ◌+◌, ◌-◌, ◌%◌, ◌<◌, ◌≡◌, refl, ap, ap₂, arith, inl, inr,
}
use forward_os_kernel_base.Base.{
  true, false, if-eq_false, Bool-cases, ltb, ◌==◌, if◌then◌else◌, List, [], ◌∷◌, ◌++◌,
}
use forward_os_kernel_base.Base.{Bytes, set_byte, length, get_elem?, drop}
use forward_os_kernel_base.Keys.{KeyBuffer, get_key_from_buffer, put_key}

unfoldable pub queue : Bytes → ℕ → ℕ → List ℕ
queue keys t zero = []
queue keys t (suc n) = keys t ∷ queue keys ((t + 1) % 16) n

-- How many codes wait, and which, the oldest first.
abbrev pub waiting : KeyBuffer → ℕ
waiting k = (k.head + 16 - k.tail) % 16

unfoldable pub contents : KeyBuffer → List ℕ
unfolding queue
contents k = queue k.keys k.tail (waiting k)

pub record IsRing (k : KeyBuffer) : Type 0 where
  pub head : k.head < 16
  pub tail : k.tail < 16

length-queue : (keys : Bytes) (t n : ℕ) → length (queue keys t n) ≡ n
unfolding queue
length-queue keys t zero = refl
length-queue keys t (suc n) = ap suc (length-queue keys ((t + 1) % 16) n)

queue-set_byte :
    (keys : Bytes) (sc h t n : ℕ)
    → t < 16
    → n < 16
    → h ≡ (t + n) % 16
    → queue (set_byte keys h sc) t (suc n) ≡ queue keys t n ++ (sc ∷ [])
unfolding queue
queue-set_byte keys sc h t zero ht hn e = ground arith
queue-set_byte keys sc h t (suc n) ht hn e =
    let other : (h == t) ≡ false = ground arith in
    ap₂ (λ (x : ℕ) (l : List ℕ). x ∷ l) (if-eq_false sc other)
      (queue-set_byte keys sc h ((t + 1) % 16) n (omega arith) (omega arith) (omega arith))

-- Taking a key takes the oldest that waits, if one does, and the ring stays one.
pub get_key_from_buffer_lem :
    (k : KeyBuffer)
    → IsRing k
    → ((get_key_from_buffer k).0 ≡ get_elem? (contents k) 0)
      × (contents (get_key_from_buffer k).1 ≡ drop 1 (contents k))
      × IsRing (get_key_from_buffer k).1
unfolding get_key_from_buffer contents queue
get_key_from_buffer_lem k w = elim (Bool-cases (k.head == k.tail)) [
  | inl empty ↦
      let n : waiting k ≡ 0 = ground (arith, w.head, w.tail) in rw (empty, n) (refl, refl, w)
  | inr some_wait ↦
      let k' : KeyBuffer = record k { tail = (k.tail + 1) % 16 } in
      let n : waiting k ≡ suc (waiting k') = ground (arith, w.head, w.tail) in
      rw (some_wait, n) (refl, refl, record { head = w.head; tail = omega arith })
]

-- A key that comes waits behind the others; with 15 waiting it is lost. The ring stays one.
pub put_key_lem :
    (k : KeyBuffer) (sc : ℕ)
    → IsRing k
    → (contents (put_key k sc)
        ≡ (if ltb (length (contents k)) 15 then contents k ++ (sc ∷ []) else contents k))
      × IsRing (put_key k sc)
unfolding put_key contents
put_key_lem k sc w =
    let next = (k.head + 1) % 16 in
    let size = length-queue k.keys k.tail (waiting k) in
    elim (Bool-cases (next == k.tail)) [
      | inl full ↦
          let n : ltb (length (queue k.keys k.tail (waiting k))) 15 ≡ false =
            ground (arith, size, w.head, w.tail) in
          rw (full, n) (refl, w)
      | inr room ↦
          let k' : KeyBuffer = record k { keys = set_byte k.keys k.head sc; head = next } in
          let n : ltb (length (queue k.keys k.tail (waiting k))) 15 ≡ true =
            ground (arith, size, w.head, w.tail) in
          let grown : waiting k' ≡ suc (waiting k) = ground (arith, w.head, w.tail) in
          rw (room, n, grown)
            (
              queue-set_byte k.keys sc k.head k.tail (waiting k) w.tail (omega arith)
                  (omega (arith, w.head, w.tail)),
              record { head = omega arith; tail = w.tail },
            )
    ]
