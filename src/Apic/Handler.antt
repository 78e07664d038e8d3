-- ===== src/Apic/Handler.antt =====
-- The keyboard's interrupt: a code for the reader, a wake-up, and the acknowledgement.
use forward_os_kernel_base.Base.{
  ℕ, ◌+◌, ◌≡◌, refl, ltb, if◌then◌else◌, Bool, true, false, [], ◌∷◌, ◌++◌, length,
}
use forward_os_kernel_base.Async.{Cpu}
use forward_os_kernel_base.Apic.{Apic, apic_eoi, wake_keyboard, keyboard_handler}
use forward_os_kernel_base.Keys.{KeyBuffer}
use forward_os_kernel_base.Keys.Queue.{IsRing, contents, put_key_lem}

woken_and_acknowledged :
    {E : Type 0} (write_volatile : ℕ → ℕ → E → E) (in_port : ℕ → E → ℕ × E) (base : ℕ)
    (waker eoi : Bool) (k : KeyBuffer) (c : Cpu E)
    → let a : Apic = record { apic_base = base; keyboard_waker = waker; eoi_callback = eoi } in
      let c' = (keyboard_handler write_volatile in_port a k c).1 in
      (c'.woken ≡ true)
      × (c'.env ≡ (
          if eoi
          then write_volatile (base + 0xB0) 0 (in_port 0x60 c.env).1
          else (in_port 0x60 c.env).1))
unfolding keyboard_handler wake_keyboard apic_eoi
woken_and_acknowledged write_volatile in_port base true true k c = (refl, refl)
woken_and_acknowledged write_volatile in_port base true false k c = (refl, refl)
woken_and_acknowledged write_volatile in_port base false true k c = (refl, refl)
woken_and_acknowledged write_volatile in_port base false false k c = (refl, refl)

-- The handler takes one code from the port and puts it behind those that wait, or loses it with
-- fifteen waiting; the executor is woken, whether or not a waker has been registered; and the
-- interrupt is acknowledged where the local controller has been set up, after the port was read.
pub keyboard_handler_lem :
    {E : Type 0} (write_volatile : ℕ → ℕ → E → E) (in_port : ℕ → E → ℕ × E) (a : Apic)
    (k : KeyBuffer) (c : Cpu E)
    → IsRing k
    → let (sc, e) = in_port 0x60 c.env in
      let (k', c') = keyboard_handler write_volatile in_port a k c in
      (contents k' ≡ (if ltb (length (contents k)) 15 then contents k ++ (sc ∷ []) else contents k))
      × IsRing k'
      × (c'.woken ≡ true)
      × (c'.env ≡ (if a.eoi_callback then write_volatile (a.apic_base + 0xB0) 0 e else e))
unfolding keyboard_handler wake_keyboard
keyboard_handler_lem write_volatile in_port a k c w =
    let queued = put_key_lem k (in_port 0x60 c.env).0 w in
    let ends =
      woken_and_acknowledged write_volatile in_port a.apic_base a.keyboard_waker a.eoi_callback k
        c in
    (queued.0, queued.1, ends.0, ends.1)
