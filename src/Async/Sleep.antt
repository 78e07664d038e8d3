-- ===== src/Async/Sleep.antt =====
-- Sleeping: never short, and over at last. The counter is taken to go up from each reading to the
-- next, as the processor's does.
use forward_os_kernel_base.Base.{ℕ, ◌+◌, ◌-◌, ◌*◌, ◌/◌, ◌^◌, ◌≤◌, ◌<◌, ◌≡◌, refl, ◌∙◌, arith}
use forward_os_kernel_base.Base.{Bool, leb, Option, some, u64, inl, inr, Bool-cases}
use forward_os_kernel_base.Async.{ready, Cpu, block_on, new_sleep, sleep_poll}
use forward_os_kernel_base.Async.Loop.{Returns, block_on_lem}

module _ {E : Type 0} (now : E → ℕ × E) (rises : (e : E) → (now e).0 < (now (now e).1).0) where
  -- A sleep comes to an end at the first reading of the counter that is not below its target, within
  -- as many rounds as the target is away.
  pub block_on-sleep_poll :
      (target : ℕ) (c : Cpu E)
      → Returns
          (sleep_poll now)
          (λ s e. s ≡ target)
          (block_on (sleep_poll now) (target - (now c.env).0 + 1) target c)
  unfolding sleep_poll
  block_on-sleep_poll target c =
      block_on_lem (sleep_poll now) (λ s e. s ≡ target) (λ s e. target - (now e).0)
        (λ s c same waits. (ground arith, ground (arith, rises c.env))) (target - (now c.env).0 + 1)
        target c refl (omega arith)

  poll_result :
      (target s : ℕ) (c : Cpu E) (a : Unit {0}) {o : Option (Unit {0} × ℕ × Cpu E)}
      → s ≡ target
      → (sleep_poll now s c).0 ≡ ready a
      → o ≡ some (a, (sleep_poll now s c).1, (sleep_poll now s c).2)
      → (o ≡ some (tt, target, record { woken = c.woken; env = (now c.env).1 }))
        × (target ≤ (now c.env).0)
  unfolding sleep_poll
  poll_result target s c a same answers result = elim (Bool-cases (leb s (now c.env).0)) [
    | inl over ↦ (result ∙ rw (over, same), ground arith)
    | inr early ↦ ground (arith, answers)
  ]

  -- Sleeping for an amount of time, where no product or sum leaves 64 bits: the executor comes back,
  -- and the last reading of the counter is not below the first by less than the ticks that the
  -- frequency makes of the amount.
  pub block_on-new_sleep :
      (frequency per_second amount : ℕ) (e : E) (w : Bool)
      → frequency * amount < 2 ^ 64
      → (now e).0 + frequency * amount / per_second < 2 ^ 64
      → let (target, e') = new_sleep now frequency per_second amount e in
        (last : E) × (w' : Bool) × (block_on
            (sleep_poll now)
            (target - (now e').0 + 1)
            target
            (record { woken = w; env = e' })
          ≡ some (tt, target, record { woken = w'; env = (now last).1 }))
        × ((now e).0 + frequency * amount / per_second ≤ (now last).0)
  unfolding new_sleep sleep_poll
  block_on-new_sleep frequency per_second amount e w small fits =
      let ticks = u64 (frequency * amount) / per_second in
      let target = u64 ((now e).0 + ticks) in
      let product : u64 (frequency * amount) ≡ frequency * amount = omega arith in
      let target_is : target ≡ (now e).0 + frequency * amount / per_second =
        rw product (omega arith) in
      let r = block_on-sleep_poll target (record { woken = w; env = (now e).1 }) in
      let last = poll_result target r.s r.c r.a r.holds r.answers r.result in
      (r.c.env, r.c.woken, last.0, omega (arith, last.1, target_is))
