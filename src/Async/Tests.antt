-- ===== src/Async/Tests.antt =====
-- kernel/src/executor.rs and kernel/src/boot/async_utils.rs: a clock that goes up by 10 at each
-- reading.
use forward_os_kernel_base.Base.{
  ℕ, zero, suc, ◌+◌, ◌-◌, ◌≤◌, ◌<◌, ◌≡◌, refl, arith, Bool, false, some,
}
use forward_os_kernel_base.Async.{pending, Cpu, block_on, delay_poll, new_sleep, sleep_poll}
use forward_os_kernel_base.Async.Loop.{Returns, block_on_lem}
use forward_os_kernel_base.Async.Sleep.{block_on-new_sleep}

abbrev clock : ℕ → ℕ × ℕ
clock t = (t, t + 10)

abbrev idle : Cpu ℕ
idle = record { woken = false; env = 5 }

clock_rises : (t : ℕ) → (clock t).0 < (clock (clock t).1).0
clock_rises t = omega arith

delay_keeps :
    (s : ℕ) (c : Cpu ℕ)
    → c.env ≡ 5
    → (delay_poll s c).0 ≡ pending
    → ((delay_poll s c).2.env ≡ 5) × ((delay_poll s c).1 < s)
unfolding delay_poll
delay_keeps zero c p waits = ground arith
delay_keeps (suc s) c p waits = (p, omega arith)

-- A delay of seven polls, by the rule.
block_on_example : Returns delay_poll (λ s e. e ≡ 5) (block_on delay_poll 8 7 idle)
block_on_example =
    block_on_lem delay_poll (λ s e. e ≡ 5) (λ s e. s) delay_keeps 8 7 idle refl (omega arith)

-- 20 ms at a frequency of 2000 ticks a second.
sleep_example :
    let (target, e') = new_sleep clock 2000 1000 20 3 in
    (last : ℕ) × (w' : Bool) × (block_on
        (sleep_poll clock)
        (target - (clock e').0 + 1)
        target
        (record { woken = false; env = e' })
      ≡ some (tt, target, record { woken = w'; env = (clock last).1 }))
    × (43 ≤ (clock last).0)
sleep_example =
    block_on-new_sleep clock clock_rises 2000 1000 20 3 false (omega arith) (omega arith)
