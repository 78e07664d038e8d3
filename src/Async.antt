-- ===== src/Async.antt =====
-- kernel/src/executor.rs, kernel/src/boot/async_utils.rs and kernel/src/boot/timer.rs: the executor,
-- the futures that it drives, and the clock that some of them read. What the futures see of the
-- hardware is the environment `E`; the time-stamp counter and the keyboard's ports are functions on
-- it, which also say how it moves on.
pub mod Loop
pub mod Sleep
mod Tests
use forward_os_kernel_base.Base.{ℕ, zero, suc, ◌+◌, ◌-◌, ◌*◌, ◌/◌, ◌%◌, ◌^◌, bit_and}
use forward_os_kernel_base.Base.{
  Bool, true, false, ltb, leb, ◌==◌, if◌then◌else◌, Option, none, some, u16, u64,
}
use forward_os_kernel_base.Keys.{KeyBuffer, get_key_from_buffer}

pub data Poll {ℓ} (A : Type ℓ) : Type ℓ where
  ready : A → Poll A
  pending : Poll A

-- The flag WOKEN, and the environment.
pub record Cpu (E : Type 0) : Type 0 where
  pub woken : Bool
  pub env : E

-- A future of state `S`: one poll gives its answer, its new state, and what became of the machine.
abbrev pub Future : Type 0 → Type 0 → Type 0 → Type 0
Future E S A = S → Cpu E → Poll A × S × Cpu E

module _ {E : Type 0} where
  abbrev pub wake : Cpu E → Cpu E
  wake c = record c { woken = true }

  abbrev pub clear : Cpu E → Cpu E
  clear c = record c { woken = false }

  -- `none`: it still runs when the fuel, in rounds of two polls, is used up.
  unfoldable pub block_on : {S A : Type 0} → Future E S A → ℕ → S → Cpu E → Option (A × S × Cpu E)
  block_on poll zero s c = none
  block_on poll (suc fuel) s c =
      let (r, s₁, c₁) = poll s c in
      let (r', s₂, c₂) = poll s₁ (clear c₁) in
      let rest = block_on poll fuel s₂ c₂ in
      elim r [
        | ready a ↦ some (a, s₁, c₁)
        | pending ↦ elim r' [ ready a ↦ some (a, s₂, c₂) | pending ↦ rest ]
      ]

  -- `YieldFuture`.
  abbrev pub yield_poll : Future E (Unit {0}) (Unit {0})
  yield_poll s c = (pending, s, wake c)

  -- `NopFuture`.
  abbrev pub nop_poll : Future E (Unit {0}) (Unit {0})
  nop_poll s c = (ready tt, s, c)

  -- `DelayFuture`: its state is `remaining`.
  unfoldable pub delay_poll : Future E ℕ (Unit {0})
  delay_poll zero c = (ready tt, zero, c)
  delay_poll (suc n) c = (pending, n, wake c)

  -- `KeyboardFuture`: the ring first, then the controller's port.
  module _ (keys : E → KeyBuffer) (set_keys : KeyBuffer → E → E) (in_port : ℕ → E → ℕ × E) where
    unfoldable pub keyboard_poll : Future E (Unit {0}) ℕ
    unfolding get_key_from_buffer
    keyboard_poll s c =
        let (key, rest) = get_key_from_buffer (keys c.env) in
        let (status, e₁) = in_port 0x64 c.env in
        let (sc, e₂) = in_port 0x60 e₁ in
        elim key [
          | some k ↦ (ready k, s, record { woken = true; env = set_keys rest c.env })
          | none ↦
              if bit_and status 0x01 == 0
              then (pending, s, record { woken = true; env = e₁ })
              else (ready sc, s, record { woken = true; env = e₂ })
        ]

  -- `TscTimer`, its frequency apart: `now` reads the counter.
  module _ (now : E → ℕ × E) where
    -- `SleepFuture`: its state is `target_tsc`. Made for a time in units of which `per_second` are a
    -- second: 1000 in `new`, 1000000 in `new_us`.
    unfoldable pub new_sleep : ℕ → ℕ → ℕ → E → ℕ × E
    new_sleep frequency per_second amount e =
        let (t, e') = now e in (u64 (t + u64 (frequency * amount) / per_second), e')

    unfoldable pub sleep_poll : Future E ℕ (Unit {0})
    sleep_poll target c =
        let (t, e) = now c.env in
        if leb target t
        then (ready tt, target, record c { env = e })
        else (pending, target, record { woken = true; env = e })

    -- The busy loop of `wait_ms`, from `start`; `none` when the fuel is used up.
    unfoldable pub wait_ticks : ℕ → ℕ → ℕ → E → Option E
    wait_ticks zero start ticks e = none
    wait_ticks (suc fuel) start ticks e =
        let (t, e') = now e in
        let rest = wait_ticks fuel start ticks e' in
        if ltb (u64 (t + 2 ^ 64 - start)) ticks then rest else some e'

    unfoldable pub wait_ms : ℕ → ℕ → ℕ → E → Option E
    unfolding wait_ticks
    wait_ms fuel frequency ms e =
        let (start, e') = now e in wait_ticks fuel start (u64 (frequency * ms) / 1000) e'

  -- `measure_frequency`: the timer's count falls from `pit_start`.
  module _ (now : E → ℕ × E) (read_pit : E → ℕ × E) where
    abbrev pub target_ms : ℕ
    target_ms = 100

    abbrev pub pit_freq : ℕ
    pit_freq = 1193182

    unfoldable pub target_count : ℕ → ℕ
    target_count pit_start = pit_start - u16 (pit_freq * target_ms / 1000)

    unfoldable pub await_count : ℕ → ℕ → E → Option E
    await_count zero target e = none
    await_count (suc fuel) target e =
        let (current, e') = read_pit e in
        let rest = await_count fuel target e' in if leb current target then some e' else rest

    unfoldable pub measure_frequency : ℕ → E → Option (ℕ × E)
    unfolding target_count await_count
    measure_frequency fuel e =
        let (pit_start, e₁) = read_pit e in
        let (tsc_start, e₂) = now e₁ in
        elim (await_count fuel (target_count pit_start) e₂) [
          | none ↦ none
          | some e₃ ↦
              let (tsc_end, e₄) = now e₃ in
              some (u64 (u64 (tsc_end + 2 ^ 64 - tsc_start) * 1000) / target_ms, e₄)
        ]
