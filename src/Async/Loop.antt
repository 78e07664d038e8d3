-- ===== src/Async/Loop.antt =====
-- The executor's loop ends, with what the future answers, for a future whose polls use something up.
use forward_os_kernel_base.Base.{ℕ, zero, suc, ◌*◌, ◌<◌, ◌≡◌, refl, arith, inl, inr, ◌⊎◌}
use forward_os_kernel_base.Base.{Bool, true, false, Option, none, some}
use forward_os_kernel_base.Async.{
  Poll, ready, pending, Cpu, clear, Future, block_on, yield_poll, delay_poll,
}

Poll-cases : {A : Type 0} (p : Poll A) → (p ≡ pending) ⊎ ((a : A) × (p ≡ ready a))
Poll-cases (ready a) = inr (a, refl)
Poll-cases pending = inl refl

-- The run came to a poll at which the future, in state `s`, was ready, and `P` held there.
pub record Returns {E S A : Type 0} (poll : Future E S A) (P : S → E → Type 0)
    (r : Option (A × S × Cpu E)) : Type 0 where
  pub s : S
  pub c : Cpu E
  pub a : A
  pub holds : P s c.env
  pub answers : (poll s c).0 ≡ ready a
  pub result : r ≡ some (a, (poll s c).1, (poll s c).2)

-- The executor comes to an end with an answer of the future, within the fuel that `measure` says,
-- when each poll that leaves the future pending keeps `P` and makes the measure smaller.
pub block_on_lem :
    {E S A : Type 0} (poll : Future E S A) (P : S → E → Type 0) (measure : S → E → ℕ)
    → ((s : S) (c : Cpu E)
        → P s c.env
        → (poll s c).0 ≡ pending
        → P (poll s c).1 (poll s c).2.env
          × (measure (poll s c).1 (poll s c).2.env < measure s c.env))
    → (fuel : ℕ) (s : S) (c : Cpu E) → P s c.env
    → measure s c.env < fuel
    → Returns poll P (block_on poll fuel s c)
unfolding block_on
block_on_lem poll P measure keep zero s c p enough = absurd (omega arith)
block_on_lem poll P measure keep (suc fuel) s c p enough = elim (Poll-cases (poll s c).0) [
  | inr (a, e) ↦ record { s = s; c = c; a = a; holds = p; answers = e; result = rw (e, block_on) }
  | inl e ↦
      let s₁ = (poll s c).1 in
      let c₁ = clear (poll s c).2 in
      let one = keep s c p e in
      elim (Poll-cases (poll s₁ c₁).0) [
        | inr (a, f) ↦ record {
          s = s₁;
          c = c₁;
          a = a;
          holds = one.0;
          answers = f;
          result = rw (e, f, block_on);
        }
        | inl f ↦
            let two = keep s₁ c₁ one.0 f in
            rw (e, f, block_on)
              (block_on_lem poll P measure keep fuel (poll s₁ c₁).1 (poll s₁ c₁).2 two.0
                (omega arith))
      ]
]

-- A delay of `n` ticks is over after `n + 1` polls, two to a round, and the environment is as before.
pub block_on-delay_poll :
    {E : Type 0} (fuel n : ℕ) (c : Cpu E)
    → n < 2 * fuel
    → (w : Bool) × (block_on delay_poll fuel n c ≡ some (tt, 0, record { woken = w; env = c.env }))
unfolding block_on delay_poll
block_on-delay_poll zero n c enough = absurd (omega arith)
block_on-delay_poll (suc fuel) zero c enough = (c.woken, refl)
block_on-delay_poll (suc fuel) (suc zero) c enough = (false, refl)
block_on-delay_poll (suc fuel) (suc (suc n)) c enough =
    block_on-delay_poll fuel n (record c { woken = true }) (omega arith)

-- A future that yields is never ready: the executor runs on, whatever the fuel.
pub block_on-yield_poll : {E : Type 0} (fuel : ℕ) (c : Cpu E) → block_on yield_poll fuel tt c ≡ none
unfolding block_on
block_on-yield_poll zero c = refl
block_on-yield_poll (suc fuel) c = block_on-yield_poll fuel (record c { woken = true })
