-- ===== src/Ahci/Wait.antt =====
-- How the driver's waits end.
use forward_os_kernel_base.Base.{ℕ, zero, suc, ◌+◌, ◌<◌, ◌≡◌, refl, sym, ap, ◌∙◌, arith}
use forward_os_kernel_base.Base.{Bool, true, false, ◌==◌, if◌then◌else◌, if-eq_true, if-eq_false}
use forward_os_kernel_base.Base.{Bool-cases, inl, inr, ◌⊎◌}
use mathlib.Core.Bool.{false≢true}
use forward_os_kernel_base.Ahci.{
  Hba, Controller, poll, require, port_reg, is_set, px_is_tfes, issue_read,
}
use forward_os_kernel_base.Ahci.{wait_command, finish_read, verdict, read_at_port, read_sector}
use forward_os_kernel_base.Base.{ret, leb, panic-ne-ret, ret-injective}

unfoldable pub turns : Controller → ℕ → Hba → Hba
turns c zero h = h
turns c (suc n) h = turns c n (c.turn h)

-- The controller is busy for `k` turns and then is not.
pub record FreeAfter (c : Controller) (busy : Hba → Bool) (k : ℕ) (h : Hba) : Type 0 where
  pub before : (i : ℕ) → i < k → busy (turns c i h) ≡ true
  pub after : busy (turns c k h) ≡ false

FreeAfter-next :
    (c : Controller) (busy : Hba → Bool) (k : ℕ) (h : Hba)
    → FreeAfter c busy (suc k) h
    → FreeAfter c busy k (c.turn h)
unfolding turns
FreeAfter-next c busy k h f = record {
  before = λ i below. f.before (suc i) (omega arith);
  after = f.after;
}

FreeAfter-suc :
    (c : Controller) (busy : Hba → Bool) (k : ℕ) (h : Hba)
    → busy h ≡ true
    → FreeAfter c busy k (c.turn h)
    → FreeAfter c busy (suc k) h
unfolding turns
FreeAfter-suc c busy k h here f = record {
  before = λ i. elim i as (λ j. j < suc k → busy (turns c j h) ≡ true) [
    | zero ↦ λ below. here
    | suc j ↦ λ below. f.before j (omega arith)
  ];
  after = f.after;
}

-- A wait for a controller that is free before the timeout goes on from the state where it is free.
pub poll_free :
    (c : Controller) (busy : Hba → Bool) (k timeout : ℕ) (h : Hba)
    → FreeAfter c busy k h
    → k < timeout
    → (left : ℕ) × (poll c busy timeout h ≡ (suc left, turns c k h))
unfolding poll turns
poll_free c busy k zero h f below = absurd (omega arith)
poll_free c busy zero (suc timeout) h f below = (timeout, rw f.after refl)
poll_free c busy (suc k) (suc timeout) h f below =
    let (left, e) =
      poll_free c busy k timeout (c.turn h) (FreeAfter-next c busy k h f) (omega arith) in
    (left, rw (f.before 0 (omega arith)) e)

-- A wait either uses up its time or ends where the controller is free.
pub poll_lem :
    (c : Controller) (busy : Hba → Bool) (timeout : ℕ) (h : Hba)
    → (poll c busy timeout h ≡ (0, turns c timeout h))
      ⊎ ((k : ℕ) × (left : ℕ) × FreeAfter c busy k h
          × (poll c busy timeout h ≡ (suc left, turns c k h)))
unfolding poll turns
poll_lem c busy zero h = inl refl
poll_lem c busy (suc timeout) h = elim (Bool-cases (busy h)) [
  | inr free ↦ inr (
    0,
    timeout,
    record { before = λ i below. absurd (omega arith); after = free },
    rw (free, poll) refl,
  )
  | inl stuck ↦ elim (poll_lem c busy timeout (c.turn h)) [
    | inl over ↦ inl (rw (stuck, poll) over)
    | inr (k, left, f, e) ↦ inr (suc k, left, FreeAfter-suc c busy k h stuck f, rw (stuck, poll) e)
  ]
]

-- A command on a port: it runs while its bit in PxCI is set and no task file error is shown.
abbrev pub is_issued : ℕ → Hba → Bool
is_issued port h = is_set (h.reg (port_reg port 0x38)) 1

abbrev pub is_error : ℕ → Hba → Bool
is_error port h = is_set (h.reg (port_reg port 0x10)) px_is_tfes

pub record RunsFor (c : Controller) (port k : ℕ) (h : Hba) : Type 0 where
  pub issued : (i : ℕ) → i < k → is_issued port (turns c i h) ≡ true
  pub fine : (i : ℕ) → i < k → is_error port (turns c i h) ≡ false

RunsFor-none : (c : Controller) (port : ℕ) (h : Hba) → RunsFor c port 0 h
RunsFor-none c port h = record {
  issued = λ i below. absurd (omega arith);
  fine = λ i below. absurd (omega arith);
}

RunsFor-suc :
    (c : Controller) (port k : ℕ) (h : Hba)
    → is_issued port h ≡ true
    → is_error port h ≡ false
    → RunsFor c port k (c.turn h)
    → RunsFor c port (suc k) h
unfolding turns
RunsFor-suc c port k h here fine r = record {
  issued = λ i. elim i as (λ j. j < suc k → is_issued port (turns c j h) ≡ true) [
    | zero ↦ λ below. here
    | suc j ↦ λ below. r.issued j (omega arith)
  ];
  fine = λ i. elim i as (λ j. j < suc k → is_error port (turns c j h) ≡ false) [
    | zero ↦ λ below. fine
    | suc j ↦ λ below. r.fine j (omega arith)
  ];
}

RunsFor-next :
    (c : Controller) (port k : ℕ) (h : Hba) → RunsFor c port (suc k) h → RunsFor c port k (c.turn h)
unfolding turns
RunsFor-next c port k h r = record {
  issued = λ i below. r.issued (suc i) (omega arith);
  fine = λ i below. r.fine (suc i) (omega arith);
}

-- How a wait for a command ends, with this timeout: the command is done, or an error is shown and
-- acknowledged, or the time is up.
pub data Outcome (c : Controller) (port timeout : ℕ) (h : Hba) : ℕ × Bool × Hba → Type 0 where
  done :
      (k left : ℕ)
      → suc left + k ≡ timeout
      → RunsFor c port k h
      → is_issued port (turns c k h) ≡ false
      → Outcome c port timeout h (suc left, false, turns c k h)
  failed :
      (k left : ℕ)
      → suc left + k ≡ timeout
      → RunsFor c port k h
      → is_issued port (turns c k h) ≡ true
      → is_error port (turns c k h) ≡ true
      → Outcome c port timeout h (
        suc left,
        true,
        c.store (port_reg port 0x10) ((turns c k h).reg (port_reg port 0x10)) (turns c k h),
      )
  timed_out : RunsFor c port timeout h → Outcome c port timeout h (0, false, turns c timeout h)

Outcome-next :
    (c : Controller) (port timeout : ℕ) (h : Hba) (r : ℕ × Bool × Hba)
    → is_issued port h ≡ true
    → is_error port h ≡ false
    → Outcome c port timeout (c.turn h) r
    → Outcome c port (suc timeout) h r
unfolding turns
Outcome-next c port timeout h r here fine (done k left sum runs free) =
    done (suc k) left (omega arith) (RunsFor-suc c port k h here fine runs) free
Outcome-next c port timeout h r here fine (failed k left sum runs issued error) =
    failed (suc k) left (omega arith) (RunsFor-suc c port k h here fine runs) issued error
Outcome-next c port timeout h r here fine (timed_out runs) =
    timed_out (RunsFor-suc c port timeout h here fine runs)

wait_command-Outcome :
    (c : Controller) (port timeout : ℕ) (h : Hba)
    → Outcome c port timeout h (wait_command c port timeout h)
unfolding wait_command turns
wait_command-Outcome c port zero h = timed_out (RunsFor-none c port h)
wait_command-Outcome c port (suc timeout) h = elim (Bool-cases (is_issued port h)) [
  | inr free ↦ rw (free, wait_command) (done 0 timeout (omega arith) (RunsFor-none c port h) free)
  | inl issued ↦ elim (Bool-cases (is_error port h)) [
    | inl error ↦
        rw (issued, error, wait_command)
          (failed 0 timeout (omega arith) (RunsFor-none c port h) issued error)
    | inr fine ↦
        rw (issued, fine, wait_command)
          (Outcome-next c port timeout h (wait_command c port timeout (c.turn h)) issued fine
            (wait_command-Outcome c port timeout (c.turn h)))
  ]
]

-- The wait for a command that is done before the timeout.
wait_command_done :
    (c : Controller) (port k timeout : ℕ) (h : Hba)
    → RunsFor c port k h
    → is_issued port (turns c k h) ≡ false
    → k < timeout
    → (left : ℕ) × (wait_command c port timeout h ≡ (suc left, false, turns c k h))
unfolding wait_command turns
wait_command_done c port k zero h r free below = absurd (omega arith)
wait_command_done c port zero (suc timeout) h r free below = (timeout, rw (free, wait_command) refl)
wait_command_done c port (suc k) (suc timeout) h r free below =
    let (left, e) =
      wait_command_done c port k timeout (c.turn h) (RunsFor-next c port k h r) free
        (omega arith) in
    (left, rw (r.issued 0 (omega arith), r.fine 0 (omega arith), wait_command) e)

suc_is : (n : ℕ) → (suc n == 0) ≡ false
suc_is n = ground arith

require_free :
    (c : Controller) (busy : Hba → Bool) (timeout left : ℕ) (next : Hba → Bool × Hba) (h h' : Hba)
    → poll c busy timeout h ≡ (suc left, h')
    → require c busy timeout next h ≡ next h'
unfolding require
require_free c busy timeout left next h h' e =
    ap (λ (r : ℕ × Hba). if r.0 == 0 then (false, r.1) else next r.1) e
    ∙ if-eq_false _ (suc_is left)

require_succeeds :
    (c : Controller) (busy : Hba → Bool) (timeout : ℕ) (next : Hba → Bool × Hba) (h : Hba)
    → (require c busy timeout next h).0 ≡ true
    → (k : ℕ) × FreeAfter c busy k h × (require c busy timeout next h ≡ next (turns c k h))
unfolding require
require_succeeds c busy timeout next h good = elim (poll_lem c busy timeout h) [
  | inl over ↦ absurd (
      false≢true
        (sym (ap (λ (r : ℕ × Hba). (if r.0 == 0 then (false, r.1) else next r.1).0) over) ∙ good))
  | inr (k, left, f, e) ↦ (k, f, require_free c busy timeout left next h (turns c k h) e)
]

finish_read_done :
    (c : Controller) (port timeout left : ℕ) (h h' : Hba)
    → wait_command c port timeout h ≡ (suc left, false, h')
    → finish_read c port timeout h ≡ (true, h')
unfolding finish_read
finish_read_done c port timeout left h h' e = ap verdict e ∙ if-eq_false _ (suc_is left)

Outcome_succeeds :
    (c : Controller) (port timeout : ℕ) (h : Hba) (r : ℕ × Bool × Hba)
    → Outcome c port timeout h r
    → (verdict r).0 ≡ true
    → (j : ℕ) × RunsFor c port j h × (is_issued port (turns c j h) ≡ false) × (r.2 ≡ turns c j h)
Outcome_succeeds c port timeout h r (done k left sum runs free) good = (k, runs, free, refl)
Outcome_succeeds c port timeout h r (failed k left sum runs issued error) good =
    absurd (false≢true (sym (ap (λ (p : Bool × Hba). p.0) (if-eq_false _ (suc_is left))) ∙ good))
Outcome_succeeds c port timeout h r (timed_out runs) good = absurd (false≢true good)

abbrev ap_state : Bool × Hba → Hba
ap_state p = p.1

verdict_state : (r : ℕ × Bool × Hba) → (verdict r).1 ≡ r.2
verdict_state (timeout, tfes_detected, h) = elim (Bool-cases (timeout == 0)) [
  | inl zero_left ↦ ap (λ (p : Bool × Hba). p.1) (if-eq_true _ zero_left)
  | inr some_left ↦ ap (λ (p : Bool × Hba). p.1) (if-eq_false _ some_left) ∙ same tfes_detected
]
  where
    same : (b : Bool) → ap_state (if b then (false, h) else (true, h)) ≡ h
    same true = refl
    same false = refl

finish_read_succeeds :
    (c : Controller) (port timeout : ℕ) (h : Hba)
    → (finish_read c port timeout h).0 ≡ true
    → (j : ℕ) × RunsFor c port j h
      × (is_issued port (turns c j h) ≡ false)
      × ((finish_read c port timeout h).1 ≡ turns c j h)
unfolding finish_read
finish_read_succeeds c port timeout h good =
    let (j, runs, free, e) =
      Outcome_succeeds c port timeout h (wait_command c port timeout h)
        (wait_command-Outcome c port timeout h) good in
    (j, runs, free, verdict_state (wait_command c port timeout h) ∙ e)

abbrev pub is_busy : ℕ → Hba → Bool
is_busy port h = is_set (h.reg (port_reg port 0x20)) 0x88

read_at_port_done :
    (c : Controller) (port lba ct dest k j : ℕ) (h : Hba)
    → FreeAfter c (is_busy port) k h
    → k < 1000000
    → RunsFor c port j (issue_read c port lba ct dest (turns c k h))
    → is_issued port (turns c j (issue_read c port lba ct dest (turns c k h))) ≡ false
    → j < 10000000
    → read_at_port c port lba ct dest h
      ≡ (true, turns c j (issue_read c port lba ct dest (turns c k h)))
unfolding read_at_port
read_at_port_done c port lba ct dest k j h free soon runs over in_time =
    let (left, e) = poll_free c (is_busy port) k 1000000 h free soon in
    let (left', e') =
      wait_command_done c port j 10000000 (issue_read c port lba ct dest (turns c k h)) runs over
        in_time in
    require_free c (is_busy port) 1000000 left
      (λ h₁. finish_read c port 10000000 (issue_read c port lba ct dest h₁)) h (turns c k h) e
    ∙ finish_read_done c port 10000000 left' (issue_read c port lba ct dest (turns c k h)) _ e'

-- The read of one of the 32 ports returns true where the device is free within a million turns and
-- the command is done, without an error, within ten million.
pub read_sector_done :
    (c : Controller) (port lba ct dest k j : ℕ) (h : Hba)
    → FreeAfter c (is_busy port) k h
    → k < 1000000
    → RunsFor c port j (issue_read c port lba ct dest (turns c k h))
    → is_issued port (turns c j (issue_read c port lba ct dest (turns c k h))) ≡ false
    → j < 10000000
    → port < 32
    → read_sector c port lba ct dest h
      ≡ ret (true, turns c j (issue_read c port lba ct dest (turns c k h)))
unfolding read_sector
read_sector_done c port lba ct dest k j h free soon runs over in_time small =
    let inside : leb 32 port ≡ false = ground (arith, small) in
    if-eq_false _ inside
    ∙ ap ret (read_at_port_done c port lba ct dest k j h free soon runs over in_time)

read_at_port_succeeds :
    (c : Controller) (port lba ct dest : ℕ) (h h' : Hba)
    → read_at_port c port lba ct dest h ≡ (true, h')
    → (k : ℕ) × (j : ℕ) × FreeAfter c (is_busy port) k h
      × RunsFor c port j (issue_read c port lba ct dest (turns c k h))
      × (is_issued port (turns c j (issue_read c port lba ct dest (turns c k h))) ≡ false)
      × (h' ≡ turns c j (issue_read c port lba ct dest (turns c k h)))
unfolding read_at_port
read_at_port_succeeds c port lba ct dest h h' good =
    let (k, free, e) =
      require_succeeds c (is_busy port) 1000000
        (λ h₁. finish_read c port 10000000 (issue_read c port lba ct dest h₁)) h
        (ap (λ r. r.0) good) in
    let (j, runs, over, e') =
      finish_read_succeeds c port 10000000 (issue_read c port lba ct dest (turns c k h))
        (sym (ap (λ r. r.0) e) ∙ ap (λ r. r.0) good) in
    (k, j, free, runs, over, sym (ap (λ r. r.1) good) ∙ (ap (λ r. r.1) e ∙ e'))

port_below : (port : ℕ) → leb 32 port ≡ false → port < 32
port_below port h = ground arith

-- Where the read returns true, the device was free and the command that it then started was done,
-- without an error; and the port is one of the 32.
pub read_sector_succeeds :
    (c : Controller) (port lba ct dest : ℕ) (h h' : Hba)
    → read_sector c port lba ct dest h ≡ ret (true, h')
    → (k : ℕ) × (j : ℕ) × FreeAfter c (is_busy port) k h
      × RunsFor c port j (issue_read c port lba ct dest (turns c k h))
      × (is_issued port (turns c j (issue_read c port lba ct dest (turns c k h))) ≡ false)
      × (h' ≡ turns c j (issue_read c port lba ct dest (turns c k h)))
      × (port < 32)
unfolding read_sector
read_sector_succeeds c port lba ct dest h h' good = elim (Bool-cases (leb 32 port)) [
  | inl outside ↦ absurd (panic-ne-ret (sym (if-eq_true _ outside) ∙ good))
  | inr inside ↦
      let inner : read_at_port c port lba ct dest h ≡ (true, h') =
        ret-injective (sym (if-eq_false _ inside) ∙ good) in
      let (k, j, free, runs, over, e) = read_at_port_succeeds c port lba ct dest h h' inner in
      (k, j, free, runs, over, e, port_below port inside)
]
