-- ===== src/Ahci/Tests.antt =====
-- The theorems applied to a controller that finishes a command in one turn.
use forward_os_kernel_base.Base.{
  ℕ, zero, suc, ◌<◌, ◌≡◌, refl, arith, true, false, ◌==◌, if◌then◌else◌,
}
use forward_os_kernel_base.Base.{ret}
use forward_os_kernel_base.Ahci.{Hba, Controller, port_reg, issue_read, read_sector}
use forward_os_kernel_base.Ahci.Wait.{
  turns, FreeAfter, RunsFor, is_busy, is_issued, is_error, read_sector_done, read_sector_succeeds,
}
use forward_os_kernel_base.Ahci.Command.{decode, one_sector, issue_read_lem}

abbrev prompt : Controller
prompt = record {
  turn = λ h. record h { reg = λ o. if o == 0x138 then 0 else h.reg o };
  store =
      λ o v h. record h { reg = λ p. if o == p then (if o == 0x110 then 0 else v) else h.reg p };
}

abbrev quiet : Hba
quiet = record { reg = λ o. if o == 0x100 then 0x2000000 else 0; mem = λ i. 7 }

abbrev started : Hba
started = issue_read prompt 0 5 0x1000 0x20000 quiet

quiet-FreeAfter : FreeAfter prompt (is_busy 0) 0 quiet
unfolding turns
quiet-FreeAfter = record { before = λ i below. absurd (omega arith); after = refl }

started-RunsFor : RunsFor prompt 0 1 started
unfolding turns issue_read
started-RunsFor = record {
  issued = λ i. elim i as (λ j. j < 1 → is_issued 0 (turns prompt j started) ≡ true) [
    | zero ↦ λ below. refl
    | suc j ↦ λ below. absurd (omega arith)
  ];
  fine = λ i. elim i as (λ j. j < 1 → is_error 0 (turns prompt j started) ≡ false) [
    | zero ↦ λ below. refl
    | suc j ↦ λ below. absurd (omega arith)
  ];
}

started_over : is_issued 0 (turns prompt 1 started) ≡ false
unfolding turns issue_read
started_over = refl

read_done_example :
    read_sector prompt 0 5 0x1000 0x20000 quiet
    ≡ ret (true, turns prompt 1 (issue_read prompt 0 5 0x1000 0x20000 (turns prompt 0 quiet)))
unfolding turns
read_done_example =
    read_sector_done prompt 0 5 0x1000 0x20000 0 1 quiet quiet-FreeAfter (omega arith)
      started-RunsFor started_over (omega arith) (omega arith)

read_succeeds_example :
    (k : ℕ) × (j : ℕ) × FreeAfter prompt (is_busy 0) k quiet
    × RunsFor prompt 0 j (issue_read prompt 0 5 0x1000 0x20000 (turns prompt k quiet))
    × (is_issued 0 (turns prompt j (issue_read prompt 0 5 0x1000 0x20000 (turns prompt k quiet)))
        ≡ false)
    × (turns prompt 1 (issue_read prompt 0 5 0x1000 0x20000 (turns prompt 0 quiet))
        ≡ turns prompt j (issue_read prompt 0 5 0x1000 0x20000 (turns prompt k quiet)))
    × (0 < 32)
read_succeeds_example = read_sector_succeeds prompt 0 5 0x1000 0x20000 quiet _ read_done_example

issue_read_example :
    (h' : Hba) × (issue_read prompt 0 5 0x1000 0x20000 quiet ≡ prompt.store (port_reg 0 0x38) 1 h')
    × (decode h'.mem 0x1000 ≡ one_sector 0x25 5 0x20000)
issue_read_example = issue_read_lem prompt 0 5 0x1000 0x20000 quiet (omega arith) (omega arith)
