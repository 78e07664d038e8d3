-- ===== src/Shell/Command.antt =====
-- kernel/src/main.rs: the commands of the debug shell. `none` among the results is `reset_system`,
-- which does not return.
use forward_os_kernel_base.Base.{ℕ, ◌+◌, Bool, true, false, not, ◌||◌, ◌==◌}
use forward_os_kernel_base.Base.{if◌then◌else◌, Option, none, some, List, [], ◌∷◌, ◌++◌, drop, u32}
use forward_os_kernel_base.Base.{Outcome, ret, panic, and_then}
use forward_os_kernel_base.Base.Text.{text, from_str_radix, split_whitespace, equal_text}
use forward_os_kernel_base.Disk.{has_port}
use forward_os_kernel_base.Draw.{Font, clear_screen_db}
use forward_os_kernel_base.Fat.{SimpleFileSystem, init}
use forward_os_kernel_base.Directory.{starts_with}
use forward_os_kernel_base.Shell.{Shell, command_line, write_line, both_bases}
use forward_os_kernel_base.Shell.Listing.{list_directory, find_directory}

-- `args.next()`: the word, and those behind it.
abbrev pub next_word : List (List ℕ) → Option (List ℕ) × List (List ℕ)
next_word [] = (none, [])
next_word (w ∷ ws) = (some w, ws)

abbrev pub or_else {ℓ} : {A : Type ℓ} → Option A → A → A
or_else none d = d
or_else (some a) d = a

abbrev pub is_empty : List ℕ → Bool
is_empty [] = true
is_empty (c ∷ cs) = false

-- The number of `set lba`.
unfoldable pub parse_lba : List ℕ → ℕ
unfolding starts_with from_str_radix
parse_lba val_str =
    if starts_with val_str (text "0x") || starts_with val_str (text "0X")
    then or_else (from_str_radix 16 (drop 2 val_str)) 0
    else or_else (from_str_radix 10 val_str) 0

-- `if let Some(fs) = SimpleFileSystem::init(…) { … }`. With no port the mount indexes the
-- controller's ports out of range.
unfoldable pub with_volume : (SimpleFileSystem → Shell → Outcome Shell) → Shell → Outcome Shell
unfolding init
with_volume body s =
    let (mounted, m) = init s.machine in
    let t = record s { machine = m } in
    if not (has_port s.machine) then panic else elim mounted [ none ↦ ret t | some fs ↦ body fs t ]

abbrev pub start_cluster : SimpleFileSystem → Shell → ℕ
start_cluster fs s = if s.current_dir_cluster == 0 then fs.root_cluster else s.current_dir_cluster

unfoldable pub cd : Font → ℕ → List ℕ → Shell → Outcome Shell
unfolding with_volume find_directory write_line
cd font fuel target s = elim (equal_text target (text "/") || equal_text target (text "..")) [
  | true ↦ ret (record s { current_dir_cluster = 0 })
  | false ↦
      with_volume
        (λ fs t.
          and_then (find_directory fuel fs (start_cluster fs t) target t.machine) (λ (dir, m).
            elim dir [
              | some d ↦
                  write_line font (text "cd " ++ target) 0x00FF00
                    (record t { current_dir_cluster = d; machine = m })
              | none ↦ write_line font (text "Not found") 0xFF0000 (record t { machine = m })
            ]))
        s
]

unfoldable pub ls : Font → ℕ → List ℕ → Shell → Outcome Shell
unfolding with_volume find_directory list_directory
ls font fuel target_dir = with_volume λ fs t.
    let cluster = start_cluster fs t in
    elim (is_empty target_dir) [
      | true ↦ list_directory font fs fuel cluster t
      | false ↦
          and_then (find_directory fuel fs cluster target_dir t.machine) (λ (dir, m).
            list_directory font fs fuel (or_else dir cluster) (record t { machine = m }))
    ]

unfoldable pub set : Font → List (List ℕ) → Shell → Outcome Shell
unfolding parse_lba write_line both_bases
set font args s =
    let (target, rest) = next_word args in
    let (val_str, _) = next_word rest in
    elim (equal_text (or_else target []) (text "lba")) [
      | false ↦ write_line font (text "Usage: set lba <number>") 0xFFFF00 s
      | true ↦ elim val_str [
        | some v ↦
            let val = parse_lba v in
            write_line font (text "LBA set to " ++ both_bases val) 0x00FF00
              (record s { debug_lba = val })
        | none ↦ write_line font (text "Current LBA: " ++ both_bases s.debug_lba) 0x00FF00 s
      ]
    ]

unfoldable pub clear : Shell → Shell
unfolding clear_screen_db
clear s = record s {
  db = clear_screen_db 0x000000 s.db;
  console = record s.console { current_y = 130 };
}

abbrev pub stay : Outcome Shell → Outcome (Option Shell)
stay o = and_then o (λ s. ret (some s))

-- `match cmd { … }`.
unfoldable pub run_command : Font → ℕ → List ℕ → List (List ℕ) → Shell → Outcome (Option Shell)
unfolding clear cd ls set
run_command font fuel cmd args s = elim (equal_text cmd (text "reboot")) [
  | true ↦ ret none
  | false ↦ elim (equal_text cmd (text "clear")) [
    | true ↦ ret (some (clear s))
    | false ↦ elim (equal_text cmd (text "cd")) [
      | true ↦ stay (cd font fuel (or_else (next_word args).0 (text "/")) s)
      | false ↦ elim (equal_text cmd (text "ls")) [
        | true ↦ stay (ls font fuel (or_else (next_word args).0 []) s)
        | false ↦ elim (equal_text cmd (text "set")) [
          | true ↦ stay (set font args s)
          | false ↦ elim (is_empty cmd) [
            | true ↦ ret (some s)
            | false ↦ stay (write_line font (text "Unknown: " ++ cmd) 0xFF0000 s)
          ]
        ]
      ]
    ]
  ]
]

-- The key Enter.
unfoldable pub enter : Font → ℕ → Shell → Outcome (Option Shell)
unfolding run_command
enter font fuel s =
    let words = split_whitespace (command_line s) in
    let t = record s {
      console = record s.console { current_y = u32 (s.console.current_y + 20) };
    } in
    and_then (run_command font fuel (or_else (next_word words).0 []) (next_word words).1 t)
      (λ next. elim next [ none ↦ ret none | some u ↦ ret (some (record u { input_len = 0 })) ])
