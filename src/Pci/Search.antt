-- ===== src/Pci/Search.antt =====
-- The search for a controller, and the addresses of the configuration space.
use forward_os_kernel_base.Base.{
  ℕ, zero, suc, ◌+◌, ◌*◌, ◌/◌, ◌%◌, ◌^◌, ◌≤◌, ◌<◌, ◌≡◌, ◌≢◌, refl, sym, ap, subst, ◌∙◌, arith,
}
use forward_os_kernel_base.Base.{
  Bool, true, false, ◌&&◌, ◌==◌, if◌then◌else◌, if-eq_false, if-eq_true, Option, none, some,
}
use forward_os_kernel_base.Base.{bit_and, bit_or, Bool-cases, inl, inr, ==→≡, ==→≢, ◌⊎◌}
use forward_os_kernel_base.Base.Bits.{bit_and_mask, bit_and_shifted, bit_or_fields, fields_bit_or}
use forward_os_kernel_base.Pci.{
  Config, PciDevice, config_address, config_read_u32, check_ahci, check_e1000, for_devices,
}
use forward_os_kernel_base.Pci.{find_ahci_device, find_e1000}

disjoint : (k q x r : ℕ) → x ≡ q * 2 ^ k → r < 2 ^ k → bit_or x r ≡ x + r
disjoint k q x r e fits = rw e (bit_or_fields k q r fits)

-- The word that selects a register has bit 31 set and the four numbers in fields of their own, the
-- offset rounded down to a multiple of 4: two registers are never selected by the same word.
pub config_address_lem :
    (bus device func offset : ℕ)
    → device < 32
    → func < 8
    → bus < 256
    → offset < 256
    → config_address bus device func offset
      ≡ 2 ^ 31 + bus * 2 ^ 16 + device * 2 ^ 11 + func * 2 ^ 8 + offset / 4 * 4
unfolding config_address
config_address_lem bus device func offset d f b o =
    let low : bit_and offset 0xfc ≡ offset / 4 * 4 =
      omega (arith, bit_and_shifted 2 offset 63, bit_and_mask 6 (offset / 4)) in
    let a1 = disjoint 16 bus (bus * 2 ^ 16) (device * 2 ^ 11) refl (omega arith) in
    let a2 =
      disjoint 11 (bus * 2 ^ 5 + device) (bus * 2 ^ 16 + device * 2 ^ 11) (func * 2 ^ 8)
        (omega arith) (omega arith) in
    let a3 =
      disjoint 8 ((bus * 2 ^ 5 + device) * 2 ^ 3 + func)
        (bus * 2 ^ 16 + device * 2 ^ 11 + func * 2 ^ 8) (offset / 4 * 4) (omega arith)
        (omega arith) in
    let sum : ℕ = bus * 2 ^ 16 + device * 2 ^ 11 + func * 2 ^ 8 + offset / 4 * 4 in
    let a4 : bit_or sum 0x80000000 ≡ 2 ^ 31 + sum = fields_bit_or 31 1 sum (omega arith) in
    rw (low, a1, a2, a3, a4, config_address) (omega arith)

-- The register of a device's function 0 with a number.
abbrev pub word : Config → ℕ → ℕ → ℕ
word cfg dev r = cfg (2 ^ 31 + dev * 2 ^ 11 + r)

-- The first number of `dev .. dev + n` with a property, and what a search gives for it.
abbrev pub First : (ℕ → Type 0) → (ℕ → PciDevice) → ℕ → ℕ → Option PciDevice → Type 0
First P device dev n found =
    ((found ≡ none) × ((i : ℕ) → dev ≤ i → i < dev + n → ¬ P i))
    ⊎ ((at : ℕ) × (dev ≤ at)
        × (at < dev + n)
        × (found ≡ some (device at))
        × P at
        × ((i : ℕ) → dev ≤ i → i < at → ¬ P i))

module _ (P : ℕ → Type 0) (device : ℕ → PciDevice) (body : ℕ → Option PciDevice) where
  none_from :
      (dev k : ℕ)
      → ¬ P dev
      → ((i : ℕ) → suc dev ≤ i → i < k → ¬ P i)
      → (i : ℕ) → dev ≤ i
      → i < k
      → ¬ P i
  none_from dev k lacks never i from to has = elim (Bool-cases (dev == i)) [
    | inl same ↦ lacks (subst P (sym (==→≡ dev i same)) has)
    | inr other ↦ never i (omega (arith, ==→≢ dev i other)) to has
  ]

  for_devices-First :
      (dev n : ℕ)
      → ((i : ℕ) → i < dev + n → ((body i ≡ none) × ¬ P i) ⊎ ((body i ≡ some (device i)) × P i))
      → First P device dev n (for_devices body dev n)
  unfolding for_devices
  for_devices-First dev zero decides = inl (refl, λ i from to. absurd (omega arith))
  for_devices-First dev (suc n) decides = elim (decides dev (omega arith)) [
    | inr (here, has) ↦ inr (
      dev,
      omega arith,
      omega arith,
      rw (here, for_devices) refl,
      has,
      λ i from to. absurd (omega arith),
    )
    | inl (away, lacks) ↦ elim (for_devices-First (suc dev) n (λ i to. decides i (omega arith))) [
      | inl (missing, never) ↦ inl (
        rw (away, for_devices) missing,
        none_from dev (dev + suc n) lacks (λ i f t. never i f (omega arith)),
      )
      | inr (at, from, to, there, has, before) ↦ inr (
        at,
        omega arith,
        omega arith,
        rw (away, for_devices) there,
        has,
        none_from dev at lacks before,
      )
    ]
  ]

-- The registers of the AHCI controller: class 1, subclass 6.
pub record IsAhci (cfg : Config) (dev : ℕ) : Type 0 where
  pub there : word cfg dev 0x00 % 2 ^ 16 ≢ 0xFFFF
  pub class : word cfg dev 0x08 / 2 ^ 24 % 2 ^ 8 ≡ 1
  pub sub : word cfg dev 0x08 / 2 ^ 16 % 2 ^ 8 ≡ 6

abbrev pub ahci_at : Config → ℕ → PciDevice
ahci_at cfg dev = record {
  bus = 0;
  device = dev;
  function = 0;
  vendor_id = word cfg dev 0x00 % 2 ^ 16;
  class_code = 1;
  subclass = 6;
  bar0 = 0;
  bar1 = 0;
  bar5 = word cfg dev 0x24;
}

pub record IsE1000 (cfg : Config) (dev : ℕ) : Type 0 where
  pub vendor : word cfg dev 0x00 % 2 ^ 16 ≡ 0x8086
  pub model : word cfg dev 0x00 / 2 ^ 16 % 2 ^ 16 ≡ 0x100E
  pub class : word cfg dev 0x08 / 2 ^ 24 % 2 ^ 8 ≡ 2
  pub sub : word cfg dev 0x08 / 2 ^ 16 % 2 ^ 8 ≡ 0

abbrev pub e1000_at : Config → ℕ → PciDevice
e1000_at cfg dev = record {
  bus = 0;
  device = dev;
  function = 0;
  vendor_id = 0x8086;
  class_code = 2;
  subclass = 0;
  bar0 = word cfg dev 0x10;
  bar1 = word cfg dev 0x14;
  bar5 = 0;
}

if-same : {A : Type 0} (b : Bool) (x : A) → (if b then x else x) ≡ x
if-same true x = refl
if-same false x = refl

module _ (cfg : Config) (dev : ℕ) (d : dev < 32) where
  word_at : (r : ℕ) → r < 256 → r % 4 ≡ 0 → config_read_u32 cfg 0 dev 0 r ≡ word cfg dev r
  word_at r small whole =
      ap cfg (omega (arith, config_address_lem 0 dev 0 r d (omega arith) (omega arith) small))

  read0 : config_read_u32 cfg 0 dev 0 0 ≡ word cfg dev 0
  read0 = word_at 0 (omega arith) refl

  read8 : config_read_u32 cfg 0 dev 0 8 ≡ word cfg dev 8
  read8 = word_at 8 (omega arith) refl

  check_ahci-word : check_ahci cfg dev ≡ (
      if word cfg dev 0x00 % 2 ^ 16 == 0xffff
      then none
      else if (word cfg dev 0x08 / 2 ^ 24 % 2 ^ 8 == 1) && (word cfg dev 0x08 / 2 ^ 16 % 2 ^ 8 == 6)
      then some (ahci_at cfg dev)
      else none)
  unfolding check_ahci
  check_ahci-word =
      rw
        (
          read0,
          read8,
          word_at 0x24 (omega arith) refl,
          bit_and_mask 16 (word cfg dev 0),
          check_ahci,
        )
        refl

  check_ahci_lem :
      ((check_ahci cfg dev ≡ none) × ¬ IsAhci cfg dev)
      ⊎ ((check_ahci cfg dev ≡ some (ahci_at cfg dev)) × IsAhci cfg dev)
  check_ahci_lem = elim (Bool-cases (word cfg dev 0x00 % 2 ^ 16 == 0xffff)) [
    | inl missing ↦ inl (check_ahci-word ∙ if-eq_true _ missing, λ is. is.there (==→≡ _ _ missing))
    | inr there ↦ elim (Bool-cases (word cfg dev 0x08 / 2 ^ 24 % 2 ^ 8 == 1)) [
      | inr other ↦
          inl (check_ahci-word ∙ if-eq_false _ there ∙ rw other refl, λ is. ==→≢ _ _ other is.class)
      | inl class ↦ elim (Bool-cases (word cfg dev 0x08 / 2 ^ 16 % 2 ^ 8 == 6)) [
        | inr other ↦ inl (
          check_ahci-word ∙ if-eq_false _ there ∙ rw (class, other) refl,
          λ is. ==→≢ _ _ other is.sub,
        )
        | inl sub ↦ inr (
          check_ahci-word ∙ if-eq_false _ there ∙ rw (class, sub) refl,
          record { there = ==→≢ _ _ there; class = ==→≡ _ _ class; sub = ==→≡ _ _ sub },
        )
      ]
    ]
  ]

  check_e1000-word : check_e1000 cfg dev ≡ (
      if word cfg dev 0x00 % 2 ^ 16 == 0xffff
      then none
      else if (word cfg dev 0x00 % 2 ^ 16 == 0x8086)
          && (word cfg dev 0x00 / 2 ^ 16 % 2 ^ 16 == 0x100E)
      then (if (word cfg dev 0x08 / 2 ^ 24 % 2 ^ 8 == 2)
            && (word cfg dev 0x08 / 2 ^ 16 % 2 ^ 8 == 0)
          then some (record (e1000_at cfg dev) {
            vendor_id = word cfg dev 0x00 % 2 ^ 16;
            class_code = word cfg dev 0x08 / 2 ^ 24 % 2 ^ 8;
            subclass = word cfg dev 0x08 / 2 ^ 16 % 2 ^ 8;
          })
          else none)
      else none)
  unfolding check_e1000
  check_e1000-word =
      rw
        (
          read0,
          read8,
          word_at 0x10 (omega arith) refl,
          word_at 0x14 (omega arith) refl,
          bit_and_mask 16 (word cfg dev 0),
          check_e1000,
        )
        refl

  check_e1000_lem :
      ((check_e1000 cfg dev ≡ none) × ¬ IsE1000 cfg dev)
      ⊎ ((check_e1000 cfg dev ≡ some (e1000_at cfg dev)) × IsE1000 cfg dev)
  check_e1000_lem = elim (Bool-cases (word cfg dev 0x00 % 2 ^ 16 == 0x8086)) [
    | inr other ↦ inl (check_e1000-word ∙ rw other (if-same _ none), λ is. ==→≢ _ _ other is.vendor)
    | inl vendor ↦ elim (Bool-cases (word cfg dev 0x00 / 2 ^ 16 % 2 ^ 16 == 0x100E)) [
      | inr other ↦
          inl
            (check_e1000-word ∙ rw (vendor, other) (if-same _ none), λ is. ==→≢ _ _ other is.model)
      | inl model ↦ elim (Bool-cases (word cfg dev 0x08 / 2 ^ 24 % 2 ^ 8 == 2)) [
        | inr other ↦ inl (
          check_e1000-word ∙ rw (vendor, model, other) (if-same _ none),
          λ is. ==→≢ _ _ other is.class,
        )
        | inl class ↦ elim (Bool-cases (word cfg dev 0x08 / 2 ^ 16 % 2 ^ 8 == 0)) [
          | inr other ↦ inl (
            check_e1000-word ∙ rw (vendor, model, class, other) (if-same _ none),
            λ is. ==→≢ _ _ other is.sub,
          )
          | inl sub ↦ inr (
            check_e1000-word
                ∙ rw (==→≡ _ _ vendor, ==→≡ _ _ model, ==→≡ _ _ class, ==→≡ _ _ sub) refl,
            record {
              vendor = ==→≡ _ _ vendor;
              model = ==→≡ _ _ model;
              class = ==→≡ _ _ class;
              sub = ==→≡ _ _ sub;
            },
          )
        ]
      ]
    ]
  ]

-- The search for the AHCI controller gives the first of the 32 devices that is one, with its BAR5,
-- and gives none exactly where no device is one.
pub find_ahci_device_lem :
    (cfg : Config) → First (IsAhci cfg) (ahci_at cfg) 0 32 (find_ahci_device cfg)
unfolding find_ahci_device
find_ahci_device_lem cfg =
    for_devices-First (IsAhci cfg) (ahci_at cfg) (check_ahci cfg) 0 32 (check_ahci_lem cfg)

-- The search for the Ethernet controller gives the first of the 32 devices that is an 82540EM, with
-- its BAR0 and BAR1, and gives none exactly where no device is one.
pub find_e1000_lem : (cfg : Config) → First (IsE1000 cfg) (e1000_at cfg) 0 32 (find_e1000 cfg)
unfolding find_e1000
find_e1000_lem cfg =
    for_devices-First (IsE1000 cfg) (e1000_at cfg) (check_e1000 cfg) 0 32 (check_e1000_lem cfg)
