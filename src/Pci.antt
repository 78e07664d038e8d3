-- ===== src/Pci.antt =====
-- kernel/src/pci.rs: the configuration space of PCI bus 0. The space is a function from the word
-- written to port 0xCF8 to the word that port 0xCFC then gives; what a write to it does to the
-- devices is the parameter `put`.
pub mod Search
mod Tests
use forward_os_kernel_base.Base.{ℕ, zero, suc, ◌+◌, ◌-◌, ◌*◌, ◌^◌, bit_and, bit_or, ◌<<◌, ◌>>◌}
use forward_os_kernel_base.Base.{
  Bool, true, false, ◌&&◌, not, ◌==◌, if◌then◌else◌, Option, none, some, u8, u16, u64,
}

pub record PciDevice : Type 0 where
  pub bus : ℕ
  pub device : ℕ
  pub function : ℕ
  pub vendor_id : ℕ
  pub class_code : ℕ
  pub subclass : ℕ
  pub bar0 : ℕ
  pub bar1 : ℕ
  pub bar5 : ℕ

abbrev pub Config : Type 0
Config = ℕ → ℕ

unfoldable pub config_address : ℕ → ℕ → ℕ → ℕ → ℕ
config_address bus device func offset =
    bit_or (bit_or (bit_or (bit_or (bus << 16) (device << 11)) (func << 8)) (bit_and offset 0xfc))
      0x80000000

abbrev pub config_read_u32 : Config → ℕ → ℕ → ℕ → ℕ → ℕ
config_read_u32 cfg bus device func offset = cfg (config_address bus device func offset)

abbrev pub config_write_u32 : (ℕ → ℕ → Config → Config) → Config → ℕ → ℕ → ℕ → ℕ → ℕ → Config
config_write_u32 put cfg bus device func offset value =
    put (config_address bus device func offset) value cfg

-- The body of the loop of `find_ahci_device`: `none` goes on with the next device.
unfoldable pub check_ahci : Config → ℕ → Option PciDevice
check_ahci cfg dev =
    let reg0 = config_read_u32 cfg 0 dev 0 0x00 in
    let reg8 = config_read_u32 cfg 0 dev 0 0x08 in
    if bit_and reg0 0xffff == 0xffff
    then none
    else if (u8 (reg8 >> 24) == 0x01) && (u8 (reg8 >> 16) == 0x06)
    then some (record {
      bus = 0;
      device = dev;
      function = 0;
      vendor_id = bit_and reg0 0xffff;
      class_code = 0x01;
      subclass = 0x06;
      bar0 = 0;
      bar1 = 0;
      bar5 = config_read_u32 cfg 0 dev 0 0x24;
    })
    else none

-- The body of the loop of `find_e1000`.
unfoldable pub check_e1000 : Config → ℕ → Option PciDevice
check_e1000 cfg dev =
    let reg0 = config_read_u32 cfg 0 dev 0 0x00 in
    let vendor = bit_and reg0 0xffff in
    let device_id = u16 (reg0 >> 16) in
    let reg8 = config_read_u32 cfg 0 dev 0 0x08 in
    let class = u8 (reg8 >> 24) in
    let sub = u8 (reg8 >> 16) in
    if vendor == 0xffff
    then none
    else if (vendor == 0x8086) && (device_id == 0x100E)
    then (if (class == 0x02) && (sub == 0x00)
        then some (record {
          bus = 0;
          device = dev;
          function = 0;
          vendor_id = vendor;
          class_code = class;
          subclass = sub;
          bar0 = config_read_u32 cfg 0 dev 0 0x10;
          bar1 = config_read_u32 cfg 0 dev 0 0x14;
          bar5 = 0;
        })
        else none)
    else none

-- `for dev in dev..dev + n`, left by the first `return Some(..)`.
unfoldable pub for_devices : (ℕ → Option PciDevice) → ℕ → ℕ → Option PciDevice
for_devices body dev zero = none
for_devices body dev (suc n) = elim (body dev) [
  | none ↦ for_devices body (suc dev) n
  | some p ↦ some p
]

unfoldable pub find_ahci_device : Config → Option PciDevice
unfolding check_ahci for_devices
find_ahci_device cfg = for_devices (check_ahci cfg) 0 32

unfoldable pub find_e1000 : Config → Option PciDevice
unfolding check_e1000 for_devices
find_e1000 cfg = for_devices (check_e1000 cfg) 0 32

-- `Memory Space` and `Bus Master` are set in the command register.
unfoldable pub enable_bus_master : (ℕ → ℕ → Config → Config) → Config → PciDevice → Config
unfolding config_address
enable_bus_master put cfg p =
    let cmd = config_read_u32 cfg p.bus p.device p.function 0x04 in
    config_write_u32 put cfg p.bus p.device p.function 0x04 (bit_or cmd 0x06)

unfoldable pub get_mmio_base : PciDevice → ℕ
get_mmio_base p = bit_or (u64 (p.bar1 << 32)) (bit_and p.bar0 0xFFFFFFF0)
