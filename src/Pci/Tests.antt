-- ===== src/Pci/Tests.antt =====
-- The theorems applied to a bus with a bridge and two controllers.
use forward_os_kernel_base.Base.{◌+◌, ◌*◌, ◌^◌, ◌==◌, if◌then◌else◌}
use forward_os_kernel_base.Pci.{Config, find_e1000}
use forward_os_kernel_base.Pci.Search.{First, IsE1000, e1000_at}
use forward_os_kernel_base.Pci.Search.{find_e1000_lem}

abbrev bus_0 : Config
bus_0 a =
    if a == 2 ^ 31
    then 0x12378086
    else if a == 2 ^ 31 + 3 * 2 ^ 11
    then 0x100E8086
    else if a == 2 ^ 31 + 3 * 2 ^ 11 + 0x08
    then 0x02000003
    else if a == 2 ^ 31 + 3 * 2 ^ 11 + 0x10
    then 0xFEB80000
    else if a == 2 ^ 31 + 31 * 2 ^ 11
    then 0x29228086
    else if a == 2 ^ 31 + 31 * 2 ^ 11 + 0x08
    then 0x01060102
    else 0xFFFFFFFF

find_e1000_example : First (IsE1000 bus_0) (e1000_at bus_0) 0 32 (find_e1000 bus_0)
find_e1000_example = find_e1000_lem bus_0
