-- ===== src/Classify/Pci.antt =====
-- classify.c: the class of an interrupt, from what sysfs says of its PCI device.
use irqbalance.Prelude.{
  ℕ, ℤ, pos, negsuc, ◌%◌, ◌/◌, ◌^◌, ◌==◌, leb, ltb_ℤ, ◌&&◌, ◌||◌, Bool, Option, none, some, List,
  [], ◌∷◌, get_elem?, ◌>>=◌, if◌then◌else◌,
}

abbrev pub irq_nodef : ℤ
irq_nodef = negsuc 0

abbrev pub irq_other : ℤ
irq_other = pos 0

abbrev pub irq_legacy : ℤ
irq_legacy = pos 1

abbrev pub irq_scsi : ℤ
irq_scsi = pos 2

abbrev pub irq_video : ℤ
irq_video = pos 3

abbrev pub irq_eth : ℤ
irq_eth = pos 4

pub record PciInfo : Type 0 where
  pub vendor : ℕ
  pub device : ℕ
  pub sub_vendor : ℕ
  pub sub_device : ℕ
  pub class : ℕ

abbrev pub is_plx : PciInfo → Bool
is_plx pci = pci.vendor == 4277 && pci.device == 34329 && pci.sub_vendor == 4384

abbrev pub is_cavium : PciInfo → Bool
is_cavium pci = pci.vendor == 6013 && pci.device == 147 && pci.sub_vendor == 4384

-- The storage devices that call themselves something else.
unfoldable pub apply_pci_quirks : PciInfo → ℤ → ℤ
apply_pci_quirks pci irq_class =
    let first =
      if is_plx pci && (pci.sub_device == 1371 || pci.sub_device == 56576)
      then irq_scsi
      else irq_class in
    if is_cavium pci && pci.sub_device == 1384 then irq_scsi else first

abbrev pub major_class_codes : List ℤ
major_class_codes =
    irq_other ∷ irq_scsi ∷ irq_eth ∷ irq_video ∷ irq_other ∷ irq_other ∷ irq_legacy ∷ irq_other
    ∷ irq_other ∷ irq_legacy ∷ irq_other ∷ irq_other ∷ irq_nodef ∷ irq_eth ∷ irq_scsi ∷ irq_other
    ∷ irq_other ∷ irq_other ∷ irq_legacy ∷ irq_legacy ∷ []

-- The table of 0x81 entries: the ten that are listed, the gap, and the last.
unfoldable pub serial_sub_code : ℕ → ℤ
serial_sub_code sub =
    if leb 10 sub && leb sub 127
    then irq_nodef
    else if sub == 4 || sub == 6
    then irq_scsi
    else irq_legacy

-- A major code beyond the table has no class.
abbrev pub class_or_nodef : Option ℤ → ℤ
class_or_nodef none = irq_nodef
class_or_nodef (some c) = c

unfoldable pub map_pci_irq_class : ℕ → ℤ
unfolding serial_sub_code
map_pci_irq_class pci_class =
    let major = pci_class / 65536 in
    let sub = pci_class / 256 % 256 in
    if leb 20 major
    then irq_nodef
    else if major == 12
    then (if leb 129 sub then irq_nodef else serial_sub_code sub)
    else class_or_nodef (get_elem? major_class_codes major)

-- The files of the device that `get_hex` reads; `none` for one that cannot be read.
pub record PciFiles : Type 0 where
  pub vendor : Option ℕ
  pub device : Option ℕ
  pub subsystem_vendor : Option ℕ
  pub subsystem_device : Option ℕ
  pub class : Option ℕ

-- 0xFFFFFFFF stands for data that cannot be read, so what reads as that is taken for it.
unfoldable pub read_pci_data : Option ℕ → Option ℕ
read_pci_data none = none
read_pci_data (some v) = let read = v % 2 ^ 32 in if read == 4294967295 then none else some read

unfoldable pub get_pci_info : PciFiles → Option PciInfo
unfolding read_pci_data
get_pci_info f = do
  vendor ← read_pci_data f.vendor
  device ← read_pci_data f.device
  sub_vendor ← read_pci_data f.subsystem_vendor
  sub_device ← read_pci_data f.subsystem_device
  class ← read_pci_data f.class
  some (record {
    vendor = vendor % 65536;
    device = device % 65536;
    sub_vendor = sub_vendor % 65536;
    sub_device = sub_device % 65536;
    class = class;
  })

unfoldable pub class_of_pci : Option PciInfo → ℤ
unfolding map_pci_irq_class apply_pci_quirks
class_of_pci none = irq_nodef
class_of_pci (some pci) =
    let irq_class = map_pci_irq_class pci.class in
    if ltb_ℤ irq_class (pos 0) then irq_nodef else apply_pci_quirks pci irq_class

unfoldable pub get_irq_class : PciFiles → ℤ
unfolding get_pci_info class_of_pci
get_irq_class f = class_of_pci (get_pci_info f)
