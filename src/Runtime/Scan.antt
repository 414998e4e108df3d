-- ===== src/Runtime/Scan.antt =====
-- runtime/src/scan.c: the devices that sysfs names. A directory of sysfs, and a file of it, is what
-- `opendir` and `fopen` come to: an errno, or the content. A path fits its buffer.
pub mod Described
pub mod Found
pub mod Identity
use linux_pci_driver.Common.{
  ℕ, zero, suc, ◌+◌, ◌-◌, ◌/◌, ◌%◌, ◌^◌, min, ltb, leb, ◌==◌, if◌then◌else◌, Bool, true, false, not,
  ◌&&◌, ◌||◌, ◌⊎◌, ◌≡◌, ◌<◌, inl, inr, Option, none, some, List, [], ◌∷◌, ◌++◌, length, take, drop,
  update,
}
use linux_pci_driver.Hw.{einval}
use linux_pci_driver.Runtime.Text.{starts, cut_line, scan_i64, strtoul}

abbrev pub enoent : ℕ
enoent = 2

abbrev pub enametoolong : ℕ
enametoolong = 36

-- VEL_MAX_DEVICES of uapi/velocitor.h, and VEL_DEVNAME_MAX and the description of a device of
-- runtime/velocitor/velocitor.h.
abbrev pub max_devices : ℕ
max_devices = 8

abbrev pub devname_max : ℕ
devname_max = 64

pub record DeviceInfo : Type 0 where
  pub present : Bool
  pub minor : ℕ
  pub devname : List ℕ
  pub firmware_minor : ℕ
  pub firmware_major : ℕ
  pub memory : ℕ
  pub nodes : ℕ
  pub engines : ℕ

-- The entries of the class, and the files `uevent`, `version`, `mem_size`, `nodes` and `engines` of one.
pub data Attr : Type 0 where
  uevent version mem_size nodes engines : Attr

pub record Sysfs : Type 0 where
  pub opendir : ℕ ⊎ List (List ℕ)
  pub fopen : List ℕ → Attr → ℕ ⊎ List ℕ
  pub errno : (name : List ℕ) (a : Attr) (err : ℕ) → fopen name a ≡ inl err → 0 < err

-- `fgets` until the end of the file: what one call gives ends behind a newline, or after `room` bytes.
abbrev pub fgets_all : ℕ → ℕ → List ℕ → List ℕ → List (List ℕ)
fgets_all size room [] [] = []
fgets_all size room (b ∷ bs) [] = (b ∷ bs) ∷ []
fgets_all size room line (c ∷ cs) = elim ((c == b'\n') || leb room 1) [
  | true ↦ (line ++ (c ∷ [])) ∷ fgets_all size size [] cs
  | false ↦ fgets_all size (room - 1) (line ++ (c ∷ [])) cs
]

-- What the loop over `uevent` has: the name and the minor, where they were found.
pub record Uevent : Type 0 where
  pub devname : Option (List ℕ)
  pub minor : Option ℕ

-- A name that does not fit is cut and ends the loop.
unfoldable pub uevent_lines : List (List ℕ) → Uevent → ℕ × Uevent
unfolding strtoul
uevent_lines [] u = (0, u)
uevent_lines (raw ∷ more) u =
    let line = cut_line raw in
    let name = drop 8 line in
    let named = uevent_lines more (record u { devname = some name }) in
    let numbered = uevent_lines more (record u { minor = some (strtoul (drop 6 line) % 2 ^ 32) }) in
    let rest = uevent_lines more u in
    if starts (b'D' ∷ b'E' ∷ b'V' ∷ b'N' ∷ b'A' ∷ b'M' ∷ b'E' ∷ b'=' ∷ []) line
    then if leb devname_max (length name)
      then (enametoolong, record u { devname = some (take (devname_max - 1) name) })
      else named
    else if starts (b'M' ∷ b'I' ∷ b'N' ∷ b'O' ∷ b'R' ∷ b'=' ∷ []) line
    then numbered
    else rest

abbrev pub is_some {ℓ} : {A : Type ℓ} → Option A → Bool
is_some none = false
is_some (some a) = true

abbrev pub or_else {ℓ} : {A : Type ℓ} → Option A → A → A
or_else none d = d
or_else (some a) d = a

unfoldable pub after_uevent : ℕ × Uevent → DeviceInfo → ℕ × DeviceInfo
after_uevent (err, u) d = (
  if not (err == 0) then err else if is_some u.devname && is_some u.minor then 0 else enoent,
  record d { devname = or_else u.devname d.devname; minor = or_else u.minor d.minor },
)

unfoldable pub sysfs_read_uevent : ℕ ⊎ List ℕ → DeviceInfo → ℕ × DeviceInfo
unfolding uevent_lines after_uevent
sysfs_read_uevent (inl err) d = (err, d)
sysfs_read_uevent (inr text) d =
    after_uevent
      (uevent_lines (fgets_all 255 255 [] text) (record { devname = none; minor = none })) d

abbrev pub number_of : Option ℕ → ℕ ⊎ ℕ
number_of none = inl einval
number_of (some v) = inr v

unfoldable pub sysfs_read_u64 : ℕ ⊎ List ℕ → ℕ ⊎ ℕ
unfolding scan_i64
sysfs_read_u64 (inl err) = inl err
sysfs_read_u64 (inr text) = number_of (scan_i64 text)

-- A step of `velocitor_sysfs_read_device_attrs` behind one that went well.
unfoldable pub then_read : ℕ × DeviceInfo → ℕ ⊎ ℕ → (ℕ → DeviceInfo → DeviceInfo) → ℕ × DeviceInfo
then_read (err, d) (inl bad) set = if not (err == 0) then (err, d) else (bad, d)
then_read (err, d) (inr v) set = if not (err == 0) then (err, d) else (0, set v d)

abbrev pub set_version : ℕ → DeviceInfo → DeviceInfo
set_version v d = record d { firmware_major = v / 2 ^ 16 % 2 ^ 32; firmware_minor = v % 2 ^ 16 }

abbrev pub set_mem_size : ℕ → DeviceInfo → DeviceInfo
set_mem_size v d = record d { memory = v }

abbrev pub set_nodes : ℕ → DeviceInfo → DeviceInfo
set_nodes v d = record d { nodes = v % 2 ^ 32 }

abbrev pub set_engines : ℕ → DeviceInfo → DeviceInfo
set_engines v d = record d { engines = v % 2 ^ 32; present = true }

-- The name starts with a dot.
abbrev pub hidden : List ℕ → Bool
hidden [] = false
hidden (c ∷ cs) = c == b'.'

module _ (fs : Sysfs) where
  unfoldable pub read_device_attrs : List ℕ → DeviceInfo → ℕ × DeviceInfo
  unfolding sysfs_read_uevent sysfs_read_u64 then_read
  read_device_attrs dname d =
      let r0 = sysfs_read_uevent (fs.fopen dname Attr.uevent) (record d { present = false }) in
      let r1 = then_read r0 (sysfs_read_u64 (fs.fopen dname Attr.version)) set_version in
      let r2 = then_read r1 (sysfs_read_u64 (fs.fopen dname Attr.mem_size)) set_mem_size in
      let r3 = then_read r2 (sysfs_read_u64 (fs.fopen dname Attr.nodes)) set_nodes in
      then_read r3 (sysfs_read_u64 (fs.fopen dname Attr.engines)) set_engines

  -- The loop over the entries, from the device at `idx` on.
  unfoldable pub scan_entries : ℕ → List (List ℕ) → ℕ → (ℕ → DeviceInfo) → ℕ × (ℕ → DeviceInfo)
  unfolding read_device_attrs
  scan_entries count [] idx devices = (idx, devices)
  scan_entries count (name ∷ more) idx devices =
      let (err, d) = read_device_attrs name (devices idx) in
      let skipped = scan_entries count more idx devices in
      let failed = scan_entries count more idx (update devices idx d) in
      let found = scan_entries count more (idx + 1) (update devices idx d) in
      if not (ltb idx count)
      then (idx, devices)
      else if hidden name
      then skipped
      else if err == 0
      then found
      else failed

  -- The errno, or how many devices were found, and the array, if there is one.
  unfoldable pub velocitor_scan : Option (ℕ → DeviceInfo) → ℕ → (ℕ ⊎ ℕ) × Option (ℕ → DeviceInfo)
  unfolding scan_entries
  velocitor_scan none count = (inl einval, none)
  velocitor_scan (some devices) count = scanned fs.opendir
    where
      scanned : ℕ ⊎ List (List ℕ) → (ℕ ⊎ ℕ) × Option (ℕ → DeviceInfo)
      scanned (inl err) = (inl err, some devices)
      scanned (inr entries) =
          let (idx, d) = scan_entries (min count max_devices) entries 0 devices in (inr idx, some d)
