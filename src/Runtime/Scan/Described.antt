-- ===== src/Runtime/Scan/Described.antt =====
-- What `velocitor_sysfs_read_device_attrs` of runtime/src/scan.c makes of the five files of a device.
use linux_pci_driver.Common.{
  nonzero, ℕ, zero, suc, ◌/◌, ◌%◌, ◌^◌, ◌<◌, ◌==◌, if◌then◌else◌, true, false, not, ◌&&◌, ◌≡◌, ◌≢◌,
  refl, arith, ◌⊎◌, inl, inr, Option, none, some, List, [], dchoose,
}
use linux_pci_driver.Runtime.Text.{scan_i64}
use linux_pci_driver.Runtime.Scan.{
  DeviceInfo, Attr, Sysfs, sysfs_read_uevent, sysfs_read_u64, then_read, read_device_attrs,
  uevent_lines, Uevent, is_some, or_else, after_uevent, set_version, set_mem_size, set_nodes,
  set_engines, number_of, fgets_all, enoent,
}

-- A device by what its five files hold, and none where one cannot be read.
abbrev both : Option (List ℕ) → Option ℕ → Option (List ℕ × ℕ)
both (some name) (some minor) = some (name, minor)
both name minor = none

abbrev of_uevent : ℕ × Uevent → Option (List ℕ × ℕ)
of_uevent (err, u) = if err == 0 then both u.devname u.minor else none

abbrev pub identified : ℕ ⊎ List ℕ → Option (List ℕ × ℕ)
identified (inl err) = none
identified (inr text) =
    of_uevent (uevent_lines (fgets_all 255 255 [] text) (record { devname = none; minor = none }))

abbrev pub device : Option (List ℕ × ℕ) → ℕ ⊎ ℕ → ℕ ⊎ ℕ → ℕ ⊎ ℕ → ℕ ⊎ ℕ → Option DeviceInfo
device (some (devname, minor)) (inr version) (inr mem_size) (inr nodes) (inr engines) =
    some (record {
      present = true;
      minor = minor;
      devname = devname;
      firmware_minor = version % 2 ^ 16;
      firmware_major = version / 2 ^ 16 % 2 ^ 32;
      memory = mem_size;
      nodes = nodes % 2 ^ 32;
      engines = engines % 2 ^ 32;
    })
device u v m n e = none

unfoldable pub described : Sysfs → List ℕ → Option DeviceInfo
described fs name =
    device (identified (fs.fopen name Attr.uevent)) (sysfs_read_u64 (fs.fopen name Attr.version))
      (sysfs_read_u64 (fs.fopen name Attr.mem_size)) (sysfs_read_u64 (fs.fopen name Attr.nodes))
      (sysfs_read_u64 (fs.fopen name Attr.engines))

-- An outcome of `velocitor_sysfs_read_device_attrs` that goes with a description.
abbrev pub Goes : Option DeviceInfo → ℕ × DeviceInfo → Type 0
Goes none (err, d) = err ≢ 0
Goes (some x) (err, d) = (err ≡ 0) × (d ≡ x)

abbrev Failed : ℕ × DeviceInfo → Type 0
Failed r = r.0 ≢ 0

then_read-Failed :
    (r : ℕ × DeviceInfo) (x : ℕ ⊎ ℕ) (set : ℕ → DeviceInfo → DeviceInfo)
    → Failed r
    → Failed (then_read r x set)
unfolding then_read
then_read-Failed (err, d) (inl bad) set f = let e : (not (err == 0)) ≡ true = ground arith in rw e f
then_read-Failed (err, d) (inr v) set f = let e : (not (err == 0)) ≡ true = ground arith in rw e f

then_read-bad :
    (r : ℕ × DeviceInfo) (bad : ℕ) (set : ℕ → DeviceInfo → DeviceInfo)
    → 0 < bad
    → Failed (then_read r (inl bad) set)
unfolding then_read
then_read-bad (err, d) bad set pos =
    dchoose Failed (not (err == 0)) (λ e z. ground arith) (λ _ z. omega (arith, z, pos))

-- What `sysfs_read_uevent` makes of a device.
abbrev Ident : Option (List ℕ × ℕ) → ℕ × DeviceInfo → DeviceInfo → Type 0
Ident none r d = Failed r
Ident (some (devname, minor)) r d = r ≡ (0, record d { devname = devname; minor = minor })

after_uevent-Ident : (x : ℕ × Uevent) (d : DeviceInfo) → Ident (of_uevent x) (after_uevent x d) d
unfolding after_uevent
after_uevent-Ident (suc err, u) d = rw (nonzero err) (λ z. omega (arith, z))
after_uevent-Ident (zero, u) d = fields u.devname u.minor
  where
    fields :
        (name : Option (List ℕ)) (minor : Option ℕ)
        → Ident
            (both name minor)
            (
              if is_some name && is_some minor then 0 else enoent,
              record d { devname = or_else name d.devname; minor = or_else minor d.minor },
            )
            d
    fields none minor = λ z. omega (arith, z)
    fields (some name) none = λ z. omega (arith, z)
    fields (some name) (some minor) = refl

-- An errno is not 0.
abbrev Pos {ℓ} : {A : Type ℓ} → ℕ ⊎ A → Type 0
Pos (inl err) = 0 < err
Pos (inr a) = Unit {0}

uevent-Ident :
    (file : ℕ ⊎ List ℕ) (d : DeviceInfo)
    → Pos file
    → Ident (identified file) (sysfs_read_uevent file d) d
unfolding sysfs_read_uevent
uevent-Ident (inl err) d pos = λ z. omega (arith, z, pos)
uevent-Ident (inr text) d pos =
    after_uevent-Ident
      (uevent_lines (fgets_all 255 255 [] text) (record { devname = none; minor = none })) d

u64-Pos : (file : ℕ ⊎ List ℕ) → Pos file → Pos (sysfs_read_u64 file)
unfolding sysfs_read_u64
u64-Pos (inl err) pos = pos
u64-Pos (inr text) pos = number (scan_i64 text)
  where
    number : (v : Option ℕ) → Pos (number_of v)
    number none = omega arith
    number (some v) = tt

device-Goes :
    (i : Option (List ℕ × ℕ)) (r : ℕ × DeviceInfo) (d : DeviceInfo) (v m n e : ℕ ⊎ ℕ)
    → Ident i r (record d { present = false })
    → Pos v
    → Pos m
    → Pos n
    → Pos e
    → Goes (device i v m n e) (
        then_read
          (then_read (then_read (then_read r v set_version) m set_mem_size) n set_nodes)
          e
          set_engines)
unfolding then_read
device-Goes none r d v m n e is pv pm pn pe = then_read-Failed _ e set_engines (
    then_read-Failed _ n set_nodes
      (then_read-Failed _ m set_mem_size (then_read-Failed r v set_version is)))
device-Goes (some i) r d (inl b) m n e is pv pm pn pe = then_read-Failed _ e set_engines (
    then_read-Failed _ n set_nodes
      (then_read-Failed _ m set_mem_size (then_read-bad r b set_version pv)))
device-Goes (some i) r d (inr v) (inl b) n e is pv pm pn pe = then_read-Failed _ e set_engines (
    then_read-Failed _ n set_nodes
      (then_read-bad (then_read r (inr v) set_version) b set_mem_size pm))
device-Goes (some i) r d (inr v) (inr m) (inl b) e is pv pm pn pe =
    then_read-Failed _ e set_engines (
      then_read-bad (then_read (then_read r (inr v) set_version) (inr m) set_mem_size) b set_nodes
        pn)
device-Goes (some i) r d (inr v) (inr m) (inr n) (inl b) is pv pm pn pe =
    then_read-bad
      (then_read (then_read (then_read r (inr v) set_version) (inr m) set_mem_size) (inr n)
        set_nodes)
      b set_engines pe
device-Goes (some (name, minor)) r d (inr v) (inr m) (inr n) (inr e) is pv pm pn pe =
    rw is (refl, refl)

file-Pos : (fs : Sysfs) (name : List ℕ) (a : Attr) (f : ℕ ⊎ List ℕ) → fs.fopen name a ≡ f → Pos f
file-Pos fs name a (inl err) e = fs.errno name a err e
file-Pos fs name a (inr text) e = tt

-- A device is read without an error just where its files describe one, and then is that one, whatever
-- it was before.
pub read_device_attrs-Goes :
    (fs : Sysfs) (name : List ℕ) (d : DeviceInfo)
    → Goes (described fs name) (read_device_attrs fs name d)
unfolding described read_device_attrs
read_device_attrs-Goes fs name d =
    let pos = λ (a : Attr). file-Pos fs name a (fs.fopen name a) refl in
    device-Goes (identified (fs.fopen name Attr.uevent)) _ d _ _ _ _
      (uevent-Ident (fs.fopen name Attr.uevent) (record d { present = false }) (pos Attr.uevent))
      (u64-Pos _ (pos Attr.version)) (u64-Pos _ (pos Attr.mem_size)) (u64-Pos _ (pos Attr.nodes))
      (u64-Pos _ (pos Attr.engines))
