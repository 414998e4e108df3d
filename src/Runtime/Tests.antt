-- ===== src/Runtime/Tests.antt =====
-- The theorems about runtime/src, on a sysfs with one card and on a kernel that grants every request.
use linux_pci_driver.Common.{
  ℕ, ◌+◌, ◌==◌, if◌then◌else◌, ◌<◌, ◌≡◌, ◌⊎◌, refl, arith, min, inl, inr, true, false, none, some,
  List, [], ◌∷◌, take, length,
}
use linux_pci_driver.Device.Allocator.{AllocReq}
use linux_pci_driver.Device.Tests.{running}
use linux_pci_driver.Driver.Cdev.{IoctlHandle}
use linux_pci_driver.Driver.Identity.{
  VelocitorIdentity, identity_initialize, version_show, mem_size_show, nodes_show, engines_show,
}
use linux_pci_driver.Runtime.Library.{
  System, State, Given, VelocitorDevice, velocitor_alloc, velocitor_free,
}
use linux_pci_driver.Runtime.Library.Owned.{Owned, velocitor_alloc-Owned, alloc-free}
use linux_pci_driver.Runtime.Text.{strtoul, read_digits, digit_value}
use linux_pci_driver.Runtime.Scan.{
  DeviceInfo, Attr, Sysfs, max_devices, velocitor_scan, read_device_attrs, uevent_lines,
}
use linux_pci_driver.Runtime.Scan.Described.{identified}
use linux_pci_driver.Runtime.Scan.Found.{
  visible, listed, velocitor_scan-found, velocitor_scan-bounds,
}
use linux_pci_driver.Runtime.Scan.Identity.{
  Shows, read_device_attrs-Shows, identity_initialize-Bounded,
}

abbrev identity : VelocitorIdentity
identity = (identity_initialize running).0

abbrev name : List ℕ
name = b'v' ∷ b'0' ∷ []

abbrev uevent : List ℕ
uevent =
    b'M' ∷ b'I' ∷ b'N' ∷ b'O' ∷ b'R' ∷ b'=' ∷ b'3' ∷ b'\n' ∷ b'D' ∷ b'E' ∷ b'V' ∷ b'N' ∷ b'A' ∷ b'M'
    ∷ b'E' ∷ b'=' ∷ b'v' ∷ b'0' ∷ b'\n' ∷ []

abbrev files : List ℕ → Attr → ℕ ⊎ List ℕ
files entry Attr.uevent = inr uevent
files entry Attr.version = inr (version_show identity)
files entry Attr.mem_size = inr (mem_size_show identity)
files entry Attr.nodes = inr (nodes_show identity)
files entry Attr.engines = inr (engines_show identity)

no_errno : (entry : List ℕ) (a : Attr) (err : ℕ) → files entry a ≡ inl err → 0 < err
no_errno entry Attr.uevent err e = absurd (cc e)
no_errno entry Attr.version err e = absurd (cc e)
no_errno entry Attr.mem_size err e = absurd (cc e)
no_errno entry Attr.nodes err e = absurd (cc e)
no_errno entry Attr.engines err e = absurd (cc e)

abbrev sysfs : Sysfs
sysfs = record {
  opendir = inr ((b'.' ∷ []) ∷ (b'.' ∷ b'.' ∷ []) ∷ name ∷ []);
  fopen = files;
  errno = no_errno;
}

shows : Shows sysfs name identity
shows = record { version = refl; mem_size = refl; nodes = refl; engines = refl }

found : identified (sysfs.fopen name Attr.uevent) ≡ some (name, 3)
unfolding uevent_lines strtoul read_digits digit_value
found = refl

abbrev blank : DeviceInfo
blank = record {
  present = false;
  minor = 0;
  devname = [];
  firmware_minor = 0;
  firmware_major = 0;
  memory = 0;
  nodes = 0;
  engines = 0;
}

read_device_attrs_example : read_device_attrs sysfs name blank ≡ (
  0,
  record {
    present = true;
    minor = 3;
    devname = name;
    firmware_minor = identity.version_minor;
    firmware_major = identity.version_major;
    memory = identity.mem_size;
    nodes = identity.nodes;
    engines = identity.engines;
  },
)
read_device_attrs_example =
    read_device_attrs-Shows sysfs name identity name 3 blank (identity_initialize-Bounded running).0
      shows found

velocitor_scan_example :
    (n : ℕ) × (d : ℕ → DeviceInfo) × (velocitor_scan sysfs (some (λ k. blank)) 4 ≡ (inr n, some d))
    × (listed d 0 n
        ≡ take (min 4 max_devices) (visible sysfs ((b'.' ∷ []) ∷ (b'.' ∷ b'.' ∷ []) ∷ name ∷ [])))
    × (n
        ≡ length (
            take
              (min 4 max_devices)
              (visible sysfs ((b'.' ∷ []) ∷ (b'.' ∷ b'.' ∷ []) ∷ name ∷ []))))
velocitor_scan_example =
    velocitor_scan-found sysfs 4 (λ k. blank) ((b'.' ∷ []) ∷ (b'.' ∷ b'.' ∷ []) ∷ name ∷ []) refl

velocitor_scan_bounds_example :
    (d : ℕ → DeviceInfo) × ((velocitor_scan sysfs (some (λ k. blank)) 20).1 ≡ some d)
    × (d 8 ≡ blank)
velocitor_scan_bounds_example =
    velocitor_scan-bounds sysfs 20 (λ k. blank) ((b'.' ∷ []) ∷ (b'.' ∷ b'.' ∷ []) ∷ name ∷ []) 8
      refl (omega arith)

granted_errno :
    (k : ℕ) (err : ℕ)
    → ◌≡◌ {A = ℕ ⊎ IoctlHandle} (inr (record { addr = k; node = 0; generation = 1 })) (inl err)
    → 0 < err
granted_errno k err e = absurd (cc e)

-- A kernel that grants each ALLOC with the next number, counts what it granted and never frees it.
abbrev generous : System
generous = record {
  Kernel = ℕ;
  open_file = λ path k. (inr 5, k);
  close_file = λ fd k. (0, k);
  ioctl_info = λ fd k. (inl 5, k);
  ioctl_stats = λ fd k. (inl 5, k);
  ioctl_alloc = λ fd req k. (inr (record { addr = k; node = 0; generation = 1 }), k + 1);
  ioctl_free = λ fd h k. (0, k);
  alloc_errno = λ fd req k err e. granted_errno k err e;
}

abbrev open_device : VelocitorDevice
open_device = record { fd = some 5; info = blank }

abbrev process : State generous
process = record {
  kernel = 1;
  devices = λ i. if i == 0 then some open_device else none;
  handles = λ i. none;
  fresh = 1;
}

abbrev request : AllocReq
request = record { size = 64; dtype = 0; node = 0 }

velocitor_alloc_example :
    (g : Given generous) × (velocitor_alloc generous true (some 0) 64 0 0 true process ≡ some g)
    × Owned generous 0 request process g
velocitor_alloc_example =
    velocitor_alloc-Owned generous true true 0 64 0 0 process open_device refl refl

alloc_free_example :
    (q : State generous) × (r : State generous) × (velocitor_alloc generous true
        (some 0)
        64
        0
        0
        true
        process
      ≡ some ((0, some (some 1)), q))
    × (velocitor_free generous (some 1) q ≡ some (0, r))
    × (r.kernel ≡ 2)
    × ((i : ℕ) → r.handles i ≡ none)
alloc_free_example =
    alloc-free generous 0 64 0 0 5 blank process (record { addr = 1; node = 0; generation = 1 }) 2
      refl refl refl
