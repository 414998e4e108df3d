-- ===== src/Runtime/Library.antt =====
-- runtime/src/open.c, alloc.c, info.c and stats.c: the objects that the library keeps for a process,
-- and its calls of the kernel. An object is a cell at an address; a cell that is not allocated is none,
-- and a call that reads one has no result.
pub mod Owned
use linux_pci_driver.Common.{
  ℕ, ◌+◌, ◌<◌, ltb, leb, if◌then◌else◌, Bool, true, false, not, ◌||◌, ◌≡◌, ◌⊎◌, inl, inr, Option,
  none, some, List, [], ◌∷◌, ◌++◌, length, update,
}
use linux_pci_driver.Hw.{einval, enomem}
use linux_pci_driver.Device.Allocator.{AllocReq, StatResp}
use linux_pci_driver.Driver.Cdev.{IoctlHandle, IoctlInfo, DeviceInfo}
use linux_pci_driver.Runtime.Scan as Scan

-- What the library asks of the kernel: each call gives an errno or its result.
pub record System : Type 1 where
  pub Kernel : Type 0
  pub open_file : List ℕ → Kernel → (ℕ ⊎ ℕ) × Kernel
  pub close_file : ℕ → Kernel → ℕ × Kernel
  pub ioctl_info : ℕ → Kernel → (ℕ ⊎ IoctlInfo) × Kernel
  pub ioctl_stats : ℕ → Kernel → (ℕ ⊎ StatResp) × Kernel
  pub ioctl_alloc : ℕ → AllocReq → Kernel → (ℕ ⊎ IoctlHandle) × Kernel
  pub ioctl_free : ℕ → IoctlHandle → Kernel → ℕ × Kernel
  pub alloc_errno :
      (fd : ℕ) (req : AllocReq) (k : Kernel) (err : ℕ)
      → (ioctl_alloc fd req k).0 ≡ inl err
      → 0 < err

-- `fd` is none for -1.
pub record VelocitorDevice : Type 0 where
  pub fd : Option ℕ
  pub info : Scan.DeviceInfo

pub record VelocitorHandle : Type 0 where
  pub alloc : AllocReq
  pub handle : IoctlHandle
  pub device : ℕ

pub record Process (K : Type 0) : Type 0 where
  pub kernel : K
  pub devices : ℕ → Option VelocitorDevice
  pub handles : ℕ → Option VelocitorHandle
  pub fresh : ℕ

-- PATH_MAX.
abbrev pub path_max : ℕ
path_max = 4096

abbrev pub dev_path : List ℕ → List ℕ
dev_path devname = b'/' ∷ b'd' ∷ b'e' ∷ b'v' ∷ b'/' ∷ devname

-- What `calloc` leaves of a device and of a handle.
abbrev pub no_info : Scan.DeviceInfo
no_info = record {
  present = false;
  minor = 0;
  devname = [];
  firmware_minor = 0;
  firmware_major = 0;
  memory = 0;
  nodes = 0;
  engines = 0;
}

abbrev pub no_handle : IoctlHandle
no_handle = record { addr = 0; node = 0; generation = 0 }

abbrev pub with_answer : IoctlHandle → Option VelocitorHandle → Option VelocitorHandle
with_answer x none = none
with_answer x (some h) = some (record h { handle = x })

abbrev pub answered : (ℕ → Option VelocitorHandle) → ℕ → IoctlHandle → ℕ → Option VelocitorHandle
answered handles h x = update handles h (with_answer x (handles h))

module _ (sys : System) where
  abbrev pub State : Type 0
  State = Process sys.Kernel

  -- The errno or 0, and the pointer that was written, if one was.
  abbrev pub Given : Type 0
  Given = (ℕ × Option (Option ℕ)) × State

  -- `calloc` of a device.
  abbrev pub new_device : State → State
  new_device p = record p {
    devices = update p.devices p.fresh (some (record { fd = some 0; info = no_info }));
    fresh = p.fresh + 1;
  }

  -- The device at `h` with what `open` gave, or freed.
  abbrev pub opened : Scan.DeviceInfo → ℕ → (ℕ ⊎ ℕ) × sys.Kernel → State → Given
  opened info h (inl err, k) p =
      ((err, some none), record p { kernel = k; devices = update p.devices h none })
  opened info h (inr fd, k) p = (
    (0, some (some h)),
    record p {
      kernel = k;
      devices = update p.devices h (some (record { fd = some fd; info = info }));
    },
  )

  -- With memory for `calloc`, and whether there is a pointer to write.
  unfoldable pub velocitor_open : Bool → Option Scan.DeviceInfo → Bool → State → Given
  velocitor_open memory none device p = ((einval, none), p)
  velocitor_open memory (some info) device p =
      if not device
      then ((einval, none), p)
      else if leb path_max (length (dev_path info.devname))
      then ((Scan.enametoolong, some none), p)
      else if not memory
      then ((enomem, some none), p)
      else opened info p.fresh (sys.open_file (dev_path info.devname) p.kernel) (new_device p)

  abbrev pub closed : Option ℕ → State → ℕ × sys.Kernel
  closed none p = (0, p.kernel)
  closed (some fd) p = sys.close_file fd p.kernel

  unfoldable pub velocitor_close : Option ℕ → State → Option (ℕ × State)
  velocitor_close none p = some (0, p)
  velocitor_close (some h) p = elim (p.devices h) [
    | none ↦ none
    | some d ↦
        let (err, k) = closed d.fd p in
        some (err, record p { kernel = k; devices = update p.devices h none })
  ]

  -- `calloc` of a handle, with the device and the request written into it.
  abbrev pub new_handle : ℕ → AllocReq → State → State
  new_handle device req p = record p {
    handles =
        update p.handles p.fresh
          (some (record { alloc = req; handle = no_handle; device = device }));
    fresh = p.fresh + 1;
  }

  -- The ioctl's answer, written into the handle at `h`; or the handle freed.
  abbrev pub allocated : ℕ → (ℕ ⊎ IoctlHandle) × sys.Kernel → State → Given
  allocated h (inl err, k) p =
      ((err, some none), record p { kernel = k; handles = update p.handles h none })
  allocated h (inr x, k) p =
      ((0, some (some h)), record p { kernel = k; handles = answered p.handles h x })

  abbrev pub alloc_on : Bool → ℕ → Option ℕ → AllocReq → Bool → State → Given
  alloc_on memory device none req handle p = ((einval, none), p)
  alloc_on memory device (some fd) req handle p =
      if not handle
      then ((einval, none), p)
      else if not memory
      then ((enomem, some none), p)
      else allocated p.fresh (sys.ioctl_alloc fd req p.kernel) (new_handle device req p)

  unfoldable pub velocitor_alloc : Bool → Option ℕ → ℕ → ℕ → ℕ → Bool → State → Option Given
  velocitor_alloc memory none size node type handle p = some ((einval, none), p)
  velocitor_alloc memory (some device) size node type handle p = elim (p.devices device) [
    | none ↦ none
    | some d ↦
        some
          (alloc_on memory device d.fd (record { size = size; dtype = type; node = node }) handle p)
  ]

  -- The ioctl on -1 gives EBADF.
  abbrev pub freed : Option ℕ → IoctlHandle → State → ℕ × sys.Kernel
  freed none handle p = (9, p.kernel)
  freed (some fd) handle p = sys.ioctl_free fd handle p.kernel

  unfoldable pub velocitor_free : Option ℕ → State → Option (ℕ × State)
  velocitor_free none p = some (einval, p)
  velocitor_free (some h) p = elim (p.handles h) [
    | none ↦ none
    | some x ↦ elim (p.devices x.device) [
      | none ↦ none
      | some d ↦
          let (err, k) = freed d.fd x.handle p in
          some (err, record p { kernel = k; handles = update p.handles h none })
    ]
  ]

  abbrev pub told : {A : Type 0} → (ℕ ⊎ A) × sys.Kernel → State → (ℕ × Option A) × State
  told (inl err, k) p = ((err, none), record p { kernel = k })
  told (inr a, k) p = ((0, some a), record p { kernel = k })

  abbrev pub state_of : Option ℕ → Bool → State → (ℕ × Option IoctlInfo) × State
  state_of none state p = ((einval, none), p)
  state_of (some fd) state p =
      if not state then ((einval, none), p) else told (sys.ioctl_info fd p.kernel) p

  -- What is given is what stands in the caller's structure.
  unfoldable pub velocitor_state : Option ℕ → Bool → State → Option ((ℕ × Option IoctlInfo) × State)
  velocitor_state none state p = some ((einval, none), p)
  velocitor_state (some device) state p = elim (p.devices device) [
    | none ↦ none
    | some d ↦ some (state_of d.fd state p)
  ]

  abbrev pub stats_of : Option ℕ → Bool → State → (ℕ × Option StatResp) × State
  stats_of none stats p = ((einval, none), p)
  stats_of (some fd) stats p =
      if not stats then ((einval, none), p) else told (sys.ioctl_stats fd p.kernel) p

  unfoldable pub velocitor_stats : Option ℕ → Bool → State → Option ((ℕ × Option StatResp) × State)
  velocitor_stats none stats p = some ((einval, none), p)
  velocitor_stats (some device) stats p = elim (p.devices device) [
    | none ↦ none
    | some d ↦ some (stats_of d.fd stats p)
  ]
