-- ===== src/Driver/Lifecycle.antt =====
-- The life cycle of the driver: `initialize_bar0`, and the loading and unloading of the module, of
-- module/src/lifecycle.c. What the kernel's calls come to is an argument: an errno, or 0.
pub mod Unwinding
use linux_pci_driver.Common.{
  ℕ, ◌==◌, if◌then◌else◌, Bool, true, false, not, List, [], ◌∷◌, complement,
}
use linux_pci_driver.Hw as Hw
use linux_pci_driver.Hw.Offsets.{reg_magic, reg_scratch}
use linux_pci_driver.Device.State.{VelocitorState, Env}
use linux_pci_driver.Driver.Io.{readl, writel}

-- The loop over the values that SCRATCH gives back inverted.
unfoldable pub check_scratch : Env → List ℕ → VelocitorState → ℕ × VelocitorState
check_scratch env [] s = (0, s)
check_scratch env (x ∷ xs) s =
    let (res, s1) = readl reg_scratch (writel env x reg_scratch s) in
    let rest = check_scratch env xs s1 in
    if not (complement 32 x == res) then (Hw.enodev, s1) else rest

-- With what mapping the BAR comes to.
unfoldable pub initialize_bar0 : Env → ℕ → VelocitorState → ℕ × VelocitorState
unfolding check_scratch
initialize_bar0 env map s =
    let (magic, s1) = readl reg_magic s in
    if not (map == 0)
    then (map, s)
    else if not (Hw.magic == magic)
    then (Hw.enodev, s1)
    else check_scratch env (0x42000042 ∷ 0x12345678 ∷ []) s1

-- What the loaded module holds.
pub record Held : Type 0 where
  pub debugfs : Bool
  pub class : Bool
  pub rpmsg : Bool
  pub virtio : Bool
  pub pci : Bool

abbrev pub nothing : Held
nothing = record { debugfs = false; class = false; rpmsg = false; virtio = false; pci = false }

abbrev pub everything : Held
everything = record { debugfs = true; class = true; rpmsg = true; virtio = true; pci = true }

-- The labels of `init_`, from the last to the first, each falling through to the next.
unfoldable pub error_debugfs : ℕ → Held → ℕ × Held
error_debugfs err h = (err, record h { debugfs = false })

unfoldable pub error_class : ℕ → Held → ℕ × Held
unfolding error_debugfs
error_class err h = error_debugfs err (record h { class = false })

unfoldable pub error_rpmsg : ℕ → Held → ℕ × Held
unfolding error_class
error_rpmsg err h = error_class err (record h { rpmsg = false })

unfoldable pub error_virtio : ℕ → Held → ℕ × Held
unfolding error_rpmsg
error_virtio err h = error_rpmsg err (record h { virtio = false })

-- The errnos of `class_create` and of the registrations with the rpmsg, the virtio and the PCI bus.
pub record Results : Type 0 where
  pub class_create : ℕ
  pub rpmsg_initialize : ℕ
  pub virtio_initialize : ℕ
  pub register_driver : ℕ

unfoldable pub init : Results → Held → ℕ × Held
unfolding error_virtio
init r h =
    let h0 = record h { debugfs = true } in
    let h1 = record h0 { class = true } in
    let h2 = record h1 { rpmsg = true } in
    let h3 = record h2 { virtio = true } in
    if not (r.class_create == 0)
    then error_debugfs r.class_create h0
    else if not (r.rpmsg_initialize == 0)
    then error_class r.rpmsg_initialize h1
    else if not (r.virtio_initialize == 0)
    then error_rpmsg r.virtio_initialize h2
    else if not (r.register_driver == 0)
    then error_virtio r.register_driver h3
    else (0, record h3 { pci = true })

unfoldable pub exit : Held → Held
exit h =
    let h1 = record h { pci = false } in
    let h2 = record h1 { rpmsg = false } in
    let h3 = record h2 { virtio = false } in
    let h4 = record h3 { class = false } in record h4 { debugfs = false }
