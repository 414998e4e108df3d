-- ===== src/Driver/Cdev.antt =====
-- The character device of module/src/cdev.c: open and release, and the four ioctls. What the copies
-- from and to user space come to is an argument: an errno or the structure, and the errno with whether
-- trailing bytes were ignored. The size that the command carries only goes into these copies.
pub mod Exchange
pub mod Requests
use linux_pci_driver.Common.{
  ℕ, ◌+◌, ◌*◌, ◌==◌, if◌then◌else◌, Bool, true, false, not, ◌⊎◌, inl, inr, Option, none, some, List,
  [], ◌++◌, le32, le64, to_le32, to_le64,
}
use linux_pci_driver.Hw.{
  op_alloc, op_free, op_stat, fw_status_reset, fw_status_verified, fw_status_running, ebusy,
  emsgsize,
}
use linux_pci_driver.Hw.Offsets.{reg_fw_status}
use linux_pci_driver.Device.State.{VelocitorState}
use linux_pci_driver.Device.Allocator.{AllocReq, AllocResp, StatResp}
use linux_pci_driver.Driver.Io.{readl}
use linux_pci_driver.Driver.Idr.{Idr}
use linux_pci_driver.Driver.Ctrl.{
  Ctrl, Transaction, set_cell, transaction_alloc, transaction_release,
}
use linux_pci_driver.Driver.Ctrl.Send.{transaction_send, transaction_wait}
use linux_pci_driver.Driver.Handles.{Handles, handles_insert, handles_erase}

-- What the ioctls use of `struct velocitor_dev`, and the device.
pub record World (Table : Type 0) : Type 0 where
  pub ctrl : Ctrl Table
  pub handles : Handles
  pub generation : ℕ
  pub usage_flags : Bool
  pub device : VelocitorState

-- VEL_DEVICE_INFO_* and the structures of uapi/velocitor.h.
pub data DeviceInfo : Type 0 where
  down booting ready crashed : DeviceInfo

pub record IoctlInfo : Type 0 where
  pub state : DeviceInfo
  pub generation : ℕ

pub record IoctlHandle : Type 0 where
  pub addr : ℕ
  pub node : ℕ
  pub generation : ℕ

pub data Command : Type 0 where
  info stats alloc free : Command

abbrev pub drv_magic : ℕ
drv_magic = 0x76

abbrev pub ioctl_base : ℕ
ioctl_base = 0x30

-- `velocitor_cdev_ioctl` by the type and the number of the command: the handler, or none for ENOTTY.
unfoldable pub cdev_ioctl : ℕ → ℕ → Option Command
cdev_ioctl type nr =
    if not (type == drv_magic)
    then none
    else if nr == ioctl_base
    then some Command.info
    else if nr == ioctl_base + 2
    then some Command.alloc
    else if nr == ioctl_base + 3
    then some Command.free
    else if nr == ioctl_base + 1
    then some Command.stats
    else none

abbrev pub safe_copy_to_user : ℕ × Bool → ℕ
safe_copy_to_user (err, ignored_trailing) =
    if not (err == 0) then err else if ignored_trailing then emsgsize else 0

-- What user space has then.
abbrev pub delivered {ℓ} : {A : Type ℓ} → ℕ × Bool → A → Option A
delivered (err, ignored_trailing) a = if err == 0 then some a else none

abbrev pub info_state : ℕ → DeviceInfo
info_state status =
    if status == fw_status_reset
    then DeviceInfo.down
    else if status == fw_status_verified
    then DeviceInfo.booting
    else if status == fw_status_running
    then DeviceInfo.ready
    else DeviceInfo.crashed

-- The payloads of the requests, and the answers that are read.
abbrev pub alloc_payload : AllocReq → List ℕ
alloc_payload r = to_le64 r.size ++ (to_le32 r.dtype ++ to_le32 r.node)

abbrev pub free_payload : ℕ → List ℕ
free_payload addr = to_le32 addr ++ to_le32 0

abbrev pub alloc_answer : List ℕ → AllocResp
alloc_answer b = record {
  handle = le32 b 0;
  node = le32 b 4;
  generation = le32 b 8;
  dev_offset = le64 b 16;
}

abbrev pub stat_answer : List ℕ → StatResp
stat_answer b = record {
  capacity = λ i. le64 b (16 * i);
  free = λ i. le64 b (16 * i + 8);
  live_handles = le32 b 32;
}

module _ (idr : Idr) where
  abbrev pub Kernel : Type 0
  Kernel = World idr.Table

  -- The result of an ioctl: none if it waits for ever, else the errno or 0, with what user space got.
  abbrev pub Outcome : Type 0 → Type 0
  Outcome A = Option ((ℕ × Option A) × Kernel)

  unfoldable pub cdev_open : Kernel → ℕ × Kernel
  cdev_open w = if w.usage_flags then (ebusy, w) else (0, record w { usage_flags = true })

  unfoldable pub cdev_release : Kernel → Kernel
  cdev_release w = record w { usage_flags = false }

  unfoldable pub ioctl_info : ℕ × Bool → Kernel → (ℕ × Option IoctlInfo) × Kernel
  ioctl_info to_user w =
      let (status, s) = readl reg_fw_status w.device in
      let i : IoctlInfo = record { state = info_state status; generation = w.generation } in
      ((safe_copy_to_user to_user, delivered to_user i), record w { device = s })

  unfoldable pub store_handle :
      Bool → Bool → ℕ × Bool → ℕ → AllocResp → Kernel → (ℕ × Option IoctlHandle) × Kernel
  store_handle entry room to_user size resp w =
      let (err, t) = handles_insert entry room size resp w.handles in
      let h : IoctlHandle = record {
        addr = resp.handle;
        node = resp.node;
        generation = resp.generation;
      } in
      (
        if err == 0 then (safe_copy_to_user to_user, delivered to_user h) else (err, none),
        record w { handles = t },
      )

  -- `meanwhile` is all that happens while the caller sleeps, with the transaction it sleeps on.
  module _ (memory : Bool) (rpmsg_send : List ℕ → ℕ) (meanwhile : ℕ → Kernel → Kernel) where
    -- The reference of the caller goes back, whatever came out.
    unfoldable pub release_after : {A : Type 0} → ℕ → (ℕ × Option A) × Kernel → Outcome A
    unfolding transaction_release
    release_after a (result, w) =
        some (result, record w { ctrl = transaction_release idr a w.ctrl })

    -- The wait, and what is made of its answer.
    unfoldable pub await :
        {A : Type 0} → ℕ → (Transaction → Kernel → (ℕ × Option A) × Kernel) → Kernel → Outcome A
    unfolding release_after transaction_wait
    await a use_answer w = elim (transaction_wait idr (λ b. 0) a w.ctrl) [
      | none ↦ none
      | some (status, c) ↦
          let w1 = record w { ctrl = c } in
          release_after a (if status == 0 then use_answer (c.cell a) w1 else ((status, none), w1))
    ]

    unfoldable pub after_send :
        {A : Type 0}
        → ℕ
        → (Transaction → Kernel → (ℕ × Option A) × Kernel)
        → Kernel
        → ℕ × Ctrl idr.Table
        → Outcome A
    unfolding await
    after_send a use_answer w (err, c) =
        let w1 = record w { ctrl = c } in
        if err == 0 then await a use_answer (meanwhile a w1) else release_after a ((err, none), w1)

    -- The request, written into a transaction that there may be.
    unfoldable pub submit :
        {A : Type 0}
        → ℕ
        → List ℕ
        → (Transaction → Kernel → (ℕ × Option A) × Kernel)
        → Kernel
        → (ℕ ⊎ ℕ) × Ctrl idr.Table
        → Outcome A
    unfolding transaction_send after_send
    submit op payload use_answer w (inl err, c) = some ((err, none), record w { ctrl = c })
    submit op payload use_answer w (inr a, c) = after_send a use_answer w (
        transaction_send idr rpmsg_send a
          (set_cell idr a (record (c.cell a) { op = op; payload = payload }) c))

    -- The steps that the three requests share: allocation, the request, send, wait, release.
    unfoldable pub transact :
        {A : Type 0}
        → ℕ
        → List ℕ
        → (Transaction → Kernel → (ℕ × Option A) × Kernel)
        → Kernel
        → Outcome A
    unfolding transaction_alloc submit
    transact op payload use_answer w =
        submit op payload use_answer w (transaction_alloc idr memory false w.ctrl)

    -- The structure, with memory for the handle's entry and for its place in the table.
    unfoldable pub ioctl_alloc :
        Bool → Bool → ℕ × Bool → ℕ ⊎ AllocReq → Kernel → Outcome IoctlHandle
    unfolding transact store_handle
    ioctl_alloc entry room to_user (inl err) w = some ((err, none), w)
    ioctl_alloc entry room to_user (inr req) w =
        transact op_alloc (alloc_payload req)
          (λ t. store_handle entry room to_user req.size (alloc_answer t.answer)) w

    unfoldable pub ioctl_free : ℕ ⊎ IoctlHandle → Kernel → Outcome (Unit {0})
    unfolding transact
    ioctl_free (inl err) w = some ((err, none), w)
    ioctl_free (inr h) w =
        let (err, t) = handles_erase h.generation h.addr w.handles in
        if err == 0
        then transact op_free (free_payload h.addr) (λ t w1. ((0, none), w1))
            (record w { handles = t })
        else some ((err, none), w)

    unfoldable pub ioctl_stats : ℕ × Bool → Kernel → Outcome StatResp
    unfolding transact
    ioctl_stats to_user =
        transact op_stat []
          (λ t w. ((safe_copy_to_user to_user, delivered to_user (stat_answer t.answer)), w))
