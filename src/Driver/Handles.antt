-- ===== src/Driver/Handles.antt =====
-- module/src/handles.c: the table of the device allocations that the driver knows. The xarray is a
-- map from handles to entries; the only reference to an entry is the table's, so that a release
-- frees it.
pub mod Live
use linux_pci_driver.Common.{ℕ, ◌==◌, if◌then◌else◌, Bool, not, Option, none, some, update}
use linux_pci_driver.Hw.{enomem, einval, estale, ebusy}
use linux_pci_driver.Device.Allocator.{AllocResp}

-- `struct velocitor_handle`; `created` is left out.
pub record Handle : Type 0 where
  pub handle : ℕ
  pub generation : ℕ
  pub size : ℕ
  pub node : ℕ
  pub dev_offset : ℕ

pub record Handles : Type 0 where
  pub entries : ℕ → Option Handle
  pub generation : ℕ

-- `velocitor_handles_destroy_entries`, and the loop of `velocitor_handles_regenerate`.
abbrev pub destroy_entries : Handles → Handles
destroy_entries t = record t { entries = λ h. none }

unfoldable pub handles_regenerate : ℕ → Handles → Handles
handles_regenerate generation t =
    if t.generation == generation then t else record (destroy_entries t) { generation = generation }

-- `__xa_insert`: EBUSY where there is an entry, ENOMEM without room for one more.
unfoldable pub xa_insert : Bool → Handle → Handles → Option Handle → ℕ × Handles
xa_insert room e t (some old) = (ebusy, t)
xa_insert room e t none =
    if room then (0, record t { entries = update t.entries e.handle (some e) }) else (enomem, t)

-- With or without memory for the entry.
unfoldable pub handles_insert : Bool → Bool → ℕ → AllocResp → Handles → ℕ × Handles
unfolding xa_insert
handles_insert memory room size resp t =
    let e : Handle = record {
      handle = resp.handle;
      generation = resp.generation;
      size = size;
      node = resp.node;
      dev_offset = resp.dev_offset;
    } in
    if not memory
    then (enomem, t)
    else if not (resp.generation == t.generation)
    then (estale, t)
    else xa_insert room e t (t.entries resp.handle)

unfoldable pub erase_entry : ℕ → Handles → Option Handle → ℕ × Handles
erase_entry handle t none = (einval, t)
erase_entry handle t (some e) = (0, record t { entries = update t.entries handle none })

unfoldable pub handles_erase : ℕ → ℕ → Handles → ℕ × Handles
unfolding erase_entry
handles_erase generation handle t =
    if not (generation == t.generation)
    then (estale, t)
    else erase_entry handle t (t.entries handle)
