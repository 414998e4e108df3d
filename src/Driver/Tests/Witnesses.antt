-- ===== src/Driver/Tests/Witnesses.antt =====
-- The theorems about the resource table and the window of module/src, at concrete states.
use linux_pci_driver.Common.{
  ℕ, zero, suc, ◌+◌, ◌-◌, ◌%◌, ◌<◌, ◌≡◌, refl, ap, arith, true, some, List, [], load, store,
}
use linux_pci_driver.Hw as Hw
use linux_pci_driver.Device.State.{VelocitorState}
use linux_pci_driver.Device.Rsc.{rsc_scan_vdevs}
use linux_pci_driver.Device.Tests.{bus, running}
use linux_pci_driver.Driver.Remoteproc.{field, walk_rsc_table}
use linux_pci_driver.Driver.Remoteproc.Walk.{EntryFits, Shared, walk_rsc_table-rsc_scan_vdevs}
use linux_pci_driver.Driver.Window.{Both, window_read}
use linux_pci_driver.Driver.Window.Reading.{load-shift, window_read_lem, window_read-ignored}
use linux_pci_driver.Driver.Tests.{shared_table, table_at, table_bus, published, driver}
use linux_pci_driver.Mkfw.Rings.{build-walk_rsc_table}
use linux_pci_driver.Mkfw.{
  build, put_header, put_table, put_names, put_sections, put_elf, put_segment, emit_heap, emit_vdev,
  emit_vring,
}

-- Three entries, 20, 84 and 152 bytes from the head of the table.
entries_of :
    (field shared_table 4 ≡ 3)
    × (field shared_table 16 ≡ 28)
    × (field shared_table 20 ≡ 84)
    × (field shared_table 24 ≡ 152)
    × (shared_table 109 % 256 ≡ 2)
    × (shared_table 177 % 256 ≡ 2)
unfolding build put_header put_table put_names put_sections put_elf put_segment emit_heap emit_vdev
    emit_vring load store
entries_of = (refl, refl, refl, refl, refl, refl)

fits : (i : ℕ) → i < 3 → EntryFits shared_table 220 i
unfolding build put_header put_table put_names put_sections put_elf put_segment emit_heap emit_vdev
    emit_vring load store
fits zero lt = record {
  offset_fits = omega arith;
  type_fits = omega arith;
  rings_fit = λ e. omega arith;
}
fits (suc zero) lt = record {
  offset_fits = omega arith;
  type_fits = omega arith;
  rings_fit = λ e. omega arith;
}
fits (suc (suc zero)) lt = record {
  offset_fits = omega arith;
  type_fits = omega arith;
  rings_fit = λ e. omega arith;
}
fits (suc (suc (suc i))) lt = absurd (omega arith)

shared : Shared table_bus shared_table table_at 220
shared done off inside =
    ap (λ (l : List ℕ). (true, l))
      (load-shift (λ i. shared_table (i - table_at)) shared_table (table_at + off) off 4
        (λ i lt. ap shared_table (omega arith)))

walked : (walk_rsc_table shared_table driver.vqs).0 ≡ true
walked = (build-walk_rsc_table (λ q. q + 5) driver.vqs (λ q lt. omega arith)).0

walk_example :
    ((rsc_scan_vdevs table_bus (field shared_table 4) published).vq 2).notifyid
    ≡ ((walk_rsc_table shared_table driver.vqs).1 2).notifyid
walk_example =
    walk_rsc_table-rsc_scan_vdevs table_bus shared_table table_at 220 driver.vqs published
      (omega arith) (omega arith) shared (record { length_is = refl; address_is = refl })
      (λ i lt. fits i (omega (arith, entries_of.0))) walked 2 (omega arith)

window_read_example :
    (b' : Both) × (window_read bus 1 (Hw.window_size - 2) 4 (driver, running)
      ≡ some (record { err = 0; bytes = load running.mem (Hw.window_size - 2) 4; both = b' }))
window_read_example =
    window_read_lem bus 1 (Hw.window_size - 2) 4 (driver, running) (omega arith) (omega arith)
      (omega arith) refl

-- A device that will drop the next move of the window.
abbrev dropping : VelocitorState
dropping = record running { inject = record (running.inject) { err_inject = 64 } }

window_read-ignored_example :
    (b' : Both) × (window_read bus 1 Hw.window_size 4 (driver, dropping)
      ≡ some (record { err = Hw.eio; bytes = []; both = b' }))
window_read-ignored_example =
    window_read-ignored bus 1 Hw.window_size 4 (driver, dropping) (omega arith) refl (omega arith)
