-- ===== src/Mkfw/Tests/Witnesses.antt =====
-- The theorems about firmware/mkfw.c at a device with the segment loaded, and at four notifyids.
use linux_pci_driver.Common.{◌+◌, true, ◌≡◌, refl, ap, load, store, arith}
use linux_pci_driver.Device.State.{VelocitorState}
use linux_pci_driver.Device.Firmware.{fw_verify}
use linux_pci_driver.Device.Firmware.Boot.{Verdict}
use linux_pci_driver.Device.Tests.{bus, cold}
use linux_pci_driver.Driver.Tests.{driver}
use linux_pci_driver.Driver.Remoteproc.{walk_rsc_table}
use linux_pci_driver.Mkfw.{
  build, payload_off, fw_trace_da, put_header, put_table, put_names, put_sections, put_elf,
  put_segment, emit_heap, emit_vdev, emit_vring,
}
use linux_pci_driver.Mkfw.Loading.{Loaded, segment_field, build-fw_verify}
use linux_pci_driver.Mkfw.Rings.{notified, build-walk_rsc_table}

abbrev loaded_device : VelocitorState
loaded_device = record cold { mem = λ i. build.1 (payload_off + i) }

segment_at : (segment_field 12 ≡ 0) × (segment_field 4 ≡ payload_off)
unfolding build put_header put_table put_names put_sections put_elf put_segment emit_heap emit_vdev
    emit_vring load store
segment_at = (refl, refl)

loaded : Loaded loaded_device.mem
loaded i lt = ap build.1 (omega (arith, segment_at.0, segment_at.1))

build-fw_verify_example :
    (Verdict true loaded_device (fw_verify bus loaded_device))
    × ((fw_verify bus loaded_device).trace_da ≡ fw_trace_da)
build-fw_verify_example = build-fw_verify bus loaded_device loaded

build-walk_rsc_table_example :
    let walked = walk_rsc_table (notified (λ q. q + 5)) driver.vqs in
    (walked.0 ≡ true)
    × ((walked.1 0).notifyid ≡ 5)
    × ((walked.1 1).notifyid ≡ 6)
    × ((walked.1 2).notifyid ≡ 7)
    × ((walked.1 3).notifyid ≡ 8)
build-walk_rsc_table_example = build-walk_rsc_table (λ q. q + 5) driver.vqs (λ q lt. omega arith)
