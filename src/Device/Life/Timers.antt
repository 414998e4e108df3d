-- ===== src/Device/Life/Timers.antt =====
-- The invariant of the device of qemu-device/velocitor.c, kept by the timers and by a reset or a crash of
-- the firmware.
use linux_pci_driver.Common.{
  ℕ, ◌+◌, ◌%◌, ◌^◌, ◌≤◌, ltb, leb, ◌==◌, if◌then◌else◌, Bool, not, ◌||◌, none, refl, inl, arith,
  choose, dchoose,
}
use linux_pci_driver.Hw.{window_size, mem_size, nodes, node_any, vq_count, irq_vec_error, dma_bits}
use linux_pci_driver.Hw as Hw
use linux_pci_driver.Device.State.{
  reset_line, crashed_line, VelocitorState, Env, dma_read, dma_write,
}
use linux_pci_driver.Device.Error.{error_set}
use linux_pci_driver.Device.Trace.{trace, mem_read32}
use linux_pci_driver.Device.Bus.{
  dma_run, dma_h2d, dma_d2h, dma_fail, wide, pci_read, pci_write, pci_read_mem,
}
use linux_pci_driver.Device.Allocator.Sound.{alloc_reset-HeapOk}
use linux_pci_driver.Device.Firmware.{
  boot_done, fw_verify, fw_refuse, fw_accept, fw_clear, vq_purge, reset_assert, reset_write,
}
use linux_pci_driver.Device.Sweep.{vq_service}
use linux_pci_driver.Device.Bar0.{fw_crash}
use linux_pci_driver.Device.Frame.Service.{vq_service-R}
use linux_pci_driver.Device.Life.Keeps.{
  Ready, Keeps, kept, and_then, with_vq-Keeps, with_heap-Keeps, with_access-Keeps, error-Keeps,
  raise-Keeps, trace-Keeps, Keeps-IsFrame, Keeps-CopiesIn, Keeps-ServesControl,
}

module _ (env : Env) where
  pub service-Keeps : (fuel : ℕ) (s : VelocitorState) → Keeps s (vq_service env fuel s)
  service-Keeps fuel s =
      vq_service-R (Keeps-IsFrame env) Keeps-CopiesIn (Keeps-ServesControl env)
        (λ t. kept t _ (λ i. i)) fuel s

  dma_fail-Keeps : (code info : ℕ) (s : VelocitorState) → Keeps s (dma_fail env code info s)
  unfolding dma_fail error_set
  dma_fail-Keeps code info s = and_then s _ _ (error-Keeps env _ _ _ _ s) (kept _ _ (λ i. i))

  pub dma_run-Keeps : (s : VelocitorState) → Keeps s (dma_run env s)
  unfolding dma_run dma_h2d dma_d2h pci_read_mem pci_read pci_write
  dma_run-Keeps s =
      let iova = wide s.dma_addr_hi s.dma_addr_lo in
      dchoose (Keeps s) (leb (2 ^ dma_bits) iova) (λ _. dma_fail-Keeps _ _ s)
        λ near.
          let le : iova ≤ 2 ^ dma_bits = ground arith in
          let moved =
            if s.dma_ctl == Hw.dbg_dma_h2d then dma_h2d env iova s else dma_d2h env iova s in
          let step : Keeps s moved.1 =
            choose (λ (r : Bool × VelocitorState). Keeps s r.1) (s.dma_ctl == Hw.dbg_dma_h2d)
              (and_then s _ _ (with_access-Keeps (dma_read iova s.dma_len) s (inl le))
                (kept _ _ (λ i. i)))
              (and_then s _ _ (with_access-Keeps (dma_write iova s.dma_len _) s (inl le))
                (kept _ _ (λ i. i))) in
          choose (Keeps s) (ltb mem_size (s.dma_dev + s.dma_len))
            (and_then s _ _ (dma_fail-Keeps _ _ s) (kept _ _ (λ i. i)))
            (choose (Keeps s) moved.0 (and_then s _ _ step (kept _ _ (λ i. i)))
              (and_then s _ _ step (dma_fail-Keeps _ _ _)))

  pub boot_done-Keeps : (s : VelocitorState) → Keeps s (boot_done env s)
  unfolding boot_done
  boot_done-Keeps s =
      and_then s _ _ (with_heap-Keeps _ s (λ _. alloc_reset-HeapOk s.heap))
        (and_then _ _ _ (kept _ _ (λ i. i)) (trace-Keeps env _ _ _ _ _))

  vq_purge-Keeps : (s : VelocitorState) → Keeps s (vq_purge s)
  unfolding vq_purge
  vq_purge-Keeps s =
      and_then s _ _
        (with_vq-Keeps _ s (λ ready q. choose Ready (ltb q vq_count) (inl refl) (ready q)))
        (kept _ _ (λ i. i))

  fw_refuse-Keeps : (info : ℕ) (s : VelocitorState) → Keeps s (fw_refuse env info s)
  unfolding fw_refuse error_set
  fw_refuse-Keeps info s = and_then s _ _ (error-Keeps env _ _ _ _ s) (raise-Keeps env _ _)

  fw_verify-Keeps : (s : VelocitorState) → Keeps s (fw_verify env s)
  unfolding fw_verify fw_accept fw_clear
  fw_verify-Keeps s =
      let refused =
        λ (info : ℕ). and_then s (fw_clear s) _ (kept s _ (λ i. i)) (fw_refuse-Keeps info _) in
      let magic = mem_read32 s.mem (Hw.fw_hdr_da + Hw.fw_hdr_off_magic) in
      let abi = mem_read32 s.mem (Hw.fw_hdr_da + Hw.fw_hdr_off_abi) in
      let da = mem_read32 s.mem (Hw.fw_hdr_da + Hw.fw_hdr_off_trace_da) in
      let len = mem_read32 s.mem (Hw.fw_hdr_da + Hw.fw_hdr_off_trace_len) in
      choose (Keeps s) (not (magic == Hw.fw_magic) || not (abi == Hw.fw_abi)) (refused magic) (
        choose (Keeps s) (not (len == Hw.trace_size) || ltb Hw.aperture_size (da + len))
          (refused da) (kept s (fw_accept abi da len (fw_clear s)) (λ i. i)))

  pub reset_write-Keeps : (val : ℕ) (s : VelocitorState) → Keeps s (reset_write env val s)
  unfolding reset_write reset_assert
  reset_write-Keeps val s =
      let s1 = record s { fw = record (s.fw) { reset = val % 2 } } in
      let s2 =
        trace env Hw.trace_level_warn Hw.trace_engine_none Hw.trace_seq_none
          (reset_line s1.generation) s1 in
      let s3 = record s2 { fw = record (s2.fw) { boot_timer = none } } in
      and_then s s1 _ (kept s _ (λ i. i)) (
        choose (Keeps s1) (not (s1.reset == 0))
          (and_then s1 s2 _ (trace-Keeps env _ _ _ _ s1) (
            and_then s2 s3 _ (kept s2 s3 (λ i. i))
              (and_then s3 _ _ (vq_purge-Keeps s3) (kept _ _ (λ i. i)))))
          (fw_verify-Keeps s1))

  pub fw_crash-Keeps : (s : VelocitorState) → Keeps s (fw_crash env s)
  unfolding fw_crash
  fw_crash-Keeps s =
      let s1 =
        trace env Hw.trace_level_error Hw.trace_engine_none Hw.trace_seq_none crashed_line s in
      let s2 = record s1 { fw = record (s1.fw) { boot_timer = none } } in
      and_then s s1 _ (trace-Keeps env _ _ _ _ s) (
        and_then s1 s2 _ (kept s1 s2 (λ i. i)) (
          and_then s2 _ _ (vq_purge-Keeps s2)
            (and_then _ _ _ (kept (vq_purge s2) _ (λ i. i)) (raise-Keeps env Hw.irq_vec_error _))))
