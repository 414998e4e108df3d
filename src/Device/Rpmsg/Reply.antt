-- ===== src/Device/Rpmsg/Reply.antt =====
-- What the second half of `velocitor_rpmsg_recv` of qemu-device/velocitor.c, the trace and the reply,
-- leaves of the allocator.
use linux_pci_driver.Common.{ℕ, ltb, ◌≡◌, false, List, ◌++◌, le16, le32, ◌∙◌}
use linux_pci_driver.Hw.{rpmsg_ctrl_addr, trace_level_info, trace_engine_none}
use linux_pci_driver.Device.State.{VelocitorState, Env, control_line}
use linux_pci_driver.Device.Trace.{trace}
use linux_pci_driver.Device.Rpmsg.{ctrl_hdr, ctrl_msg_size, ctrl_serve, rpmsg_recv}
use linux_pci_driver.Device.Frame.Planes.{rpmsg_send-Holds}
use linux_pci_driver.Device.Data.Confined.{Confined-IsFrame}

-- A request that is long enough leaves the allocator as its service made it: neither the line of the
-- trace nor the reply, sent or lost, touches it.
pub rpmsg_recv-heap :
    (env : Env) (src : ℕ) (req : List ℕ) (len : ℕ) (s : VelocitorState)
    → ltb len ctrl_msg_size ≡ false
    → (rpmsg_recv env src req len s).heap ≡ (ctrl_serve env (le16 req 4) req len s).1.heap
unfolding rpmsg_recv
rpmsg_recv-heap env src req len s long =
    let x = ctrl_serve env (le16 req 4) req len s in
    let F = Confined-IsFrame env in
    let line = control_line (le16 req 4) src in
    let traced = trace env trace_level_info trace_engine_none (le32 req 0) line x.1 in
    let sent =
      (rpmsg_send-Holds F rpmsg_ctrl_addr src (ctrl_hdr req x.0.0 ++ x.0.1)).apply traced in
    rw long (sent.heap ∙ (F.trace_R trace_level_info trace_engine_none (le32 req 0) line x.1).heap)
