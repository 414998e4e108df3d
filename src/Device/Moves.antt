-- ===== src/Device/Moves.antt =====
-- What the primitive moves of qemu-device/velocitor.c can change, as case rules: `velocitor_raise`,
-- `velocitor_trace` and `velocitor_error_qualify`.
use linux_pci_driver.Common.{ℕ, ◌==◌, List, ◌∷◌, test_bit, choose}
use linux_pci_driver.Hw.{irq_vec_error}
use linux_pci_driver.Device.State.{VelocitorState, Env, Err, Message, Machine}
use linux_pci_driver.Device.Irq.{raise, deliver}
use linux_pci_driver.Device.Trace.{trace}
use linux_pci_driver.Device.Error.{error_qualify}

deliver_any {ℓ} :
    (P : Machine → Type ℓ) (v mask : ℕ) (m : Machine)
    → ((sent : List ℕ) → P (record m { messages = sent }))
    → P (deliver v mask m)
deliver_any P v mask m h =
    choose P (test_bit mask v) (h m.messages)
      (choose P m.msix_enabled (h (v ∷ m.messages)) (h m.messages))

-- `velocitor_raise` changes a counter, IRQ_STATUS and the messages.
pub raise_any {ℓ} :
    (P : VelocitorState → Type ℓ) (v : ℕ) (s : VelocitorState)
    → ((c : ℕ → ℕ) (status : ℕ) (sent : List ℕ)
        → P (record s {
          cnt = c;
          irq = record (s.irq) { irq_status = status };
          machine = record (s.machine) { messages = sent };
        }))
    → P (raise v s)
unfolding raise
raise_any P v s h =
    deliver_any (λ (m : Machine). P (record (raise v s) { machine = m })) v s.irq_mask s.machine
      (h _ _)

-- `velocitor_trace` changes device memory.
pub trace_any {ℓ} :
    (env : Env) (P : VelocitorState → Type ℓ) (level engine seq : ℕ) (m : Message)
    (s : VelocitorState)
    → ((mem : ℕ → ℕ) → P (record s { mem = mem }))
    → P (trace env level engine seq m s)
unfolding trace
trace_any env P level engine seq m s h = choose P (s.trace_da == 0) (h s.mem) (h _)

-- `velocitor_error_qualify` changes the error block and device memory.
pub error_any {ℓ} :
    (env : Env) (P : VelocitorState → Type ℓ) (code info id handle : ℕ) (s : VelocitorState)
    → ((e : Err) (mem : ℕ → ℕ) → P (record s { err = e; mem = mem }))
    → P (error_qualify env code info id handle s)
unfolding error_qualify
error_any env P code info id handle s h =
    choose P (test_bit s.irq_status irq_vec_error) (h _ s.mem) (trace_any env P _ _ _ _ _ (h _))
