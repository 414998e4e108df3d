-- ===== src/Lib.antt =====
-- Velocitor: a PCI accelerator, as a QEMU device model with a Linux driver, a runtime library and a
-- firmware image builder. This library models the device, qemu-device/velocitor.c, which is where
-- the contract of section 4 to 8 of velocitor-device-spec.md is carried out, the image that
-- firmware/mkfw.c builds for it, of the driver in module/src what shares a protocol with it or with
-- user space, and the library in runtime/src.
--
-- The parts and their files. Hw.antt has the constants of qemu-device/velocitor_hw.h and
-- Hw/Reg.antt its register map; Hw/Offsets.antt has the offsets as the driver names them.
-- Device/State.antt is `struct VelocitorState`. Every other file of Device/ is a part of
-- velocitor.c, with a function of the model for each function of the source, under its name without
-- `velocitor_`: Irq, Trace, Error, Window, Bus (the bring-up DMA engine), Allocator, Firmware
-- (RESET, verification, boot), Rsc (the shadow resource table), Queue (the rings in host memory),
-- Rpmsg (the control plane), Data (the engine queues), Sweep (timers, doorbells, enabling), Bar0
-- (the register file) and Life (reset, and the step relation of all that can happen to the device).
-- A part calls the others as the source does: BAR0 dispatches to all of them, a doorbell arms the
-- service timer, the service drains the queues, and a queue raises interrupts, qualifies errors and
-- logs.
--
-- State is passed explicitly; a handler that can stop half way is in the monad of
-- Device/Monad.antt, which keeps what was done to the state before. Machine words are native
-- numbers with their wrap-around written out. Device memory is a function of the byte address. What
-- is not in the repository is a parameter, the record Env: the transfers of the PCI bus, which may
-- answer each request as they like, and `vsnprintf`. QEMU's logging leaves no trace in the state
-- and is left out; a timer is the time at which it runs out.
--
-- The loops of the source that walk an array are recursion on its length. The two loops that drain
-- a queue go on as long as the guest publishes work; they are recursion on fuel, and what is proved
-- of them holds for any amount of it.
--
-- Device/Frame.antt with its children is the interface between the handlers and the theorems: a
-- relation on states that respects the primitive moves is respected by every handler. The invariant
-- (Device/Life), the configuration that a service keeps (Device/Life/Config.antt) and the
-- confinement of the data plane (Device/Data/Confined.antt) are three such relations.
-- Device/Tests.antt runs the model on a device with a published copy request.
--
-- Mkfw.antt is firmware/mkfw.c: the bytes of the image, and what `main` returns. Mkfw/Loading.antt
-- puts its segment in the memory of a device, Mkfw/Rings.antt gives its resource table to the
-- driver.
--
-- Driver/ is module/src, under the source's names without `velocitor_`. Driver/State.antt is
-- `struct velocitor_dev`; Io is readl and writel on BAR0, which are the device's handlers, and the
-- bytes that BAR2 shows. On these stand Window (window.c), Vring (vring.c), Dtrace
-- (device-trace.c), Counters (counters.c), Irq (irq.c with error.c), Dma (dma.c) and Remoteproc
-- (the walk of the resource table in remoteproc.c, with start, stop and kick in
-- Remoteproc/Power.antt), so that a theorem about them is one about driver and device together.
-- What the device does while the driver polls, and between the reads of the counters, is a
-- parameter; elsewhere it does nothing of its own between two accesses of the driver. Ctrl with its
-- children is ctrl.c and ctrl-transaction.c: the transactions are cells at addresses, which the
-- caller and the table of the driver share, and Ctrl/Once/Steps.antt has a step relation of all
-- that may happen to them in any order, the lock of the table making each a step. Handles is
-- handles.c, beside the device's allocator in Handles/Live.antt, and Data is data.c with
-- data-transaction.c, whose requests are read as the device reads them; Data/Completion.antt is
-- data-virtio.c, and Data/InFlight/Steps.antt the step relation of copies, interrupts and removals.
--
-- Cdev is cdev.c. An ioctl goes through Ctrl to the control plane of the device: Cdev/Exchange.antt
-- follows one request from its allocation on, with the device's `velocitor_rpmsg_recv`, its trace line
-- and its reply included, as what happens while the caller sleeps. A reply wakes the caller; one that
-- the device cannot send, or that does not arrive, leaves it asleep. Cdev/Requests.antt with its
-- children is about the ioctls that send a request. Identity is identity.c with the texts of
-- cdev-sysfs.c, and Lifecycle is lifecycle.c.
--
-- Runtime/ is runtime/src: Scan is scan.c, Text what it uses of the C library on strings, and
-- Library the calls of open.c, alloc.c, info.c and stats.c. Runtime/Scan/Identity.antt reads the
-- texts that the driver writes. The objects of the library are cells at addresses, which `calloc` and
-- `free` fill and empty, and reading one that is not allocated gives no result.
--
-- Of the kernel, what the driver uses is a parameter: the IDR is the record Driver/Idr.antt with
-- its documented laws, which Driver/Tests.antt fills; `ida_alloc_max`, `virtqueue_add_sgs`, the
-- outcome of `rpmsg_send`, of `single_open` and of each allocation of memory are arguments, as are
-- the offsets that `vring_init` gives to the parts of a ring. So are the place of the buffer that a
-- virtqueue hands back, what copying from and to user space comes to, what else happens while an
-- ioctl waits, whether a reply on the ring arrives, and of the library the entries and files of sysfs and the kernel's answers to its
-- calls. The sequential reading of a lock leaves it out. The loop over the windows takes fuel, of
-- which the number of windows is enough;
-- the loop that drains the table takes as much as the table has entries, and the loops over the
-- buffers of a queue as much as it has transactions, since each round takes one out.
--
-- Not modelled: the realization of the device, its migration tables and its registration, which are
-- calls into QEMU; of the driver, the order of set-up in the probe of lifecycle.c, whose resources
-- devm releases, the registration of its devices and vectors, the carveouts, the pools of memory, the
-- probe of data-virtio.c, and all that is debugfs or tracepoints; the reference counts of the handle
-- entries; a path that does not fit its buffer in scan.c; the test programs of runtime/.
pub mod Common
pub mod Hw
pub mod Device
pub mod Mkfw
pub mod Driver
pub mod Runtime
