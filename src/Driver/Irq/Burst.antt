-- ===== src/Driver/Irq/Burst.antt =====
-- The error interrupt of module/src/irq.c after a burst of errors of qemu-device/velocitor.c.
