-- ===== src/Kernel/Saving.antt =====
-- A write to /proc/exmap sets up a process for reading.
use exmap.Kernel.Setup.{Kernel}
