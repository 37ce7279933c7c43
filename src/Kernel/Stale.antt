-- ===== src/Kernel/Stale.antt =====
-- What a write to /proc/exmap leaves behind that cannot allocate the array of areas.
use exmap.Kernel.Setup.{Kernel}
