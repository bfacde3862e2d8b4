-- ===== src/Chip/Interface.antt =====
-- KSZ8851/servicetool/ksz8851.c: the functions of the driver's interface that are not with the
-- operations of the chip. The dump of the registers in `deinit` stands in debug output only, which a
-- build without DEBUG drops, its register reads included.
use driver_amiga_os_ks.Chip.Bus.{M}
use driver_amiga_os_ks.Chip.Init.{offline}
use driver_amiga_os_ks.Prelude.{ℕ}

unfoldable pub get_used_signal_number : M ℕ
get_used_signal_number n = (n.sig_number, n)

unfoldable pub deinit : M (Unit {0})
unfolding offline
deinit = offline
