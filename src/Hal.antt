-- ===== src/Hal.antt =====
-- KSZ8851/devicedriver/hwl/hal.c: a template of a low level driver, which does nothing but report its calls.
use driver_amiga_os_ks.Debug.{Console, printdebug}
use driver_amiga_os_ks.Prelude.{Bool, [], false, true}

unfoldable pub hal_probe : Console → Bool × Console
hal_probe c = (true, printdebug 1 "hal_probe\n" [] c)

unfoldable pub hal_initialization : Console → Console
hal_initialization c = printdebug 1 "hal_initialization\n" [] c

unfoldable pub hal_deinitialization : Console → Console
hal_deinitialization c = printdebug 1 "hal_deinitialization\n" [] c

unfoldable pub hal_service_read_packets : Console → Bool × Console
hal_service_read_packets c = (false, printdebug 1 "hal_serviceReadPackets\n" [] c)

unfoldable pub hal_service_write_packets : Console → Bool × Console
hal_service_write_packets c = (false, printdebug 1 "hal_serviceWritePackets\n" [] c)
