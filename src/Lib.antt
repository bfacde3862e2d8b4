-- ===== src/Lib.antt =====
-- The KSZ8851 network driver for AmigaOS: a SANA-II device, and below it the driver of the KSZ8851
-- Ethernet chip.
--
-- The device (KSZ8851/devicedriver/device.c) takes I/O requests of network stacks. `DeviceBeginIO`
-- performs some at once and queues the others for the unit process, whose service loop performs them,
-- hands received packets to the waiting read requests, and sends. It reaches the chip through
-- `NetInterface` (KSZ8851/include/hardware-interface.h), which KSZ8851/servicetool/ksz8851.c
-- implements with the chip's registers and FIFO, and KSZ8851/servicetool/isr.c with an interrupt
-- server that signals the unit process. KSZ8851/devicedriver/devinit.c has the entry points that the
-- operating system calls, and KSZ8851/servicetool/main.c is a console program that works on the same
-- driver of the chip, without the device.
--
-- What models what:
--   Prelude             the shared names, tests on numbers, lists, and the laws of single bits
--   Chip/Reg            the constants of KSZ8851/servicetool/ksz8851.h
--   Chip/Bus            register access (`ksz8851ReadReg`, `ksz8851WriteReg`, `ksz8851SetBit`,
--                       `ksz8851ClearBit`) and the driver's state, `Ksz8851Context`
--   Chip/Fifo           `ksz8851WriteFifo`, `ksz8851WriteFifoWordAlign`, `ksz8851ReadFifo`, `swap`
--   Chip/Send           `ksz8851SendPacket`, `ksz8851SendPacketCooked`, `ksz8851SendPacketPossible`
--   Chip/Receive        `ksz8851ReceivePacket`
--   Chip/Irq            `ksz8851IrqHandler`, `ksz8851EventHandler`
--   Chip/Init           detection, reset, `ksz8851Init`, online, offline, and isr.c
--   Chip/Interface      `deinit` and `getUsedSignalNumber` of the table `driverInterface`
--   Chip/Multicast      `ksz8851CalcCrc`, `ksz8851SetMulticastFilter`
--   Config              KSZ8851/devicedriver/configfile.c: lines, keys and numbers
--   Config/Registry     `RegistryInit`, `RegistryDestroy`
--   Config/Reading      `ReadKeyStr`, `ReadKeyInt`, and `ReadConfig` of device.c
--   Debug               KSZ8851/devicedriver/devdebug.c, `dumpMem`, `printEthernetAddress`, `ksz8851DumpReg`
--   Hal                 KSZ8851/devicedriver/hwl/hal.c, an empty template
--   Callbacks           KSZ8851/devicedriver/copybuffs.c: the registers of a call into the network stack
--   Device/Types        the request, the unit, `TermIO`
--   Device/Queues       aborting, `DevCmdFlush`, `DoEvent`, `DeviceAbortIO`
--   Device/Stack        what the functions of the network stack do that copybuffs.c calls
--   Device/Transmit     `DevCmdWritePacket`, `sendAllPackets`
--   Device/Receive      `fulfillReadIORequest`, `onPktReceived`, the read commands
--   Device/Commands     the other commands
--   Device/Dispatch     `DeviceBeginIO`, `PerformIO`, a round of the service loop of `DevProcEntry`
--   Device/Loops        the loops of `sendAllPackets` and `DevProcEntry` over a message port, on fuel
--   Device/System       devinit.c, `DeviceInit`, and the steps that a loaded device takes
--   Device/Lifecycle    `DeviceOpen`, `DeviceClose`, `DeviceExpunge`
--   Device/Multicast    `getmcaf`, `DevCmdAddMulti`, `DevCmdRemMulti`
--   Device/Copying      `copyEthernetAddress`
--   Driver              what the device's calls through `NetInterface` do on the chip
--   Tool                main.c: the options and the command line
--   Tool/Output         main.c: what is read from the chip or a packet to be printed
--   Tool/Main           main.c: `waitNICIsUp`, `sendPackets`, `main`, `done`
-- The other modules hold the theorems, named for what they are about, and the modules named
-- Tests hold concrete chips, units, packets and runs.
--
-- How the state is modelled: a function that changes the unit or the device takes it and returns it.
-- Code that works on the chip is a function from `Nic` to a result and a `Nic`, whose `trace` keeps
-- every access to the two ports of the chip. Numbers are natural numbers and the places where the C
-- types wrap write the remainder out. The list loops are recursions on the lists; `while(sizeInWord--)`
-- and the detection loop are recursions on the number of rounds, three for the detection as in the
-- code. The loops over message ports run in Device/Transmit and Device/Dispatch over the requests that
-- wait at the start; Device/Loops has them as they are written, on fuel, of which one round more than
-- requests is enough. The loop of `sendPackets` runs on fuel, too: one round more than the packets asked
-- for. Loops that wait for signals run over the list of the wake-ups that come.
--
-- A loaded device is what `DeviceInit` leaves and any sequence of steps after it: calls of the entry
-- points with requests that are open on its unit, parts of writes and reads of other tasks in between, and
-- rounds of the service loop. The unit process ends only in `ExpungeUnit`.
--
-- What stands outside: the chip, which is the function `answers` of the values that it gives at
-- each read; the network stack's functions, the record `Stack`; what the operating system answers,
-- the records `Environment`, `OpenEnvironment`, `Surroundings` and `Wakeup` and arguments for `AllocMem`,
-- `AllocVec` and `AllocSignal`; the flags of the library node, arguments; for the tool, the record
-- `Run` and `atoi`; what lies in memory behind a packet, the field `stale` of `Platform`, and what a string
-- that `FreeArgs` has released holds, the field `released` of `Surroundings`. Debug output is in Debug for itself: it changes nothing that the
-- device or the chip driver reads, and their models leave the calls out, as a build without DEBUG does.
-- Not modelled: the call of `probe` in `LowLevelCall`, whose result is `probe_ok`, what the tool's
-- callback prints of the link, delays, what the compiler puts around the inline assembly of copybuffs.c, the register
-- conventions of devinit.c, the texts that the tool prints and its floating point arithmetic, code
-- that the preprocessor drops (`ksz8851ReadReg8`, `ksz8851DisableInterrupts`); the time
-- at which other tasks run, but for what Device/System says. Each function is one step, as if it ran alone.
-- For most of them the code holds a semaphore or runs in the unit process; but writes, reads and reads of
-- orphans run in the caller's task and hold no lock from their tests over the queueing to the sending.
-- Device/System therefore has the queueing behind the tests and the sending of one packet as steps of
-- their own, too, and its theorems hold for any interleaving of these; that two tasks can fill the one
-- `sendBuffer` at once is not modelled. The other theorems are about functions that run alone.
pub mod Prelude
pub mod Chip
pub mod Config
pub mod Debug
pub mod Callbacks
pub mod Device
pub mod Tool
pub mod Hal
pub mod Driver
