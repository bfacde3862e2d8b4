-- ===== src/Chip/Reg.antt =====
-- KSZ8851/servicetool/ksz8851.h: the register addresses, the byte enables and the masks that the
-- driver uses.
use driver_amiga_os_ks.Prelude.{ℕ}

abbrev pub rev_a3_id : ℕ
rev_a3_id = 0x8872

abbrev pub cmd_b0 : ℕ
cmd_b0 = 0x1000

abbrev pub cmd_b1 : ℕ
cmd_b1 = 0x2000

abbrev pub cmd_b2 : ℕ
cmd_b2 = 0x4000

abbrev pub cmd_b3 : ℕ
cmd_b3 = 0x8000

abbrev pub reg_marl : ℕ
reg_marl = 0x10

abbrev pub reg_marm : ℕ
reg_marm = 0x12

abbrev pub reg_marh : ℕ
reg_marh = 0x14

abbrev pub reg_grr : ℕ
reg_grr = 0x26

abbrev pub reg_txcr : ℕ
reg_txcr = 0x70

abbrev pub reg_rxcr1 : ℕ
reg_rxcr1 = 0x74

abbrev pub reg_rxcr2 : ℕ
reg_rxcr2 = 0x76

abbrev pub reg_txmir : ℕ
reg_txmir = 0x78

abbrev pub reg_rxfhsr : ℕ
reg_rxfhsr = 0x7c

abbrev pub reg_rxfhbcr : ℕ
reg_rxfhbcr = 0x7e

abbrev pub reg_txqcr : ℕ
reg_txqcr = 0x80

abbrev pub reg_rxqcr : ℕ
reg_rxqcr = 0x82

abbrev pub reg_txfdpr : ℕ
reg_txfdpr = 0x84

abbrev pub reg_rxfdpr : ℕ
reg_rxfdpr = 0x86

abbrev pub reg_ier : ℕ
reg_ier = 0x90

abbrev pub reg_isr : ℕ
reg_isr = 0x92

abbrev pub reg_rxfctr : ℕ
reg_rxfctr = 0x9c

abbrev pub reg_mahtr0 : ℕ
reg_mahtr0 = 0xa0

abbrev pub reg_mahtr1 : ℕ
reg_mahtr1 = 0xa2

abbrev pub reg_mahtr2 : ℕ
reg_mahtr2 = 0xa4

abbrev pub reg_mahtr3 : ℕ
reg_mahtr3 = 0xa6

abbrev pub reg_cider : ℕ
reg_cider = 0xc0

abbrev pub reg_pmecr : ℕ
reg_pmecr = 0xd4

abbrev pub reg_p1cr : ℕ
reg_p1cr = 0xf6

abbrev pub reg_p1sr : ℕ
reg_p1sr = 0xf8

abbrev pub grr_qmu_module_soft_rst : ℕ
grr_qmu_module_soft_rst = 0x0002

abbrev pub grr_global_soft_rst : ℕ
grr_global_soft_rst = 0x0001

abbrev pub txcr_txfce : ℕ
txcr_txfce = 0x0008

abbrev pub txcr_txpe : ℕ
txcr_txpe = 0x0004

abbrev pub txcr_txce : ℕ
txcr_txce = 0x0002

abbrev pub txcr_txe : ℕ
txcr_txe = 0x0001

abbrev pub rxcr1_rxpafma : ℕ
rxcr1_rxpafma = 0x0800

abbrev pub rxcr1_rxfce : ℕ
rxcr1_rxfce = 0x0400

abbrev pub rxcr1_rxbe : ℕ
rxcr1_rxbe = 0x0080

abbrev pub rxcr1_rxme : ℕ
rxcr1_rxme = 0x0040

abbrev pub rxcr1_rxue : ℕ
rxcr1_rxue = 0x0020

abbrev pub rxcr1_rxe : ℕ
rxcr1_rxe = 0x0001

abbrev pub rxcr2_srdbl2 : ℕ
rxcr2_srdbl2 = 0x0080

abbrev pub rxcr2_iuffp : ℕ
rxcr2_iuffp = 0x0010

abbrev pub rxcr2_rxiufcez : ℕ
rxcr2_rxiufcez = 0x0008

abbrev pub txmir_txma_mask : ℕ
txmir_txma_mask = 0x1fff

abbrev pub rxfhsr_rxfv : ℕ
rxfhsr_rxfv = 0x8000

abbrev pub rxfhsr_rxicmpfcs : ℕ
rxfhsr_rxicmpfcs = 0x2000

abbrev pub rxfhsr_rxipfcs : ℕ
rxfhsr_rxipfcs = 0x1000

abbrev pub rxfhsr_rxtcpfcs : ℕ
rxfhsr_rxtcpfcs = 0x0800

abbrev pub rxfhsr_rxudpfcs : ℕ
rxfhsr_rxudpfcs = 0x0400

abbrev pub rxfhsr_rxmr : ℕ
rxfhsr_rxmr = 0x0010

abbrev pub rxfhsr_rxftl : ℕ
rxfhsr_rxftl = 0x0004

abbrev pub rxfhsr_rxrf : ℕ
rxfhsr_rxrf = 0x0002

abbrev pub rxfhsr_rxce : ℕ
rxfhsr_rxce = 0x0001

abbrev pub rxfhbcr_rxbc_mask : ℕ
rxfhbcr_rxbc_mask = 0x0fff

abbrev pub txqcr_metfe : ℕ
txqcr_metfe = 0x0001

abbrev pub rxqcr_rxiphtoe : ℕ
rxqcr_rxiphtoe = 0x0200

abbrev pub rxqcr_rxfcte : ℕ
rxqcr_rxfcte = 0x0020

abbrev pub rxqcr_adrfe : ℕ
rxqcr_adrfe = 0x0010

abbrev pub rxqcr_sda : ℕ
rxqcr_sda = 0x0008

abbrev pub rxqcr_rrxef : ℕ
rxqcr_rrxef = 0x0001

abbrev pub txfdpr_txfpai : ℕ
txfdpr_txfpai = 0x4000

abbrev pub rxfdpr_rxfpai : ℕ
rxfdpr_rxfpai = 0x4000

abbrev pub ier_lcie : ℕ
ier_lcie = 0x8000

abbrev pub ier_txie : ℕ
ier_txie = 0x4000

abbrev pub ier_rxie : ℕ
ier_rxie = 0x2000

abbrev pub ier_rxoie : ℕ
ier_rxoie = 0x0800

abbrev pub ier_ldie : ℕ
ier_ldie = 0x0008

abbrev pub isr_lcis : ℕ
isr_lcis = 0x8000

abbrev pub isr_txis : ℕ
isr_txis = 0x4000

abbrev pub isr_rxis : ℕ
isr_rxis = 0x2000

abbrev pub isr_rxois : ℕ
isr_rxois = 0x0800

abbrev pub isr_txpsis : ℕ
isr_txpsis = 0x0200

abbrev pub isr_rxpsis : ℕ
isr_rxpsis = 0x0100

abbrev pub isr_txsais : ℕ
isr_txsais = 0x0040

abbrev pub isr_rxwfdis : ℕ
isr_rxwfdis = 0x0020

abbrev pub isr_rxmpdis : ℕ
isr_rxmpdis = 0x0010

abbrev pub isr_ldis : ℕ
isr_ldis = 0x0008

abbrev pub isr_edis : ℕ
isr_edis = 0x0004

abbrev pub isr_spibeis : ℕ
isr_spibeis = 0x0002

abbrev pub p1cr_restart_an : ℕ
p1cr_restart_an = 0x2000

abbrev pub p1cr_force_duplex : ℕ
p1cr_force_duplex = 0x0020

abbrev pub p1sr_operation_speed : ℕ
p1sr_operation_speed = 0x0400

abbrev pub p1sr_operation_duplex : ℕ
p1sr_operation_duplex = 0x0200

abbrev pub p1sr_link_good : ℕ
p1sr_link_good = 0x0020

abbrev pub tx_ctrl_txic : ℕ
tx_ctrl_txic = 0x8000

abbrev pub tx_ctrl_txfid : ℕ
tx_ctrl_txfid = 0x003f

-- `1 << 11`
abbrev pub rxfdpr_ems : ℕ
rxfdpr_ems = 0x0800

abbrev pub eth_max_frame_size : ℕ
eth_max_frame_size = 1518

abbrev pub eth_header_size : ℕ
eth_header_size = 14

abbrev pub reg_ccr : ℕ
reg_ccr = 0x08

abbrev pub reg_iacr : ℕ
reg_iacr = 0xc8

abbrev pub reg_iadlr : ℕ
reg_iadlr = 0xd0

abbrev pub reg_iadhr : ℕ
reg_iadhr = 0xd2

abbrev pub ccr_bus_endian_mode : ℕ
ccr_bus_endian_mode = 0x0400

abbrev pub ccr_eeprom_presence : ℕ
ccr_eeprom_presence = 0x0200

abbrev pub ccr_8_bit_data_bus : ℕ
ccr_8_bit_data_bus = 0x0080

abbrev pub ccr_16_bit_data_bus : ℕ
ccr_16_bit_data_bus = 0x0040

abbrev pub ccr_48_pin_package : ℕ
ccr_48_pin_package = 0x0002
