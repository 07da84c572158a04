-- ===== src/Cpu/Csr.antt =====
-- The CSR indices of src/emulator/cpu/registers.ts and pmp.ts.
use ya_risc_v.Prelude.{ℕ}

abbrev pub cycle : ℕ
cycle = 0xc00

abbrev pub time : ℕ
time = 0xc01

abbrev pub instret : ℕ
instret = 0xc02

abbrev pub sstatus : ℕ
sstatus = 0x100

abbrev pub sie : ℕ
sie = 0x104

abbrev pub stvec : ℕ
stvec = 0x105

abbrev pub scounteren : ℕ
scounteren = 0x106

abbrev pub sscratch : ℕ
sscratch = 0x140

abbrev pub sepc : ℕ
sepc = 0x141

abbrev pub scause : ℕ
scause = 0x142

abbrev pub stval : ℕ
stval = 0x143

abbrev pub sip : ℕ
sip = 0x144

abbrev pub stimecmp : ℕ
stimecmp = 0x14d

abbrev pub satp : ℕ
satp = 0x180

abbrev pub mstatus : ℕ
mstatus = 0x300

abbrev pub misa : ℕ
misa = 0x301

abbrev pub medeleg : ℕ
medeleg = 0x302

abbrev pub mideleg : ℕ
mideleg = 0x303

abbrev pub mie : ℕ
mie = 0x304

abbrev pub mtvec : ℕ
mtvec = 0x305

abbrev pub mcounteren : ℕ
mcounteren = 0x306

abbrev pub menvcfg : ℕ
menvcfg = 0x30a

abbrev pub mcountinhibit : ℕ
mcountinhibit = 0x320

abbrev pub mscratch : ℕ
mscratch = 0x340

abbrev pub mepc : ℕ
mepc = 0x341

abbrev pub mcause : ℕ
mcause = 0x342

abbrev pub mtval : ℕ
mtval = 0x343

abbrev pub mip : ℕ
mip = 0x344

abbrev pub pmpcfg0 : ℕ
pmpcfg0 = 0x3a0

abbrev pub pmpcfg2 : ℕ
pmpcfg2 = 0x3a2

abbrev pub pmpaddr0 : ℕ
pmpaddr0 = 0x3b0

abbrev pub mcycle : ℕ
mcycle = 0xb00

abbrev pub minstret : ℕ
minstret = 0xb02

abbrev pub mvendorid : ℕ
mvendorid = 0xf11

abbrev pub marchid : ℕ
marchid = 0xf12

abbrev pub mimpid : ℕ
mimpid = 0xf13

abbrev pub mhartid : ℕ
mhartid = 0xf14
