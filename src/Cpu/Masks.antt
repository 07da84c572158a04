-- ===== src/Cpu/Masks.antt =====
-- src/emulator/cpu/registers.ts: the WARL masks, as the bytes that the source writes out.
use ya_risc_v.Prelude.{ℕ, [], ◌∷◌, ◌+◌, ◌*◌, ◌^◌}
use ya_risc_v.Bytes.{Bytes, unsigned_big_int_to_bytes}

-- MXL = 2 at bits 63:62, then U, S, M, I, C, A.
unfoldable pub misa_hardwired_bytes : Bytes
unfolding unsigned_big_int_to_bytes
misa_hardwired_bytes =
    unsigned_big_int_to_bytes (2 * 2 ^ 62 + 2 ^ 20 + 2 ^ 18 + 2 ^ 12 + 2 ^ 8 + 2 ^ 2 + 2 ^ 0)

abbrev pub low_bytes : ℕ → ℕ → Bytes
low_bytes a b = a ∷ b ∷ 0 ∷ 0 ∷ 0 ∷ 0 ∷ 0 ∷ 0 ∷ []

abbrev pub ones_above : ℕ → ℕ → Bytes
ones_above a b = a ∷ b ∷ 255 ∷ 255 ∷ 255 ∷ 255 ∷ 255 ∷ 255 ∷ []

abbrev pub sstatus_mask_bytes : Bytes
sstatus_mask_bytes = 0x22 ∷ 0x01 ∷ 0x0c ∷ 0 ∷ 0x03 ∷ 0 ∷ 0 ∷ 0 ∷ []

abbrev pub mstatus_keep_outside_sstatus : Bytes
mstatus_keep_outside_sstatus = 0xdd ∷ 0xfe ∷ 0xf3 ∷ 0xff ∷ 0xfc ∷ 0xff ∷ 0xff ∷ 0xff ∷ []

abbrev pub mie_mask_bytes : Bytes
mie_mask_bytes = low_bytes 0xaa 0x0a

abbrev pub mip_writable_mask_bytes : Bytes
mip_writable_mask_bytes = low_bytes 0x22 0x02

abbrev pub mip_hardware_mask_bytes : Bytes
mip_hardware_mask_bytes = low_bytes 0x88 0x08

abbrev pub sip_writable_mask_bytes : Bytes
sip_writable_mask_bytes = low_bytes 0x22 0

abbrev pub stimecmp_disabled_bytes : Bytes
stimecmp_disabled_bytes = ones_above 255 255

abbrev pub menvcfg_writable_mask_bytes : Bytes
menvcfg_writable_mask_bytes = 0 ∷ 0 ∷ 0 ∷ 0 ∷ 0 ∷ 0 ∷ 0 ∷ 0x80 ∷ []

abbrev pub mip_writable_mask_bytes_without_stip : Bytes
mip_writable_mask_bytes_without_stip = low_bytes 0x02 0x02

abbrev pub mip_hardware_mask_bytes_with_stip : Bytes
mip_hardware_mask_bytes_with_stip = low_bytes 0xa8 0x08

abbrev pub sip_writable_mask_bytes_without_stip : Bytes
sip_writable_mask_bytes_without_stip = low_bytes 0x02 0

abbrev pub counteren_mask_bytes : Bytes
counteren_mask_bytes = low_bytes 0x07 0

abbrev pub mcountinhibit_mask_bytes : Bytes
mcountinhibit_mask_bytes = low_bytes 0x05 0

abbrev pub mie_mip_keep_outside_sie_sip : Bytes
mie_mip_keep_outside_sie_sip = ones_above 0xdd 0xfd

abbrev pub sie_sip_mask_bytes : Bytes
sie_sip_mask_bytes = low_bytes 0x22 0x02

abbrev pub mideleg_mask_bytes : Bytes
mideleg_mask_bytes = low_bytes 0x22 0x02
