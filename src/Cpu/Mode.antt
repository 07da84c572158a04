-- ===== src/Cpu/Mode.antt =====
-- The privilege modes, and the bytes by which the hart holds them.
use mathlib.Core.Path.{subst}
use ya_risc_v.Prelude.{◌≡◌, sym}
use ya_risc_v.Bytes.{Bytes}
use ya_risc_v.Cpu.Pmp.{privilege_machine}
use ya_risc_v.Cpu.Registers.{privilege_user, privilege_supervisor}
use ya_risc_v.Cpu.Types.{Registers}

pub data Mode : Type 0 where
  user supervisor machine : Mode

unfoldable pub mode_bytes : Mode → Bytes
unfolding privilege_machine privilege_supervisor privilege_user
mode_bytes user = privilege_user
mode_bytes supervisor = privilege_supervisor
mode_bytes machine = privilege_machine

-- The same hart in a given mode.
abbrev pub in_mode_of : Registers → Mode → Registers
in_mode_of r m = record r { privilege_mode = mode_bytes m }

-- What holds of a hart in each mode holds of a hart whose mode is one of them.
pub by_mode {ℓ} :
    (P : Registers → Type ℓ) (r : Registers) (m : Mode)
    → r.privilege_mode ≡ mode_bytes m
    → P (in_mode_of r m)
    → P r
by_mode P r m h p = subst P (λ i. record r { privilege_mode = sym h i }) p
