-- ===== src/Plic/Gateway.antt =====
-- src/emulator/plic/gateway.ts and wires.ts, with the parts of utils/atomics.ts and irq-level.ts that
-- they call. Each operation runs under the gateway lock, so it is one step on the slab.
use ya_risc_v.Bytes.Value.{value}
use ya_risc_v.Prelude.{
  leb, suc, bit_or, false, not, Bool, ltb, bit_and, true, zero, ◌+◌, ◌*◌, ◌/◌, ◌^◌, ◌%◌, ◌==◌, ◌!=◌,
  ◌&&◌, ◌||◌, ◌-◌, if◌then◌else◌, ℕ,
}
use ya_risc_v.Bytes.{Bytes}
use ya_risc_v.Plic.Layout.{
  claimed_by_host_offset, enable_host_offset, is_valid_source, plic_host_claimed_by_s,
  context_wire_offset, plic_host_pending, plic_host_claimed_by_m, plic_host_input_level,
  plic_max_source, PlicContext, threshold_host_offset, machine, supervisor,
}

-- The bytes of the host slab, the published level word, and where the guest window starts.
pub record Plic : Type 0 where
  pub slab : ℕ → ℕ
  pub irq_level : ℕ
  pub guest_address : Bytes

abbrev pub store_byte_at : (ℕ → ℕ) → ℕ → ℕ → ℕ → ℕ
store_byte_at slab index byte i = if i == index then byte else slab i

-- `atomicLoadBit`
abbrev pub load_bit : (ℕ → ℕ) → ℕ → ℕ → Bool
load_bit slab index bit = bit_and (slab index) (2 ^ bit) != 0

-- `atomicLoad32`
abbrev pub load_32 : (ℕ → ℕ) → ℕ → ℕ
load_32 slab index =
    slab index + slab (index + 1) * 2 ^ 8 + slab (index + 2) * 2 ^ 16 + slab (index + 3) * 2 ^ 24

-- The next value of the byte in `atomicUpdateBit`.
abbrev pub updated_byte : ℕ → ℕ → Bool → ℕ
updated_byte previous bit value =
    bit_and (if value then bit_or previous (2 ^ bit) else bit_and previous (0xff - 2 ^ bit)) 0xff

abbrev pub update_bit : (ℕ → ℕ) → ℕ → ℕ → Bool → ℕ → ℕ
update_bit slab index bit value = store_byte_at slab index (updated_byte (slab index) bit value)

unfoldable pub update_source_bit : (ℕ → ℕ) → ℕ → ℕ → Bool → ℕ → ℕ
update_source_bit slab host_offset source value =
    update_bit slab (host_offset + source / 8) (source % 8) value

unfoldable pub is_source_bit_set : (ℕ → ℕ) → ℕ → ℕ → Bool
is_source_bit_set slab host_offset source = load_bit slab (host_offset + source / 8) (source % 8)

unfoldable pub is_source_claimed : (ℕ → ℕ) → ℕ → Bool
unfolding is_source_bit_set
is_source_claimed slab source =
    is_source_bit_set slab plic_host_claimed_by_m source
    || is_source_bit_set slab plic_host_claimed_by_s source

-- The loop over the sources: the best source and its priority so far.
unfoldable pub select_best : (ℕ → ℕ) → PlicContext → ℕ → ℕ × ℕ
unfolding is_source_bit_set
select_best slab context zero = (0, 0)
select_best slab context (suc count) =
    let best = select_best slab context count in
    let source = suc count in
    let source_priority = load_32 slab (source * 4) in
    if not (is_source_bit_set slab plic_host_pending source)
      || not (is_source_bit_set slab (enable_host_offset context) source)
    then best
    else if leb source_priority (load_32 slab (threshold_host_offset context))
    then best
    else if best.0 == 0
        || ltb best.1 source_priority
        || (source_priority == best.1 && ltb source best.0)
    then (source, source_priority)
    else best

unfoldable pub select_claimable_source : (ℕ → ℕ) → PlicContext → ℕ
unfolding select_best
select_claimable_source slab context = (select_best slab context plic_max_source).0

abbrev pub irq_level_bit : PlicContext → ℕ
irq_level_bit machine = 2 ^ 11
irq_level_bit supervisor = 2 ^ 9

-- `setIrqWire`: the wire byte, and the level bit in the word that harts sleep on.
unfoldable pub set_plic_context_wire : Plic → PlicContext → Bool → Plic
set_plic_context_wire plic context is_pending = record plic {
  slab = store_byte_at plic.slab (context_wire_offset context) (if is_pending then 1 else 0);
  irq_level =
      if is_pending
      then bit_or plic.irq_level (irq_level_bit context)
      else bit_and plic.irq_level (0xffffffff - irq_level_bit context);
}

unfoldable pub refresh_context_wire : Plic → PlicContext → Plic
unfolding set_plic_context_wire select_claimable_source
refresh_context_wire plic context =
    set_plic_context_wire plic context (select_claimable_source plic.slab context != 0)

unfoldable pub refresh_all_context_wires : Plic → Plic
unfolding refresh_context_wire
refresh_all_context_wires plic = refresh_context_wire (refresh_context_wire plic machine) supervisor

unfoldable pub set_plic_source_pending : Plic → ℕ → Bool → Plic
unfolding update_source_bit is_source_claimed refresh_all_context_wires
set_plic_source_pending plic source is_pending =
    let levelled = update_source_bit plic.slab plic_host_input_level source is_pending in
    let gated =
      if not is_pending
      then update_source_bit levelled plic_host_pending source false
      else if not (is_source_claimed levelled source)
      then update_source_bit levelled plic_host_pending source true
      else levelled in
    if not (is_valid_source source)
    then plic
    else refresh_all_context_wires (record plic { slab = gated })

-- What a claim does with the source it selected.
unfoldable pub claim_selected : Plic → PlicContext → ℕ → Plic
unfolding update_source_bit refresh_all_context_wires
claim_selected plic context source =
    let taken = update_source_bit plic.slab plic_host_pending source false in
    let claimed = update_source_bit taken (claimed_by_host_offset context) source true in
    refresh_all_context_wires (record plic { slab = if source == 0 then plic.slab else claimed })

unfoldable pub claim_plic_source : Plic → PlicContext → ℕ × Plic
unfolding select_claimable_source claim_selected
claim_plic_source plic context =
    let source = select_claimable_source plic.slab context in
    (source, claim_selected plic context source)

unfoldable pub complete_plic_source : Plic → PlicContext → ℕ → Plic
unfolding is_source_bit_set update_source_bit refresh_all_context_wires
complete_plic_source plic context source =
    let released = update_source_bit plic.slab (claimed_by_host_offset context) source false in
    let gated =
      if is_source_bit_set released plic_host_input_level source
      then update_source_bit released plic_host_pending source true
      else released in
    if not (is_valid_source source)
    then plic
    else if not (is_source_bit_set plic.slab (claimed_by_host_offset context) source)
    then plic
    else refresh_all_context_wires (record plic { slab = gated })
