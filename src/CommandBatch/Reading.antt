-- ===== src/CommandBatch/Reading.antt =====
-- The reader: what was built is accepted and read back, and what is accepted is a row of valid records.
use bionic_vulkan_bridge.Prelude.{
  ℕ, ◌+◌, ◌^◌, ◌≤◌, ◌<◌, ◌≡◌, ◌≢◌, List, [], ◌∷◌, arith, refl, sym, ◌∙◌, ap, ok, false, length,
}
use bionic_vulkan_bridge.Wire.{Buffer, put_u16, put_u32, put_u64, get_u16, get_u32, get_u64, from}
use bionic_vulkan_bridge.Wire.RoundTrip.{joined_u32_lem, joined_u64_lem}
use bionic_vulkan_bridge.CommandBatch.{
  Builder, CommandRecord, BatchInfo, finish, put_header, header_size, magic, version, as_proto,
  record_is_bad, validate_loop, header_is_bad, validate,
}
use bionic_vulkan_bridge.CommandBatch.Payload.Local.{payload_is_valid-agree}
use bionic_vulkan_bridge.CommandBatch.Layout.{IsAt, AreAt, AreAt-agree, AreAt-order, behind}
use bionic_vulkan_bridge.CommandBatch.Building.{
  IsCommand, AreCommands, Holds, put_header-outside, record_length_lem,
}

record_is_good :
    (b : Buffer) (n o : ℕ) (r : CommandRecord)
    → IsAt b o r
    → IsCommand r
    → behind o r ≤ n
    → record_is_bad b n o ≡ false
unfolding record_is_bad
record_is_good b n o r at c fits =
    let p =
      payload_is_valid-agree r.opcode r.payload_length (from b (o + 8)) r.payload at.payload_lem
      ∙ c.valid in
    rw (at.opcode_lem, at.flags_lem, at.length_lem, p) (ground (arith, fits))

pub validate_loop_accepts :
    (b : Buffer) (n o e : ℕ) (rs : List CommandRecord)
    → AreAt b o rs e
    → AreCommands rs
    → e ≤ n
    → validate_loop b n (length rs) o ≡ ok e
unfolding validate_loop
validate_loop_accepts b n o e [] at c fits = ap ok at
validate_loop_accepts b n o e (r ∷ rs) (first, rest) (c, cs) fits =
    let order = AreAt-order b (behind o r) e rs rest in
    rw
      (
        record_is_good b n o r first c (omega (arith, order, fits)),
        first.length_lem,
        record_length_lem r.opcode r.payload r.payload_length c.valid,
      )
      (validate_loop_accepts b n (behind o r) e rs rest cs fits)

header_fields :
    (b c : Buffer) (n count id sequence : ℕ)
    → c ≡ put_header b n count id sequence
    → n < 2 ^ 32
    → count < 2 ^ 32
    → id < 2 ^ 64
    → sequence < 2 ^ 64
    → (get_u32 c 0 ≡ magic)
      × (get_u16 c 4 ≡ version)
      × (get_u16 c 6 ≡ 0)
      × (get_u32 c 8 ≡ n)
      × (get_u32 c 12 ≡ count)
      × (get_u64 c 16 ≡ id)
      × (get_u64 c 24 ≡ sequence)
unfolding put_header put_u16 put_u32 put_u64 get_u16 get_u32 get_u64
header_fields b c n count id sequence same p q r s = rw same (
  refl,
  refl,
  refl,
  joined_u32_lem n p,
  joined_u32_lem count q,
  joined_u64_lem id r,
  joined_u64_lem sequence s,
)

finish_lem :
    (b b' : Builder) (n : ℕ)
    → finish b ≡ ok (b', n)
    → (n ≡ b.length)
      × (b.command_count ≢ 0)
      × (b'.bytes ≡ put_header b.bytes b.length b.command_count b.command_buffer_id b.sequence)
unfolding finish
finish_lem b b' n e = ground (arith, e)

abbrev pub info_of : Builder → BatchInfo
info_of b = record {
  command_buffer_id = b.command_buffer_id;
  sequence = b.sequence;
  command_count = b.command_count;
  byte_length = b.length;
}

pub finished_laid :
    (b b' : Builder) (rs : List CommandRecord) (n : ℕ)
    → Holds b rs
    → finish b ≡ ok (b', n)
    → AreAt b'.bytes header_size rs n
finished_laid b b' rs n h e =
    let (same, _, bytes) = finish_lem b b' n e in
    rw (same, bytes)
      (AreAt-agree b.bytes
        (put_header b.bytes b.length b.command_count b.command_buffer_id b.sequence) header_size
        b.length rs
        (λ i l u.
          sym (
            put_header-outside b.bytes b.length b.command_count b.command_buffer_id b.sequence i l))
        h.laid)

-- Whatever records a builder holds, validate accepts the batch that finish makes of them, and reports the
-- builder's command buffer, sequence, count and length.
pub validate-finish :
    (b b' : Builder) (rs : List CommandRecord) (n : ℕ)
    → Holds b rs
    → finish b ≡ ok (b', n)
    → validate b'.bytes n ≡ ok (info_of b)
unfolding validate header_is_bad as_proto
validate-finish b b' rs n h e =
    let (same, some_record, bytes) = finish_lem b b' n e in
    let laid = finished_laid b b' rs n h e in
    let loop = validate_loop_accepts b'.bytes n header_size n rs laid h.commands (omega arith) in
    let order = AreAt-order b'.bytes header_size n rs laid in
    let (magic_read, version_read, zero_read, length_read, count_read, id_read, sequence_read) =
      header_fields b.bytes b'.bytes b.length b.command_count b.command_buffer_id b.sequence bytes
        (omega (arith, h.within, h.small)) (omega (arith, h.few)) h.id_fits h.sequence_fits in
    rw
      (
        magic_read, version_read, zero_read, length_read, count_read, id_read, sequence_read,
        h.id_valid,
      )
      (ground (
        arith, same, some_record, loop, order, h.counted, h.few, h.within, h.small,
        h.sequence_nonzero,
      ))
