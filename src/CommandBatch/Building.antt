-- ===== src/CommandBatch/Building.antt =====
-- The builder: what it has been given stands in its buffer, and it writes nowhere else.
use bionic_vulkan_bridge.Prelude.{
  ℕ, ◌+◌, ◌^◌, ◌≤◌, ◌<◌, ◌≡◌, ◌≢◌, ◌⊎◌, inl, inr, List, [], ◌∷◌, ◌++◌, arith, refl, sym, ◌∙◌, ok,
  true, false, success, length, length-append,
}
use bionic_vulkan_bridge.Wire.{Buffer, put_u16, put_u32, put_u64}
use bionic_vulkan_bridge.Wire.RoundTrip.{put_u16-outside, put_u32-outside, put_u64-outside}
use bionic_vulkan_bridge.Handle.{handle_expect, object_command_buffer}
use bionic_vulkan_bridge.CommandBatch.{
  Builder, CommandRecord, begin, append_raw, append_record, put_record, put_header, header_size,
  max_bytes, max_commands, record_header_size, record_length,
}
use bionic_vulkan_bridge.CommandBatch.Payload.{payload_is_valid}
use bionic_vulkan_bridge.CommandBatch.Payload.Lengths.{payload_is_valid-le}
use bionic_vulkan_bridge.CommandBatch.Layout.{
  AreAt, AreAt-agree, AreAt-append, put_record-outside, put_record-IsAt, behind,
}

-- A record whose header fields fit their types and whose payload is one of its opcode.
pub record IsCommand (r : CommandRecord) : Type 0 where
  pub opcode_fits : r.opcode < 2 ^ 16
  pub length_fits : r.payload_length < 2 ^ 32
  pub valid : payload_is_valid r.opcode r.payload r.payload_length ≡ true

abbrev pub AreCommands : List CommandRecord → Type 0
AreCommands [] = Unit {0}
AreCommands (r ∷ rs) = IsCommand r × AreCommands rs

pub AreCommands-append :
    (rs : List CommandRecord) (r : CommandRecord)
    → AreCommands rs
    → IsCommand r
    → AreCommands (rs ++ r ∷ [])
AreCommands-append [] r h k = (k, tt)
AreCommands-append (s ∷ rs) r (first, rest) k = (first, AreCommands-append rs r rest k)

-- The builder holds these records, and nothing of it is out of range.
pub record Holds (b : Builder) (rs : List CommandRecord) : Type 0 where
  pub open_lem : b.finished ≡ false
  pub within : b.length ≤ b.capacity
  pub small : b.capacity ≤ max_bytes
  pub counted : b.command_count ≡ length rs
  pub few : b.command_count ≤ max_commands
  pub id_fits : b.command_buffer_id < 2 ^ 64
  pub id_valid : handle_expect b.command_buffer_id object_command_buffer ≡ success
  pub sequence_fits : b.sequence < 2 ^ 64
  pub sequence_nonzero : b.sequence ≢ 0
  pub commands : AreCommands rs
  pub laid : AreAt b.bytes header_size rs b.length

-- A builder that begin accepts holds no record.
pub begin-Holds :
    (bytes : Buffer) (capacity id sequence : ℕ) (b : Builder)
    → id < 2 ^ 64
    → sequence < 2 ^ 64
    → begin bytes capacity id sequence ≡ ok b
    → Holds b []
unfolding begin
begin-Holds bytes capacity id sequence b p q e = ground (arith, e)

-- Of a valid payload the uint32_t sum does not wrap.
pub record_length_lem :
    (opcode : ℕ) (payload : Buffer) (n : ℕ)
    → payload_is_valid opcode payload n ≡ true
    → record_length n ≡ record_header_size + n
record_length_lem opcode payload n valid = omega (arith, payload_is_valid-le opcode payload n valid)

append_raw_lem :
    (b b' : Builder) (r : CommandRecord)
    → payload_is_valid r.opcode r.payload r.payload_length ≡ true
    → append_raw b r ≡ ok b'
    → (b' ≡ record b {
      bytes = put_record b.bytes b.length r;
      length = b.length + (record_header_size + r.payload_length);
      command_count = b.command_count + 1;
    })
      × (b.command_count < max_commands)
      × (b.length + (record_header_size + r.payload_length) ≤ b.capacity)
      × (b.length + (record_header_size + r.payload_length) ≤ max_bytes)
unfolding append_raw
append_raw_lem b b' r valid e =
    ground (arith, e, record_length_lem r.opcode r.payload r.payload_length valid)

append_raw-Holds :
    (b b' : Builder) (rs : List CommandRecord) (r : CommandRecord)
    → Holds b rs
    → IsCommand r
    → append_raw b r ≡ ok b'
    → Holds b' (rs ++ r ∷ [])
append_raw-Holds b b' rs r h c e =
    let (same, room, fits, small) = append_raw_lem b b' r c.valid e in
    let laid =
      AreAt-append (put_record b.bytes b.length r) header_size b.length (behind b.length r) rs
        (r ∷ [])
        (AreAt-agree b.bytes (put_record b.bytes b.length r) header_size b.length rs
          (λ i l u. sym (put_record-outside b.bytes b.length i r (inl u))) h.laid)
        (put_record-IsAt b.bytes b.length r c.opcode_fits c.length_fits, refl) in
    rw same (record {
      open_lem = h.open_lem;
      within = fits;
      small = h.small;
      counted = omega (arith, h.counted, length-append rs (r ∷ []));
      few = omega (arith, room);
      id_fits = h.id_fits;
      id_valid = h.id_valid;
      sequence_fits = h.sequence_fits;
      sequence_nonzero = h.sequence_nonzero;
      commands = AreCommands-append rs r h.commands c;
      laid = laid;
    })

append_record_lem :
    (b b' : Builder) (r : CommandRecord)
    → append_record b r ≡ ok b'
    → (payload_is_valid r.opcode r.payload r.payload_length ≡ true) × (append_raw b r ≡ ok b')
unfolding append_record
append_record_lem b b' r e = ground (arith, e)

-- An append that succeeds adds its record behind those that the builder holds. The opcode and the length
-- are of their C types.
pub append_record-Holds :
    (b b' : Builder) (rs : List CommandRecord) (r : CommandRecord)
    → Holds b rs
    → r.opcode < 2 ^ 16
    → r.payload_length < 2 ^ 32
    → append_record b r ≡ ok b'
    → Holds b' (rs ++ r ∷ [])
append_record-Holds b b' rs r h p q e =
    let (valid, raw) = append_record_lem b b' r e in
    append_raw-Holds b b' rs r h (record { opcode_fits = p; length_fits = q; valid = valid }) raw

-- An append that succeeds stays within the capacity and the largest batch, grows the batch by the header of
-- the record and the whole payload, and writes the bytes from the old length up to the new one at most.
pub append_record_bounds :
    (b b' : Builder) (r : CommandRecord) (i : ℕ)
    → append_record b r ≡ ok b'
    → (b'.length ≤ b.capacity)
      × (b'.length ≤ max_bytes)
      × (b'.length ≡ b.length + (record_header_size + r.payload_length))
      × ((i < b.length) ⊎ (b'.length ≤ i) → b'.bytes i ≡ b.bytes i)
append_record_bounds b b' r i e =
    let (valid, raw) = append_record_lem b b' r e in
    let (same, _, fits, small) = append_raw_lem b b' r valid raw in
    rw same (fits, small, refl, λ h. put_record-outside b.bytes b.length i r h)

pub put_header-outside :
    (b : Buffer) (n count id sequence i : ℕ)
    → header_size ≤ i
    → put_header b n count id sequence i ≡ b i
unfolding put_header
put_header-outside b n count id sequence i h =
    let b1 = put_u32 b 0 0x4342_5642 in
    let b2 = put_u16 b1 4 1 in
    let b3 = put_u16 b2 6 0 in
    let b4 = put_u32 b3 8 n in
    let b5 = put_u32 b4 12 count in
    let b6 = put_u64 b5 16 id in
    put_u64-outside b6 24 sequence i (inr (omega (arith, h)))
    ∙ put_u64-outside b5 16 id i (inr (omega (arith, h)))
    ∙ put_u32-outside b4 12 count i (inr (omega (arith, h)))
    ∙ put_u32-outside b3 8 n i (inr (omega (arith, h)))
    ∙ put_u16-outside b2 6 0 i (inr (omega (arith, h)))
    ∙ put_u16-outside b1 4 1 i (inr (omega (arith, h)))
    ∙ put_u32-outside b 0 0x4342_5642 i (inr (omega (arith, h)))
