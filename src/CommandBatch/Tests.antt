-- ===== src/CommandBatch/Tests.antt =====
-- A batch of two commands, built, finished and read back: the theorems of CommandBatch at a concrete
-- input.
use bionic_vulkan_bridge.Prelude.{
  ℕ, ◌+◌, ◌*◌, ◌^◌, ◌≤◌, ◌<◌, ◌≡◌, ◌⊎◌, List, [], ◌∷◌, arith, refl, ok, true, false, if◌then◌else◌,
  ltb,
}
use bionic_vulkan_bridge.Wire.{Buffer, put_u32, get_u32}
use bionic_vulkan_bridge.Handle.{
  handle_expect, handle_type, handle_serial, object_type_is_valid, object_command_buffer,
}
use bionic_vulkan_bridge.CommandBatch.{
  Builder, CommandRecord, BatchIterator, begin, append_record, append_raw, put_record, put_header,
  finish, validate, record_is_bad, iterator_init, header_size, max_bytes, record_header_size,
}
use bionic_vulkan_bridge.CommandBatch.Payload.{
  payload_is_valid, opcode_payload_is_valid, validate_payload,
}
use bionic_vulkan_bridge.CommandBatch.Payload.Opcodes.{opcode_of, transfer_opcode_is_valid}
use bionic_vulkan_bridge.CommandBatch.Payload.Sizes.{payload_length_is_valid, expected_payload_size}
use bionic_vulkan_bridge.CommandBatch.Payload.Drawing.{draw_is_valid}
use bionic_vulkan_bridge.CommandBatch.Payload.Local.{payload_is_valid-agree}
use bionic_vulkan_bridge.CommandBatch.Layout.{AreAt}
use bionic_vulkan_bridge.CommandBatch.Building.{
  Holds, AreCommands, begin-Holds, append_record-Holds, append_record_bounds,
}
use bionic_vulkan_bridge.CommandBatch.Reading.{validate-finish, info_of}
use bionic_vulkan_bridge.CommandBatch.Untrusted.{records_from, validate_sound, validate-agree}
use bionic_vulkan_bridge.CommandBatch.Iterating.{
  Reads, SameRecords, iterator_init-Reads, iterator_init-finish,
}

abbrev sample_id : ℕ
sample_id = object_command_buffer * 2 ^ 56 + 7

abbrev blank : Buffer
blank i = 0

-- A draw of three vertices, and the end of the rendering.
abbrev sample_draw : CommandRecord
sample_draw = record { opcode = 5; payload = put_u32 (put_u32 blank 0 3) 4 1; payload_length = 16 }

abbrev sample_end : CommandRecord
sample_end = record { opcode = 6; payload = blank; payload_length = 0 }

abbrev builder_with : Buffer → ℕ → ℕ → Builder
builder_with bytes length command_count = record {
  bytes = bytes;
  capacity = 128;
  length = length;
  command_buffer_id = sample_id;
  sequence = 9;
  command_count = command_count;
  finished = false;
}

abbrev begun : Builder
begun = builder_with (λ i. if ltb i header_size then 0 else blank i) 32 0

abbrev drawn : Builder
drawn = builder_with (put_record begun.bytes 32 sample_draw) 56 1

abbrev ended : Builder
ended = builder_with (put_record drawn.bytes 56 sample_end) 64 2

abbrev sample_bytes : Buffer
sample_bytes = put_header ended.bytes 64 2 sample_id 9

abbrev finished_builder : Builder
finished_builder = record ended { bytes = sample_bytes; finished = true }

begin_lem : begin blank 128 sample_id 9 ≡ ok begun
unfolding begin handle_expect handle_type handle_serial object_type_is_valid
begin_lem = refl

draw_valid : payload_is_valid 5 sample_draw.payload 16 ≡ true
unfolding payload_is_valid opcode_payload_is_valid payload_length_is_valid expected_payload_size
    transfer_opcode_is_valid validate_payload draw_is_valid opcode_of put_u32 get_u32
draw_valid = refl

end_valid : payload_is_valid 6 blank 0 ≡ true
unfolding payload_is_valid opcode_payload_is_valid payload_length_is_valid expected_payload_size
    transfer_opcode_is_valid validate_payload opcode_of
end_valid = refl

append_draw : append_record begun sample_draw ≡ ok drawn
unfolding append_record append_raw
append_draw = rw draw_valid refl

append_end : append_record drawn sample_end ≡ ok ended
unfolding append_record append_raw
append_end = rw end_valid refl

finish-ended : finish ended ≡ ok (finished_builder, 64)
unfolding finish
finish-ended = refl

begun-Holds : Holds begun []
begun-Holds = begin-Holds blank 128 sample_id 9 begun (omega arith) (omega arith) begin_lem

drawn-Holds : Holds drawn (sample_draw ∷ [])
drawn-Holds =
    append_record-Holds begun drawn [] sample_draw begun-Holds (omega arith) (omega arith)
      append_draw

append_record-Holds_example : Holds ended (sample_draw ∷ sample_end ∷ [])
append_record-Holds_example =
    append_record-Holds drawn ended (sample_draw ∷ []) sample_end drawn-Holds (omega arith)
      (omega arith) append_end

ended-Holds : Holds ended (sample_draw ∷ sample_end ∷ [])
ended-Holds =
    append_record-Holds drawn ended (sample_draw ∷ []) sample_end drawn-Holds (omega arith)
      (omega arith) append_end

append_record_bounds_example :
    (64 ≤ 128)
    × (64 ≤ max_bytes)
    × (64 ≡ drawn.length + (record_header_size + sample_end.payload_length))
    × ((3 < 56) ⊎ (64 ≤ 3) → ended.bytes 3 ≡ drawn.bytes 3)
append_record_bounds_example = append_record_bounds drawn ended sample_end 3 append_end

sample_accepted : validate sample_bytes 64 ≡ ok (info_of ended)
sample_accepted =
    validate-finish ended finished_builder (sample_draw ∷ sample_end ∷ []) 64 ended-Holds
      finish-ended

abbrev sample_iterator : BatchIterator
sample_iterator = record { bytes = sample_bytes; length = 64; offset = header_size; remaining = 2 }

sample_started : iterator_init sample_bytes 64 ≡ ok sample_iterator
unfolding iterator_init
sample_started = rw sample_accepted refl

validate-finish_example : validate sample_bytes 64 ≡ ok (info_of ended)
validate-finish_example =
    validate-finish ended finished_builder (sample_draw ∷ sample_end ∷ []) 64 ended-Holds
      finish-ended

validate_sound_example :
    ((info_of ended).byte_length ≡ 64)
    × AreAt sample_bytes header_size (records_from sample_bytes 2 header_size) 64
    × AreCommands (records_from sample_bytes 2 header_size)
validate_sound_example = validate_sound sample_bytes 64 (info_of ended) sample_accepted

-- The same batch with other bytes behind it.
abbrev longer_bytes : Buffer
longer_bytes i = if ltb i 64 then sample_bytes i else 0xff

validate-agree_example :
    ((o : ℕ) → record_is_bad sample_bytes 64 o ≡ record_is_bad longer_bytes 64 o)
    × (validate sample_bytes 64 ≡ validate longer_bytes 64)
validate-agree_example = validate-agree 64 sample_bytes longer_bytes (λ i l. ground (arith, l))

payload_is_valid-agree_example :
    payload_is_valid 5 sample_draw.payload 16
    ≡ payload_is_valid 5 (λ i. if ltb i 16 then sample_draw.payload i else 0xff) 16
payload_is_valid-agree_example =
    payload_is_valid-agree 5 16 sample_draw.payload
      (λ i. if ltb i 16 then sample_draw.payload i else 0xff) (λ i l. ground (arith, l))

iterator_init-Reads_example :
    (k : ℕ) × Reads sample_iterator (records_from sample_bytes k header_size)
    × AreAt sample_bytes header_size (records_from sample_bytes k header_size) 64
    × AreCommands (records_from sample_bytes k header_size)
iterator_init-Reads_example = iterator_init-Reads sample_bytes 64 sample_iterator sample_started

iterator_init-finish_example :
    (it : BatchIterator) × (read : List CommandRecord) × (iterator_init sample_bytes 64 ≡ ok it)
    × Reads it read
    × SameRecords read (sample_draw ∷ sample_end ∷ [])
iterator_init-finish_example =
    iterator_init-finish ended finished_builder (sample_draw ∷ sample_end ∷ []) 64 ended-Holds
      finish-ended
