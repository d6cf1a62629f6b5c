-- ===== src/CommandBatch.antt =====
-- The command batch of src/command_batch.c and include/bvb/command_batch.h: a header and a sequence of
-- records, built on one side of the bridge and validated and iterated on the other.
pub mod Payload
pub mod Layout
pub mod Building
pub mod Reading
pub mod Untrusted
pub mod Iterating
mod Tests
use bionic_vulkan_bridge.Prelude.{
  ℕ, zero, suc, ◌+◌, ◌-◌, ◌*◌, ◌%◌, ◌^◌, Bool, true, false, not, ◌&&◌, ◌||◌, ltb, leb, ◌==◌, ◌!=◌,
  if◌then◌else◌, Option, none, some, List, [], ◌∷◌, Result, Status, ok, err, einval, enospc, eproto,
  ◌>>◌, ◌>>=◌, fail_if,
}
use bionic_vulkan_bridge.Wire.{
  Buffer, put_u16, put_u32, put_u64, get_u16, get_u32, get_u64, copied, from,
}
use bionic_vulkan_bridge.Handle.{handle_expect, object_command_buffer}
use bionic_vulkan_bridge.CommandBatch.Payload.{payload_is_valid}

abbrev pub magic : ℕ
magic = 0x4342_5642

abbrev pub version : ℕ
version = 1

abbrev pub header_size : ℕ
header_size = 32

abbrev pub record_header_size : ℕ
record_header_size = 8

abbrev pub max_bytes : ℕ
max_bytes = 16 * 1024 * 1024

abbrev pub max_commands : ℕ
max_commands = 1024 * 1024

pub record Builder : Type 0 where
  pub bytes : Buffer
  pub capacity : ℕ
  pub length : ℕ
  pub command_buffer_id : ℕ
  pub sequence : ℕ
  pub command_count : ℕ
  pub finished : Bool

pub record CommandRecord : Type 0 where
  pub opcode : ℕ
  pub payload : Buffer
  pub payload_length : ℕ

pub record BatchInfo : Type 0 where
  pub command_buffer_id : ℕ
  pub sequence : ℕ
  pub command_count : ℕ
  pub byte_length : ℕ

pub record BatchIterator : Type 0 where
  pub bytes : Buffer
  pub length : ℕ
  pub offset : ℕ
  pub remaining : ℕ

-- The bytes are the caller's buffer.
pub begin : Buffer → ℕ → ℕ → ℕ → Result Builder
begin bytes capacity command_buffer_id sequence = do
  fail_if (ltb capacity header_size || ltb max_bytes capacity || sequence == 0) einval
  handle_expect command_buffer_id object_command_buffer
  ok (record {
    bytes = λ i. if ltb i header_size then 0 else bytes i;
    capacity = capacity;
    length = header_size;
    command_buffer_id = command_buffer_id;
    sequence = sequence;
    command_count = 0;
    finished = false;
  })

-- The stores of append_record, at the end of what is there.
pub put_record : Buffer → ℕ → CommandRecord → Buffer
put_record bytes o r =
    let bytes = put_u16 bytes o r.opcode in
    let bytes = put_u16 bytes (o + 2) 0 in
    let bytes = put_u32 bytes (o + 4) r.payload_length in
    copied bytes (o + record_header_size) r.payload r.payload_length

-- BVB_COMMAND_RECORD_HEADER_SIZE + payload_length, a sum of the type uint32_t.
abbrev pub record_length : ℕ → ℕ
record_length payload_length = (record_header_size + payload_length) % 2 ^ 32

-- append_record without the checks of the payload.
pub append_raw : Builder → CommandRecord → Result Builder
unfolding put_record
append_raw b r = do
  fail_if
      (b.finished
        || ltb b.length header_size
        || ltb b.capacity b.length
        || leb max_commands b.command_count)
      einval
  let added = record_length r.payload_length
  fail_if
      (ltb max_bytes added
        || ltb b.capacity added
        || ltb (b.capacity - added) b.length
        || ltb (max_bytes - added) b.length)
      enospc
  ok (record b {
    bytes = put_record b.bytes b.length r;
    length = b.length + added;
    command_count = b.command_count + 1;
  })

-- bvb_command_batch_append_record.
pub append_record : Builder → CommandRecord → Result Builder
unfolding append_raw
append_record b r = do
  fail_if (not (payload_is_valid r.opcode r.payload r.payload_length)) einval
  append_raw b r

pub put_header : Buffer → ℕ → ℕ → ℕ → ℕ → Buffer
put_header bytes length command_count command_buffer_id sequence =
    let bytes = put_u32 bytes 0 magic in
    let bytes = put_u16 bytes 4 version in
    let bytes = put_u16 bytes 6 0 in
    let bytes = put_u32 bytes 8 length in
    let bytes = put_u32 bytes 12 command_count in
    let bytes = put_u64 bytes 16 command_buffer_id in put_u64 bytes 24 sequence

-- The builder afterwards and the length.
pub finish : Builder → Result (Builder × ℕ)
unfolding put_header
finish b = do
  fail_if (b.finished || b.command_count == 0 || ltb (2 ^ 32 - 1) b.length) einval
  ok (
    record b {
      bytes = put_header b.bytes b.length b.command_count b.command_buffer_id b.sequence;
      finished = true;
    },
    b.length,
  )

-- What is wrong with a record at an offset: its header does not fit, or it does not fit, or its payload is
-- not one.
pub record_is_bad : Buffer → ℕ → ℕ → Bool
record_is_bad bytes length offset =
    ltb length offset
    || ltb (length - offset) record_header_size
    || get_u16 bytes (offset + 2) != 0
    || ltb (length - offset - record_header_size) (get_u32 bytes (offset + 4))
    || not (
        payload_is_valid (get_u16 bytes offset) (from bytes (offset + record_header_size))
          (get_u32 bytes (offset + 4)))

-- The loop of validate, with the number of records left: the offset behind the last.
pub validate_loop : Buffer → ℕ → ℕ → ℕ → Result ℕ
validate_loop bytes length zero offset = ok offset
validate_loop bytes length (suc left) offset =
    let rest =
      validate_loop bytes length left (offset + record_length (get_u32 bytes (offset + 4))) in
    if record_is_bad bytes length offset then err eproto else rest

pub header_is_bad : Buffer → ℕ → Bool
header_is_bad bytes length =
    get_u32 bytes 0 != magic
    || get_u16 bytes 4 != version
    || get_u16 bytes 6 != 0
    || get_u32 bytes 8 != length
    || get_u32 bytes 12 == 0
    || ltb max_commands (get_u32 bytes 12)
    || get_u64 bytes 24 == 0

-- A failing check of the handle is EPROTO too.
pub as_proto : Status → Status
as_proto (ok x) = ok x
as_proto (err e) = err eproto

pub validate : Buffer → ℕ → Result BatchInfo
unfolding header_is_bad as_proto
validate bytes length = do
  fail_if (ltb length header_size || ltb max_bytes length) einval
  fail_if (header_is_bad bytes length) eproto
  as_proto (handle_expect (get_u64 bytes 16) object_command_buffer)
  offset ← validate_loop bytes length (get_u32 bytes 12) header_size
  fail_if (offset != length) eproto
  ok (record {
    command_buffer_id = get_u64 bytes 16;
    sequence = get_u64 bytes 24;
    command_count = get_u32 bytes 12;
    byte_length = get_u32 bytes 8;
  })

pub iterator_init : Buffer → ℕ → Result BatchIterator
iterator_init bytes length = validate bytes length >>= λ info. ok (record {
  bytes = bytes;
  length = length;
  offset = header_size;
  remaining = info.command_count;
})

-- The record at the iterator's offset, and the iterator behind it.
pub current : BatchIterator → CommandRecord
current it = record {
  opcode = get_u16 it.bytes it.offset;
  payload = from it.bytes (it.offset + record_header_size);
  payload_length = get_u32 it.bytes (it.offset + 4);
}

pub advanced : BatchIterator → BatchIterator
advanced it = record it {
  offset = it.offset + record_length (get_u32 it.bytes (it.offset + 4));
  remaining = it.remaining - 1;
}

-- bvb_command_batch_next: `none` is its return value 1, at the end.
pub next : BatchIterator → Result (Option (CommandRecord × BatchIterator))
unfolding current advanced
next it =
    if ltb it.length it.offset
    then err einval
    else if it.remaining == 0
    then ok none
    else ok (some (current it, advanced it))
