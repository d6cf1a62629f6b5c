-- ===== src/Lifecycle.antt =====
-- The authenticated lifecycle records of src/lifecycle.c and include/bvb/lifecycle.h, which the
-- Activity sends to the service. Its put_u16, put_u32, put_u64 and readers are those of Wire.
pub mod Records
pub mod Canonical
pub mod Token
mod Tests
use bionic_vulkan_bridge.Prelude.{
  ℕ, zero, suc, ◌+◌, ◌-◌, ◌*◌, Bool, ◌&&◌, ◌||◌, ltb, leb, ◌==◌, ◌!=◌, if◌then◌else◌, Result,
  Status, ok, err, success, einval, eproto, update, bit_or, ℤ, pos, negsuc, ◌>>◌, ◌>>=◌, fail_if,
  Option, none, some,
}
use bionic_vulkan_bridge.Wire.{
  Buffer, u8, shl, put_u16, put_u32, put_u64, put_i32, get_u16, get_u32, get_u64, get_i32,
}

abbrev pub magic : ℕ
magic = 0x314c_5642

abbrev pub version : ℕ
version = 1

abbrev pub token_size : ℕ
token_size = 32

abbrev pub token_hex_size : ℕ
token_hex_size = 64

abbrev pub event_created : ℕ
event_created = 1

abbrev pub event_window_created : ℕ
event_window_created = 7

abbrev pub event_renderer_ready : ℕ
event_renderer_ready = 11

abbrev pub event_renderer_failed : ℕ
event_renderer_failed = 12

abbrev pub event_native_binder_status : ℕ
event_native_binder_status = 13

pub record LifecycleRecord : Type 0 where
  pub event : ℕ
  pub sequence : ℕ
  pub width : ℕ
  pub height : ℕ
  pub activity_pid : ℕ
  pub monotonic_ns : ℕ
  pub token : Buffer

pub record Ack : Type 0 where
  pub sequence : ℕ
  pub status : ℤ

pub needs_size : ℕ → Bool
needs_size event =
    event == event_window_created || event == event_renderer_ready || event == event_renderer_failed

pub record_is_valid : LifecycleRecord → Bool
unfolding needs_size
record_is_valid r =
    leb event_created r.event
    && leb r.event event_native_binder_status
    && r.sequence != 0
    && r.activity_pid != 0
    && r.monotonic_ns != 0
    && (if needs_size r.event then r.width != 0 && r.height != 0 else Bool.true)

-- `memcpy(output + o, bytes, size)`
abbrev pub copy : Buffer → ℕ → Buffer → ℕ → Buffer
copy output o bytes size i = if leb o i && ltb i (o + size) then bytes (i - o) else output i

pub put_record : Buffer → LifecycleRecord → Buffer
put_record output r =
    let output = put_u32 output 0 magic in
    let output = put_u16 output 4 version in
    let output = put_u16 output 6 r.event in
    let output = put_u32 output 8 r.sequence in
    let output = put_u32 output 12 r.width in
    let output = put_u32 output 16 r.height in
    let output = put_u32 output 20 r.activity_pid in
    let output = put_u64 output 24 r.monotonic_ns in copy output 32 r.token token_size

pub encode_record : Buffer → LifecycleRecord → Result Buffer
encode_record output r = if record_is_valid r then ok (put_record output r) else err einval

-- The fields as they stand in the buffer. The token is 32 bytes; what lies beyond is not looked at.
pub get_record : Buffer → LifecycleRecord
get_record input = record {
  event = get_u16 input 6;
  sequence = get_u32 input 8;
  width = get_u32 input 12;
  height = get_u32 input 16;
  activity_pid = get_u32 input 20;
  monotonic_ns = get_u64 input 24;
  token = copy (λ _. 0) 0 (λ i. input (32 + i)) token_size;
}

pub decode_record : Buffer → Result LifecycleRecord
decode_record input = do
  fail_if (get_u32 input 0 != magic || get_u16 input 4 != version) eproto
  if record_is_valid (get_record input) then ok (get_record input) else err eproto

abbrev pub is_positive : ℤ → Bool
is_positive (pos n) = n != 0
is_positive (negsuc n) = Bool.false

pub ack_is_valid : Ack → Bool
ack_is_valid a = a.sequence != 0 && (if is_positive a.status then Bool.false else Bool.true)

pub put_ack : Buffer → Ack → Buffer
put_ack output a =
    let output = put_u32 output 0 magic in
    let output = put_u16 output 4 version in
    let output = put_u16 output 6 0 in
    let output = put_u32 output 8 a.sequence in put_i32 output 12 a.status

pub encode_ack : Buffer → Ack → Result Buffer
encode_ack output a = if ack_is_valid a then ok (put_ack output a) else err einval

pub get_ack : Buffer → Ack
get_ack input = record { sequence = get_u32 input 8; status = get_i32 input 12 }

pub decode_ack : Buffer → Result Ack
decode_ack input = do
  fail_if (get_u32 input 0 != magic || get_u16 input 4 != version || get_u16 input 6 != 0) eproto
  if ack_is_valid (get_ack input) then ok (get_ack input) else err eproto

-- The digit's value; -1 is `none`. Characters are their codes.
pub hex_nibble : ℕ → Option ℕ
hex_nibble value =
    if leb 48 value && leb value 57
    then some (value - 48)
    else if leb 97 value && leb value 102
    then some (value - 97 + 10)
    else if leb 65 value && leb value 70
    then some (value - 65 + 10)
    else none

-- The loop over the bytes of the token; `none` where a character is no digit.
pub token_loop : Buffer → ℕ → ℕ → Buffer → Option Buffer
token_loop input zero index output = some output
token_loop input (suc left) index output = elim (hex_nibble (input (index * 2))) [
  | none ↦ none
  | some high ↦ elim (hex_nibble (input (index * 2 + 1))) [
    | none ↦ none
    | some low ↦
        token_loop input left (index + 1) (update output index (bit_or (u8 (shl high 4)) (u8 low)))
  ]
]

-- The text with its length as strlen counts it, and what the output holds before. The output afterwards.
pub token_from_hex : Buffer → ℕ → Buffer → Buffer × Status
token_from_hex input length output =
    if length != token_hex_size
    then (output, err einval)
    else elim (token_loop input token_size 0 output) [
      | none ↦ ((λ i. if ltb i token_size then 0 else output i), err einval)
      | some token ↦ (token, success)
    ]
