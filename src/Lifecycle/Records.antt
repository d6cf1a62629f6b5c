-- ===== src/Lifecycle/Records.antt =====
-- The record and acknowledgement codecs of src/lifecycle.c invert each other.
use bionic_vulkan_bridge.Prelude.{ℕ, ◌+◌, ◌^◌, ◌<◌, ◌≡◌, ok, refl, arith, true, leb}
use mathlib.Core.Path.{fun_ext}
use bionic_vulkan_bridge.Wire.{
  Buffer, put_u16, put_u32, put_u64, put_i32, get_u16, get_u32, get_u64, get_i32,
}
use bionic_vulkan_bridge.Wire.RoundTrip.{
  IsI32, joined_u16_lem, joined_u32_lem, joined_u64_lem, joined_i32_lem,
}
use bionic_vulkan_bridge.Lifecycle.{
  Ack, get_ack, put_ack, encode_ack, decode_ack, magic, version, LifecycleRecord, get_record,
  put_record, encode_record, decode_record,
}

get_ack-put_ack :
    (b : Buffer) (a : Ack) → a.sequence < 2 ^ 32 → IsI32 a.status → get_ack (put_ack b a) ≡ a
unfolding get_ack put_ack get_u32 put_u32 put_u16 get_u16 put_i32 get_i32
get_ack-put_ack b a s t = ground (arith, joined_u32_lem a.sequence s, joined_i32_lem a.status t)

ack_prefix :
    (b : Buffer) (a : Ack)
    → (get_u32 (put_ack b a) 0 ≡ magic)
      × (get_u16 (put_ack b a) 4 ≡ version)
      × (get_u16 (put_ack b a) 6 ≡ 0)
unfolding put_ack get_u32 put_u32 put_u16 get_u16 put_i32 get_i32
ack_prefix b a = (refl, refl, refl)

-- What encode_ack writes for an acknowledgement whose fields fit their types, decode_ack reads back.
pub decode_ack-encode_ack :
    (out b : Buffer) (a : Ack)
    → a.sequence < 2 ^ 32
    → IsI32 a.status
    → encode_ack out a ≡ ok b
    → decode_ack b ≡ ok a
unfolding encode_ack decode_ack
decode_ack-encode_ack out b a s t e = ground (arith, e, get_ack-put_ack out a s t, ack_prefix out a)

-- The 32 bytes of a token.
abbrev pub IsToken : Buffer → Type 0
IsToken t = (i : ℕ) → leb 32 i ≡ true → t i ≡ 0

abbrev pub IsRecord : LifecycleRecord → Type 0
IsRecord r =
    (r.event < 2 ^ 16)
    × (r.sequence < 2 ^ 32)
    × (r.width < 2 ^ 32)
    × (r.height < 2 ^ 32)
    × (r.activity_pid < 2 ^ 32)
    × (r.monotonic_ns < 2 ^ 64)
    × IsToken r.token

token_put :
    (b : Buffer) (r : LifecycleRecord) (i : ℕ) → i < 32 → put_record b r (32 + i) ≡ r.token i
unfolding put_record
token_put b r i h = ground arith

token_read :
    (b : Buffer) (r : LifecycleRecord) → IsRecord r → (get_record (put_record b r)).token ≡ r.token
unfolding get_record
token_read b r (_, _, _, _, _, _, tk) = fun_ext λ i. ground (arith, token_put b r i, tk i)

get_record-put_record :
    (b : Buffer) (r : LifecycleRecord) → IsRecord r → get_record (put_record b r) ≡ r
unfolding get_record put_record get_u32 put_u32 put_u16 get_u16 put_u64 get_u64
get_record-put_record b r w = ground (
  arith,
  token_read b r w,
  joined_u32_lem r.sequence,
  joined_u32_lem r.width,
  joined_u32_lem r.height,
  joined_u32_lem r.activity_pid,
  joined_u16_lem r.event,
  joined_u64_lem r.monotonic_ns,
  w,
)

record_prefix :
    (b : Buffer) (r : LifecycleRecord)
    → (get_u32 (put_record b r) 0 ≡ magic) × (get_u16 (put_record b r) 4 ≡ version)
unfolding put_record get_u32 put_u32 put_u16 get_u16 put_u64
record_prefix b r = (refl, refl)

-- What encode_record writes for a record whose fields fit their types, decode_record reads back.
pub decode_record-encode_record :
    (out b : Buffer) (r : LifecycleRecord)
    → IsRecord r
    → encode_record out r ≡ ok b
    → decode_record b ≡ ok r
unfolding encode_record decode_record
decode_record-encode_record out b r h e =
    ground (arith, e, get_record-put_record out r h, record_prefix out r)
