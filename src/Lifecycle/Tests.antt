-- ===== src/Lifecycle/Tests.antt =====
-- Tests of the lifecycle codecs, and the theorems at concrete inputs.
use bionic_vulkan_bridge.Prelude.{◌%◌, ◌==◌, ◌≡◌, ok, refl, arith, success, ltb, if◌then◌else◌}
use bionic_vulkan_bridge.Wire.{Buffer, put_u16, put_u32, put_u64}
use bionic_vulkan_bridge.Wire.RoundTrip.{IsBytes}
use bionic_vulkan_bridge.Wire.Canonical.{AgreeTo}
use bionic_vulkan_bridge.Lifecycle.{
  LifecycleRecord, put_record, encode_record, decode_record, record_is_valid, needs_size,
  hex_nibble, token_from_hex,
}
use bionic_vulkan_bridge.Lifecycle.Records.{decode_record-encode_record, IsRecord}
use bionic_vulkan_bridge.Lifecycle.Canonical.{encode_record-decode_record}
use bionic_vulkan_bridge.Lifecycle.Token.{paired, AreDigits, token_from_hex_digits}

abbrev blank : Buffer
blank i = 0

abbrev window_created : LifecycleRecord
window_created = record {
  event = 7;
  sequence = 3;
  width = 1080;
  height = 2400;
  activity_pid = 4711;
  monotonic_ns = 5000000000;
  token = λ i. if ltb i 32 then 7 else 0;
}

window_created-IsRecord : IsRecord window_created
window_created-IsRecord = (
  omega arith,
  omega arith,
  omega arith,
  omega arith,
  omega arith,
  omega arith,
  λ i h. ground (arith, h),
)

window_created_accepted : encode_record blank window_created ≡ ok (put_record blank window_created)
unfolding encode_record record_is_valid needs_size
window_created_accepted = refl

decode_record-encode_record_example :
    decode_record (put_record blank window_created) ≡ ok window_created
decode_record-encode_record_example =
    decode_record-encode_record blank (put_record blank window_created) window_created
      window_created-IsRecord window_created_accepted

put_record-IsBytes : IsBytes (put_record blank window_created)
unfolding put_record put_u64 put_u32 put_u16
put_record-IsBytes i = ground arith

put_record_read : decode_record (put_record blank window_created) ≡ ok window_created
put_record_read =
    decode_record-encode_record blank (put_record blank window_created) window_created
      window_created-IsRecord window_created_accepted

encode_record-decode_record_example :
    (encode_record blank window_created ≡ ok (put_record blank window_created))
    × AgreeTo 64 (put_record blank window_created) (put_record blank window_created)
encode_record-decode_record_example =
    encode_record-decode_record (put_record blank window_created) blank window_created
      put_record-IsBytes put_record_read

-- The text "a7a7...", and one with a "g" in it.
abbrev letters : Buffer
letters i = if i % 2 == 0 then 97 else 55

abbrev letter_digits : Buffer
letter_digits i = if i % 2 == 0 then 10 else 7

letters-AreDigits : AreDigits letters letter_digits
unfolding hex_nibble
letters-AreDigits i h = ground arith

token_from_hex_digits_example :
    token_from_hex letters 64 blank ≡ (paired letter_digits 0 blank, success)
token_from_hex_digits_example = token_from_hex_digits letters letter_digits blank letters-AreDigits
