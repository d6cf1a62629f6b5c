-- ===== src/Lifecycle/Canonical.antt =====
-- What the decoders of src/lifecycle.c accept is what its encoders write.
use bionic_vulkan_bridge.Prelude.{ℕ, ◌+◌, ◌<◌, ◌≡◌, ok, arith}
use mathlib.Core.Path.{subst}
use bionic_vulkan_bridge.Wire.{Buffer, put_u16, put_u32, put_u64, get_u16, get_u32, get_u64}
use bionic_vulkan_bridge.Wire.RoundTrip.{IsBytes}
use bionic_vulkan_bridge.Wire.Canonical.{
  AgreeTo, agree_none, put_u16_agree, put_u32_agree, put_u64_agree, put_i32_agree, const_u32_agree,
  const_u16_agree,
}
use bionic_vulkan_bridge.Lifecycle.{
  LifecycleRecord, Ack, magic, version, copy, token_size, put_record, get_record, encode_record,
  decode_record, put_ack, get_ack, encode_ack, decode_ack,
}

copy_agree :
    (out b : Buffer) (i : ℕ)
    → (i < 32 → out i ≡ b i)
    → i < 64
    → copy out 32 (copy (λ _. 0) 0 (λ k. b (32 + k)) token_size) token_size i ≡ b i
copy_agree out b i a l = ground (arith, a, l)

record_bytes :
    (input out : Buffer)
    → IsBytes input
    → get_u32 input 0 ≡ magic
    → get_u16 input 4 ≡ version
    → AgreeTo 64 (put_record out (get_record input)) input
unfolding put_record get_record
record_bytes input out h m v i l =
    let o1 = put_u32 out 0 magic in
    let o2 = put_u16 o1 4 version in
    let o3 = put_u16 o2 6 (get_u16 input 6) in
    let o4 = put_u32 o3 8 (get_u32 input 8) in
    let o5 = put_u32 o4 12 (get_u32 input 12) in
    let o6 = put_u32 o5 16 (get_u32 input 16) in
    let o7 = put_u32 o6 20 (get_u32 input 20) in
    let o8 = put_u64 o7 24 (get_u64 input 24) in
    let a1 = const_u32_agree out input 0 magic h m (agree_none out input) in
    let a2 = const_u16_agree o1 input 4 version h v a1 in
    let a3 = put_u16_agree o2 input 6 h a2 in
    let a4 = put_u32_agree o3 input 8 h a3 in
    let a5 = put_u32_agree o4 input 12 h a4 in
    let a6 = put_u32_agree o5 input 16 h a5 in
    let a7 = put_u32_agree o6 input 20 h a6 in
    let a8 = put_u64_agree o7 input 24 h a7 in copy_agree o8 input i (a8 i) l

record_decoded :
    (input out : Buffer) (r : LifecycleRecord)
    → decode_record input ≡ ok r
    → (get_record input ≡ r)
      × (encode_record out r ≡ ok (put_record out r))
      × (get_u32 input 0 ≡ magic)
      × (get_u16 input 4 ≡ version)
unfolding encode_record decode_record
record_decoded input out r e = ground (arith, e)

-- Where decode_record accepts bytes, encode_record accepts the record and writes the same 64 bytes.
pub encode_record-decode_record :
    (input out : Buffer) (r : LifecycleRecord)
    → IsBytes input
    → decode_record input ≡ ok r
    → (encode_record out r ≡ ok (put_record out r)) × AgreeTo 64 (put_record out r) input
encode_record-decode_record input out r h e =
    let (g, enc, m, v) = record_decoded input out r e in
    (enc, subst (λ y. AgreeTo 64 (put_record out y) input) g (record_bytes input out h m v))

ack_bytes :
    (input out : Buffer)
    → IsBytes input
    → get_u32 input 0 ≡ magic
    → get_u16 input 4 ≡ version
    → get_u16 input 6 ≡ 0
    → AgreeTo 16 (put_ack out (get_ack input)) input
unfolding put_ack get_ack
ack_bytes input out h m v z =
    let o1 = put_u32 out 0 magic in
    let o2 = put_u16 o1 4 version in
    let o3 = put_u16 o2 6 0 in
    let o4 = put_u32 o3 8 (get_u32 input 8) in
    let a1 = const_u32_agree out input 0 magic h m (agree_none out input) in
    let a2 = const_u16_agree o1 input 4 version h v a1 in
    let a3 = const_u16_agree o2 input 6 0 h z a2 in
    let a4 = put_u32_agree o3 input 8 h a3 in put_i32_agree o4 input 12 h a4

ack_decoded :
    (input out : Buffer) (a : Ack)
    → decode_ack input ≡ ok a
    → (get_ack input ≡ a)
      × (encode_ack out a ≡ ok (put_ack out a))
      × (get_u32 input 0 ≡ magic)
      × (get_u16 input 4 ≡ version)
      × (get_u16 input 6 ≡ 0)
unfolding encode_ack decode_ack
ack_decoded input out a e = ground (arith, e)

-- Where decode_ack accepts bytes, encode_ack accepts the acknowledgement and writes the same 16 bytes.
pub encode_ack-decode_ack :
    (input out : Buffer) (a : Ack)
    → IsBytes input
    → decode_ack input ≡ ok a
    → (encode_ack out a ≡ ok (put_ack out a)) × AgreeTo 16 (put_ack out a) input
encode_ack-decode_ack input out a h e =
    let (g, enc, m, v, z) = ack_decoded input out a e in
    (enc, subst (λ y. AgreeTo 16 (put_ack out y) input) g (ack_bytes input out h m v z))
