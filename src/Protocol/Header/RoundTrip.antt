-- ===== src/Protocol/Header/RoundTrip.antt =====
-- The codec of the message header inverts itself, and what it accepts is canonical.
use bionic_vulkan_bridge.Prelude.{◌^◌, ◌<◌, ◌≡◌, ok, arith, refl}
use mathlib.Core.Path.{subst}
use bionic_vulkan_bridge.Wire.{Buffer, put_u16, put_u32, put_i32, get_u16, get_u32, get_i32}
use bionic_vulkan_bridge.Wire.RoundTrip.{
  IsBytes, IsI32, joined_u16_lem, joined_u32_lem, joined_i32_lem,
}
use bionic_vulkan_bridge.Wire.Canonical.{
  AgreeTo, agree_none, put_u16_agree, put_u32_agree, put_i32_agree, const_u32_agree,
  const_u16_agree,
}
use bionic_vulkan_bridge.Protocol.Header.{
  ProtocolHeader, magic, put_header, get_header, encode_header, decode_header,
}

abbrev pub IsProtocolHeader : ProtocolHeader → Type 0
IsProtocolHeader x =
    (x.version_number < 2 ^ 16)
    × (x.kind < 2 ^ 16)
    × (x.opcode < 2 ^ 16)
    × (x.request_id < 2 ^ 32)
    × (x.payload_length < 2 ^ 32)
    × IsI32 x.status

get_header-put_header :
    (out : Buffer) (x : ProtocolHeader) → IsProtocolHeader x → get_header (put_header out x) ≡ x
unfolding get_header put_header get_u16 get_u32 get_i32 put_u16 put_u32 put_i32
get_header-put_header out x h = ground (
  arith,
  h,
  joined_u16_lem x.version_number,
  joined_u16_lem x.kind,
  joined_u16_lem x.opcode,
  joined_u32_lem x.request_id,
  joined_u32_lem x.payload_length,
  joined_i32_lem x.status,
)

header_prefix :
    (out : Buffer) (x : ProtocolHeader)
    → (get_u32 (put_header out x) 0 ≡ magic) × (get_u16 (put_header out x) 10 ≡ 0)
unfolding put_header get_u16 get_u32 put_u16 put_u32 put_i32
header_prefix out x = (refl, refl)

-- What encode_header writes for a header whose fields fit their types, decode_header reads back.
pub decode_header-encode_header :
    (out b : Buffer) (x : ProtocolHeader)
    → IsProtocolHeader x
    → encode_header out x ≡ ok b
    → decode_header b ≡ ok x
unfolding encode_header decode_header
decode_header-encode_header out b x h e =
    ground (arith, e, get_header-put_header out x h, header_prefix out x)

header_bytes :
    (input out : Buffer)
    → IsBytes input
    → get_u32 input 0 ≡ magic
    → get_u16 input 10 ≡ 0
    → AgreeTo 24 (put_header out (get_header input)) input
unfolding put_header get_header
header_bytes input out h m z =
    let o1 = put_u32 out 0 magic in
    let o2 = put_u16 o1 4 (get_u16 input 4) in
    let o3 = put_u16 o2 6 (get_u16 input 6) in
    let o4 = put_u16 o3 8 (get_u16 input 8) in
    let o5 = put_u16 o4 10 0 in
    let o6 = put_u32 o5 12 (get_u32 input 12) in
    let o7 = put_u32 o6 16 (get_u32 input 16) in
    let a1 = const_u32_agree out input 0 magic h m (agree_none out input) in
    let a2 = put_u16_agree o1 input 4 h a1 in
    let a3 = put_u16_agree o2 input 6 h a2 in
    let a4 = put_u16_agree o3 input 8 h a3 in
    let a5 = const_u16_agree o4 input 10 0 h z a4 in
    let a6 = put_u32_agree o5 input 12 h a5 in
    let a7 = put_u32_agree o6 input 16 h a6 in put_i32_agree o7 input 20 h a7

header_decoded :
    (input out : Buffer) (x : ProtocolHeader)
    → decode_header input ≡ ok x
    → (get_header input ≡ x)
      × (encode_header out x ≡ ok (put_header out x))
      × (get_u32 input 0 ≡ magic)
      × (get_u16 input 10 ≡ 0)
unfolding encode_header decode_header
header_decoded input out x e = ground (arith, e)

-- Where decode_header accepts bytes, encode_header accepts the header and writes the same 24 bytes.
pub encode_header-decode_header :
    (input out : Buffer) (x : ProtocolHeader)
    → IsBytes input
    → decode_header input ≡ ok x
    → (encode_header out x ≡ ok (put_header out x)) × AgreeTo 24 (put_header out x) input
encode_header-decode_header input out x h e =
    let (g, enc, m, z) = header_decoded input out x e in
    (enc, subst (λ y. AgreeTo 24 (put_header out y) input) g (header_bytes input out h m z))
