-- ===== src/Protocol/Formats/Canonical.antt =====
-- What is accepted is canonical: format queries and their answers.
use bionic_vulkan_bridge.Prelude.{◌≡◌, refl, ok, arith}
use mathlib.Core.Path.{subst}
use bionic_vulkan_bridge.Wire.{Buffer, put_u32, put_i32, put_u64, get_u32, get_i32, get_u64}
use bionic_vulkan_bridge.Wire.RoundTrip.{IsBytes}
use bionic_vulkan_bridge.Wire.Canonical.{
  agree_none, put_u32_agree, put_u64_agree, put_i32_agree, zero_u32_agree, AgreeTo,
}
use bionic_vulkan_bridge.Protocol.{
  zeroed, format_query_size, image_format_query_size, image_format_properties_size,
}
use bionic_vulkan_bridge.Protocol.Formats.{
  FormatProperties, FormatProperties3, FormatQuery, ImageFormatProperties, ImageFormatQuery,
  decode_format_properties, decode_format_properties_3, decode_format_query,
  decode_image_format_properties, decode_image_format_query, encode_format_properties,
  encode_format_properties_3, encode_format_query, encode_image_format_properties,
  encode_image_format_query, get_format_properties, get_format_properties_3, get_format_query,
  get_image_format_properties, get_image_format_query, put_format_properties,
  put_format_properties_3, put_format_query, put_image_format_properties, put_image_format_query,
}

format_query_bytes :
    (input out : Buffer)
    → IsBytes input
    → get_u32 input 12 ≡ 0
    → AgreeTo 16 (put_format_query out (get_format_query input)) input
unfolding put_format_query get_format_query put_u32 put_u64
format_query_bytes input out h z0 =
    let o0 = zeroed out format_query_size in
    let o1 = put_u64 o0 0 (get_u64 input 0) in
    let a1 = put_u64_agree o0 input 0 h (agree_none o0 input) in
    let o2 = put_u32 o1 8 (get_u32 input 8) in
    let a2 = put_u32_agree o1 input 8 h a1 in
    let a3 = zero_u32_agree o2 input 12 h z0 (refl, refl, refl, refl) a2 in a3

format_query_decoded :
    (input out : Buffer) (x : FormatQuery)
    → decode_format_query input ≡ ok x
    → (get_format_query input ≡ x)
      × (encode_format_query out x ≡ ok (put_format_query out x))
      × (get_u32 input 12 ≡ 0)
unfolding encode_format_query decode_format_query
format_query_decoded input out x e = ground (arith, e)

-- Where decode_format_query accepts bytes, encode_format_query accepts the message and writes the
-- same bytes.
pub encode_format_query-decode_format_query :
    (input out : Buffer) (x : FormatQuery)
    → IsBytes input
    → decode_format_query input ≡ ok x
    → (encode_format_query out x ≡ ok (put_format_query out x))
      × AgreeTo 16 (put_format_query out x) input
encode_format_query-decode_format_query input out x h e =
    let (g, enc, z0) = format_query_decoded input out x e in
    (
      enc,
      subst (λ y. AgreeTo 16 (put_format_query out y) input) g (format_query_bytes input out h z0),
    )

format_properties_bytes :
    (input out : Buffer)
    → IsBytes input
    → AgreeTo 12 (put_format_properties out (get_format_properties input)) input
unfolding put_format_properties get_format_properties
format_properties_bytes input out h =
    let o0 = out in
    let o1 = put_u32 o0 0 (get_u32 input 0) in
    let a1 = put_u32_agree o0 input 0 h (agree_none o0 input) in
    let o2 = put_u32 o1 4 (get_u32 input 4) in
    let a2 = put_u32_agree o1 input 4 h a1 in
    let o3 = put_u32 o2 8 (get_u32 input 8) in let a3 = put_u32_agree o2 input 8 h a2 in a3

format_properties_decoded :
    (input out : Buffer) (x : FormatProperties)
    → decode_format_properties input ≡ ok x
    → (get_format_properties input ≡ x)
      × (encode_format_properties out x ≡ ok (put_format_properties out x))
unfolding encode_format_properties decode_format_properties
format_properties_decoded input out x e = ground (arith, e)

-- Where decode_format_properties accepts bytes, encode_format_properties accepts the message and
-- writes the same bytes.
pub encode_format_properties-decode_format_properties :
    (input out : Buffer) (x : FormatProperties)
    → IsBytes input
    → decode_format_properties input ≡ ok x
    → (encode_format_properties out x ≡ ok (put_format_properties out x))
      × AgreeTo 12 (put_format_properties out x) input
encode_format_properties-decode_format_properties input out x h e =
    let (g, enc) = format_properties_decoded input out x e in
    (
      enc,
      subst (λ y. AgreeTo 12 (put_format_properties out y) input) g
          (format_properties_bytes input out h),
    )

format_properties_3_bytes :
    (input out : Buffer)
    → IsBytes input
    → AgreeTo 24 (put_format_properties_3 out (get_format_properties_3 input)) input
unfolding put_format_properties_3 get_format_properties_3
format_properties_3_bytes input out h =
    let o0 = out in
    let o1 = put_u64 o0 0 (get_u64 input 0) in
    let a1 = put_u64_agree o0 input 0 h (agree_none o0 input) in
    let o2 = put_u64 o1 8 (get_u64 input 8) in
    let a2 = put_u64_agree o1 input 8 h a1 in
    let o3 = put_u64 o2 16 (get_u64 input 16) in let a3 = put_u64_agree o2 input 16 h a2 in a3

format_properties_3_decoded :
    (input out : Buffer) (x : FormatProperties3)
    → decode_format_properties_3 input ≡ ok x
    → (get_format_properties_3 input ≡ x)
      × (encode_format_properties_3 out x ≡ ok (put_format_properties_3 out x))
unfolding encode_format_properties_3 decode_format_properties_3
format_properties_3_decoded input out x e = ground (arith, e)

-- Where decode_format_properties_3 accepts bytes, encode_format_properties_3 accepts the message
-- and writes the same bytes.
pub encode_format_properties_3-decode_format_properties_3 :
    (input out : Buffer) (x : FormatProperties3)
    → IsBytes input
    → decode_format_properties_3 input ≡ ok x
    → (encode_format_properties_3 out x ≡ ok (put_format_properties_3 out x))
      × AgreeTo 24 (put_format_properties_3 out x) input
encode_format_properties_3-decode_format_properties_3 input out x h e =
    let (g, enc) = format_properties_3_decoded input out x e in
    (
      enc,
      subst (λ y. AgreeTo 24 (put_format_properties_3 out y) input) g
          (format_properties_3_bytes input out h),
    )

image_format_query_bytes :
    (input out : Buffer)
    → IsBytes input
    → get_u32 input 28 ≡ 0
    → AgreeTo 32 (put_image_format_query out (get_image_format_query input)) input
unfolding put_image_format_query get_image_format_query put_u32 put_u64
image_format_query_bytes input out h z0 =
    let o0 = zeroed out image_format_query_size in
    let o1 = put_u64 o0 0 (get_u64 input 0) in
    let a1 = put_u64_agree o0 input 0 h (agree_none o0 input) in
    let o2 = put_u32 o1 8 (get_u32 input 8) in
    let a2 = put_u32_agree o1 input 8 h a1 in
    let o3 = put_u32 o2 12 (get_u32 input 12) in
    let a3 = put_u32_agree o2 input 12 h a2 in
    let o4 = put_u32 o3 16 (get_u32 input 16) in
    let a4 = put_u32_agree o3 input 16 h a3 in
    let o5 = put_u32 o4 20 (get_u32 input 20) in
    let a5 = put_u32_agree o4 input 20 h a4 in
    let o6 = put_u32 o5 24 (get_u32 input 24) in
    let a6 = put_u32_agree o5 input 24 h a5 in
    let a7 = zero_u32_agree o6 input 28 h z0 (refl, refl, refl, refl) a6 in a7

image_format_query_decoded :
    (input out : Buffer) (x : ImageFormatQuery)
    → decode_image_format_query input ≡ ok x
    → (get_image_format_query input ≡ x)
      × (encode_image_format_query out x ≡ ok (put_image_format_query out x))
      × (get_u32 input 28 ≡ 0)
unfolding encode_image_format_query decode_image_format_query
image_format_query_decoded input out x e = ground (arith, e)

-- Where decode_image_format_query accepts bytes, encode_image_format_query accepts the message and
-- writes the same bytes.
pub encode_image_format_query-decode_image_format_query :
    (input out : Buffer) (x : ImageFormatQuery)
    → IsBytes input
    → decode_image_format_query input ≡ ok x
    → (encode_image_format_query out x ≡ ok (put_image_format_query out x))
      × AgreeTo 32 (put_image_format_query out x) input
encode_image_format_query-decode_image_format_query input out x h e =
    let (g, enc, z0) = image_format_query_decoded input out x e in
    (
      enc,
      subst (λ y. AgreeTo 32 (put_image_format_query out y) input) g
          (image_format_query_bytes input out h z0),
    )

image_format_properties_bytes :
    (input out : Buffer)
    → IsBytes input
    → get_u32 input 4 ≡ 0
    → AgreeTo 40 (put_image_format_properties out (get_image_format_properties input)) input
unfolding put_image_format_properties get_image_format_properties put_i32 put_u32 put_u64
image_format_properties_bytes input out h z0 =
    let o0 = zeroed out image_format_properties_size in
    let o1 = put_i32 o0 0 (get_i32 input 0) in
    let a1 = put_i32_agree o0 input 0 h (agree_none o0 input) in
    let a2 = zero_u32_agree o1 input 4 h z0 (refl, refl, refl, refl) a1 in
    let o3 = put_u32 o1 8 (get_u32 input 8) in
    let a3 = put_u32_agree o1 input 8 h a2 in
    let o4 = put_u32 o3 12 (get_u32 input 12) in
    let a4 = put_u32_agree o3 input 12 h a3 in
    let o5 = put_u32 o4 16 (get_u32 input 16) in
    let a5 = put_u32_agree o4 input 16 h a4 in
    let o6 = put_u32 o5 20 (get_u32 input 20) in
    let a6 = put_u32_agree o5 input 20 h a5 in
    let o7 = put_u32 o6 24 (get_u32 input 24) in
    let a7 = put_u32_agree o6 input 24 h a6 in
    let o8 = put_u32 o7 28 (get_u32 input 28) in
    let a8 = put_u32_agree o7 input 28 h a7 in
    let o9 = put_u64 o8 32 (get_u64 input 32) in let a9 = put_u64_agree o8 input 32 h a8 in a9

image_format_properties_decoded :
    (input out : Buffer) (x : ImageFormatProperties)
    → decode_image_format_properties input ≡ ok x
    → (get_image_format_properties input ≡ x)
      × (encode_image_format_properties out x ≡ ok (put_image_format_properties out x))
      × (get_u32 input 4 ≡ 0)
unfolding encode_image_format_properties decode_image_format_properties
image_format_properties_decoded input out x e = ground (arith, e)

-- Where decode_image_format_properties accepts bytes, encode_image_format_properties accepts the
-- message and writes the same bytes.
pub encode_image_format_properties-decode_image_format_properties :
    (input out : Buffer) (x : ImageFormatProperties)
    → IsBytes input
    → decode_image_format_properties input ≡ ok x
    → (encode_image_format_properties out x ≡ ok (put_image_format_properties out x))
      × AgreeTo 40 (put_image_format_properties out x) input
encode_image_format_properties-decode_image_format_properties input out x h e =
    let (g, enc, z0) = image_format_properties_decoded input out x e in
    (
      enc,
      subst (λ y. AgreeTo 40 (put_image_format_properties out y) input) g
          (image_format_properties_bytes input out h z0),
    )
