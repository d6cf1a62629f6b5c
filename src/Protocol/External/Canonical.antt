-- ===== src/Protocol/External/Canonical.antt =====
-- What is accepted is canonical: external buffer and semaphore queries.
use bionic_vulkan_bridge.Prelude.{◌≡◌, refl, ok, arith}
use mathlib.Core.Path.{subst}
use bionic_vulkan_bridge.Wire.{Buffer, put_u32, put_u64, get_u32, get_u64}
use bionic_vulkan_bridge.Wire.RoundTrip.{IsBytes}
use bionic_vulkan_bridge.Wire.Canonical.{
  agree_none, put_u32_agree, put_u64_agree, zero_u32_agree, AgreeTo,
}
use bionic_vulkan_bridge.Protocol.{
  zeroed, external_buffer_query_size, external_semaphore_query_size,
}
use bionic_vulkan_bridge.Protocol.External.{
  ExternalBufferProperties, ExternalBufferQuery, ExternalSemaphoreProperties,
  ExternalSemaphoreQuery, decode_external_buffer_properties, decode_external_buffer_query,
  decode_external_semaphore_properties, decode_external_semaphore_query,
  encode_external_buffer_properties, encode_external_buffer_query,
  encode_external_semaphore_properties, encode_external_semaphore_query,
  get_external_buffer_properties, get_external_buffer_query, get_external_semaphore_properties,
  get_external_semaphore_query, put_external_buffer_properties, put_external_buffer_query,
  put_external_semaphore_properties, put_external_semaphore_query,
}

external_buffer_query_bytes :
    (input out : Buffer)
    → IsBytes input
    → get_u32 input 20 ≡ 0
    → AgreeTo 24 (put_external_buffer_query out (get_external_buffer_query input)) input
unfolding put_external_buffer_query get_external_buffer_query put_u32 put_u64
external_buffer_query_bytes input out h z0 =
    let o0 = zeroed out external_buffer_query_size in
    let o1 = put_u64 o0 0 (get_u64 input 0) in
    let a1 = put_u64_agree o0 input 0 h (agree_none o0 input) in
    let o2 = put_u32 o1 8 (get_u32 input 8) in
    let a2 = put_u32_agree o1 input 8 h a1 in
    let o3 = put_u32 o2 12 (get_u32 input 12) in
    let a3 = put_u32_agree o2 input 12 h a2 in
    let o4 = put_u32 o3 16 (get_u32 input 16) in
    let a4 = put_u32_agree o3 input 16 h a3 in
    let a5 = zero_u32_agree o4 input 20 h z0 (refl, refl, refl, refl) a4 in a5

external_buffer_query_decoded :
    (input out : Buffer) (x : ExternalBufferQuery)
    → decode_external_buffer_query input ≡ ok x
    → (get_external_buffer_query input ≡ x)
      × (encode_external_buffer_query out x ≡ ok (put_external_buffer_query out x))
      × (get_u32 input 20 ≡ 0)
unfolding encode_external_buffer_query decode_external_buffer_query
external_buffer_query_decoded input out x e = ground (arith, e)

-- Where decode_external_buffer_query accepts bytes, encode_external_buffer_query accepts the
-- message and writes the same bytes.
pub encode_external_buffer_query-decode_external_buffer_query :
    (input out : Buffer) (x : ExternalBufferQuery)
    → IsBytes input
    → decode_external_buffer_query input ≡ ok x
    → (encode_external_buffer_query out x ≡ ok (put_external_buffer_query out x))
      × AgreeTo 24 (put_external_buffer_query out x) input
encode_external_buffer_query-decode_external_buffer_query input out x h e =
    let (g, enc, z0) = external_buffer_query_decoded input out x e in
    (
      enc,
      subst (λ y. AgreeTo 24 (put_external_buffer_query out y) input) g
          (external_buffer_query_bytes input out h z0),
    )

external_buffer_properties_bytes :
    (input out : Buffer)
    → IsBytes input
    → AgreeTo 12 (put_external_buffer_properties out (get_external_buffer_properties input)) input
unfolding put_external_buffer_properties get_external_buffer_properties
external_buffer_properties_bytes input out h =
    let o0 = out in
    let o1 = put_u32 o0 0 (get_u32 input 0) in
    let a1 = put_u32_agree o0 input 0 h (agree_none o0 input) in
    let o2 = put_u32 o1 4 (get_u32 input 4) in
    let a2 = put_u32_agree o1 input 4 h a1 in
    let o3 = put_u32 o2 8 (get_u32 input 8) in let a3 = put_u32_agree o2 input 8 h a2 in a3

external_buffer_properties_decoded :
    (input out : Buffer) (x : ExternalBufferProperties)
    → decode_external_buffer_properties input ≡ ok x
    → (get_external_buffer_properties input ≡ x)
      × (encode_external_buffer_properties out x ≡ ok (put_external_buffer_properties out x))
unfolding encode_external_buffer_properties decode_external_buffer_properties
external_buffer_properties_decoded input out x e = ground (arith, e)

-- Where decode_external_buffer_properties accepts bytes, encode_external_buffer_properties accepts
-- the message and writes the same bytes.
pub encode_external_buffer_properties-decode_external_buffer_properties :
    (input out : Buffer) (x : ExternalBufferProperties)
    → IsBytes input
    → decode_external_buffer_properties input ≡ ok x
    → (encode_external_buffer_properties out x ≡ ok (put_external_buffer_properties out x))
      × AgreeTo 12 (put_external_buffer_properties out x) input
encode_external_buffer_properties-decode_external_buffer_properties input out x h e =
    let (g, enc) = external_buffer_properties_decoded input out x e in
    (
      enc,
      subst (λ y. AgreeTo 12 (put_external_buffer_properties out y) input) g
          (external_buffer_properties_bytes input out h),
    )

external_semaphore_query_bytes :
    (input out : Buffer)
    → IsBytes input
    → get_u32 input 12 ≡ 0
    → AgreeTo 16 (put_external_semaphore_query out (get_external_semaphore_query input)) input
unfolding put_external_semaphore_query get_external_semaphore_query put_u32 put_u64
external_semaphore_query_bytes input out h z0 =
    let o0 = zeroed out external_semaphore_query_size in
    let o1 = put_u64 o0 0 (get_u64 input 0) in
    let a1 = put_u64_agree o0 input 0 h (agree_none o0 input) in
    let o2 = put_u32 o1 8 (get_u32 input 8) in
    let a2 = put_u32_agree o1 input 8 h a1 in
    let a3 = zero_u32_agree o2 input 12 h z0 (refl, refl, refl, refl) a2 in a3

external_semaphore_query_decoded :
    (input out : Buffer) (x : ExternalSemaphoreQuery)
    → decode_external_semaphore_query input ≡ ok x
    → (get_external_semaphore_query input ≡ x)
      × (encode_external_semaphore_query out x ≡ ok (put_external_semaphore_query out x))
      × (get_u32 input 12 ≡ 0)
unfolding encode_external_semaphore_query decode_external_semaphore_query
external_semaphore_query_decoded input out x e = ground (arith, e)

-- Where decode_external_semaphore_query accepts bytes, encode_external_semaphore_query accepts the
-- message and writes the same bytes.
pub encode_external_semaphore_query-decode_external_semaphore_query :
    (input out : Buffer) (x : ExternalSemaphoreQuery)
    → IsBytes input
    → decode_external_semaphore_query input ≡ ok x
    → (encode_external_semaphore_query out x ≡ ok (put_external_semaphore_query out x))
      × AgreeTo 16 (put_external_semaphore_query out x) input
encode_external_semaphore_query-decode_external_semaphore_query input out x h e =
    let (g, enc, z0) = external_semaphore_query_decoded input out x e in
    (
      enc,
      subst (λ y. AgreeTo 16 (put_external_semaphore_query out y) input) g
          (external_semaphore_query_bytes input out h z0),
    )

external_semaphore_properties_bytes :
    (input out : Buffer)
    → IsBytes input
    → AgreeTo 12
        (put_external_semaphore_properties out (get_external_semaphore_properties input))
        input
unfolding put_external_semaphore_properties get_external_semaphore_properties
external_semaphore_properties_bytes input out h =
    let o0 = out in
    let o1 = put_u32 o0 0 (get_u32 input 0) in
    let a1 = put_u32_agree o0 input 0 h (agree_none o0 input) in
    let o2 = put_u32 o1 4 (get_u32 input 4) in
    let a2 = put_u32_agree o1 input 4 h a1 in
    let o3 = put_u32 o2 8 (get_u32 input 8) in let a3 = put_u32_agree o2 input 8 h a2 in a3

external_semaphore_properties_decoded :
    (input out : Buffer) (x : ExternalSemaphoreProperties)
    → decode_external_semaphore_properties input ≡ ok x
    → (get_external_semaphore_properties input ≡ x)
      × (encode_external_semaphore_properties out x ≡ ok (put_external_semaphore_properties out x))
unfolding encode_external_semaphore_properties decode_external_semaphore_properties
external_semaphore_properties_decoded input out x e = ground (arith, e)

-- Where decode_external_semaphore_properties accepts bytes, encode_external_semaphore_properties
-- accepts the message and writes the same bytes.
pub encode_external_semaphore_properties-decode_external_semaphore_properties :
    (input out : Buffer) (x : ExternalSemaphoreProperties)
    → IsBytes input
    → decode_external_semaphore_properties input ≡ ok x
    → (encode_external_semaphore_properties out x ≡ ok (put_external_semaphore_properties out x))
      × AgreeTo 12 (put_external_semaphore_properties out x) input
encode_external_semaphore_properties-decode_external_semaphore_properties input out x h e =
    let (g, enc) = external_semaphore_properties_decoded input out x e in
    (
      enc,
      subst (λ y. AgreeTo 12 (put_external_semaphore_properties out y) input) g
          (external_semaphore_properties_bytes input out h),
    )
