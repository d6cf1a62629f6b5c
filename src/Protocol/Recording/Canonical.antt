-- ===== src/Protocol/Recording/Canonical.antt =====
-- What is accepted is canonical: commands recorded by messages of their own, and the check of a fill.
use bionic_vulkan_bridge.Prelude.{◌≡◌, refl, ok, arith}
use mathlib.Core.Path.{subst}
use bionic_vulkan_bridge.Wire.{Buffer, put_u32, put_i32, put_u64, get_u32, get_i32, get_u64}
use bionic_vulkan_bridge.Wire.RoundTrip.{IsBytes}
use bionic_vulkan_bridge.Wire.Canonical.{
  agree_none, put_u32_agree, put_u64_agree, put_i32_agree, zero_u32_agree, AgreeTo,
}
use bionic_vulkan_bridge.Protocol.{
  zeroed, command_buffer_fill_request_size, memory_verify_fill_request_size,
}
use bionic_vulkan_bridge.Protocol.Recording.{
  CommandBufferClearColorImageRequest, CommandBufferFillRequest, MemoryVerifyFillRequest,
  MemoryVerifyFillResponse, decode_command_buffer_clear_color_image_request,
  decode_command_buffer_fill_request, decode_memory_verify_fill_request,
  decode_memory_verify_fill_response, encode_command_buffer_clear_color_image_request,
  encode_command_buffer_fill_request, encode_memory_verify_fill_request,
  encode_memory_verify_fill_response, get_command_buffer_clear_color_image_request,
  get_command_buffer_fill_request, get_memory_verify_fill_request, get_memory_verify_fill_response,
  put_command_buffer_clear_color_image_request, put_command_buffer_fill_request,
  put_memory_verify_fill_request, put_memory_verify_fill_response,
}

command_buffer_fill_request_bytes :
    (input out : Buffer)
    → IsBytes input
    → get_u32 input 36 ≡ 0
    → AgreeTo 40 (put_command_buffer_fill_request out (get_command_buffer_fill_request input)) input
unfolding put_command_buffer_fill_request get_command_buffer_fill_request put_u32 put_u64
command_buffer_fill_request_bytes input out h z0 =
    let o0 = zeroed out command_buffer_fill_request_size in
    let o1 = put_u64 o0 0 (get_u64 input 0) in
    let a1 = put_u64_agree o0 input 0 h (agree_none o0 input) in
    let o2 = put_u64 o1 8 (get_u64 input 8) in
    let a2 = put_u64_agree o1 input 8 h a1 in
    let o3 = put_u64 o2 16 (get_u64 input 16) in
    let a3 = put_u64_agree o2 input 16 h a2 in
    let o4 = put_u64 o3 24 (get_u64 input 24) in
    let a4 = put_u64_agree o3 input 24 h a3 in
    let o5 = put_u32 o4 32 (get_u32 input 32) in
    let a5 = put_u32_agree o4 input 32 h a4 in
    let a6 = zero_u32_agree o5 input 36 h z0 (refl, refl, refl, refl) a5 in a6

command_buffer_fill_request_decoded :
    (input out : Buffer) (x : CommandBufferFillRequest)
    → decode_command_buffer_fill_request input ≡ ok x
    → (get_command_buffer_fill_request input ≡ x)
      × (encode_command_buffer_fill_request out x ≡ ok (put_command_buffer_fill_request out x))
      × (get_u32 input 36 ≡ 0)
unfolding encode_command_buffer_fill_request decode_command_buffer_fill_request
command_buffer_fill_request_decoded input out x e = ground (arith, e)

-- Where decode_command_buffer_fill_request accepts bytes, encode_command_buffer_fill_request
-- accepts the message and writes the same bytes.
pub encode_command_buffer_fill_request-decode_command_buffer_fill_request :
    (input out : Buffer) (x : CommandBufferFillRequest)
    → IsBytes input
    → decode_command_buffer_fill_request input ≡ ok x
    → (encode_command_buffer_fill_request out x ≡ ok (put_command_buffer_fill_request out x))
      × AgreeTo 40 (put_command_buffer_fill_request out x) input
encode_command_buffer_fill_request-decode_command_buffer_fill_request input out x h e =
    let (g, enc, z0) = command_buffer_fill_request_decoded input out x e in
    (
      enc,
      subst (λ y. AgreeTo 40 (put_command_buffer_fill_request out y) input) g
          (command_buffer_fill_request_bytes input out h z0),
    )

command_buffer_clear_color_image_request_bytes :
    (input out : Buffer)
    → IsBytes input
    → AgreeTo 16
        (put_command_buffer_clear_color_image_request out
          (get_command_buffer_clear_color_image_request input))
        input
unfolding put_command_buffer_clear_color_image_request get_command_buffer_clear_color_image_request
command_buffer_clear_color_image_request_bytes input out h =
    let o0 = out in
    let o1 = put_u64 o0 0 (get_u64 input 0) in
    let a1 = put_u64_agree o0 input 0 h (agree_none o0 input) in
    let o2 = put_u64 o1 8 (get_u64 input 8) in let a2 = put_u64_agree o1 input 8 h a1 in a2

command_buffer_clear_color_image_request_decoded :
    (input out : Buffer) (x : CommandBufferClearColorImageRequest)
    → decode_command_buffer_clear_color_image_request input ≡ ok x
    → (get_command_buffer_clear_color_image_request input ≡ x)
      × (encode_command_buffer_clear_color_image_request out x
          ≡ ok (put_command_buffer_clear_color_image_request out x))
unfolding encode_command_buffer_clear_color_image_request
    decode_command_buffer_clear_color_image_request
command_buffer_clear_color_image_request_decoded input out x e = ground (arith, e)

-- Where decode_command_buffer_clear_color_image_request accepts bytes,
-- encode_command_buffer_clear_color_image_request accepts the message and writes the same bytes.
pub encode_command_buffer_clear_color_image_request-decode_command_buffer_clear_color_image_request :
    (input out : Buffer) (x : CommandBufferClearColorImageRequest)
    → IsBytes input
    → decode_command_buffer_clear_color_image_request input ≡ ok x
    → (encode_command_buffer_clear_color_image_request out x
        ≡ ok (put_command_buffer_clear_color_image_request out x))
      × AgreeTo 16 (put_command_buffer_clear_color_image_request out x) input
encode_command_buffer_clear_color_image_request-decode_command_buffer_clear_color_image_request
      input out x h e =
    let (g, enc) = command_buffer_clear_color_image_request_decoded input out x e in
    (
      enc,
      subst (λ y. AgreeTo 16 (put_command_buffer_clear_color_image_request out y) input) g
          (command_buffer_clear_color_image_request_bytes input out h),
    )

memory_verify_fill_request_bytes :
    (input out : Buffer)
    → IsBytes input
    → get_u32 input 28 ≡ 0
    → AgreeTo 32 (put_memory_verify_fill_request out (get_memory_verify_fill_request input)) input
unfolding put_memory_verify_fill_request get_memory_verify_fill_request put_u32 put_u64
memory_verify_fill_request_bytes input out h z0 =
    let o0 = zeroed out memory_verify_fill_request_size in
    let o1 = put_u64 o0 0 (get_u64 input 0) in
    let a1 = put_u64_agree o0 input 0 h (agree_none o0 input) in
    let o2 = put_u64 o1 8 (get_u64 input 8) in
    let a2 = put_u64_agree o1 input 8 h a1 in
    let o3 = put_u64 o2 16 (get_u64 input 16) in
    let a3 = put_u64_agree o2 input 16 h a2 in
    let o4 = put_u32 o3 24 (get_u32 input 24) in
    let a4 = put_u32_agree o3 input 24 h a3 in
    let a5 = zero_u32_agree o4 input 28 h z0 (refl, refl, refl, refl) a4 in a5

memory_verify_fill_request_decoded :
    (input out : Buffer) (x : MemoryVerifyFillRequest)
    → decode_memory_verify_fill_request input ≡ ok x
    → (get_memory_verify_fill_request input ≡ x)
      × (encode_memory_verify_fill_request out x ≡ ok (put_memory_verify_fill_request out x))
      × (get_u32 input 28 ≡ 0)
unfolding encode_memory_verify_fill_request decode_memory_verify_fill_request
memory_verify_fill_request_decoded input out x e = ground (arith, e)

-- Where decode_memory_verify_fill_request accepts bytes, encode_memory_verify_fill_request accepts
-- the message and writes the same bytes.
pub encode_memory_verify_fill_request-decode_memory_verify_fill_request :
    (input out : Buffer) (x : MemoryVerifyFillRequest)
    → IsBytes input
    → decode_memory_verify_fill_request input ≡ ok x
    → (encode_memory_verify_fill_request out x ≡ ok (put_memory_verify_fill_request out x))
      × AgreeTo 32 (put_memory_verify_fill_request out x) input
encode_memory_verify_fill_request-decode_memory_verify_fill_request input out x h e =
    let (g, enc, z0) = memory_verify_fill_request_decoded input out x e in
    (
      enc,
      subst (λ y. AgreeTo 32 (put_memory_verify_fill_request out y) input) g
          (memory_verify_fill_request_bytes input out h z0),
    )

memory_verify_fill_response_bytes :
    (input out : Buffer)
    → IsBytes input
    → AgreeTo 8 (put_memory_verify_fill_response out (get_memory_verify_fill_response input)) input
unfolding put_memory_verify_fill_response get_memory_verify_fill_response
memory_verify_fill_response_bytes input out h =
    let o0 = out in
    let o1 = put_i32 o0 0 (get_i32 input 0) in
    let a1 = put_i32_agree o0 input 0 h (agree_none o0 input) in
    let o2 = put_u32 o1 4 (get_u32 input 4) in let a2 = put_u32_agree o1 input 4 h a1 in a2

memory_verify_fill_response_decoded :
    (input out : Buffer) (x : MemoryVerifyFillResponse)
    → decode_memory_verify_fill_response input ≡ ok x
    → (get_memory_verify_fill_response input ≡ x)
      × (encode_memory_verify_fill_response out x ≡ ok (put_memory_verify_fill_response out x))
unfolding encode_memory_verify_fill_response decode_memory_verify_fill_response
memory_verify_fill_response_decoded input out x e = ground (arith, e)

-- Where decode_memory_verify_fill_response accepts bytes, encode_memory_verify_fill_response
-- accepts the message and writes the same bytes.
pub encode_memory_verify_fill_response-decode_memory_verify_fill_response :
    (input out : Buffer) (x : MemoryVerifyFillResponse)
    → IsBytes input
    → decode_memory_verify_fill_response input ≡ ok x
    → (encode_memory_verify_fill_response out x ≡ ok (put_memory_verify_fill_response out x))
      × AgreeTo 8 (put_memory_verify_fill_response out x) input
encode_memory_verify_fill_response-decode_memory_verify_fill_response input out x h e =
    let (g, enc) = memory_verify_fill_response_decoded input out x e in
    (
      enc,
      subst (λ y. AgreeTo 8 (put_memory_verify_fill_response out y) input) g
          (memory_verify_fill_response_bytes input out h),
    )
