-- ===== src/Protocol/CommandPool/Canonical.antt =====
-- What is accepted is canonical: command pool messages.
use bionic_vulkan_bridge.Prelude.{ℕ, ◌≡◌, refl, ok, arith}
use mathlib.Core.Path.{subst}
use bionic_vulkan_bridge.Wire.{Buffer, put_u32, put_i32, put_u64, get_u32, get_i32, get_u64}
use bionic_vulkan_bridge.Wire.RoundTrip.{IsBytes}
use bionic_vulkan_bridge.Wire.Canonical.{
  agree_none, put_u32_agree, put_u64_agree, put_i32_agree, zero_u32_agree, AgreeTo,
}
use bionic_vulkan_bridge.Protocol.{
  zeroed, command_pool_create_response_size, command_pool_reset_request_size,
}
use bionic_vulkan_bridge.Protocol.CommandPool.{
  CommandPoolCreateRequest, CommandPoolCreateResponse, CommandPoolResetRequest,
  decode_command_pool_create_request, decode_command_pool_create_response, decode_command_pool_id,
  decode_command_pool_reset_request, encode_command_pool_create_request,
  encode_command_pool_create_response, encode_command_pool_id, encode_command_pool_reset_request,
  get_command_pool_create_request, get_command_pool_create_response, get_command_pool_id,
  get_command_pool_reset_request, put_command_pool_create_request, put_command_pool_create_response,
  put_command_pool_id, put_command_pool_reset_request,
}

command_pool_create_request_bytes :
    (input out : Buffer)
    → IsBytes input
    → AgreeTo 16 (put_command_pool_create_request out (get_command_pool_create_request input)) input
unfolding put_command_pool_create_request get_command_pool_create_request
command_pool_create_request_bytes input out h =
    let o0 = out in
    let o1 = put_u64 o0 0 (get_u64 input 0) in
    let a1 = put_u64_agree o0 input 0 h (agree_none o0 input) in
    let o2 = put_u32 o1 8 (get_u32 input 8) in
    let a2 = put_u32_agree o1 input 8 h a1 in
    let o3 = put_u32 o2 12 (get_u32 input 12) in let a3 = put_u32_agree o2 input 12 h a2 in a3

command_pool_create_request_decoded :
    (input out : Buffer) (x : CommandPoolCreateRequest)
    → decode_command_pool_create_request input ≡ ok x
    → (get_command_pool_create_request input ≡ x)
      × (encode_command_pool_create_request out x ≡ ok (put_command_pool_create_request out x))
unfolding encode_command_pool_create_request decode_command_pool_create_request
command_pool_create_request_decoded input out x e = ground (arith, e)

-- Where decode_command_pool_create_request accepts bytes, encode_command_pool_create_request
-- accepts the message and writes the same bytes.
pub encode_command_pool_create_request-decode_command_pool_create_request :
    (input out : Buffer) (x : CommandPoolCreateRequest)
    → IsBytes input
    → decode_command_pool_create_request input ≡ ok x
    → (encode_command_pool_create_request out x ≡ ok (put_command_pool_create_request out x))
      × AgreeTo 16 (put_command_pool_create_request out x) input
encode_command_pool_create_request-decode_command_pool_create_request input out x h e =
    let (g, enc) = command_pool_create_request_decoded input out x e in
    (
      enc,
      subst (λ y. AgreeTo 16 (put_command_pool_create_request out y) input) g
          (command_pool_create_request_bytes input out h),
    )

command_pool_create_response_bytes :
    (input out : Buffer)
    → IsBytes input
    → get_u32 input 4 ≡ 0
    → AgreeTo 16
        (put_command_pool_create_response out (get_command_pool_create_response input))
        input
unfolding put_command_pool_create_response get_command_pool_create_response put_i32 put_u32 put_u64
command_pool_create_response_bytes input out h z0 =
    let o0 = zeroed out command_pool_create_response_size in
    let o1 = put_i32 o0 0 (get_i32 input 0) in
    let a1 = put_i32_agree o0 input 0 h (agree_none o0 input) in
    let a2 = zero_u32_agree o1 input 4 h z0 (refl, refl, refl, refl) a1 in
    let o3 = put_u64 o1 8 (get_u64 input 8) in let a3 = put_u64_agree o1 input 8 h a2 in a3

command_pool_create_response_decoded :
    (input out : Buffer) (x : CommandPoolCreateResponse)
    → decode_command_pool_create_response input ≡ ok x
    → (get_command_pool_create_response input ≡ x)
      × (encode_command_pool_create_response out x ≡ ok (put_command_pool_create_response out x))
      × (get_u32 input 4 ≡ 0)
unfolding encode_command_pool_create_response decode_command_pool_create_response
command_pool_create_response_decoded input out x e = ground (arith, e)

-- Where decode_command_pool_create_response accepts bytes, encode_command_pool_create_response
-- accepts the message and writes the same bytes.
pub encode_command_pool_create_response-decode_command_pool_create_response :
    (input out : Buffer) (x : CommandPoolCreateResponse)
    → IsBytes input
    → decode_command_pool_create_response input ≡ ok x
    → (encode_command_pool_create_response out x ≡ ok (put_command_pool_create_response out x))
      × AgreeTo 16 (put_command_pool_create_response out x) input
encode_command_pool_create_response-decode_command_pool_create_response input out x h e =
    let (g, enc, z0) = command_pool_create_response_decoded input out x e in
    (
      enc,
      subst (λ y. AgreeTo 16 (put_command_pool_create_response out y) input) g
          (command_pool_create_response_bytes input out h z0),
    )

command_pool_id_bytes :
    (input out : Buffer)
    → IsBytes input
    → AgreeTo 8 (put_command_pool_id out (get_command_pool_id input)) input
unfolding put_command_pool_id get_command_pool_id
command_pool_id_bytes input out h =
    let o0 = out in
    let o1 = put_u64 o0 0 (get_u64 input 0) in
    let a1 = put_u64_agree o0 input 0 h (agree_none o0 input) in a1

command_pool_id_decoded :
    (input out : Buffer) (x : ℕ)
    → decode_command_pool_id input ≡ ok x
    → (get_command_pool_id input ≡ x)
      × (encode_command_pool_id out x ≡ ok (put_command_pool_id out x))
unfolding encode_command_pool_id decode_command_pool_id
command_pool_id_decoded input out x e = ground (arith, e)

-- Where decode_command_pool_id accepts bytes, encode_command_pool_id accepts the message and
-- writes the same bytes.
pub encode_command_pool_id-decode_command_pool_id :
    (input out : Buffer) (x : ℕ)
    → IsBytes input
    → decode_command_pool_id input ≡ ok x
    → (encode_command_pool_id out x ≡ ok (put_command_pool_id out x))
      × AgreeTo 8 (put_command_pool_id out x) input
encode_command_pool_id-decode_command_pool_id input out x h e =
    let (g, enc) = command_pool_id_decoded input out x e in
    (
      enc,
      subst (λ y. AgreeTo 8 (put_command_pool_id out y) input) g
          (command_pool_id_bytes input out h),
    )

command_pool_reset_request_bytes :
    (input out : Buffer)
    → IsBytes input
    → get_u32 input 12 ≡ 0
    → AgreeTo 16 (put_command_pool_reset_request out (get_command_pool_reset_request input)) input
unfolding put_command_pool_reset_request get_command_pool_reset_request put_u32 put_u64
command_pool_reset_request_bytes input out h z0 =
    let o0 = zeroed out command_pool_reset_request_size in
    let o1 = put_u64 o0 0 (get_u64 input 0) in
    let a1 = put_u64_agree o0 input 0 h (agree_none o0 input) in
    let o2 = put_u32 o1 8 (get_u32 input 8) in
    let a2 = put_u32_agree o1 input 8 h a1 in
    let a3 = zero_u32_agree o2 input 12 h z0 (refl, refl, refl, refl) a2 in a3

command_pool_reset_request_decoded :
    (input out : Buffer) (x : CommandPoolResetRequest)
    → decode_command_pool_reset_request input ≡ ok x
    → (get_command_pool_reset_request input ≡ x)
      × (encode_command_pool_reset_request out x ≡ ok (put_command_pool_reset_request out x))
      × (get_u32 input 12 ≡ 0)
unfolding encode_command_pool_reset_request decode_command_pool_reset_request
command_pool_reset_request_decoded input out x e = ground (arith, e)

-- Where decode_command_pool_reset_request accepts bytes, encode_command_pool_reset_request accepts
-- the message and writes the same bytes.
pub encode_command_pool_reset_request-decode_command_pool_reset_request :
    (input out : Buffer) (x : CommandPoolResetRequest)
    → IsBytes input
    → decode_command_pool_reset_request input ≡ ok x
    → (encode_command_pool_reset_request out x ≡ ok (put_command_pool_reset_request out x))
      × AgreeTo 16 (put_command_pool_reset_request out x) input
encode_command_pool_reset_request-decode_command_pool_reset_request input out x h e =
    let (g, enc, z0) = command_pool_reset_request_decoded input out x e in
    (
      enc,
      subst (λ y. AgreeTo 16 (put_command_pool_reset_request out y) input) g
          (command_pool_reset_request_bytes input out h z0),
    )
