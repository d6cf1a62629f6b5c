-- ===== src/Protocol/BufferObject/RoundTrip.antt =====
-- What is encoded is read back: buffer messages.
use bionic_vulkan_bridge.Prelude.{ℕ, ◌^◌, ◌<◌, ◌≡◌, refl, ok, arith}
use bionic_vulkan_bridge.Wire.{Buffer, put_u32, put_i32, put_u64, get_u32, get_i32, get_u64}
use bionic_vulkan_bridge.Wire.RoundTrip.{IsI32, joined_u32_lem, joined_u64_lem, joined_i32_lem}
use bionic_vulkan_bridge.Protocol.BufferObject.{
  BufferBindRequest, BufferCreateRequest, BufferRequirements, BufferRequirements2Request,
  ObjectCreateResponse, decode_buffer_bind_request, decode_buffer_create_request,
  decode_buffer_requirements, decode_buffer_requirements_2_request, decode_object_create_response,
  encode_buffer_bind_request, encode_buffer_create_request, encode_buffer_requirements,
  encode_buffer_requirements_2_request, encode_object_create_response, get_buffer_bind_request,
  get_buffer_create_request, get_buffer_requirements, get_buffer_requirements_2_request,
  get_object_create_response, put_buffer_bind_request, put_buffer_create_request,
  put_buffer_requirements, put_buffer_requirements_2_request, put_object_create_response,
}

abbrev pub IsBufferCreateRequest : BufferCreateRequest → Type 0
IsBufferCreateRequest x =
    (x.device_id < 2 ^ 64) × (x.size < 2 ^ 64) × (x.usage < 2 ^ 32) × (x.flags < 2 ^ 32)

get_buffer_create_request-put_buffer_create_request :
    (out : Buffer) (x : BufferCreateRequest)
    → IsBufferCreateRequest x
    → get_buffer_create_request (put_buffer_create_request out x) ≡ x
unfolding get_buffer_create_request put_buffer_create_request get_u32 get_u64 put_u32 put_u64
get_buffer_create_request-put_buffer_create_request out x h = ground (
  arith,
  h,
  joined_u64_lem x.device_id,
  joined_u64_lem x.size,
  joined_u32_lem x.usage,
  joined_u32_lem x.flags,
)

-- What encode_buffer_create_request writes for a message whose fields fit their types,
-- decode_buffer_create_request reads back.
pub decode_buffer_create_request-encode_buffer_create_request :
    (out b : Buffer) (x : BufferCreateRequest)
    → IsBufferCreateRequest x
    → encode_buffer_create_request out x ≡ ok b
    → decode_buffer_create_request b ≡ ok x
unfolding encode_buffer_create_request decode_buffer_create_request
decode_buffer_create_request-encode_buffer_create_request out b x h e =
    ground (arith, e, get_buffer_create_request-put_buffer_create_request out x h)

abbrev pub IsObjectCreateResponse : ObjectCreateResponse → Type 0
IsObjectCreateResponse x = (IsI32 x.vulkan_result) × (x.object_id < 2 ^ 64)

get_object_create_response-put_object_create_response :
    (out : Buffer) (x : ObjectCreateResponse)
    → IsObjectCreateResponse x
    → get_object_create_response (put_object_create_response out x) ≡ x
unfolding get_object_create_response put_object_create_response get_i32 get_u32 get_u64 put_i32
    put_u32 put_u64
get_object_create_response-put_object_create_response out x h =
    ground (arith, h, joined_i32_lem x.vulkan_result, joined_u64_lem x.object_id)

object_create_response_padding :
    (out : Buffer) (x : ObjectCreateResponse) → get_u32 (put_object_create_response out x) 4 ≡ 0
unfolding put_object_create_response get_i32 get_u32 get_u64 put_i32 put_u32 put_u64
object_create_response_padding out x = refl

-- What encode_object_create_response writes for a message whose fields fit their types,
-- decode_object_create_response reads back.
pub decode_object_create_response-encode_object_create_response :
    (out b : Buffer) (x : ObjectCreateResponse) (expected_type : ℕ)
    → IsObjectCreateResponse x
    → encode_object_create_response out x expected_type ≡ ok b
    → decode_object_create_response b expected_type ≡ ok x
unfolding encode_object_create_response decode_object_create_response
decode_object_create_response-encode_object_create_response out b x expected_type h e = ground (
  arith,
  e,
  get_object_create_response-put_object_create_response out x h,
  object_create_response_padding out x,
)

abbrev pub IsBufferRequirements : BufferRequirements → Type 0
IsBufferRequirements x = (x.size < 2 ^ 64) × (x.alignment < 2 ^ 64) × (x.memory_type_bits < 2 ^ 32)

get_buffer_requirements-put_buffer_requirements :
    (out : Buffer) (x : BufferRequirements)
    → IsBufferRequirements x
    → get_buffer_requirements (put_buffer_requirements out x) ≡ x
unfolding get_buffer_requirements put_buffer_requirements get_u32 get_u64 put_u32 put_u64
get_buffer_requirements-put_buffer_requirements out x h =
    ground (
      arith,
      h,
      joined_u64_lem x.size,
      joined_u64_lem x.alignment,
      joined_u32_lem x.memory_type_bits,
    )

buffer_requirements_padding :
    (out : Buffer) (x : BufferRequirements) → get_u32 (put_buffer_requirements out x) 20 ≡ 0
unfolding put_buffer_requirements get_u32 get_u64 put_u32 put_u64
buffer_requirements_padding out x = refl

-- What encode_buffer_requirements writes for a message whose fields fit their types,
-- decode_buffer_requirements reads back.
pub decode_buffer_requirements-encode_buffer_requirements :
    (out b : Buffer) (x : BufferRequirements)
    → IsBufferRequirements x
    → encode_buffer_requirements out x ≡ ok b
    → decode_buffer_requirements b ≡ ok x
unfolding encode_buffer_requirements decode_buffer_requirements
decode_buffer_requirements-encode_buffer_requirements out b x h e = ground (
  arith,
  e,
  get_buffer_requirements-put_buffer_requirements out x h,
  buffer_requirements_padding out x,
)

abbrev pub IsBufferRequirements2Request : BufferRequirements2Request → Type 0
IsBufferRequirements2Request x = (x.buffer_id < 2 ^ 64) × (x.pnext_flags < 2 ^ 32)

get_buffer_requirements_2_request-put_buffer_requirements_2_request :
    (out : Buffer) (x : BufferRequirements2Request)
    → IsBufferRequirements2Request x
    → get_buffer_requirements_2_request (put_buffer_requirements_2_request out x) ≡ x
unfolding get_buffer_requirements_2_request put_buffer_requirements_2_request get_u32 get_u64
    put_u32 put_u64
get_buffer_requirements_2_request-put_buffer_requirements_2_request out x h =
    ground (arith, h, joined_u64_lem x.buffer_id, joined_u32_lem x.pnext_flags)

buffer_requirements_2_request_padding :
    (out : Buffer) (x : BufferRequirements2Request)
    → get_u32 (put_buffer_requirements_2_request out x) 12 ≡ 0
unfolding put_buffer_requirements_2_request get_u32 get_u64 put_u32 put_u64
buffer_requirements_2_request_padding out x = refl

-- What encode_buffer_requirements_2_request writes for a message whose fields fit their types,
-- decode_buffer_requirements_2_request reads back.
pub decode_buffer_requirements_2_request-encode_buffer_requirements_2_request :
    (out b : Buffer) (x : BufferRequirements2Request)
    → IsBufferRequirements2Request x
    → encode_buffer_requirements_2_request out x ≡ ok b
    → decode_buffer_requirements_2_request b ≡ ok x
unfolding encode_buffer_requirements_2_request decode_buffer_requirements_2_request
decode_buffer_requirements_2_request-encode_buffer_requirements_2_request out b x h e = ground (
  arith,
  e,
  get_buffer_requirements_2_request-put_buffer_requirements_2_request out x h,
  buffer_requirements_2_request_padding out x,
)

abbrev pub IsBufferBindRequest : BufferBindRequest → Type 0
IsBufferBindRequest x = (x.buffer_id < 2 ^ 64) × (x.memory_id < 2 ^ 64) × (x.offset < 2 ^ 64)

get_buffer_bind_request-put_buffer_bind_request :
    (out : Buffer) (x : BufferBindRequest)
    → IsBufferBindRequest x
    → get_buffer_bind_request (put_buffer_bind_request out x) ≡ x
unfolding get_buffer_bind_request put_buffer_bind_request get_u32 get_u64 put_u32 put_u64
get_buffer_bind_request-put_buffer_bind_request out x h =
    ground
      (arith, h, joined_u64_lem x.buffer_id, joined_u64_lem x.memory_id, joined_u64_lem x.offset)

-- What encode_buffer_bind_request writes for a message whose fields fit their types,
-- decode_buffer_bind_request reads back.
pub decode_buffer_bind_request-encode_buffer_bind_request :
    (out b : Buffer) (x : BufferBindRequest)
    → IsBufferBindRequest x
    → encode_buffer_bind_request out x ≡ ok b
    → decode_buffer_bind_request b ≡ ok x
unfolding encode_buffer_bind_request decode_buffer_bind_request
decode_buffer_bind_request-encode_buffer_bind_request out b x h e =
    ground (arith, e, get_buffer_bind_request-put_buffer_bind_request out x h)
