-- ===== src/Protocol/Image/RoundTrip.antt =====
-- What is encoded is read back: image messages.
use bionic_vulkan_bridge.Prelude.{◌^◌, ◌<◌, ◌≡◌, refl, ok, arith}
use bionic_vulkan_bridge.Wire.{Buffer, put_u32, put_u64, get_u32, get_u64}
use bionic_vulkan_bridge.Wire.RoundTrip.{joined_u32_lem, joined_u64_lem}
use bionic_vulkan_bridge.Protocol.Image.{
  ImageBindRequest, ImageRequirements, ImageRequirements2Request, decode_image_bind_request,
  decode_image_requirements, decode_image_requirements_2_request, encode_image_bind_request,
  encode_image_requirements, encode_image_requirements_2_request, get_image_bind_request,
  get_image_requirements, get_image_requirements_2_request, put_image_bind_request,
  put_image_requirements, put_image_requirements_2_request,
}

abbrev pub IsImageRequirements : ImageRequirements → Type 0
IsImageRequirements x = (x.size < 2 ^ 64) × (x.alignment < 2 ^ 64) × (x.memory_type_bits < 2 ^ 32)

get_image_requirements-put_image_requirements :
    (out : Buffer) (x : ImageRequirements)
    → IsImageRequirements x
    → get_image_requirements (put_image_requirements out x) ≡ x
unfolding get_image_requirements put_image_requirements get_u32 get_u64 put_u32 put_u64
get_image_requirements-put_image_requirements out x h =
    ground (
      arith,
      h,
      joined_u64_lem x.size,
      joined_u64_lem x.alignment,
      joined_u32_lem x.memory_type_bits,
    )

image_requirements_padding :
    (out : Buffer) (x : ImageRequirements) → get_u32 (put_image_requirements out x) 20 ≡ 0
unfolding put_image_requirements get_u32 get_u64 put_u32 put_u64
image_requirements_padding out x = refl

-- What encode_image_requirements writes for a message whose fields fit their types,
-- decode_image_requirements reads back.
pub decode_image_requirements-encode_image_requirements :
    (out b : Buffer) (x : ImageRequirements)
    → IsImageRequirements x
    → encode_image_requirements out x ≡ ok b
    → decode_image_requirements b ≡ ok x
unfolding encode_image_requirements decode_image_requirements
decode_image_requirements-encode_image_requirements out b x h e = ground (
  arith,
  e,
  get_image_requirements-put_image_requirements out x h,
  image_requirements_padding out x,
)

abbrev pub IsImageRequirements2Request : ImageRequirements2Request → Type 0
IsImageRequirements2Request x = (x.image_id < 2 ^ 64) × (x.pnext_flags < 2 ^ 32)

get_image_requirements_2_request-put_image_requirements_2_request :
    (out : Buffer) (x : ImageRequirements2Request)
    → IsImageRequirements2Request x
    → get_image_requirements_2_request (put_image_requirements_2_request out x) ≡ x
unfolding get_image_requirements_2_request put_image_requirements_2_request get_u32 get_u64 put_u32
    put_u64
get_image_requirements_2_request-put_image_requirements_2_request out x h =
    ground (arith, h, joined_u64_lem x.image_id, joined_u32_lem x.pnext_flags)

image_requirements_2_request_padding :
    (out : Buffer) (x : ImageRequirements2Request)
    → get_u32 (put_image_requirements_2_request out x) 12 ≡ 0
unfolding put_image_requirements_2_request get_u32 get_u64 put_u32 put_u64
image_requirements_2_request_padding out x = refl

-- What encode_image_requirements_2_request writes for a message whose fields fit their types,
-- decode_image_requirements_2_request reads back.
pub decode_image_requirements_2_request-encode_image_requirements_2_request :
    (out b : Buffer) (x : ImageRequirements2Request)
    → IsImageRequirements2Request x
    → encode_image_requirements_2_request out x ≡ ok b
    → decode_image_requirements_2_request b ≡ ok x
unfolding encode_image_requirements_2_request decode_image_requirements_2_request
decode_image_requirements_2_request-encode_image_requirements_2_request out b x h e = ground (
  arith,
  e,
  get_image_requirements_2_request-put_image_requirements_2_request out x h,
  image_requirements_2_request_padding out x,
)

abbrev pub IsImageBindRequest : ImageBindRequest → Type 0
IsImageBindRequest x = (x.image_id < 2 ^ 64) × (x.memory_id < 2 ^ 64) × (x.offset < 2 ^ 64)

get_image_bind_request-put_image_bind_request :
    (out : Buffer) (x : ImageBindRequest)
    → IsImageBindRequest x
    → get_image_bind_request (put_image_bind_request out x) ≡ x
unfolding get_image_bind_request put_image_bind_request get_u32 get_u64 put_u32 put_u64
get_image_bind_request-put_image_bind_request out x h =
    ground
      (arith, h, joined_u64_lem x.image_id, joined_u64_lem x.memory_id, joined_u64_lem x.offset)

-- What encode_image_bind_request writes for a message whose fields fit their types,
-- decode_image_bind_request reads back.
pub decode_image_bind_request-encode_image_bind_request :
    (out b : Buffer) (x : ImageBindRequest)
    → IsImageBindRequest x
    → encode_image_bind_request out x ≡ ok b
    → decode_image_bind_request b ≡ ok x
unfolding encode_image_bind_request decode_image_bind_request
decode_image_bind_request-encode_image_bind_request out b x h e =
    ground (arith, e, get_image_bind_request-put_image_bind_request out x h)
