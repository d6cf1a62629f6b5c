-- ===== src/Protocol/Hello/RoundTrip.antt =====
-- What is encoded is read back: greeting.
use bionic_vulkan_bridge.Prelude.{◌^◌, ◌<◌, ◌≡◌, refl, ok, arith}
use bionic_vulkan_bridge.Wire.{Buffer, put_u16, put_u32, get_u16, get_u32}
use bionic_vulkan_bridge.Wire.RoundTrip.{joined_u16_lem, joined_u32_lem}
use bionic_vulkan_bridge.Protocol.Hello.{
  HelloRequest, HelloResponse, decode_hello_request, decode_hello_response, encode_hello_request,
  encode_hello_response, get_hello_request, get_hello_response, put_hello_request,
  put_hello_response,
}

abbrev pub IsHelloRequest : HelloRequest → Type 0
IsHelloRequest x =
    (x.minimum_version < 2 ^ 16) × (x.maximum_version < 2 ^ 16) × (x.client_flags < 2 ^ 32)

get_hello_request-put_hello_request :
    (out : Buffer) (x : HelloRequest)
    → IsHelloRequest x
    → get_hello_request (put_hello_request out x) ≡ x
unfolding get_hello_request put_hello_request get_u16 get_u32 put_u16 put_u32
get_hello_request-put_hello_request out x h = ground (
  arith,
  h,
  joined_u16_lem x.minimum_version,
  joined_u16_lem x.maximum_version,
  joined_u32_lem x.client_flags,
)

-- What encode_hello_request writes for a message whose fields fit their types,
-- decode_hello_request reads back.
pub decode_hello_request-encode_hello_request :
    (out b : Buffer) (x : HelloRequest)
    → IsHelloRequest x
    → encode_hello_request out x ≡ ok b
    → decode_hello_request b ≡ ok x
unfolding encode_hello_request decode_hello_request
decode_hello_request-encode_hello_request out b x h e =
    ground (arith, e, get_hello_request-put_hello_request out x h)

abbrev pub IsHelloResponse : HelloResponse → Type 0
IsHelloResponse x =
    (x.negotiated_version < 2 ^ 16)
    × (x.service_flags < 2 ^ 32)
    × (x.pointer_bits < 2 ^ 32)
    × (x.page_size < 2 ^ 32)

get_hello_response-put_hello_response :
    (out : Buffer) (x : HelloResponse)
    → IsHelloResponse x
    → get_hello_response (put_hello_response out x) ≡ x
unfolding get_hello_response put_hello_response get_u16 get_u32 put_u16 put_u32
get_hello_response-put_hello_response out x h = ground (
  arith,
  h,
  joined_u16_lem x.negotiated_version,
  joined_u32_lem x.service_flags,
  joined_u32_lem x.pointer_bits,
  joined_u32_lem x.page_size,
)

hello_response_padding :
    (out : Buffer) (x : HelloResponse) → get_u16 (put_hello_response out x) 2 ≡ 0
unfolding put_hello_response get_u16 get_u32 put_u16 put_u32
hello_response_padding out x = refl

-- What encode_hello_response writes for a message whose fields fit their types,
-- decode_hello_response reads back.
pub decode_hello_response-encode_hello_response :
    (out b : Buffer) (x : HelloResponse)
    → IsHelloResponse x
    → encode_hello_response out x ≡ ok b
    → decode_hello_response b ≡ ok x
unfolding encode_hello_response decode_hello_response
decode_hello_response-encode_hello_response out b x h e =
    ground (arith, e, get_hello_response-put_hello_response out x h, hello_response_padding out x)
