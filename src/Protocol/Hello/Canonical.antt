-- ===== src/Protocol/Hello/Canonical.antt =====
-- What is accepted is canonical: greeting.
use bionic_vulkan_bridge.Prelude.{◌≡◌, ok, arith}
use mathlib.Core.Path.{subst}
use bionic_vulkan_bridge.Wire.{Buffer, put_u16, put_u32, get_u16, get_u32}
use bionic_vulkan_bridge.Wire.RoundTrip.{IsBytes}
use bionic_vulkan_bridge.Wire.Canonical.{agree_none, put_u16_agree, put_u32_agree, AgreeTo}
use bionic_vulkan_bridge.Protocol.Hello.{
  HelloRequest, decode_hello_request, encode_hello_request, get_hello_request, put_hello_request,
}

hello_request_bytes :
    (input out : Buffer)
    → IsBytes input
    → AgreeTo 8 (put_hello_request out (get_hello_request input)) input
unfolding put_hello_request get_hello_request
hello_request_bytes input out h =
    let o0 = out in
    let o1 = put_u16 o0 0 (get_u16 input 0) in
    let a1 = put_u16_agree o0 input 0 h (agree_none o0 input) in
    let o2 = put_u16 o1 2 (get_u16 input 2) in
    let a2 = put_u16_agree o1 input 2 h a1 in
    let o3 = put_u32 o2 4 (get_u32 input 4) in let a3 = put_u32_agree o2 input 4 h a2 in a3

hello_request_decoded :
    (input out : Buffer) (x : HelloRequest)
    → decode_hello_request input ≡ ok x
    → (get_hello_request input ≡ x) × (encode_hello_request out x ≡ ok (put_hello_request out x))
unfolding encode_hello_request decode_hello_request
hello_request_decoded input out x e = ground (arith, e)

-- Where decode_hello_request accepts bytes, encode_hello_request accepts the message and writes
-- the same bytes.
pub encode_hello_request-decode_hello_request :
    (input out : Buffer) (x : HelloRequest)
    → IsBytes input
    → decode_hello_request input ≡ ok x
    → (encode_hello_request out x ≡ ok (put_hello_request out x))
      × AgreeTo 8 (put_hello_request out x) input
encode_hello_request-decode_hello_request input out x h e =
    let (g, enc) = hello_request_decoded input out x e in
    (
      enc,
      subst (λ y. AgreeTo 8 (put_hello_request out y) input) g (hello_request_bytes input out h),
    )
