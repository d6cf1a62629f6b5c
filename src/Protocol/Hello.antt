-- ===== src/Protocol/Hello.antt =====
-- The greeting of src/protocol.c: what encode stores (put), what decode reads (get), and the two
-- with their checks. Reading needs no output; a rejected input has no value.
pub mod RoundTrip
pub mod Canonical
use bionic_vulkan_bridge.Prelude.{
  ℕ, ◌||◌, ltb, ◌==◌, ◌!=◌, if◌then◌else◌, Result, ok, err, einval, eproto,
}
use bionic_vulkan_bridge.Wire.{Buffer, put_u16, put_u32, get_u16, get_u32}

pub record HelloRequest : Type 0 where
  pub minimum_version : ℕ
  pub maximum_version : ℕ
  pub client_flags : ℕ

pub put_hello_request : Buffer → HelloRequest → Buffer
put_hello_request output request =
    let output = put_u16 output 0 request.minimum_version in
    let output = put_u16 output 2 request.maximum_version in put_u32 output 4 request.client_flags

pub encode_hello_request : Buffer → HelloRequest → Result Buffer
encode_hello_request output request =
    if request.minimum_version == 0 || ltb request.maximum_version request.minimum_version
    then err einval
    else ok (put_hello_request output request)

pub get_hello_request : Buffer → HelloRequest
get_hello_request input = record {
  minimum_version = get_u16 input 0;
  maximum_version = get_u16 input 2;
  client_flags = get_u32 input 4;
}

pub decode_hello_request : Buffer → Result HelloRequest
decode_hello_request input =
    let request = get_hello_request input in
    if request.minimum_version == 0 || ltb request.maximum_version request.minimum_version
    then err eproto
    else ok request

pub record HelloResponse : Type 0 where
  pub negotiated_version : ℕ
  pub service_flags : ℕ
  pub pointer_bits : ℕ
  pub page_size : ℕ

pub put_hello_response : Buffer → HelloResponse → Buffer
put_hello_response output response =
    let output = put_u16 output 0 response.negotiated_version in
    let output = put_u16 output 2 0 in
    let output = put_u32 output 4 response.service_flags in
    let output = put_u32 output 8 response.pointer_bits in put_u32 output 12 response.page_size

pub encode_hello_response : Buffer → HelloResponse → Result Buffer
encode_hello_response output response =
    if response.negotiated_version == 0 || response.pointer_bits == 0 || response.page_size == 0
    then err einval
    else ok (put_hello_response output response)

pub get_hello_response : Buffer → HelloResponse
get_hello_response input = record {
  negotiated_version = get_u16 input 0;
  service_flags = get_u32 input 4;
  pointer_bits = get_u32 input 8;
  page_size = get_u32 input 12;
}

pub decode_hello_response : Buffer → Result HelloResponse
decode_hello_response input =
    let response = get_hello_response input in
    if get_u16 input 2 != 0
      || response.negotiated_version == 0
      || response.pointer_bits == 0
      || response.page_size == 0
    then err eproto
    else ok response
