-- ===== src/Protocol/Header.antt =====
-- The header of every message: header_is_valid and bvb_protocol_encode_header and decode_header of
-- src/protocol.c. The payload follows in the packet.
pub mod RoundTrip
mod Tests
use bionic_vulkan_bridge.Prelude.{
  ℕ, ◌+◌, ◌&&◌, ◌||◌, ltb, ◌==◌, ◌!=◌, if◌then◌else◌, Result, Status, ok, err, eproto, emsgsize, ℤ,
  ◌>>◌, ◌>>=◌, fail_if,
}
use bionic_vulkan_bridge.Wire.{Buffer, put_u16, put_u32, put_i32, get_u16, get_u32, get_i32}
use bionic_vulkan_bridge.Protocol.{is_nonzero}

abbrev pub magic : ℕ
magic = 0x3142_5642

abbrev pub version : ℕ
version = 1

abbrev pub max_payload : ℕ
max_payload = 4096

abbrev pub kind_request : ℕ
kind_request = 1

abbrev pub kind_response : ℕ
kind_response = 2

abbrev pub opcode_hello : ℕ
opcode_hello = 1

-- BVB_OPCODE_VULKAN_MEMORY_DIRECT_MAP_SETUP
abbrev pub opcode_last : ℕ
opcode_last = 125

pub record ProtocolHeader : Type 0 where
  pub version_number : ℕ
  pub kind : ℕ
  pub opcode : ℕ
  pub request_id : ℕ
  pub payload_length : ℕ
  pub status : ℤ

pub header_is_valid : ProtocolHeader → Status
header_is_valid header = do
  fail_if (header.version_number != version) eproto
  fail_if (header.kind != kind_request && header.kind != kind_response) eproto
  fail_if (ltb header.opcode opcode_hello || ltb opcode_last header.opcode) eproto
  fail_if (ltb max_payload header.payload_length) emsgsize
  fail_if (header.kind == kind_request && is_nonzero header.status) eproto

pub put_header : Buffer → ProtocolHeader → Buffer
put_header output header =
    let output = put_u32 output 0 magic in
    let output = put_u16 output 4 header.version_number in
    let output = put_u16 output 6 header.kind in
    let output = put_u16 output 8 header.opcode in
    let output = put_u16 output 10 0 in
    let output = put_u32 output 12 header.request_id in
    let output = put_u32 output 16 header.payload_length in put_i32 output 20 header.status

pub encode_header : Buffer → ProtocolHeader → Result Buffer
unfolding header_is_valid
encode_header output header = header_is_valid header >> ok (put_header output header)

pub get_header : Buffer → ProtocolHeader
get_header input = record {
  version_number = get_u16 input 4;
  kind = get_u16 input 6;
  opcode = get_u16 input 8;
  request_id = get_u32 input 12;
  payload_length = get_u32 input 16;
  status = get_i32 input 20;
}

pub decode_header : Buffer → Result ProtocolHeader
unfolding header_is_valid
decode_header input = do
  fail_if (get_u32 input 0 != magic || get_u16 input 10 != 0) eproto
  header_is_valid (get_header input)
  ok (get_header input)
