-- ===== src/Protocol/Header/Tests.antt =====
-- The header codec at a concrete header.
use bionic_vulkan_bridge.Prelude.{◌≡◌, ok, refl, arith, negsuc}
use bionic_vulkan_bridge.Wire.{Buffer, put_u16, put_u32, put_i32}
use bionic_vulkan_bridge.Wire.RoundTrip.{IsBytes}
use bionic_vulkan_bridge.Wire.Canonical.{AgreeTo}
use bionic_vulkan_bridge.Protocol.Header.{
  ProtocolHeader, put_header, encode_header, decode_header, header_is_valid,
}
use bionic_vulkan_bridge.Protocol.Header.RoundTrip.{
  IsProtocolHeader, decode_header-encode_header, encode_header-decode_header,
}

abbrev blank : Buffer
blank i = 0

abbrev submit : ProtocolHeader
submit = record {
  version_number = 1;
  kind = 2;
  opcode = 30;
  request_id = 9;
  payload_length = 16;
  status = negsuc 3;
}

submit-IsProtocolHeader : IsProtocolHeader submit
submit-IsProtocolHeader =
    (omega arith, omega arith, omega arith, omega arith, omega arith, omega arith)

submit_accepted : encode_header blank submit ≡ ok (put_header blank submit)
unfolding encode_header header_is_valid
submit_accepted = refl

decode_header-encode_header_example : decode_header (put_header blank submit) ≡ ok submit
decode_header-encode_header_example =
    decode_header-encode_header blank (put_header blank submit) submit submit-IsProtocolHeader
      submit_accepted

put_header_read : decode_header (put_header blank submit) ≡ ok submit
put_header_read =
    decode_header-encode_header blank (put_header blank submit) submit submit-IsProtocolHeader
      submit_accepted

put_header-IsBytes : IsBytes (put_header blank submit)
unfolding put_header put_u32 put_u16 put_i32
put_header-IsBytes i = ground arith

encode_header-decode_header_example :
    (encode_header blank submit ≡ ok (put_header blank submit))
    × AgreeTo 24 (put_header blank submit) (put_header blank submit)
encode_header-decode_header_example =
    encode_header-decode_header (put_header blank submit) blank submit put_header-IsBytes
      put_header_read
