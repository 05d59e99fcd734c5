-- ===== src/Sofarpc/Tests.antt =====
-- The Bolt codecs and the decode loop: the theorems at concrete commands.
use psh_mosn.Base.{Bool, ◌≡◌, refl, inl, true, false, some, List, [], ◌∷◌, ◌++◌, arith, replicate}
use psh_mosn.Base.Int.{pos, negsuc, ◌+ℤ◌}
use psh_mosn.Buffer.{IoBuffer, bytes, new_io_buffer, new_io_buffer_bytes, Inv}
use psh_mosn.Buffer.Writing.{new_io_buffer_bytes-Inv, bytes-new_io_buffer_bytes}
use psh_mosn.Sofarpc.{
  BoltRequestCommand, BoltResponseCommand, BoltV2RequestCommand, BoltV2ResponseCommand, Command,
  v1_response, v2_request, v2_response,
}
use psh_mosn.Sofarpc.Wire.{write_all, get_buffer, command}
use psh_mosn.Sofarpc.BoltV1
use psh_mosn.Sofarpc.BoltV2
use psh_mosn.Sofarpc.BoltV1.Requests.{IsRequest}
use psh_mosn.Sofarpc.BoltV1.Responses.{IsResponse, decode-encode_response}
use psh_mosn.Sofarpc.BoltV2.Requests.{decode-encode_request_v2}
use psh_mosn.Sofarpc.BoltV2.Responses.{decode-encode_response_v2}
use psh_mosn.Sofarpc.BoltV2.Mapping
use psh_mosn.Base.Strings.{text}
use psh_mosn.Serialize.{StringMap}
use psh_mosn.Sofarpc.Adapter.{
  get_property_value, header_protocol_code, header_cmd_type, header_cmd_code, header_version,
  header_req_id, header_codec, header_class_len, header_header_len, header_content_len,
  header_timeout, header_version1, header_switch_code,
}
use psh_mosn.Sofarpc.BoltV1.Mapping.{header_map, header_command, invalid_command_type, encode_panic}
use psh_mosn.Sofarpc.Protocols.{
  decode_loop, default_protocols, handle_command, handled, encode_headers,
}
use psh_mosn.Sofarpc.Protocols.Streams.{stream}
use psh_mosn.Sofarpc.Protocols.Livelock.{
  decoded_v2, decode_loop-livelock, encode_headers-decoded_v2,
}

abbrev request : BoltRequestCommand
request = record {
  protocol = 1;
  cmd_type = 1;
  cmd_code = pos 1;
  version = 1;
  req_id = 70000;
  codec_pro = 1;
  timeout = pos 3000;
  class_len = pos 2;
  header_len = pos 3;
  content_len = pos 4;
  class_name = 97 ∷ 98 ∷ [];
  header_map = 1 ∷ 2 ∷ 3 ∷ [];
  content = 9 ∷ 8 ∷ 7 ∷ 6 ∷ [];
  request_header = [];
}

abbrev request_sent : IoBuffer
request_sent = write_all (new_io_buffer 27) (BoltV1.request_writes request)

-- The connection holds the frame, and one byte of the next.
abbrev request_received : IoBuffer
request_received = new_io_buffer_bytes (bytes request_sent ++ (request.content ++ 1 ∷ []))

abbrev response : BoltResponseCommand
response = record {
  protocol = 2;
  cmd_type = 0;
  cmd_code = pos 2;
  version = 1;
  req_id = 70000;
  codec_pro = 1;
  response_status = negsuc 0;
  class_len = pos 1;
  header_len = pos 0;
  content_len = pos 2;
  class_name = 97 ∷ [];
  header_map = [];
  content = 5 ∷ 6 ∷ [];
  response_time_millis = pos 0;
  response_header = [];
}

response-IsResponse : IsResponse response
response-IsResponse = record {
  is_response = refl;
  code = omega arith;
  id = omega arith;
  status = omega arith;
  class_fits = (refl, omega arith);
  header_fits = (refl, omega arith);
  content_fits = (refl, omega arith);
}

abbrev response_sent : IoBuffer
response_sent = write_all (new_io_buffer 21) (BoltV1.response_writes response)

abbrev response_received : IoBuffer
response_received = new_io_buffer_bytes (bytes response_sent ++ (response.content ++ []))

response-encoded : BoltV1.do_encode_response_command response ≡ some response_sent
unfolding BoltV1.do_encode_response_command get_buffer ◌+ℤ◌
response-encoded = refl

decode-encode_response_example :
    (bytes (BoltV1.decode (pos 5) response_received).0 ≡ [])
    × ((BoltV1.decode (pos 5) response_received).1
        ≡ command (
            v1_response (record response {
              protocol = 1;
              response_time_millis = pos 5;
              response_header = [];
            })))
    × Inv (BoltV1.decode (pos 5) response_received).0
decode-encode_response_example =
    decode-encode_response response [] (pos 5) response_received response_sent response-IsResponse
      response-encoded (new_io_buffer_bytes-Inv _) (bytes-new_io_buffer_bytes _)

abbrev call_v2 : BoltV2RequestCommand
call_v2 = record { command = record request { protocol = 2 }; version1 = 1; switch_code = 0 }

call_v2-IsRequest : IsRequest call_v2.command
call_v2-IsRequest = record {
  is_request = inl refl;
  code = omega arith;
  id = omega arith;
  time = (3000, refl, omega arith);
  class_fits = (refl, omega arith);
  header_fits = (refl, omega arith);
  content_fits = (refl, omega arith);
}

abbrev call_v2_sent : IoBuffer
call_v2_sent = write_all (new_io_buffer 27) (BoltV2.request_writes call_v2)

abbrev call_v2_received : IoBuffer
call_v2_received = new_io_buffer_bytes (bytes call_v2_sent ++ (call_v2.command.content ++ 2 ∷ []))

call_v2-encoded : BoltV2.do_encode_request_command call_v2 ≡ some call_v2_sent
unfolding BoltV2.do_encode_request_command get_buffer ◌+ℤ◌
call_v2-encoded = refl

abbrev mislabelled : Command
mislabelled = v2_request (record call_v2 { command = request })

decode-encode_request_v2_example :
    (bytes (BoltV2.decode (pos 5) call_v2_received).0 ≡ 2 ∷ [])
    × ((BoltV2.decode (pos 5) call_v2_received).1 ≡ command mislabelled)
    × Inv (BoltV2.decode (pos 5) call_v2_received).0
decode-encode_request_v2_example =
    decode-encode_request_v2 call_v2 (2 ∷ []) (pos 5) call_v2_received call_v2_sent
      call_v2-IsRequest call_v2-encoded (new_io_buffer_bytes-Inv _) (bytes-new_io_buffer_bytes _)

encode_headers-decoded_v2_example :
    encode_headers (default_protocols (pos 5)) (header_command mislabelled) ≡ invalid_command_type
encode_headers-decoded_v2_example =
    encode_headers-decoded_v2 (pos 5) call_v2_received mislabelled
      decode-encode_request_v2_example.1

abbrev response_v2 : BoltV2ResponseCommand
response_v2 = record { command = response; version1 = 1; switch_code = 0 }

abbrev response_v2_sent : IoBuffer
response_v2_sent = write_all (new_io_buffer 21) (BoltV2.response_writes response_v2)

abbrev response_v2_received : IoBuffer
response_v2_received = new_io_buffer_bytes (bytes response_v2_sent ++ (response.content ++ []))

response_v2-encoded : BoltV2.do_encode_response_command response_v2 ≡ some response_v2_sent
unfolding BoltV2.do_encode_response_command get_buffer ◌+ℤ◌
response_v2-encoded = refl

decode-encode_response_v2_example :
    BoltV2.decode (pos 5) response_v2_received
    ≡ (response_v2_received, command (decoded_v2 response_v2 (pos 5)))
decode-encode_response_v2_example =
    decode-encode_response_v2 response_v2 [] (pos 5) response_v2_received response_v2_sent
      response-IsResponse response_v2-encoded (new_io_buffer_bytes-Inv _)
      (bytes-new_io_buffer_bytes _)

handled_code : handle_command (v2_response response_v2) ≡ true
unfolding handle_command
handled_code = refl

decode_loop-livelock_example :
    decode_loop 100 (default_protocols (pos 5)) response_v2_received ≡ record {
      buffer = response_v2_received;
      events = replicate 100 (handled (decoded_v2 response_v2 (pos 5)));
      ended = false;
    }
decode_loop-livelock_example =
    decode_loop-livelock 100 response_v2 [] (pos 5) response_v2_received response_v2_sent
      response-IsResponse refl handled_code response_v2-encoded (new_io_buffer_bytes-Inv _)
      (bytes-new_io_buffer_bytes _)

abbrev two_requests : List BoltRequestCommand
two_requests = request ∷ record request { req_id = 70001 } ∷ []

abbrev two_requests_received : IoBuffer
two_requests_received = new_io_buffer_bytes (stream two_requests)

-- The headers of a complete request of version 2.
abbrev request_headers : StringMap
request_headers =
    (header_protocol_code, text "2")
    ∷ (header_cmd_type, text "1")
    ∷ (header_cmd_code, text "1")
    ∷ (header_version, text "1")
    ∷ (header_req_id, text "7")
    ∷ (header_codec, text "1")
    ∷ (header_class_len, text "0")
    ∷ (header_header_len, text "0")
    ∷ (header_content_len, text "0")
    ∷ (header_timeout, text "3")
    ∷ (header_version1, text "1")
    ∷ (header_switch_code, text "0")
    ∷ []

-- The version 1 mapping makes the command of them, by its pointer.
abbrev is_pointer : BoltV1.Mapping.Mapped → Bool
is_pointer (BoltV1.Mapping.by_pointer c) = true
is_pointer _ = false

request_mapped : is_pointer (BoltV1.Mapping.map_to_cmd request_headers).1 ≡ true
unfolding BoltV1.Mapping.map_to_cmd get_property_value
request_mapped = refl

encode_headers-header_map_example :
    BoltV2.Mapping.encode_headers (header_map request_headers) ≡ invalid_command_type
unfolding BoltV1.Mapping.map_to_cmd get_property_value
encode_headers-header_map_example = BoltV2.Mapping.encode_headers-header_map request_headers
