-- ===== src/Sofarpc/BoltV1.antt =====
-- pkg/protocol/sofarpc/codec/boltv1codec.go: the encoder of commands and the decoder. The clock that
-- stamps a response is an argument.
pub mod Requests
pub mod Mapping
pub mod Responses
use psh_mosn.Base.{
  ℕ, ◌+◌, Bool, true, false, ◌||◌, Option, none, some, List, [], ◌∷◌, ◌++◌, ltb, leb, ◌==◌,
  if◌then◌else◌, length, get_or,
}
use mathlib.Core.Option
use psh_mosn.Base.Int.{ℤ, pos, ◌+ℤ◌, is_positive, to_u16, to_u32, to_i16}
use psh_mosn.Buffer.{IoBuffer, bytes, buffered}
use psh_mosn.Sofarpc.{
  BoltRequestCommand, BoltResponseCommand, Command, v1_request, v1_response, protocol_code_v1,
  less_len_v1, request_header_len_v1, response_header_len_v1, response_type, request_type,
  request_oneway_type,
}
use psh_mosn.Sofarpc.Wire.{
  put_u16, put_u32, u16_at, u32_at, slice, write_all, get_buffer, Found, waiting, unknown_type,
  frame, undrained, Decoded, deliver, tail_writes,
}

abbrev pub request_writes : BoltRequestCommand → List (List ℕ)
request_writes cmd =
    (cmd.protocol ∷ [])
    ∷ (cmd.cmd_type ∷ [])
    ∷ put_u16 (to_u16 cmd.cmd_code)
    ∷ (cmd.version ∷ [])
    ∷ put_u32 cmd.req_id
    ∷ (cmd.codec_pro ∷ [])
    ∷ put_u32 (to_u32 cmd.timeout)
    ∷ put_u16 (to_u16 cmd.class_len)
    ∷ put_u16 (to_u16 (pos (length cmd.header_map)))
    ∷ put_u32 (to_u32 cmd.content_len)
    ∷ tail_writes cmd.class_len cmd.class_name cmd.header_map

unfoldable pub do_encode_request_command : BoltRequestCommand → Option IoBuffer
do_encode_request_command cmd =
    Option.map (λ buf. write_all buf (request_writes cmd))
      (get_buffer (pos 22 +ℤ cmd.class_len +ℤ pos (length cmd.header_map)))

abbrev pub response_writes : BoltResponseCommand → List (List ℕ)
response_writes cmd =
    (cmd.protocol ∷ [])
    ∷ (cmd.cmd_type ∷ [])
    ∷ put_u16 (to_u16 cmd.cmd_code)
    ∷ (cmd.version ∷ [])
    ∷ put_u32 cmd.req_id
    ∷ (cmd.codec_pro ∷ [])
    ∷ put_u16 (to_u16 cmd.response_status)
    ∷ put_u16 (to_u16 cmd.class_len)
    ∷ put_u16 (to_u16 (pos (length cmd.header_map)))
    ∷ put_u32 (to_u32 cmd.content_len)
    ∷ tail_writes cmd.class_len cmd.class_name cmd.header_map

unfoldable pub do_encode_response_command : BoltResponseCommand → Option IoBuffer
do_encode_response_command cmd =
    Option.map (λ buf. write_all buf (response_writes cmd))
      (get_buffer (pos 20 +ℤ cmd.class_len +ℤ pos (length cmd.header_map)))

-- The bytes that a request takes, by the lengths in its header.
unfoldable pub request_size : List ℕ → ℕ
request_size bs = request_header_len_v1 + u16_at bs 14 + u16_at bs 16 + u32_at bs 18

unfoldable pub request_of : List ℕ → ℕ → BoltRequestCommand
request_of bs data_type =
    let class_len = u16_at bs 14 in
    let header_len = u16_at bs 16 in
    let content_len = u32_at bs 18 in
    let read = request_header_len_v1 in
    record {
      protocol = protocol_code_v1;
      cmd_type = data_type;
      cmd_code = to_i16 (u16_at bs 2);
      version = get_or bs 4 0;
      req_id = u32_at bs 5;
      codec_pro = get_or bs 9 0;
      timeout = pos (u32_at bs 10);
      class_len = to_i16 class_len;
      header_len = to_i16 header_len;
      content_len = pos content_len;
      class_name = slice bs read class_len;
      header_map = slice bs (read + class_len) header_len;
      content = slice bs (read + class_len + header_len) content_len;
      request_header = [];
    }

unfoldable pub response_size : List ℕ → ℕ
response_size bs = response_header_len_v1 + u16_at bs 12 + u16_at bs 14 + u32_at bs 16

unfoldable pub response_of : ℤ → List ℕ → ℕ → BoltResponseCommand
response_of now bs data_type =
    let class_len = u16_at bs 12 in
    let header_len = u16_at bs 14 in
    let content_len = u32_at bs 16 in
    let read = response_header_len_v1 in
    record {
      protocol = protocol_code_v1;
      cmd_type = data_type;
      cmd_code = to_i16 (u16_at bs 2);
      version = get_or bs 4 0;
      req_id = u32_at bs 5;
      codec_pro = get_or bs 9 0;
      response_status = to_i16 (u16_at bs 10);
      class_len = to_i16 class_len;
      header_len = to_i16 header_len;
      content_len = pos content_len;
      class_name = slice bs read class_len;
      header_map = slice bs (read + class_len) header_len;
      content = slice bs (read + class_len + header_len) content_len;
      response_time_millis = now;
      response_header = [];
    }

-- The branches of Decode: a request, a response, another type byte.
unfoldable pub find_command : ℤ → ℕ → List ℕ → Found
find_command now readable bs =
    let data_type = get_or bs 1 0 in
    if leb less_len_v1 readable
    then (if data_type == request_type || data_type == request_oneway_type
        then (if leb request_header_len_v1 readable
            then (if leb (request_size bs) readable
                then frame (request_size bs) (v1_request (request_of bs data_type))
                else waiting)
            else waiting)
        else (if data_type == response_type
            then (if leb response_header_len_v1 readable
                then (if leb (response_size bs) readable
                    then frame (response_size bs) (v1_response (response_of now bs data_type))
                    else waiting)
                else waiting)
            else unknown_type))
    else waiting

unfoldable pub decode : ℤ → IoBuffer → IoBuffer × Decoded
unfolding find_command deliver buffered
decode now b = deliver b (find_command now (buffered b) (bytes b))
