-- ===== src/Sofarpc/BoltV2.antt =====
-- pkg/protocol/sofarpc/codec/boltv2codec.go: the encoder of commands and the decoder. Version 1 of
-- the protocol is written into what is decoded, as the source has it; a response is not drained.
pub mod Requests
pub mod Mapping
pub mod Responses
use psh_mosn.Base.{
  ℕ, ◌+◌, Bool, true, false, ◌||◌, Option, none, some, List, [], ◌∷◌, ◌++◌, ltb, leb, ◌==◌,
  if◌then◌else◌, length, get_or,
}
use mathlib.Core.Option
use psh_mosn.Base.Int.{ℤ, pos, ◌+ℤ◌, is_positive, to_u16, to_u32, to_i16}
use psh_mosn.Buffer.{IoBuffer, bytes, buffered}
use psh_mosn.Sofarpc.{
  BoltV2RequestCommand, BoltV2ResponseCommand, Command, v2_request, v2_response, protocol_code_v1,
  less_len_v2, request_header_len_v2, response_header_len_v2, response_type, request_type,
  request_oneway_type,
}
use psh_mosn.Sofarpc.Wire.{
  put_u16, put_u32, u16_at, u32_at, slice, write_all, get_buffer, Found, waiting, unknown_type,
  frame, undrained, Decoded, deliver, tail_writes,
}

abbrev pub request_writes : BoltV2RequestCommand → List (List ℕ)
request_writes cmd =
    (cmd.command.protocol ∷ [])
    ∷ (cmd.version1 ∷ [])
    ∷ (cmd.command.cmd_type ∷ [])
    ∷ put_u16 (to_u16 cmd.command.cmd_code)
    ∷ (cmd.command.version ∷ [])
    ∷ put_u32 cmd.command.req_id
    ∷ (cmd.command.codec_pro ∷ [])
    ∷ (cmd.switch_code ∷ [])
    ∷ put_u32 (to_u32 cmd.command.timeout)
    ∷ put_u16 (to_u16 cmd.command.class_len)
    ∷ put_u16 (to_u16 (pos (length cmd.command.header_map)))
    ∷ put_u32 (to_u32 cmd.command.content_len)
    ∷ tail_writes cmd.command.class_len cmd.command.class_name cmd.command.header_map

unfoldable pub do_encode_request_command : BoltV2RequestCommand → Option IoBuffer
do_encode_request_command cmd =
    Option.map (λ buf. write_all buf (request_writes cmd))
      (get_buffer (pos 22 +ℤ cmd.command.class_len +ℤ pos (length cmd.command.header_map)))

abbrev pub response_writes : BoltV2ResponseCommand → List (List ℕ)
response_writes cmd =
    (cmd.command.protocol ∷ [])
    ∷ (cmd.version1 ∷ [])
    ∷ (cmd.command.cmd_type ∷ [])
    ∷ put_u16 (to_u16 cmd.command.cmd_code)
    ∷ (cmd.command.version ∷ [])
    ∷ put_u32 cmd.command.req_id
    ∷ (cmd.command.codec_pro ∷ [])
    ∷ (cmd.switch_code ∷ [])
    ∷ put_u16 (to_u16 cmd.command.response_status)
    ∷ put_u16 (to_u16 cmd.command.class_len)
    ∷ put_u16 (to_u16 (pos (length cmd.command.header_map)))
    ∷ put_u32 (to_u32 cmd.command.content_len)
    ∷ tail_writes cmd.command.class_len cmd.command.class_name cmd.command.header_map

unfoldable pub do_encode_response_command : BoltV2ResponseCommand → Option IoBuffer
do_encode_response_command cmd =
    Option.map (λ buf. write_all buf (response_writes cmd))
      (get_buffer (pos 20 +ℤ cmd.command.class_len +ℤ pos (length cmd.command.header_map)))

-- The bytes that a request takes, by the lengths in its header.
unfoldable pub request_size : List ℕ → ℕ
request_size bs = request_header_len_v2 + u16_at bs 16 + u16_at bs 18 + u32_at bs 20

unfoldable pub request_of : List ℕ → ℕ → BoltV2RequestCommand
request_of bs data_type =
    let class_len = u16_at bs 16 in
    let header_len = u16_at bs 18 in
    let content_len = u32_at bs 20 in
    let read = request_header_len_v2 in
    record {
      command = record {
        protocol = protocol_code_v1;
        cmd_type = data_type;
        cmd_code = to_i16 (u16_at bs 3);
        version = get_or bs 5 0;
        req_id = u32_at bs 6;
        codec_pro = get_or bs 10 0;
        timeout = pos (u32_at bs 12);
        class_len = to_i16 class_len;
        header_len = to_i16 header_len;
        content_len = pos content_len;
        class_name = slice bs read class_len;
        header_map = slice bs (read + class_len) header_len;
        content = slice bs (read + class_len + header_len) content_len;
        request_header = [];
      };
      version1 = get_or bs 1 0;
      switch_code = get_or bs 11 0;
    }

unfoldable pub response_size : List ℕ → ℕ
response_size bs = response_header_len_v2 + u16_at bs 14 + u16_at bs 16 + u32_at bs 18

unfoldable pub response_of : ℤ → List ℕ → ℕ → BoltV2ResponseCommand
response_of now bs data_type =
    let class_len = u16_at bs 14 in
    let header_len = u16_at bs 16 in
    let content_len = u32_at bs 18 in
    let read = response_header_len_v2 in
    record {
      command = record {
        protocol = protocol_code_v1;
        cmd_type = data_type;
        cmd_code = to_i16 (u16_at bs 3);
        version = get_or bs 5 0;
        req_id = u32_at bs 6;
        codec_pro = get_or bs 10 0;
        response_status = to_i16 (u16_at bs 12);
        class_len = to_i16 class_len;
        header_len = to_i16 header_len;
        content_len = pos content_len;
        class_name = slice bs read class_len;
        header_map = slice bs (read + class_len) header_len;
        content = slice bs (read + class_len + header_len) content_len;
        response_time_millis = now;
        response_header = [];
      };
      version1 = get_or bs 1 0;
      switch_code = get_or bs 11 0;
    }

-- The branches of Decode: a request, a response, another type byte.
unfoldable pub find_command : ℤ → ℕ → List ℕ → Found
find_command now readable bs =
    let data_type = get_or bs 2 0 in
    if leb less_len_v2 readable
    then (if data_type == request_type || data_type == request_oneway_type
        then (if leb request_header_len_v2 readable
            then (if leb (request_size bs) readable
                then frame (request_size bs) (v2_request (request_of bs data_type))
                else waiting)
            else waiting)
        else (if data_type == response_type
            then (if leb response_header_len_v2 readable
                then (if leb (response_size bs) readable
                    then undrained (v2_response (response_of now bs data_type))
                    else waiting)
                else waiting)
            else unknown_type))
    else waiting

unfoldable pub decode : ℤ → IoBuffer → IoBuffer × Decoded
unfolding find_command deliver buffered
decode now b = deliver b (find_command now (buffered b) (bytes b))
