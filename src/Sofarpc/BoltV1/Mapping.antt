-- ===== src/Sofarpc/BoltV1/Mapping.antt =====
-- boltv1codec.go: `mapToCmd` and `EncodeHeaders`, from a header map to a command and its bytes.
use psh_mosn.Base.{
  Bool-cases, inl, inr, ℕ, Bool, false, ◌||◌, Option, none, some, [], ltb, if◌then◌else◌, length,
}
use psh_mosn.Base.Int.{ℤ, eq_ℤ}
use psh_mosn.Base.Strings.{str_eq}
use psh_mosn.Buffer.{IoBuffer}
use psh_mosn.Serialize.{StringMap, Value, nil, of_string, of_map, serialize}
use psh_mosn.Sofarpc.{Command, v1_request, v1_response, heartbeat, rpc_request, rpc_response}
use psh_mosn.Sofarpc.Adapter.{
  uint8, uint32, int16, int, int64, invalid, Kinds, PropertyValue, byte_value, u32_value, i16_value,
  int_value, i64_value, text_value, get_property_value, header_protocol_code, header_cmd_type,
  header_cmd_code, header_version, header_req_id, header_codec, header_timeout, header_class_len,
  header_header_len, header_content_len, header_class_name, header_resp_status,
  header_resp_time_mills,
}
use psh_mosn.Sofarpc.BoltV1.{do_encode_request_command, do_encode_response_command}

-- BoltV1PropertyHeaders
unfoldable pub property_headers : Kinds
property_headers name =
    if str_eq name header_protocol_code
    then uint8
    else (if str_eq name header_cmd_type
        then uint8
        else (if str_eq name header_cmd_code
            then int16
            else (if str_eq name header_version
                then uint8
                else (if str_eq name header_req_id
                    then uint32
                    else (if str_eq name header_codec
                        then uint8
                        else (if str_eq name header_class_len
                            then int16
                            else (if str_eq name header_header_len
                                then int16
                                else (if str_eq name header_content_len
                                    then int
                                    else (if str_eq name header_timeout
                                        then int
                                        else (if str_eq name header_resp_status
                                            then int16
                                            else (if str_eq name header_resp_time_mills
                                                then int64
                                                else invalid)))))))))))

-- Type assertions on a property; `none` is the panic of one that fails.
abbrev pub as_byte : Option PropertyValue → Option ℕ
as_byte (some (byte_value n)) = some n
as_byte _ = none

abbrev pub as_u32 : Option PropertyValue → Option ℕ
as_u32 (some (u32_value n)) = some n
as_u32 _ = none

abbrev pub as_i16 : Option PropertyValue → Option ℤ
as_i16 (some (i16_value n)) = some n
as_i16 _ = none

abbrev pub as_int : Option PropertyValue → Option ℤ
as_int (some (int_value n)) = some n
as_int _ = none

abbrev pub as_i64 : Option PropertyValue → Option ℤ
as_i64 (some (i64_value n)) = some n
as_i64 _ = none

-- `cmdCode == c`, an interface against an int16.
abbrev pub is_code : Option PropertyValue → ℤ → Bool
is_code (some (i16_value n)) c = eq_ℤ n c
is_code _ c = false

-- The property as a value that `Serialize` is called with.
abbrev pub as_value : Option PropertyValue → Value
as_value none = nil
as_value (some (text_value s)) = of_string s
as_value (some _) = Value.other_value

infixl 5 ◌>>=◌
abbrev pub ◌>>=◌ : {A B : Type 0} → Option A → (A → Option B) → Option B
none >>= f = none
some a >>= f = f a

-- The interface value that `mapToCmd` returns, or its panic. `no_command` is nil; a command is held by
-- its pointer or, which a type assertion tells from that, by its value.
pub data Mapped : Type 0 where
  no_command panicked : Mapped
  by_pointer by_value : Command → Mapped

-- `&BoltRequestCommand{...}`
abbrev pub pointer_or_panic : Option Command → Mapped
pointer_or_panic none = panicked
pointer_or_panic (some c) = by_pointer c

-- The properties that both kinds of command have.
record Properties : Type 0 where
  protocol_code : Option PropertyValue
  cmd_type : Option PropertyValue
  cmd_code : Option PropertyValue
  version : Option PropertyValue
  request_id : Option PropertyValue
  codec : Option PropertyValue
  class_length : Option PropertyValue
  header_length : Option PropertyValue
  content_length : Option PropertyValue
  class_name : Option PropertyValue

-- They are taken from the map one after the other.
take_properties : StringMap → StringMap × Properties
unfolding property_headers
take_properties headers =
    let (h1, protocol_code) = get_property_value property_headers headers header_protocol_code in
    let (h2, cmd_type) = get_property_value property_headers h1 header_cmd_type in
    let (h3, cmd_code) = get_property_value property_headers h2 header_cmd_code in
    let (h4, version) = get_property_value property_headers h3 header_version in
    let (h5, request_id) = get_property_value property_headers h4 header_req_id in
    let (h6, codec) = get_property_value property_headers h5 header_codec in
    let (h7, class_length) = get_property_value property_headers h6 header_class_len in
    let (h8, header_length) = get_property_value property_headers h7 header_header_len in
    let (h9, content_length) = get_property_value property_headers h8 header_content_len in
    let (h10, class_name) = get_property_value property_headers h9 header_class_name in
    (
      h10,
      record {
        protocol_code = protocol_code;
        cmd_type = cmd_type;
        cmd_code = cmd_code;
        version = version;
        request_id = request_id;
        codec = codec;
        class_length = class_length;
        header_length = header_length;
        content_length = content_length;
        class_name = class_name;
      },
    )

-- The literal of a request: `none` where one of its type assertions panics.
request_of_properties : Properties → Option PropertyValue → StringMap → Option Command
request_of_properties p timeout headers = do
  code ← as_byte p.protocol_code
  kind ← as_byte p.cmd_type
  cmd ← as_i16 p.cmd_code
  version ← as_byte p.version
  id ← as_u32 p.request_id
  codec ← as_byte p.codec
  time ← as_int timeout
  class_len ← as_i16 p.class_length
  header_len ← as_i16 p.header_length
  content_len ← as_int p.content_length
  some (
      v1_request (record {
        protocol = code;
        cmd_type = kind;
        cmd_code = cmd;
        version = version;
        req_id = id;
        codec_pro = codec;
        timeout = time;
        class_len = class_len;
        header_len = header_len;
        content_len = content_len;
        class_name = serialize (as_value p.class_name);
        header_map = serialize (of_map headers);
        content = [];
        request_header = [];
      }))

response_of_properties :
    Properties → Option PropertyValue → Option PropertyValue → StringMap → Option Command
response_of_properties p response_status response_time headers = do
  code ← as_byte p.protocol_code
  kind ← as_byte p.cmd_type
  cmd ← as_i16 p.cmd_code
  version ← as_byte p.version
  id ← as_u32 p.request_id
  codec ← as_byte p.codec
  status ← as_i16 response_status
  class_len ← as_i16 p.class_length
  header_len ← as_i16 p.header_length
  content_len ← as_int p.content_length
  millis ← as_i64 response_time
  some (
      v1_response (record {
        protocol = code;
        cmd_type = kind;
        cmd_code = cmd;
        version = version;
        req_id = id;
        codec_pro = codec;
        response_status = status;
        class_len = class_len;
        header_len = header_len;
        content_len = content_len;
        class_name = serialize (as_value p.class_name);
        header_map = serialize (of_map headers);
        content = [];
        response_time_millis = millis;
        response_header = [];
      }))

-- The header map afterwards, without the properties that were taken from it, and the command.
unfoldable pub map_to_cmd : StringMap → StringMap × Mapped
unfolding property_headers take_properties request_of_properties response_of_properties
map_to_cmd headers =
    let (rest, p) = take_properties headers in
    let (h, timeout) = get_property_value property_headers rest header_timeout in
    let (r, response_status) = get_property_value property_headers rest header_resp_status in
    let (r', response_time) = get_property_value property_headers r header_resp_time_mills in
    if ltb (length headers) 10
    then (headers, no_command)
    else (if is_code p.cmd_code rpc_request
        then (h, pointer_or_panic (request_of_properties p timeout h))
        else (if is_code p.cmd_code rpc_response || is_code p.cmd_code heartbeat
            then (r', pointer_or_panic (response_of_properties p response_status response_time r'))
            else (rest, no_command)))

-- What the codecs are given as headers, and what they return: a buffer, an error, or a panic.
pub data Headers : Type 0 where
  header_map : StringMap → Headers
  header_command : Command → Headers
  other_headers : Headers

pub data Encoded : Type 0 where
  encoded : IoBuffer → Encoded
  invalid_command_type no_protocol_code invalid_header_type unsupported_protocol encode_panic :
      Encoded

abbrev pub of_buffer : Option IoBuffer → Encoded
of_buffer none = encode_panic
of_buffer (some b) = encoded b

unfoldable pub encode_command : Command → Encoded
encode_command (v1_request c) = of_buffer (do_encode_request_command c)
encode_command (v1_response c) = of_buffer (do_encode_response_command c)
encode_command _ = invalid_command_type

abbrev encode_mapped : Mapped → Encoded
encode_mapped no_command = invalid_command_type
encode_mapped panicked = encode_panic
encode_mapped (by_pointer c) = encode_command c
encode_mapped (by_value c) = invalid_command_type

unfoldable pub encode_headers : Headers → Encoded
unfolding encode_command map_to_cmd
encode_headers (header_map m) = encode_mapped (map_to_cmd m).1
encode_headers (header_command c) = encode_command c
encode_headers other_headers = invalid_command_type

-- No command by its value.
abbrev pub NoValue : Mapped → Type 0
NoValue (by_value c) = ⊥
NoValue _ = Unit {0}

pointer_or_panic-NoValue : (o : Option Command) → NoValue (pointer_or_panic o)
pointer_or_panic-NoValue none = tt
pointer_or_panic-NoValue (some c) = tt

-- The version 1 mapping returns a command by its pointer only.
pub map_to_cmd-NoValue : (headers : StringMap) → NoValue (map_to_cmd headers).1
unfolding map_to_cmd
map_to_cmd-NoValue headers =
    let code = (take_properties headers).1.cmd_code in
    elim (Bool-cases (ltb (length headers) 10)) [
      | inl few ↦ rw few tt
      | inr many ↦ elim (Bool-cases (is_code code rpc_request)) [
        | inl e ↦ rw (many, e) (pointer_or_panic-NoValue _)
        | inr e ↦ elim (Bool-cases (is_code code rpc_response || is_code code heartbeat)) [
          | inl f ↦ rw (many, e, f) (pointer_or_panic-NoValue _)
          | inr f ↦ rw (many, e, f) tt
        ]
      ]
    ]
