-- ===== src/Sofarpc/Adapter.antt =====
-- pkg/protocol/sofarpc/adapter.go: the properties of a command as strings in a header map, with the
-- parts of strconv that it calls. An error of strconv is dropped by the source; the value counts.
pub mod Parsing
use psh_mosn.Base.{
  ℕ, zero, suc, ◌+◌, ◌-◌, ◌*◌, ◌^◌, Bool, true, false, ◌&&◌, ◌||◌, Option, none, some, List, [],
  ◌∷◌, ltb, leb, ◌==◌, if◌then◌else◌,
}
use psh_mosn.Base.Int.{ℤ, pos, negsuc}
use psh_mosn.Base.Strings.{GoString, text, str_eq, lookup, delete}
use psh_mosn.Serialize.{StringMap}

abbrev pub header_protocol_code : GoString
header_protocol_code = text "protocol"

abbrev pub header_cmd_type : GoString
header_cmd_type = text "cmdtype"

abbrev pub header_cmd_code : GoString
header_cmd_code = text "cmdcode"

abbrev pub header_version : GoString
header_version = text "version"

abbrev pub header_req_id : GoString
header_req_id = text "requestid"

abbrev pub header_codec : GoString
header_codec = text "codec"

abbrev pub header_timeout : GoString
header_timeout = text "timeout"

abbrev pub header_class_len : GoString
header_class_len = text "classlen"

abbrev pub header_header_len : GoString
header_header_len = text "headerlen"

abbrev pub header_content_len : GoString
header_content_len = text "contentlen"

abbrev pub header_class_name : GoString
header_class_name = text "classname"

abbrev pub header_version1 : GoString
header_version1 = text "ver1"

abbrev pub header_switch_code : GoString
header_switch_code = text "switchcode"

abbrev pub header_resp_status : GoString
header_resp_status = text "respstatus"

abbrev pub header_resp_time_mills : GoString
header_resp_time_mills = text "resptimemills"

-- reflect.Kind, as far as it is tested for; `invalid` is the zero of a missing entry.
pub data Kind : Type 0 where
  uint8 uint16 uint32 uint64 int8 int16 int int64 invalid : Kind

-- The dynamic types of a property's value.
pub data PropertyValue : Type 0 where
  byte_value u16_value u32_value u64_value : ℕ → PropertyValue
  i8_value i16_value int_value i64_value : ℤ → PropertyValue
  text_value : GoString → PropertyValue

-- strconv.ParseUint(s, 10, bits): 0 at a character that is no digit, the largest value on overflow,
-- whichever comes first from the left.
unfoldable pub parse_digits : ℕ → ℕ → List ℕ → ℕ
parse_digits most n [] = n
parse_digits most n (c ∷ cs) =
    let n' = n * 10 + (c - b'0') in
    let rest = parse_digits most n' cs in
    if ltb c b'0' || ltb b'9' c then 0 else (if ltb most n' then most else rest)

unfoldable pub parse_uint : GoString → ℕ → ℕ
unfolding parse_digits
parse_uint s bits = parse_digits (2 ^ bits - 1) 0 s

-- -n as an integer
abbrev negate : ℕ → ℤ
negate zero = pos 0
negate (suc n) = negsuc n

abbrev signed : Bool → ℕ → ℕ → ℤ
signed false cutoff n = if leb cutoff n then pos (cutoff - 1) else pos n
signed true cutoff n = if ltb cutoff n then negate cutoff else negate n

-- strconv.ParseInt(s, 10, bits), with its sign and its range.
unfoldable pub parse_int : GoString → ℕ → ℤ
unfolding parse_uint
parse_int [] bits = pos 0
parse_int (c ∷ cs) bits =
    let cutoff = 2 ^ (bits - 1) in
    if c == b'-'
    then signed true cutoff (parse_uint cs bits)
    else (if c == b'+'
        then signed false cutoff (parse_uint cs bits)
        else signed false cutoff (parse_uint (c ∷ cs) bits))

unfoldable pub convert_property_value : GoString → Kind → PropertyValue
unfolding parse_uint parse_int
convert_property_value s uint8 = byte_value (parse_uint s 8)
convert_property_value s uint16 = u16_value (parse_uint s 16)
convert_property_value s uint32 = u32_value (parse_uint s 32)
convert_property_value s uint64 = u64_value (parse_uint s 64)
convert_property_value s int8 = i8_value (parse_int s 8)
convert_property_value s int16 = i16_value (parse_int s 16)
convert_property_value s int = int_value (parse_int s 32)
convert_property_value s int64 = i64_value (parse_int s 64)
convert_property_value s invalid = text_value s

unfoldable pub sofa_property_header : GoString → GoString
sofa_property_header name = name

-- A map[string]reflect.Kind, as a function.
abbrev pub Kinds : Type 0
Kinds = GoString → Kind

abbrev plain_property : Option GoString → Kind → StringMap → StringMap × Option PropertyValue
plain_property none k headers = (headers, none)
plain_property (some v) k headers = (headers, some (convert_property_value v k))

abbrev found_property :
    Option GoString → Kinds → StringMap → GoString → StringMap × Option PropertyValue
found_property (some v) kinds headers name =
    (delete (sofa_property_header name) headers, some (convert_property_value v (kinds name)))
found_property none kinds headers name = plain_property (lookup name headers) (kinds name) headers

-- The map afterwards, since a property that is found is deleted from it, and the value; nil is `none`.
unfoldable pub get_property_value : Kinds → StringMap → GoString → StringMap × Option PropertyValue
unfolding sofa_property_header convert_property_value
get_property_value kinds headers name =
    found_property (lookup (sofa_property_header name) headers) kinds headers name

-- `IsSofaRequest`; the value of a missing key is the empty string.
abbrev or_empty : Option GoString → GoString
or_empty none = []
or_empty (some s) = s

unfoldable pub is_sofa_request : StringMap → Bool
unfolding parse_uint
is_sofa_request headers =
    let procode = parse_uint (or_empty (lookup header_protocol_code headers)) 8 in
    let cmdtype = parse_uint (or_empty (lookup header_cmd_type headers)) 8 in
    (procode == 1 || procode == 2) && cmdtype == 1
