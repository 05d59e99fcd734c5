-- ===== src/Sofarpc/BoltV2/Mapping.antt =====
-- boltv2codec.go: `mapToCmd` and `EncodeHeaders`.
use psh_mosn.Base.{Option, some, ◌≡◌, inl, inr, refl, ltb, if◌then◌else◌, length, Bool-cases}
use psh_mosn.Base.Strings.{str_eq}
use psh_mosn.Serialize.{StringMap}
use psh_mosn.Sofarpc.{
  Command, BoltRequestCommand, BoltResponseCommand, v1_request, v1_response, v2_request,
  v2_response,
}
use psh_mosn.Sofarpc.Adapter.{
  PropertyValue, Kinds, uint8, get_property_value, header_version1, header_switch_code,
}
use psh_mosn.Sofarpc.BoltV1.Mapping.{
  Mapped, no_command, panicked, by_pointer, by_value, pointer_or_panic, as_byte, ◌>>=◌, NoValue,
  map_to_cmd-NoValue, map_to_cmd as map_to_cmd_v1, property_headers as property_headers_v1, Headers,
  header_map, header_command, other_headers, Encoded, invalid_command_type, encode_panic, of_buffer,
}
use psh_mosn.Sofarpc.BoltV2.{do_encode_request_command, do_encode_response_command}

-- BoltV2PropertyHeaders
unfoldable pub property_headers : Kinds
unfolding property_headers_v1
property_headers name =
    if str_eq name header_version1
    then uint8
    else (if str_eq name header_switch_code then uint8 else property_headers_v1 name)

-- The literals of the version 2 commands; a property that is not a byte panics.
abbrev v2_request_of :
    BoltRequestCommand → Option PropertyValue → Option PropertyValue → Option Command
v2_request_of c ver1 switchcode = do
  version ← as_byte ver1
  switch ← as_byte switchcode
  some (v2_request (record { command = c; version1 = version; switch_code = switch }))

abbrev v2_response_of :
    BoltResponseCommand → Option PropertyValue → Option PropertyValue → Option Command
v2_response_of c ver1 switchcode = do
  version ← as_byte ver1
  switch ← as_byte switchcode
  some (v2_response (record { command = c; version1 = version; switch_code = switch }))

-- `cmdV1.(sofarpc.BoltRequestCommand)` and `cmdV1.(sofarpc.BoltResponseCommand)`: both name a struct
-- type, so that they hold of a command by its value only.
unfoldable assert_struct : Mapped → Option PropertyValue → Option PropertyValue → Mapped
assert_struct panicked ver1 switchcode = panicked
assert_struct (by_value (v1_request c)) ver1 switchcode =
    pointer_or_panic (v2_request_of c ver1 switchcode)
assert_struct (by_value (v1_response c)) ver1 switchcode =
    pointer_or_panic (v2_response_of c ver1 switchcode)
assert_struct _ ver1 switchcode = no_command

unfoldable pub map_to_cmd : StringMap → StringMap × Mapped
unfolding map_to_cmd_v1 property_headers assert_struct
map_to_cmd headers =
    let (h1, cmd_v1) = map_to_cmd_v1 headers in
    let (h2, ver1) = get_property_value property_headers h1 header_version1 in
    let (h3, switchcode) = get_property_value property_headers h2 header_switch_code in
    if ltb (length headers) 12
    then (headers, no_command)
    else (h3, assert_struct cmd_v1 ver1 switchcode)

unfoldable pub encode_command : Command → Encoded
encode_command (v2_request c) = of_buffer (do_encode_request_command c)
encode_command (v2_response c) = of_buffer (do_encode_response_command c)
encode_command _ = invalid_command_type

abbrev encode_mapped : Mapped → Encoded
encode_mapped no_command = invalid_command_type
encode_mapped panicked = encode_panic
encode_mapped (by_pointer c) = encode_command c
encode_mapped (by_value c) = invalid_command_type

unfoldable pub encode_headers : Headers → Encoded
unfolding encode_command map_to_cmd
encode_headers (header_map m) = encode_mapped (map_to_cmd m).1
encode_headers (header_command c) = encode_command c
encode_headers other_headers = invalid_command_type

-- The result where the assertions fail: the error for an invalid command, or the panic of the
-- version 1 mapping.
abbrev pub refused : Mapped → Encoded
refused panicked = encode_panic
refused _ = invalid_command_type

-- Nothing is left of a command that does not come by its value.
encode_mapped-assert_struct :
    (c : Mapped) (ver1 switchcode : Option PropertyValue)
    → NoValue c
    → encode_mapped (assert_struct c ver1 switchcode) ≡ refused c
unfolding assert_struct
encode_mapped-assert_struct no_command ver1 switchcode h = refl
encode_mapped-assert_struct panicked ver1 switchcode h = refl
encode_mapped-assert_struct (by_pointer c) ver1 switchcode h = refl
encode_mapped-assert_struct (by_value c) ver1 switchcode h = absurd h

-- The version 2 codec never encodes a header map, since the version 1 mapping returns pointers only
-- and the version 2 mapping takes nothing but the structs themselves: of fewer than 12 headers it
-- makes the error for an invalid command, and of others that error too, unless the version 1 mapping
-- panics.
pub encode_headers-header_map :
    (m : StringMap)
    → encode_headers (header_map m)
      ≡ (if ltb (length m) 12 then invalid_command_type else refused (map_to_cmd_v1 m).1)
unfolding encode_headers
encode_headers-header_map m = elim (Bool-cases (ltb (length m) 12)) [
  | inl few ↦ rw few refl
  | inr many ↦ rw many (encode_mapped-assert_struct (map_to_cmd_v1 m).1 _ _ (map_to_cmd-NoValue m))
]
