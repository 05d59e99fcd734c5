-- ===== src/Serialize.antt =====
-- pkg/protocol/serialize/simple.go: the header maps of SOFARPC as bytes. A value of type interface{}
-- is one of the dynamic types that the code tests for.
pub mod RoundTrip
mod Tests
use psh_mosn.Base.{
  ℕ, zero, suc, ◌+◌, ◌*◌, ◌/◌, ◌%◌, Option, none, some, List, [], ◌∷◌, ◌++◌, ltb, ◌==◌,
  if◌then◌else◌, length, take, drop, get_or,
}
use psh_mosn.Base.Strings.{GoString, insert}

abbrev pub StringMap : Type 0
StringMap = List (GoString × GoString)

pub data Value : Type 0 where
  nil other_value : Value
  of_string : GoString → Value
  of_map : StringMap → Value
  of_bytes : List ℕ → Value

-- A length as PutUint32 writes it: uint32(len), big endian.
abbrev pub put_len : ℕ → List ℕ
put_len n = let w = n % 4294967296 in w / 16777216 ∷ w / 65536 % 256 ∷ w / 256 % 256 ∷ w % 256 ∷ []

unfoldable pub encode_map : StringMap → List ℕ
encode_map [] = []
encode_map ((key, value) ∷ m) =
    put_len (length key) ++ (key ++ (put_len (length value) ++ (value ++ encode_map m)))

unfoldable pub encode_bytes : List ℕ → List ℕ
encode_bytes v = put_len (length v) ++ v

unfoldable pub serialize : Value → List ℕ
unfolding encode_map encode_bytes
serialize nil = 0 ∷ []
serialize (of_string s) = s
serialize (of_map m) = encode_map m
serialize (of_bytes v) = 3 ∷ encode_bytes v
serialize other_value = []

pub data Error : Type 0 where
  not_enough_bytes multi_value : Error

unfoldable pub read_int32 : List ℕ → Option ℕ
read_int32 b =
    if ltb (length b) 4
    then none
    else some (get_or b 0 0 * 16777216 + get_or b 1 0 * 65536 + get_or b 2 0 * 256 + get_or b 3 0)

-- How `decodeMap` ends, with the entries that are in the map by then.
pub data DecodedMap : Type 0 where
  decoded : StringMap → DecodedMap
  failed : StringMap → Error → DecodedMap
  panicked out_of_fuel : DecodedMap

-- One entry of the loop, from its value on: `rest` is b[index:] behind the value's length, and
-- `spare` the bytes behind the end of the slice in its array, into which the value may reach.
unfoldable pub decode_value :
    Option ℕ
    → List ℕ
    → List ℕ
    → GoString
    → StringMap
    → (List ℕ → StringMap → DecodedMap)
    → DecodedMap
decode_value none rest spare key result again = failed result not_enough_bytes
decode_value (some value_len) rest spare key result again =
    let value = take value_len (rest ++ spare) in
    let more = again (drop value_len rest) (insert key value result) in
    if ltb (length (rest ++ spare)) value_len then panicked else more

-- One entry from its key on. A key that reaches behind the end of the slice makes the next b[index:]
-- panic.
unfoldable pub decode_key :
    Option ℕ → List ℕ → List ℕ → StringMap → (List ℕ → StringMap → DecodedMap) → DecodedMap
unfolding decode_value
decode_key none rest spare result again = failed result not_enough_bytes
decode_key (some key_len) rest spare result again =
    let after_key = drop key_len rest in
    if ltb (length rest) key_len
    then panicked
    else decode_value (read_int32 after_key) (drop 4 after_key) spare (take key_len rest) result
        again

unfoldable pub decode_map_loop : ℕ → List ℕ → List ℕ → StringMap → DecodedMap
decode_map_loop fuel [] spare result = decoded result
decode_map_loop zero (x ∷ b) spare result = out_of_fuel
decode_map_loop (suc fuel) (x ∷ b) spare result =
    decode_key (read_int32 (x ∷ b)) (drop 4 (x ∷ b)) spare result
      (λ b' r. decode_map_loop fuel b' spare r)

-- Each round takes at least eight bytes, so the length of the slice is fuel enough.
unfoldable pub decode_map : List ℕ → List ℕ → StringMap → DecodedMap
unfolding decode_map_loop
decode_map b spare result = decode_map_loop (length b) b spare result

-- The pointer that `DeSerialize` is given.
pub data Target : Type 0 where
  string_target other_target : Target
  map_target : StringMap → Target

pub data Deserialized : Type 0 where
  nothing : Deserialized
  a_string : GoString → Deserialized
  a_map : StringMap → Deserialized
  an_error : Error → Deserialized
  a_panic : Deserialized

abbrev of_decoded : DecodedMap → Deserialized
of_decoded (decoded m) = a_map m
of_decoded (failed m e) = an_error e
of_decoded panicked = a_panic
of_decoded out_of_fuel = a_panic

unfoldable pub deserialize : List ℕ → List ℕ → Target → Deserialized
deserialize [] spare v = nothing
deserialize (x ∷ b) spare string_target = a_string (x ∷ b)
deserialize (x ∷ b) spare (map_target m) = of_decoded (decode_map (x ∷ b) spare m)
deserialize (x ∷ b) spare other_target = nothing

-- `SerializeMulti`: nil for no value.
unfoldable pub serialize_multi : List Value → Option (List ℕ)
serialize_multi [] = some []
serialize_multi (v ∷ []) = some (serialize v)
serialize_multi (v ∷ w ∷ vs) = none
