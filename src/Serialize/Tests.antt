-- ===== src/Serialize/Tests.antt =====
-- simple.go: runs of the model, and the theorems at concrete maps.
use psh_mosn.Base.{◌≡◌, ◌≢◌, refl, [], ◌∷◌, arith}
use psh_mosn.Serialize.{
  StringMap, encode_map, decode_map, decode_key, read_int32, decoded, failed, panicked, out_of_fuel,
  not_enough_bytes,
}
use psh_mosn.Serialize.RoundTrip.{decode-encode_map, decode_map-ends}

-- {"a": "bc", "d": ""}
abbrev two_entries : StringMap
two_entries = (97 ∷ [], 98 ∷ 99 ∷ []) ∷ (100 ∷ [], []) ∷ []

-- The byte slice of the encoder is followed by a byte of something else in its array.
decode-encode_map_example : decode_map (encode_map two_entries) (7 ∷ []) [] ≡ decoded two_entries
decode-encode_map_example =
    decode-encode_map two_entries (7 ∷ []) ((refl, tt), (tt, tt))
      (omega arith, omega arith, (omega arith, omega arith, tt))

-- A key that claims more bytes than there are, with a map that holds an entry already.
decode_map-ends_example : decode_map (0 ∷ 0 ∷ 0 ∷ 200 ∷ 97 ∷ []) (1 ∷ []) two_entries ≢ out_of_fuel
decode_map-ends_example = decode_map-ends (0 ∷ 0 ∷ 0 ∷ 200 ∷ 97 ∷ []) (1 ∷ []) two_entries

-- Such a key is a panic, and a length that is cut off an error.
long_key : decode_map (0 ∷ 0 ∷ 0 ∷ 200 ∷ 97 ∷ []) [] [] ≡ panicked
unfolding decode_map decode_key read_int32
long_key = refl

cut_off : decode_map (0 ∷ 0 ∷ []) [] [] ≡ failed [] not_enough_bytes
unfolding decode_map decode_key read_int32
cut_off = refl

-- A value may reach into what lies behind the slice, and then the loop ends.
spare_bytes :
    decode_map (0 ∷ 0 ∷ 0 ∷ 1 ∷ 97 ∷ 0 ∷ 0 ∷ 0 ∷ 2 ∷ 98 ∷ []) (99 ∷ []) []
    ≡ decoded ((97 ∷ [], 98 ∷ 99 ∷ []) ∷ [])
unfolding decode_map decode_key read_int32
spare_bytes = refl
