-- ===== src/Serialize/RoundTrip.antt =====
-- simple.go: a header map comes back from its bytes, whatever stands behind them in the array.
use mathlib.Core.List.{append_assoc, append-nil}
use psh_mosn.Base.{
  ℕ, zero, suc, ◌≤◌, ◌<◌, ◌≡◌, ◌≢◌, refl, ap, ◌∙◌, inl, inr, false, Option, none, some, List, [],
  ◌∷◌, ◌++◌, arith, ltb, ltb→lt, Bool-cases, length, take, drop, length-append, length-drop,
  take_prefix, drop_prefix,
}
use psh_mosn.Base.Strings.{Fresh, Fresh-step, Fresh-nil, GoString, insert, insert-Absent, Unique}
use psh_mosn.Serialize.{
  StringMap, put_len, encode_map, read_int32, DecodedMap, decoded, out_of_fuel, decode_key,
  decode_value, decode_map_loop, decode_map,
}

-- Lengths are below 2^32, as PutUint32 needs.
abbrev pub Fits : StringMap → Type 0
Fits [] = Unit {0}
Fits ((k, v) ∷ m) = (length k < 4294967296) × (length v < 4294967296) × Fits m

read-put_len : (n : ℕ) (rest : List ℕ) → n < 4294967296 → read_int32 (put_len n ++ rest) ≡ some n
unfolding read_int32
read-put_len n rest h = elim (Bool-cases (ltb (length (put_len n ++ rest)) 4)) [
  | inl short ↦ absurd (omega (arith, ltb→lt _ _ short))
  | inr long ↦ rw long (ap some (omega arith))
]

not_short : (a b : ℕ) → b ≤ a → ltb a b ≡ false
not_short a b h = ground arith

-- One entry, with anything behind it.
module _ (k v rest spare : List ℕ) (acc : StringMap) (again : List ℕ → StringMap → DecodedMap)
    (hk : length k < 4294967296) (hv : length v < 4294967296) where
  abbrev value_part : List ℕ
  value_part = put_len (length v) ++ (v ++ rest)

  decode_value-encoded :
      decode_value (some (length v)) (v ++ rest) spare k acc again ≡ again rest (insert k v acc)
  unfolding decode_value
  decode_value-encoded =
      rw
        (
          not_short (length ((v ++ rest) ++ spare)) (length v)
              (omega (arith, length-append (v ++ rest) spare, length-append v rest)),
          drop_prefix v rest (length v) refl,
          append_assoc v rest spare,
          take_prefix v (rest ++ spare) (length v) refl,
        )
        refl

  decode_key-encoded :
      decode_key
        (read_int32 (put_len (length k) ++ (k ++ value_part)))
        (k ++ value_part)
        spare
        acc
        again
      ≡ again rest (insert k v acc)
  unfolding decode_key
  decode_key-encoded =
      rw
        (
          read-put_len (length k) (k ++ value_part) hk,
          not_short (length (k ++ value_part)) (length k)
              (omega (arith, length-append k value_part)),
          drop_prefix k value_part (length k) refl,
          take_prefix k value_part (length k) refl,
          read-put_len (length v) (v ++ rest) hv,
        )
        decode_value-encoded

decode_map_loop-encode :
    (m : StringMap) (fuel : ℕ) (spare : List ℕ) (acc : StringMap)
    → Unique m
    → Fits m
    → Fresh m acc
    → length (encode_map m) ≤ fuel
    → decode_map_loop fuel (encode_map m) spare acc ≡ decoded (acc ++ m)
unfolding encode_map decode_map_loop
decode_map_loop-encode [] fuel spare acc u f n h = rw (append-nil acc) refl
decode_map_loop-encode ((k, v) ∷ m) zero spare acc u f n h = absurd (omega arith)
decode_map_loop-encode ((k, v) ∷ m) (suc fuel) spare acc u f n h =
    decode_key-encoded k v (encode_map m) spare acc (λ b r. decode_map_loop fuel b spare r) f.0 f.1
    ∙ rw (insert-Absent k v acc n.0) (
        decode_map_loop-encode m fuel spare (acc ++ (k, v) ∷ []) u.1 f.2
          (Fresh-step m acc k v u.0 n.1)
          (omega (
            arith,
            length-append k (put_len (length v) ++ (v ++ encode_map m)),
            length-append v (encode_map m),
          ))
        ∙ ap decoded (append_assoc acc ((k, v) ∷ []) m))

-- A map whose keys are distinct and whose strings are shorter than 2^32 bytes comes back from its
-- bytes, entry by entry, whatever stands behind the bytes in their array; no fuel runs out.
pub decode-encode_map :
    (m : StringMap) (spare : List ℕ)
    → Unique m
    → Fits m
    → decode_map (encode_map m) spare [] ≡ decoded m
unfolding decode_map
decode-encode_map m spare u f =
    decode_map_loop-encode m (length (encode_map m)) spare [] u f (Fresh-nil m) (omega arith)

module _ (spare : List ℕ) (acc : StringMap) (again : List ℕ → StringMap → DecodedMap) where
  -- `again` ends on what is at most `n` bytes long.
  abbrev Ends : ℕ → Type 0
  Ends n = (b : List ℕ) (r : StringMap) → length b ≤ n → again b r ≢ out_of_fuel

  decode_value-Ends :
      (o : Option ℕ) (rest : List ℕ) (key : GoString)
      → Ends (length rest)
      → decode_value o rest spare key acc again ≢ out_of_fuel
  unfolding decode_value
  decode_value-Ends none rest key h = λ e. cc
  decode_value-Ends (some n) rest key h = elim (Bool-cases (ltb (length (rest ++ spare)) n)) [
    | inl far ↦ rw far (λ e. cc)
    | inr near ↦ rw near (h (drop n rest) _ (omega (arith, length-drop n rest)))
  ]

  decode_key-Ends :
      (o : Option ℕ) (rest : List ℕ)
      → Ends (length rest)
      → decode_key o rest spare acc again ≢ out_of_fuel
  unfolding decode_key
  decode_key-Ends none rest h = λ e. cc
  decode_key-Ends (some n) rest h = elim (Bool-cases (ltb (length rest) n)) [
    | inl far ↦ rw far (λ e. cc)
    | inr near ↦ rw near (
        decode_value-Ends (read_int32 (drop n rest)) (drop 4 (drop n rest)) (take n rest)
          (λ b r le. h b r (omega (arith, le, length-drop 4 (drop n rest), length-drop n rest))))
  ]

decode_map_loop-ends :
    (fuel : ℕ) (b spare : List ℕ) (acc : StringMap)
    → length b ≤ fuel
    → decode_map_loop fuel b spare acc ≢ out_of_fuel
unfolding decode_map_loop
decode_map_loop-ends fuel [] spare acc h = λ e. cc
decode_map_loop-ends zero (x ∷ b) spare acc h = absurd (omega arith)
decode_map_loop-ends (suc fuel) (x ∷ b) spare acc h =
    decode_key-Ends spare acc _ (read_int32 (x ∷ b)) (drop 4 (x ∷ b))
      (λ b' r le. decode_map_loop-ends fuel b' spare r (omega (arith, le, length-drop 4 (x ∷ b))))

-- On any bytes, with anything behind them and any map to start from, the loop of `decodeMap` ends
-- within as many rounds as there are bytes.
pub decode_map-ends : (b spare : List ℕ) (acc : StringMap) → decode_map b spare acc ≢ out_of_fuel
unfolding decode_map
decode_map-ends b spare acc = decode_map_loop-ends (length b) b spare acc (omega arith)
