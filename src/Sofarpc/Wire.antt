-- ===== src/Sofarpc/Wire.antt =====
-- What the two Bolt codecs share: encoding/binary.BigEndian, the writes of a frame into a buffer, and
-- the outcome of a call of Decode.
use psh_mosn.Base.{
  ℕ, suc, ◌+◌, ◌≤◌, ◌*◌, ◌/◌, ◌%◌, ◌<◌, ◌≡◌, refl, ap, ◌∙◌, Option, none, some, List, [], ◌∷◌, ◌++◌,
  arith, length, take, drop, get_or, take_prefix, drop_prefix, drop-drop, Bool-cases, inl, inr,
  ltb→lt, sym, if◌then◌else◌, ltb, lt→ltb,
}
use mathlib.Core.List.{append_assoc, append-nil}
use psh_mosn.Base.Int.{
  ℤ, pos, negsuc, is_positive, to_u16, to_u32, to_i16, IsI16, to_i16-to_u16, ◌+ℤ◌, pos-+ℤ,
}
use psh_mosn.Buffer.{IoBuffer, bytes, write, drain, new_io_buffer, Inv}
use psh_mosn.Buffer.Writing.{write_lem, length-bytes}
use psh_mosn.Sofarpc.{Command}

-- binary.BigEndian.PutUint16 and PutUint32, on values of their types.
abbrev pub put_u16 : ℕ → List ℕ
put_u16 n = n / 256 ∷ n % 256 ∷ []

abbrev pub put_u32 : ℕ → List ℕ
put_u32 n = n / 16777216 ∷ n / 65536 % 256 ∷ n / 256 % 256 ∷ n % 256 ∷ []

-- binary.BigEndian.Uint16(bytes[i:i+2]) and Uint32(bytes[i:i+4])
abbrev pub u16_at : List ℕ → ℕ → ℕ
u16_at bs i = get_or bs i 0 * 256 + get_or bs (i + 1) 0

abbrev pub u32_at : List ℕ → ℕ → ℕ
u32_at bs i =
    get_or bs i 0 * 16777216
    + get_or bs (i + 1) 0 * 65536
    + get_or bs (i + 2) 0 * 256
    + get_or bs (i + 3) 0

-- bytes[from : from+count]
abbrev pub slice : List ℕ → ℕ → ℕ → List ℕ
slice bs from count = take count (drop from bs)

-- The writes of a frame, one after the other.
unfoldable pub write_all : IoBuffer → List (List ℕ) → IoBuffer
write_all b [] = b
write_all b (p ∷ ps) = write_all (write b p).0 ps

abbrev pub concat : List (List ℕ) → List ℕ
concat [] = []
concat (p ∷ ps) = p ++ concat ps

pub bytes-write_all :
    (ps : List (List ℕ)) (b : IoBuffer) → Inv b → bytes (write_all b ps) ≡ bytes b ++ concat ps
unfolding write_all
bytes-write_all [] b v = rw (append-nil (bytes b))
bytes-write_all (p ∷ ps) b v =
    let (same, count, valid) = write_lem b p v in
    bytes-write_all ps (write b p).0 valid
    ∙ ap (λ q. q ++ concat ps) same
    ∙ append_assoc (bytes b) p (concat ps)

-- sofarpc.GetBuffer without a pool in the context; `none` is the panic of make at a negative size.
unfoldable pub get_buffer : ℤ → Option IoBuffer
get_buffer (pos size) = some (new_io_buffer size)
get_buffer (negsuc n) = none

new_io_buffer-Inv : (n : ℕ) → Inv (new_io_buffer n)
unfolding new_io_buffer
new_io_buffer-Inv n = record { within = omega arith; behind = omega arith; nil_empty = λ e. cc }

-- A buffer of the size that the encoders ask for, where the class length is not negative.
pub encoder_buffer :
    (k c h : ℕ) (class_len : ℤ)
    → class_len ≡ pos c
    → get_buffer (pos k +ℤ class_len +ℤ pos h) ≡ some (new_io_buffer (k + c + h))
unfolding get_buffer
encoder_buffer k c h class_len e = rw (e, pos-+ℤ k c, pos-+ℤ (k + c) h) refl

pub bytes-encoder :
    (n : ℕ) (ps : List (List ℕ)) → bytes (write_all (new_io_buffer n) ps) ≡ concat ps
bytes-encoder n ps =
    bytes-write_all ps (new_io_buffer n) (new_io_buffer-Inv n) ∙ unfold new_io_buffer in refl

-- What a call of Decode finds: not enough bytes (no command and no error), a type byte that is not
-- known, a command with the number of bytes that it drains, or a command for which nothing is drained.
pub data Found : Type 0 where
  waiting unknown_type : Found
  frame : ℕ → Command → Found
  undrained : Command → Found

pub data Decoded : Type 0 where
  no_command decode_error : Decoded
  command : Command → Decoded

unfoldable pub deliver : IoBuffer → Found → IoBuffer × Decoded
deliver b waiting = (b, no_command)
deliver b unknown_type = (b, decode_error)
deliver b (frame read c) = (drain b read, command c)
deliver b (undrained c) = (b, command c)

-- `if cmd.ClassLen > 0 { buf.Write(cmd.ClassName) }` and the same for the header map.
abbrev pub tail_writes : ℤ → List ℕ → List ℕ → List (List ℕ)
tail_writes class_len class_name header_map =
    (if is_positive class_len then class_name ∷ [] else [])
    ++ (if ltb 0 (length header_map) then header_map ∷ [] else [])

pub concat-tail_writes :
    (class headers : List ℕ)
    → concat (tail_writes (pos (length class)) class headers) ≡ class ++ headers
concat-tail_writes [] [] = refl
concat-tail_writes [] (h ∷ hs) = rw (lt→ltb 0 (suc (length hs)) (omega arith), append-nil hs) refl
concat-tail_writes (c ∷ cs) [] = rw (lt→ltb 0 (suc (length cs)) (omega arith)) refl
concat-tail_writes (c ∷ cs) (h ∷ hs) =
    rw
      (
        lt→ltb 0 (suc (length cs)) (omega arith),
        lt→ltb 0 (suc (length hs)) (omega arith),
        append-nil hs,
      )
      refl

-- A number put together again from its bytes.
pub word16 : (n : ℕ) → n / 256 * 256 + n % 256 ≡ n
word16 n = omega arith

pub word32 :
    (n : ℕ) → n / 16777216 * 16777216 + n / 65536 % 256 * 65536 + n / 256 % 256 * 256 + n % 256 ≡ n
word32 n = omega arith

pub to_u16-pos : (z : ℤ) (n : ℕ) → z ≡ pos n → n < 65536 → to_u16 z ≡ n
to_u16-pos z n e h = rw e (omega arith)

pub to_u32-pos : (z : ℤ) (n : ℕ) → z ≡ pos n → n < 4294967296 → to_u32 z ≡ n
to_u32-pos z n e h = rw e (omega arith)

pub i16_at : (z : ℤ) → IsI16 z → to_i16 (to_u16 z / 256 * 256 + to_u16 z % 256) ≡ z
i16_at z h = ap to_i16 (word16 (to_u16 z)) ∙ to_i16-to_u16 z h

-- A frame: the header and the parts behind it.
abbrev pub framed : List ℕ → List ℕ → List ℕ → List ℕ → List ℕ → List ℕ
framed header class headers content rest = header ++ (class ++ (headers ++ (content ++ rest)))

-- The parts of a body, found behind a header of k bytes by their lengths.
module _ (header class headers content rest : List ℕ) (k c h n : ℕ) (ek : k ≡ length header)
    (ec : c ≡ length class) (eh : h ≡ length headers) (en : n ≡ length content) where
  pub slice_class : slice (framed header class headers content rest) k c ≡ class
  slice_class =
      rw (drop_prefix header (class ++ (headers ++ (content ++ rest))) k ek)
        (take_prefix class (headers ++ (content ++ rest)) c ec)

  pub slice_headers : slice (framed header class headers content rest) (k + c) h ≡ headers
  slice_headers =
      rw
        (
          ← drop-drop k c (k + c) (framed header class headers content rest) refl,
          drop_prefix header (class ++ (headers ++ (content ++ rest))) k ek,
          drop_prefix class (headers ++ (content ++ rest)) c ec,
        )
        (take_prefix headers (content ++ rest) h eh)

  drop_content : drop (k + c + h) (framed header class headers content rest) ≡ content ++ rest
  drop_content =
      rw
        (
          ← drop-drop (k + c) h (k + c + h) (framed header class headers content rest) refl,
          ← drop-drop k c (k + c) (framed header class headers content rest) refl,
          drop_prefix header (class ++ (headers ++ (content ++ rest))) k ek,
          drop_prefix class (headers ++ (content ++ rest)) c ec,
        )
        (drop_prefix headers (content ++ rest) h eh)

  pub slice_content : slice (framed header class headers content rest) (k + c + h) n ≡ content
  slice_content = rw drop_content (take_prefix content rest n en)

  pub drop_frame : drop (k + c + h + n) (framed header class headers content rest) ≡ rest
  drop_frame =
      rw
        (
          ← drop-drop (k + c + h) n (k + c + h + n) (framed header class headers content rest) refl,
          drop_content,
        )
        (drop_prefix content rest n en)

-- A buffer whose first bytes are delivered as a frame keeps the others.
pub deliver-frame :
    (d : IoBuffer) (n : ℕ) (c : Command) (bs : List ℕ)
    → Inv d
    → bytes d ≡ bs
    → n ≤ length bs
    → (bytes (deliver d (frame n c)).0 ≡ drop n bs)
      × ((deliver d (frame n c)).1 ≡ command c)
      × Inv (deliver d (frame n c)).0
unfolding deliver drain
deliver-frame d n c bs v same h = elim (Bool-cases (ltb d.len (d.off + n))) [
  | inl far ↦ absurd (omega (arith, ltb→lt _ _ far, length-bytes d v, ap length same))
  | inr near ↦ rw near (
    sym (drop-drop d.off n (d.off + n) (take d.len d.arr) refl) ∙ ap (drop n) same,
    refl,
    record { within = v.within; behind = ground (arith, v); nil_empty = v.nil_empty },
  )
]

pub deliver-undrained : (d : IoBuffer) (c : Command) → deliver d (undrained c) ≡ (d, command c)
unfolding deliver
deliver-undrained d c = refl
