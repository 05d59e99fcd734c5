-- ===== src/Sofarpc/BoltV1/Responses.antt =====
-- boltv1codec.go: what the decoder makes of an encoded response.
use psh_mosn.Base.{
  ℕ, ◌+◌, ◌-◌, ◌≤◌, ◌<◌, ◌≡◌, refl, sym, ap, ◌∙◌, some, List, [], ◌∷◌, ◌++◌, arith, length, get_or,
  length-append, some_eq, le→leb,
}
use mathlib.Core.List.{append_assoc}
use mathlib.Core.Option
use psh_mosn.Base.Int.{ℤ, pos, to_u16, to_u32, to_i16, IsI16, to_i16-pos}
use psh_mosn.Buffer.{IoBuffer, bytes, buffered, new_io_buffer, Inv}
use psh_mosn.Buffer.Writing.{length-bytes}
use psh_mosn.Sofarpc.{BoltResponseCommand, v1_response, protocol_code_v1}
use psh_mosn.Sofarpc.Wire.{
  put_u16, put_u32, u16_at, u32_at, write_all, concat, frame, command, framed, concat-tail_writes,
  word16, word32, to_u16-pos, to_u32-pos, i16_at, slice_class, slice_headers, slice_content,
  drop_frame, encoder_buffer, bytes-encoder, deliver-frame,
}
use psh_mosn.Sofarpc.BoltV1.{
  response_writes, do_encode_response_command, response_size, response_of, find_command, decode,
}

-- The fields are in the range of their types, and the lengths are those of the parts.
pub record IsResponse (cmd : BoltResponseCommand) : Type 0 where
  pub is_response : cmd.cmd_type ≡ 0
  pub code : IsI16 cmd.cmd_code
  pub id : cmd.req_id < 4294967296
  pub status : IsI16 cmd.response_status
  pub class_fits : (cmd.class_len ≡ pos (length cmd.class_name)) × (length cmd.class_name < 32768)
  pub header_fits :
      (cmd.header_len ≡ to_i16 (length cmd.header_map)) × (length cmd.header_map < 65536)
  pub content_fits :
      (cmd.content_len ≡ pos (length cmd.content)) × (length cmd.content < 4294967296)

-- The 20 bytes in front, and the parts behind them.
abbrev pub response_head : BoltResponseCommand → List ℕ
response_head cmd =
    cmd.protocol
    ∷ cmd.cmd_type
    ∷ (put_u16 (to_u16 cmd.cmd_code)
        ++ (cmd.version
            ∷ (put_u32 cmd.req_id
                ++ (cmd.codec_pro
                    ∷ (put_u16 (to_u16 cmd.response_status)
                        ++ (put_u16 (to_u16 cmd.class_len)
                            ++ (put_u16 (to_u16 (pos (length cmd.header_map)))
                                ++ put_u32 (to_u32 cmd.content_len))))))))

abbrev pub response_wire : BoltResponseCommand → List ℕ → List ℕ
response_wire cmd rest = framed (response_head cmd) cmd.class_name cmd.header_map cmd.content rest

concat-response_writes :
    (cmd : BoltResponseCommand)
    → cmd.class_len ≡ pos (length cmd.class_name)
    → concat (response_writes cmd) ≡ response_head cmd ++ (cmd.class_name ++ cmd.header_map)
concat-response_writes cmd e = rw e (
    ap (λ q. response_head (record cmd { class_len = pos (length cmd.class_name) }) ++ q)
      (concat-tail_writes cmd.class_name cmd.header_map))

find_response :
    (now : ℤ) (readable : ℕ) (bs : List ℕ)
    → 20 ≤ readable
    → response_size bs ≤ readable
    → get_or bs 1 0 ≡ 0
    → find_command now readable bs
      ≡ frame (response_size bs) (v1_response (response_of now bs (get_or bs 1 0)))
unfolding find_command
find_response now readable bs h k e = rw (le→leb 20 readable h, le→leb _ readable k, e) refl

module _ (cmd : BoltResponseCommand) (rest : List ℕ) (now : ℤ) (v : IsResponse cmd) where
  class_at : u16_at (response_wire cmd rest) 12 ≡ length cmd.class_name
  class_at = word16 _ ∙ to_u16-pos cmd.class_len _ v.class_fits.0 (omega (arith, v.class_fits.1))

  header_at : u16_at (response_wire cmd rest) 14 ≡ length cmd.header_map
  header_at = word16 _ ∙ to_u16-pos _ (length cmd.header_map) refl v.header_fits.1

  content_at : u32_at (response_wire cmd rest) 16 ≡ length cmd.content
  content_at = word32 _ ∙ to_u32-pos cmd.content_len _ v.content_fits.0 v.content_fits.1

  status_at : to_i16 (u16_at (response_wire cmd rest) 10) ≡ cmd.response_status
  status_at = i16_at cmd.response_status v.status

  response_size-wire :
      response_size (response_wire cmd rest)
      ≡ 20 + length cmd.class_name + length cmd.header_map + length cmd.content
  unfolding response_size
  response_size-wire = omega (arith, class_at, header_at, content_at)

  length-response_wire :
      length (response_wire cmd rest)
      ≡ 20 + length cmd.class_name + length cmd.header_map + length cmd.content + length rest
  length-response_wire = omega (
    arith,
    length-append cmd.class_name (cmd.header_map ++ (cmd.content ++ rest)),
    length-append cmd.header_map (cmd.content ++ rest),
    length-append cmd.content rest,
  )

  -- The command as it comes back: version 1 and the time are written into it, and the header map is not parsed yet.
  abbrev decoded_response : BoltResponseCommand
  decoded_response = record cmd {
    protocol = protocol_code_v1;
    response_time_millis = now;
    response_header = [];
  }

  response_of-wire : response_of now (response_wire cmd rest) cmd.cmd_type ≡ decoded_response
  unfolding response_of
  response_of-wire = λ i. record {
    protocol = protocol_code_v1;
    cmd_type = cmd.cmd_type;
    cmd_code = i16_at cmd.cmd_code v.code i;
    version = cmd.version;
    req_id = word32 cmd.req_id i;
    codec_pro = cmd.codec_pro;
    response_status = status_at i;
    class_len = (ap to_i16 class_at ∙ class_len_of) i;
    header_len = (ap to_i16 header_at ∙ sym v.header_fits.0) i;
    content_len = (ap pos content_at ∙ sym v.content_fits.0) i;
    class_name =
        slice_class (response_head cmd) cmd.class_name cmd.header_map cmd.content rest 20 _ _ _ refl
          class_at header_at content_at i;
    header_map =
        slice_headers (response_head cmd) cmd.class_name cmd.header_map cmd.content rest 20 _ _ _
          refl class_at header_at content_at i;
    content =
        slice_content (response_head cmd) cmd.class_name cmd.header_map cmd.content rest 20 _ _ _
          refl class_at header_at content_at i;
    response_time_millis = now;
    response_header = [];
  }
    where
      class_len_of : to_i16 (length cmd.class_name) ≡ cmd.class_len
      class_len_of = to_i16-pos _ v.class_fits.1 ∙ sym v.class_fits.0

  -- What is proved of a response holds of the decoder's whole input.
  find_command-response_wire :
      find_command now (length (response_wire cmd rest)) (response_wire cmd rest)
      ≡ frame
          (20 + length cmd.class_name + length cmd.header_map + length cmd.content)
          (v1_response decoded_response)
  find_command-response_wire =
      find_response now _ (response_wire cmd rest) (omega (arith, length-response_wire))
        (omega (arith, length-response_wire, response_size-wire)) v.is_response
      ∙ λ i. frame (response_size-wire i) (v1_response (response_of-wire i))

-- A response that is in range is encoded: the encoder does not panic, and its buffer holds the header
-- and the parts that it writes.
pub encode-response_total :
    (cmd : BoltResponseCommand)
    → IsResponse cmd
    → (e : IoBuffer) × (do_encode_response_command cmd ≡ some e)
      × (bytes e ≡ response_head cmd ++ (cmd.class_name ++ cmd.header_map))
unfolding do_encode_response_command
encode-response_total cmd v = (
  write_all (new_io_buffer (20 + length cmd.class_name + length cmd.header_map))
      (response_writes cmd),
  ap (Option.map (λ buf. write_all buf (response_writes cmd))) (
      encoder_buffer 20 (length cmd.class_name) (length cmd.header_map) cmd.class_len
        v.class_fits.0),
  bytes-encoder _ (response_writes cmd) ∙ concat-response_writes cmd v.class_fits.0,
)

-- Whatever follows the encoded bytes and the content, the buffer starts with the frame.
pub bytes-response_wire :
    (cmd : BoltResponseCommand) (rest : List ℕ) (d e : IoBuffer)
    → IsResponse cmd
    → do_encode_response_command cmd ≡ some e
    → bytes d ≡ bytes e ++ (cmd.content ++ rest)
    → bytes d ≡ response_wire cmd rest
bytes-response_wire cmd rest d e v enc same =
    let (e', enc', written) = encode-response_total cmd v in
    same
    ∙ ap (λ q. q ++ (cmd.content ++ rest)) (ap bytes (some_eq (sym enc ∙ enc')) ∙ written)
    ∙ append_assoc (response_head cmd) (cmd.class_name ++ cmd.header_map) (cmd.content ++ rest)
    ∙ ap (λ q. response_head cmd ++ q)
        (append_assoc cmd.class_name cmd.header_map (cmd.content ++ rest))

-- From a buffer that holds an encoded response, its content and more, the decoder takes exactly these
-- bytes and returns the response, with the protocol code 1 and the time written into it and no parsed header.
pub decode-encode_response :
    (cmd : BoltResponseCommand) (rest : List ℕ) (now : ℤ) (d e : IoBuffer)
    → IsResponse cmd
    → do_encode_response_command cmd ≡ some e
    → Inv d
    → bytes d ≡ bytes e ++ (cmd.content ++ rest)
    → (bytes (decode now d).0 ≡ rest)
      × ((decode now d).1
          ≡ command (
              v1_response (record cmd {
                protocol = protocol_code_v1;
                response_time_millis = now;
                response_header = [];
              })))
      × Inv (decode now d).0
unfolding decode buffered
decode-encode_response cmd rest now d e v enc inv same =
    let all = bytes-response_wire cmd rest d e v enc same in
    let size = 20 + length cmd.class_name + length cmd.header_map + length cmd.content in
    let seen : find_command now (d.len - d.off) (bytes d) ≡ frame size (v1_response _) =
      rw (← length-bytes d inv, all) (find_command-response_wire cmd rest now v) in
    let (left, got, valid) =
      deliver-frame d size _ (response_wire cmd rest) inv all
        (omega (arith, length-response_wire cmd rest now v)) in
    rw seen (
      left
          ∙ drop_frame (response_head cmd) cmd.class_name cmd.header_map cmd.content rest 20 _ _ _
              refl refl refl refl,
      got,
      valid,
    )
