-- ===== src/Sofarpc/BoltV2/Responses.antt =====
-- boltv2codec.go: what the decoder makes of an encoded response.
use psh_mosn.Base.{
  ℕ, ◌+◌, ◌-◌, ◌≤◌, ◌≡◌, refl, sym, ap, ◌∙◌, some, List, [], ◌∷◌, ◌++◌, arith, length, get_or,
  length-append, some_eq, le→leb,
}
use mathlib.Core.List.{append_assoc}
use mathlib.Core.Option
use psh_mosn.Base.Int.{ℤ, pos, to_u16, to_u32, to_i16, to_i16-pos}
use psh_mosn.Buffer.{IoBuffer, bytes, buffered, new_io_buffer, Inv}
use psh_mosn.Buffer.Writing.{length-bytes}
use psh_mosn.Sofarpc.{BoltV2ResponseCommand, v2_response, protocol_code_v1}
use psh_mosn.Sofarpc.Wire.{
  put_u16, put_u32, u16_at, u32_at, write_all, concat, undrained, command, deliver, framed,
  concat-tail_writes, word16, word32, to_u16-pos, to_u32-pos, i16_at, slice_class, slice_headers,
  slice_content, encoder_buffer, bytes-encoder, deliver-undrained,
}
use psh_mosn.Sofarpc.BoltV1.Responses.{IsResponse}
use psh_mosn.Sofarpc.BoltV2.{
  response_writes, do_encode_response_command, response_size, response_of, find_command, decode,
}

-- The 22 bytes in front, and the parts behind them.
abbrev pub response_head : BoltV2ResponseCommand → List ℕ
response_head cmd =
    cmd.command.protocol
    ∷ cmd.version1
    ∷ cmd.command.cmd_type
    ∷ (put_u16 (to_u16 cmd.command.cmd_code)
        ++ (cmd.command.version
            ∷ (put_u32 cmd.command.req_id
                ++ (cmd.command.codec_pro
                    ∷ (cmd.switch_code
                        ∷ (put_u16 (to_u16 cmd.command.response_status)
                            ++ (put_u16 (to_u16 cmd.command.class_len)
                                ++ (put_u16 (to_u16 (pos (length cmd.command.header_map)))
                                    ++ put_u32 (to_u32 cmd.command.content_len)))))))))

abbrev pub response_wire : BoltV2ResponseCommand → List ℕ → List ℕ
response_wire cmd rest =
    framed (response_head cmd) cmd.command.class_name cmd.command.header_map cmd.command.content
      rest

concat-response_writes :
    (cmd : BoltV2ResponseCommand)
    → cmd.command.class_len ≡ pos (length cmd.command.class_name)
    → concat (response_writes cmd)
      ≡ response_head cmd ++ (cmd.command.class_name ++ cmd.command.header_map)
concat-response_writes cmd e = rw e (
    ap
      (λ q.
        response_head (record cmd {
          command = record (cmd.command) { class_len = pos (length cmd.command.class_name) };
        })
        ++ q)
      (concat-tail_writes cmd.command.class_name cmd.command.header_map))

find_response :
    (now : ℤ) (readable : ℕ) (bs : List ℕ)
    → 22 ≤ readable
    → response_size bs ≤ readable
    → get_or bs 2 0 ≡ 0
    → find_command now readable bs ≡ undrained (v2_response (response_of now bs (get_or bs 2 0)))
unfolding find_command
find_response now readable bs h k e = rw (le→leb 22 readable h, le→leb _ readable k, e) refl

module _ (cmd : BoltV2ResponseCommand) (rest : List ℕ) (now : ℤ) (v : IsResponse cmd.command) where
  class_at : u16_at (response_wire cmd rest) 14 ≡ length cmd.command.class_name
  class_at =
      word16 _ ∙ to_u16-pos cmd.command.class_len _ v.class_fits.0 (omega (arith, v.class_fits.1))

  header_at : u16_at (response_wire cmd rest) 16 ≡ length cmd.command.header_map
  header_at = word16 _ ∙ to_u16-pos _ (length cmd.command.header_map) refl v.header_fits.1

  content_at : u32_at (response_wire cmd rest) 18 ≡ length cmd.command.content
  content_at = word32 _ ∙ to_u32-pos cmd.command.content_len _ v.content_fits.0 v.content_fits.1

  status_at : to_i16 (u16_at (response_wire cmd rest) 12) ≡ cmd.command.response_status
  status_at = i16_at cmd.command.response_status v.status

  response_size-wire :
      response_size (response_wire cmd rest)
      ≡ 22
        + length cmd.command.class_name
        + length cmd.command.header_map
        + length cmd.command.content
  unfolding response_size
  response_size-wire = omega (arith, class_at, header_at, content_at)

  length-response_wire :
      length (response_wire cmd rest)
      ≡ 22
        + length cmd.command.class_name
        + length cmd.command.header_map
        + length cmd.command.content
        + length rest
  length-response_wire = omega (
    arith,
    length-append cmd.command.class_name (cmd.command.header_map ++ (cmd.command.content ++ rest)),
    length-append cmd.command.header_map (cmd.command.content ++ rest),
    length-append cmd.command.content rest,
  )

  -- The command as it comes back: version 1 and the time are written into it, and the header map is not parsed yet.
  abbrev decoded_response : BoltV2ResponseCommand
  decoded_response = record cmd {
    command = record (cmd.command) {
      protocol = protocol_code_v1;
      response_time_millis = now;
      response_header = [];
    };
  }

  response_of-wire :
      response_of now (response_wire cmd rest) cmd.command.cmd_type ≡ decoded_response
  unfolding response_of
  response_of-wire = λ i. record {
    command = record {
      protocol = protocol_code_v1;
      cmd_type = cmd.command.cmd_type;
      cmd_code = i16_at cmd.command.cmd_code v.code i;
      version = cmd.command.version;
      req_id = word32 cmd.command.req_id i;
      codec_pro = cmd.command.codec_pro;
      response_status = status_at i;
      class_len = (ap to_i16 class_at ∙ class_len_of) i;
      header_len = (ap to_i16 header_at ∙ sym v.header_fits.0) i;
      content_len = (ap pos content_at ∙ sym v.content_fits.0) i;
      class_name =
          slice_class (response_head cmd) cmd.command.class_name cmd.command.header_map
            cmd.command.content rest 22 _ _ _ refl class_at header_at content_at i;
      header_map =
          slice_headers (response_head cmd) cmd.command.class_name cmd.command.header_map
            cmd.command.content rest 22 _ _ _ refl class_at header_at content_at i;
      content =
          slice_content (response_head cmd) cmd.command.class_name cmd.command.header_map
            cmd.command.content rest 22 _ _ _ refl class_at header_at content_at i;
      response_time_millis = now;
      response_header = [];
    };
    version1 = cmd.version1;
    switch_code = cmd.switch_code;
  }
    where
      class_len_of : to_i16 (length cmd.command.class_name) ≡ cmd.command.class_len
      class_len_of = to_i16-pos _ v.class_fits.1 ∙ sym v.class_fits.0

  find_command-response_wire :
      find_command now (length (response_wire cmd rest)) (response_wire cmd rest)
      ≡ undrained (v2_response decoded_response)
  find_command-response_wire =
      find_response now _ (response_wire cmd rest) (omega (arith, length-response_wire))
        (omega (arith, length-response_wire, response_size-wire)) v.is_response
      ∙ λ i. undrained (v2_response (response_of-wire i))

-- A response that is in range is encoded: the encoder does not panic, and its buffer holds the header
-- and the parts that it writes.
pub encode-response_total :
    (cmd : BoltV2ResponseCommand)
    → IsResponse cmd.command
    → (e : IoBuffer) × (do_encode_response_command cmd ≡ some e)
      × (bytes e ≡ response_head cmd ++ (cmd.command.class_name ++ cmd.command.header_map))
unfolding do_encode_response_command
encode-response_total cmd v = (
  write_all (new_io_buffer (20 + length cmd.command.class_name + length cmd.command.header_map))
      (response_writes cmd),
  ap (Option.map (λ buf. write_all buf (response_writes cmd))) (
      encoder_buffer 20 (length cmd.command.class_name) (length cmd.command.header_map)
        cmd.command.class_len v.class_fits.0),
  bytes-encoder _ (response_writes cmd) ∙ concat-response_writes cmd v.class_fits.0,
)

-- Whatever follows the encoded bytes and the content, the buffer starts with the frame.
pub bytes-response_wire :
    (cmd : BoltV2ResponseCommand) (rest : List ℕ) (d e : IoBuffer)
    → IsResponse cmd.command
    → do_encode_response_command cmd ≡ some e
    → bytes d ≡ bytes e ++ (cmd.command.content ++ rest)
    → bytes d ≡ response_wire cmd rest
bytes-response_wire cmd rest d e v enc same =
    let (e', enc', written) = encode-response_total cmd v in
    same
    ∙ ap (λ q. q ++ (cmd.command.content ++ rest)) (ap bytes (some_eq (sym enc ∙ enc')) ∙ written)
    ∙ append_assoc (response_head cmd) (cmd.command.class_name ++ cmd.command.header_map)
        (cmd.command.content ++ rest)
    ∙ ap (λ q. response_head cmd ++ q)
        (append_assoc cmd.command.class_name cmd.command.header_map (cmd.command.content ++ rest))

-- From a buffer that holds an encoded version 2 response, its content and more, the decoder returns
-- the response, with the protocol code 1 and the time written into it and no parsed header, and takes
-- nothing: the buffer is the one that it was given, where the branch for requests drains the frame.
-- As with requests, neither side has the CRC32 of the doc comment, whatever ver1 is.
pub decode-encode_response_v2 :
    (cmd : BoltV2ResponseCommand) (rest : List ℕ) (now : ℤ) (d e : IoBuffer)
    → IsResponse cmd.command
    → do_encode_response_command cmd ≡ some e
    → Inv d
    → bytes d ≡ bytes e ++ (cmd.command.content ++ rest)
    → decode now d ≡ (
      d,
      command (
          v2_response (record cmd {
            command = record (cmd.command) {
              protocol = protocol_code_v1;
              response_time_millis = now;
              response_header = [];
            };
          })),
    )
unfolding decode buffered
decode-encode_response_v2 cmd rest now d e v enc inv same =
    let all = bytes-response_wire cmd rest d e v enc same in
    let seen : find_command now (d.len - d.off) (bytes d)
        ≡ undrained (v2_response (decoded_response cmd rest now v)) =
      rw (← length-bytes d inv, all) (find_command-response_wire cmd rest now v) in
    ap (deliver d) seen ∙ deliver-undrained d _
