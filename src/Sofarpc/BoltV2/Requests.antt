-- ===== src/Sofarpc/BoltV2/Requests.antt =====
-- boltv2codec.go: what the decoder makes of an encoded request.
use psh_mosn.Base.{
  ℕ, ◌+◌, ◌-◌, ◌≤◌, ◌≡◌, refl, sym, ap, ◌∙◌, ◌⊎◌, inl, inr, some, List, [], ◌∷◌, ◌++◌, arith,
  length, get_or, length-append, some_eq, le→leb,
}
use mathlib.Core.List.{append_assoc}
use mathlib.Core.Option
use psh_mosn.Base.Int.{ℤ, pos, to_u16, to_u32, to_i16, to_i16-pos}
use psh_mosn.Buffer.{IoBuffer, bytes, buffered, new_io_buffer, Inv}
use psh_mosn.Buffer.Writing.{length-bytes}
use psh_mosn.Sofarpc.{BoltV2RequestCommand, v2_request, protocol_code_v1}
use psh_mosn.Sofarpc.Wire.{
  put_u16, put_u32, u16_at, u32_at, write_all, concat, frame, command, framed, concat-tail_writes,
  word16, word32, to_u16-pos, to_u32-pos, i16_at, slice_class, slice_headers, slice_content,
  drop_frame, encoder_buffer, bytes-encoder, deliver-frame,
}
use psh_mosn.Sofarpc.BoltV1.Requests.{IsRequest}
use psh_mosn.Sofarpc.BoltV2.{
  request_writes, do_encode_request_command, request_size, request_of, find_command, decode,
}

-- The 24 bytes in front, and the parts behind them.
abbrev pub request_head : BoltV2RequestCommand → List ℕ
request_head cmd =
    cmd.command.protocol
    ∷ cmd.version1
    ∷ cmd.command.cmd_type
    ∷ (put_u16 (to_u16 cmd.command.cmd_code)
        ++ (cmd.command.version
            ∷ (put_u32 cmd.command.req_id
                ++ (cmd.command.codec_pro
                    ∷ (cmd.switch_code
                        ∷ (put_u32 (to_u32 cmd.command.timeout)
                            ++ (put_u16 (to_u16 cmd.command.class_len)
                                ++ (put_u16 (to_u16 (pos (length cmd.command.header_map)))
                                    ++ put_u32 (to_u32 cmd.command.content_len)))))))))

abbrev pub request_wire : BoltV2RequestCommand → List ℕ → List ℕ
request_wire cmd rest =
    framed (request_head cmd) cmd.command.class_name cmd.command.header_map cmd.command.content rest

concat-request_writes :
    (cmd : BoltV2RequestCommand)
    → cmd.command.class_len ≡ pos (length cmd.command.class_name)
    → concat (request_writes cmd)
      ≡ request_head cmd ++ (cmd.command.class_name ++ cmd.command.header_map)
concat-request_writes cmd e = rw e (
    ap
      (λ q.
        request_head (record cmd {
          command = record (cmd.command) { class_len = pos (length cmd.command.class_name) };
        })
        ++ q)
      (concat-tail_writes cmd.command.class_name cmd.command.header_map))

find_request :
    (now : ℤ) (readable : ℕ) (bs : List ℕ)
    → 24 ≤ readable
    → request_size bs ≤ readable
    → (get_or bs 2 0 ≡ 1) ⊎ (get_or bs 2 0 ≡ 2)
    → find_command now readable bs
      ≡ frame (request_size bs) (v2_request (request_of bs (get_or bs 2 0)))
unfolding find_command
find_request now readable bs h k (inl e) =
    rw (le→leb 22 readable (omega arith), le→leb 24 readable h, le→leb _ readable k, e) refl
find_request now readable bs h k (inr e) =
    rw (le→leb 22 readable (omega arith), le→leb 24 readable h, le→leb _ readable k, e) refl

module _ (cmd : BoltV2RequestCommand) (rest : List ℕ) (v : IsRequest cmd.command) where
  class_at : u16_at (request_wire cmd rest) 16 ≡ length cmd.command.class_name
  class_at =
      word16 _ ∙ to_u16-pos cmd.command.class_len _ v.class_fits.0 (omega (arith, v.class_fits.1))

  header_at : u16_at (request_wire cmd rest) 18 ≡ length cmd.command.header_map
  header_at = word16 _ ∙ to_u16-pos _ (length cmd.command.header_map) refl v.header_fits.1

  content_at : u32_at (request_wire cmd rest) 20 ≡ length cmd.command.content
  content_at = word32 _ ∙ to_u32-pos cmd.command.content_len _ v.content_fits.0 v.content_fits.1

  timeout_at : pos (u32_at (request_wire cmd rest) 12) ≡ cmd.command.timeout
  timeout_at =
      let (t, e, h) = v.time in ap pos (word32 _ ∙ to_u32-pos cmd.command.timeout t e h) ∙ sym e

  request_size-wire :
      request_size (request_wire cmd rest)
      ≡ 24
        + length cmd.command.class_name
        + length cmd.command.header_map
        + length cmd.command.content
  unfolding request_size
  request_size-wire = omega (arith, class_at, header_at, content_at)

  length-request_wire :
      length (request_wire cmd rest)
      ≡ 24
        + length cmd.command.class_name
        + length cmd.command.header_map
        + length cmd.command.content
        + length rest
  length-request_wire = omega (
    arith,
    length-append cmd.command.class_name (cmd.command.header_map ++ (cmd.command.content ++ rest)),
    length-append cmd.command.header_map (cmd.command.content ++ rest),
    length-append cmd.command.content rest,
  )

  -- The command as it comes back: version 1 is written into it, and the header map is not parsed yet.
  abbrev decoded_request : BoltV2RequestCommand
  decoded_request = record cmd {
    command = record (cmd.command) { protocol = protocol_code_v1; request_header = [] };
  }

  request_of-wire : request_of (request_wire cmd rest) cmd.command.cmd_type ≡ decoded_request
  unfolding request_of
  request_of-wire = λ i. record {
    command = record {
      protocol = protocol_code_v1;
      cmd_type = cmd.command.cmd_type;
      cmd_code = i16_at cmd.command.cmd_code v.code i;
      version = cmd.command.version;
      req_id = word32 cmd.command.req_id i;
      codec_pro = cmd.command.codec_pro;
      timeout = timeout_at i;
      class_len = (ap to_i16 class_at ∙ class_len_of) i;
      header_len = (ap to_i16 header_at ∙ sym v.header_fits.0) i;
      content_len = (ap pos content_at ∙ sym v.content_fits.0) i;
      class_name =
          slice_class (request_head cmd) cmd.command.class_name cmd.command.header_map
            cmd.command.content rest 24 _ _ _ refl class_at header_at content_at i;
      header_map =
          slice_headers (request_head cmd) cmd.command.class_name cmd.command.header_map
            cmd.command.content rest 24 _ _ _ refl class_at header_at content_at i;
      content =
          slice_content (request_head cmd) cmd.command.class_name cmd.command.header_map
            cmd.command.content rest 24 _ _ _ refl class_at header_at content_at i;
      request_header = [];
    };
    version1 = cmd.version1;
    switch_code = cmd.switch_code;
  }
    where
      class_len_of : to_i16 (length cmd.command.class_name) ≡ cmd.command.class_len
      class_len_of = to_i16-pos _ v.class_fits.1 ∙ sym v.class_fits.0

  -- What is proved of a request holds of the decoder's whole input.
  find_command-request_wire :
      (now : ℤ)
      → find_command now (length (request_wire cmd rest)) (request_wire cmd rest)
        ≡ frame
            (24
              + length cmd.command.class_name
              + length cmd.command.header_map
              + length cmd.command.content)
            (v2_request decoded_request)
  find_command-request_wire now =
      find_request now _ (request_wire cmd rest) (omega (arith, length-request_wire))
        (omega (arith, length-request_wire, request_size-wire)) v.is_request
      ∙ λ i. frame (request_size-wire i) (v2_request (request_of-wire i))

-- A request that is in range is encoded: the encoder does not panic, and its buffer holds the header
-- and the parts that it writes.
pub encode-request_total :
    (cmd : BoltV2RequestCommand)
    → IsRequest cmd.command
    → (e : IoBuffer) × (do_encode_request_command cmd ≡ some e)
      × (bytes e ≡ request_head cmd ++ (cmd.command.class_name ++ cmd.command.header_map))
unfolding do_encode_request_command
encode-request_total cmd v = (
  write_all (new_io_buffer (22 + length cmd.command.class_name + length cmd.command.header_map))
      (request_writes cmd),
  ap (Option.map (λ buf. write_all buf (request_writes cmd))) (
      encoder_buffer 22 (length cmd.command.class_name) (length cmd.command.header_map)
        cmd.command.class_len v.class_fits.0),
  bytes-encoder _ (request_writes cmd) ∙ concat-request_writes cmd v.class_fits.0,
)

-- Whatever follows the encoded bytes and the content, the buffer starts with the frame.
pub bytes-request_wire :
    (cmd : BoltV2RequestCommand) (rest : List ℕ) (d e : IoBuffer)
    → IsRequest cmd.command
    → do_encode_request_command cmd ≡ some e
    → bytes d ≡ bytes e ++ (cmd.command.content ++ rest)
    → bytes d ≡ request_wire cmd rest
bytes-request_wire cmd rest d e v enc same =
    let (e', enc', written) = encode-request_total cmd v in
    same
    ∙ ap (λ q. q ++ (cmd.command.content ++ rest)) (ap bytes (some_eq (sym enc ∙ enc')) ∙ written)
    ∙ append_assoc (request_head cmd) (cmd.command.class_name ++ cmd.command.header_map)
        (cmd.command.content ++ rest)
    ∙ ap (λ q. request_head cmd ++ q)
        (append_assoc cmd.command.class_name cmd.command.header_map (cmd.command.content ++ rest))

pub decode-encode_request_v2 :
    (cmd : BoltV2RequestCommand) (rest : List ℕ) (now : ℤ) (d e : IoBuffer)
    → IsRequest cmd.command
    → do_encode_request_command cmd ≡ some e
    → Inv d
    → bytes d ≡ bytes e ++ (cmd.command.content ++ rest)
    → (bytes (decode now d).0 ≡ rest)
      × ((decode now d).1
          ≡ command (
              v2_request (record cmd {
                command = record (cmd.command) { protocol = protocol_code_v1; request_header = [] };
              })))
      × Inv (decode now d).0
unfolding decode buffered
decode-encode_request_v2 cmd rest now d e v enc inv same =
    let all = bytes-request_wire cmd rest d e v enc same in
    let size =
      24
      + length cmd.command.class_name
      + length cmd.command.header_map
      + length cmd.command.content in
    let seen : find_command now (d.len - d.off) (bytes d) ≡ frame size (v2_request _) =
      rw (← length-bytes d inv, all) (find_command-request_wire cmd rest v now) in
    let (left, got, valid) =
      deliver-frame d size _ (request_wire cmd rest) inv all
        (omega (arith, length-request_wire cmd rest v)) in
    rw seen (
      left
          ∙ drop_frame (request_head cmd) cmd.command.class_name cmd.command.header_map
              cmd.command.content rest 24 _ _ _ refl refl refl refl,
      got,
      valid,
    )
