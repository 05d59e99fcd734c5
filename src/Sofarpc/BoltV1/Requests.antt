-- ===== src/Sofarpc/BoltV1/Requests.antt =====
-- boltv1codec.go: what the decoder makes of an encoded request.
use psh_mosn.Base.{ℕ, ◌+◌, ◌<◌, ◌≡◌, sym, ap, ◌∙◌, ◌⊎◌, some, List, [], ◌∷◌, ◌++◌, length, some_eq}
use mathlib.Core.List.{append_assoc}
use mathlib.Core.Option
use psh_mosn.Base.Int.{pos, to_u16, to_u32, to_i16, IsI16}
use psh_mosn.Buffer.{IoBuffer, bytes, new_io_buffer}
use psh_mosn.Sofarpc.{BoltRequestCommand, protocol_code_v1}
use psh_mosn.Sofarpc.Wire.{
  put_u16, put_u32, write_all, concat, framed, concat-tail_writes, encoder_buffer, bytes-encoder,
}
use psh_mosn.Sofarpc.BoltV1.{request_writes, do_encode_request_command}

-- The fields are in the range of their types, and the lengths are those of the parts.
pub record IsRequest (cmd : BoltRequestCommand) : Type 0 where
  pub is_request : (cmd.cmd_type ≡ 1) ⊎ (cmd.cmd_type ≡ 2)
  pub code : IsI16 cmd.cmd_code
  pub id : cmd.req_id < 4294967296
  pub time : (t : ℕ) × (cmd.timeout ≡ pos t) × (t < 4294967296)
  pub class_fits : (cmd.class_len ≡ pos (length cmd.class_name)) × (length cmd.class_name < 32768)
  pub header_fits :
      (cmd.header_len ≡ to_i16 (length cmd.header_map)) × (length cmd.header_map < 65536)
  pub content_fits :
      (cmd.content_len ≡ pos (length cmd.content)) × (length cmd.content < 4294967296)

-- The 22 bytes in front, and the parts behind them.
abbrev pub request_head : BoltRequestCommand → List ℕ
request_head cmd =
    cmd.protocol
    ∷ cmd.cmd_type
    ∷ (put_u16 (to_u16 cmd.cmd_code)
        ++ (cmd.version
            ∷ (put_u32 cmd.req_id
                ++ (cmd.codec_pro
                    ∷ (put_u32 (to_u32 cmd.timeout)
                        ++ (put_u16 (to_u16 cmd.class_len)
                            ++ (put_u16 (to_u16 (pos (length cmd.header_map)))
                                ++ put_u32 (to_u32 cmd.content_len))))))))

abbrev pub request_wire : BoltRequestCommand → List ℕ → List ℕ
request_wire cmd rest = framed (request_head cmd) cmd.class_name cmd.header_map cmd.content rest

concat-request_writes :
    (cmd : BoltRequestCommand)
    → cmd.class_len ≡ pos (length cmd.class_name)
    → concat (request_writes cmd) ≡ request_head cmd ++ (cmd.class_name ++ cmd.header_map)
concat-request_writes cmd e = rw e (
    ap (λ q. request_head (record cmd { class_len = pos (length cmd.class_name) }) ++ q)
      (concat-tail_writes cmd.class_name cmd.header_map))

module _ (cmd : BoltRequestCommand) (rest : List ℕ) (v : IsRequest cmd) where
  -- The command as it comes back: version 1 is written into it, and the header map is not parsed yet.
  abbrev decoded_request : BoltRequestCommand
  decoded_request = record cmd { protocol = protocol_code_v1; request_header = [] }

-- A request that is in range is encoded: the encoder does not panic, and its buffer holds the header
-- and the parts that it writes.
pub encode-request_total :
    (cmd : BoltRequestCommand)
    → IsRequest cmd
    → (e : IoBuffer) × (do_encode_request_command cmd ≡ some e)
      × (bytes e ≡ request_head cmd ++ (cmd.class_name ++ cmd.header_map))
unfolding do_encode_request_command
encode-request_total cmd v = (
  write_all (new_io_buffer (22 + length cmd.class_name + length cmd.header_map))
      (request_writes cmd),
  ap (Option.map (λ buf. write_all buf (request_writes cmd))) (
      encoder_buffer 22 (length cmd.class_name) (length cmd.header_map) cmd.class_len
        v.class_fits.0),
  bytes-encoder _ (request_writes cmd) ∙ concat-request_writes cmd v.class_fits.0,
)

-- Whatever follows the encoded bytes and the content, the buffer starts with the frame.
pub bytes-request_wire :
    (cmd : BoltRequestCommand) (rest : List ℕ) (d e : IoBuffer)
    → IsRequest cmd
    → do_encode_request_command cmd ≡ some e
    → bytes d ≡ bytes e ++ (cmd.content ++ rest)
    → bytes d ≡ request_wire cmd rest
bytes-request_wire cmd rest d e v enc same =
    let (e', enc', written) = encode-request_total cmd v in
    same
    ∙ ap (λ q. q ++ (cmd.content ++ rest)) (ap bytes (some_eq (sym enc ∙ enc')) ∙ written)
    ∙ append_assoc (request_head cmd) (cmd.class_name ++ cmd.header_map) (cmd.content ++ rest)
    ∙ ap (λ q. request_head cmd ++ q)
        (append_assoc cmd.class_name cmd.header_map (cmd.content ++ rest))
