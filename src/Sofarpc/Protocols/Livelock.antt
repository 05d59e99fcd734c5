-- ===== src/Sofarpc/Protocols/Livelock.antt =====
-- protocols.go with boltv2codec.go: what the decode loop and the encoder do with version 2 commands.
use psh_mosn.Base.{
  ℕ, zero, suc, ◌-◌, ◌<◌, ◌≡◌, refl, ap, ◌∙◌, true, false, some, List, [], ◌++◌, arith, lt→ltb,
  length, get_or, replicate,
}
use psh_mosn.Base.Int.{ℤ}
use psh_mosn.Buffer.{IoBuffer, bytes, buffered, Inv}
use psh_mosn.Buffer.Writing.{length-bytes}
use psh_mosn.Sofarpc.{BoltV2ResponseCommand, Command, v2_response, protocol_code_v1, get_protocol}
use psh_mosn.Sofarpc.Wire.{command, Found, waiting, unknown_type, frame, undrained, deliver}
use psh_mosn.Sofarpc.BoltV1.Responses.{IsResponse}
use psh_mosn.Sofarpc.BoltV1.Mapping.{header_command, invalid_command_type}
use psh_mosn.Sofarpc.BoltV1.Mapping.{encode_headers as encode_headers_v1}
use psh_mosn.Sofarpc.BoltV2.{
  do_encode_response_command, decode, find_command, request_of, response_of,
}
use psh_mosn.Sofarpc.BoltV2.Responses.{bytes-response_wire, decode-encode_response_v2}
use psh_mosn.Sofarpc.Protocols.{
  find_protocol, bolt_v1, bolt_v2, default_protocols, handle_command, handled, decode_loop,
  after_event, encode_headers,
}
use psh_mosn.Sofarpc.Protocols.Streams.{dispatch-command}

find_protocol-v2 : (now : ℤ) → find_protocol 2 (default_protocols now) ≡ some (bolt_v2 now)
unfolding find_protocol default_protocols
find_protocol-v2 now = refl

find_protocol-v1 : (now : ℤ) → find_protocol 1 (default_protocols now) ≡ some (bolt_v1 now)
unfolding find_protocol default_protocols
find_protocol-v1 now = refl

-- The command that the decoder makes of a version 2 response.
abbrev pub decoded_v2 : BoltV2ResponseCommand → ℤ → Command
decoded_v2 cmd now = v2_response (record cmd {
  command = record (cmd.command) {
    protocol = protocol_code_v1;
    response_time_millis = now;
    response_header = [];
  };
})

-- When a connection has received a whole version 2 response with a known command code, the decode loop
-- never ends: in any number of rounds it has handed the same response on in each round, and the buffer
-- is unchanged.
pub decode_loop-livelock :
    (fuel : ℕ) (cmd : BoltV2ResponseCommand) (rest : List ℕ) (now : ℤ) (d e : IoBuffer)
    → IsResponse cmd.command
    → cmd.command.protocol ≡ 2
    → handle_command (v2_response cmd) ≡ true
    → do_encode_response_command cmd ≡ some e
    → Inv d
    → bytes d ≡ bytes e ++ (cmd.command.content ++ rest)
    → decode_loop fuel (default_protocols now) d
      ≡ record { buffer = d; events = replicate fuel (handled (decoded_v2 cmd now)); ended = false }
unfolding decode_loop bolt_v2 buffered handle_command
decode_loop-livelock zero cmd rest now d e v two known enc inv same = refl
decode_loop-livelock (suc fuel) cmd rest now d e v two known enc inv same =
    let wire = bytes-response_wire cmd rest d e v enc same in
    let again = decode-encode_response_v2 cmd rest now d e v enc inv same in
    let ih = decode_loop-livelock fuel cmd rest now d e v two known enc inv same in
    let more : 1 < d.len - d.off = omega (arith, length-bytes d inv, ap length wire) in
    let first : get_or (bytes d) 0 0 ≡ 2 = ap (λ bs. get_or bs 0 0) wire ∙ two in
    rw (lt→ltb 1 (d.len - d.off) more, first, find_protocol-v2 now, again)
      (dispatch-command (command (decoded_v2 cmd now)) (decoded_v2 cmd now) (bolt_v2 now) d
          (λ b. decode_loop fuel (default_protocols now) b) refl known
        ∙ ap (after_event (handled (decoded_v2 cmd now))) ih)

-- What the version 2 decoder returns is a version 2 command with the protocol code 1.
abbrev IsMislabelled : Found → Type 0
IsMislabelled waiting = Unit {0}
IsMislabelled unknown_type = Unit {0}
IsMislabelled (frame n c) =
    (get_protocol c ≡ 1) × (encode_headers_v1 (header_command c) ≡ invalid_command_type)
IsMislabelled (undrained c) =
    (get_protocol c ≡ 1) × (encode_headers_v1 (header_command c) ≡ invalid_command_type)

find_command-IsMislabelled :
    (now : ℤ) (readable : ℕ) (bs : List ℕ) → IsMislabelled (find_command now readable bs)
unfolding find_command get_protocol encode_headers_v1 request_of response_of
find_command-IsMislabelled now readable bs = ground arith

deliver-command :
    (f : Found) (d : IoBuffer) (c : Command)
    → IsMislabelled f
    → (deliver d f).1 ≡ command c
    → (get_protocol c ≡ 1) × (encode_headers_v1 (header_command c) ≡ invalid_command_type)
unfolding deliver
deliver-command waiting d c m e = absurd (cc)
deliver-command unknown_type d c m e = absurd (cc)
deliver-command (frame n c') d c m e = let p : c' ≡ c = cc in rw (← p) m
deliver-command (undrained c') d c m e = let p : c' ≡ c = cc in rw (← p) m

-- No command that the version 2 decoder returns can be encoded again: it carries the protocol code 1,
-- by which the version 1 encoder is chosen, and that one refuses it.
pub encode_headers-decoded_v2 :
    (now : ℤ) (d : IoBuffer) (c : Command)
    → (decode now d).1 ≡ command c
    → encode_headers (default_protocols now) (header_command c) ≡ invalid_command_type
unfolding encode_headers decode bolt_v1
encode_headers-decoded_v2 now d c e =
    let (code, refused) =
      deliver-command (find_command now (buffered d) (bytes d)) d c
        (find_command-IsMislabelled now (buffered d) (bytes d)) e in
    rw (code, find_protocol-v1 now) refused
