-- ===== src/Sofarpc/Protocols.antt =====
-- pkg/protocol/sofarpc/protocols.go: the table of protocols by their code, the choice of an encoder,
-- and the loop that decodes what a connection has received; with handler/boltcommandhandler.go. The
-- processors and the filter, which take a command on, show as events.
pub mod Streams
pub mod Livelock
use psh_mosn.Base.{
  ℕ, zero, suc, ◌+◌, Bool, true, false, ◌||◌, Option, none, some, List, [], ◌∷◌, ltb, ◌==◌,
  if◌then◌else◌, get_or, length,
}
use psh_mosn.Base.Int.{ℤ, pos, eq_ℤ}
use psh_mosn.Base.Strings.{lookup}
use psh_mosn.Buffer.{IoBuffer, bytes, buffered}
use psh_mosn.Serialize.{StringMap}
use psh_mosn.Sofarpc.{
  Command, get_protocol, get_cmd_code, protocol_code_v1, protocol_code_v2, heartbeat, rpc_request,
  rpc_response,
}
use psh_mosn.Sofarpc.Wire.{Decoded, no_command, decode_error, command}
use psh_mosn.Sofarpc.Adapter.{parse_uint, header_protocol_code, sofa_property_header}
use psh_mosn.Sofarpc.BoltV1
use psh_mosn.Sofarpc.BoltV2
use psh_mosn.Sofarpc.BoltV1.Mapping.{
  Headers, header_map, header_command, other_headers, Encoded, no_protocol_code,
  invalid_header_type, unsupported_protocol,
}
use psh_mosn.Sofarpc.BoltV1.Mapping.{encode_headers as encode_headers_v1}
use psh_mosn.Sofarpc.BoltV2.Mapping.{encode_headers as encode_headers_v2}

-- The codec and the command handler of one protocol. A handler that knows the command's code hands it
-- to a processor; otherwise it returns an error (`false`).
pub record Protocol : Type 0 where
  pub encode_headers : Headers → Encoded
  pub decode : IoBuffer → IoBuffer × Decoded
  pub handle : Command → Bool

-- `HandleCommand` over the processors of NewBoltCommandHandler and NewBoltCommandHandlerV2.
unfoldable pub handle_command : Command → Bool
unfolding get_cmd_code
handle_command c =
    eq_ℤ (get_cmd_code c) rpc_request
    || eq_ℤ (get_cmd_code c) rpc_response
    || eq_ℤ (get_cmd_code c) heartbeat

-- map[byte]Protocol
abbrev pub Table : Type 0
Table = List (ℕ × Protocol)

unfoldable pub find_protocol : ℕ → Table → Option Protocol
find_protocol k [] = none
find_protocol k ((j, p) ∷ t) = if j == k then some p else find_protocol k t

-- A code that is there already keeps its protocol.
abbrev keep_or_add : Option Protocol → ℕ → Protocol → Table → Table
keep_or_add none k p t = (k, p) ∷ t
keep_or_add (some q) k p t = t

unfoldable pub register_protocol : ℕ → Protocol → Table → Table
unfolding find_protocol
register_protocol k p t = keep_or_add (find_protocol k t) k p t

unfoldable pub unregister_protocol : ℕ → Table → Table
unregister_protocol k [] = []
unregister_protocol k ((j, p) ∷ t) = if j == k then t else (j, p) ∷ unregister_protocol k t

-- BoltV1 and BoltV2 of codec/boltprotocol.go; `now` stamps the responses that are decoded.
unfoldable pub bolt_v1 : ℤ → Protocol
bolt_v1 now = record {
  encode_headers = encode_headers_v1;
  decode = BoltV1.decode now;
  handle = handle_command;
}

unfoldable pub bolt_v2 : ℤ → Protocol
bolt_v2 now = record {
  encode_headers = encode_headers_v2;
  decode = BoltV2.decode now;
  handle = handle_command;
}

-- What `init` of codec/boltprotocol.go registers.
unfoldable pub default_protocols : ℤ → Table
unfolding register_protocol bolt_v1 bolt_v2
default_protocols now =
    register_protocol protocol_code_v2 (bolt_v2 now)
      (register_protocol protocol_code_v1 (bolt_v1 now) [])

abbrev encode_with : Option Protocol → Headers → Encoded
encode_with none h = unsupported_protocol
encode_with (some p) h = p.encode_headers h

abbrev encode_map_with : Option (List ℕ) → Table → Headers → Encoded
encode_map_with none t h = no_protocol_code
encode_map_with (some s) t h = encode_with (find_protocol (parse_uint s 8) t) h

unfoldable pub encode_headers : Table → Headers → Encoded
unfolding get_protocol find_protocol parse_uint sofa_property_header
encode_headers t (header_command c) =
    encode_with (find_protocol (get_protocol c) t) (header_command c)
encode_headers t (header_map m) =
    encode_map_with (lookup (sofa_property_header header_protocol_code) m) t (header_map m)
encode_headers t other_headers = invalid_header_type

-- What the loop of `Decode` shows to the rest: a command that a processor has taken, or a call of
-- OnDecodeError.
pub data Event : Type 0 where
  handled : Command → Event
  on_decode_error : Event

-- What the loop has done, and whether it has ended.
pub record Run : Type 0 where
  pub buffer : IoBuffer
  pub events : List Event
  pub ended : Bool

abbrev stop : IoBuffer → List Event → Run
stop b es = record { buffer = b; events = es; ended = true }

abbrev pub after_event : Event → Run → Run
after_event e r = record r { events = e ∷ r.events }

-- The body of the loop behind a call of the decoder.
unfoldable pub dispatch : Decoded → Protocol → IoBuffer → (IoBuffer → Run) → Run
dispatch no_command p b again = stop b []
dispatch decode_error p b again = stop b (on_decode_error ∷ [])
dispatch (command c) p b again =
    let more = after_event (handled c) (again b) in
    if p.handle c then more else stop b (on_decode_error ∷ [])

unfoldable pub decode_step : Option Protocol → IoBuffer → (IoBuffer → Run) → Run
unfolding dispatch
decode_step none b again = stop b (on_decode_error ∷ [])
decode_step (some p) b again = let (b', d) = p.decode b in dispatch d p b' again

-- `for data.Len() > 1`, for as many rounds as the fuel.
unfoldable pub decode_loop : ℕ → Table → IoBuffer → Run
unfolding buffered decode_step find_protocol
decode_loop zero t b = record { buffer = b; events = []; ended = false }
decode_loop (suc fuel) t b =
    let body =
      decode_step (find_protocol (get_or (bytes b) 0 0) t) b (λ b'. decode_loop fuel t b') in
    if ltb 1 (buffered b) then body else stop b []
