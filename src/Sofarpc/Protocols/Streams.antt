-- ===== src/Sofarpc/Protocols/Streams.antt =====
-- protocols.go: a connection that has received several version 1 requests, one behind the other.
use psh_mosn.Base.{ℕ, ◌≡◌, refl, true, Option, none, some, List, [], ◌∷◌, ◌++◌}
use psh_mosn.Buffer.{IoBuffer, bytes}
use psh_mosn.Sofarpc.{BoltRequestCommand, Command, v1_request, protocol_code_v1}
use psh_mosn.Sofarpc.Wire.{Decoded, command}
use psh_mosn.Sofarpc.BoltV1.{do_encode_request_command}
use psh_mosn.Sofarpc.BoltV1.Requests.{IsRequest}
use psh_mosn.Sofarpc.Protocols.{
  Protocol, handle_command, Event, handled, Run, after_event, dispatch,
}

abbrev encoded_bytes : Option IoBuffer → List ℕ
encoded_bytes none = []
encoded_bytes (some e) = bytes e

-- What a peer sends: for each request the bytes of its encoder, and its content.
abbrev pub stream : List BoltRequestCommand → List ℕ
stream [] = []
stream (c ∷ cs) = encoded_bytes (do_encode_request_command c) ++ (c.content ++ stream cs)

-- Requests of version 1 in range, with a command code that the handler knows.
abbrev pub AllRequests : List BoltRequestCommand → Type 0
AllRequests [] = Unit {0}
AllRequests (c ∷ cs) =
    (IsRequest c × (c.protocol ≡ 1) × (handle_command (v1_request c) ≡ true)) × AllRequests cs

abbrev pub received : BoltRequestCommand → Event
received c = handled (v1_request (record c { protocol = protocol_code_v1; request_header = [] }))

pub dispatch-command :
    (d : Decoded) (c : Command) (p : Protocol) (b : IoBuffer) (again : IoBuffer → Run)
    → d ≡ command c
    → p.handle c ≡ true
    → dispatch d p b again ≡ after_event (handled c) (again b)
unfolding dispatch
dispatch-command d c p b again e h = rw e (rw h refl)
