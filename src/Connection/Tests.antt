-- ===== src/Connection/Tests.antt =====
-- The theorem on a connection with a request, and another in between.
use psh_mosn.Base.{◌≡◌, refl, true, false, none, List, [], ◌∷◌}
use psh_mosn.Base.Strings.{text}
use psh_mosn.Serialize.{StringMap}
use psh_mosn.Sofarpc.Adapter.{is_sofa_request}
use psh_mosn.Connection.{
  server_stream, StreamConnection, on_receive_headers, on_receive_data, new_stream,
  decode_sterilize, on_decode_header, on_decode_data,
}
use psh_mosn.Connection.Routing.{
  Op, op_new_stream, op_decode_header, op_decode_data, op_end_stream, run, response-routed,
}

abbrev connection : StreamConnection
connection = record { active_streams = (λ id. none); events = [] }

abbrev request : StringMap
request =
    (text "protocol", text "1") ∷ (text "cmdtype", text "1") ∷ (text "requestid", text "9") ∷ []

abbrev response : StringMap
response = (text "protocol", text "1") ∷ (text "cmdtype", text "0") ∷ []

abbrev others : List Op
others =
    op_new_stream (text "2") 20
    ∷ op_decode_header 30 (text "3") request
    ∷ op_decode_data (text "2") (5 ∷ [])
    ∷ op_end_stream (text "3") server_stream true
    ∷ []

is_response : is_sofa_request response ≡ false
unfolding is_sofa_request
is_response = refl

response-routed_example :
    let before = run others (new_stream (text "1") 10 connection) in
    let after =
      on_decode_data (text "1") (7 ∷ []) (on_decode_header 0 (text "1") response before) in
    let decoded = decode_sterilize (text "1") response in
    (after.events
      ≡ on_receive_data 10 (7 ∷ []) ∷ on_receive_headers 10 decoded.0 decoded.1 ∷ before.events)
    × (after.active_streams (text "1") ≡ none)
response-routed_example =
    response-routed connection (text "1") 10 0 others response (7 ∷ [])
      (refl, (refl, (refl, (refl, tt)))) is_response
