-- ===== src/Connection.antt =====
-- pkg/stream/sofarpc/stream.go and streamhelper.go: the streams of a SOFARPC connection, by their ids. The table
-- holds copies of the streams; a receiver stands for the StreamReceiver that a stream hands its parts to, and what the
-- connection calls shows as a list of events, the newest first.
mod Tests
pub mod Routing
use psh_mosn.Base.{
  ℕ, Bool, true, false, not, ◌&&◌, ◌||◌, Option, none, some, List, [], ◌∷◌, if◌then◌else◌, ◌==◌,
}
use psh_mosn.Base.Int.{ℤ, pos, negsuc}
use psh_mosn.Base.Strings.{GoString, text, str_eq, lookup, insert}
use psh_mosn.Serialize.{StringMap}
use psh_mosn.Sofarpc.Adapter.{
  header_req_id, header_timeout, header_cmd_code, parse_int, is_sofa_request,
}

pub data StreamDirection : Type 0 where
  server_stream client_stream : StreamDirection

-- `stream`, without what its sender has encoded.
pub record Stream : Type 0 where
  pub request_id : GoString
  pub direction : StreamDirection
  pub decoder : ℕ

pub data Event : Type 0 where
  on_receive_headers : ℕ → StringMap → Bool → Event
  on_receive_data : ℕ → List ℕ → Event
  on_decode_error : ℕ → StringMap → Event
  write : GoString → Event
  close : Event

pub record StreamConnection : Type 0 where
  pub active_streams : GoString → Option Stream
  pub events : List Event

abbrev pub put : GoString → Option Stream → StreamConnection → StreamConnection
put id o conn = record conn {
  active_streams = (λ j. if str_eq id j then o else conn.active_streams j);
}

abbrev pub add_event : Event → StreamConnection → StreamConnection
add_event e conn = record conn { events = e ∷ conn.events }

-- `NewStream` of a client, with the receiver of the response.
unfoldable pub new_stream : GoString → ℕ → StreamConnection → StreamConnection
new_stream id decoder conn =
    put id (some (record { request_id = id; direction = client_stream; decoder = decoder })) conn

-- The id of the request, for the response, and the headers with the id of the stream in its place.
abbrev pub or_id : GoString → Option GoString → GoString
or_id id none = id
or_id id (some v) = v

-- `serverCallbacks.NewStream` is a parameter: the receiver that it answers.
unfoldable pub on_new_stream_detected :
    ℕ → GoString → StringMap → StreamConnection → StringMap × StreamConnection
on_new_stream_detected answer id headers conn = elim (conn.active_streams id) [
  | some s ↦ (headers, conn)
  | none ↦ (
    insert header_req_id id headers,
    put id
        (some (record {
          request_id = or_id id (lookup header_req_id headers);
          direction = server_stream;
          decoder = answer;
        }))
        conn,
  )
]

abbrev pub is_heartbeat : Option GoString → Bool
is_heartbeat none = false
is_heartbeat (some code) = elim (parse_int code 16) [ pos n ↦ n == 0 | negsuc n ↦ false ]

abbrev pub has_key : Option GoString → Bool
has_key none = false
has_key (some v) = true

abbrev pub with_timeout : Option GoString → StringMap → StringMap
with_timeout none headers = headers
with_timeout (some v) headers = insert (text "x-mosn-try-timeout") v headers

-- The headers, and whether they end the stream.
unfoldable pub decode_sterilize : GoString → StringMap → StringMap × Bool
decode_sterilize id headers =
    let h1 = insert (text "x-mosn-streamid") id headers in
    let h2 = with_timeout (lookup header_timeout h1) h1 in
    (h2, is_heartbeat (lookup header_cmd_code h2) || has_key (lookup (text "x-mosn-endstream") h2))

abbrev pub received_headers : StringMap × Bool → Option Stream → StreamConnection → StreamConnection
received_headers (h, end) none conn = conn
received_headers (h, end) (some s) conn = add_event (on_receive_headers s.decoder h end) conn

unfoldable pub on_decode_header : ℕ → GoString → StringMap → StreamConnection → StreamConnection
unfolding on_new_stream_detected decode_sterilize is_sofa_request
on_decode_header answer id headers conn =
    let detected = on_new_stream_detected answer id headers conn in
    let known = if is_sofa_request headers then detected else (headers, conn) in
    received_headers (decode_sterilize id known.0) (known.1.active_streams id) known.1

abbrev pub remove_client : StreamDirection → GoString → StreamConnection → StreamConnection
remove_client server_stream id conn = conn
remove_client client_stream id conn = put id none conn

abbrev pub remove_server : StreamDirection → GoString → StreamConnection → StreamConnection
remove_server server_stream id conn = put id none conn
remove_server client_stream id conn = conn

unfoldable pub on_decode_data : GoString → List ℕ → StreamConnection → StreamConnection
on_decode_data id bytes conn = elim (conn.active_streams id) [
  | none ↦ conn
  | some s ↦ remove_client s.direction id (add_event (on_receive_data s.decoder bytes) conn)
]

-- The errors that `OnDecodeError` tells apart: those of the header, which close the connection, one of the codec, and
-- any other, nil too.
pub data DecodeError : Type 0 where
  header_error codec_exception other_error : DecodeError

abbrev pub hand_error : GoString → StringMap × StreamConnection → Option Stream → StreamConnection
hand_error id (h, conn) none = conn
hand_error id (h, conn) (some s) =
    remove_client s.direction id (add_event (on_decode_error s.decoder h) conn)

abbrev pub codec_failed : ℕ → Option GoString → StringMap → StreamConnection → StreamConnection
codec_failed answer none headers conn = add_event close conn
codec_failed answer (some id) headers conn =
    let detected = on_new_stream_detected answer id headers conn in
    hand_error id detected (detected.1.active_streams id)

unfoldable pub handle_decode_error :
    ℕ → DecodeError → StringMap → StreamConnection → StreamConnection
unfolding on_new_stream_detected
handle_decode_error answer header_error headers conn = add_event close conn
handle_decode_error answer codec_exception headers conn =
    codec_failed answer (lookup header_req_id headers) headers conn
handle_decode_error answer other_error headers conn = conn

-- `endStream` of a sender: whether it has encoded headers, and whose direction it has.
unfoldable pub end_stream : GoString → StreamDirection → Bool → StreamConnection → StreamConnection
end_stream id direction encoded conn =
    let written =
      if encoded && elim (conn.active_streams id) as (λ o. Bool) [ none ↦ false | some s ↦ true ]
      then add_event (write id) conn
      else conn in
    remove_server direction id written
