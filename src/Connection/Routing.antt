-- ===== src/Connection/Routing.antt =====
-- stream.go: a response reaches the receiver of its request, whatever other streams do in between.
use psh_mosn.Base.{
  ℕ, ◌≡◌, refl, ap, ◌∙◌, Bool, false, Option, none, some, List, [], ◌∷◌, if◌then◌else◌, arith,
  by_both, by_false, by_true,
}
use psh_mosn.Base.Strings.{GoString, str_eq, str_eq_refl, lookup}
use psh_mosn.Serialize.{StringMap}
use psh_mosn.Sofarpc.Adapter.{is_sofa_request, header_req_id}
use psh_mosn.Connection.{
  DecodeError, header_error, codec_exception, other_error, handle_decode_error, codec_failed,
  hand_error, or_id, StreamDirection, server_stream, client_stream, Stream, StreamConnection,
  on_receive_headers, on_receive_data, new_stream, on_new_stream_detected, decode_sterilize,
  on_decode_header, on_decode_data, end_stream, put, add_event, received_headers, remove_client,
}

-- What may happen on a connection.
pub data Op : Type 0 where
  op_new_stream : GoString → ℕ → Op
  op_decode_header : ℕ → GoString → StringMap → Op
  op_decode_data : GoString → List ℕ → Op
  op_decode_error : ℕ → DecodeError → StringMap → Op
  op_end_stream : GoString → StreamDirection → Bool → Op

abbrev pub stream_of : Op → GoString
stream_of (op_new_stream id d) = id
stream_of (op_decode_header a id h) = id
stream_of (op_decode_data id b) = id
stream_of (op_decode_error a k h) = or_id [] (lookup header_req_id h)
stream_of (op_end_stream id d e) = id

abbrev pub perform : Op → StreamConnection → StreamConnection
perform (op_new_stream id d) conn = new_stream id d conn
perform (op_decode_header a id h) conn = on_decode_header a id h conn
perform (op_decode_data id b) conn = on_decode_data id b conn
perform (op_decode_error a k h) conn = handle_decode_error a k h conn
perform (op_end_stream id d e) conn = end_stream id d e conn

abbrev pub run : List Op → StreamConnection → StreamConnection
run [] conn = conn
run (op ∷ ops) conn = run ops (perform op conn)

abbrev pub Others : GoString → List Op → Type 0
Others id [] = Unit {0}
Others id (op ∷ ops) = (str_eq (stream_of op) id ≡ false) × Others id ops

-- What stands at `id` is as it was.
abbrev Same : GoString → StreamConnection → StreamConnection → Type 0
Same id conn conn' = conn'.active_streams id ≡ conn.active_streams id

put-Same :
    (j id : GoString) (o : Option Stream) (conn : StreamConnection)
    → str_eq j id ≡ false
    → Same id conn (put j o conn)
put-Same j id o conn e =
    by_false (λ x. x ≡ conn.active_streams id) (str_eq j id) o (conn.active_streams id) e refl

received-Same :
    (id : GoString) (p : StringMap × Bool) (o : Option Stream) (conn : StreamConnection)
    → Same id conn (received_headers p o conn)
received-Same id (h, end) none conn = refl
received-Same id (h, end) (some s) conn = refl

detected-Same :
    (answer : ℕ) (j id : GoString) (h : StringMap) (conn : StreamConnection)
    → str_eq j id ≡ false
    → Same id conn (on_new_stream_detected answer j h conn).1
unfolding on_new_stream_detected
detected-Same answer j id h conn e = ground arith

hand_error-Same :
    (id j : GoString) (p : StringMap × StreamConnection) (o : Option Stream)
    → str_eq j id ≡ false
    → Same id p.1 (hand_error j p o)
hand_error-Same id j (h, conn) none e = refl
hand_error-Same id j (h, conn) (some s) e = ground arith

codec_failed-Same :
    (answer : ℕ) (id : GoString) (o : Option GoString) (h : StringMap) (conn : StreamConnection)
    → str_eq (or_id [] o) id ≡ false
    → Same id conn (codec_failed answer o h conn)
codec_failed-Same answer id none h conn e = refl
codec_failed-Same answer id (some j) h conn e =
    let detected = on_new_stream_detected answer j h conn in
    hand_error-Same id j detected (detected.1.active_streams j) e
    ∙ detected-Same answer j id h conn e

perform-Same :
    (id : GoString) (op : Op) (conn : StreamConnection)
    → str_eq (stream_of op) id ≡ false
    → Same id conn (perform op conn)
unfolding new_stream on_decode_header on_decode_data end_stream handle_decode_error
perform-Same id (op_new_stream j d) conn e = put-Same j id _ conn e
perform-Same id (op_decode_header a j h) conn e =
    let detected = on_new_stream_detected a j h conn in
    let known = if is_sofa_request h then detected else (h, conn) in
    received-Same id (decode_sterilize j known.0) (known.1.active_streams j) known.1
    ∙ by_both (λ (p : StringMap × StreamConnection). Same id conn p.1) (is_sofa_request h) detected
        (h, conn) (detected-Same a j id h conn e) refl
perform-Same id (op_decode_data j b) conn e = ground arith
perform-Same id (op_decode_error a header_error h) conn e = refl
perform-Same id (op_decode_error a codec_exception h) conn e =
    codec_failed-Same a id (lookup header_req_id h) h conn e
perform-Same id (op_decode_error a other_error h) conn e = refl
perform-Same id (op_end_stream j server_stream c) conn e = ground arith
perform-Same id (op_end_stream j client_stream c) conn e = ground arith

run-Same :
    (id : GoString) (ops : List Op) (conn : StreamConnection)
    → Others id ops
    → Same id conn (run ops conn)
run-Same id [] conn h = refl
run-Same id (op ∷ ops) conn h = run-Same id ops (perform op conn) h.1 ∙ perform-Same id op conn h.0

header_routed :
    (conn : StreamConnection) (s : Stream) (id : GoString) (headers : StringMap) (answer : ℕ)
    → is_sofa_request headers ≡ false
    → conn.active_streams id ≡ some s
    → let decoded = decode_sterilize id headers in
      on_decode_header answer id headers conn
      ≡ add_event (on_receive_headers s.decoder decoded.0 decoded.1) conn
unfolding on_decode_header decode_sterilize
header_routed conn s id headers answer response there =
    let known : (if is_sofa_request headers
          then on_new_stream_detected answer id headers conn
          else (headers, conn))
        ≡ (headers, conn) =
      rw response in
    ap
      (λ (p : StringMap × StreamConnection).
        received_headers (decode_sterilize id p.0) (p.1.active_streams id) p.1)
      known
    ∙ ap (λ o. received_headers (decode_sterilize id headers) o conn) there

data_routed :
    (conn : StreamConnection) (id request : GoString) (decoder : ℕ) (bytes : List ℕ)
    → conn.active_streams id
      ≡ some (record { request_id = request; direction = client_stream; decoder = decoder })
    → on_decode_data id bytes conn ≡ put id none (add_event (on_receive_data decoder bytes) conn)
unfolding on_decode_data
data_routed conn id request decoder bytes there =
    ap
      (λ o. elim o as (λ x. StreamConnection) [
        | none ↦ conn
        | some s ↦ remove_client s.direction id (add_event (on_receive_data s.decoder bytes) conn)
      ])
      there

-- A client's request makes a stream with an id and a receiver. Whatever other streams of the connection do before its
-- response comes, the headers of the response and then its data go to this receiver, and the stream is gone from the
-- table afterwards.
pub response-routed :
    (conn : StreamConnection) (id : GoString) (decoder answer : ℕ) (others : List Op)
    (headers : StringMap) (bytes : List ℕ)
    → Others id others
    → is_sofa_request headers ≡ false
    → let before = run others (new_stream id decoder conn) in
      let after = on_decode_data id bytes (on_decode_header answer id headers before) in
      let decoded = decode_sterilize id headers in
      (after.events
        ≡ on_receive_data decoder bytes
          ∷ on_receive_headers decoder decoded.0 decoded.1
          ∷ before.events)
      × (after.active_streams id ≡ none)
unfolding new_stream on_decode_header on_decode_data
response-routed conn id decoder answer others headers bytes h response =
    let before = run others (new_stream id decoder conn) in
    let s : Stream = record { request_id = id; direction = client_stream; decoder = decoder } in
    let there : before.active_streams id ≡ some s =
      run-Same id others (new_stream id decoder conn) h
      ∙ by_true (λ x. x ≡ some s) (str_eq id id) (some s) (conn.active_streams id) (str_eq_refl id)
          refl in
    let decoded = decode_sterilize id headers in
    let heard = add_event (on_receive_headers decoder decoded.0 decoded.1) before in
    let e : on_decode_data id bytes (on_decode_header answer id headers before)
        ≡ put id none (add_event (on_receive_data decoder bytes) heard) =
      ap (on_decode_data id bytes) (header_routed before s id headers answer response there)
      ∙ data_routed heard id id decoder bytes there in
    (
      ap (λ c. c.events) e,
      ap (λ c. c.active_streams id) e
          ∙ by_true (λ x. x ≡ none) (str_eq id id) none (heard.active_streams id) (str_eq_refl id)
              refl,
    )
