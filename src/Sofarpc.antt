-- ===== src/Sofarpc.antt =====
-- SOFARPC: pkg/protocol/sofarpc/types.go, the commands of the Bolt protocols, and its constants. A
-- byte slice is a list of bytes, nil the empty list. InvokeContext, which the codec leaves nil, has
-- no field.
pub mod Wire
pub mod Adapter
pub mod BoltV1
pub mod BoltV2
pub mod Protocols
mod Tests
use psh_mosn.Base.{ℕ, List}
use psh_mosn.Base.Int.{ℤ, pos}
use psh_mosn.Serialize.{StringMap}

abbrev pub protocol_code_v1 : ℕ
protocol_code_v1 = 1

abbrev pub protocol_code_v2 : ℕ
protocol_code_v2 = 2

abbrev pub request_header_len_v1 : ℕ
request_header_len_v1 = 22

abbrev pub request_header_len_v2 : ℕ
request_header_len_v2 = 24

abbrev pub response_header_len_v1 : ℕ
response_header_len_v1 = 20

abbrev pub response_header_len_v2 : ℕ
response_header_len_v2 = 22

abbrev pub less_len_v1 : ℕ
less_len_v1 = response_header_len_v1

abbrev pub less_len_v2 : ℕ
less_len_v2 = response_header_len_v2

-- RESPONSE, REQUEST and REQUEST_ONEWAY
abbrev pub response_type : ℕ
response_type = 0

abbrev pub request_type : ℕ
request_type = 1

abbrev pub request_oneway_type : ℕ
request_oneway_type = 2

-- HEARTBEAT, RPC_REQUEST and RPC_RESPONSE
abbrev pub heartbeat : ℤ
heartbeat = pos 0

abbrev pub rpc_request : ℤ
rpc_request = pos 1

abbrev pub rpc_response : ℤ
rpc_response = pos 2

pub record BoltRequestCommand : Type 0 where
  pub protocol : ℕ
  pub cmd_type : ℕ
  pub cmd_code : ℤ
  pub version : ℕ
  pub req_id : ℕ
  pub codec_pro : ℕ
  pub timeout : ℤ
  pub class_len : ℤ
  pub header_len : ℤ
  pub content_len : ℤ
  pub class_name : List ℕ
  pub header_map : List ℕ
  pub content : List ℕ
  pub request_header : StringMap

pub record BoltResponseCommand : Type 0 where
  pub protocol : ℕ
  pub cmd_type : ℕ
  pub cmd_code : ℤ
  pub version : ℕ
  pub req_id : ℕ
  pub codec_pro : ℕ
  pub response_status : ℤ
  pub class_len : ℤ
  pub header_len : ℤ
  pub content_len : ℤ
  pub class_name : List ℕ
  pub header_map : List ℕ
  pub content : List ℕ
  pub response_time_millis : ℤ
  pub response_header : StringMap

pub record BoltV2RequestCommand : Type 0 where
  pub command : BoltRequestCommand
  pub version1 : ℕ
  pub switch_code : ℕ

pub record BoltV2ResponseCommand : Type 0 where
  pub command : BoltResponseCommand
  pub version1 : ℕ
  pub switch_code : ℕ

-- The dynamic types that the codecs pass as interface{}.
pub data Command : Type 0 where
  v1_request : BoltRequestCommand → Command
  v1_response : BoltResponseCommand → Command
  v2_request : BoltV2RequestCommand → Command
  v2_response : BoltV2ResponseCommand → Command

-- GetProtocol of ProtoBasicCmd; a version 2 command has that of the command that it embeds.
unfoldable pub get_protocol : Command → ℕ
get_protocol (v1_request c) = c.protocol
get_protocol (v1_response c) = c.protocol
get_protocol (v2_request c) = c.command.protocol
get_protocol (v2_response c) = c.command.protocol

-- GetReqID of ProtoBasicCmd.
unfoldable pub get_req_id : Command → ℕ
get_req_id (v1_request c) = c.req_id
get_req_id (v1_response c) = c.req_id
get_req_id (v2_request c) = c.command.req_id
get_req_id (v2_response c) = c.command.req_id

-- GetCmdCode of ProtoBasicCmd.
unfoldable pub get_cmd_code : Command → ℤ
get_cmd_code (v1_request c) = c.cmd_code
get_cmd_code (v1_response c) = c.cmd_code
get_cmd_code (v2_request c) = c.command.cmd_code
get_cmd_code (v2_response c) = c.command.cmd_code
