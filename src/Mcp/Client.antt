-- ===== src/Mcp/Client.antt =====
-- `MCPClient` of apps/agent-runtime/src/mcp.ts. What a server answers is an argument: `rpc` is what
-- `responseValue` makes of the body that the JSON library decodes.
use comamessenger.Prelude.Units.{Text}
use comamessenger.Prelude.{
  ℕ, suc, List, [], ◌∷◌, ◌++◌, Bool, true, false, ◌&&◌, ◌||◌, not, Option, none, some, ltb, leb,
  ◌==◌, if◌then◌else◌,
}
use comamessenger.AgentRuntime.Run.{Cause, mcp_error, Result, ok, threw}
use comamessenger.Mcp.{Server, McpTool, includes}

-- A response in JSON: its id if it is a number, whether it has an error, its result, and the tools of
-- the result if it has them.
pub record Rpc : Type 0 where
  pub id : Option ℕ
  pub has_error : Bool
  pub result : Text
  pub tools : List McpTool

-- A response: the session in its header unless that is empty, its status, the length that it declares
-- (0 if that is no number), and its body if that can be read: its bytes, and what they say if they say
-- something.
pub record Response : Type 0 where
  pub session : Option Text
  pub http_status : ℕ
  pub declared_length : ℕ
  pub body : Option (ℕ × Option Rpc)

-- How a call of the fetcher goes, and why, if it or the reading of the body fails.
pub record Answer : Type 0 where
  pub response : Option Response
  pub timed_out : Bool
  pub aborted : Bool

pub data Method : Type 0 where
  initialize_method list_method : Method
  call_method : Text → Method

-- What is sent: a request with its id, or the notification `notifications/initialized`.
pub data Payload : Type 0 where
  request : ℕ → Method → Payload
  initialized_notice : Payload

-- `sent` has the payloads with the session that goes with them.
pub record McpClient : Type 0 where
  pub session_id : Option Text
  pub initialized : Bool
  pub request_id : ℕ
  pub sent : List (Payload × Option Text)

abbrev pub new_client : McpClient
new_client = record { session_id = none; initialized = false; request_id = 0; sent = [] }

unfoldable pub is_notice : Payload → Bool
is_notice (request n method) = false
is_notice initialized_notice = true

-- the `catch` of `send`, of what is no `MCPError`
unfoldable pub send_failure : Answer → Cause
send_failure a =
    if a.timed_out
    then mcp_error "mcp_timeout"
    else if a.aborted
    then mcp_error "mcp_aborted"
    else mcp_error "mcp_transport_error"

-- A new session, if the header has one.
abbrev pub session_of : Option Text → Option Text → Option Text
session_of none old = old
session_of (some session) old = some session

unfoldable pub read_body : Server → Bool → Answer → ℕ × Option Rpc → Result (Option Rpc)
read_body server notification a (size, rpc) =
    if ltb server.max_output_bytes size
    then threw (mcp_error "mcp_output_too_large")
    else if size == 0 && notification
    then ok none
    else elim rpc [ none ↦ threw (mcp_error "mcp_invalid_response") | some r ↦ ok (some r) ]

unfoldable pub read_response : Server → Bool → Answer → Response → Result (Option Rpc)
unfolding read_body send_failure
read_response server notification a r =
    if notification && (r.http_status == 202 || r.http_status == 204)
    then ok none
    else if not (leb 200 r.http_status && leb r.http_status 299)
    then threw (mcp_error "mcp_http_error")
    else if ltb server.max_output_bytes r.declared_length
    then threw (mcp_error "mcp_output_too_large")
    else elim (r.body) [
      | none ↦ threw (send_failure a)
      | some body ↦ read_body server notification a body
    ]

-- One answer for each payload that a call may send.
abbrev pub Answers : Type 0
Answers = Answer × Answer × Answer

-- `safe` is what `assertSafeMCPEndpoint` finds of the server's endpoint.
module _ (server : Server) (safe : Bool) where
  unfoldable pub send : Payload → Answer → McpClient → McpClient × Result (Option Rpc)
  unfolding read_response send_failure is_notice
  send payload a client =
      let told = record client { sent = client.sent ++ (payload, client.session_id) ∷ [] } in
      if not safe then (client, threw (mcp_error "mcp_endpoint_forbidden")) else elim (a.response) [
        | none ↦ (told, threw (send_failure a))
        | some r ↦ (
          record told { session_id = session_of r.session client.session_id },
          read_response server (is_notice payload) a r,
        )
      ]

  unfoldable pub accept : ℕ → Option Rpc → Result Rpc
  accept id none = threw (mcp_error "mcp_invalid_response")
  accept id (some r) = elim (r.id) [
    | none ↦ threw (mcp_error "mcp_invalid_response")
    | some n ↦
        if n == id
        then if r.has_error then threw (mcp_error "mcp_rpc_error") else ok r
        else threw (mcp_error "mcp_invalid_response")
  ]

  unfoldable pub send_request : Method → Answer → McpClient → McpClient × Result Rpc
  unfolding send accept
  send_request method a client =
      let id = suc client.request_id in
      let (c, r) = send (request id method) a (record client { request_id = id }) in
      elim r [ threw cause ↦ (c, threw cause) | ok response ↦ (c, accept id response) ]

  -- The answers to the request and to the notification.
  unfoldable pub initialize : Answer → Answer → McpClient → McpClient × Result (Unit {0})
  unfolding send_request send
  initialize a b client =
      if client.initialized
      then (client, ok tt)
      else (let (c, r) = send_request initialize_method a client in
          elim r [
            | threw cause ↦ (c, threw cause)
            | ok response ↦
                let (d, noticed) = send initialized_notice b c in
                elim noticed [
                  | threw cause ↦ (d, threw cause)
                  | ok other ↦ (record d { initialized = true }, ok tt)
                ]
          ])

  unfoldable pub list_tools : Answers → McpClient → McpClient × Result (List McpTool)
  unfolding initialize send_request
  list_tools (a, b, d) client =
      let (c, r) = initialize a b client in
      elim r [
        | threw cause ↦ (c, threw cause)
        | ok done ↦
            let (e, listed) = send_request list_method d c in
            elim listed [ threw cause ↦ (e, threw cause) | ok response ↦ (e, ok response.tools) ]
      ]

  unfoldable pub call_tool : Text → Answers → McpClient → McpClient × Result Text
  unfolding initialize send_request includes
  call_tool name (a, b, d) client =
      if not (includes name server.allowed_tools)
      then (client, threw (mcp_error "mcp_tool_not_allowed"))
      else (let (c, r) = initialize a b client in
          elim r [
            | threw cause ↦ (c, threw cause)
            | ok done ↦
                let (e, called) = send_request (call_method name) d c in
                elim called [
                  | threw cause ↦ (e, threw cause)
                  | ok response ↦ (e, ok response.result)
                ]
          ])
