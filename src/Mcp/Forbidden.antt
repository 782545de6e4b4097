-- ===== src/Mcp/Forbidden.antt =====
-- A client of apps/agent-runtime/src/mcp.ts whose endpoint is forbidden.
use comamessenger.Prelude.Units.{Text}
use comamessenger.Prelude.{suc, ◌≡◌, refl, ◌∙◌, List, [], ◌∷◌, Bool, false, not}
use comamessenger.AgentRuntime.Run.{Result}
use comamessenger.AgentRuntime.Run.Cases.{by_result, by_test}
use comamessenger.Mcp.{Server, McpTool, includes}
use comamessenger.Mcp.Client.{
  Rpc, Answer, Method, initialize_method, list_method, call_method, Payload, request,
  initialized_notice, McpClient, send, send_request, initialize, list_tools, call_tool,
}
use comamessenger.Mcp.Calls.{Use, lists, calls, payloads, use_client, use_all}

module _ (server : Server) (safe : Bool) (forbidden : safe ≡ false) where
  -- Nothing has been sent since `client`.
  abbrev SendsNothing : {B : Type 0} → McpClient → McpClient × B → Type 0
  SendsNothing client (c, b) = payloads c ≡ payloads client

  send-SendsNothing :
      (payload : Payload) (a : Answer) (client : McpClient)
      → SendsNothing client (send server safe payload a client)
  unfolding send
  send-SendsNothing payload a client = rw forbidden refl

  send_request-SendsNothing :
      (method : Method) (a : Answer) (client : McpClient)
      → SendsNothing client (send_request server safe method a client)
  unfolding send_request
  send_request-SendsNothing method a client =
      let raised : McpClient = record client { request_id = suc client.request_id } in
      let (c, r) = send server safe (request (suc client.request_id) method) a raised in
      let none_sent = send-SendsNothing (request (suc client.request_id) method) a raised in
      by_result (SendsNothing {B = Result Rpc} client) r _ _ (λ cause. none_sent)
        (λ response. none_sent)

  initialize-SendsNothing :
      (a b : Answer) (client : McpClient) → SendsNothing client (initialize server safe a b client)
  unfolding initialize
  initialize-SendsNothing a b client =
      let P = SendsNothing {B = Result (Unit {0})} client in
      let (c, r) = send_request server safe initialize_method a client in
      let (d, noticed) = send server safe initialized_notice b c in
      let asked = send_request-SendsNothing initialize_method a client in
      let told = send-SendsNothing initialized_notice b c ∙ asked in
      by_test P client.initialized _ _ (λ _. refl)
        (λ _.
          by_result P r _ _ (λ cause. asked)
            (λ response. by_result P noticed _ _ (λ cause. told) (λ other. told)))

  use_client-SendsNothing :
      (u : Use) (client : McpClient) → payloads (use_client server safe u client) ≡ payloads client
  unfolding list_tools call_tool
  use_client-SendsNothing (lists (a, b, d)) client =
      let P = SendsNothing {B = Result (List McpTool)} client in
      let (c, r) = initialize server safe a b client in
      let begun = initialize-SendsNothing a b client in
      let asked = send_request-SendsNothing list_method d c ∙ begun in
      by_result P r _ _ (λ cause. begun)
        (λ done.
          by_result P (send_request server safe list_method d c).1 _ _ (λ cause. asked)
            (λ response. asked))
  use_client-SendsNothing (calls name (a, b, d)) client =
      let P = SendsNothing {B = Result Text} client in
      let (c, r) = initialize server safe a b client in
      let begun = initialize-SendsNothing a b client in
      let asked = send_request-SendsNothing (call_method name) d c ∙ begun in
      by_test P (not (includes name server.allowed_tools)) _ _ (λ _. refl)
        (λ _.
          by_result P r _ _ (λ cause. begun)
            (λ done.
              by_result P (send_request server safe (call_method name) d c).1 _ _ (λ cause. asked)
                (λ response. asked)))

  pub use_all-SendsNothing :
      (us : List Use) (client : McpClient)
      → payloads (use_all server safe us client) ≡ payloads client
  use_all-SendsNothing [] client = refl
  use_all-SendsNothing (u ∷ us) client =
      use_all-SendsNothing us (use_client server safe u client) ∙ use_client-SendsNothing u client
