-- ===== src/Mcp/Protocol.antt =====
-- The order of the protocol that a client of apps/agent-runtime/src/mcp.ts keeps.
use comamessenger.Prelude.Units.{Text}
use comamessenger.Prelude.{
  ℕ, ◌<◌, ◌≡◌, refl, subst, sym, ◌∙◌, List, [], ◌∷◌, ◌++◌, Bool, true, false, not, arith, inl, inr,
  if◌then◌else◌,
}
use comamessenger.AgentRuntime.Run.{Result, ok, threw}
use comamessenger.Mcp.{Server, includes}
use comamessenger.AgentRuntime.Run.Cases.{by_test}
use comamessenger.Mcp.Client.{
  Rpc, Answer, Method, initialize_method, list_method, call_method, Payload, request,
  initialized_notice, McpClient, new_client, send, send_request, initialize, list_tools, call_tool,
}
use comamessenger.Mcp.Forbidden.{use_all-SendsNothing}
use comamessenger.Mcp.Calls.{
  Use, lists, calls, Orderly, silent, initializes, notifies, lists_tools, calls_tool, payloads,
  use_client, use_all, IsSent, IsOrderly, Sends, by_post, send-Sends, send_request-IsSent,
}

module _ (server : Server) (safe : Bool) where
  -- What `initialize` leaves: the server has been told if it returns.
  abbrev Opened : McpClient × Result (Unit {0}) → Type 0
  Opened (c, ok done) = IsSent server safe true c
  Opened (c, threw cause) = IsOrderly server safe c

  noticed-Opened :
      (ready : Bool) (b : Answer) (c : McpClient)
      → IsSent server safe ready c
      → (c.initialized ≡ true → ready ≡ true)
      → let (d, r) = send server safe initialized_notice b c in
        Opened (elim r [
          | threw cause ↦ (d, threw cause)
          | ok other ↦ (record d { initialized = true }, ok tt)
        ])
  noticed-Opened ready b c (last, ordered, known) told =
      let (d, r) = send server safe initialized_notice b c in
      after d r (send-Sends server safe initialized_notice b c)
    where
      after :
          (d : McpClient) (r : Result _)
          → Sends server safe initialized_notice c (d, r)
          → Opened (elim r [
            | threw cause ↦ (d, threw cause)
            | ok other ↦ (record d { initialized = true }, ok tt)
          ])
      after d (threw cause) (counted, kept, inl logged) = (
        true,
        (
          last,
          subst (Orderly server true last) (sym logged) (notifies ordered),
          omega (arith, counted),
        ),
        λ h. refl,
      )
      after d (threw cause) (counted, kept, inr (unlogged, thrown)) = (
        ready,
        (last, subst (Orderly server ready last) (sym unlogged) ordered, omega (arith, counted)),
        λ h. told (sym kept ∙ h),
      )
      after d (ok other) (counted, kept, inl logged) = (
        last,
        subst (Orderly server true last) (sym logged) (notifies ordered),
        omega (arith, counted),
      )
      after d (ok other) (counted, kept, inr (unlogged, thrown)) = absurd thrown

  initialize-Opened :
      (a b : Answer) (client : McpClient)
      → IsOrderly server safe client
      → Opened (initialize server safe a b client)
  unfolding initialize
  initialize-Opened a b client (ready, sent, told) =
      by_test Opened client.initialized _ _
        (λ e. subst (λ r. IsSent server safe r client) (told e) sent)
        (λ e.
          let (c, r) = send_request server safe initialize_method a client in
          let (sent', kept) =
            send_request-IsSent server safe ready initialize_method
              (λ last ps id h o. initializes id h o) a client sent in
          by_post server safe Opened (λ r. Unit {0}) r _ _ tt
            (λ cause h. (ready, sent', λ h. told (sym kept ∙ h)))
            (λ response h. noticed-Opened ready b c sent' (λ h. told (sym kept ∙ h))))

  abbrev IsOrderlyIn : {B : Type 0} → McpClient × B → Type 0
  IsOrderlyIn (c, b) = IsOrderly server safe c

  -- A call behind `initialize`.
  Opened-IsOrderly :
      {B : Type 0} (method : Method)
      → ((last : ℕ) (ps : List Payload) (id : ℕ)
          → last < id
          → Orderly server true last ps
          → Orderly server true id (ps ++ request id method ∷ []))
      → (f : Rpc → B) (d : Answer) (c : McpClient) (r : Result (Unit {0})) → Opened (c, r)
      → let (e, s) = send_request server safe method d c in
        IsOrderlyIn {B = Result B} (elim r [
          | threw cause ↦ (c, threw cause)
          | ok done ↦ elim s [ threw cause ↦ (e, threw cause) | ok response ↦ (e, ok (f response)) ]
        ])
  Opened-IsOrderly method grow f d c (threw cause) h = h
  Opened-IsOrderly {B} method grow f d c (ok done) h =
      let (e, s) = send_request server safe method d c in
      let (sent, kept) = send_request-IsSent server safe true method grow d c h in
      by_post server safe (IsOrderlyIn {B = Result B}) (λ r. Unit {0}) s _ _ tt
        (λ cause u. (true, sent, λ i. refl)) (λ response u. (true, sent, λ i. refl))

  use_client-IsOrderly :
      (u : Use) (client : McpClient)
      → IsOrderly server safe client
      → IsOrderly server safe (use_client server safe u client)
  unfolding list_tools call_tool
  use_client-IsOrderly (lists (a, b, d)) client h =
      let (c, r) = initialize server safe a b client in
      Opened-IsOrderly list_method (λ last ps id k o. lists_tools id k o)
        (λ response. response.tools) d c r (initialize-Opened a b client h)
  use_client-IsOrderly (calls name (a, b, d)) client h =
      by_test (IsOrderlyIn {B = Result Text}) (not (includes name server.allowed_tools)) _ _
        (λ e. h)
        (λ e.
          let (c, r) = initialize server safe a b client in
          let allowed : includes name server.allowed_tools ≡ true = ground (arith, e) in
          Opened-IsOrderly (call_method name) (λ last ps id k o. calls_tool id name k allowed o)
            (λ response. response.result) d c r (initialize-Opened a b client h))

  use_all_lem :
      (us : List Use) (client : McpClient)
      → IsOrderly server safe client
      → IsOrderly server safe (use_all server safe us client)
  use_all_lem [] client h = h
  use_all_lem (u ∷ us) client h =
      use_all_lem us (use_client server safe u client) (use_client-IsOrderly u client h)

-- Over any calls of a client, whatever the server answers, the ids of its requests rise, it lists and
-- calls tools only behind the notification that it is initialized, and it calls only allowed tools; if
-- the endpoint is not safe, it sends nothing at all.
pub use_all-IsOrderly :
    (server : Server) (safe : Bool) (us : List Use)
    → let sent = payloads (use_all server safe us new_client) in
      IsOrderly server safe (use_all server safe us new_client)
      × (sent ≡ (if safe then sent else []))
use_all-IsOrderly server safe us = (
  use_all_lem server safe us new_client (false, (0, silent, omega arith), λ h. h),
  nothing safe refl,
)
  where
    nothing :
        (b : Bool)
        → safe ≡ b
        → let sent = payloads (use_all server safe us new_client) in sent ≡ (if b then sent else [])
    nothing true e = refl
    nothing false e = use_all-SendsNothing server safe e us new_client
