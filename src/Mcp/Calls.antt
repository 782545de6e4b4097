-- ===== src/Mcp/Calls.antt =====
-- What a client of apps/agent-runtime/src/mcp.ts sends, over any calls of it one after another.
use comamessenger.Prelude.Units.{Text}
use comamessenger.Prelude.{
  ℕ, suc, ◌≤◌, ◌<◌, ◌≡◌, refl, ap, ◌⊎◌, subst, sym, List, [], ◌∷◌, ◌++◌, Bool, true, false, Option,
  arith, inl, inr, Bool-cases, map,
}
use comamessenger.AgentRuntime.Run.{Cause, mcp_error, Result, ok, threw}
use comamessenger.Mcp.{Server, includes}
use comamessenger.AgentRuntime.Run.Cases.{by_option}
use comamessenger.Mcp.Client.{
  Rpc, Answer, Method, initialize_method, list_method, call_method, Payload, request,
  initialized_notice, McpClient, send, send_request, Answers, list_tools, call_tool,
}

pub data Use : Type 0 where
  lists : Answers → Use
  calls : Text → Answers → Use

-- The payloads that a client may send, one after another: whether the server has been told that the
-- client is initialized, and the last id. Ids rise, tools are listed and called only behind that
-- notification, and only allowed ones are called.
pub data Orderly (server : Server) : Bool → ℕ → List Payload → Type 0 where
  silent : Orderly server false 0 []
  initializes :
      {ready : Bool} {last : ℕ} {ps : List Payload} (id : ℕ)
      → last < id
      → Orderly server ready last ps
      → Orderly server ready id (ps ++ request id initialize_method ∷ [])
  notifies :
      {ready : Bool} {last : ℕ} {ps : List Payload}
      → Orderly server ready last ps
      → Orderly server true last (ps ++ initialized_notice ∷ [])
  lists_tools :
      {last : ℕ} {ps : List Payload} (id : ℕ)
      → last < id
      → Orderly server true last ps
      → Orderly server true id (ps ++ request id list_method ∷ [])
  calls_tool :
      {last : ℕ} {ps : List Payload} (id : ℕ) (name : Text)
      → last < id
      → includes name server.allowed_tools ≡ true
      → Orderly server true last ps
      → Orderly server true id (ps ++ request id (call_method name) ∷ [])

abbrev pub payloads : McpClient → List Payload
payloads client = map (λ p. p.0) client.sent

module _ (server : Server) (safe : Bool) where
  abbrev pub use_client : Use → McpClient → McpClient
  use_client (lists answers) client = (list_tools server safe answers client).0
  use_client (calls name answers) client = (call_tool server safe name answers client).0

  abbrev pub use_all : List Use → McpClient → McpClient
  use_all [] client = client
  use_all (u ∷ us) client = use_all us (use_client u client)

  -- What has been sent is in order.
  abbrev pub IsSent : Bool → McpClient → Type 0
  IsSent ready client =
      (last : ℕ) × Orderly server ready last (payloads client) × (last ≤ client.request_id)

  -- So it is, and the client is initialized only if the server has been told so.
  abbrev pub IsOrderly : McpClient → Type 0
  IsOrderly client =
      (ready : Bool) × IsSent ready client × (client.initialized ≡ true → ready ≡ true)

  abbrev pub IsThrown : {A : Type 0} → Result A → Type 0
  IsThrown (threw cause) = Unit {0}
  IsThrown (ok a) = ⊥

  -- The payload is sent, or it is not and the call throws; the rest of the client stays.
  abbrev pub Sends : Payload → McpClient → McpClient × Result (Option Rpc) → Type 0
  Sends payload client (c, r) =
      (c.request_id ≡ client.request_id)
      × (c.initialized ≡ client.initialized)
      × ((payloads c ≡ payloads client ++ payload ∷ [])
          ⊎ ((payloads c ≡ payloads client) × IsThrown r))

  -- On either end of an `await`, with what holds of the answer.
  pub by_post :
      {A B : Type 0} (P : McpClient × Result B → Type 0) (Q : Result A → Type 0) (r : Result A)
      (f : Cause → McpClient × Result B) (g : A → McpClient × Result B)
      → Q r
      → ((cause : Cause) → Q (threw cause) → P (f cause))
      → ((a : A) → Q (ok a) → P (g a))
      → P (elim r [ threw cause ↦ f cause | ok a ↦ g a ])
  by_post P Q (threw cause) f g h p q = p cause h
  by_post P Q (ok a) f g h p q = q a h

  payloads-snoc :
      (l : List (Payload × Option Text)) (p : Payload) (s : Option Text)
      → map (λ x. x.0) (l ++ (p, s) ∷ []) ≡ map (λ x. x.0) l ++ p ∷ []
  payloads-snoc [] p s = refl
  payloads-snoc (x ∷ xs) p s = ap (λ l. x.0 ∷ l) (payloads-snoc xs p s)

  pub send-Sends :
      (payload : Payload) (a : Answer) (client : McpClient)
      → Sends payload client (send server safe payload a client)
  unfolding send
  send-Sends payload a client = elim (Bool-cases safe) [
    | inl e ↦ rw e (
        by_option (Sends payload client) a.response _ _ (refl, refl, inl logged)
          (λ r. (refl, refl, inl logged)))
    | inr e ↦ rw e (refl, refl, inr (refl, tt))
  ]
    where
      logged :
          map (λ x. x.0) (client.sent ++ (payload, client.session_id) ∷ [])
          ≡ payloads client ++ payload ∷ []
      logged = payloads-snoc client.sent payload client.session_id

  -- A request of a method that may be sent.
  pub send_request-IsSent :
      (ready : Bool) (method : Method)
      → ((last : ℕ) (ps : List Payload) (id : ℕ)
          → last < id
          → Orderly server ready last ps
          → Orderly server ready id (ps ++ request id method ∷ []))
      → (a : Answer) (client : McpClient) → IsSent ready client
      → let c = (send_request server safe method a client).0 in
        IsSent ready c × (c.initialized ≡ client.initialized)
  unfolding send_request
  send_request-IsSent ready method grow a client (last, ordered, known) =
      let id = suc client.request_id in
      let raised : McpClient = record client { request_id = id } in
      let (c, r) = send server safe (request id method) a raised in
      by_post P Q r _ _ (of_sent c r (send-Sends (request id method) a raised)) (λ cause h. h)
        (λ response h. h)
    where
      P : McpClient × Result Rpc → Type 0
      P (c, r) = IsSent ready c × (c.initialized ≡ client.initialized)

      id : ℕ
      id = suc client.request_id

      Q : Result (Option Rpc) → Type 0
      Q r = P (
        (send server safe (request id method) a (record client { request_id = id })).0,
        threw (mcp_error ""),
      )

      of_sent :
          (c : McpClient) (r : Result (Option Rpc))
          → Sends (request id method) (record client { request_id = id }) (c, r)
          → IsSent ready c × (c.initialized ≡ client.initialized)
      of_sent c r (counted, kept, inl told) = (
        (
          id,
          subst (Orderly server ready id) (sym told)
              (grow last (payloads client) id (omega arith) ordered),
          omega (arith, counted),
        ),
        kept,
      )
      of_sent c r (counted, kept, inr (untold, thrown)) = (
        (last, subst (Orderly server ready last) (sym untold) ordered, omega (arith, counted)),
        kept,
      )
