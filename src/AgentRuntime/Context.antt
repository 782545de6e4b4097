-- ===== src/AgentRuntime/Context.antt =====
-- `assembleContext` of apps/agent-runtime/src/runtime.ts. The texts are lists of UTF-16 units.
use comamessenger.Prelude.{
  ℕ, ◌-◌, min, String, ◌≡◌, refl, Option, none, some, true, List, [], ◌∷◌, ◌++◌, map, arith, length,
  length-drop, append-take-drop, take, drop, sym, subst, ap, str_eq, if◌then◌else◌, All, All-append,
}
use comamessenger.AgentRuntime.Text.{
  Text, safe_json, escape_untrusted_content, escape_trusted_configuration,
}
use comamessenger.AgentRuntime.Text.Escape.{IsInert, escape_each, escape_untrusted_content_lem}
use comamessenger.AgentRuntime.Run.{
  Result, ok, threw, ChatMessage, system, history, run_input, assistant, tool_result, has_chat,
}

-- A message of the page that the tool returns.
pub record Item : Type 0 where
  pub id : String
  pub actor_id : String
  pub body : Text

-- What of the agent and of the run is read; `input` is the text of `JSON.stringify`.
pub record Source : Type 0 where
  pub agent_id : String
  pub handle : String
  pub description : Text
  pub chat_id : Option String
  pub thread_root_id : Option String
  pub input : Text

-- The tool that is asked for the page, with the message or the chat of its arguments.
pub data Lookup : Type 0 where
  get_thread get_chat_messages : String → Lookup

-- `slice(-n)`
unfoldable pub last_of : ℕ → List Item → List Item
last_of n items = drop (length items - n) items

unfoldable pub untrusted_message : Source → Item → ChatMessage
unfolding escape_untrusted_content
untrusted_message source item =
    history (str_eq item.actor_id source.agent_id) item.id item.actor_id
      (escape_untrusted_content item.body)

-- `run.thread_root_id ? ... : ...`
unfoldable pub lookup_of : Source → String → Lookup
lookup_of source chat_id = elim source.thread_root_id [
  | none ↦ get_chat_messages chat_id
  | some root ↦ if str_eq root "" then get_chat_messages chat_id else get_thread root
]

abbrev pub chat_of : Option String → String
chat_of none = ""
chat_of (some id) = id

abbrev pub framed : Source → List Item → List ChatMessage
framed source items =
    (system source.handle (escape_trusted_configuration source.description)
      ∷ map (untrusted_message source) (last_of 50 items))
    ++ run_input (safe_json source.input) ∷ []

-- The answer of the tool is an argument, which a run outside of chats does not ask for.
unfoldable pub assemble_context : Source → (Lookup → Result (List Item)) → Result (List ChatMessage)
unfolding untrusted_message last_of lookup_of escape_trusted_configuration safe_json
assemble_context source page =
    if has_chat source.chat_id
    then elim (page (lookup_of source (chat_of source.chat_id))) [
      | threw cause ↦ threw cause
      | ok items ↦ ok (framed source items)
    ]
    else ok (framed source [])

-- No angle bracket stands in the part of a message that others can write.
abbrev pub IsInertMessage : ChatMessage → Type 0
IsInertMessage (system handle description) = IsInert description
IsInertMessage (history own id actor body) = IsInert body
IsInertMessage (run_input input) = IsInert input
IsInertMessage (assistant text calls) = Unit
IsInertMessage (tool_result id output) = IsInert output

escape-IsInert : (t : Text) → IsInert (escape_untrusted_content t)
escape-IsInert t = (escape_untrusted_content_lem t).1

configuration-IsInert : (t : Text) → IsInert (escape_trusted_configuration t)
unfolding escape_trusted_configuration escape_untrusted_content
configuration-IsInert t = (escape_untrusted_content_lem t).1

map-IsInertMessage :
    (source : Source) (items : List Item)
    → All IsInertMessage (map (untrusted_message source) items)
unfolding untrusted_message
map-IsInertMessage source [] = tt
map-IsInertMessage source (i ∷ items) = (escape-IsInert i.body, map-IsInertMessage source items)

framed-IsInertMessage :
    (source : Source) (items : List Item) → All IsInertMessage (framed source items)
unfolding safe_json
framed-IsInertMessage source items =
    All-append IsInertMessage
      (system source.handle (escape_trusted_configuration source.description)
        ∷ map (untrusted_message source) (last_of 50 items))
      (run_input (safe_json source.input) ∷ [])
      (configuration-IsInert source.description, map-IsInertMessage source (last_of 50 items))
      (escape-IsInert (take 262144 source.input), tt)

-- The context that is made of some messages of the page, with every text escaped unit by unit.
abbrev pub context_of : Source → List Item → List ChatMessage
context_of source recent =
    (system source.handle (escape_each source.description)
      ∷ map
          (λ item.
            history (str_eq item.actor_id source.agent_id) item.id item.actor_id
              (escape_each item.body))
          recent)
    ++ run_input (escape_each (take 262144 source.input)) ∷ []

map-escape_each :
    (source : Source) (items : List Item)
    → map (untrusted_message source) items
      ≡ map
          (λ item.
            history
              (str_eq item.actor_id source.agent_id)
              item.id
              item.actor_id
              (escape_each item.body))
          items
unfolding untrusted_message
map-escape_each source [] = refl
map-escape_each source (i ∷ items) =
    rw ((escape_untrusted_content_lem i.body).0, map-escape_each source items) refl

framed_lem :
    (source : Source) (items : List Item)
    → framed source items ≡ context_of source (last_of 50 items)
unfolding safe_json escape_trusted_configuration escape_untrusted_content
framed_lem source items =
    rw
      (
        map-escape_each source (last_of 50 items),
        (escape_untrusted_content_lem source.description).0,
        (escape_untrusted_content_lem (take 262144 source.input)).0,
      )
      refl

-- The context of a run in a chat whose page has come is the prompt, then the last messages of the page
-- in their order, fifty of them or all if there are fewer, and then the input, cut at 262144 units. The
-- description, the bodies and the input are escaped, so that no angle bracket stands in them.
pub assemble_context_lem :
    (source : Source) (page : Lookup → Result (List Item)) (items : List Item)
    → has_chat source.chat_id ≡ true
    → page (lookup_of source (chat_of source.chat_id)) ≡ ok items
    → (older : List Item) × (recent : List Item) × (items ≡ older ++ recent)
      × (length recent ≡ min 50 (length items))
      × (assemble_context source page ≡ ok (context_of source recent))
      × All IsInertMessage (context_of source recent)
unfolding assemble_context last_of
assemble_context_lem source page items chat answer = (
  take (length items - 50) items,
  last_of 50 items,
  sym (append-take-drop (length items - 50) items),
  omega (arith, length-drop (length items - 50) items),
  rw (chat, answer) (ap ok (framed_lem source items)),
  subst (All IsInertMessage) (framed_lem source items) (framed-IsInertMessage source items),
)
