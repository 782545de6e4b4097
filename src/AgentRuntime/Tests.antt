-- ===== src/AgentRuntime/Tests.antt =====
-- A run whose provider calls a tool and then answers.
use comamessenger.Prelude.{
  ℕ, Option, inl, ◌*◌, ◌≤◌, length, min, String, ◌≡◌, refl, none, some, true, false, List, [], ◌∷◌,
  ◌++◌, All,
}
use comamessenger.AgentRuntime.Text.{Text, split_streaming_delta, escape_untrusted_content}
use comamessenger.AgentRuntime.Text.Split.{joined, IsSmall, split_streaming_delta_lem}
use comamessenger.AgentRuntime.Text.Escape.{escape_each, IsInert, escape_untrusted_content_lem}
use comamessenger.AgentRuntime.Coalescer
use comamessenger.AgentRuntime.Coalescer.{
  Happening, pushed, times_out, close, deltas, run-close, IsValid,
}
use comamessenger.AgentRuntime.Context.{
  Item, Source, assemble_context, context_of, IsInertMessage, assemble_context_lem,
}
use comamessenger.AgentRuntime.Settings.{Options, settings_of, heartbeat_ms, settings_of_lem}
use comamessenger.AgentRuntime.Run.{
  ok, threw, other_cause, ToolError, AgentRun, Call, ChatMessage, Finish, Work,
}
use comamessenger.AgentRuntime.Run.Loop.{
  Streaming, Answers, ask_provider, no_usage, stream_all, execute,
}
use comamessenger.AgentRuntime.Run.Numbers.{IsNumbered}
use comamessenger.AgentRuntime.Run.Frames.{execute-IsNumbered}
use comamessenger.AgentRuntime.Run.Counts.{total}
use comamessenger.AgentRuntime.Run.Reports.{asks, publications}
use comamessenger.AgentRuntime.Run.Ends.{execute-asks, execute-publications}
use comamessenger.AgentRuntime.Run.Outcome.{IsReported, execute-IsReported}
use comamessenger.AgentRuntime.Run.Seen.{seen, IsAhead, ask_provider-seen}
use comamessenger.Store.State.{MessageStream, StreamFrame, create_messenger_store}
use comamessenger.Prelude.Dict.{lookup}
use comamessenger.AgentRuntime.Run.Shown.{shown, shown-stream_all}

abbrev text : Text
text = 104 ∷ 60 ∷ 8364 ∷ []

split_streaming_delta_lem_example :
    (joined (split_streaming_delta text) ≡ text) × All IsSmall (split_streaming_delta text)
split_streaming_delta_lem_example = split_streaming_delta_lem text

escape_untrusted_content_lem_example :
    (escape_untrusted_content text ≡ escape_each text) × IsInert (escape_untrusted_content text)
escape_untrusted_content_lem_example = escape_untrusted_content_lem text

abbrev happenings : List Happening
happenings = pushed text ∷ pushed [] ∷ times_out ∷ pushed (65 ∷ []) ∷ []

run-close_example :
    (joined (
        (Coalescer.run happenings Coalescer.create).1
        ++ (close (Coalescer.run happenings Coalescer.create).0).1)
      ≡ deltas happenings)
    × IsValid (Coalescer.run happenings Coalescer.create).0
    × ((close (Coalescer.run happenings Coalescer.create).0).0 ≡ Coalescer.create)
run-close_example = run-close happenings

abbrev agent_run : AgentRun
agent_run = record {
  chat_id = some "c";
  dry_run = true;
  agent_config = record { external_data_sharing_approved = true; max_tool_iterations = 2 };
  sandboxed = false;
  unpublished = false;
}

abbrev search_call : Call
search_call = record { id = "1"; name = "search"; arguments = [] }

abbrev finish : List Call → Finish
finish calls = record { content = text; stop_reason = "stop"; usage = no_usage; tool_calls = calls }

-- The provider asks for a tool while no tool has answered.
abbrev provider : List ChatMessage → Streaming
provider [] = record { happenings = happenings; outcome = ok (some (finish (search_call ∷ []))) }
provider (m ∷ ms) = record { happenings = happenings; outcome = ok (some (finish [])) }

abbrev answers : Answers
answers = record {
  agent = threw other_cause;
  agent_tools = ok tt;
  mcp_tools = ok [];
  context = ok [];
  provider = provider;
  tool = λ call. ok text;
  mcp = λ call. record { registered = ok false; preview = []; called = ok []; finished = ok tt };
  publish = ok "m";
  complete = ok tt;
  fail = ok tt;
  abort = none;
}

abbrev first_of : String → String → String
first_of a b = a

abbrev same : Text → Text
same t = t

abbrev json_of : ToolError → Text
json_of e = []

execute-IsNumbered_example : IsNumbered (execute first_of same json_of agent_run answers).0
execute-IsNumbered_example = execute-IsNumbered agent_run refl first_of same json_of answers

execute-asks_example : total asks (execute first_of same json_of agent_run answers).0 ≤ 3
execute-asks_example =
    execute-asks first_of same json_of agent_run answers agent_run.agent_config refl

execute-publications_example :
    total publications (execute first_of same json_of agent_run answers).0 ≤ 1
execute-publications_example = execute-publications first_of same json_of agent_run answers

execute-IsReported_example : IsReported answers (execute first_of same json_of agent_run answers).0
execute-IsReported_example = execute-IsReported first_of same json_of agent_run answers

abbrev begun : Work
begun = record { index = 3; effects = [] }

shown-stream_all_example :
    shown
      (stream_all first_of same json_of agent_run answers happenings Coalescer.create begun).effects
    ≡ shown begun.effects ++ deltas happenings
shown-stream_all_example =
    shown-stream_all agent_run refl first_of same json_of answers happenings begun

abbrev template : StreamFrame
template = record {
  stream_id = "s";
  run_id = "r";
  actor_id = "a";
  chat_id = "c";
  thread_root_id = none;
  index = 0;
  expires_at = "soon";
  delta = [];
  reset = false;
  done = false;
}

abbrev no_date : String → Option ℕ
no_date t = none

begun-IsAhead : IsAhead no_date 0 template (create_messenger_store 0) begun
unfolding seen create_messenger_store lookup
begun-IsAhead = inl refl

ask_provider-seen_example :
    let w = (ask_provider first_of same json_of agent_run answers [] begun).0 in
    (m : MessageStream) × (lookup "s"
        (seen no_date 0 template (create_messenger_store 0) w).message_streams
      ≡ some m)
    × (m.body ≡ deltas happenings)
    × (m.index ≡ w.index)
ask_provider-seen_example =
    ask_provider-seen no_date 0 template (create_messenger_store 0) refl agent_run refl first_of
      same json_of answers [] begun begun-IsAhead

abbrev source : Source
source = record {
  agent_id = "a";
  handle = "bot";
  description = text;
  chat_id = some "c";
  thread_root_id = none;
  input = text;
}

abbrev items : List Item
items = record { id = "m"; actor_id = "b"; body = text } ∷ []

assemble_context_lem_example :
    (older : List Item) × (recent : List Item) × (items ≡ older ++ recent)
    × (length recent ≡ min 50 (length items))
    × (assemble_context source (λ l. ok items) ≡ ok (context_of source recent))
    × All IsInertMessage (context_of source recent)
assemble_context_lem_example = assemble_context_lem source (λ l. ok items) items refl refl

abbrev options : Options
options = record { concurrency = some 100; poll_interval_ms = none; lease_seconds = some 5 }

settings_of_lem_example :
    (1 ≤ (settings_of options).concurrency)
    × ((settings_of options).concurrency ≤ 32)
    × (500 ≤ (settings_of options).poll_interval_ms)
    × (30 ≤ (settings_of options).lease_seconds)
    × ((settings_of options).lease_seconds ≤ 300)
    × (3 * heartbeat_ms (settings_of options) ≤ (settings_of options).lease_seconds * 1000)
settings_of_lem_example = settings_of_lem options
