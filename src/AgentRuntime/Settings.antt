-- ===== src/AgentRuntime/Settings.antt =====
-- The settings of `AgentRuntime` in apps/agent-runtime/src/runtime.ts, and its worker's rounds.
use comamessenger.Prelude.{
  ℕ, ◌*◌, ◌/◌, ◌≤◌, min, max, Option, none, some, Bool, List, [], ◌∷◌, arith, if◌then◌else◌,
}

pub record Options : Type 0 where
  pub concurrency : Option ℕ
  pub poll_interval_ms : Option ℕ
  pub lease_seconds : Option ℕ

pub record Settings : Type 0 where
  pub concurrency : ℕ
  pub poll_interval_ms : ℕ
  pub lease_seconds : ℕ

-- `value ?? d`
abbrev pub value_or : Option ℕ → ℕ → ℕ
value_or none d = d
value_or (some n) d = n

-- the constructor
unfoldable pub settings_of : Options → Settings
settings_of o = record {
  concurrency = min 32 (max 1 (value_or o.concurrency 4));
  poll_interval_ms = max 500 (value_or o.poll_interval_ms 5000);
  lease_seconds = min 300 (max 30 (value_or o.lease_seconds 90));
}

-- The interval of the heartbeats of a run, of which a timer takes the whole milliseconds.
unfoldable pub heartbeat_ms : Settings → ℕ
heartbeat_ms s = max 5000 (s.lease_seconds * 1000 / 3)

-- What a claim comes back with.
pub data Claim (Run : Type 0) : Type 0 where
  fails nothing : Claim Run
  claims : Run → Claim Run

-- What a worker does: it waits for the poll interval, or executes a run.
pub data Doing (Run : Type 0) : Type 0 where
  waits : ℕ → Doing Run
  executes : Run → Doing Run

-- The loop of `runWorker` over the claims, each with whether the signal is aborted before it and when
-- it fails.
unfoldable pub work : {Run : Type 0} → Settings → List (Bool × Claim Run × Bool) → List (Doing Run)
work s [] = []
work s ((aborted, claim, aborts) ∷ rounds) =
    let rest = work s rounds in
    if aborted then [] else elim claim [
      | fails ↦ if aborts then [] else waits s.poll_interval_ms ∷ rest
      | nothing ↦ waits s.poll_interval_ms ∷ rest
      | claims run ↦ executes run ∷ rest
    ]

-- Whatever the options, there is a worker and no more than 32, a poll waits for half a second at
-- least, a lease lasts for 30 to 300 seconds, and three heartbeats fall into one lease.
pub settings_of_lem :
    (o : Options)
    → (1 ≤ (settings_of o).concurrency)
      × ((settings_of o).concurrency ≤ 32)
      × (500 ≤ (settings_of o).poll_interval_ms)
      × (30 ≤ (settings_of o).lease_seconds)
      × ((settings_of o).lease_seconds ≤ 300)
      × (3 * heartbeat_ms (settings_of o) ≤ (settings_of o).lease_seconds * 1000)
unfolding settings_of heartbeat_ms
settings_of_lem o = (omega arith, omega arith, omega arith, omega arith, omega arith, omega arith)
