-- ===== src/Web/TabSession.antt =====
-- `BrowserSessionCoordinator` of apps/web/src/session.ts, which shares the tokens of one session among
-- the tabs of a browser. The wait for the lock and the `setTimeout` split `refresh`: what comes over
-- the channel meanwhile is `receive`.
pub mod Refresh
use comamessenger.Prelude.{
  ℕ, ◌+◌, String, Option, none, some, Bool, true, false, List, [], ◌∷◌, ◌++◌, ltb, ◌==◌,
  if◌then◌else◌,
}

-- The tokens stand for `TokenResponse`.
pub data SessionMessage : Type 0 where
  tokens : String → SessionMessage
  logout : SessionMessage

-- A listener by its number; `heard` are its calls, and `posted` what goes to the other tabs.
pub record TabSession : Type 0 where
  pub latest_tokens : Option String
  pub revision : ℕ
  pub listeners : List ℕ
  pub heard : List (ℕ × SessionMessage)
  pub posted : List SessionMessage
  pub is_closed : Bool

unfoldable pub create : TabSession
create = record {
  latest_tokens = none;
  revision = 0;
  listeners = [];
  heard = [];
  posted = [];
  is_closed = false;
}

unfoldable pub set_add : ℕ → List ℕ → List ℕ
set_add a [] = a ∷ []
set_add a (x ∷ xs) = let rest = set_add a xs in if x == a then x ∷ xs else x ∷ rest

unfoldable pub set_delete : ℕ → List ℕ → List ℕ
set_delete a [] = []
set_delete a (x ∷ xs) = let rest = set_delete a xs in if x == a then rest else x ∷ rest

-- `Set.prototype.add` and `delete` of a listener
unfoldable pub subscribe : ℕ → TabSession → TabSession
unfolding set_add
subscribe listener s = record s { listeners = set_add listener s.listeners }

unfoldable pub unsubscribe : ℕ → TabSession → TabSession
unfolding set_delete
unsubscribe listener s = record s { listeners = set_delete listener s.listeners }

abbrev pub hear : List ℕ → SessionMessage → List (ℕ × SessionMessage)
hear [] message = []
hear (l ∷ ls) message = (l, message) ∷ hear ls message

unfoldable pub receive : SessionMessage → TabSession → TabSession
receive (tokens value) s = record s {
  latest_tokens = some value;
  revision = s.revision + 1;
  heard = s.heard ++ hear s.listeners (tokens value);
}
receive logout s = record s { latest_tokens = none; heard = s.heard ++ hear s.listeners logout }

-- `publishTokens` and `publishLogout`
unfoldable pub publish : SessionMessage → TabSession → TabSession
unfolding receive
publish message s = let s' = receive message s in record s' { posted = s'.posted ++ message ∷ [] }

-- `guardedRefresh` after its `setTimeout`: the tokens that another tab has published since `observed`,
-- or none, and then they are requested
unfoldable pub shared : ℕ → TabSession → Option String
shared observed s = if ltb observed s.revision then s.latest_tokens else none

-- `guardedRefresh` after the request of the tokens
unfoldable pub refreshed : String → TabSession → TabSession
unfolding publish
refreshed value = publish (tokens value)

unfoldable pub close : TabSession → TabSession
close s = record s { listeners = []; is_closed = true }

unfoldable pub receive_all : List SessionMessage → TabSession → TabSession
unfolding receive
receive_all [] s = s
receive_all (m ∷ ms) s = receive_all ms (receive m s)
