-- ===== src/Web/TabSession/Refresh.antt =====
-- The refresh of the tokens in apps/web/src/session.ts.
use comamessenger.Prelude.{
  ℕ, ◌≤◌, String, ◌≡◌, refl, ap, ◌∙◌, Option, none, some, List, [], ◌∷◌, arith,
}
use comamessenger.Web.TabSession.{
  SessionMessage, tokens, logout, TabSession, receive, shared, receive_all,
}

-- The tokens of the last message, if it is no logout and there is any.
unfoldable pub last_tokens : Option String → List SessionMessage → Option String
last_tokens found [] = found
last_tokens found (tokens value ∷ ms) = last_tokens (some value) ms
last_tokens found (logout ∷ ms) = last_tokens none ms

shared_from :
    (observed : ℕ) (ms : List SessionMessage) (s : TabSession)
    → observed ≤ s.revision
    → shared observed (receive_all ms s) ≡ last_tokens (shared observed s) ms
unfolding receive_all last_tokens
shared_from observed [] s h = refl
shared_from observed (tokens value ∷ ms) s h =
    shared_from observed ms (receive (tokens value) s) (unfold receive in omega arith)
    ∙ ap (λ o. last_tokens o ms) (unfold shared receive in ground arith)
shared_from observed (logout ∷ ms) s h =
    shared_from observed ms (receive logout s) (unfold receive in omega arith)
    ∙ ap (λ o. last_tokens o ms) (unfold shared receive in ground arith)

-- A refresh that has waited for the lock takes the tokens that the last message of the other tabs has
-- brought since it began, and requests new ones just where no message has come or the last is a
-- logout, whatever the tab knew before.
pub shared-receive_all :
    (ms : List SessionMessage) (s : TabSession)
    → shared s.revision (receive_all ms s) ≡ last_tokens none ms
unfolding shared
shared-receive_all ms s =
    shared_from s.revision ms s (omega arith) ∙ ap (λ o. last_tokens o ms) (ground arith)
