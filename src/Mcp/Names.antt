-- ===== src/Mcp/Names.antt =====
-- The names that apps/agent-runtime/src/mcp.ts gives to tools.
use comamessenger.Prelude.{
  ℕ, zero, suc, ◌/◌, ◌≤◌, ◌≡◌, refl, [], ◌∷◌, ◌++◌, arith, inl, inr, Bool-cases, leb, leb→le,
  length, length-append, take,
}
use comamessenger.Prelude.Units.{Text, slice}
use comamessenger.Mcp.{hash_from, hex_digits, fnv1a, mcp_prefix, underscores, namespaced_tool_name}

length-hex_digits : (k n : ℕ) → length (hex_digits k n) ≡ k
unfolding hex_digits
length-hex_digits zero n = refl
length-hex_digits (suc k) n =
    omega (arith, length-append (hex_digits k (n / 16)) (_ ∷ []), length-hex_digits k (n / 16))

length-fnv1a : (value : Text) → length (fnv1a value) ≡ 8
unfolding fnv1a
length-fnv1a value = length-hex_digits 8 (hash_from 2166136261 value)

take_bound : (n : ℕ) (t : Text) → length (take n t) ≤ n
take_bound zero t = omega arith
take_bound (suc n) [] = omega arith
take_bound (suc n) (c ∷ cs) = omega (arith, take_bound n cs)

-- What a provider takes as the name of a tool.
pub length-namespaced_tool_name :
    (server tool : Text) → length (namespaced_tool_name server tool) ≤ 64
unfolding namespaced_tool_name slice
length-namespaced_tool_name server tool =
    let plain = mcp_prefix ++ (server ++ (underscores ++ tool)) in
    elim (Bool-cases (leb (length plain) 64)) [
      | inl e ↦ rw e (leb→le (length plain) 64 e)
      | inr e ↦ rw e (
          let hash = fnv1a plain in
          let rest = take 25 tool ++ (underscores ++ hash) in
          omega (
            arith,
            length-append (take 18 server) (underscores ++ rest),
            length-append (take 25 tool) (underscores ++ hash),
            length-fnv1a plain,
            take_bound 18 server,
            take_bound 25 tool,
          ))
    ]
