-- ===== src/Recent/Tokens.antt =====
-- The estimate of a text's tokens.
use minori.Common.{ℕ, ◌+◌, ◌*◌, ◌≤◌, List, [], ◌∷◌, arith, length, max}
use minori.Recent.{quarter, count_tokens, estimate_conversation_tokens}

quarter-bounds : (n : ℕ) → (quarter n ≤ n) × (n ≤ 4 * quarter n)
quarter-bounds n = omega arith

count_tokens-bounds :
    (t l : ℕ) (cs : List ℕ)
    → (1 ≤ count_tokens t l cs)
      × (count_tokens t l cs ≤ max 1 (t + l + length cs))
      × (4 * t + l + length cs ≤ 4 * count_tokens t l cs)
unfolding count_tokens
count_tokens-bounds t l [] = omega (arith, quarter-bounds l)
count_tokens-bounds t l (c ∷ cs) = ground (
  arith,
  quarter-bounds l,
  count_tokens-bounds (t + quarter l + 1) 0 cs,
  count_tokens-bounds t (l + 1) cs,
)

-- A text counts at least one token, at least a quarter of its code points and, unless it is empty, at
-- most their number.
pub estimate_is_bounded :
    (text : List ℕ)
    → (1 ≤ estimate_conversation_tokens text)
      × (length text ≤ 4 * estimate_conversation_tokens text)
      × (estimate_conversation_tokens text ≤ max 1 (length text))
unfolding estimate_conversation_tokens
estimate_is_bounded text = ground (arith, count_tokens-bounds 0 0 text)
