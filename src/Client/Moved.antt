-- ===== src/Client/Moved.antt =====
-- client/Client: which answers make the client look for another node.
use kvjet.Prelude.{ℕ, Bool, true, false, [], ◌∷◌, ◌++◌, none, some, Bytes, codes, ◌≡◌, refl, arith}
use kvjet.Resp.Value.{Value, simple, bulk, error, integer, nil_array, array}
use kvjet.Resp.Encoder.{encode}
use kvjet.Cluster.{Cluster}
use kvjet.Handler.{moved, address}
use kvjet.Client.{starts_with, is_moved_response}

-- The values that the client takes for a redirection.
abbrev pub is_redirection : Value → Bool
is_redirection (error text) = starts_with (codes "MOVED") text
is_redirection _ = false

-- The line end cannot complete a prefix without control characters.
starts_with-line :
    (text : Bytes)
    → starts_with (codes "MOVED") (text ++ 13 ∷ 10 ∷ []) ≡ starts_with (codes "MOVED") text
unfolding starts_with
starts_with-line [] = refl
starts_with-line (a ∷ []) = ground arith
starts_with-line (a ∷ b ∷ []) = ground arith
starts_with-line (a ∷ b ∷ c ∷ []) = ground arith
starts_with-line (a ∷ b ∷ c ∷ d ∷ []) = ground arith
starts_with-line (a ∷ b ∷ c ∷ d ∷ e ∷ text) = refl

-- The client takes an answer for a redirection exactly when it is an error whose text begins with
-- `MOVED`, whatever value was sent; what a server sends for a key of another node is one.
pub is_moved_response-encode :
    (v : Value) (uuid : ℕ) (c : Cluster)
    → (is_moved_response (encode v) ≡ is_redirection v) × (is_moved_response (moved uuid c) ≡ true)
unfolding is_moved_response encode
is_moved_response-encode v uuid c = (same v, starts_with-line (codes "MOVED " ++ address uuid c))
  where
    same : (w : Value) → is_moved_response (encode w) ≡ is_redirection w
    same (simple s) = refl
    same (error s) = starts_with-line s
    same (integer n) = refl
    same (bulk none) = refl
    same (bulk (some s)) = refl
    same nil_array = refl
    same (array vs) = refl
