-- ===== src/Contracts/Hash.antt =====
-- internal/contracts/values.go: the test that a text is a SHA-256 digest.
use Prim.Native.Char.{code}
use agentops_go.Prelude.{ℕ, String, Bool, true, ◌&&◌, ◌||◌, List, [], ◌∷◌, length, leb, ◌==◌}

-- The characters of a text. A text with a character that is not ASCII is no digest, so bytes and
-- characters need not be told apart.
abbrev pub codes : String → List ℕ
codes String.[] = []
codes (String.◌∷◌ c s) = code c ∷ codes s

unfoldable pub lower_hex : List ℕ → Bool
lower_hex [] = true
lower_hex (c ∷ cs) = ((leb b'0' c && leb c b'9') || (leb b'a' c && leb c b'f')) && lower_hex cs

-- `ExecutionConfigHash.Valid`.
unfoldable pub hash_valid : String → Bool
unfolding lower_hex
hash_valid s = length (codes s) == 64 && lower_hex (codes s)
