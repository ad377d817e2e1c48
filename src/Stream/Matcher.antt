-- ===== src/Stream/Matcher.antt =====
-- What the watchers of the output use of src/regex_engine.c: an expression is compiled, and searched
-- for in a text, which gives the offset of a match and may disable the expression.
use smolmux.Base.{ℕ, ◌≤◌, Option, some, Bytes, ◌≡◌, length}

pub record Matcher (E : Type 0) : Type 0 where
  pub compile : Bytes → Option E
  pub exec : E → Bytes → Option ℕ × E
  pub within : (e : E) (s : Bytes) (off : ℕ) → (exec e s).0 ≡ some off → off ≤ length s
