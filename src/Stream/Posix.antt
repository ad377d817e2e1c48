-- ===== src/Stream/Posix.antt =====
-- The engine of src/regex_engine.c as the `Matcher` of the watchers.
use smolmux.Base.{ℕ, ◌≤◌, true, Option, some, ◌≡◌, Bytes, length}
use smolmux.Regex.Engine.{Compiled, compile, exec}
use smolmux.Regex.Engine.Laws.{exec-within}
use smolmux.Stream.Matcher.{Matcher}

-- `regcomp` and `regexec` are the C library's, `cost` is the time that a match takes; a match that
-- `regexec` reports is in the text that it was given.
module _ {R : Type 0} (regcomp : Bytes → Option R) (regexec : R → Bytes → Option ℕ)
    (cost : Compiled R → Bytes → ℕ)
    (in_text : (re : R) (s : Bytes) (off : ℕ) → regexec re s ≡ some off → off ≤ length s) where
  -- The engine where `malloc` succeeds.
  pub posix : Matcher (Compiled R)
  posix = record {
    compile = compile regcomp true;
    exec = exec regexec cost;
    within = exec-within regexec in_text cost;
  }
