-- ===== src/Regex/Engine.antt =====
-- `sm_regex_compile` and `sm_regex_exec` of src/regex_engine.c with the POSIX back end. `regcomp`,
-- `regexec` and the time that a match takes are parameters; `regexec` reads up to the first NUL.
pub mod Laws
use smolmux.Base.{
  ℕ, ◌+◌, ◌-◌, Bool, true, false, ◌||◌, not, Option, none, some, Bytes, ltb, if◌then◌else◌, length,
  drop, copied, until_nul,
}
use smolmux.Regex.Risk.{Verdict, accepted, check_redos_risk}

abbrev pub max_pattern_len : ℕ
max_pattern_len = 1024

abbrev pub max_match_ms : ℕ
max_match_ms = 50

abbrev pub max_text : ℕ
max_text = 65536

-- `struct sm_regex`, with times in milliseconds.
pub record Compiled (R : Type 0) : Type 0 where
  pub expression : R
  pub disabled : Bool
  pub worst : ℕ
  pub pattern : Bytes

pub check_pattern_length : Bytes → Bool
check_pattern_length pattern = not (ltb max_pattern_len (length pattern))

-- Does `check_redos_risk` return 0? A check that reads behind the pattern has no result to rely on,
-- and counts as a refusal.
pub passes_check : Option Verdict → Bool
passes_check (some accepted) = true
passes_check _ = false

module _ {R : Type 0} (regcomp : Bytes → Option R) where
  compiled_by : Bytes → Option R → Option (Compiled R)
  compiled_by pattern none = none
  compiled_by pattern (some re) =
      some (record { expression = re; disabled = false; worst = 0; pattern = copied 96 pattern })

  -- `sm_regex_compile`; the flag is the success of its `malloc`.
  pub compile : Bool → Bytes → Option (Compiled R)
  unfolding compiled_by
  compile ok pattern =
      if not (check_pattern_length pattern)
      then none
      else if not (passes_check (check_redos_risk pattern))
      then none
      else if ok
      then compiled_by pattern (regcomp pattern)
      else none

abbrev pub shifted : ℕ → Option ℕ → Option ℕ
shifted base none = none
shifted base (some off) = some (base + off)

module _ {R : Type 0} (regexec : R → Bytes → Option ℕ) where
  -- Only the last `max_text` bytes are searched.
  pub exec_impl : Compiled R → Bytes → Option ℕ
  exec_impl re s =
      let base = length s - max_text in
      shifted base (regexec re.expression (until_nul (drop base s)))

  -- `sm_regex_exec` of an expression that is not NULL: the offset of a match, and the expression
  -- with its new flags. `elapsed` is the time that the match took.
  pub exec : (Compiled R → Bytes → ℕ) → Compiled R → Bytes → Option ℕ × Compiled R
  exec cost re s =
      let elapsed = cost re s in
      let slowest = record re { worst = if ltb re.worst elapsed then elapsed else re.worst } in
      if re.disabled
      then (none, re)
      else (exec_impl re s, record slowest { disabled = ltb max_match_ms elapsed })
