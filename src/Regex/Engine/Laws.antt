-- ===== src/Regex/Engine/Laws.antt =====
-- What a client of the engine can rely on.
use smolmux.Base.{
  ℕ, ◌-◌, ◌≤◌, ◌<◌, Option, none, some, [], ◌∷◌, ◌≡◌, arith, Bytes, length, drop, until_nul,
  length-drop, Bool-cases, Option-cases, inl, inr,
}
use smolmux.Regex.Engine.{Compiled, exec_impl, exec, max_text, max_match_ms}

length-until_nul : (s : Bytes) → length (until_nul s) ≤ length s
length-until_nul [] = omega arith
length-until_nul (c ∷ s) = ground (arith, length-until_nul s)

module _ {R : Type 0} (regexec : R → Bytes → Option ℕ) where
  -- Once a match took more than the budget, no text matches any more.
  pub exec_disabled :
      (cost : Compiled R → Bytes → ℕ) (re : Compiled R) (s later : Bytes)
      → max_match_ms < cost re s
      → (exec regexec cost (exec regexec cost re s).1 later).0 ≡ none
  unfolding exec
  exec_disabled cost re s later h = elim (Bool-cases re.disabled) [
    | inl off ↦ ground arith
    | inr on ↦ ground arith
  ]

  -- A match that `sm_regex_exec` reports lies in its text, if those of `regexec` do.
  pub exec-within :
      ((re : R) (s : Bytes) (off : ℕ) → regexec re s ≡ some off → off ≤ length s)
      → (cost : Compiled R → Bytes → ℕ) (re : Compiled R) (s : Bytes) (off : ℕ)
      → (exec regexec cost re s).0 ≡ some off
      → off ≤ length s
  unfolding exec exec_impl
  exec-within in_text cost re s off h = elim (Bool-cases re.disabled) [
    | inl shut ↦ absurd (ground arith)
    | inr on ↦
        elim (Option-cases (regexec re.expression (until_nul (drop (length s - max_text) s)))) [
          | inl miss ↦ absurd (ground arith)
          | inr (at, found) ↦ ground (
            arith,
            in_text re.expression _ at found,
            length-until_nul (drop (length s - max_text) s),
            length-drop (length s - max_text) s,
          )
        ]
  ]
