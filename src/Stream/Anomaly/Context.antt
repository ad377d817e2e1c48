-- ===== src/Stream/Anomaly/Context.antt =====
-- The context holds the last bytes.
use smolmux.Base.{
  ◌+◌, ◌-◌, ◌≤◌, ◌++◌, ◌≡◌, sym, arith, Bytes, leb, length, drop, length-append, length-drop,
  Bool-cases, inl, inr, ap, ◌∙◌,
}
use smolmux.Stream.Window.Laws.{last_of, last_of-append_ge, last_of-append_le, last_of_short}
use smolmux.Stream.Anomaly.{push_context, context_size}

-- A chunk of output that comes behind a context of at most 1024 bytes leaves the last 1024 bytes of
-- the two, so the context stays in its buffer.
pub push_context_lem :
    (context input : Bytes)
    → length context ≤ context_size
    → (push_context context input ≡ last_of context_size (context ++ input))
      × (length (push_context context input) ≤ context_size)
unfolding push_context
push_context_lem context input h = elim (Bool-cases (leb context_size (length input))) [
  | inl alone ↦ rw alone (
    sym (last_of-append_ge context_size context input (ground arith)),
    omega (arith, length-drop (length input - context_size) input),
  )
  | inr short ↦ elim (Bool-cases (leb (length input) (context_size - length context))) [
    | inl fits ↦
        rw (short, fits)
          (
            sym (
                last_of_short context_size (context ++ input)
                  (ground (arith, length-append context input))),
            ground (arith, length-append context input),
          )
    | inr over ↦
        let shift = length input - (context_size - length context) in
        let e : shift ≡ length context + length input - context_size = ground arith in
        rw (short, over)
          (
            ap (λ k. drop k context ++ input) e
                ∙ sym (last_of-append_le context_size context input (ground arith)),
            ground (arith, length-append (drop shift context) input, length-drop shift context),
          )
  ]
]
