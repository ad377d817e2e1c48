-- ===== src/Broker/Token.antt =====
-- src/broker.c: the comparison of tokens that takes the same time wherever they differ.
use smolmux.Base.{
  same_text_eq, ℕ, zero, suc, ◌+◌, ◌≡◌, refl, ◌∙◌, sym, ap, ap₂, Bool, true, false, not, ◌||◌, ◌&&◌,
  [], ◌∷◌, Bytes, ltb, ◌==◌, if◌then◌else◌, length, get_or, same_text, arith, Bool-cases, inl, inr,
}

-- The loop over the positions from `i` on; `diff` is whether a bit of the source's `diff` is set.
abbrev compare_from : Bytes → Bytes → ℕ → ℕ → Bool → Bool
compare_from a b zero i diff = diff
compare_from a b (suc n) i diff =
    compare_from a b n (i + 1) (diff || not (get_or a i 0 == get_or b i 0))

-- `ct_str_equal`
pub ct_str_equal : Bytes → Bytes → Bool
ct_str_equal a b =
    let la = length a in
    let lb = length b in
    let n = if ltb lb la then la else lb in not (compare_from a b n 0 (not (la == lb)))

compare_from-true : (a b : Bytes) (n i : ℕ) → compare_from a b n i true ≡ true
compare_from-true a b zero i = refl
compare_from-true a b (suc n) i = compare_from-true a b n (i + 1)

compare_from_cons :
    (x y : ℕ) (a b : Bytes) (n i : ℕ) (diff : Bool)
    → compare_from (x ∷ a) (y ∷ b) n (suc i) diff ≡ compare_from a b n i diff
compare_from_cons x y a b zero i diff = refl
compare_from_cons x y a b (suc n) i diff =
    ap (λ k. compare_from (x ∷ a) (y ∷ b) n k (diff || not (get_or a i 0 == get_or b i 0)))
      (omega arith)
    ∙ compare_from_cons x y a b n (i + 1) (diff || not (get_or a i 0 == get_or b i 0))

compare_from-same_text :
    (a b : Bytes) → length a ≡ length b → not (compare_from a b (length a) 0 false) ≡ same_text a b
compare_from-same_text [] [] e = refl
compare_from-same_text [] (y ∷ b) e = absurd (omega arith)
compare_from-same_text (x ∷ a) [] e = absurd (omega arith)
compare_from-same_text (x ∷ a) (y ∷ b) e =
    behind (x == y) (compare_from-same_text a b (omega arith))
  where
    behind :
        (same : Bool)
        → not (compare_from a b (length a) 0 false) ≡ same_text a b
        → not (compare_from (x ∷ a) (y ∷ b) (length a) 1 (not same)) ≡ (same && same_text a b)
    behind true h = ap not (compare_from_cons x y a b (length a) 0 false) ∙ h
    behind false h = ap not (compare_from-true (x ∷ a) (y ∷ b) (length a) 1)

pub ct_str_equal-same_text : (a b : Bytes) → ct_str_equal a b ≡ same_text a b
unfolding ct_str_equal
ct_str_equal-same_text a b = elim (Bool-cases (length a == length b)) [
  | inl same ↦
      let larger : n ≡ length a = ground arith in
      ap₂ (λ n t. not (compare_from a b n 0 (not t))) larger same
      ∙ compare_from-same_text a b (ground arith)
  | inr other ↦
      ap (λ t. not (compare_from a b n 0 (not t))) other
      ∙ ap not (compare_from-true a b n 0)
      ∙ elim (Bool-cases (same_text a b)) [
        | inl same ↦ absurd (ground (arith, ap length (same_text_eq a b same)))
        | inr differ ↦ sym differ
      ]
]
  where
    n : ℕ
    n = if ltb (length b) (length a) then length a else length b
