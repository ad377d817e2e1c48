-- ===== src/Stream/Autoresponder/Firing.antt =====
-- A rule that is to fire once fires at most once.
use smolmux.Base.{
  ℕ, zero, suc, ◌+◌, ◌-◌, ◌≤◌, ◌<◌, Bool, true, false, not, ◌||◌, ◌&&◌, none, some, List, [], ◌∷◌,
  ◌≡◌, refl, sym, ap, ◌∙◌, subst, arith, Bytes, ◌==◌, if◌then◌else◌, length, drop, Bool-cases, inl,
  inr, Option-cases, copied,
}
use smolmux.Stream.Matcher.{Matcher}
use smolmux.Stream.Autoresponder.{
  Rule, Autoresponder, Fired, is_ready, fire_rules, fired_rule, line_text, feed,
}

-- How often the rule `k` fires in a call.
abbrev pub shots : ℕ → List Fired → ℕ
shots k [] = 0
shots k (f ∷ fs) = (if f.rule_index == k then 1 else 0) + shots k fs

module _ {E : Type 0} where
  -- Is the rule `k` one that fires once?
  abbrev pub once_at : ℕ → List (Rule E) → Bool
  once_at k [] = false
  once_at zero (r ∷ rs) = r.once
  once_at (suc k) (r ∷ rs) = once_at k rs

  -- 1 if the rule `k` is enabled.
  abbrev pub live_at : ℕ → List (Rule E) → ℕ
  live_at k [] = 0
  live_at zero (r ∷ rs) = if r.enabled then 1 else 0
  live_at (suc k) (r ∷ rs) = live_at k rs

  -- What a call leaves of the rules from `i` on: an earlier rule does not fire, `once` stays, and a
  -- rule with `once` pays with its being enabled.
  record Spent (i : ℕ) (rs : List (Rule E)) (out : List Fired × List (Rule E)) : Type 0 where
    pub later : (k : ℕ) → k < i → shots k out.0 ≡ 0
    pub same_once : (k : ℕ) → once_at k out.1 ≡ once_at k rs
    pub paid : (k : ℕ) → once_at k rs ≡ true → shots (i + k) out.0 + live_at k out.1 ≤ live_at k rs

  Spent-none : (i : ℕ) (rs : List (Rule E)) → Spent i rs ([], rs)
  Spent-none i rs = record { later = λ k h. refl; same_once = λ k. refl; paid = λ k h. omega arith }

  Spent-skip :
      (i : ℕ) (r r' : Rule E) (rs rs' : List (Rule E)) (fired : List Fired)
      → r'.once ≡ r.once
      → r'.enabled ≡ r.enabled
      → Spent (i + 1) rs (fired, rs')
      → Spent i (r ∷ rs) (fired, r' ∷ rs')
  Spent-skip i r r' rs rs' fired once enabled s = record {
    later = λ k h. s.later k (omega arith);
    same_once = same;
    paid = paid;
  }
    where
      same : (k : ℕ) → once_at k (r' ∷ rs') ≡ once_at k (r ∷ rs)
      same zero = once
      same (suc k) = s.same_once k

      paid :
          (k : ℕ)
          → once_at k (r ∷ rs) ≡ true
          → shots (i + k) fired + live_at k (r' ∷ rs') ≤ live_at k (r ∷ rs)
      paid zero h = rw enabled (omega (arith, s.later (i + 0) (omega arith)))
      paid (suc k) h = let e : i + suc k ≡ i + 1 + k = omega arith in rw e (s.paid k h)

  Spent-fire :
      (i : ℕ) (r r' : Rule E) (rs rs' : List (Rule E)) (f : Fired) (fired : List Fired)
      → r'.once ≡ r.once
      → r.enabled ≡ true
      → (r.once ≡ true → r'.enabled ≡ false)
      → f.rule_index ≡ i
      → Spent (i + 1) rs (fired, rs')
      → Spent i (r ∷ rs) (f ∷ fired, r' ∷ rs')
  Spent-fire i r r' rs rs' f fired once live off at s = record {
    later = λ k h. ground (arith, s.later k (omega arith));
    same_once = same;
    paid = paid;
  }
    where
      same : (k : ℕ) → once_at k (r' ∷ rs') ≡ once_at k (r ∷ rs)
      same zero = once
      same (suc k) = s.same_once k

      paid :
          (k : ℕ)
          → once_at k (r ∷ rs) ≡ true
          → shots (i + k) (f ∷ fired) + live_at k (r' ∷ rs') ≤ live_at k (r ∷ rs)
      paid zero h = ground (arith, off h, live, s.later (i + 0) (omega arith))
      paid (suc k) h =
          let e : i + suc k ≡ i + 1 + k = omega arith in
          ground (arith, at, s.paid k h, ap (λ n. shots n fired) e)

  module _ (m : Matcher E) (window : Bytes) (from ts i room : ℕ) (r : Rule E)
      (rs : List (Rule E)) where
    abbrev tried : Rule E
    tried = record r { compiled = (m.exec r.compiled (drop from window)).1 }

    fire_wait :
        (room == 0) ≡ false
        → is_ready ts r ≡ false
        → fire_rules m window from ts i room (r ∷ rs)
          ≡ (let (fired, rest) = fire_rules m window from ts (i + 1) room rs in (fired, r ∷ rest))
    unfolding fire_rules
    fire_wait e f = simp (e, f, fire_rules)

    fire_miss :
        (room == 0) ≡ false
        → is_ready ts r ≡ true
        → (m.exec r.compiled (drop from window)).0 ≡ none
        → fire_rules m window from ts i room (r ∷ rs) ≡ (
            let (fired, rest) = fire_rules m window from ts (i + 1) room rs in
            (fired, tried ∷ rest))
    unfolding fire_rules
    fire_miss e f g = simp (e, f, g, fire_rules)

    fire_hit :
        (off : ℕ)
        → (room == 0) ≡ false
        → is_ready ts r ≡ true
        → (m.exec r.compiled (drop from window)).0 ≡ some off
        → let (fired, rest) = fire_rules m window from ts (i + 1) (room - 1) rs in
          fire_rules m window from ts i room (r ∷ rs) ≡ (
            record {
              rule_index = i;
              response = r.response;
              name = copied 64 r.name;
              matched_text = line_text window (from + off);
            }
                ∷ fired,
            fired_rule ts (m.exec r.compiled (drop from window)).1 r ∷ rest,
          )
    unfolding fire_rules
    fire_hit off e f g = simp (e, f, g, fire_rules)

  fire_rules-Spent :
      (m : Matcher E) (window : Bytes) (from ts i room : ℕ) (rs : List (Rule E))
      → Spent i rs (fire_rules m window from ts i room rs)
  unfolding fire_rules
  fire_rules-Spent m window from ts i room [] = Spent-none i []
  fire_rules-Spent m window from ts i room (r ∷ rs) =
      let next = fire_rules-Spent m window from ts (i + 1) room rs in
      elim (Bool-cases (room == 0)) [
        | inl shut ↦ rw (shut, fire_rules) (Spent-none i (r ∷ rs))
        | inr open_ ↦ elim (Bool-cases (is_ready ts r)) [
          | inr wait ↦
              subst (Spent i (r ∷ rs)) (sym (fire_wait m window from ts i room r rs open_ wait))
                (Spent-skip i r r rs _ _ refl refl next)
          | inl ready ↦ elim (Option-cases (m.exec r.compiled (drop from window)).0) [
            | inl miss ↦
                subst (Spent i (r ∷ rs))
                  (sym (fire_miss m window from ts i room r rs open_ ready miss))
                  (Spent-skip i r (tried m window from ts i room r rs) rs _ _ refl refl next)
            | inr (off, found) ↦
                subst (Spent i (r ∷ rs))
                  (sym (fire_hit m window from ts i room r rs off open_ ready found))
                  (Spent-fire i r (fired_rule ts _ r) rs _ _ _ refl
                    (unfold is_ready in ground arith) (λ once. rw once (off_now r.enabled)) refl
                    (fire_rules-Spent m window from ts (i + 1) (room - 1) rs))
          ]
        ]
      ]
    where
      off_now : (b : Bool) → (b && not true) ≡ false
      off_now b = ground arith

  -- A run of `sm_autoresponder_feed` calls with their times: how often the rule `k` fires.
  pub run_shots : Matcher E → ℕ → ℕ → Autoresponder E → List (Bytes × ℕ) → ℕ
  run_shots m max_out k ar [] = 0
  run_shots m max_out k ar ((input, ts) ∷ rest) =
      let (fired, next) = feed m ar input ts max_out in
      shots k fired + run_shots m max_out k next rest

  feed-Spent :
      (m : Matcher E) (ar : Autoresponder E) (input : Bytes) (ts max_out : ℕ)
      → let (fired, next) = feed m ar input ts max_out in Spent 0 ar.rules (fired, next.rules)
  unfolding feed
  feed-Spent m ar input ts max_out =
      elim (Bool-cases
        (length input == 0 || length ar.rules == 0 || ar.window.cap == 0 || max_out == 0)) [
          | inl idle ↦ rw idle (Spent-none 0 ar.rules)
          | inr busy ↦ rw busy (fire_rules-Spent m _ _ ts 0 max_out ar.rules)
        ]

  run_paid :
      (m : Matcher E) (max_out k : ℕ) (calls : List (Bytes × ℕ)) (ar : Autoresponder E)
      → once_at k ar.rules ≡ true
      → run_shots m max_out k ar calls ≤ live_at k ar.rules
  unfolding run_shots
  run_paid m max_out k [] ar h = omega arith
  run_paid m max_out k ((input, ts) ∷ calls) ar h =
      let s = feed-Spent m ar input ts max_out in
      let next = (feed m ar input ts max_out).1 in
      omega (
        arith,
        s.paid k h,
        run_paid m max_out k calls next (s.same_once k ∙ h),
        ap (λ n. shots n (feed m ar input ts max_out).0) (zero_add k),
      )
    where
      zero_add : (k : ℕ) → 0 + k ≡ k
      zero_add k = omega arith

  live_at_most : (k : ℕ) (rs : List (Rule E)) → live_at k rs ≤ 1
  live_at_most k [] = omega arith
  live_at_most zero (r ∷ rs) = ground arith
  live_at_most (suc k) (r ∷ rs) = live_at_most k rs

  -- In any run of `sm_autoresponder_feed` calls, with any inputs, times and room for results, a rule
  -- that is to fire once fires at most once.
  pub run_shots_once :
      (m : Matcher E) (max_out k : ℕ) (ar : Autoresponder E) (calls : List (Bytes × ℕ))
      → once_at k ar.rules ≡ true
      → run_shots m max_out k ar calls ≤ 1
  run_shots_once m max_out k ar calls h =
      omega (arith, run_paid m max_out k calls ar h, live_at_most k ar.rules)
