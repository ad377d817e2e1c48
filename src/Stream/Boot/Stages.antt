-- ===== src/Stream/Boot/Stages.antt =====
-- The pass over the stages: which are reached, and how many more than before.
use smolmux.Base.{
  ℕ, ◌+◌, ◌-◌, ◌≤◌, true, false, none, some, List, [], ◌∷◌, ◌≡◌, refl, sym, subst, arith, Bytes,
  ltb, if◌then◌else◌, length, Bool-cases, Option-cases, inl, inr,
}
use smolmux.Stream.Matcher.{Matcher}
use smolmux.Stream.Boot.{Stage, scan_stages, Scan, with_stage}

abbrev pub max_of : ℕ → ℕ → ℕ
max_of a b = a + (b - a)

module _ {E : Type 0} where
  -- One more than the index of the last reached stage of a list that starts with the stage `i`, 0
  -- if no stage is reached.
  abbrev pub highest : ℕ → List (Stage E) → ℕ
  highest i [] = 0
  highest i (s ∷ ss) = max_of (if s.reached then i + 1 else 0) (highest (i + 1) ss)

  abbrev pub reached_count : List (Stage E) → ℕ
  reached_count [] = 0
  reached_count (s ∷ ss) = (if s.reached then 1 else 0) + reached_count ss

  -- Between two lists of stages: the ones reached before are reached, the length is the same.
  pub record Scanned (i ahead : ℕ) (ss : List (Stage E)) (r : Scan E) : Type 0 where
    pub same_length : length r.stages ≡ length ss
    pub top : r.ahead ≡ max_of ahead (highest i r.stages)
    pub more : highest i ss ≤ highest i r.stages
    pub counted : reached_count r.stages ≡ reached_count ss + r.newly

  with_old :
      (i ahead : ℕ) (s s' : Stage E) (ss : List (Stage E)) (r : Scan E)
      → s'.reached ≡ s.reached
      → highest i (s ∷ ss) ≤ ahead
      → Scanned (i + 1) ahead ss r
      → Scanned i ahead (s ∷ ss) (with_stage s' r)
  with_old i ahead s s' ss r same h b = record {
    same_length = omega (arith, b.same_length);
    top = rw same (ground (arith, b.top));
    more = rw same (ground (arith, b.more));
    counted = rw same (omega (arith, b.counted));
  }

  with_new :
      (i ahead : ℕ) (s s' : Stage E) (ss : List (Stage E)) (r : Scan E)
      → s.reached ≡ false
      → s'.reached ≡ true
      → Scanned (i + 1) (if ltb ahead (i + 1) then i + 1 else ahead) ss r
      → Scanned i ahead (s ∷ ss) (record (with_stage s' r) { newly = r.newly + 1 })
  with_new i ahead s s' ss r old new b = record {
    same_length = omega (arith, b.same_length);
    top = rw new (ground (arith, b.top));
    more = rw (old, new) (ground (arith, b.more));
    counted = rw (old, new) (omega (arith, b.counted));
  }

  module _ (m : Matcher E) (region : Bytes) (ts i : ℕ) (s : Stage E) (ss : List (Stage E))
      (ahead last : ℕ) where
    abbrev tried : Stage E
    tried = record s { compiled = (m.exec s.compiled region).1 }

    scan_old :
        s.reached ≡ true
        → scan_stages m region ts i (s ∷ ss) ahead last
          ≡ with_stage s (scan_stages m region ts (i + 1) ss ahead last)
    unfolding scan_stages
    scan_old e = simp e

    scan_miss :
        s.reached ≡ false
        → (m.exec s.compiled region).0 ≡ none
        → scan_stages m region ts i (s ∷ ss) ahead last
          ≡ with_stage tried (scan_stages m region ts (i + 1) ss ahead last)
    unfolding scan_stages
    scan_miss e f = simp (e, f)

    scan_hit :
        (off : ℕ)
        → s.reached ≡ false
        → (m.exec s.compiled region).0 ≡ some off
        → let r =
            scan_stages m region ts (i + 1) ss (if ltb ahead (i + 1) then i + 1 else ahead) ts in
          scan_stages m region ts i (s ∷ ss) ahead last
          ≡ record (with_stage (record tried { reached = true; reached_ts = ts }) r) {
            newly = r.newly + 1;
          }
    unfolding scan_stages
    scan_hit off e f = simp (e, f)

  pub scan_stages-Scanned :
      (m : Matcher E) (region : Bytes) (ts i : ℕ) (ss : List (Stage E)) (ahead last : ℕ)
      → highest i ss ≤ ahead
      → Scanned i ahead ss (scan_stages m region ts i ss ahead last)
  unfolding scan_stages
  scan_stages-Scanned m region ts i [] ahead last h = record {
    same_length = refl;
    top = omega arith;
    more = omega arith;
    counted = omega arith;
  }
  scan_stages-Scanned m region ts i (s ∷ ss) ahead last h =
      let behind = scan_stages-Scanned m region ts (i + 1) ss ahead last (omega arith) in
      let hit =
        scan_stages-Scanned m region ts (i + 1) ss (if ltb ahead (i + 1) then i + 1 else ahead) ts
          (ground arith) in
      elim (Bool-cases s.reached) [
        | inl old ↦
            subst (Scanned i ahead (s ∷ ss)) (sym (scan_old m region ts i s ss ahead last old))
              (with_old i ahead s s ss _ refl h behind)
        | inr new ↦ elim (Option-cases (m.exec s.compiled region).0) [
          | inl miss ↦
              subst (Scanned i ahead (s ∷ ss))
                (sym (scan_miss m region ts i s ss ahead last new miss))
                (with_old i ahead s (tried m region ts i s ss ahead last) ss _ refl h behind)
          | inr (off, found) ↦
              subst (Scanned i ahead (s ∷ ss))
                (sym (scan_hit m region ts i s ss ahead last off new found))
                (with_new i ahead s
                  (record (tried m region ts i s ss ahead last) { reached = true; reached_ts = ts })
                  ss _ new refl hit)
        ]
      ]
