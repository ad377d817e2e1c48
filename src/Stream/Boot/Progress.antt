-- ===== src/Stream/Boot/Progress.antt =====
-- The tracker's `furthest` is the highest stage that is reached.
use smolmux.Base.{
  ℕ, ◌+◌, ◌≤◌, ◌<◌, Bool, false, ◌||◌, Option, none, some, List, [], ◌∷◌, ◌≡◌, refl, sym, ap, ◌∙◌,
  arith, Bytes, leb, ◌==◌, length, length-drop, Bool-cases, inl, inr,
}
use smolmux.Stream.Matcher.{Matcher}
use smolmux.Stream.Window.{window_append}
use smolmux.Stream.Window.Laws
use smolmux.Stream.Window.Laws.{window_append-Appended}
use smolmux.Stream.Boot.{
  Stage, Tracker, init, feed, scan_stages, finish_feed, reset, clear_stages, check_reboot, reboot,
  max_stages,
}
use smolmux.Stream.Boot.Stages.{highest, reached_count, scan_stages-Scanned}

module _ {E : Type 0} where
  -- The invariant of a tracker.
  pub record IsValid (t : Tracker E) : Type 0 where
    pub window : Laws.IsValid t.window
    pub top : t.ahead ≡ highest 0 t.stages
    pub few : length t.stages ≤ max_stages

  highest_clear : (i : ℕ) (ss : List (Stage E)) → highest i (clear_stages ss) ≡ 0
  unfolding clear_stages
  highest_clear i [] = refl
  highest_clear i (s ∷ ss) = omega (arith, highest_clear (i + 1) ss)

  length-clear_stages : (ss : List (Stage E)) → length (clear_stages ss) ≡ length ss
  unfolding clear_stages
  length-clear_stages [] = refl
  length-clear_stages (s ∷ ss) = omega (arith, length-clear_stages ss)

  pub init-IsValid : (ok : Bool) → IsValid (init ok)
  unfolding init
  init-IsValid ok = record {
    window = record { fits = λ h. h; scanned = omega arith };
    top = refl;
    few = omega arith;
  }

  pub reset-IsValid :
      (t : Tracker E) → Laws.IsValid t.window → length t.stages ≤ max_stages → IsValid (reset t)
  unfolding reset
  reset-IsValid t w few = record {
    window = w;
    top = sym (highest_clear 0 t.stages);
    few = omega (arith, length-clear_stages t.stages);
  }

  reboot-IsValid :
      (t : Tracker E) (s : Stage E) (ss : List (Stage E)) (e : E) (found : Option ℕ)
      → IsValid t
      → t.stages ≡ s ∷ ss
      → IsValid (reboot t (record s { compiled = e }) ss found)
  unfolding reboot
  reboot-IsValid t s ss e none v h = record {
    window = v.window;
    top = v.top ∙ ap (highest 0) h;
    few = omega (arith, v.few, ap length h);
  }
  reboot-IsValid t s ss e (some noff) v h =
      reset-IsValid _
        (record {
          fits = λ pos. omega (
            arith,
            length-drop (t.window.search_offset + noff) t.window.bytes,
            v.window.fits pos,
          );
          scanned = omega arith;
        })
        (omega (arith, v.few, ap length h))

  check_reboot-IsValid :
      (m : Matcher E) (t : Tracker E) (ss : List (Stage E))
      → IsValid t
      → t.stages ≡ ss
      → IsValid (check_reboot m t ss)
  unfolding check_reboot
  check_reboot-IsValid m t [] v h = v
  check_reboot-IsValid m t (s ∷ ss) v h = elim (Bool-cases (leb 2 t.ahead)) [
    | inl past ↦ rw past (reboot-IsValid t s ss _ _ v h)
    | inr early ↦ rw early v
  ]

  -- `check_reboot` does nothing before the second stage.
  check_reboot_early :
      (m : Matcher E) (t : Tracker E) (ss : List (Stage E)) → t.ahead < 2 → check_reboot m t ss ≡ t
  unfolding check_reboot
  check_reboot_early m t [] h = refl
  check_reboot_early m t (s ∷ ss) h = let e : leb 2 t.ahead ≡ false = ground arith in rw e refl

  -- What `sm_boot_feed` comes to.
  pub record Advanced (t : Tracker E) (out : ℕ × Tracker E) : Type 0 where
    pub valid : IsValid out.1
    pub counted : t.ahead < 2 → reached_count out.1.stages ≡ reached_count t.stages + out.0
    pub forward : t.ahead < 2 → t.ahead ≤ out.1.ahead

  finish_feed-IsValid :
      (m : Matcher E) (t : Tracker E) (region : Bytes) (ts : ℕ)
      → IsValid t
      → Advanced t (finish_feed t (scan_stages m region ts 0 t.stages t.ahead t.last_advance_ts))
  unfolding finish_feed
  finish_feed-IsValid m t region ts v =
      let r =
        scan_stages-Scanned m region ts 0 t.stages t.ahead t.last_advance_ts
          (omega (arith, v.top)) in
      record {
        valid = record {
          window = record { fits = v.window.fits; scanned = omega arith };
          top = omega (arith, r.top, r.more, v.top);
          few = omega (arith, r.same_length, v.few);
        };
        counted = λ _. r.counted;
        forward = λ _. omega (arith, r.top);
      }

  Advanced-early :
      (t t' : Tracker E) (out : ℕ × Tracker E)
      → (t.ahead < 2 → t'.ahead ≡ t.ahead)
      → (t.ahead < 2 → t'.stages ≡ t.stages)
      → Advanced t' out
      → Advanced t out
  Advanced-early t t' out same_ahead same_stages a = record {
    valid = a.valid;
    counted = λ h.
        a.counted (omega (arith, same_ahead h))
        ∙ ap (λ ss. reached_count ss + out.0) (same_stages h);
    forward = λ h. omega (arith, same_ahead h, a.forward (omega (arith, same_ahead h)));
  }

  -- `sm_boot_feed` keeps the invariant: the window is within its block, and `furthest` is the highest
  -- stage that is reached. While the boot is not past stage 0 no reboot is looked for; then the
  -- result is the number of stages that are reached now and were not before, and `furthest` does
  -- not go back.
  pub feed-Advanced :
      (m : Matcher E) (t : Tracker E) (input : Bytes) (ts : ℕ)
      → IsValid t
      → Advanced t (feed m t input ts)
  unfolding feed
  feed-Advanced m t input ts v =
      elim (Bool-cases (length input == 0 || length t.stages == 0 || t.window.cap == 0)) [
        | inl idle ↦
            rw idle (record { valid = v; counted = λ _. omega arith; forward = λ _. omega arith })
        | inr busy ↦ rw busy (
            Advanced-early t (check_reboot m fed t.stages) _
              (λ h. ap (λ x. x.ahead) (check_reboot_early m fed t.stages h))
              (λ h. ap (λ x. x.stages) (check_reboot_early m fed t.stages h))
              (finish_feed-IsValid m _ _ ts
                (check_reboot-IsValid m fed t.stages (fed-IsValid (ground arith)) refl)))
      ]
    where
      fed : Tracker E
      fed = record t { window = window_append t.window input }

      fed-IsValid : 0 < t.window.cap → IsValid fed
      fed-IsValid pos = record {
        window = (window_append-Appended t.window input pos v.window).valid;
        top = v.top;
        few = v.few;
      }
