-- ===== src/Broker/Break/Inv.antt =====
-- The machine's invariant, and the results of its steps.
use smolmux.Base.{
  ℕ, suc, ◌+◌, ◌≡◌, refl, ap, Bool, true, false, Option, none, some, List, [], ◌∷◌, arith, ◌==◌,
  if◌then◌else◌,
}
use smolmux.Broker.Line.{Call, Line}
use smolmux.Broker.Break.{Phase, idle, asserted, delay, Break, fire, init}
use smolmux.Broker.Break.Held.{Held, Clears, holds}

-- How often the callback `k` ran.
unfoldable pub fires : ℕ → List (ℕ × Bool) → ℕ
fires k [] = 0
fires k ((j, rc) ∷ fired) = let n = fires k fired in if j == k then suc n else n

-- Whether a callback is `k`, as a number.
unfoldable pub owed : ℕ → Option ℕ → ℕ
owed k none = 0
owed k (some j) = if j == k then 1 else 0

-- An idle machine owes no callback; a busy one has an armed timer.
abbrev pub Awaits : Phase → Option ℕ → Bool → Type 0
Awaits idle owing armed = owing ≡ none
Awaits asserted owing armed = armed ≡ true
Awaits delay owing armed = armed ≡ true

pub owed-none : (k : ℕ) → owed k none ≡ 0
unfolding owed
owed-none k = refl

pub fires-fire :
    (k : ℕ) (o : Option ℕ) (rc : Bool) (fired : List (ℕ × Bool))
    → fires k (fire o rc fired) ≡ fires k fired + owed k o
unfolding fires fire owed
fires-fire k none rc fired = omega arith
fires-fire k (some j) rc fired = ground arith

module _ (link : List (Call × Bool) → Call → Bool) where
  -- The lines are held as the phase says if the link never fails to release one.
  pub record Inv (b : Break) : Type 0 where
    pub awaits : Awaits b.phase b.done b.armed
    pub held : Clears link → Held b.phase b.pin b.line.calls

  -- The result of a request with the callback `o`, accepted or not.
  pub record Kept (b : Break) (o : Option ℕ) (r : Bool × Break) : Type 0 where
    pub inv : Inv r.1
    pub counted :
        (k : ℕ)
        → fires k r.1.fired + owed k r.1.done
          ≡ fires k b.fired + owed k b.done + (if r.0 then owed k o else 0)

  pub refused :
      (b b' : Break) (o : Option ℕ)
      → Inv b'
      → b'.done ≡ b.done
      → b'.fired ≡ b.fired
      → Kept b o (false, b')
  refused b b' o i hd hf = record { inv = i; counted = λ k. rw (hd, hf) (omega arith) }

  pub completed :
      (b b' : Break) (o : Option ℕ) (rc : Bool)
      → Inv b'
      → b'.done ≡ none
      → b'.fired ≡ fire b.done rc b.fired
      → Kept b o (false, b')
  completed b b' o rc i hd hf = record {
    inv = i;
    counted = λ k.
        omega (arith, ap (owed k) hd, ap (fires k) hf, fires-fire k b.done rc b.fired, owed-none k);
  }

pub init-Inv :
    (link : List (Call × Bool) → Call → Bool) (line : Line) → line.calls ≡ [] → Inv link (init line)
unfolding init holds
init-Inv link line new = record { awaits = refl; held = λ _ q. simp new }
