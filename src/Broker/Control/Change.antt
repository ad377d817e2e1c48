-- ===== src/Broker/Control/Change.antt =====
-- What a change of one client does to the table.
use smolmux.Base.{
  ℕ, ◌<◌, ◌≡◌, ◌≢◌, refl, sym, ap, ap₂, subst, ◌∙◌, true, some, List, ◌==◌, if◌then◌else◌, if-elim,
  length, arith, same_text,
}
use smolmux.Broker.Clients.{Client, client_at, Control, find}
use smolmux.Broker.Clients.Table.{length-update, at-update, find-place}
use smolmux.Broker.Clients.Inv.{Registered, Distinct, MayHold, Clash, Named}
use smolmux.Broker.Clients.Replace.{AllNamed}
use smolmux.Broker.Control.{change}

-- What holds of the client with a number.
abbrev pub AtNumber : ℕ → (Client → Type 0) → List Client → Type 0
AtNumber k P cs = (i : ℕ) → i < length cs → (client_at cs i).number ≡ k → P (client_at cs i)

pub find-AtNumber :
    (k : ℕ) (P : Client → Type 0) (cs : List Client) (c : Client)
    → Distinct cs
    → find k cs ≡ some c
    → P c
    → AtNumber k P cs
find-AtNumber k P cs c distinct found p i h e =
    let (j, small, at, known) = find-place k cs c found in
    let same = distinct j i small h (ap (λ d. d.number) at ∙ known ∙ sym e) in
    subst (λ i. P (client_at cs i)) same (subst P (sym at) p)

module _ {E : Type 0} where
  -- A change of one client that leaves its number.
  module _ (k : ℕ) (f : Client → Client) (b : Control E)
      (keeps : (c : Client) → (f c).number ≡ c.number) where
    pub at_change :
        (i : ℕ)
        → i < length b.clients
        → client_at (change k f b).clients i ≡ (
            if (client_at b.clients i).number == k
            then f (client_at b.clients i)
            else client_at b.clients i)
    unfolding change
    at_change i h = at-update k f b.clients i h

    pub size_change : length (change k f b).clients ≡ length b.clients
    unfolding change
    size_change = length-update k f b.clients

    pub number_change :
        (i : ℕ)
        → i < length b.clients
        → (client_at (change k f b).clients i).number ≡ (client_at b.clients i).number
    number_change i h =
        ap (λ c. c.number) (at_change i h)
        ∙ if-elim (λ (c : Client). c.number ≡ (client_at b.clients i).number)
            ((client_at b.clients i).number == k) _ _ (λ e. keeps _) (λ e. refl)

    pub change-Registered :
        AtNumber k (λ c. MayHold c → MayHold (f c)) b.clients
        → Registered b
        → Registered (change k f b)
    change-Registered may r = record {
      few = omega (arith, size_change, r.few);
      distinct = λ i j hi hj e.
          let hi' : i < length b.clients = omega (arith, size_change) in
          let hj' : j < length b.clients = omega (arith, size_change) in
          r.distinct i j hi' hj' (sym (number_change i hi') ∙ e ∙ number_change j hj');
      fresh = λ i h.
          let h' : i < length b.clients = omega (arith, size_change) in
          unfold change in omega (arith, r.fresh i h', number_change i h');
      holder = λ h e.
          let (i, small, at, m) = r.holder h (unfold change in e) in
          (
            i,
            omega (arith, size_change),
            number_change i small ∙ at,
            subst MayHold (sym (at_change i small)) (
                if-elim MayHold ((client_at b.clients i).number == k) _ _
                  (λ mine. may i small (ground arith) m) (λ other. m)),
          );
    }

    -- A change of a client leaves the others' names in order.
    pub change-Named : AllNamed b.clients → Named (λ n. n ≢ k) (change k f b).clients
    change-Named all i j hi hj clash =
        let hi' : i < length b.clients = omega (arith, size_change) in
        let hj' : j < length b.clients = omega (arith, size_change) in
        all i j hi' hj' (
          subst (λ c. Clash c (client_at b.clients j)) (unchanged i hi' clash.1)
            (subst (Clash (client_at (change k f b).clients i)) (unchanged j hj' clash.2) clash.0))
      where
        unchanged :
            (i : ℕ)
            → i < length b.clients
            → (client_at (change k f b).clients i).number ≢ k
            → client_at (change k f b).clients i ≡ client_at b.clients i
        unchanged i h other =
            at_change i h
            ∙ if-elim (λ c. c ≡ client_at b.clients i) ((client_at b.clients i).number == k) _ _
                (λ mine. absurd (other (number_change i h ∙ ground arith))) (λ _. refl)

    -- So does a change of a client that says no hello, and keeps the name if it has said it.
    pub change-AllNamed :
        AtNumber k
          (λ c. (f c).hello_received ≡ true → (c.hello_received ≡ true) × ((f c).name ≡ c.name))
          b.clients
        → AllNamed b.clients
        → AllNamed (change k f b).clients
    change-AllNamed calm all i j hi hj clash =
        let hi' : i < length b.clients = omega (arith, size_change) in
        let hj' : j < length b.clients = omega (arith, size_change) in
        let (greeted, same) = before i hi' clash.0 in
        let (greeted', same') = before j hj' clash.1 in
        all i j hi' hj' (
          greeted,
          greeted',
          subst (λ n. 0 < length n) same clash.2,
          ap₂ same_text (sym same) (sym same') ∙ clash.3,
        )
      where
        before :
            (i : ℕ)
            → i < length b.clients
            → (client_at (change k f b).clients i).hello_received ≡ true
            → ((client_at b.clients i).hello_received ≡ true)
              × ((client_at (change k f b).clients i).name ≡ (client_at b.clients i).name)
        before i h = rw (at_change i h) (
            if-elim
              (λ (d : Client).
                d.hello_received ≡ true
                → ((client_at b.clients i).hello_received ≡ true)
                  × (d.name ≡ (client_at b.clients i).name))
              ((client_at b.clients i).number == k) _ _ (λ e. calm i h (ground arith))
              (λ e g. (g, refl)))

    pub AtNumber-change :
        (P : Client → Type 0)
        → AtNumber k (λ c. P (f c)) b.clients
        → AtNumber k P (change k f b).clients
    AtNumber-change P at i h e =
        let h' : i < length b.clients = omega (arith, size_change) in
        let mine : (client_at b.clients i).number ≡ k = sym (number_change i h') ∙ e in
        subst P (sym (at_change i h')) (
          if-elim P ((client_at b.clients i).number == k) _ _ (λ _. at i h' mine)
            (λ other. absurd (ground arith)))
