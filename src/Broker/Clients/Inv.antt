-- ===== src/Broker/Clients/Inv.antt =====
-- The invariant of the table of clients.
use smolmux.Base.{
  ℕ, ◌-◌, ◌≤◌, ◌<◌, ◌≡◌, ◌≢◌, inl, inr, refl, sym, ap, subst, ◌∙◌, true, false, Option, none, some,
  List, Bytes, ltb, ◌==◌, if◌then◌else◌, if-elim, length, arith, same_text, Bool-cases,
}
use smolmux.Broker.Clients.{
  Client, client_at, observer, max_clients, Control, place, remove_at, is_holder, remove_client,
}
use smolmux.Broker.Clients.Table.{place-cases, length-remove_at, at-remove_at}

-- A client that may hold the takeover.
abbrev pub MayHold : Client → Type 0
MayHold c = (c.hello_received ≡ true) × (same_text c.role observer ≡ false)

-- The holder of the takeover is connected, has said hello, and is no observer.
abbrev pub Holder : Option ℕ → List Client → Type 0
Holder takeover cs =
    (h : ℕ)
    → takeover ≡ some h
    → (i : ℕ) × (i < length cs) × ((client_at cs i).number ≡ h) × MayHold (client_at cs i)

-- No two clients are the same.
abbrev pub Distinct : List Client → Type 0
Distinct cs =
    (i j : ℕ)
    → i < length cs
    → j < length cs
    → (client_at cs i).number ≡ (client_at cs j).number
    → i ≡ j

-- Two clients that have said hello under the same name.
abbrev pub Clash : Client → Client → Type 0
Clash c d =
    (c.hello_received ≡ true)
    × (d.hello_received ≡ true)
    × (0 < length c.name)
    × (same_text c.name d.name ≡ true)

-- Two such clients whose numbers count.
abbrev pub ClashIn : (ℕ → Type 0) → Client → Client → Type 0
ClashIn counts c d = Clash c d × counts c.number × counts d.number

-- No two clients whose numbers count clash.
abbrev pub Named : (ℕ → Type 0) → List Client → Type 0
Named counts cs =
    (i j : ℕ)
    → i < length cs
    → j < length cs
    → ClashIn counts (client_at cs i) (client_at cs j)
    → i ≡ j

abbrev pub Fresh : ℕ → List Client → Type 0
Fresh next cs = (i : ℕ) → i < length cs → (client_at cs i).number < next

-- The part of the invariant that stays while the names are put in order.
pub record Registered {E : Type 0} (b : Control E) : Type 0 where
  pub few : length b.clients ≤ max_clients
  pub distinct : Distinct b.clients
  pub fresh : Fresh b.next_client_num b.clients
  pub holder : Holder b.takeover b.clients

module _ (p : ℕ) (cs : List Client) (in_table : p < length cs) where
  -- The place that the client at `j` had.
  old : ℕ → ℕ
  old j = if j == p then length cs - 1 else j

  old_small : (j : ℕ) → j < length cs - 1 → old j < length cs
  unfolding old
  old_small j h = ground arith

  old_inj : (i j : ℕ) → i < length cs - 1 → j < length cs - 1 → old i ≡ old j → i ≡ j
  unfolding old
  old_inj i j hi hj e = ground arith

  -- What holds of all pairs of places holds of all pairs that are left.
  pub pairs-remove_at :
      (R : Client → Client → Type 0)
      → ((i j : ℕ) → i < length cs → j < length cs → R (client_at cs i) (client_at cs j) → i ≡ j)
      → let left = remove_at p cs in
        (i j : ℕ)
        → i < length left
        → j < length left
        → R (client_at left i) (client_at left j)
        → i ≡ j
  unfolding old
  pairs-remove_at R all i j hi hj r =
      let left = length-remove_at p cs in_table in
      let small : i < length cs - 1 = omega (arith, left) in
      let small' : j < length cs - 1 = omega (arith, left) in
      old_inj i j small small' (
        all (old i) (old j) (old_small i small) (old_small j small') (
          subst (λ c. R c (client_at cs (old j))) (at-remove_at p cs in_table i small)
            (subst (R (client_at (remove_at p cs) i)) (at-remove_at p cs in_table j small') r)))

  pub all-remove_at :
      (P : Client → Type 0)
      → ((i : ℕ) → i < length cs → P (client_at cs i))
      → (i : ℕ) → i < length (remove_at p cs)
      → P (client_at (remove_at p cs) i)
  unfolding old
  all-remove_at P all i h =
      let small : i < length cs - 1 = omega (arith, length-remove_at p cs in_table) in
      subst P (sym (at-remove_at p cs in_table i small)) (all (old i) (old_small i small))

  -- A client at another place is still there.
  pub stays-remove_at :
      (i : ℕ)
      → i < length cs
      → i ≢ p
      → (j : ℕ) × (j < length (remove_at p cs)) × (client_at (remove_at p cs) j ≡ client_at cs i)
  stays-remove_at i h other = elim (Bool-cases (i == length cs - 1)) [
    | inl last ↦
        let small : p < length cs - 1 = ground arith in
        (
          p,
          omega (arith, left),
          at-remove_at p cs in_table p small ∙ ap (client_at cs) (ground arith),
        )
    | inr inner ↦
        let small : i < length cs - 1 = ground arith in
        (
          i,
          omega (arith, left),
          at-remove_at p cs in_table i small ∙ ap (client_at cs) (ground arith),
        )
  ]
    where
      left : length (remove_at p cs) ≡ length cs - 1
      left = length-remove_at p cs in_table

  -- So is the holder of the takeover, another client than the removed one.
  Holder-remove_at :
      (t : Option ℕ)
      → Holder t cs
      → ((h : ℕ) → t ≡ some h → (client_at cs p).number ≢ h)
      → Holder t (remove_at p cs)
  Holder-remove_at t holder other h e =
      let (i, small, at, may) = holder h e in
      let (j, small', same) =
        stays-remove_at i small
          (λ same. other h e (ap (λ i. (client_at cs i).number) (sym same) ∙ at)) in
      (j, small', ap (λ c. c.number) same ∙ at, subst MayHold (sym same) may)

remove_at_out : (p : ℕ) (cs : List Client) → p ≡ length cs → remove_at p cs ≡ cs
unfolding remove_at
remove_at_out p cs e = rw out refl
  where
    out : ltb p (length cs) ≡ false
    out = ground arith

pub kept_holder :
    (k h : ℕ) (t : Option ℕ) → (if is_holder k t then none else t) ≡ some h → (t ≡ some h) × (k ≢ h)
unfolding is_holder
kept_holder k h none = λ e. absurd (ground arith)
kept_holder k h (some g) =
    if-elim (λ (t : Option ℕ). t ≡ some h → (some g ≡ some h) × (k ≢ h)) (g == k) _ _
      (λ same e. absurd (ground arith)) (λ other e. (e, λ f. ground arith))

module _ {E : Type 0} (id_text : ℕ → Bytes) (b : Control E) (k : ℕ) (r : Registered b) where
  pub remove_client-Registered : Registered (remove_client id_text b k)
  unfolding remove_client
  remove_client-Registered = elim (place-cases k b.clients) [
    | inl found ↦ record {
      few = omega (arith, r.few, length-remove_at p b.clients found.0);
      distinct = pairs-remove_at p b.clients found.0 (λ c d. c.number ≡ d.number) r.distinct;
      fresh = all-remove_at p b.clients found.0 (λ c. c.number < b.next_client_num) r.fresh;
      holder =
          Holder-remove_at p b.clients found.0 t still
            (λ h e f. (kept_holder k h b.takeover e).1 (sym found.1 ∙ f));
    }
    | inr missing ↦
        let same = remove_at_out p b.clients missing in
        record {
          few = rw same r.few;
          distinct = rw same r.distinct;
          fresh = rw same r.fresh;
          holder = rw same still;
        }
  ]
    where
      p : ℕ
      p = place k b.clients

      t : Option ℕ
      t = if is_holder k b.takeover then none else b.takeover

      still : Holder t b.clients
      still h e = r.holder h (kept_holder k h b.takeover e).0

  pub remove_client-Named :
      (counts : ℕ → Type 0)
      → Named counts b.clients
      → Named counts (remove_client id_text b k).clients
  unfolding remove_client
  remove_client-Named counts named = elim (place-cases k b.clients) [
    | inl found ↦ pairs-remove_at (place k b.clients) b.clients found.0 (ClashIn counts) named
    | inr missing ↦ rw (remove_at_out (place k b.clients) b.clients missing) named
  ]
