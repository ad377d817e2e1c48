-- ===== src/Broker/Clients/Replace.antt =====
-- The loop of `handle_hello` that replaces older connections of the same name.
use smolmux.Base.{
  same_text_eq, same_text_refl, ℕ, zero, suc, ◌-◌, ◌≤◌, ◌<◌, ◌≡◌, ◌≢◌, inl, inr, refl, sym, ap, ◌∙◌,
  true, false, List, Bytes, ◌==◌, if-elim, length, arith, Bool-cases,
}
use smolmux.Broker.Clients.{
  Client, client_at, Control, place, remove_at, is_older, remove_client, replace_older,
}
use smolmux.Broker.Clients.Table.{place-cases, place_first, length-remove_at, at-remove_at}
use smolmux.Broker.Clients.Inv.{
  Registered, Distinct, Clash, Named, remove_client-Registered, remove_client-Named, all-remove_at,
}

-- No two clients that have said hello have the same name.
abbrev pub AllNamed : List Client → Type 0
AllNamed cs =
    (i j : ℕ) → i < length cs → j < length cs → Clash (client_at cs i) (client_at cs j) → i ≡ j

place_known :
    (cs : List Client) (i : ℕ) → Distinct cs → i < length cs → place (client_at cs i).number cs ≡ i
place_known cs i distinct small = elim (place-cases (client_at cs i).number cs) [
  | inl found ↦ distinct _ i found.0 small found.1
  | inr missing ↦ absurd (omega (arith, place_first (client_at cs i).number cs i small refl))
]

older :
    (k : ℕ) (name : Bytes) (c : Client)
    → c.number ≢ k
    → c.hello_received ≡ true
    → 0 < length name
    → c.name ≡ name
    → is_older k name c ≡ true
unfolding is_older
older k name c other greeted named same = rw same (ground (arith, same_text_refl name))

module _ {E : Type 0} (id_text : ℕ → Bytes) (k : ℕ) (name : Bytes) where
  -- The table on the way, when the places from `i` on hold no older connection.
  pub record Replacing (i : ℕ) (b : Control E) : Type 0 where
    pub registered : Registered b
    pub named : Named (λ n. n ≢ k) b.clients
    pub own :
        (j : ℕ)
        → j < length b.clients
        → (client_at b.clients j).number ≡ k
        → (client_at b.clients j).name ≡ name
    pub checked :
        (j : ℕ) → i ≤ j → j < length b.clients → is_older k name (client_at b.clients j) ≡ false
    pub within : i ≤ length b.clients

  removed :
      (i : ℕ) (b : Control E)
      → Replacing (suc i) b
      → Replacing i (remove_client id_text b (client_at b.clients i).number)
  unfolding remove_client
  removed i b r = record {
    registered = remove_client-Registered id_text b num r.registered;
    named = remove_client-Named id_text b num r.registered (λ n. n ≢ k) r.named;
    own = rw at (all-remove_at i b.clients small (λ c. c.number ≡ k → c.name ≡ name) r.own);
    checked = rw at (λ j above h.
        let inner : j < length b.clients - 1 = omega (arith, left) in
        rw (at-remove_at i b.clients small j inner) (
          if-elim (λ p. is_older k name (client_at b.clients p) ≡ false) (j == i) _ _
            (λ e. r.checked (length b.clients - 1) (ground arith) (omega arith))
            (λ e. r.checked j (ground arith) (omega arith))));
    within = rw at (omega (arith, left, r.within));
  }
    where
      small : i < length b.clients
      small = omega (arith, r.within)

      num : ℕ
      num = (client_at b.clients i).number

      at : place num b.clients ≡ i
      at = place_known b.clients i r.registered.distinct small

      left : length (remove_at i b.clients) ≡ length b.clients - 1
      left = length-remove_at i b.clients small

  kept :
      (i : ℕ) (b : Control E)
      → Replacing (suc i) b
      → is_older k name (client_at b.clients i) ≡ false
      → Replacing i b
  kept i b r young = record {
    registered = r.registered;
    named = r.named;
    own = r.own;
    checked = λ j above h. elim (Bool-cases (j == i)) [
      | inl same ↦ rw (ground_eq j same) young
      | inr other ↦ r.checked j (ground arith) h
    ];
    within = omega (arith, r.within);
  }
    where
      ground_eq : (j : ℕ) → (j == i) ≡ true → j ≡ i
      ground_eq j e = ground arith

  pub replace_older-Replacing :
      (i : ℕ) (b : Control E) → Replacing i b → Replacing 0 (replace_older id_text k name i b)
  unfolding replace_older
  replace_older-Replacing zero b r = r
  replace_older-Replacing (suc i) b r = replace_older-Replacing i _ (
      if-elim (Replacing i) (is_older k name (client_at b.clients i)) _ _ (λ e. removed i b r)
        (kept i b r))

  -- A client without a name clashes with none.
  pub nameless-AllNamed :
      (i : ℕ) (b : Control E) → length name ≡ 0 → Replacing i b → AllNamed b.clients
  nameless-AllNamed n b nameless r i j hi hj clash =
      let alike : (client_at b.clients i).name ≡ (client_at b.clients j).name =
        same_text_eq _ _ clash.3 in
      r.named i j hi hj (
        clash,
        (λ e. absurd (omega (arith, clash.2, ap length (r.own i hi e)))),
        (λ e. absurd (omega (arith, clash.2, ap length alike, ap length (r.own j hj e)))),
      )

  -- At the end of the loop no two clients clash.
  pub Replacing-AllNamed : (b : Control E) → 0 < length name → Replacing 0 b → AllNamed b.clients
  Replacing-AllNamed b named r i j hi hj clash = elim (Bool-cases (first.number == k)) [
    | inl mine ↦ elim (Bool-cases (second.number == k)) [
      | inl too ↦ r.registered.distinct i j hi hj (ground arith)
      | inr other ↦ absurd (
          ground (
            arith,
            r.checked j (omega arith) hj,
            older k name second (ground arith) clash.1 named
                (sym alike ∙ r.own i hi (ground arith)),
          ))
    ]
    | inr other ↦ elim (Bool-cases (second.number == k)) [
      | inl mine ↦ absurd (
          ground (
            arith,
            r.checked i (omega arith) hi,
            older k name first (ground arith) clash.0 named (alike ∙ r.own j hj (ground arith)),
          ))
      | inr too ↦ r.named i j hi hj (clash, (λ e. ground arith), (λ e. ground arith))
    ]
  ]
    where
      first : Client
      first = client_at b.clients i

      second : Client
      second = client_at b.clients j

      alike : (client_at b.clients i).name ≡ (client_at b.clients j).name
      alike = same_text_eq _ _ clash.3
