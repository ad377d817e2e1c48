-- ===== src/Broker/Clients/Register.antt =====
-- A new connection in the table of clients.
use smolmux.Base.{
  ℕ, ◌+◌, ◌<◌, ◌≡◌, inl, inr, refl, sym, ap, subst, ◌∙◌, Bool, true, List, [], ◌∷◌, ◌++◌, ◌==◌,
  length, length-append, zero, suc, arith, Bool-cases,
}
use smolmux.Broker.Clients.{Client, new_client, client_at, max_clients, Control}
use smolmux.Broker.Clients.Inv.{Registered, Clash, MayHold}
use smolmux.Broker.Clients.Replace.{AllNamed}

get_or-append_lt :
    (cs ds : List Client) (i : ℕ) → i < length cs → client_at (cs ++ ds) i ≡ client_at cs i
get_or-append_lt [] ds i h = absurd (omega arith)
get_or-append_lt (c ∷ cs) ds zero h = refl
get_or-append_lt (c ∷ cs) ds (suc i) h = get_or-append_lt cs ds i (omega arith)

get_or-append_last : (cs ds : List Client) (c : Client) → client_at (cs ++ c ∷ ds) (length cs) ≡ c
get_or-append_last [] ds c = refl
get_or-append_last (d ∷ cs) ds c = get_or-append_last cs ds c

module _ (cs : List Client) (c : Client) where
  size : length (cs ++ c ∷ []) ≡ length cs + 1
  size = length-append cs (c ∷ [])

  at_old : (i : ℕ) → i < length cs → client_at (cs ++ c ∷ []) i ≡ client_at cs i
  at_old i h = get_or-append_lt cs (c ∷ []) i h

  at_last :
      (i : ℕ) → i < length (cs ++ c ∷ []) → (i == length cs) ≡ true → client_at (cs ++ c ∷ []) i ≡ c
  at_last i h e = ap (client_at (cs ++ c ∷ [])) (ground arith) ∙ get_or-append_last cs [] c

  -- A property of all clients, and of the new one.
  all_snoc :
      (P : Client → Type 0)
      → P c
      → ((i : ℕ) → i < length cs → P (client_at cs i))
      → (i : ℕ) → i < length (cs ++ c ∷ [])
      → P (client_at (cs ++ c ∷ []) i)
  all_snoc P p all i h = elim (Bool-cases (i == length cs)) [
    | inl last ↦ subst P (sym (at_last i h last)) p
    | inr other ↦
        let inner : i < length cs = ground (arith, size) in
        subst P (sym (at_old i inner)) (all i inner)
  ]

  -- A relation of no two clients, and of none with the new one.
  pairs_snoc :
      (R : Client → Client → Type 0)
      → ((i : ℕ)
          → i < length cs
          → (R c (client_at cs i) → i ≡ length cs) × (R (client_at cs i) c → i ≡ length cs))
      → ((i j : ℕ) → i < length cs → j < length cs → R (client_at cs i) (client_at cs j) → i ≡ j)
      → (i j : ℕ) → i < length (cs ++ c ∷ [])
      → j < length (cs ++ c ∷ [])
      → R (client_at (cs ++ c ∷ []) i) (client_at (cs ++ c ∷ []) j)
      → i ≡ j
  pairs_snoc R none_new all i j hi hj = elim (Bool-cases (i == length cs)) [
    | inl last ↦ elim (Bool-cases (j == length cs)) [
      | inl last' ↦ λ r. ground arith
      | inr other ↦ λ r.
          let inner : j < length cs = ground (arith, size) in
          let none_new' = none_new j inner in
          absurd (
            ground (
              arith,
              none_new'.0 (
                  subst (λ d. R d (client_at cs j)) (at_last i hi last)
                    (subst (R _) (at_old j inner) r)),
            ))
    ]
    | inr other ↦ elim (Bool-cases (j == length cs)) [
      | inl last' ↦ λ r.
          let inner : i < length cs = ground (arith, size) in
          let none_new' = none_new i inner in
          absurd (
            ground (
              arith,
              none_new'.1
                  (subst (λ d. R d c) (at_old i inner) (subst (R _) (at_last j hj last') r)),
            ))
      | inr other' ↦ λ r.
          let inner : i < length cs = ground (arith, size) in
          let inner' : j < length cs = ground (arith, size) in
          all i j inner inner'
            (subst (λ d. R d (client_at cs j)) (at_old i inner) (subst (R _) (at_old j inner') r))
    ]
  ]

module _ {E : Type 0} (b : Control E) (auth : Bool) where
  -- The new client of `register_client`.
  abbrev pub fresh_client : Client
  fresh_client = record (new_client b.next_client_num) { requires_auth = auth }

  pub snoc-Registered :
      length b.clients < max_clients
      → Registered b
      → Registered (record b {
        clients = b.clients ++ fresh_client ∷ [];
        next_client_num = b.next_client_num + 1;
      })
  snoc-Registered room r = record {
    few = omega (arith, size b.clients fresh_client, room);
    distinct =
        pairs_snoc b.clients fresh_client (λ c d. c.number ≡ d.number)
          (λ i h. (
            (λ e. absurd (omega (arith, r.fresh i h, e))),
            (λ e. absurd (omega (arith, r.fresh i h, e))),
          ))
          r.distinct;
    fresh =
        all_snoc b.clients fresh_client (λ c. c.number < b.next_client_num + 1) (omega arith)
          (λ i h. omega (arith, r.fresh i h));
    holder = λ h e.
        let (i, small, at, may) = r.holder h e in
        let same = at_old b.clients fresh_client i small in
        (
          i,
          omega (arith, size b.clients fresh_client, small),
          ap (λ c. c.number) same ∙ at,
          subst MayHold (sym same) may,
        );
  }

  pub snoc-AllNamed : AllNamed b.clients → AllNamed (b.clients ++ fresh_client ∷ [])
  snoc-AllNamed all =
      pairs_snoc b.clients fresh_client Clash
        (λ i h. ((λ e. absurd (ground arith)), (λ e. absurd (ground arith)))) all
