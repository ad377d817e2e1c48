-- ===== src/Broker/Clients/Table.antt =====
-- The table of clients read by places: what its operations do to each place.
use smolmux.Base.{
  ℕ, zero, suc, ◌-◌, ◌≤◌, ◌<◌, ◌≡◌, ◌⊎◌, inl, inr, refl, ap, ◌∙◌, true, Option, some, List, [], ◌∷◌,
  ltb, ◌==◌, if◌then◌else◌, length, set, take, arith, length-take, length-set, get_or-set_self,
  get_or-set_ne, if-elim,
}
use smolmux.Broker.Clients.{Client, new_client, client_at, find, update, place, remove_at}

module _ (k : ℕ) where
  pub place-cases :
      (cs : List Client)
      → ((place k cs < length cs) × ((client_at cs (place k cs)).number ≡ k))
        ⊎ (place k cs ≡ length cs)
  unfolding place
  place-cases [] = inr refl
  place-cases (c ∷ cs) =
      if-elim
        (λ (p : ℕ).
          ((p < suc (length cs)) × ((client_at (c ∷ cs) p).number ≡ k)) ⊎ (p ≡ suc (length cs)))
        (c.number == k) _ _ (λ e. inl (omega arith, ground arith))
        (λ e. elim (place-cases cs) [
          | inl found ↦ inl (omega (arith, found.0), found.1)
          | inr missing ↦ inr (ap suc missing)
        ])

  pub place_first :
      (cs : List Client) (i : ℕ) → i < length cs → (client_at cs i).number ≡ k → place k cs ≤ i
  unfolding place
  place_first [] i small e = absurd (omega arith)
  place_first (c ∷ cs) zero small e = ground arith
  place_first (c ∷ cs) (suc i) small e = ground (arith, place_first cs i (omega arith) e)

  pub find-place :
      (cs : List Client) (c : Client)
      → find k cs ≡ some c
      → (i : ℕ) × (i < length cs) × (client_at cs i ≡ c) × (c.number ≡ k)
  unfolding find
  find-place [] c = λ e. absurd (ground arith)
  find-place (d ∷ cs) c =
      if-elim
        (λ (o : Option Client).
          o ≡ some c
          → (i : ℕ) × (i < suc (length cs)) × (client_at (d ∷ cs) i ≡ c) × (c.number ≡ k))
        (d.number == k) _ _ (λ e here. (zero, omega arith, ground arith, ground arith))
        (λ e there.
          let (i, small, at, known) = find-place cs c there in (suc i, omega arith, at, known))

  pub find_number : (cs : List Client) (c : Client) → find k cs ≡ some c → c.number ≡ k
  find_number cs c e = let (i, small, at, known) = find-place cs c e in known

  module _ (f : Client → Client) where
    pub length-update : (cs : List Client) → length (update k f cs) ≡ length cs
    unfolding update
    length-update [] = refl
    length-update (c ∷ cs) = ap suc (length-update cs)

    pub at-update :
        (cs : List Client) (i : ℕ)
        → i < length cs
        → client_at (update k f cs) i
          ≡ (if (client_at cs i).number == k then f (client_at cs i) else client_at cs i)
    unfolding update
    at-update [] i h = absurd (omega arith)
    at-update (c ∷ cs) zero h = refl
    at-update (c ∷ cs) (suc i) h = at-update cs i (omega arith)

get_or-take : (n i : ℕ) (cs : List Client) → i < n → client_at (take n cs) i ≡ client_at cs i
get_or-take zero i cs h = absurd (omega arith)
get_or-take (suc n) i [] h = refl
get_or-take (suc n) zero (c ∷ cs) h = refl
get_or-take (suc n) (suc i) (c ∷ cs) h = get_or-take n i cs (omega arith)

module _ (p : ℕ) (cs : List Client) (in_table : p < length cs) where
  within : ltb p (length cs) ≡ true
  within = ground arith

  pub length-remove_at : length (remove_at p cs) ≡ length cs - 1
  unfolding remove_at
  length-remove_at =
      rw within (length-take last patched ∙ omega (arith, length-set cs p (client_at cs last)))
    where
      last : ℕ
      last = length cs - 1

      patched : List Client
      patched = set cs p (client_at cs last)

  -- The client that the place `j` has when the one at `p` is gone.
  pub at-remove_at :
      (j : ℕ)
      → j < length cs - 1
      → client_at (remove_at p cs) j ≡ client_at cs (if j == p then length cs - 1 else j)
  unfolding remove_at
  at-remove_at j h = rw within (
      get_or-take last j patched h
      ∙ if-elim (λ i. client_at patched j ≡ client_at cs i) (j == p) _ _
          (λ e.
            let same : j ≡ p = ground arith in
            rw same (get_or-set_self cs p (client_at cs last) (new_client 0) in_table))
          (λ e. get_or-set_ne cs p j (client_at cs last) (new_client 0) (λ f. ground arith)))
    where
      last : ℕ
      last = length cs - 1

      patched : List Client
      patched = set cs p (client_at cs last)
