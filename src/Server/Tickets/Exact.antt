-- ===== src/Server/Tickets/Exact.antt =====
-- Which requests `/api/withdrawal-tickets` lists.
use hikari.Prelude.{
  ℕ, zero, suc, ◌+◌, ◌≤◌, ◌<◌, ◌≡◌, ◌↔◌, Bool, true, false, not, ◌&&◌, ◌||◌, List, [], ◌∷◌, length,
  arith, Bool-cases, inl, inr, ◌==◌,
}
use hikari.Prelude.Text.{String}
use hikari.Prelude.Number.{Number}
use hikari.Prelude.Except.{Except, ok, thrown}
use hikari.Prelude.Json.{Json}
use hikari.Server.Http.{World}
use hikari.Server.Tickets.{Ticket, is_missing_request, is_owned, ticket, collect}

module _ {n : Number} (w : World n) (read : ℕ → Except (Json (Number.Num n)))
    (address : String) where
  abbrev pub has_id : ℕ → List (Ticket (Number.Num n)) → Bool
  has_id k [] = false
  has_id k (t ∷ ts) = t.id == k || has_id k ts

  -- The read of request k gives a request of the address; the read ends the loop.
  abbrev pub owns : ℕ → Bool
  owns k = elim (read k) [ ok request ↦ is_owned w address request | thrown message ↦ false ]

  abbrev pub stops : ℕ → Bool
  stops k = elim (read k) [ ok request ↦ false | thrown message ↦ is_missing_request message ]

  has_id-collect :
      (k i rounds : ℕ)
      → has_id k (collect w read address i (suc rounds)) ≡ (
          not (stops i) && ((owns i && i == k) || has_id k (collect w read address (i + 1) rounds)))
  unfolding collect ticket
  has_id-collect k i rounds = ground arith

  abbrev Unstopped : ℕ → ℕ → Type 0
  Unstopped i k = (j : ℕ) → i ≤ j → j ≤ k → stops j ≡ false

  Unstopped-step : (i k : ℕ) → stops i ≡ false → Unstopped (i + 1) k → Unstopped i k
  Unstopped-step i k first later j low high = elim (Bool-cases (i == j)) [
    | inl same ↦ let e : i ≡ j = ground arith in rw (← e) first
    | inr other ↦ later j (ground arith) high
  ]

  abbrev pub IsListed : ℕ → ℕ → ℕ → Type 0
  IsListed k i rounds = (i ≤ k) × (k < i + rounds) × (owns k ≡ true) × Unstopped i k

  has_id-IsListed :
      (k i rounds : ℕ) → has_id k (collect w read address i rounds) ≡ true → IsListed k i rounds
  has_id-IsListed k i zero h = unfold collect in cc h
  has_id-IsListed k i (suc rounds) h =
      let e = rw (has_id-collect k i rounds) at h in
      let rest = has_id k (collect w read address (i + 1) rounds) in
      let first : stops i ≡ false = ground (arith, e) in
      elim (Bool-cases rest) [
        | inl later ↦
            let (low, high, own, unstopped) = has_id-IsListed k (i + 1) rounds later in
            (omega arith, omega arith, own, Unstopped-step i k first unstopped)
        | inr none_later ↦
            let here : i ≡ k = ground (arith, e) in
            let own : owns i ≡ true = ground (arith, e) in
            (
              omega arith,
              omega arith,
              rw (← here) own,
              λ j low high. let same : i ≡ j = omega arith in rw (← same) first,
            )
      ]

  IsListed-has_id :
      (k i rounds : ℕ) → IsListed k i rounds → has_id k (collect w read address i rounds) ≡ true
  IsListed-has_id k i zero h = absurd (omega arith)
  IsListed-has_id k i (suc rounds) (low, high, own, unstopped) =
      let first : stops i ≡ false = unstopped i (omega arith) low in
      rw (has_id-collect k i rounds, first)
        (elim (Bool-cases (i == k)) [
          | inl same ↦
              let e : i ≡ k = ground arith in
              let own_i : owns i ≡ true = rw e own in ground (arith, own_i)
          | inr other ↦
              let later =
                IsListed-has_id k (i + 1) rounds
                  (ground arith, ground arith, own, λ j a b. unstopped j (omega arith) b) in
              ground (arith, later)
        ])

  -- Request k is listed exactly where it is one of the requests 1 to 20, its read gives a request of
  -- the address, and no read up to it ends the loop.
  pub has_id-collect_iff :
      (k : ℕ) → (has_id k (collect w read address 1 20) ≡ true) ↔ IsListed k 1 20
  has_id-collect_iff k = (has_id-IsListed k 1 20, IsListed-has_id k 1 20)

  -- At most one ticket for each request: no more tickets than rounds.
  pub length-collect-le : (i rounds : ℕ) → length (collect w read address i rounds) ≤ rounds
  unfolding collect
  length-collect-le i zero = omega arith
  length-collect-le i (suc rounds) = ground (arith, length-collect-le (i + 1) rounds)
