-- ===== src/Server/Governance/Listing.antt =====
-- Which proposals `/api/governance/proposals` lists.
use hikari.Prelude.{
  ℕ, zero, suc, ◌+◌, ◌<◌, ◌≡◌, ◌≢◌, ◌↔◌, ◌⊎◌, inl, inr, refl, sym, ap, true, List, [], ◌∷◌, length,
  get_elem?, some, arith,
}
use hikari.Prelude.Text.{String}
use hikari.Prelude.Number.{Number}
use hikari.Prelude.Except.{Except-cases, Except, ok, thrown}
use hikari.Server.Http.{GovernanceConfig, Reader, World}
use hikari.Server.Governance.{
  read_each, Governance, with_config, count_or_zero, with_proposals, read_governance,
}

module _ {A : Type 0} (read : ℕ → Except A) where
  -- The list holds the result of each read, in order.
  abbrev pub HoldsEach : ℕ → ℕ → List A → Type 0
  HoldsEach first rounds ps =
      (length ps ≡ rounds)
      × ((i : ℕ) → i < rounds → (p : A) × (read (first + i) ≡ ok p) × (get_elem? ps i ≡ some p))

  abbrev pub FailsAt : ℕ → ℕ → Type 0
  FailsAt first rounds = (i : ℕ) × (e : String) × (i < rounds) × (read (first + i) ≡ thrown e)

  HoldsEach-cons :
      (first rounds : ℕ) (p : A) (ps : List A)
      → read first ≡ ok p
      → HoldsEach (first + 1) rounds ps
      → HoldsEach first (suc rounds) (p ∷ ps)
  HoldsEach-cons first rounds p ps e (len, each) = (omega (arith, len), at)
    where
      at :
          (i : ℕ)
          → i < suc rounds
          → (q : A) × (read (first + i) ≡ ok q) × (get_elem? (p ∷ ps) i ≡ some q)
      at zero h = (p, (let same : first + zero ≡ first = omega arith in rw same e), refl)
      at (suc i) h =
          let (q, r, found) = each i (omega arith) in
          let same : first + suc i ≡ first + 1 + i = omega arith in (q, rw same r, found)

  read_each-cases :
      (first rounds : ℕ)
      → ((ps : List A) × (read_each read first rounds ≡ ok ps) × HoldsEach first rounds ps)
        ⊎ ((e : String) × (read_each read first rounds ≡ thrown e) × FailsAt first rounds)
  unfolding read_each
  read_each-cases first zero = inl ([], refl, (refl, λ i h. elim h [ ]))
  read_each-cases first (suc rounds) = elim (Except-cases (read first)) [
    | inr (e, r) ↦ inr (
      e,
      rw r refl,
      (zero, e, omega arith, (let same : first + zero ≡ first = omega arith in rw same r)),
    )
    | inl (p, r) ↦ elim (read_each-cases (first + 1) rounds) [
      | inl (ps, rest, held) ↦
          inl (p ∷ ps, rw r (rw rest refl), HoldsEach-cons first rounds p ps r held)
      | inr (e, rest, (i, e', low, failed)) ↦
          let same : first + suc i ≡ first + 1 + i = omega arith in
          inr (e, rw r (rw rest refl), (suc i, e', omega arith, rw same failed))
    ]
  ]

module _ {n : Number} (w : World n) (reader : Reader (Number.Num n)) (id : String) where
  abbrev pub before : Governance (Number.Num n)
  before = with_config n (reader.read_governance_config id)

  abbrev pub count : ℕ
  count = count_or_zero (reader.read_governance_proposal_count id)

  abbrev pub ListsAll : Governance (Number.Num n) → Type 0
  ListsAll g = HoldsEach (reader.read_governance_proposal id) 1 count g.proposals

  listed :
      (k : ℕ)
      → let read = reader.read_governance_proposal id in
        let g = with_proposals n read k before in
        (g.config ≡ before.config)
        × (((0 < k) × (g.is_live_rpc ≡ true) × HoldsEach read 1 k g.proposals)
            ⊎ ((k ≡ 0) × (g ≡ before))
            ⊎ (FailsAt read 1 k × (g ≡ before)))
  unfolding with_proposals
  listed zero = (refl, inr (inl (refl, refl)))
  listed (suc k) = elim (read_each-cases (reader.read_governance_proposal id) 1 (suc k)) [
    | inl (ps, e, held) ↦ rw (e, with_proposals) (refl, inl (omega arith, refl, held))
    | inr (m, e, failed) ↦ rw (e, with_proposals) (refl, inr (inr (failed, refl)))
  ]

  config_live :
      (before.is_live_rpc ≡ true)
      ↔ ((c : GovernanceConfig (Number.Num n)) × (reader.read_governance_config id ≡ ok c))
  config_live = elim (Except-cases (reader.read_governance_config id)) [
    | inl (c, e) ↦ rw e (λ _. (c, refl), λ _. refl)
    | inr (m, e) ↦ rw e (λ h. cc, λ h. cc (h.1))
  ]

  unlisted : before.proposals ≡ []
  unlisted = elim (Except-cases (reader.read_governance_config id)) [
    | inl (c, e) ↦ rw e refl
    | inr (m, e) ↦ rw e refl
  ]

  abbrev Outcome : Governance (Number.Num n) → Type 0
  Outcome g =
      ((0 < count)
        × (g.is_live_rpc ≡ true)
        × HoldsEach (reader.read_governance_proposal id) 1 count g.proposals)
      ⊎ ((count ≡ 0) × (g ≡ before))
      ⊎ (FailsAt (reader.read_governance_proposal id) 1 count × (g ≡ before))

  all_or_none :
      (g : Governance (Number.Num n))
      → Outcome g
      → ListsAll g ⊎ FailsAt (reader.read_governance_proposal id) 1 count × (g.proposals ≡ [])
  all_or_none g (inl (some_, live, held)) = inl held
  all_or_none g (inr (inl (none_, same))) =
      let empty : g.proposals ≡ [] = rw same unlisted in
      inl (rw empty (sym none_), λ i h. absurd (omega arith))
  all_or_none g (inr (inr (failed, same))) = inr (failed, rw same unlisted)

  abbrev IsLive : Governance (Number.Num n) → Type 0
  IsLive g = (g.is_live_rpc ≡ true) ↔ (
      ((c : GovernanceConfig (Number.Num n)) × (reader.read_governance_config id ≡ ok c))
      ⊎ (g.proposals ≢ []))

  before-IsLive : IsLive before
  before-IsLive = (
    λ h. inl (config_live.0 h),
    λ x. elim x [ inl c ↦ config_live.1 c | inr ne ↦ absurd (ne unlisted) ],
  )

  IsLive-when : (g : Governance (Number.Num n)) → Outcome g → IsLive g
  IsLive-when g (inl (some_, live, (len, each))) =
      (λ _. inr (λ e. absurd (omega (arith, len, ap length e))), λ _. live)
  IsLive-when g (inr (inl (none_, same))) = rw same before-IsLive
  IsLive-when g (inr (inr (failed, same))) = rw same before-IsLive

  -- With a reader: the config is the one that could be read, or else the default. Either all of the
  -- proposals 1 to count are listed, in order, or a read of one of them failed and none is listed. The
  -- data count as live exactly where the config was read or a proposal is listed.
  pub read_governance_lem :
      w.reader ≡ some reader
      → let g = read_governance w id in
        (g.config ≡ before.config)
        × (ListsAll g ⊎ FailsAt (reader.read_governance_proposal id) 1 count × (g.proposals ≡ []))
        × ((g.is_live_rpc ≡ true) ↔ (
            ((c : GovernanceConfig (Number.Num n)) × (reader.read_governance_config id ≡ ok c))
            ⊎ (g.proposals ≢ [])))
  unfolding read_governance
  read_governance_lem r =
      let (config, outcome) = listed count in
      rw (r, read_governance) (config, all_or_none _ outcome, IsLive-when _ outcome)
