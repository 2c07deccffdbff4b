-- ===== src/Server/Telemetry/Answers.antt =====
-- What `/api/telemetry` answers, by what could be read.
use hikari.Prelude.{
  ℕ, zero, suc, ◌*◌, ◌/◌, ◌≤◌, ◌≡◌, ◌≢◌, ◌⊎◌, inl, inr, Option-cases, if◌then◌else◌, ◌∙◌, refl,
  true, false, none, some, arith,
}
use hikari.Prelude.Int.{ℤ, pos, ◌+ℤ◌, div_by-pos, pos-*ℤ, int_laws}
use hikari.Prelude.Text.{String}
use hikari.Prelude.Number.{Number}
use hikari.Prelude.Except.{ok, thrown, ◌>>=◌, Except-cases}
use hikari.Server.Http.{World, OracleTelemetry}
use hikari.Server.Telemetry.{
  Reads, ContractIds, is_live_rpc, read_all, contract_ids, unavailable, reserve_ratio, online,
  online_answer, telemetry, idle_assets, allocated_assets,
}

module _ {n : Number} (w : World n) where
  online_rejects :
      (c : ContractIds (Number.Num n)) (r : Reads (Number.Num n))
      → (r.assets ≡ none) ⊎ (r.shares ≡ none) ⊎ (r.oracle ≡ none)
      → online w c r ≡ thrown w.type_error
  unfolding online
  online_rejects c r missing = ground arith

  online_of :
      (c : ContractIds (Number.Num n)) (r : Reads (Number.Num n)) (assets shares : ℤ)
      (t : OracleTelemetry (Number.Num n))
      → r.assets ≡ some assets
      → r.shares ≡ some shares
      → r.oracle ≡ some t
      → online w c r
        ≡ (reserve_ratio w t >>= λ ratio. ok (online_answer w c assets shares ratio t r.seal))
  unfolding online
  online_of c r assets shares t a s o = ground arith

  -- What the reads gave that make the source count as alive: the shares are not among them.
  abbrev pub AnyRead : Reads (Number.Num n) → Type 0
  AnyRead r = (r.assets ≢ none) ⊎ (r.oracle ≢ none) ⊎ (r.seal ≢ none)

  abbrev pub NoneRead : Reads (Number.Num n) → Type 0
  NoneRead r = (r.assets ≡ none) × (r.oracle ≡ none) × (r.seal ≡ none)

  is_live_rpc-cases :
      (r : Reads (Number.Num n))
      → ((is_live_rpc r ≡ false) × NoneRead r) ⊎ ((is_live_rpc r ≡ true) × AnyRead r)
  unfolding is_live_rpc
  is_live_rpc-cases r = elim (Option-cases r.assets) [
    | inr (assets, a) ↦ inr (ground arith, inl (λ e. ground arith))
    | inl no_assets ↦ elim (Option-cases r.oracle) [
      | inr (t, o) ↦ inr (ground arith, inr (inl (λ e. ground arith)))
      | inl no_oracle ↦ elim (Option-cases r.seal) [
        | inr (seal, l) ↦ inr (ground arith, inr (inr (λ e. ground arith)))
        | inl no_seal ↦ inl (ground arith, (no_assets, no_oracle, no_seal))
      ]
    ]
  ]

  -- What was read of the assets, the shares and the oracle together.
  reads_cases :
      (r : Reads (Number.Num n))
      → ((r.assets ≡ none) ⊎ (r.shares ≡ none) ⊎ (r.oracle ≡ none))
        ⊎ ((assets shares : ℤ) × (t : OracleTelemetry (Number.Num n)) × (r.assets ≡ some assets)
            × (r.shares ≡ some shares)
            × (r.oracle ≡ some t))
  reads_cases r = elim (Option-cases r.assets) [
    | inl no_assets ↦ inl (inl no_assets)
    | inr (assets, a) ↦ elim (Option-cases r.shares) [
      | inl no_shares ↦ inl (inr (inl no_shares))
      | inr (shares, s) ↦ elim (Option-cases r.oracle) [
        | inl no_oracle ↦ inl (inr (inr no_oracle))
        | inr (t, o) ↦ inr (assets, shares, t, a, s, o)
      ]
    ]
  ]

  -- The answer, or the error, where all three were read, by the reserve ratio of the oracle.
  abbrev pub FullAnswer : ContractIds (Number.Num n) → Reads (Number.Num n) → Type 0
  FullAnswer c r =
      (assets shares : ℤ) × (t : OracleTelemetry (Number.Num n)) × (r.assets ≡ some assets)
      × (r.shares ≡ some shares)
      × (r.oracle ≡ some t)
      × (((ratio : ℤ) × (reserve_ratio w t ≡ ok ratio)
            × (telemetry w ≡ ok (online_answer w c assets shares ratio t r.seal))
            × ((online_answer w c assets shares ratio t r.seal).status ≡ 200))
          ⊎ ((e : String) × (reserve_ratio w t ≡ thrown e) × (telemetry w ≡ thrown e)))

  telemetry-eq :
      (c : ContractIds (Number.Num n))
      → contract_ids w ≡ ok c
      → telemetry w
        ≡ (if is_live_rpc (read_all w c) then online w c (read_all w c) else ok (unavailable w c))
  unfolding telemetry
  telemetry-eq c ids = rw (ids, ◌>>=◌) refl

  full_answer :
      (c : ContractIds (Number.Num n)) (assets shares : ℤ) (t : OracleTelemetry (Number.Num n))
      → telemetry w ≡ online w c (read_all w c)
      → (read_all w c).assets ≡ some assets
      → (read_all w c).shares ≡ some shares
      → (read_all w c).oracle ≡ some t
      → FullAnswer c (read_all w c)
  full_answer c assets shares t sent a s o =
      let whole = sent ∙ online_of c (read_all w c) assets shares t a s o in
      (
        assets,
        shares,
        t,
        a,
        s,
        o,
        elim (Except-cases (reserve_ratio w t)) [
          | inl (ratio, q) ↦ inl (ratio, q, rw (q, ◌>>=◌) at whole, unfold online_answer in refl)
          | inr (e, q) ↦ inr (e, q, rw (q, ◌>>=◌) at whole)
        ],
      )

  -- The handler does exactly one of these. Where the identifiers of the contracts cannot be read, it throws that
  -- error. Where none of the assets, the oracle and the gate seal was read, it answers 503, whether or
  -- not the shares were read. Where one of those was read, but the assets, the shares or the oracle
  -- are missing, it throws a TypeError outside its `try`, and no answer is sent. Where all three were
  -- read, it answers 200 with what was read, or throws the error of a reserve ratio that is no integer.
  pub telemetry_lem :
      ((e : String) × (contract_ids w ≡ thrown e) × (telemetry w ≡ thrown e))
      ⊎ ((c : ContractIds (Number.Num n)) × (contract_ids w ≡ ok c)
          × ((NoneRead (read_all w c)
                × (telemetry w ≡ ok (unavailable w c))
                × ((unavailable w c).status ≡ 503))
              ⊎ (AnyRead (read_all w c)
                  × (((read_all w c).assets ≡ none)
                      ⊎ ((read_all w c).shares ≡ none)
                      ⊎ ((read_all w c).oracle ≡ none))
                  × (telemetry w ≡ thrown w.type_error))
              ⊎ FullAnswer c (read_all w c)))
  telemetry_lem = elim (Except-cases (contract_ids w)) [
    | inr (e, failed) ↦ inl (e, failed, unfold telemetry in rw (failed, ◌>>=◌) refl)
    | inl (c, ids) ↦
        let whole = telemetry-eq c ids in
        inr (
          c,
          ids,
          elim (is_live_rpc-cases (read_all w c)) [
            | inl (dead, nothing) ↦ inl (nothing, rw dead at whole, unfold unavailable in refl)
            | inr (live, something) ↦
                let sent = rw live at whole in
                elim (reads_cases (read_all w c)) [
                  | inl missing ↦
                      inr (inl (something, missing, sent ∙ online_rejects c (read_all w c) missing))
                  | inr (assets, shares, t, a, s, o) ↦
                      inr (inr (full_answer c assets shares t sent a s o))
                ]
          ],
        )
  ]

idle-eq : (total ratio : ℕ) → idle_assets (pos total) (pos ratio) ≡ pos (total * ratio / 10000)
unfolding idle_assets
idle-eq total zero = grind arith
idle-eq total (suc r) = simp (pos-*ℤ, div_by-pos) (ground arith)

share-le : (total ratio : ℕ) → ratio ≤ 10000 → total * ratio / 10000 ≤ total
share-le total ratio small = grind arith

allocated_rest :
    (total idle : ℕ)
    → idle ≤ total
    → pos idle +ℤ allocated_assets (pos total) (pos idle) ≡ pos total
unfolding allocated_assets
allocated_rest total idle h = grind int_laws

-- Where the ratio is at most 10000 basis points, the assets reported as idle and as allocated add up
-- to the total, and the idle part is the ratio's share of it, rounded down.
pub idle_allocated_total :
    (total ratio : ℕ)
    → ratio ≤ 10000
    → let idle = idle_assets (pos total) (pos ratio) in
      (idle ≡ pos (total * ratio / 10000)) × (idle +ℤ allocated_assets (pos total) idle ≡ pos total)
idle_allocated_total total ratio small =
    let idle = idle-eq total ratio in
    (idle, rw idle (allocated_rest total _ (share-le total ratio small)))
