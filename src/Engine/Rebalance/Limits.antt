-- ===== src/Engine/Rebalance/Limits.antt =====
-- engine/src/policy_engine.ts: a rebalancing is accepted exactly within the limits.
use mathlib.Core.Path.{subst}
use hikari.Prelude.{
  ℕ, zero, suc, ◌≡◌, ◌↔◌, refl, ap, inl, inr, Bool-cases, Bool, true, false, List, [], ◌∷◌,
  if◌then◌else◌, get_elem?, some, arith,
}
use hikari.Prelude.Int.{ℤ, pos, ltb_ℤ, eq_ℤ, ◌≤ℤ◌, ◌+ℤ◌, ◌-ℤ◌, eq_of_parts}
use hikari.Prelude.Dict.{Dict}
use hikari.Prelude.Except.{Except, ok, thrown, ◌>>=◌, Except-cases}
use hikari.Prelude.Text.{String}
use hikari.Engine.Policy.{has}
use hikari.Engine.Rebalance.{
  ◌>>◌, RebalanceProposal, max_rebalance_delta_bps, max_slippage_bps, min_idle_cash_bps, abs,
  get_or_zero, refuse_if, sum_bps, total_idle, check_allowlist, check_velocity, idle_keys,
  check_idle_keys, check_idle, validate_proposal,
}

-- A strategy's share moves by at most 1500 basis points.
abbrev pub IsSlow : ℤ → ℤ → Type 0
IsSlow current target =
    (target ≤ℤ current +ℤ max_rebalance_delta_bps) × (current ≤ℤ target +ℤ max_rebalance_delta_bps)

-- Every entry of a map has a property.
abbrev pub Every : (String → ℤ → Type 0) → Dict ℤ → Type 0
Every P m = (i : ℕ) (k : String) (bps : ℤ) → get_elem? m i ≡ some (k, bps) → P k bps

pub record WithinLimits (lower : String → String) (allowlist : List String) (current : Dict ℤ)
    (p : RebalanceProposal) : Type 0 where
  pub allowlisted : Every (λ k bps. has allowlist k ≡ true) p.allocations
  pub slippage : p.estimated_slippage_bps ≤ℤ max_slippage_bps
  pub velocity : Every (λ k bps. IsSlow (get_or_zero k current) bps) p.allocations
  pub idle :
      (k : String) (keys : List String)
      → idle_keys lower p.vault_address p.allocations ≡ k ∷ keys
      → min_idle_cash_bps ≤ℤ total_idle p.allocations (k ∷ keys)
  pub total : sum_bps p.allocations ≡ pos 10000

then_iff :
    (m : Except (Unit {0})) (k : Except Bool)
    → ((m >>= λ _. k) ≡ ok true) ↔ ((m ≡ ok tt) × (k ≡ ok true))
then_iff (ok u) k = (λ h. (refl, h), λ h. h.1)
then_iff (thrown e) k = (λ h. cc, λ h. cc)

then_split : (m : Except (Unit {0})) (k : Except Bool) (b : Bool) → (m >> k) ≡ ok b → k ≡ ok b
then_split (ok u) k b h = h
then_split (thrown e) k b h = cc

refuse_if_iff : (bad : Bool) (message : String) → (refuse_if bad message ≡ ok tt) ↔ (bad ≡ false)
refuse_if_iff true message = (λ h. cc, λ h. cc)
refuse_if_iff false message = (λ h. refl, λ h. refl)

Every-at :
    (P : String → ℤ → Type 0) (k : String) (bps : ℤ) (rest : Dict ℤ)
    → P k bps
    → Every P rest
    → Every P ((k, bps) ∷ rest)
Every-at P k bps rest here there zero k2 bps2 at =
    let e1 : k ≡ k2 = cc in let e2 : bps ≡ bps2 = cc in rw (← e1, ← e2) here
Every-at P k bps rest here there (suc i) k2 bps2 at = there i k2 bps2 at

Every-cons :
    (P : String → ℤ → Type 0) (k : String) (bps : ℤ) (rest : Dict ℤ)
    → Every P ((k, bps) ∷ rest) ↔ (P k bps × Every P rest)
Every-cons P k bps rest =
    (λ all. (all 0 k bps refl, λ i. all (suc i)), λ both i. Every-at P k bps rest both.0 both.1 i)

not_ltb : (a b : ℤ) → (ltb_ℤ a b ≡ false) ↔ (b ≤ℤ a)
not_ltb a b = (λ h. ground arith, λ h. ground arith)

IsSlow-iff :
    (current target : ℤ)
    → (ltb_ℤ max_rebalance_delta_bps (abs (target -ℤ current)) ≡ false) ↔ IsSlow current target
unfolding ◌-ℤ◌ ◌+ℤ◌
IsSlow-iff current target = (λ h. ground arith, λ h. ground arith)

eq_ℤ_iff : (a b : ℤ) → (eq_ℤ a b ≡ true) ↔ (a ≡ b)
eq_ℤ_iff a b = (λ h. eq_of_parts a b (ground arith), λ h. rw h (ground arith))

not_not : (b : Bool) → ((if b then false else true) ≡ false) ↔ (b ≡ true)
not_not true = (λ h. refl, λ h. refl)
not_not false = (λ h. cc, λ h. cc)

check_allowlist_iff :
    (allowlist : List String) (m : Dict ℤ)
    → (check_allowlist allowlist m ≡ ok tt) ↔ Every (λ k bps. has allowlist k ≡ true) m
unfolding check_allowlist
check_allowlist_iff allowlist [] = (λ h. λ i k bps at. cc, λ h. refl)
check_allowlist_iff allowlist ((k, bps) ∷ rest) =
    let later = check_allowlist_iff allowlist rest in
    let cons = Every-cons (λ k bps. has allowlist k ≡ true) k bps rest in
    elim (Bool-cases (has allowlist k)) [
      | inl listed ↦ rw listed (λ h. cons.1 (listed, later.0 h), λ all. later.1 (cons.0 all).1)
      | inr other ↦ rw other (λ h. cc, λ all. cc ((cons.0 all).0))
    ]

check_velocity_iff :
    (show : ℤ → String) (current m : Dict ℤ)
    → (check_velocity show current m ≡ ok tt)
      ↔ Every (λ k bps. IsSlow (get_or_zero k current) bps) m
unfolding check_velocity
check_velocity_iff show current [] = (λ h. λ i k bps at. cc, λ h. refl)
check_velocity_iff show current ((k, bps) ∷ rest) =
    let later = check_velocity_iff show current rest in
    let slow = IsSlow-iff (get_or_zero k current) bps in
    let cons = Every-cons (λ k bps. IsSlow (get_or_zero k current) bps) k bps rest in
    elim (Bool-cases (ltb_ℤ max_rebalance_delta_bps (abs (bps -ℤ get_or_zero k current)))) [
      | inl fast ↦ rw fast (λ h. cc, λ all. cc (slow.1 (cons.0 all).0))
      | inr fine ↦ rw fine (λ h. cons.1 (slow.0 fine, later.0 h), λ all. later.1 (cons.0 all).1)
    ]

module _ (lower : String → String) (show : ℤ → String) where
  check_idle_keys_iff :
      (m : Dict ℤ) (keys : List String)
      → (check_idle_keys lower show m keys ≡ ok tt) ↔ (
          (k : String) (ks : List String)
          → keys ≡ k ∷ ks
          → min_idle_cash_bps ≤ℤ total_idle m (k ∷ ks))
  unfolding check_idle_keys
  check_idle_keys_iff m [] = (λ h k ks e. cc, λ h. refl)
  check_idle_keys_iff m (x ∷ xs) =
      let enough = not_ltb (total_idle m (x ∷ xs)) min_idle_cash_bps in
      let bad = refuse_if_iff (ltb_ℤ (total_idle m (x ∷ xs)) min_idle_cash_bps) in
      (
        λ h k ks e.
            subst (λ (l : List String). min_idle_cash_bps ≤ℤ total_idle m l) e
              (enough.0 ((bad _).0 h)),
        λ h. (bad _).1 (enough.1 (h x xs refl)),
      )

  check_idle_iff :
      (p : RebalanceProposal)
      → (check_idle lower show p ≡ ok tt) ↔ (
          (k : String) (keys : List String)
          → idle_keys lower p.vault_address p.allocations ≡ k ∷ keys
          → min_idle_cash_bps ≤ℤ total_idle p.allocations (k ∷ keys))
  unfolding check_idle
  check_idle_iff p =
      check_idle_keys_iff p.allocations (idle_keys lower p.vault_address p.allocations)

  validate_iff :
      (allowlist : List String) (current : Dict ℤ) (p : RebalanceProposal)
      → (validate_proposal lower show allowlist current p ≡ ok true)
        ↔ WithinLimits lower allowlist current p
  unfolding validate_proposal
  validate_iff allowlist current p =
      let listed = check_allowlist_iff allowlist p.allocations in
      let slips = not_ltb max_slippage_bps p.estimated_slippage_bps in
      let fast = check_velocity_iff show current p.allocations in
      let idle = check_idle_iff p in
      let full = eq_ℤ_iff (sum_bps p.allocations) (pos 10000) in
      let odd = not_not (eq_ℤ (sum_bps p.allocations) (pos 10000)) in
      (
        λ h.
            let a = (then_iff (check_allowlist allowlist p.allocations) _).0 h in
            let b =
              (then_iff (refuse_if (ltb_ℤ max_slippage_bps p.estimated_slippage_bps) _) _).0 a.1 in
            let c = (then_iff (check_velocity show current p.allocations) _).0 b.1 in
            let d = (then_iff (check_idle lower show p) _).0 c.1 in
            let e =
              (then_iff
                  (refuse_if (if eq_ℤ (sum_bps p.allocations) (pos 10000) then false else true) _)
                  _).0
                d.1 in
            record {
              allowlisted = listed.0 a.0;
              slippage = slips.0 ((refuse_if_iff _ _).0 b.0);
              velocity = fast.0 c.0;
              idle = idle.0 d.0;
              total = full.0 (odd.0 ((refuse_if_iff _ _).0 e.0));
            },
        λ w. (then_iff (check_allowlist allowlist p.allocations) _).1 (
          listed.1 w.allowlisted,
          (then_iff _ _).1 (
            (refuse_if_iff _ _).1 (slips.1 w.slippage),
            (then_iff (check_velocity show current p.allocations) _).1 (
              fast.1 w.velocity,
              (then_iff (check_idle lower show p) _).1 (
                idle.1 w.idle,
                (then_iff _ _).1 ((refuse_if_iff _ _).1 (odd.1 (full.1 w.total)), refl),
              ),
            ),
          ),
        ),
      )

  validate_only :
      (allowlist : List String) (current : Dict ℤ) (p : RebalanceProposal) (b : Bool)
      → validate_proposal lower show allowlist current p ≡ ok b
      → b ≡ true
  unfolding validate_proposal
  validate_only allowlist current p b h =
      let a = then_split (check_allowlist allowlist p.allocations) _ b h in
      let c = then_split (refuse_if (ltb_ℤ max_slippage_bps p.estimated_slippage_bps) _) _ b a in
      let d = then_split (check_velocity show current p.allocations) _ b c in
      let e = then_split (check_idle lower show p) _ b d in
      let f =
        then_split (refuse_if (if eq_ℤ (sum_bps p.allocations) (pos 10000) then false else true) _)
          _ b e in
      cc

  -- validateProposal returns true exactly for a proposal within the limits: every strategy is allowlisted, the
  -- slippage is at most 50 basis points, no strategy's share moves by more than 1500, the idle keys, where
  -- there are any, hold at least 1000 together, and all shares sum to 10000. It throws otherwise.
  pub validate_proposal-WithinLimits :
      (allowlist : List String) (current : Dict ℤ) (p : RebalanceProposal)
      → ((validate_proposal lower show allowlist current p ≡ ok true)
          ↔ WithinLimits lower allowlist current p)
        × (¬ WithinLimits lower allowlist current p
            → (message : String) × (validate_proposal lower show allowlist current p
                ≡ thrown message))
  validate_proposal-WithinLimits allowlist current p = (
    validate_iff allowlist current p,
    λ outside. elim (Except-cases (validate_proposal lower show allowlist current p)) [
      | inr failed ↦ failed
      | inl (b, e) ↦ absurd (
          outside (
            (validate_iff allowlist current p).0
              (rw e (ap ok (validate_only allowlist current p b e)))))
    ],
  )
