-- ===== src/Simulator/Pricing.antt =====
-- The share price of the simulator, (assets + 1) / (shares + 1000), under deposits and redemptions.
use hikari.Prelude.{
  ℕ, ◌+◌, ◌-◌, ◌*◌, ◌/◌, ◌≤◌, ◌≡◌, refl, some, arith, ◌&&◌, if◌then◌else◌, ap, inl, inr, Bool-cases,
}
use hikari.Prelude.Int.{
  pos, ◌+ℤ◌, ◌-ℤ◌, quot, pos-+ℤ, pos--ℤ, pos-*ℤ, quot-pos, int_laws, div_by-pos,
}
use hikari.Prelude.Number.{Number}
use hikari.Simulator.Crisis.{cut-le}
use hikari.Simulator.{ProtocolSimulator, ◌>>=◌, deposit, redeem, after_haircut, pay_out}

-- The shares that a deposit of d mints, and the assets that x shares are worth.
abbrev pub minted : ℕ → ℕ → ℕ → ℕ
minted a t d = d * (t + 1000) / (a + 1)

abbrev pub worth : ℕ → ℕ → ℕ → ℕ
worth a t x = x * (a + 1) / (t + 1000)

minted-mul-le : (a t d : ℕ) → minted a t d * (a + 1) ≤ d * (t + 1000)
minted-mul-le a t d = grind arith

worth-mul-le : (a t x : ℕ) → worth a t x * (t + 1000) ≤ x * (a + 1)
worth-mul-le a t x = grind arith

worth-le : (a t x : ℕ) → x ≤ t → worth a t x ≤ a
worth-le a t x h = grind (arith, worth-mul-le a t x)

quot_by_assets : (x a : ℕ) → quot (pos x) (pos (a + 1)) ≡ some (pos (x / (a + 1)))
quot_by_assets x a = quot-pos x (a + 1) (omega arith)

quot_by_shares : (x t : ℕ) → quot (pos x) (pos (t + 1000)) ≡ some (pos (x / (t + 1000)))
quot_by_shares x t = quot-pos x (t + 1000) (omega arith)

ruleset pos_laws = (pos-+ℤ, pos-*ℤ, quot_by_assets, quot_by_shares)

pay_out_total :
    (a i l h : ℕ)
    → a ≡ i + l
    → h ≤ a
    → (pay_out (pos i) (pos l) (pos h)).0 +ℤ (pay_out (pos i) (pos l) (pos h)).1 ≡ pos (a - h)
unfolding pay_out
pay_out_total a i l h split le = grind int_laws

price_core :
    (x u h v : ℕ)
    → h * (x + u + 1000) ≤ x * (h + v + 1)
    → (h + v + 1) * (u + 1000) ≤ (v + 1) * (x + u + 1000)
price_core x u h v p = omega arith

price_after :
    (a t x h : ℕ)
    → x ≤ t
    → h ≤ a
    → h ≤ worth a t x
    → (a + 1) * (t - x + 1000) ≤ (a - h + 1) * (t + 1000)
price_after a t x h few paid below =
    let shares : t ≡ x + (t - x) = omega arith in
    let assets : a ≡ h + (a - h) = omega arith in
    let value : h * (t + 1000) ≤ x * (a + 1) = grind (arith, worth-mul-le a t x) in
    let core = price_core x (t - x) h (a - h) in grind (arith, core)

module _ (n : Number) (s : ProtocolSimulator (Number.Num n)) (a t : ℕ)
    (assets : s.total_assets ≡ pos a) (shares : s.total_shares ≡ pos t) where
  deposit-eq :
      (d : ℕ)
      → deposit n s (pos d)
        ≡ some (
          record s {
            total_assets = pos (a + d);
            idle_assets = s.idle_assets +ℤ pos d;
            total_shares = pos (t + minted a t d);
          },
          pos (minted a t d),
        )
  unfolding deposit
  deposit-eq d = simp (assets, shares, pos_laws)

  -- A deposit d at a assets and t shares succeeds and mints exactly d * (t + 1000) / (a + 1) shares, rounded
  -- down. The deposit is added to the assets and to the idle reserve, and the price of a share,
  -- (assets + 1) / (shares + 1000), is at least what it was.
  pub deposit_keeps_price :
      (d : ℕ)
      → let m = d * (t + 1000) / (a + 1) in
        (s' : ProtocolSimulator (Number.Num n)) × (deposit n s (pos d) ≡ some (s', pos m))
        × (s'.total_assets ≡ pos (a + d))
        × (s'.idle_assets ≡ s.idle_assets +ℤ pos d)
        × (s'.total_shares ≡ pos (t + m))
        × ((a + 1) * (t + m + 1000) ≤ (a + d + 1) * (t + 1000))
  deposit_keeps_price d = (
    record s {
      total_assets = pos (a + d);
      idle_assets = s.idle_assets +ℤ pos d;
      total_shares = pos (t + minted a t d);
    },
    deposit-eq d,
    refl,
    refl,
    refl,
    grind (arith, minted-mul-le a t d),
  )

  abbrev after_redeem : ℕ → ℕ → ProtocolSimulator (Number.Num n)
  after_redeem x h =
      let split = pay_out s.idle_assets s.allocated_assets (pos h) in
      record s {
        idle_assets = split.0;
        allocated_assets = split.1;
        total_assets = split.0 +ℤ split.1;
        total_shares = s.total_shares -ℤ pos x;
      }

  redeem-eq :
      (x h : ℕ)
      → after_haircut n s (pos (worth a t x)) ≡ some (pos h)
      → redeem n s (pos x) ≡ some (after_redeem x h, pos h)
  unfolding redeem
  redeem-eq x h cut = simp (assets, shares, pos_laws) (rw (cut, ◌>>=◌))

  -- What is left of v after a haircut of k basis points, which only bunker mode applies.
  abbrev pub after_cut : ℕ → ℕ → ℕ
  after_cut k v =
      if s.is_bunker_mode && n.lt (n.of_ℤ (pos 0)) s.haircut_bps then v - v * k / 10000 else v

  after_haircut-eq :
      (k v : ℕ)
      → n.to_ℤ s.haircut_bps ≡ some (pos k)
      → k ≤ 10000
      → (after_haircut n s (pos v) ≡ some (pos (after_cut k v))) × (after_cut k v ≤ v)
  unfolding after_haircut
  after_haircut-eq k v bps small =
      elim (Bool-cases (s.is_bunker_mode && n.lt (n.of_ℤ (pos 0)) s.haircut_bps)) [
        | inl cut ↦ (
          rw (cut, bps, ◌>>=◌, pos-*ℤ, div_by-pos) (ap some (pos--ℤ v _ (cut-le v k small))),
          rw cut (omega arith),
        )
        | inr whole ↦ (rw whole refl, rw whole (omega arith))
      ]

  -- Of books that balance, and with a haircut of k basis points, at most 10000, a redemption of no more shares
  -- than there are succeeds. It pays h: the worth x * (a + 1) / (t + 1000) of the shares, rounded
  -- down, less k / 10000 of it, rounded down, exactly where bunker mode is on and the haircut
  -- positive. It takes exactly h, at most what there is, out of the books, and the price of the
  -- remaining shares does not fall.
  pub redeem_keeps_price :
      (x i l k : ℕ)
      → x ≤ t
      → s.idle_assets ≡ pos i
      → s.allocated_assets ≡ pos l
      → a ≡ i + l
      → n.to_ℤ s.haircut_bps ≡ some (pos k)
      → k ≤ 10000
      → let h = after_cut k (worth a t x) in
        (s' : ProtocolSimulator (Number.Num n)) × (redeem n s (pos x) ≡ some (s', pos h))
        × (h ≤ a)
        × (s'.total_assets ≡ pos (a - h))
        × (s'.total_shares ≡ pos (t - x))
        × ((a + 1) * (t - x + 1000) ≤ (a - h + 1) * (t + 1000))
  redeem_keeps_price x i l k few idle allocated split bps small =
      let h = after_cut k (worth a t x) in
      let (cut, below) = after_haircut-eq k (worth a t x) bps small in
      let paid : h ≤ a = omega (arith, worth-le a t x few, below) in
      (
        after_redeem x h,
        redeem-eq x h cut,
        paid,
        rw (idle, allocated) (pay_out_total a i l h split paid),
        rw shares (pos--ℤ t x few),
        price_after a t x h few paid below,
      )
