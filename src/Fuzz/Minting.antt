-- ===== src/Fuzz/Minting.antt =====
-- What an iteration that passes does to the price of a share.
use hikari.Prelude.{ℕ, ◌+◌, ◌*◌, ◌/◌, ◌≤◌, ◌≡◌, arith, some, ◌∙◌, true, false, ◌⊎◌}
use hikari.Prelude.Int.{ℤ, pos, ◌+ℤ◌, ◌-ℤ◌, ◌*ℤ◌, pos-+ℤ, pos-*ℤ, quot-pos}
use hikari.Prelude.Number.{Number}
use hikari.Fuzz.{
  done, ratio, Draw, Vault, iteration, post_harvest, charge_fee, calculate_nav,
  calculate_shares_to_mint,
}

-- the user's deposit of an iteration, in stroops
abbrev pub deposited : Draw → ℕ
deposited d = (d.deposit + 500) * 10_000_000

-- The shares that are minted for x, at b assets before it and t shares.
abbrev pub minted_after : ℕ → ℕ → ℕ → ℕ
minted_after b t x = x * (t + 1000) / (b + x + 1)

mint-eq :
    (b t x : ℕ)
    → calculate_shares_to_mint (pos x) (pos (b + x)) (pos t) ≡ some (pos (minted_after b t x))
unfolding calculate_shares_to_mint
mint-eq b t x = simp (pos-+ℤ, pos-*ℤ) (quot-pos (x * (t + 1000)) (b + x + 1) (omega arith))

mint-whole : (b t x : ℕ) → minted_after b t x * (b + x + 1) ≤ x * (t + 1000)
mint-whole b t x = grind arith

mint-le : (b t x m : ℕ) → m * (b + x + 1) ≤ x * (t + 1000) → m ≤ x * (t + 1000) / (b + 1)
mint-le b t x m h =
    let less : m * (b + 1) ≤ x * (t + 1000) = grind (arith, h) in grind (arith, less)

mint-price :
    (b t x m : ℕ)
    → m * (b + x + 1) ≤ x * (t + 1000)
    → (b + 1) * (t + m + 1000) ≤ (b + x + 1) * (t + 1000)
mint-price b t x m h =
    let less : m * (b + 1) ≤ x * (t + 1000) = grind (arith, h) in grind (arith, less)

module _ (n : Number) (s s' : Vault (Number.Num n)) (d : Draw) where
  open n use {Num, of_ℤ, to_ℤ, sub, mul, floor, lt}

  iteration-books :
      (fee : ℤ) (mark : Num) (minted : ℤ)
      → charge_fee n
          (post_harvest n s d)
          (calculate_nav n (post_harvest n s d) s.total_shares)
          s.hwm_nav
        ≡ done (fee, mark)
      → calculate_shares_to_mint
          (pos (d.deposit + 500) *ℤ pos 10_000_000)
          (post_harvest n s d -ℤ fee +ℤ (pos (d.deposit + 500) *ℤ pos 10_000_000))
          s.total_shares
        ≡ some minted
      → iteration n s d ≡ done s'
      → (s'.hwm_nav ≡ mark)
        × (s'.total_assets ≡ post_harvest n s d -ℤ fee +ℤ (pos (d.deposit + 500) *ℤ pos 10_000_000))
        × (s'.total_shares ≡ s.total_shares +ℤ minted)
  unfolding iteration
  iteration-books fee mark minted charged mints h = ground (arith, charged, mints, h)

  abbrev pub price_now : Num
  price_now = calculate_nav n (post_harvest n s d) s.total_shares

  -- The fee is 5% of the assets times the rise of the price above the mark, rounded down, and the price is the
  -- new mark; where the price is not above the mark, there is no fee and the mark stays.
  abbrev pub IsDue : ℤ → Num → Type 0
  IsDue fee mark =
      ((lt s.hwm_nav price_now ≡ true)
        × (to_ℤ (
              floor
                (mul (mul (of_ℤ (post_harvest n s d)) (sub price_now s.hwm_nav)) (ratio n 5 100)))
            ≡ some fee)
        × (mark ≡ price_now))
      ⊎ ((lt s.hwm_nav price_now ≡ false) × (fee ≡ pos 0) × (mark ≡ s.hwm_nav))

  charge_fee-IsDue :
      (fee : ℤ) (mark : Num)
      → charge_fee n (post_harvest n s d) price_now s.hwm_nav ≡ done (fee, mark)
      → IsDue fee mark
  unfolding charge_fee
  charge_fee-IsDue fee mark charged = ground arith

  -- An iteration that passes takes no fee and leaves the mark where the price after the harvest is not above it;
  -- otherwise the fee is 5% of the assets times the rise of the price above the mark, rounded down,
  -- and the price is the new mark. With b assets after the harvest and the fee, and t shares, it
  -- then adds the user's deposit x and mints m = x * (t + 1000) / (b + x + 1) shares for it, rounded
  -- down, at the assets that already hold it. These are no more than the rounded-down
  -- x * (t + 1000) / (b + 1) that the simulator's deposit mints, and the price
  -- (assets + 1) / (shares + 1000) is at least what it was after the fee.
  pub iteration_keeps_price :
      (fee : ℤ) (mark : Num) (b t : ℕ)
      → charge_fee n
          (post_harvest n s d)
          (calculate_nav n (post_harvest n s d) s.total_shares)
          s.hwm_nav
        ≡ done (fee, mark)
      → post_harvest n s d -ℤ fee ≡ pos b
      → s.total_shares ≡ pos t
      → iteration n s d ≡ done s'
      → let x = deposited d in
        let m = minted_after b t x in
        IsDue fee mark
        × (s'.hwm_nav ≡ mark)
        × (s'.total_assets ≡ pos (b + x))
        × (s'.total_shares ≡ pos (t + m))
        × (m ≤ x * (t + 1000) / (b + 1))
        × ((b + 1) * (t + m + 1000) ≤ (b + x + 1) * (t + 1000))
  iteration_keeps_price fee mark b t charged books shares h =
      let x = deposited d in
      let m = minted_after b t x in
      let stroops : pos (d.deposit + 500) *ℤ pos 10_000_000 ≡ pos x = pos-*ℤ _ _ in
      let total : post_harvest n s d -ℤ fee +ℤ (pos (d.deposit + 500) *ℤ pos 10_000_000)
          ≡ pos (b + x) =
        rw (stroops, books) (pos-+ℤ b x) in
      let mints : calculate_shares_to_mint (pos (d.deposit + 500) *ℤ pos 10_000_000)
            (post_harvest n s d -ℤ fee +ℤ (pos (d.deposit + 500) *ℤ pos 10_000_000)) s.total_shares
          ≡ some (pos m) =
        rw (total, stroops, shares) (mint-eq b t x) in
      let (mark', assets', shares') = iteration-books fee mark (pos m) charged mints h in
      let whole = mint-whole b t x in
      (
        charge_fee-IsDue fee mark charged,
        mark',
        assets' ∙ total,
        shares' ∙ (rw shares (pos-+ℤ t m)),
        mint-le b t x m whole,
        mint-price b t x m whole,
      )
