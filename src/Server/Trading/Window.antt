-- ===== src/Server/Trading/Window.antt =====
-- The indicators of `/api/trading-agent`: which closes they read, and the signal that follows.
use hikari.Prelude.{
  ℕ, suc, ◌+◌, ◌-◌, ◌≤◌, ◌≡◌, ◌↔◌, ◌⊎◌, refl, true, false, List, [], ◌∷◌, ◌++◌, length, drop, arith,
  ltb, length-append, length-drop, ◌<◌, Bool-cases, inl, inr,
}
use hikari.Prelude.Number.{Number}
use hikari.Server.Http.{World}
use hikari.Server.Trading.Indicators.{int, last_of, gains_losses, rsi_of, rsi_window, compute_rsi}
use hikari.Server.Trading.Desk.{verdict, signal_of}

drop-append : {A : Type 0} (k : ℕ) (xs ys : List A) → drop (length xs + k) (xs ++ ys) ≡ drop k ys
drop-append k [] ys = let e : 0 + k ≡ k = omega arith in rw e refl
drop-append k (x ∷ xs) ys =
    let e : suc (length xs) + k ≡ suc (length xs + k) = omega arith in rw e (drop-append k xs ys)

last_of-append :
    {A : Type 0} (count : ℕ) (older recent : List A)
    → count ≤ length recent
    → last_of count (older ++ recent) ≡ last_of count recent
last_of-append count older recent enough =
    let e : length (older ++ recent) - count ≡ length older + (length recent - count) =
      omega (arith, length-append older recent) in
    rw e (drop-append (length recent - count) older recent)

module _ {n : Number} (w : World n) where
  open n use {Num, sub, lt, le}

  -- `computeRsi` reads the last fifteen closes, and none before them.
  pub compute_rsi-append :
      (older recent : List Num)
      → 15 ≤ length recent
      → compute_rsi w (older ++ recent) ≡ compute_rsi w recent
  unfolding compute_rsi
  compute_rsi-append older recent enough =
      let long : ltb (length (older ++ recent)) 15 ≡ false =
        ground (arith, length-append older recent) in
      let long' : ltb (length recent) 15 ≡ false = ground arith in
      rw (long, long', last_of-append 15 older recent enough) refl

  -- No close is below the one before it.
  abbrev pub Rises : Num → List Num → Type 0
  Rises prev [] = Unit {0}
  Rises prev (x ∷ xs) = (le (int w 0) (sub x prev) ≡ true) × Rises x xs

  abbrev pub RisesAll : List Num → Type 0
  RisesAll [] = Unit {0}
  RisesAll (x ∷ xs) = Rises x xs

  no_losses :
      (prev : Num) (xs : List Num) (gains losses : Num)
      → Rises prev xs
      → (gains_losses w prev xs gains losses).1 ≡ losses
  unfolding gains_losses
  no_losses prev [] gains losses up = refl
  no_losses prev (x ∷ xs) gains losses (step, up) =
      rw (step, gains_losses) (no_losses x xs _ losses up)

  rsi_of_no_losses :
      (r : Num × Num) → r.1 ≡ int w 0 → le (int w 0) (int w 0) ≡ true → rsi_of w r ≡ int w 100
  unfolding rsi_of
  rsi_of_no_losses (gains, losses) e zero_le = rw (e, zero_le) refl

  rsi_window_rising :
      (xs : List Num)
      → 0 < length xs
      → le (int w 0) (int w 0) ≡ true
      → RisesAll xs
      → rsi_window w xs ≡ int w 100
  unfolding rsi_window
  rsi_window_rising [] h zero_le up = elim h [ ]
  rsi_window_rising (x ∷ xs) h zero_le up =
      rsi_of_no_losses _ (no_losses x xs (int w 0) (int w 0) up) zero_le

  -- `computeRsi` of at least fifteen closes is 100 where none of the last fifteen is below the one
  -- before it.
  pub compute_rsi_rising :
      (closes : List Num)
      → le (int w 0) (int w 0) ≡ true
      → 15 ≤ length closes
      → RisesAll (last_of 15 closes)
      → compute_rsi w closes ≡ int w 100
  unfolding compute_rsi
  compute_rsi_rising closes zero_le enough up =
      let long : ltb (length closes) 15 ≡ false = ground arith in
      let some_left : 0 < length (last_of 15 closes) =
        omega (arith, length-drop (length closes - 15) closes) in
      rw long (rsi_window_rising (last_of 15 closes) some_left zero_le up)

  -- The risk committee is cautious exactly where the RSI is above 70, or above 45 and not above 55;
  -- it approves all else, also an RSI that is no number, for which every comparison is false.
  pub verdict_iff :
      (rsi : Num)
      → (verdict (signal_of w rsi) ≡ "CAUTION")
        ↔ ((lt (int w 70) rsi ≡ true) ⊎ ((lt (int w 55) rsi ≡ false) × (lt (int w 45) rsi ≡ true)))
  unfolding verdict signal_of
  verdict_iff rsi = elim (Bool-cases (lt (int w 70) rsi)) [
    | inl high ↦ rw high (λ _. inl refl, λ _. refl)
    | inr low ↦ elim (Bool-cases (lt (int w 55) rsi)) [
      | inl bullish ↦ rw (low, bullish) (λ h. cc, λ h. ground arith)
      | inr flat ↦ elim (Bool-cases (lt (int w 45) rsi)) [
        | inl mid ↦ rw (low, flat, mid) (λ _. inr (refl, refl), λ _. refl)
        | inr weak ↦ elim (Bool-cases (lt (int w 30) rsi)) [
          | inl sold ↦ rw (low, flat, weak, sold) (λ h. cc, λ h. ground arith)
          | inr rest ↦ rw (low, flat, weak, rest) (λ h. cc, λ h. ground arith)
        ]
      ]
    ]
  ]
