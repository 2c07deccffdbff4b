-- ===== src/Engine/Rationale/Recent.antt =====
-- engine/src/audit/rationale_feed.ts: the feed against the list of all that was emitted.
use hikari.Prelude.{ℕ, zero, suc, ◌≡◌, ◌≤◌, refl, sym, ap, ◌∙◌, List, [], ◌∷◌, length, take, arith}
use hikari.Engine.Rationale.{DecisionRationale, emit_rationale, get_recent_rationales, pop_last}

module _ {N : Type 0} where
  -- The entries of these emissions on top of a list, the last on top.
  unfoldable pub stack :
      List (DecisionRationale N × ℕ) → List (DecisionRationale N) → List (DecisionRationale N)
  stack [] s = s
  stack ((r, now) ∷ rest) s = stack rest (record r { timestamp = now } ∷ s)

  -- the stream after these emissions
  unfoldable pub emit_all :
      List (DecisionRationale N × ℕ) → List (DecisionRationale N) → List (DecisionRationale N)
  emit_all [] s = s
  emit_all ((r, now) ∷ rest) s = emit_all rest (emit_rationale r now s).0

  take-take : (n m : ℕ) (s : List (DecisionRationale N)) → n ≤ m → take n (take m s) ≡ take n s
  take-take zero m s le = refl
  take-take (suc n) zero s le = absurd (omega arith)
  take-take (suc n) (suc m) [] le = refl
  take-take (suc n) (suc m) (x ∷ s) le = ap (λ t. x ∷ t) (take-take n m s (omega arith))

  take_all : (n : ℕ) (s : List (DecisionRationale N)) → length s ≤ n → take n s ≡ s
  take_all zero [] le = refl
  take_all zero (x ∷ s) le = absurd (omega arith)
  take_all (suc n) [] le = refl
  take_all (suc n) (x ∷ s) le = ap (λ t. x ∷ t) (take_all n s (omega arith))

  length-take : (n : ℕ) (s : List (DecisionRationale N)) → length (take n s) ≤ n
  length-take zero s = omega arith
  length-take (suc n) [] = omega arith
  length-take (suc n) (x ∷ s) = omega (arith, length-take n s)

  pop_last-take :
      (n : ℕ) (s : List (DecisionRationale N)) → length s ≡ suc n → pop_last s ≡ take n s
  pop_last-take zero [] e = refl
  pop_last-take zero (x ∷ []) e = refl
  pop_last-take zero (x ∷ y ∷ s) e = absurd (omega arith)
  pop_last-take (suc n) [] e = absurd (omega arith)
  pop_last-take (suc n) (x ∷ []) e = absurd (omega arith)
  pop_last-take (suc n) (x ∷ y ∷ s) e = ap (λ t. x ∷ t) (pop_last-take n (y ∷ s) (omega arith))

  emit_rationale-take :
      (r : DecisionRationale N) (now : ℕ) (s : List (DecisionRationale N))
      → length s ≤ 50
      → (emit_rationale r now s).0 ≡ take 50 (record r { timestamp = now } ∷ s)
  unfolding emit_rationale
  emit_rationale-take r now s le =
      let longer = record r { timestamp = now } ∷ s in
      ground (arith, take_all 50 longer, pop_last-take 50 longer)

  -- the same first entries, under a new one
  take_top :
      (n : ℕ) (x : DecisionRationale N) (s : List (DecisionRationale N))
      → take n (x ∷ take n s) ≡ take n (x ∷ s)
  take_top zero x s = refl
  take_top (suc n) x s = ap (λ t. x ∷ t) (take-take n (suc n) s (omega arith))

  take-stack :
      (n : ℕ) (rest : List (DecisionRationale N × ℕ)) (s : List (DecisionRationale N))
      → take n (stack rest (take n s)) ≡ take n (stack rest s)
  unfolding stack
  take-stack n [] s = take-take n n s (omega arith)
  take-stack n ((r, now) ∷ rest) s =
      let top = record r { timestamp = now } in
      sym (take-stack n rest (top ∷ take n s))
      ∙ ap (λ t. take n (stack rest t)) (take_top n top s)
      ∙ take-stack n rest (top ∷ s)

  emit_all-stack :
      (rest : List (DecisionRationale N × ℕ)) (s : List (DecisionRationale N))
      → length s ≤ 50
      → emit_all rest s ≡ take 50 (stack rest s)
  unfolding stack emit_all
  emit_all-stack [] s le = sym (take_all 50 s le)
  emit_all-stack ((r, now) ∷ rest) s le =
      let longer = record r { timestamp = now } ∷ s in
      ap (emit_all rest) (emit_rationale-take r now s le)
      ∙ emit_all-stack rest (take 50 longer) (length-take 50 longer)
      ∙ take-stack 50 rest longer

  -- From a new feed, whatever is emitted: asked for at most 50 rationales, the feed answers with that many of the latest,
  -- newest first, each with the time of its emission, or with all where there are fewer.
  pub get_recent_rationales-emit_all :
      (limit : ℕ) (emissions : List (DecisionRationale N × ℕ))
      → limit ≤ 50
      → get_recent_rationales limit (emit_all emissions []) ≡ take limit (stack emissions [])
  get_recent_rationales-emit_all limit emissions le =
      unfold get_recent_rationales in
      ap (take limit) (emit_all-stack emissions [] (omega arith)) ∙ take-take limit 50 _ le
