-- ===== src/Server/Breaker/Recovery.antt =====
-- A shock and the reset after it: what they leave in the file.
use hikari.Prelude.{◌≡◌, refl, ap, ◌∙◌, true, false, arith, if◌then◌else◌}
use hikari.Prelude.Text.{String, ◌==◌, eq_iff}
use hikari.Prelude.Number.{Number}
use hikari.Prelude.Json.{
  Json, bool, str, arr, obj, cons, Fields, end, field, get, field_of, put_field,
}
use hikari.Server.Http.{FileState, holds, World, read_json_safe}
use hikari.Server.Breaker.{
  array_or_empty, set_breaker, sealed_breaker, open_breaker, shock_line, recovery_line, updated,
  store_breaker, simulate_shock, reset_circuit_breaker,
}

field_of-put_field :
    {N : Type 0} (k j : String) (v : Json N) (fs : Fields N)
    → field_of j (put_field k v fs) ≡ (if k == j then v else field_of j fs)
unfolding field_of put_field
field_of-put_field k j v end = ground arith
field_of-put_field k j v (field i x fs) =
    let later = field_of-put_field k j v fs in
    ground (arith, eq_iff k j, eq_iff i k, eq_iff i j, later)

module _ {N : Type 0} (breaker : Json N) (status line : String) (fs : Fields N) where
  breaker_set : field_of "circuitBreaker" (set_breaker breaker status line fs) ≡ breaker
  unfolding set_breaker
  breaker_set = simp field_of-put_field

  status_set : field_of "status" (set_breaker breaker status line fs) ≡ str status
  unfolding set_breaker
  status_set = simp field_of-put_field

  logs_set :
      field_of "recentLogs" (set_breaker breaker status line fs)
      ≡ arr (cons (str line) (array_or_empty (field_of "recentLogs" fs)))
  unfolding set_breaker
  logs_set = simp field_of-put_field

  other_kept :
      (k : String)
      → ("circuitBreaker" == k) ≡ false
      → ("status" == k) ≡ false
      → ("recentLogs" == k) ≡ false
      → field_of k (set_breaker breaker status line fs) ≡ field_of k fs
  unfolding set_breaker
  other_kept k a b c = simp (field_of-put_field, a, b, c)

module _ {n : Number} (w w' : World n) (stored : FileState (Number.Num n))
    (fs : Fields (Number.Num n)) (read : read_json_safe stored ≡ obj fs) where
  abbrev pub shocked : Fields (Number.Num n)
  shocked = set_breaker (sealed_breaker w) "SEALED" (shock_line w) fs

  abbrev pub recovered : Fields (Number.Num n)
  recovered = set_breaker (open_breaker w') "ONLINE" (recovery_line w') shocked

  shock-eq : (simulate_shock w true stored).0 ≡ holds (obj shocked)
  unfolding store_breaker updated
  shock-eq = ground (arith, read)

  reset-eq :
      (reset_circuit_breaker w' true (simulate_shock w true stored).0).0 ≡ holds (obj recovered)
  unfolding store_breaker updated
  reset-eq = rw shock-eq refl

  -- Of a file that holds an object, where both writes succeed: a shock and then a reset leave an
  -- object whose status is "ONLINE" and whose breaker is open, with both log lines before the
  -- earlier ones, the later line first, and every other field as it was.
  pub reset_after_shock :
      (fs' : Fields (Number.Num n)) × ((reset_circuit_breaker w' true
          (simulate_shock w true stored).0).0
        ≡ holds (obj fs'))
      × (field_of "status" fs' ≡ str "ONLINE")
      × (get "isGateSealed" (field_of "circuitBreaker" fs') ≡ bool false)
      × (get "isBunkerMode" (field_of "circuitBreaker" fs') ≡ bool false)
      × (field_of "recentLogs" fs'
          ≡ arr (
              cons
                (str (recovery_line w'))
                (cons (str (shock_line w)) (array_or_empty (field_of "recentLogs" fs)))))
      × ((k : String)
          → ("circuitBreaker" == k) ≡ false
          → ("status" == k) ≡ false
          → ("recentLogs" == k) ≡ false
          → field_of k fs' ≡ field_of k fs)
  unfolding open_breaker get field_of
  reset_after_shock = (
    recovered,
    reset-eq,
    status_set _ _ _ shocked,
    ap (get "isGateSealed") (breaker_set _ _ _ shocked),
    ap (get "isBunkerMode") (breaker_set _ _ _ shocked),
    logs_set _ _ _ shocked
        ∙ ap (λ (v : Json (Number.Num n)). arr (cons (str (recovery_line w')) (array_or_empty v)))
            (logs_set _ _ _ fs),
    λ k a b c. other_kept _ _ _ shocked k a b c ∙ other_kept _ _ _ fs k a b c,
  )
