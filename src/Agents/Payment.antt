-- ===== src/Agents/Payment.antt =====
-- agents/src/payment_agent.ts: what the payment agent may spend, and how it settles. `now` is the clock,
-- `configured` says that both settings of the payment channel are there.
use hikari.Prelude.{ℕ, Bool, true, false, ◌||◌, Option, none, if◌then◌else◌}
use hikari.Prelude.Int.{ℤ, pos, ltb_ℤ, ◌+ℤ◌, ◌-ℤ◌}
use hikari.Prelude.Except.{Except, ok, thrown}
use hikari.Prelude.Text.{String, ◌⊕◌, starts_with}

pub record PaymentRequest : Type 0 where
  pub service_name : String
  pub endpoint : String
  pub asset : String
  pub amount_stroops : ℤ
  pub destination : String

pub record PaymentReceipt : Type 0 where
  pub success : Bool
  pub tx_hash : Option String
  pub timestamp : ℕ
  pub settled_amount : ℤ
  pub notes : String
  pub fallback_engaged : Bool

pub record PaymentAgent : Type 0 where
  pub max_per_query_stroops : ℤ
  pub daily_budget_stroops : ℤ
  pub spent_today_stroops : ℤ

abbrev pub new_payment_agent : PaymentAgent
new_payment_agent = record {
  max_per_query_stroops = pos 100_000;
  daily_budget_stroops = pos 10_000_000;
  spent_today_stroops = pos 0;
}

unfoldable pub can_pay : PaymentAgent → PaymentRequest → Bool
can_pay agent req =
    if ltb_ℤ agent.max_per_query_stroops req.amount_stroops
    then false
    else if ltb_ℤ agent.daily_budget_stroops (agent.spent_today_stroops +ℤ req.amount_stroops)
    then false
    else starts_with req.destination "G" || starts_with req.destination "C"

unfoldable pub fetch_public_oracle_fallback : ℕ → String → String → PaymentReceipt
fetch_public_oracle_fallback now service_name reason = record {
  success = true;
  tx_hash = none;
  timestamp = now;
  settled_amount = pos 0;
  notes =
      "Using free public Stellar RPC and Horizon telemetry for " ⊕ service_name ⊕ " (" ⊕ reason
      ⊕ ")";
  fallback_engaged = true;
}

-- The agent's fields stay as they are.
unfoldable pub settle_payment : Bool → ℕ → PaymentRequest → PaymentAgent → Except PaymentReceipt
unfolding can_pay fetch_public_oracle_fallback
settle_payment configured now req agent =
    if can_pay agent req
    then (if configured
        then thrown "x402 on-chain payment settlement channel: Not implemented yet on testnet."
        else thrown (
            "x402 on-chain machine micropayment settlement is not configured for "
            ⊕ req.service_name ⊕ "."))
    else ok (
        fetch_public_oracle_fallback now req.service_name
          "Payment budget exceeded or query fee capped")

pub record BudgetStatus : Type 0 where
  pub daily_budget : ℤ
  pub max_per_query : ℤ
  pub spent_today : ℤ
  pub remaining : ℤ

abbrev pub get_budget_status : PaymentAgent → BudgetStatus
get_budget_status agent = record {
  daily_budget = agent.daily_budget_stroops;
  max_per_query = agent.max_per_query_stroops;
  spent_today = agent.spent_today_stroops;
  remaining = agent.daily_budget_stroops -ℤ agent.spent_today_stroops;
}
