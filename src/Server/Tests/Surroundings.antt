-- ===== src/Server/Tests/Surroundings.antt =====
-- Surroundings for the tests: JSON texts that are all one object, and a reader with some answers.
use hikari.Prelude.{ℕ, [], ◌∷◌, some, none, false, if◌then◌else◌}
use hikari.Prelude.Int.{ℤ, pos, ltb_ℤ, ◌-ℤ◌}
use hikari.Prelude.Text.{String}
use hikari.Prelude.Number.{fixed_point}
use hikari.Prelude.Except.{ok, thrown}
use hikari.Prelude.Json.{Json, num, str, object}
use hikari.Server.Http.{holds, Reader, Sdk, World, Proposal}
use hikari.Server.Services.{Services}

abbrev contract : String → Json ℤ
contract id = object (("id", str id) ∷ [])

abbrev pub contracts : Json ℤ
contracts = object (
    (
      "contracts",
      object (
          ("vault", contract "V")
          ∷ ("oracle", contract "O")
          ∷ ("gateSeal", contract "S")
          ∷ ("withdrawalQueue", contract "Q")
          ∷ []),
    )
    ∷ [])

abbrev pub proposal : ℕ → Proposal ℤ
proposal i = record {
  id = pos i;
  creator = "GC";
  title = "";
  description_hash = "00";
  action_id = pos 1;
  param_value = pos 7;
  start_ledger = pos 10;
  end_ledger = pos 20;
  eta_ledger = pos 30;
  for_votes = pos 4;
  against_votes = pos 3;
  abstain_votes = pos 2;
  veto_votes = pos 1;
  state = "Active";
}

-- No service can be reached.
abbrev services : Services ℤ
services = record {
  env = λ name. none;
  market = record {
    trade_aggregations = λ url. thrown "unreachable";
    simple_price = λ url id. thrown "unreachable";
    ohlc = λ url. thrown "unreachable";
  };
  points_engine = thrown "not built";
  social_gateway = thrown "not built";
  solvency_engine = thrown "not built";
  telegram_bot = thrown "not built";
  execute_x402_micropayment = λ url secret amount. thrown "unreachable";
  horizon_root = λ url. thrown "unreachable";
}

-- The shares cannot be read.
abbrev pub reader : Reader ℤ
reader = record {
  read_token_balance = λ token address. ok (pos 5);
  read_withdrawal_request = λ queue id. thrown "simulation did not return a success result";
  read_vault_total_assets = λ vault. ok (pos 1001);
  read_vault_total_shares = λ vault. thrown "unreachable";
  read_oracle_telemetry = λ oracle. thrown "unreachable";
  read_gate_seal_status =
      λ seal. ok (record { is_sealed = false; sealed_at_ledger = pos 0; duration_ledgers = pos 0 });
  simulate_call = λ id name. thrown "unreachable";
  read_governance_config = λ id. thrown "unreachable";
  read_governance_proposal_count = λ id. ok 2;
  read_governance_proposal = λ id i. ok (proposal i);
}

abbrev sdk : Sdk
sdk = record {
  Account = String;
  Transaction = String;
  get_account = λ address. ok address;
  build_call = λ account contract name address amount. ok name;
  prepare_transaction = λ t. ok t;
  to_xdr = λ t. t;
}

abbrev text_of : Json ℤ → String
text_of (str s) = s
text_of _ = "?"

abbrev number_of : Json ℤ → ℤ
number_of (num x) = x
number_of _ = pos 0

abbrev pub world : World fixed_point
world = record {
  parse_json = λ s. ok (object []);
  parse_float = number_of;
  number_of = number_of;
  show = text_of;
  show_ℤ = λ z. "?";
  big_int = λ v. thrown "SyntaxError";
  to_fixed = λ x k. "?";
  to_upper = λ s. s;
  max = λ a b. if ltb_ℤ a b then b else a;
  abs = λ x. if ltb_ℤ x (pos 0) then pos 0 -ℤ x else x;
  pow = λ a b. a;
  sqrt = λ a. a;
  parse_int = λ s. pos 0;
  time_of = λ s. pos 0;
  inherited = λ name. none;
  type_error = "TypeError";
  range_error = "RangeError";
  headers_sent = "ERR_HTTP_HEADERS_SENT";
  iso_now = "2026-01-01T00:00:00.000Z";
  now_ms = pos 0;
  random_hex = "a";
  contracts_file = holds contracts;
  reader = some reader;
  sdk = sdk;
  send_transaction = λ xdr. thrown "unreachable";
  services = services;
}
