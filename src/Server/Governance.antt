-- ===== src/Server/Governance.antt =====
-- frontend/server.js: `/api/governance/proposals`. `thrown` is a rejection outside the handler's `try`.
pub mod Listing
use hikari.Prelude.{
  ℕ, zero, suc, ◌+◌, ◌-◌, Bool, true, false, ◌||◌, List, [], ◌∷◌, map, length, Option, none, some,
  if◌then◌else◌,
}
use hikari.Prelude.Int.{ℤ, pos}
use hikari.Prelude.Text.{String, ◌⊕◌, ◌==◌, utf16_length, is_empty, take_chars}
use hikari.Prelude.Number.{Number}
use hikari.Prelude.Except.{Except, ok, thrown, ◌>>=◌, catch}
use hikari.Prelude.Json.{
  Json, bool, num, str, object, array, get, is_nullish, if_nullish, truthy, or_else,
}
use hikari.Server.Http.{
  Request, Response, GovernanceConfig, Proposal, Reader, World, respond, property, contract_id,
  parse_body,
}

abbrev pub default_governance : String
default_governance = "CA2MDYX7IIDD32KQGXIN6SRERI4ABVO3N37BLH7HKNFGTAI252VE7QID"

abbrev pub default_admin : String
default_admin = "GCJSDY6QA6CYEIZ6W6USD2QC22OBHKOI326YUU64QWBBMWL4GBSY6BQN"

abbrev zeros : ℕ → String
zeros zero = ""
zeros (suc k) = "0" ⊕ zeros k

-- `s.padStart(width, "0")`
unfoldable pub pad_start : ℕ → String → String
pad_start width s = zeros (width - utf16_length s) ⊕ s

-- `Promise.all` of the reads of the requests first, first + 1, …, by their number. Where several
-- fail, it is the first of them that counts here; the code only logs it.
unfoldable pub read_each {ℓ} : {A : Type ℓ} → (ℕ → Except A) → ℕ → ℕ → Except (List A)
read_each read first zero = ok []
read_each read first (suc rounds) = do
  p ← read first
  ps ← read_each read (first + 1) rounds
  ok (p ∷ ps)

-- What the batch of reads leaves in `config`, `proposals` and `isLiveRpc`.
pub record Governance (N : Type 0) : Type 0 where
  pub config : GovernanceConfig N
  pub proposals : List (Proposal N)
  pub is_live_rpc : Bool

-- the number of proposals; a failed read is 0
abbrev pub count_or_zero : Except ℕ → ℕ
count_or_zero (thrown e) = 0
count_or_zero (ok k) = k

module _ (n : Number) where
  open n use {Num, of_ℤ}

  abbrev pub default_config : GovernanceConfig Num
  default_config = record {
    admin = default_admin;
    hxlm_token = "CA36LWOMIDPXFMVTQR6TODLSAO6QFNSYK6UBP5CS5MWGC2UHIDT23QLH";
    quorum_bps = of_ℤ (pos 400);
    veto_threshold_bps = of_ℤ (pos 3340);
    timelock_ledgers = of_ℤ (pos 8640);
    voting_period_ledgers = of_ℤ (pos 17280);
  }

  -- the config, once its read is done
  abbrev pub with_config : Except (GovernanceConfig Num) → Governance Num
  with_config (thrown e) = record { config = default_config; proposals = []; is_live_rpc = false }
  with_config (ok c) = record { config = c; proposals = []; is_live_rpc = true }

  -- the proposals, unless there are none or one of them cannot be read
  unfoldable pub with_proposals : (ℕ → Except (Proposal Num)) → ℕ → Governance Num → Governance Num
  with_proposals read zero g = g
  with_proposals read (suc k) g = elim (read_each read 1 (suc k)) [
    | thrown e ↦ g
    | ok ps ↦ record g { proposals = ps; is_live_rpc = true }
  ]

module _ {n : Number} (w : World n) where
  open n use {Num, of_ℤ}

  unfoldable pub read_governance : String → Governance Num
  unfolding with_proposals
  read_governance id = elim w.reader [
    | none ↦ record { config = default_config n; proposals = []; is_live_rpc = false }
    | some reader ↦
        with_proposals n (reader.read_governance_proposal id)
          (count_or_zero (reader.read_governance_proposal_count id))
          (with_config n (reader.read_governance_config id))
  ]

  abbrev text_num : Num → String
  text_num x = w.show (num x)

  unfoldable pub proposal_json : GovernanceConfig Num → Proposal Num → Json Num
  unfolding pad_start
  proposal_json c p = object (
      ("id", num p.id)
      ∷ ("title", str (if is_empty p.title then "HIP-" ⊕ pad_start 2 (text_num p.id) else p.title))
      ∷ ("creator", str p.creator)
      ∷ ("actionId", num p.action_id)
      ∷ ("paramValue", num (of_ℤ p.param_value))
      ∷ ("startLedger", num p.start_ledger)
      ∷ ("endLedger", num p.end_ledger)
      ∷ ("etaLedger", num p.eta_ledger)
      ∷ ("forVotesStroops", str (w.show_ℤ p.for_votes))
      ∷ ("againstVotesStroops", str (w.show_ℤ p.against_votes))
      ∷ ("abstainVotesStroops", str (w.show_ℤ p.abstain_votes))
      ∷ ("vetoVotesStroops", str (w.show_ℤ p.veto_votes))
      ∷ ("state", str p.state)
      ∷ ("quorumBps", num c.quorum_bps)
      ∷ ("vetoThresholdBps", num c.veto_threshold_bps)
      ∷ ("timelockLedgers", num c.timelock_ledgers)
      ∷ (
        "description",
        str (
            "On-chain governance proposal #"
            ⊕ text_num p.id
            ⊕ " targeting action ID "
            ⊕ text_num p.action_id
            ⊕ " with parameter "
            ⊕ w.show_ℤ p.param_value
            ⊕ ". Description Hash: "
            ⊕ take_chars 16 p.description_hash
            ⊕ "..."),
      )
      ∷ [])

  abbrev pub config_json : GovernanceConfig Num → Json Num
  config_json c = object (
      ("admin", str c.admin)
      ∷ ("hxlmToken", str c.hxlm_token)
      ∷ ("quorumBps", num c.quorum_bps)
      ∷ ("vetoThresholdBps", num c.veto_threshold_bps)
      ∷ ("timelockLedgers", num c.timelock_ledgers)
      ∷ ("votingPeriodLedgers", num c.voting_period_ledgers)
      ∷ [])

  unfoldable pub governance_answer : Governance Num → Response Num
  governance_answer g = respond 200 (
      object (
        ("success", bool true)
        ∷ ("ok", bool true)
        ∷ ("count", num (of_ℤ (pos (length g.proposals))))
        ∷ ("proposals", array (map (proposal_json g.config) g.proposals))
        ∷ ("config", config_json g.config)
        ∷ ("dataSource", str (if g.is_live_rpc then "LIVE_SOROBAN_RPC" else "CONFIG_FALLBACK"))
        ∷ []))

  unfoldable pub governance_proposals : Except (Response Num)
  governance_proposals = do
    id ← contract_id w "governance" default_governance
    ok (governance_answer (read_governance (w.show id)))
