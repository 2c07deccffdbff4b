-- ===== src/Server/Voting.antt =====
-- frontend/server.js: `/api/governance/vote`, the invocation that a wallet is asked to sign.
pub mod Ballot
use hikari.Prelude.{
  ℕ, zero, suc, ◌+◌, ◌-◌, Bool, true, false, ◌||◌, List, [], ◌∷◌, map, length, Option, none, some,
  if◌then◌else◌,
}
use hikari.Prelude.Int.{ℤ, pos}
use hikari.Prelude.Text.{String, ◌⊕◌, ◌==◌, utf16_length, is_empty, take_chars}
use hikari.Prelude.Number.{Number}
use hikari.Prelude.Except.{Except, ok, thrown, ◌>>=◌, catch}
use hikari.Prelude.Json.{
  Json, bool, num, str, object, array, get, is_nullish, if_nullish, truthy, or_else,
}
use hikari.Server.Http.{
  Request, Response, GovernanceConfig, Proposal, Reader, World, respond, property, contract_id,
  parse_body,
}
use hikari.Server.Governance.{default_governance, default_admin}

module _ {n : Number} (w : World n) where
  open n use {Num, of_ℤ}

  -- `voteTypeMap[name] ?? 1`: Against is 0, For 1, Abstain 2
  unfoldable pub vote_of_name : String → Json Num
  vote_of_name name =
      if name == "Against" || name == "0"
      then num (of_ℤ (pos 0))
      else if name == "For" || name == "1"
      then num (of_ℤ (pos 1))
      else if name == "Abstain" || name == "2"
      then num (of_ℤ (pos 2))
      else elim (w.inherited name) [ none ↦ num (of_ℤ (pos 1)) | some (member, text) ↦ member ]

  -- `voteTypeValue`
  unfoldable pub vote_type_value : Json Num → Json Num
  vote_type_value (str name) = vote_of_name name
  vote_type_value v = num (w.number_of (if_nullish v (num (of_ℤ (pos 1)))))

  -- The parts of the answer that depend on whether the call is a veto.
  unfoldable pub invocation_args : Bool → Json Num → Json Num → Json Num → Json Num → Json Num
  invocation_args true voter p_id vote_type power =
      object (("voter", voter) ∷ ("proposal_id", p_id) ∷ [])
  invocation_args false voter p_id vote_type power = object (
      ("voter", voter)
      ∷ ("proposal_id", p_id)
      ∷ ("vote_type", vote_type_value vote_type)
      ∷ ("voting_power", str (w.show power))
      ∷ [])

  unfoldable pub invocation : Json Num → Bool → Json Num → Json Num → Json Num → Json Num → Json Num
  unfolding invocation_args
  invocation id is_veto voter p_id vote_type power = object (
      ("contractId", id)
      ∷ ("functionName", str (if is_veto then "staker_veto" else "cast_vote"))
      ∷ ("args", invocation_args is_veto voter p_id vote_type power)
      ∷ ("network", str "Test SDF Network ; September 2015")
      ∷ [])

  unfoldable pub vote_answer : Json Num → Json Num → Response Num
  unfolding invocation
  vote_answer id payload =
      let voter = or_else n (get "voter" payload) (str default_admin) in
      let p_id = num (w.number_of (or_else n (get "proposalId" payload) (num (of_ℤ (pos 1))))) in
      let is_veto = truthy n (get "isVeto" payload) in
      let vote_type = get "voteType" payload in
      let power = or_else n (get "votingPowerStroops" payload) (str "1000000000") in
      respond 200 (
        object (
          ("ok", bool true)
          ∷ ("success", bool true)
          ∷ ("status", str "AWAITING_SIGNATURE")
          ∷ ("requiresSignature", bool true)
          ∷ ("proposalId", p_id)
          ∷ ("voter", voter)
          ∷ ("action", str (if is_veto then "STAKER_VETO" else "CAST_VOTE"))
          ∷ ("voteType", or_else n vote_type (str "For"))
          ∷ ("votingPowerStroops", power)
          ∷ ("invocation", invocation id is_veto voter p_id vote_type power)
          ∷ (
            "instructions",
            str "Sign this invocation with your wallet and submit via /api/submit-tx",
          )
          ∷ ("timestamp", str w.iso_now)
          ∷ []))

  -- the `try` of the handler; destructuring null throws
  unfoldable pub vote_attempt : Request → Except (Response Num)
  vote_attempt req = do
    id ← contract_id w "governance" default_governance
    payload ← parse_body w req.body
    _ ← property w "proposalId" payload
    ok (vote_answer id payload)

  unfoldable pub governance_vote : Request → Response Num
  governance_vote req = catch (vote_attempt req) λ message. respond 400 (
      object (
        ("ok", bool false)
        ∷ ("success", bool false)
        ∷ ("error", str ("Invalid vote payload: " ⊕ message))
        ∷ []))
