-- ===== src/Server/Voting/Ballot.antt =====
-- What `/api/governance/vote` asks the wallet to sign.
use hikari.Prelude.{◌≡◌, none, arith, ◌||◌, if◌then◌else◌, Bool-cases, inl, inr, refl}
use hikari.Prelude.Int.{pos}
use hikari.Prelude.Text.{String, ◌==◌, eq_iff}
use hikari.Prelude.Number.{Number}
use hikari.Prelude.Json.{Json, undefined, num, str, get, field_of, truthy}
use hikari.Server.Http.{Body, json, World}
use hikari.Server.Voting.{vote_of_name, vote_type_value, invocation_args, vote_answer}

abbrev pub body_json : {N : Type 0} → Body N → Json N
body_json (json v) = v
body_json _ = undefined

module _ {n : Number} (w : World n) (id payload : Json (Number.Num n)) where
  open n use {of_ℤ}

  abbrev pub asked : Json (Number.Num n)
  asked = get "invocation" (body_json (vote_answer w id payload).body)

  named :
      (name : String)
      → w.inherited name ≡ none
      → vote_of_name w name
        ≡ num (
            of_ℤ (
              pos (
                if name == "Against" || name == "0"
                then 0
                else if name == "Abstain" || name == "2"
                then 2
                else 1)))
  unfolding vote_of_name
  named name plain = elim (Bool-cases (name == "For")) [
    | inl for_ ↦ rw ((eq_iff name "For").0 for_) refl
    | inr other ↦ elim (Bool-cases (name == "1")) [
      | inl one ↦ rw ((eq_iff name "1").0 one) refl
      | inr neither ↦ ground arith
    ]
  ]

  -- The call to sign is one of the governance contract, for the proposal and the voter that the answer
  -- shows. A veto calls `staker_veto`, without a vote type. Any other vote calls `cast_vote`: by name,
  -- "Against" (or "0") is 0, "Abstain" (or "2") is 2, and every other name that no object inherits is
  -- a vote for, 1.
  pub vote_answer_lem :
      (name : String)
      → get "voteType" payload ≡ str name
      → w.inherited name ≡ none
      → let args = get "args" asked in
        let shown = body_json (vote_answer w id payload).body in
        let is_veto = truthy n (get "isVeto" payload) in
        (get "contractId" asked ≡ id)
        × (get "voter" args ≡ get "voter" shown)
        × (get "proposal_id" args ≡ get "proposalId" shown)
        × (get "functionName" asked ≡ str (if is_veto then "staker_veto" else "cast_vote"))
        × (get "vote_type" args ≡ (
            if is_veto
            then undefined
            else num (
                of_ℤ (
                  pos (
                    if name == "Against" || name == "0"
                    then 0
                    else if name == "Abstain" || name == "2"
                    then 2
                    else 1)))))
  unfolding vote_answer get field_of vote_type_value
  vote_answer_lem name given plain = elim (Bool-cases (truthy n (get "isVeto" payload))) [
    | inl veto ↦ rw (veto, vote_answer) (refl, refl, refl, refl, refl)
    | inr cast ↦
        rw (cast, vote_answer, invocation_args)
          (refl, refl, refl, refl, rw (given, vote_type_value) (named name plain))
  ]
