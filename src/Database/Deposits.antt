-- ===== src/Database/Deposits.antt =====
-- What `recordDeposit` does to the portfolio, the transactions and the errors.
use hikari.Prelude.{
  ◌≡◌, ◌⊎◌, inl, inr, refl, sym, ap, ◌∙◌, List, [], ◌∷◌, Option, none, some, arith, Option-cases,
}
use hikari.Prelude.Int.{ℤ, pos, ◌+ℤ◌}
use hikari.Prelude.Text.{String, eq_refl}
use hikari.Prelude.Dict.{lookup, lookup-insert}
use hikari.Prelude.Except.{Except, ok, thrown}
use hikari.Database.Types.{Host, UserPortfolio, UserTransaction, Database, Draw}
use hikari.Database.Storage.{persist_state, or_empty}
use hikari.Database.Booking.{
  new_portfolio, deposit_transaction, put_portfolio, record_transaction, add_texts, held_portfolio,
  with_map, deposited, book_deposit, record_deposit_at,
}

persist-portfolios :
    {N : Type 0} (d : Draw) (db : Database N)
    → (persist_state d db).portfolios_table ≡ db.portfolios_table
unfolding persist_state
persist-portfolios d db = ground arith

module _ {N : Type 0} (h : Host N) (db : Database N) (address vault amount shares hash : String)
    (ledger : N) (d : Draw) where
  abbrev pub held : UserPortfolio
  held = held_portfolio db address vault d

  abbrev pub result : Database N × Except UserPortfolio
  result = record_deposit_at h db address vault amount shares hash ledger d

  abbrev pub Books : ℤ → ℤ → Type 0
  Books total sum =
      (add_texts h held.deposited_stroops amount ≡ some total)
      × (add_texts h held.h_shares_balance shares ≡ some sum)
      × (result
          ≡ book_deposit (with_map address db) address vault amount shares hash ledger d
              (deposited h held total sum d))

  booked :
      (total sum : ℤ)
      → add_texts h held.deposited_stroops amount ≡ some total
      → add_texts h held.h_shares_balance shares ≡ some sum
      → result
        ≡ book_deposit
            (with_map address db)
            address
            vault
            amount
            shares
            hash
            ledger
            d
            (deposited h held total sum d)
  unfolding record_deposit_at
  booked total sum good fine = rw (good, fine, record_deposit_at) refl

  pub record_deposit_at-cases :
      (result ≡ (with_map address db, thrown h.syntax_error))
      ⊎ ((total : ℤ) × (sum : ℤ) × Books total sum)
  unfolding record_deposit_at
  record_deposit_at-cases = elim (Option-cases (add_texts h held.deposited_stroops amount)) [
    | inl bad ↦ inl (rw (bad, record_deposit_at) refl)
    | inr (total, good) ↦ elim (Option-cases (add_texts h held.h_shares_balance shares)) [
      | inl bad ↦ inl (rw (good, bad, record_deposit_at) refl)
      | inr (sum, fine) ↦ inr (total, sum, (good, fine, booked total sum good fine))
    ]
  ]

-- `BigInt(z.toString())` is z.
abbrev pub ReadsBack : {N : Type 0} → Host N → Type 0
ReadsBack h = (z : ℤ) → h.big_int (h.show_ℤ z) ≡ some z

-- A field of the entry of an address in a vault, as an integer: 0 where there is no entry.
abbrev pub amount_of :
    {N : Type 0} → Host N → (UserPortfolio → String) → Database N → String → String → Option ℤ
amount_of h field db address vault =
    elim (lookup vault (or_empty (lookup address db.portfolios_table))) [
      | none ↦ some (pos 0)
      | some p ↦ h.big_int (field p)
    ]

abbrev pub assets : {N : Type 0} → Host N → Database N → String → String → Option ℤ
assets h = amount_of h (λ p. p.deposited_stroops)

abbrev pub shares_held : {N : Type 0} → Host N → Database N → String → String → Option ℤ
shares_held h = amount_of h (λ p. p.h_shares_balance)

module _ {N : Type 0} (h : Host N) (db : Database N) (address vault : String) (d : Draw) where
  held-amount :
      (field : UserPortfolio → String) (z : ℤ)
      → h.big_int (field (new_portfolio d.uuid address vault d.now)) ≡ some (pos 0)
      → amount_of h field db address vault ≡ some z
      → h.big_int (field (held_portfolio db address vault d)) ≡ some z
  held-amount field z zero_text e =
      elim (Option-cases (lookup vault (or_empty (lookup address db.portfolios_table)))) [
        | inl missing ↦ rw (missing, held_portfolio) (zero_text ∙ (rw (missing, amount_of) at e))
        | inr (p, there) ↦ rw (there, held_portfolio) (rw (there, amount_of) at e)
      ]

  amount_stored :
      (field : UserPortfolio → String) (p : UserPortfolio)
      → lookup vault (or_empty (lookup address db.portfolios_table)) ≡ some p
      → amount_of h field db address vault ≡ h.big_int (field p)
  amount_stored field p e = rw (e, amount_of) refl

  stored :
      (x : UserTransaction N) (p : UserPortfolio)
      → let t =
          (persist_state d
            (record_transaction (put_portfolio address vault p db) x d)).portfolios_table in
        lookup vault (or_empty (lookup address t)) ≡ some p
  unfolding record_transaction
  stored x p = rw (persist-portfolios d _, persist-portfolios d _) (simp (lookup-insert, eq_refl))

module _ {N : Type 0} (h : Host N) (reads : ReadsBack h) (zero_text : h.big_int "0" ≡ some (pos 0))
    (db : Database N) (address vault amount shares hash : String) (ledger : N) (d : Draw) where
  sums :
      (a b : String) (u v : ℤ)
      → h.big_int a ≡ some u
      → h.big_int b ≡ some v
      → add_texts h a b ≡ some (u +ℤ v)
  unfolding add_texts
  sums a b u v p q = ground (arith, p, q)

  -- A deposit of two integers adds them to the assets and the shares of the address in the vault.
  pub record_deposit_at-adds :
      (old x held_shares y : ℤ)
      → assets h db address vault ≡ some old
      → shares_held h db address vault ≡ some held_shares
      → h.big_int amount ≡ some x
      → h.big_int shares ≡ some y
      → let (after, r) = record_deposit_at h db address vault amount shares hash ledger d in
        ((p : UserPortfolio) × (r ≡ ok p))
        × (assets h after address vault ≡ some (old +ℤ x))
        × (shares_held h after address vault ≡ some (held_shares +ℤ y))
  record_deposit_at-adds old x held_shares y a s given_a given_s =
      let ga = held-amount h db address vault d (λ p. p.deposited_stroops) old in
      let gs = held-amount h db address vault d (λ p. p.h_shares_balance) held_shares in
      let e =
        booked h db address vault amount shares hash ledger d (old +ℤ x) (held_shares +ℤ y)
          (sums _ _ _ _ (unfold new_portfolio in ga zero_text a) given_a)
          (sums _ _ _ _ (unfold new_portfolio in gs zero_text s) given_s) in
      let p = deposited h (held_portfolio db address vault d) (old +ℤ x) (held_shares +ℤ y) d in
      let tx = deposit_transaction address vault amount shares hash ledger d in
      let after : Database N =
        persist_state d
          (record_transaction (put_portfolio address vault p (with_map address db)) tx d) in
      let found = stored h (with_map address db) address vault d tx p in
      rw e (
        (p, refl),
        amount_stored h after address vault d (λ q. q.deposited_stroops) p found ∙ reads _,
        amount_stored h after address vault d (λ q. q.h_shares_balance) p found ∙ reads _,
      )

-- A deposit, by the texts that it is given.
pub record Deposit (N : Type 0) : Type 0 where
  pub amount : String
  pub shares : String
  pub tx_hash : String
  pub ledger : N
  pub draw : Draw

module _ {N : Type 0} (h : Host N) (address vault : String) where
  -- the deposits in turn
  unfoldable pub deposit_all : List (Deposit N) → Database N → Database N
  deposit_all [] db = db
  deposit_all (x ∷ xs) db =
      deposit_all xs
        (record_deposit_at h db address vault x.amount x.shares x.tx_hash x.ledger x.draw).0

  -- The integers that a list of texts stands for add up to z.
  abbrev pub AddUp : (Deposit N → String) → List (Deposit N) → ℤ → ℤ → Type 0
  AddUp field [] start z = z ≡ start
  AddUp field (x ∷ xs) start z =
      (y : ℤ) × (h.big_int (field x) ≡ some y) × AddUp field xs (start +ℤ y) z

  -- Deposits of integers by an address in a vault add up: afterwards its assets and its shares are
  -- what they were and the sums of the amounts and of the shares, however many deposits there are.
  pub deposit_all-AddUp :
      (reads : ReadsBack h) (zero_text : h.big_int "0" ≡ some (pos 0)) (xs : List (Deposit N))
      (db : Database N) (old held_shares total sum : ℤ)
      → assets h db address vault ≡ some old
      → shares_held h db address vault ≡ some held_shares
      → AddUp (λ x. x.amount) xs old total
      → AddUp (λ x. x.shares) xs held_shares sum
      → (assets h (deposit_all xs db) address vault ≡ some total)
        × (shares_held h (deposit_all xs db) address vault ≡ some sum)
  unfolding deposit_all
  deposit_all-AddUp reads zero_text [] db old held_shares total sum a s p q =
      (a ∙ ap some (sym p), s ∙ ap some (sym q))
  deposit_all-AddUp reads zero_text (x ∷ xs) db old held_shares total sum a s (y, ey, p)
        (z, ez, q) =
      let (_, a', s') =
        record_deposit_at-adds h reads zero_text db address vault x.amount x.shares x.tx_hash
          x.ledger x.draw old y held_shares z a s ey ez in
      deposit_all-AddUp reads zero_text xs _ _ _ total sum a' s' p q
