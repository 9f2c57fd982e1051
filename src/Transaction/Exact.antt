-- ===== src/Transaction/Exact.antt =====
-- What a transaction that may be sent pays.
use virtual_haibin.Prelude.{
  ℕ, String, true, Option, none, some, length, ◌≡◌, ◌≢◌, refl, arith, inl, inr, Option-cases, ap,
}
use virtual_haibin.Transaction.{
  ExpectedExactPayment, valid, DecodedTransaction, account, Step, next, stop, signature_of,
  check_instructions, finish, check_signed, check_message, is_version_0,
  validate_exact_payment_transaction,
}
use virtual_haibin.Transaction.Rounds.{
  is_value-eq, IsSinglePayment, check_instructions-IsSinglePayment,
}

-- The decoded transaction `tx` is bound, addressed and signed as expected, and has one payment.
pub record IsExactPayment (associated : String → String → String → Option String)
    (base58 : String → String) (expected : ExpectedExactPayment) (payer_signature program : String)
    (tx : DecodedTransaction) : Type 0 where
  pub version : tx.version ≡ some 0
  pub no_lookups : tx.lookups ≡ 0
  pub blockhash : tx.lifetime_token ≡ expected.blockhash
  pub fee_payer : account tx.static_accounts 0 ≡ some expected.fee_payer
  pub payer : account tx.static_accounts 1 ≡ some expected.payer
  pub signers : tx.num_signer_accounts ≡ 2
  pub signatures : length tx.signatures ≡ 2
  pub signature :
      (s : String) × (signature_of expected.payer tx.signatures ≡ some s)
      × (payer_signature ≡ base58 s)
  pub payment : IsSinglePayment associated expected tx.static_accounts program tx.instructions

version_0-eq : (v : Option ℕ) → is_version_0 v ≡ true → v ≡ some 0
version_0-eq none h = cc (h)
version_0-eq (some n) h = let e : n ≡ 0 = ground (arith, h) in ap some e

finish-valid :
    (signature payer_signature program : String) (s : Step)
    → finish signature s ≡ valid payer_signature program
    → (s ≡ next (some program)) × (payer_signature ≡ signature)
finish-valid signature payer_signature program (stop r) h = cc (h)
finish-valid signature payer_signature program (next none) h = cc (h)
finish-valid signature payer_signature program (next (some p)) h =
    (ground (arith, h), ground (arith, h))

module _ (associated : String → String → String → Option String) (base58 : String → String)
    (expected : ExpectedExactPayment) (payer_signature program : String) where
  check_message-IsExactPayment :
      (tx : DecodedTransaction)
      → check_message associated base58 expected tx ≡ valid payer_signature program
      → IsExactPayment associated base58 expected payer_signature program tx
  unfolding check_message check_signed
  check_message-IsExactPayment tx h =
      elim (Option-cases (signature_of expected.payer tx.signatures)) [
        | inl unsigned ↦ absurd (ground (arith, unsigned, h))
        | inr (s, signed) ↦
            let last : finish (base58 s)
                  (check_instructions associated expected tx.static_accounts none tx.instructions)
                ≡ valid payer_signature program =
              ground (arith, signed, h) in
            let (rounds, is) = finish-valid (base58 s) payer_signature program _ last in
            record {
              version = version_0-eq tx.version (ground (arith, signed, h));
              no_lookups = ground (arith, signed, h);
              blockhash = ground (arith, signed, h);
              fee_payer =
                  is_value-eq (account tx.static_accounts 0) expected.fee_payer
                    (ground (arith, signed, h));
              payer =
                  is_value-eq (account tx.static_accounts 1) expected.payer
                    (ground (arith, signed, h));
              signers = ground (arith, signed, h);
              signatures = ground (arith, signed, h);
              signature = (s, signed, is);
              payment =
                  check_instructions-IsSinglePayment associated expected tx.static_accounts program
                    tx.instructions rounds;
            }
      ]

  -- A transaction that the authority may send pays exactly what was expected and moves nothing else:
  -- where the validation answers valid, the text decodes to a version 0 message with no lookup
  -- tables, bound to the expected blockhash, whose two signers are the fee payer and the payer, who
  -- differ, which the payer signed; one of its instructions is a TransferChecked of exactly the
  -- amount of the asset from the payer's token account to the payee's, and every other one sets the
  -- compute budget or is a memo, with no accounts.
  pub validate-IsExactPayment :
      (decode : String → Option DecodedTransaction) (text : Option String)
      → validate_exact_payment_transaction associated decode base58 text expected
        ≡ valid payer_signature program
      → (expected.fee_payer ≢ expected.payer)
        × ((encoded : String) × (tx : DecodedTransaction) × (text ≡ some encoded)
            × (decode encoded ≡ some tx)
            × IsExactPayment associated base58 expected payer_signature program tx)
  unfolding validate_exact_payment_transaction
  validate-IsExactPayment decode none h = cc (h)
  validate-IsExactPayment decode (some encoded) h = elim (Option-cases (decode encoded)) [
    | inl bad ↦ absurd (ground (arith, bad, h))
    | inr (tx, decoded) ↦ (
      ground (arith, decoded, h),
      (encoded, tx, refl, decoded, check_message-IsExactPayment tx (ground (arith, decoded, h))),
    )
  ]
