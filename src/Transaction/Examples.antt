-- ===== src/Transaction/Examples.antt =====
-- Transactions on concrete data.
use virtual_haibin.Prelude.{
  String, String-discrete, Option, none, some, List, [], ◌∷◌, ◌≡◌, ◌≢◌, refl,
}
use virtual_haibin.Decimal.{is_canonical_atomic_amount, big_int}
use virtual_haibin.Transaction.{
  token_program, compute_budget_program, ExpectedExactPayment, valid, rejected, Rejection,
  CompiledInstruction, DecodedTransaction, check_transfer, check_token, check_program,
  check_instruction, check_instructions, check_signed, check_message,
  validate_exact_payment_transaction,
}
use virtual_haibin.Transaction.Exact.{IsExactPayment, validate-IsExactPayment}

abbrev expected_a : ExpectedExactPayment
expected_a = record {
  payer = "p";
  fee_payer = "f";
  asset = "m";
  pay_to = "r";
  amount_atomic = "10";
  blockhash = "b";
}

abbrev budget_a : CompiledInstruction
budget_a = record { program_address_index = 2; account_indices = []; data_bytes = 2 ∷ [] }

abbrev transfer_a : CompiledInstruction
transfer_a = record {
  program_address_index = 3;
  account_indices = 4 ∷ 5 ∷ 6 ∷ 1 ∷ [];
  data_bytes = 12 ∷ 10 ∷ 0 ∷ 0 ∷ 0 ∷ 0 ∷ 0 ∷ 0 ∷ 0 ∷ 6 ∷ [];
}

abbrev tx_a : List CompiledInstruction → DecodedTransaction
tx_a instructions = record {
  signatures = ("f", none) ∷ ("p", some "sig") ∷ [];
  version = some 0;
  lookups = 0;
  lifetime_token = "b";
  static_accounts = "f" ∷ "p" ∷ compute_budget_program ∷ token_program ∷ "p" ∷ "m" ∷ "r" ∷ [];
  num_signer_accounts = 2;
  instructions = instructions;
}

-- Parameters in place of the derivation of token accounts and of the decoders.
abbrev associated : String → String → String → Option String
associated owner mint program = some owner

abbrev decode : String → Option DecodedTransaction
decode text = some (tx_a (budget_a ∷ transfer_a ∷ []))

abbrev decode_twice : String → Option DecodedTransaction
decode_twice text = some (tx_a (transfer_a ∷ transfer_a ∷ []))

abbrev base58 : String → String
base58 signature = signature

valid_a :
    validate_exact_payment_transaction associated decode base58 (some "tx") expected_a
    ≡ valid "sig" token_program
unfolding validate_exact_payment_transaction check_message check_signed check_instructions
    check_instruction check_program check_token check_transfer is_canonical_atomic_amount big_int
    String-discrete
valid_a = refl

rejected_twice :
    validate_exact_payment_transaction associated decode_twice base58 (some "tx") expected_a
    ≡ rejected Rejection.second_token_instruction
unfolding validate_exact_payment_transaction check_message check_signed check_instructions
    check_instruction check_program check_token check_transfer is_canonical_atomic_amount big_int
    String-discrete
rejected_twice = refl

validate-IsExactPayment_example :
    (expected_a.fee_payer ≢ expected_a.payer)
    × ((encoded : String) × (tx : DecodedTransaction) × (Path
          (Option String)
          (some "tx")
          (some encoded))
        × (decode encoded ≡ some tx)
        × IsExactPayment associated base58 expected_a "sig" token_program tx)
validate-IsExactPayment_example =
    validate-IsExactPayment associated base58 expected_a "sig" token_program decode (some "tx")
      valid_a
