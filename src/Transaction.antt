-- ===== src/Transaction.antt =====
-- packages/payments/src/transaction-validator.ts: the check of a payment transaction before it can
-- leave the authority. The decoders and the derivation of token accounts are parameters; each may
-- throw, which rejects the transaction.
pub mod Rounds
pub mod Exact
mod Examples
use virtual_haibin.Prelude.{
  ℕ, zero, suc, ◌+◌, ◌*◌, String, Bool, true, false, not, ◌&&◌, ◌||◌, Option, none, some, List, [],
  ◌∷◌, ltb, eqb, any, length, map, if◌then◌else◌, ◌==◌,
}
use virtual_haibin.Decimal.{is_canonical_atomic_amount, big_int}

abbrev pub token_program : String
token_program = "TokenkegQfeZyiNwAJbNbGKPFXCWuBvf9Ss623VQ5DA"

abbrev pub token_2022_program : String
token_2022_program = "TokenzQdBNbLqP5VEhdkAS6EPFLC1PHnBqCXEpPxuEb"

abbrev pub compute_budget_program : String
compute_budget_program = "ComputeBudget111111111111111111111111111111"

abbrev pub memo_program : String
memo_program = "MemoSq4gqABAXKb96qnH8TysNcWxMyWCqXgDLGmfcHr"

abbrev pub transfer_checked : ℕ
transfer_checked = 12

abbrev pub max_memo_bytes : ℕ
max_memo_bytes = 256

pub record ExpectedExactPayment : Type 0 where
  pub payer : String
  pub fee_payer : String
  pub asset : String
  pub pay_to : String
  pub amount_atomic : String
  pub blockhash : String

-- One constructor for each text of a rejection.
pub data Rejection : Type 0 where
  undecodable no_transaction payer_is_fee_payer amount_not_canonical unexpected_version
        lookup_tables other_blockhash other_fee_payer other_signers unexpected_signatures unsigned
        unexpected_compute_budget unexpected_memo unexpected_program second_token_instruction
        not_transfer_checked unexpected_accounts other_amount other_mint other_authority
        other_destination other_source no_transfer :
      Rejection

pub data TransactionValidation : Type 0 where
  valid : String → String → TransactionValidation
  rejected : Rejection → TransactionValidation

pub record CompiledInstruction : Type 0 where
  pub program_address_index : ℕ
  pub account_indices : List ℕ
  pub data_bytes : List ℕ

-- What the decoders return of a transaction and its message; `version` is `none` for a legacy one,
-- `lookups` the number of address table lookups, and a signature that is not there is `none`.
pub record DecodedTransaction : Type 0 where
  pub signatures : List (String × Option String)
  pub version : Option ℕ
  pub lookups : ℕ
  pub lifetime_token : String
  pub static_accounts : List String
  pub num_signer_accounts : ℕ
  pub instructions : List CompiledInstruction

-- `accounts[index]`
abbrev pub account : List String → ℕ → Option String
account [] index = none
account (a ∷ accounts) zero = some a
account (a ∷ accounts) (suc index) = account accounts index

-- `value === expected` where the value may be undefined.
abbrev pub is_value : Option String → String → Bool
is_value none expected = false
is_value (some v) expected = v == expected

-- `getBigUint64(0, true)` of the bytes 1 to 8.
abbrev pub little_endian : List ℕ → ℕ
little_endian [] = 0
little_endian (b ∷ bytes) = b + 256 * little_endian bytes

abbrev pub first_bytes : ℕ → List ℕ → List ℕ
first_bytes zero bytes = []
first_bytes (suc n) [] = []
first_bytes (suc n) (b ∷ bytes) = b ∷ first_bytes n bytes

abbrev pub amount_of : List ℕ → ℕ
amount_of [] = 0
amount_of (_ ∷ bytes) = little_endian (first_bytes 8 bytes)

abbrev pub has_tag : (ℕ → Bool) → List ℕ → Bool
has_tag test [] = false
has_tag test (b ∷ _) = test b

-- One round of the loop: go on with the transfer so far, or stop.
pub data Step : Type 0 where
  next : Option String → Step
  stop : Rejection → Step

abbrev pub stop_if : Bool → Rejection → Step → Step
stop_if true rejection step = stop rejection
stop_if false rejection step = step

abbrev pub reject_if : Bool → Rejection → TransactionValidation → TransactionValidation
reject_if true rejection result = rejected rejection
reject_if false rejection result = result

-- `value !== (await associatedTokenAddress(…))`, and what follows.
abbrev pub expect_address : Option String → Option String → Rejection → Step → Step
expect_address value none rejection step = stop undecodable
expect_address value (some derived) rejection step =
    stop_if (not (is_value value derived)) rejection step

-- `transaction.signatures[address]`
abbrev pub signature_of : String → List (String × Option String) → Option String
signature_of address [] = none
signature_of address ((a, signature) ∷ signatures) =
    if a == address then signature else signature_of address signatures

abbrev pub has_signer : String → List (String × Option String) → Bool
has_signer address signatures = any (λ s. s.0 == address) signatures

-- What the loop leaves, once the payer's signature is there.
abbrev pub finish : String → Step → TransactionValidation
finish payer_signature (stop rejection) = rejected rejection
finish payer_signature (next none) = rejected no_transfer
finish payer_signature (next (some program)) = valid payer_signature program

abbrev pub is_version_0 : Option ℕ → Bool
is_version_0 none = false
is_version_0 (some v) = eqb v 0

-- `associated owner mint program`, `decode` and `base58`.
module _ (associated : String → String → String → Option String) where
  -- The accounts of a TransferChecked: source, mint, destination and authority.
  unfoldable pub check_transfer :
      ExpectedExactPayment → String → List ℕ → List (Option String) → Step
  check_transfer expected program bytes (source ∷ mint ∷ destination ∷ authority ∷ []) =
      stop_if (not (eqb (amount_of bytes) (big_int expected.amount_atomic))) other_amount (
        stop_if (not (is_value mint expected.asset)) other_mint (
          stop_if (not (is_value authority expected.payer)) other_authority (
            expect_address destination (associated expected.pay_to expected.asset program)
              other_destination
              (expect_address source (associated expected.payer expected.asset program) other_source
                (next (some program))))))
  check_transfer expected program bytes _ = stop unexpected_accounts

  unfoldable pub check_token :
      ExpectedExactPayment → Option String → String → List ℕ → List (Option String) → Step
  check_token expected (some _) program bytes accounts = stop second_token_instruction
  check_token expected none program bytes accounts =
      stop_if (not (eqb (length bytes) 10) || not (has_tag (λ b. eqb b transfer_checked) bytes))
        not_transfer_checked (check_transfer expected program bytes accounts)

  unfoldable pub check_program :
      ExpectedExactPayment → Option String → Option String → List ℕ → List (Option String) → Step
  check_program expected transfer none bytes accounts = stop unexpected_program
  check_program expected transfer (some program) bytes accounts =
      if program == compute_budget_program
      then stop_if (not (eqb (length accounts) 0) || not (has_tag (λ b. eqb b 2 || eqb b 3) bytes))
          unexpected_compute_budget (next transfer)
      else if program == memo_program
      then stop_if (not (eqb (length accounts) 0) || ltb max_memo_bytes (length bytes))
          unexpected_memo (next transfer)
      else if not (program == token_program) && not (program == token_2022_program)
      then stop unexpected_program
      else check_token expected transfer program bytes accounts

  unfoldable pub check_instruction :
      ExpectedExactPayment → List String → Option String → CompiledInstruction → Step
  check_instruction expected accounts transfer instruction =
      check_program expected transfer (account accounts instruction.program_address_index)
        instruction.data_bytes (map (account accounts) instruction.account_indices)

  unfoldable pub check_instructions :
      ExpectedExactPayment → List String → Option String → List CompiledInstruction → Step
  check_instructions expected accounts transfer [] = next transfer
  check_instructions expected accounts transfer (instruction ∷ instructions) =
      elim (check_instruction expected accounts transfer instruction) [
        | stop rejection ↦ stop rejection
        | next now ↦ check_instructions expected accounts now instructions
      ]

  unfoldable pub check_signed :
      (String → String) → ExpectedExactPayment → DecodedTransaction → TransactionValidation
  check_signed base58 expected tx = elim (signature_of expected.payer tx.signatures) [
    | none ↦ rejected unsigned
    | some signature ↦
        finish (base58 signature)
          (check_instructions expected tx.static_accounts none tx.instructions)
  ]

  unfoldable pub check_message :
      (String → String) → ExpectedExactPayment → DecodedTransaction → TransactionValidation
  check_message base58 expected tx = reject_if (not (is_version_0 tx.version)) unexpected_version (
      reject_if (ltb 0 tx.lookups) lookup_tables (
        reject_if (not (tx.lifetime_token == expected.blockhash)) other_blockhash (
          reject_if (not (is_value (account tx.static_accounts 0) expected.fee_payer))
            other_fee_payer
            (reject_if
              (not (eqb tx.num_signer_accounts 2)
                || not (is_value (account tx.static_accounts 1) expected.payer))
              other_signers
              (reject_if
                (not (eqb (length tx.signatures) 2)
                  || (not (has_signer expected.fee_payer tx.signatures)
                      || not (has_signer expected.payer tx.signatures)))
                unexpected_signatures (check_signed base58 expected tx))))))

  unfoldable pub validate_exact_payment_transaction :
      (String → Option DecodedTransaction)
      → (String → String)
      → Option String
      → ExpectedExactPayment
      → TransactionValidation
  validate_exact_payment_transaction decode base58 none expected = rejected no_transaction
  validate_exact_payment_transaction decode base58 (some text) expected =
      reject_if (text == "") no_transaction (
        reject_if (expected.fee_payer == expected.payer) payer_is_fee_payer (
          reject_if (not (is_canonical_atomic_amount expected.amount_atomic)) amount_not_canonical
            (elim (decode text) [
              | none ↦ rejected undecodable
              | some tx ↦ check_message base58 expected tx
            ])))
