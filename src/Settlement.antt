-- ===== src/Settlement.antt =====
-- packages/payments/src/settlement-check.ts: the check of one transaction, as an RPC node reports
-- it, against the payment that was recorded.
pub mod Facts
mod Examples
use virtual_haibin.Prelude.{
  ℕ, String, Bool, true, false, not, ◌&&◌, ◌||◌, Option, none, some, List, [], ◌∷◌, any,
  if◌then◌else◌, ◌==◌,
}

-- An untrusted JSON value, as far as the check tells values apart: a text, an object with the value
-- of its entry `amount`, or anything else. `missing` is undefined.
pub data Untrusted : Type 0 where
  text : String → Untrusted
  object : Untrusted → Untrusted
  other : Untrusted
  missing : Untrusted

-- The entries of `parsed.info` that the check reads.
pub record TransferInfo : Type 0 where
  pub mint : Untrusted
  pub authority : Untrusted
  pub destination : Untrusted
  pub token_amount : Untrusted

-- `parsed?.type` and `parsed?.info`
pub record Instruction : Type 0 where
  pub kind : Option String
  pub info : Option TransferInfo

pub record RpcMessage : Type 0 where
  pub recent_blockhash : Option String
  pub instructions : Option (List Instruction)

-- `error` is `meta.err` as JSON text, if it is there and not null.
pub record RpcTransaction : Type 0 where
  pub slot : Option String
  pub error : Option String
  pub signatures : Option (List String)
  pub message : Option RpcMessage

pub record ExpectedSettlement : Type 0 where
  pub payer : String
  pub payer_signature : String
  pub asset : String
  pub pay_to : String
  pub amount_atomic : String
  pub blockhash : String

pub data SettledTransactionCheck : Type 0 where
  not_this_payment : SettledTransactionCheck
  facts_mismatch : String → SettledTransactionCheck
  failed_onchain : String → String → SettledTransactionCheck
  settled : String → Option String → SettledTransactionCheck

-- `value === expected`
abbrev pub is_text : Untrusted → String → Bool
is_text (text s) expected = s == expected
is_text _ expected = false

-- `isRecord(value) ? value.amount : undefined`
abbrev pub amount_of : Untrusted → Untrusted
amount_of (object v) = v
amount_of _ = missing

abbrev pub or_empty : {A : Type 0} → Option (List A) → List A
or_empty none = []
or_empty (some xs) = xs

-- `value?.field === expected` on a text.
abbrev pub is_some_text : Option String → String → Bool
is_some_text none expected = false
is_some_text (some s) expected = s == expected

unfoldable pub is_transfer : String → String → ExpectedSettlement → Instruction → Bool
is_transfer destination destination_2022 expected ix = elim (ix.info) [
  | none ↦ false
  | some info ↦
      is_some_text ix.kind "transferChecked"
      && (is_text info.mint expected.asset
          && (is_text info.authority expected.payer
              && ((is_text info.destination destination
                    || is_text info.destination destination_2022)
                  && is_text (amount_of info.token_amount) expected.amount_atomic)))
]

unfoldable pub facts_match : String → String → ExpectedSettlement → Option RpcMessage → Bool
facts_match destination destination_2022 expected none = false
facts_match destination destination_2022 expected (some message) =
    is_some_text message.recent_blockhash expected.blockhash
    && any (is_transfer destination destination_2022 expected) (or_empty message.instructions)

-- `signatures[0] ?? payerSignature`
abbrev pub first_or : List String → String → String
first_or [] fallback = fallback
first_or (s ∷ _) fallback = s

-- `associated` is the derivation of an associated token account from a wallet and a mint, under the
-- token program and under Token-2022.
module _ (associated associated_2022 : String → String → String) where
  unfoldable pub check_found :
      RpcTransaction → List String → ExpectedSettlement → SettledTransactionCheck
  check_found tx signatures expected =
      let transaction_id = first_or signatures expected.payer_signature in
      if not (
        facts_match (associated expected.pay_to expected.asset)
          (associated_2022 expected.pay_to expected.asset) expected tx.message)
      then facts_mismatch transaction_id
      else elim (tx.error) [
        | some error ↦ failed_onchain transaction_id error
        | none ↦ settled transaction_id tx.slot
      ]

  unfoldable pub check_settled_transaction :
      Option RpcTransaction → ExpectedSettlement → SettledTransactionCheck
  check_settled_transaction none expected = not_this_payment
  check_settled_transaction (some tx) expected =
      if any (λ s. s == expected.payer_signature) (or_empty tx.signatures)
      then check_found tx (or_empty tx.signatures) expected
      else not_this_payment
