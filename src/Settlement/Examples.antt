-- ===== src/Settlement/Examples.antt =====
-- A reported transaction on concrete data.
use virtual_haibin.Prelude.{List, String, String-discrete, none, some, [], ◌∷◌, ◌≡◌, ◌↔◌, refl}
use virtual_haibin.Settlement.{
  text, object, RpcTransaction, ExpectedSettlement, settled, facts_mismatch,
  check_settled_transaction, check_found, facts_match, is_transfer,
}
use virtual_haibin.Settlement.Facts.{IsSettled, settled_iff}

-- A parameter in place of the derivation of a token wallet_account.
abbrev wallet_account : String → String → String
wallet_account wallet mint = wallet

abbrev expected_a : ExpectedSettlement
expected_a = record {
  payer = "p";
  payer_signature = "sig";
  asset = "m";
  pay_to = "r";
  amount_atomic = "10";
  blockhash = "b";
}

abbrev tx_a : String → RpcTransaction
tx_a paid = record {
  slot = some "7";
  error = none;
  signatures = some ("fee" ∷ "sig" ∷ []);
  message = some (record {
    recent_blockhash = some "b";
    instructions = some (
        record {
          kind = some "transferChecked";
          info = some (record {
            mint = text "m";
            authority = text "p";
            destination = text "r";
            token_amount = object (text paid);
          });
        }
        ∷ []);
  });
}

check_a :
    check_settled_transaction wallet_account wallet_account (some (tx_a "10")) expected_a
    ≡ settled "fee" (some "7")
unfolding check_settled_transaction check_found facts_match is_transfer String-discrete
check_a = refl

check_underpaid :
    check_settled_transaction wallet_account wallet_account (some (tx_a "9")) expected_a
    ≡ facts_mismatch "fee"
unfolding check_settled_transaction check_found facts_match is_transfer String-discrete
check_underpaid = refl

settled_iff_example :
    (check_settled_transaction wallet_account wallet_account (some (tx_a "10")) expected_a
      ≡ settled "fee" (some "7"))
    ↔ (IsSettled wallet_account wallet_account (tx_a "10") expected_a
        × ((rest : List String) × ((tx_a "10").signatures ≡ some ("fee" ∷ rest)))
        × (some "7" ≡ (tx_a "10").slot))
settled_iff_example =
    settled_iff wallet_account wallet_account (tx_a "10") expected_a "fee" (some "7")
