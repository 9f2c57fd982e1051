-- ===== src/Settlement/Facts.antt =====
-- What a settled transaction proves.
use virtual_haibin.Prelude.{
  String, Bool, true, ◌||◌, Option, none, some, List, [], ◌∷◌, ◌++◌, any, ◌==◌, ◌≡◌, ◌⊎◌, ◌↔◌, refl,
  arith, inl, inr, Bool-cases, Option-cases, ap, Among,
}
use virtual_haibin.Settlement.{
  Untrusted, text, object, other, missing, TransferInfo, Instruction, RpcMessage, RpcTransaction,
  ExpectedSettlement, settled, is_text, amount_of, or_empty, is_some_text, is_transfer, facts_match,
  first_or, check_found, check_settled_transaction,
}

-- An instruction is the transfer that was expected: from the payer, of exactly the amount of the
-- asset, to a token account of the payee.
pub record IsTransfer (destination destination_2022 : String) (expected : ExpectedSettlement)
    (ix : Instruction) : Type 0 where
  pub info : TransferInfo
  pub parsed : ix.info ≡ some info
  pub kind : ix.kind ≡ some "transferChecked"
  pub mint : info.mint ≡ text expected.asset
  pub authority : info.authority ≡ text expected.payer
  pub destination_ok :
      (info.destination ≡ text destination) ⊎ (info.destination ≡ text destination_2022)
  pub paid : info.token_amount ≡ object (text expected.amount_atomic)

is_text-eq : (v : Untrusted) (s : String) → is_text v s ≡ true → v ≡ text s
is_text-eq (text t) s h = let e : t ≡ s = ground arith in ap text e
is_text-eq (object v) s h = cc (h)
is_text-eq other s h = cc (h)
is_text-eq missing s h = cc (h)

amount_of-eq : (v : Untrusted) (s : String) → is_text (amount_of v) s ≡ true → v ≡ object (text s)
amount_of-eq (text t) s h = cc (h)
amount_of-eq (object v) s h = ap object (is_text-eq v s h)
amount_of-eq other s h = cc (h)
amount_of-eq missing s h = cc (h)

is_some_text-eq : (o : Option String) (s : String) → is_some_text o s ≡ true → o ≡ some s
is_some_text-eq none s h = cc (h)
is_some_text-eq (some t) s h = let e : t ≡ s = ground arith in ap some e

is_transfer-IsTransfer :
    (d e : String) (expected : ExpectedSettlement) (ix : Instruction)
    → is_transfer d e expected ix ≡ true
    → IsTransfer d e expected ix
unfolding is_transfer
is_transfer-IsTransfer d e expected ix h = elim (Option-cases ix.info) [
  | inl bad ↦ absurd (ground (arith, bad, h))
  | inr (info, found) ↦ record {
    info = info;
    parsed = found;
    kind = is_some_text-eq ix.kind "transferChecked" (ground (arith, found, h));
    mint = is_text-eq info.mint expected.asset (ground (arith, found, h));
    authority = is_text-eq info.authority expected.payer (ground (arith, found, h));
    destination_ok = elim (Bool-cases (is_text info.destination d)) [
      | inl yes_d ↦ inl (is_text-eq info.destination d yes_d)
      | inr no_d ↦ inr (is_text-eq info.destination e (ground (arith, found, h, no_d)))
    ];
    paid = amount_of-eq info.token_amount expected.amount_atomic (ground (arith, found, h));
  }
]

IsTransfer-is_transfer :
    (d e : String) (expected : ExpectedSettlement) (ix : Instruction)
    → IsTransfer d e expected ix
    → is_transfer d e expected ix ≡ true
unfolding is_transfer
IsTransfer-is_transfer d e expected ix t =
    let either : (is_text t.info.destination d || is_text t.info.destination e) ≡ true =
      elim (t.destination_ok) [ inl x ↦ rw x (ground arith) | inr x ↦ rw x (ground arith) ] in
    rw (t.parsed, t.kind, t.mint, t.authority, t.paid) (ground (arith, either))

any-Among :
    {A : Type 0} (p : A → Bool) (xs : List A)
    → any p xs ≡ true
    → (x : A) × Among x xs × (p x ≡ true)
any-Among p [] h = cc (h)
any-Among p (x ∷ xs) h = elim (Bool-cases (p x)) [
  | inl here ↦ (x, ([], xs, refl), here)
  | inr there ↦
      let (y, (before, after, e), q) = any-Among p xs (ground (arith, there, h)) in
      (y, (x ∷ before, after, cc (e)), q)
]

Among-any :
    {A : Type 0} (p : A → Bool) (before after : List A) (x : A)
    → p x ≡ true
    → any p (before ++ x ∷ after) ≡ true
Among-any p [] after x h = rw h
Among-any p (y ∷ before) after x h = elim (Bool-cases (p y)) [
  | inl here ↦ rw here
  | inr there ↦ rw there (Among-any p before after x h)
]

-- A list that the payer's signature is in has a first entry.
first_or-Among :
    (fallback : String) (xs : List String)
    → Among fallback xs
    → (rest : List String) × (xs ≡ first_or xs fallback ∷ rest)
first_or-Among fallback [] ([], after, e) = absurd (cc (e))
first_or-Among fallback [] (x ∷ before, after, e) = absurd (cc (e))
first_or-Among fallback (x ∷ xs) among = (xs, refl)

module _ (associated associated_2022 : String → String → String) (tx : RpcTransaction)
    (expected : ExpectedSettlement) where
  -- The transaction carries the payer's signature, is bound to the recorded blockhash, has the
  -- expected transfer among its instructions, and did not fail.
  pub record IsSettled : Type 0 where
    pub signatures : List String
    pub signed : tx.signatures ≡ some signatures
    pub by_payer : Among expected.payer_signature signatures
    pub message : RpcMessage
    pub sent : tx.message ≡ some message
    pub bound : message.recent_blockhash ≡ some expected.blockhash
    pub instructions : List Instruction
    pub listed : message.instructions ≡ some instructions
    pub instruction : Instruction
    pub present : Among instruction instructions
    pub transfers :
        IsTransfer
          (associated expected.pay_to expected.asset)
          (associated_2022 expected.pay_to expected.asset)
          expected
          instruction
    pub succeeded : tx.error ≡ none

  abbrev d : String
  d = associated expected.pay_to expected.asset

  abbrev e : String
  e = associated_2022 expected.pay_to expected.asset

  signatures-found :
      any (λ s. s == expected.payer_signature) (or_empty tx.signatures) ≡ true
      → (signatures : List String) × (tx.signatures ≡ some signatures)
        × Among expected.payer_signature signatures
  signatures-found h = elim (Option-cases tx.signatures) [
    | inl bad ↦ absurd (ground (arith, bad, h))
    | inr (signatures, found) ↦
        let (s, there, same) =
          any-Among (λ s. s == expected.payer_signature) signatures (ground (arith, found, h)) in
        let is : s ≡ expected.payer_signature = ground arith in (signatures, found, rw (← is) there)
  ]

  facts-found :
      facts_match d e expected tx.message ≡ true
      → (message : RpcMessage) × (tx.message ≡ some message)
        × (message.recent_blockhash ≡ some expected.blockhash)
        × ((instructions : List Instruction) × (message.instructions ≡ some instructions)
            × ((ix : Instruction) × Among ix instructions × IsTransfer d e expected ix))
  unfolding facts_match
  facts-found h = elim (Option-cases tx.message) [
    | inl bad ↦ absurd (ground (arith, bad, h))
    | inr (message, found) ↦ elim (Option-cases message.instructions) [
      | inl none_there ↦ absurd (ground (arith, found, none_there, h))
      | inr (instructions, listed) ↦
          let (ix, there, is) =
            any-Among (is_transfer d e expected) instructions (ground (arith, found, listed, h)) in
          (
            message,
            found,
            is_some_text-eq message.recent_blockhash expected.blockhash (ground (arith, found, h)),
            (instructions, listed, (ix, there, is_transfer-IsTransfer d e expected ix is)),
          )
    ]
  ]

  check_found-settled :
      (signatures : List String) (id : String) (slot : Option String)
      → check_found associated associated_2022 tx signatures expected ≡ settled id slot
      → (facts_match d e expected tx.message ≡ true) × (tx.error ≡ none)
  unfolding check_found
  check_found-settled signatures id slot h = ground arith

  settled-IsSettled :
      (id : String) (slot : Option String)
      → check_settled_transaction associated associated_2022 (some tx) expected ≡ settled id slot
      → IsSettled
  unfolding check_settled_transaction
  settled-IsSettled id slot h =
      elim (Bool-cases (any (λ s. s == expected.payer_signature) (or_empty tx.signatures))) [
        | inr no_payer ↦ absurd (ground (arith, no_payer, h))
        | inl payer ↦
            let (facts, error) =
              check_found-settled (or_empty tx.signatures) id slot (ground (arith, payer, h)) in
            let (signatures, signed, by) = signatures-found payer in
            let (message, sent, bound, (instructions, listed, (ix, there, is))) =
              facts-found facts in
            record {
              signatures = signatures;
              signed = signed;
              by_payer = by;
              message = message;
              sent = sent;
              bound = bound;
              instructions = instructions;
              listed = listed;
              instruction = ix;
              present = there;
              transfers = is;
              succeeded = error;
            }
      ]

  IsSettled-settled :
      IsSettled
      → check_settled_transaction associated associated_2022 (some tx) expected
        ≡ settled (first_or (or_empty tx.signatures) expected.payer_signature) tx.slot
  unfolding check_settled_transaction check_found facts_match
  IsSettled-settled p =
      let (b, a, splits) = p.by_payer in
      let (ib, ia, isplits) = p.present in
      let payer =
        Among-any (λ s. s == expected.payer_signature) b a expected.payer_signature
          (ground arith) in
      let transfer =
        Among-any (is_transfer d e expected) ib ia p.instruction
          (IsTransfer-is_transfer d e expected p.instruction p.transfers) in
      let first : any (λ s. s == expected.payer_signature) (or_empty tx.signatures) ≡ true =
        rw (p.signed, splits) payer in
      let bound : facts_match d e expected tx.message ≡ true =
        rw (p.sent) (rw (p.bound, p.listed, isplits) (ground (arith, transfer))) in
      ground (arith, first, bound, p.succeeded)

-- The check of a reported transaction says that the payment is settled, under an id and in a slot,
-- exactly when the transaction carries the payer's signature, is bound to the recorded blockhash,
-- transfers exactly the amount of the asset from the payer to a token account of the payee, and did
-- not fail, and the id is the first of its signatures and the slot the one that it reports.
pub settled_iff :
    (associated associated_2022 : String → String → String) (tx : RpcTransaction)
    (expected : ExpectedSettlement) (id : String) (slot : Option String)
    → (check_settled_transaction associated associated_2022 (some tx) expected ≡ settled id slot)
      ↔ (IsSettled associated associated_2022 tx expected
          × ((rest : List String) × (tx.signatures ≡ some (id ∷ rest)))
          × (slot ≡ tx.slot))
settled_iff associated associated_2022 tx expected id slot = (
  λ h.
      let p = settled-IsSettled associated associated_2022 tx expected id slot h in
      let same = IsSettled-settled associated associated_2022 tx expected p in
      let (rest, first) = first_or-Among expected.payer_signature p.signatures p.by_payer in
      let listed : or_empty tx.signatures ≡ p.signatures = ap or_empty p.signed in
      let of_first : first_or (or_empty tx.signatures) expected.payer_signature
          ≡ first_or p.signatures expected.payer_signature =
        ap (λ xs. first_or xs expected.payer_signature) listed in
      (p, (rest, cc (h, same, of_first, first, p.signed)), cc (h, same)),
  λ (p, (rest, first), at).
      let same = IsSettled-settled associated associated_2022 tx expected p in
      let of_first : first_or (or_empty tx.signatures) expected.payer_signature ≡ id =
        ap (λ o. first_or (or_empty o) expected.payer_signature) first in
      cc (same, of_first, at),
)
