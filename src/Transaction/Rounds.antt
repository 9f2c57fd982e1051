-- ===== src/Transaction/Rounds.antt =====
-- What the loop over the instructions lets pass.
use virtual_haibin.Prelude.{
  ℕ, String, true, Option, none, some, List, [], ◌∷◌, ◌++◌, eqb, length, map, All, ◌≡◌, ◌⊎◌, refl,
  arith, inl, inr, ◌==◌, Bool-cases, Option-cases, ◌≤◌, ap, ◌∙◌,
}
use virtual_haibin.Decimal.{big_int}
use virtual_haibin.Transaction.{
  token_program, token_2022_program, compute_budget_program, memo_program, transfer_checked,
  max_memo_bytes, ExpectedExactPayment, Rejection, CompiledInstruction, account, is_value,
  amount_of, has_tag, Step, next, stop, expect_address, check_transfer, check_token, check_program,
  check_instruction, check_instructions,
}

-- The instruction moves no token: it sets the compute budget or it is a memo, and it has no accounts.
pub record IsHarmless (accounts : List String) (i : CompiledInstruction) : Type 0 where
  pub no_accounts : length i.account_indices ≡ 0
  pub program :
      (account accounts i.program_address_index ≡ some compute_budget_program)
      ⊎ ((account accounts i.program_address_index ≡ some memo_program)
          × (length i.data_bytes ≤ max_memo_bytes))

-- The instruction is the TransferChecked that was expected, under a token program.
pub record IsPayment (associated : String → String → String → Option String)
    (expected : ExpectedExactPayment) (accounts : List String) (program : String)
    (i : CompiledInstruction) : Type 0 where
  pub program_is : account accounts i.program_address_index ≡ some program
  pub token : (program ≡ token_program) ⊎ (program ≡ token_2022_program)
  pub tag : has_tag (λ b. eqb b transfer_checked) i.data_bytes ≡ true
  pub size : length i.data_bytes ≡ 10
  pub amount : amount_of i.data_bytes ≡ big_int expected.amount_atomic
  pub source : String
  pub destination : String
  pub accounts_are :
      map (account accounts) i.account_indices
      ≡ some source ∷ some expected.asset ∷ some destination ∷ some expected.payer ∷ []
  pub from_payer : associated expected.payer expected.asset program ≡ some source
  pub to_payee : associated expected.pay_to expected.asset program ≡ some destination

pub is_value-eq : (o : Option String) (s : String) → is_value o s ≡ true → o ≡ some s
is_value-eq none s h = cc (h)
is_value-eq (some t) s h = let e : t ≡ s = ground (arith, h) in ap some e

length-map_zero : (f : ℕ → Option String) (xs : List ℕ) → length (map f xs) ≡ 0 → length xs ≡ 0
length-map_zero f [] h = refl
length-map_zero f (x ∷ xs) h = absurd (omega (arith, h))

Step-cases :
    (s : Step) → ((now : Option String) × (s ≡ next now)) ⊎ ((r : Rejection) × (s ≡ stop r))
Step-cases (next now) = inl (now, refl)
Step-cases (stop r) = inr (r, refl)

module _ (associated : String → String → String → Option String)
    (expected : ExpectedExactPayment) where
  address-next :
      (value derived : Option String) (rejection : Rejection) (step : Step) (now : Option String)
      → expect_address value derived rejection step ≡ next now
      → ((a : String) × (derived ≡ some a) × (value ≡ some a)) × (step ≡ next now)
  address-next value none rejection step now h = cc (h)
  address-next value (some a) rejection step now h =
      ((a, refl, is_value-eq value a (ground (arith, h))), ground (arith, h))

  -- What a TransferChecked that passes says.
  transfer-next :
      (program : String) (bytes : List ℕ) (accounts : List (Option String)) (now : Option String)
      → check_transfer associated expected program bytes accounts ≡ next now
      → (now ≡ some program)
        × (amount_of bytes ≡ big_int expected.amount_atomic)
        × ((source : String) × (destination : String) × (accounts
              ≡ some source ∷ some expected.asset ∷ some destination ∷ some expected.payer ∷ [])
            × (associated expected.payer expected.asset program ≡ some source)
            × (associated expected.pay_to expected.asset program ≡ some destination))
  unfolding check_transfer
  transfer-next program bytes [] now h = cc (h)
  transfer-next program bytes (a ∷ []) now h = cc (h)
  transfer-next program bytes (a ∷ b ∷ []) now h = cc (h)
  transfer-next program bytes (a ∷ b ∷ c ∷ []) now h = cc (h)
  transfer-next program bytes (a ∷ b ∷ c ∷ d ∷ e ∷ rest) now h = cc (h)
  transfer-next program bytes (source ∷ mint ∷ destination ∷ authority ∷ []) now h =
      let last : Step =
        expect_address source (associated expected.payer expected.asset program)
          Rejection.other_source (next (some program)) in
      let inner : expect_address destination (associated expected.pay_to expected.asset program)
            Rejection.other_destination last
          ≡ next now =
        ground (arith, h) in
      let ((d, derived_d, is_d), rest) =
        address-next destination (associated expected.pay_to expected.asset program)
          Rejection.other_destination last now inner in
      let ((s, derived_s, is_s), end) =
        address-next source (associated expected.payer expected.asset program)
          Rejection.other_source (next (some program)) now rest in
      let m = is_value-eq mint expected.asset (ground (arith, h)) in
      let p = is_value-eq authority expected.payer (ground (arith, h)) in
      (cc (end), ground (arith, h), (s, d, cc (m, p, is_d, is_s), derived_s, derived_d))

  -- What one round of the loop leaves: the transfer so far and a harmless instruction, or the first
  -- transfer.
  IsRound : List String → Option String → CompiledInstruction → Option String → Type 0
  IsRound accounts transfer i now =
      ((now ≡ transfer) × IsHarmless accounts i)
      ⊎ ((transfer ≡ none)
          × ((program : String) × (now ≡ some program)
              × IsPayment associated expected accounts program i))

  check_token-IsRound :
      (accounts : List String) (transfer now : Option String) (i : CompiledInstruction)
      (program : String)
      → account accounts i.program_address_index ≡ some program
      → (program ≡ token_program) ⊎ (program ≡ token_2022_program)
      → check_token associated expected transfer program i.data_bytes
          (map (account accounts) i.account_indices)
        ≡ next now
      → IsRound accounts transfer i now
  unfolding check_token IsRound
  check_token-IsRound accounts (some t) now i program at token h = cc (h)
  check_token-IsRound accounts none now i program at token h =
      let inner : check_transfer associated expected program i.data_bytes
            (map (account accounts) i.account_indices)
          ≡ next now =
        ground (arith, h) in
      let (is_now, amount, (source, destination, are, derived_s, derived_d)) =
        transfer-next program i.data_bytes (map (account accounts) i.account_indices) now inner in
      inr (
        refl,
        (
          program,
          is_now,
          record {
            program_is = at;
            token = token;
            tag = ground (arith, h);
            size = ground (arith, h);
            amount = amount;
            source = source;
            destination = destination;
            accounts_are = are;
            from_payer = derived_s;
            to_payee = derived_d;
          },
        ),
      )

  check_program-IsRound :
      (accounts : List String) (transfer now : Option String) (i : CompiledInstruction)
      (program : String)
      → account accounts i.program_address_index ≡ some program
      → check_program associated expected transfer
          (some program)
          i.data_bytes
          (map (account accounts) i.account_indices)
        ≡ next now
      → IsRound accounts transfer i now
  unfolding check_program IsRound
  check_program-IsRound accounts transfer now i program at h =
      elim (Bool-cases (program == compute_budget_program)) [
        | inl budget ↦
            let is : program ≡ compute_budget_program = ground (arith, budget) in
            inl (
              ground (arith, budget, h),
              record {
                no_accounts =
                    length-map_zero (account accounts) i.account_indices
                      (ground (arith, budget, h));
                program = inl (at ∙ ap some is);
              },
            )
        | inr no_budget ↦ elim (Bool-cases (program == memo_program)) [
          | inl memo ↦
              let is : program ≡ memo_program = ground (arith, memo) in
              inl (
                ground (arith, no_budget, memo, h),
                record {
                  no_accounts =
                      length-map_zero (account accounts) i.account_indices
                        (ground (arith, no_budget, memo, h));
                  program = inr (at ∙ ap some is, ground (arith, no_budget, memo, h));
                },
              )
          | inr no_memo ↦
              let token : (program ≡ token_program) ⊎ (program ≡ token_2022_program) =
                elim (Bool-cases (program == token_program)) [
                  | inl one ↦ inl (ground (arith, one))
                  | inr not_one ↦ inr (ground (arith, no_budget, no_memo, not_one, h))
                ] in
              check_token-IsRound accounts transfer now i program at token
                (ground (arith, no_budget, no_memo, h))
        ]
      ]

  check_instruction-IsRound :
      (accounts : List String) (transfer now : Option String) (i : CompiledInstruction)
      → check_instruction associated expected accounts transfer i ≡ next now
      → IsRound accounts transfer i now
  unfolding check_instruction
  check_instruction-IsRound accounts transfer now i h =
      elim (Option-cases (account accounts i.program_address_index)) [
        | inl bad ↦ absurd (unfold check_program in ground (arith, bad, h))
        | inr (program, at) ↦
            check_program-IsRound accounts transfer now i program at (ground (arith, at, h))
      ]

  -- The loop goes on past an instruction only if its round does.
  loop-next :
      (accounts : List String) (transfer now : Option String) (i : CompiledInstruction)
      (instructions : List CompiledInstruction)
      → check_instructions associated expected accounts transfer (i ∷ instructions) ≡ next now
      → (mid : Option String) × (check_instruction associated expected accounts transfer i
          ≡ next mid)
        × (check_instructions associated expected accounts mid instructions ≡ next now)
  unfolding check_instructions
  loop-next accounts transfer now i instructions h =
      elim (Step-cases (check_instruction associated expected accounts transfer i)) [
        | inl (mid, e) ↦ (mid, e, ground (arith, e, h))
        | inr (r, e) ↦ absurd (ground (arith, e, h))
      ]

  -- Once there is a transfer, the rest is harmless.
  rounds-some :
      (accounts : List String) (program : String) (instructions : List CompiledInstruction)
      (now : Option String)
      → check_instructions associated expected accounts (some program) instructions ≡ next now
      → (now ≡ some program) × All (IsHarmless accounts) instructions
  unfolding IsRound
  rounds-some accounts program [] now h = (unfold check_instructions in cc (h), tt)
  rounds-some accounts program (i ∷ instructions) now h =
      let (mid, e, rest) = loop-next accounts (some program) now i instructions h in
      elim (check_instruction-IsRound accounts (some program) mid i e) [
        | inl (same, harmless) ↦
            let (end, all) = rounds-some accounts program instructions now (rw (← same) rest) in
            (end, (harmless, all))
        | inr (absent, payment) ↦ absurd (cc (absent))
      ]

  -- Exactly one of the instructions is the payment, and the others are harmless.
  pub IsSinglePayment : List String → String → List CompiledInstruction → Type 0
  IsSinglePayment accounts program instructions =
      (before : List CompiledInstruction) × (payment : CompiledInstruction) × (after : List
        CompiledInstruction)
      × (instructions ≡ before ++ payment ∷ after)
      × All (IsHarmless accounts) before
      × All (IsHarmless accounts) after
      × IsPayment associated expected accounts program payment

  pub check_instructions-IsSinglePayment :
      (accounts : List String) (program : String) (instructions : List CompiledInstruction)
      → check_instructions associated expected accounts none instructions ≡ next (some program)
      → IsSinglePayment accounts program instructions
  unfolding IsRound IsSinglePayment
  check_instructions-IsSinglePayment accounts program [] h =
      absurd (unfold check_instructions in cc (h))
  check_instructions-IsSinglePayment accounts program (i ∷ instructions) h =
      let (mid, e, rest) = loop-next accounts none (some program) i instructions h in
      elim (check_instruction-IsRound accounts none mid i e) [
        | inl (same, harmless) ↦
            let (before, payment, after, is, hb, ha, pays) =
              check_instructions-IsSinglePayment accounts program instructions (rw (← same) rest) in
            (i ∷ before, payment, after, cc (is), (harmless, hb), ha, pays)
        | inr (absent, (p, is_p, pays)) ↦
            let (end, all) =
              rounds-some accounts p instructions (some program) (rw (← is_p) rest) in
            let same : p ≡ program = cc (end) in
            ([], i, instructions, refl, tt, all, rw (← same) pays)
      ]
