-- ===== src/Authority/Examples/Completion.antt =====
-- A payment with nothing between its steps.
use virtual_haibin.Prelude.{String-discrete, some, [], ◌∷◌, ◌≡◌, refl}
use virtual_haibin.Challenge.{
  built, build_paid_request, create_paid_request, get_resource, paid_service_key,
}
use virtual_haibin.Store.Operations.{set_attempt, set_confirmed, record_payment_attempt}
use virtual_haibin.Store.Ledger.Results.{Pays}
use virtual_haibin.Store.Examples as Stored
use virtual_haibin.Decimal.{big_int}
use virtual_haibin.Payments.{PaymentChallenge, PaymentExecution}
use virtual_haibin.Authority.Monad.{World, done}
use virtual_haibin.Authority.Binding.{build_request, build_for}
use virtual_haibin.Authority.Pay.{pay, confirmed_payment}
use virtual_haibin.Authority.Completes.{IsQuiet, pay_completes}
use virtual_haibin.Authority.Examples.{
  request_a, permit_a, externals_a, options_a, requirement_a, attempt_a, settlement_a, result_a,
  provider_a, schedule_a,
}
use virtual_haibin.Authority.Examples.Cases.{authorization_a, paid_request_a}

-- The tables after the reservation of the request.
abbrev world_d : World
world_d = record { db = Stored.db_a; step = 3; sent = [] }

abbrev quoted_a : PaymentChallenge
quoted_a = record { requirements = requirement_a ∷ []; request_sha256 = "sha"; raw = "" }

abbrev execution_a : PaymentExecution
execution_a = record { attempt = attempt_a; settlement = settlement_a; result = result_a }

IsQuiet-a : IsQuiet schedule_a
IsQuiet-a = record { alone = λ n. refl; lives = λ n. refl }

rebuilt_a : build_request externals_a options_a request_a ≡ built paid_request_a
unfolding build_request build_for build_paid_request create_paid_request get_resource
    String-discrete paid_service_key
rebuilt_a = refl

pay_completes_example :
    let payment =
      confirmed_payment externals_a options_a schedule_a Stored.row_a permit_a authorization_a
        paid_request_a requirement_a execution_a in
    let row' =
      set_confirmed payment 6 (set_attempt attempt_a (some authorization_a) 6 Stored.row_a) in
    let run =
      pay externals_a options_a schedule_a provider_a permit_a Stored.row_a paid_request_a quoted_a
        requirement_a world_d in
    (run.0 ≡ done row')
    × (run.1.sent
        ≡ record {
          invocation_id = "i1";
          attempt = attempt_a;
          db = (record_payment_attempt "i1" attempt_a (some authorization_a) 6 Stored.db_a).1;
        }
          ∷ [])
    × Pays Stored.db_a run.1.db "i1" Stored.row_a row' 10
unfolding big_int
pay_completes_example =
    pay_completes schedule_a IsQuiet-a externals_a options_a provider_a Stored.row_a permit_a
      authorization_a paid_request_a requirement_a attempt_a execution_a world_d quoted_a request_a
      refl rebuilt_a refl refl (λ _. "h") (λ _. "g") Stored.row_a Stored.IsSound-a Stored.found_a
      refl refl
