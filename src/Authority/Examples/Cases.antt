-- ===== src/Authority/Examples/Cases.antt =====
-- A request that is already stored, and an acknowledgement.
use virtual_haibin.Prelude.{
  String, false, String-discrete, none, some, [], ◌∷◌, ◌≡◌, ◌↔◌, ◌≢◌, refl,
}
use virtual_haibin.Mandate.{SignedPurchasePermitV2}
use virtual_haibin.Payments.{PaidRequest, PaidResult}
use virtual_haibin.Store.{Db, GrantRecord}
use virtual_haibin.Store.Table.{find_invocation}
use virtual_haibin.Authority.{AuthorityOptions, Externals}
use virtual_haibin.Authority.Monad.{Sent, World, Schedule}
use virtual_haibin.Store.Ledger.History.{perform_all}
use virtual_haibin.Authority.Monad.{◌>>=◌, pure, raise, access, attempt_catch, read_clock, transmit}
use virtual_haibin.Authority.Binding.{accept_acknowledgement, pinned_key, acknowledges}
use virtual_haibin.Authority.Process.{process}
use virtual_haibin.Store.{failed, reserved, InvocationRecord}
use virtual_haibin.Authority.{
  AuthenticatedRequest, invocation_conflict, invocation_in_progress, reconciliation_required,
}
use virtual_haibin.Authority.Monad as Monad
use virtual_haibin.Authority.Authenticate.{authenticated_request}
use virtual_haibin.Authority.Acknowledged.{acknowledgement-IsKept_iff, IsKept}
use virtual_haibin.Authority.Sends.Replays.{known_invocation_never_paid}
use virtual_haibin.Store as Data
use virtual_haibin.Store.{v2}
use virtual_haibin.Evidence.{SignedServiceAuthorizationV1, SignedServiceAcknowledgementV1}
use virtual_haibin.Authority.Binding.{without_acknowledgement}
use virtual_haibin.Authority.Process.{is_retryable}
use virtual_haibin.Authority.Examples.{
  operation_a, request_a, permit_a, externals_a, options_a, requirement_a, settlement_a, result_a,
  provider_a, schedule_a, world_a,
}

-- The row of the request, as another process has reserved it.
abbrev row_a : InvocationRecord
row_a = record {
  invocation_id = "i1";
  fingerprint = "f1";
  issuer = "h";
  grant_id = "g";
  agent = "a";
  request = v2 request_a;
  amount_atomic = "10";
  state = reserved;
  reason_codes = [];
  payment_transaction_id = none;
  payment_requirement = some requirement_a;
  payment_attempt = none;
  settlement = none;
  result = none;
  receipt = none;
  authorization = none;
  service_authorization = none;
  state_reason = none;
  decided_at = 6;
  created_at = 6;
  updated_at = 6;
}

abbrev world_c : World
world_c = record world_a { db = record { grants = []; invocations = row_a ∷ []; transitions = [] } }

abbrev auth_a : AuthenticatedRequest
auth_a = authenticated_request externals_a options_a permit_a request_a "sig"

found_c : find_invocation "i1" (perform_all [] world_c.db).invocations ≡ some row_a
unfolding find_invocation perform_all String-discrete
found_c = refl

unretryable_c : is_retryable row_a "f1" ≡ false
unfolding String-discrete
unretryable_c = refl

known_invocation_never_paid_example :
    let run = process externals_a options_a schedule_a provider_a auth_a world_c in
    (run.1.sent ≡ [])
    × (row_a.fingerprint ≢ auth_a.fingerprint → run.0 ≡ Monad.failed (invocation_conflict "i1"))
    × (row_a.fingerprint ≡ auth_a.fingerprint
        → row_a.state ≡ reserved
        → run.0 ≡ Monad.failed (invocation_in_progress "i1"))
    × (row_a.fingerprint ≡ auth_a.fingerprint
        → row_a.state ≡ Data.reconciliation_required
        → run.0 ≡ Monad.failed (reconciliation_required "i1"))
known_invocation_never_paid_example =
    known_invocation_never_paid externals_a options_a schedule_a provider_a auth_a world_c row_a
      refl found_c unretryable_c

-- A result with an acknowledgement, of a service whose key is pinned.
abbrev options_b : AuthorityOptions
options_b = record options_a { trusted_service_keys = ("s", "key") ∷ [] }

abbrev pub authorization_a : SignedServiceAuthorizationV1
authorization_a = record {
  authority = "authority";
  invocation_id = "i1";
  grant_id = "g";
  method = "POST";
  url = "https://s/r";
  content_type = "application/json";
  request_sha256 = "sha";
  operation_digest = "o";
  network = "n";
  asset = "m";
  pay_to = "r";
  amount_atomic = "10";
  issued_at = 6;
  expires_at = 120006;
  signature = "signed";
}

abbrev ack_a : SignedServiceAcknowledgementV1
ack_a = record {
  service = "s";
  invocation_id = "i1";
  authorization_digest = "ad";
  request_sha256 = "sha";
  received = operation_a;
  transaction = some "t1";
  asset = "m";
  pay_to = "r";
  amount_atomic = "10";
  http_status = 200;
  result_sha256 = "rs";
  result_bytes = 2;
  fulfilled_at = 7;
  signature = "signed";
}

abbrev externals_b : Externals SignedPurchasePermitV2
externals_b = record externals_a { decode_acknowledgement = λ header. some ack_a }

abbrev result_b : PaidResult
result_b = record result_a { service_acknowledgement_header = some "ack" }

abbrev pub paid_request_a : PaidRequest
paid_request_a = record {
  url = "https://s/r";
  method = "POST";
  content_type = "application/json";
  body = "body";
  sha256 = "sha";
}

abbrev accepted_b : PaidResult
accepted_b =
    accept_acknowledgement externals_b options_b row_a permit_a authorization_a paid_request_a
      requirement_a settlement_a result_b

-- It is kept.
accepted_b-header : accepted_b.service_acknowledgement_header ≡ some "ack"
unfolding accept_acknowledgement pinned_key acknowledges String-discrete
accepted_b-header = refl

acknowledgement-IsKept_iff_example :
    ((header : String)
      → (accepted_b.service_acknowledgement_header ≡ some header)
        ↔ IsKept externals_b options_b row_a permit_a authorization_a paid_request_a requirement_a
            settlement_a result_b header)
    × (without_acknowledgement accepted_b ≡ without_acknowledgement result_b)
acknowledgement-IsKept_iff_example =
    acknowledgement-IsKept_iff externals_b options_b row_a permit_a authorization_a paid_request_a
      requirement_a settlement_a result_b
