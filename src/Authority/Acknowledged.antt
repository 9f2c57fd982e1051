-- ===== src/Authority/Acknowledged.antt =====
-- When the service's acknowledgement is kept, and what a view of a grant's budget shows.
use virtual_haibin.Prelude.{
  ◌+◌, ◌-◌, ◌≤◌, String, true, Option, none, some, ◌≡◌, ◌↔◌, ◌⊎◌, ap, inl, inr, Option-cases,
  Bool-cases, arith,
}
use virtual_haibin.Decimal.{big_int, to_string}
use virtual_haibin.Mandate.{SignedPurchasePermitV2}
use virtual_haibin.Payments.{PaidRequest, PaymentRequirement, ConfirmedSettlement, PaidResult}
use virtual_haibin.Evidence.{SignedServiceAuthorizationV1, SignedServiceAcknowledgementV1}
use virtual_haibin.Store.{InvocationRecord, GrantRecord, Db}
use virtual_haibin.Store.Table.{find_grant}
use virtual_haibin.Store.Ledger.{held, spent, IsSound}
use virtual_haibin.Authority.{Externals, AuthorityOptions}
use virtual_haibin.Authority.Binding.{
  same_option, acknowledges, pinned_key, accept_acknowledgement, without_acknowledgement,
  received_operation, grant_budget,
}

module _ {Candidate : Type 0} (ext : Externals Candidate) (options : AuthorityOptions)
    (invocation : InvocationRecord) (permit : SignedPurchasePermitV2)
    (authorization : SignedServiceAuthorizationV1) (paid_request : PaidRequest)
    (requirement : PaymentRequirement) (settlement : ConfirmedSettlement)
    (result : PaidResult) where
  -- What an acknowledgement states, signed with the service's pinned key.
  pub record States (ack : SignedServiceAcknowledgementV1) (pinned : String) : Type 0 where
    pub signed : ext.verify_acknowledgement ack pinned ≡ true
    pub invocation_id : ack.invocation_id ≡ invocation.invocation_id
    pub authorization_digest : ack.authorization_digest ≡ ext.authorization_digest authorization
    pub request : ack.request_sha256 ≡ paid_request.sha256
    pub operation : received_operation ack invocation.request ≡ true
    pub asset : ack.asset ≡ requirement.asset
    pub pay_to : ack.pay_to ≡ requirement.pay_to
    pub amount : ack.amount_atomic ≡ requirement.amount_atomic
    pub transaction : ack.transaction ≡ some settlement.transaction_id
    pub sha256 : ack.result_sha256 ≡ result.sha256
    pub bytes : ack.result_bytes ≡ result.bytes
    pub status : ack.http_status ≡ result.http_status

  same_option-cases : (o : Option String) (t : String) → (same_option o t ≡ true) ↔ (o ≡ some t)
  same_option-cases none t = (λ h. cc, λ h. cc)
  same_option-cases (some s) t = (λ h. ground arith, λ h. ground arith)

  acknowledges_iff :
      (ack : SignedServiceAcknowledgementV1) (pinned : String)
      → (acknowledges ext ack pinned invocation authorization paid_request requirement settlement
            result
          ≡ true)
        ↔ States ack pinned
  unfolding acknowledges
  acknowledges_iff ack pinned =
      let transaction = same_option-cases ack.transaction settlement.transaction_id in
      (
        λ h. record {
          signed = ground arith;
          invocation_id = ground arith;
          authorization_digest = ground arith;
          request = ground arith;
          operation = ground arith;
          asset = ground arith;
          pay_to = ground arith;
          amount = ground arith;
          transaction = ground (arith, transaction);
          sha256 = ground arith;
          bytes = ground arith;
          status = ground arith;
        },
        λ s. ground (
          arith,
          s.signed,
          s.invocation_id,
          s.authorization_digest,
          s.request,
          s.operation,
          s.asset,
          s.pay_to,
          s.amount,
          transaction.1 s.transaction,
          s.sha256,
          s.bytes,
          s.status,
        ),
      )

  -- The header of an acknowledgement that states all this.
  pub record IsKept (header : String) : Type 0 where
    pub sent : result.service_acknowledgement_header ≡ some header
    pub pinned : String
    pub has_key : pinned_key ext permit.service options.trusted_service_keys ≡ some pinned
    pub ack : SignedServiceAcknowledgementV1
    pub decodes : ext.decode_acknowledgement header ≡ some ack
    pub states : States ack pinned

  abbrev Accepted : PaidResult
  Accepted =
      accept_acknowledgement ext options invocation permit authorization paid_request requirement
        settlement result

  IsKept-header :
      (header : String) → Accepted.service_acknowledgement_header ≡ some header → IsKept header
  unfolding accept_acknowledgement
  IsKept-header header h = elim (Option-cases result.service_acknowledgement_header) [
    | inl unsent ↦ absurd (ground (arith, unsent, h))
    | inr (sent, hs) ↦
        elim (Option-cases (pinned_key ext permit.service options.trusted_service_keys)) [
          | inl unpinned ↦ absurd (ground (arith, hs, unpinned, h))
          | inr (pinned, hp) ↦ elim (Option-cases (ext.decode_acknowledgement sent)) [
            | inl malformed ↦ absurd (ground (arith, hs, hp, malformed, h))
            | inr (ack, ha) ↦
                elim (Bool-cases (
                  acknowledges ext ack pinned invocation authorization paid_request requirement
                    settlement result)) [
                      | inr other ↦ absurd (ground (arith, hs, hp, ha, other, h))
                      | inl good ↦
                          let same : sent ≡ header = ground (arith, hs, hp, ha, good, h) in
                          record {
                            sent = ground (arith, hs, same);
                            pinned = pinned;
                            has_key = hp;
                            ack = ack;
                            decodes = ground (arith, ha, same);
                            states = (acknowledges_iff ack pinned).0 good;
                          }
                    ]
          ]
        ]
  ]

  header-IsKept :
      (header : String) → IsKept header → Accepted.service_acknowledgement_header ≡ some header
  unfolding accept_acknowledgement
  header-IsKept header k =
      ground (arith, k.sent, k.has_key, k.decodes, (acknowledges_iff k.ack k.pinned).1 k.states)

  accepted-cases : (Accepted ≡ result) ⊎ (Accepted ≡ without_acknowledgement result)
  unfolding accept_acknowledgement
  accepted-cases = elim (Option-cases result.service_acknowledgement_header) [
    | inl unsent ↦ inr (ground (arith, unsent))
    | inr (sent, hs) ↦
        elim (Option-cases (pinned_key ext permit.service options.trusted_service_keys)) [
          | inl unpinned ↦ inr (ground (arith, hs, unpinned))
          | inr (pinned, hp) ↦ elim (Option-cases (ext.decode_acknowledgement sent)) [
            | inl malformed ↦ inr (ground (arith, hs, hp, malformed))
            | inr (ack, ha) ↦
                elim (Bool-cases (
                  acknowledges ext ack pinned invocation authorization paid_request requirement
                    settlement result)) [
                      | inl good ↦ inl (ground (arith, hs, hp, ha, good))
                      | inr other ↦ inr (ground (arith, hs, hp, ha, other))
                    ]
          ]
        ]
  ]

  rest_kept : without_acknowledgement Accepted ≡ without_acknowledgement result
  rest_kept = elim accepted-cases [
    | inl e ↦ ap without_acknowledgement e
    | inr e ↦ ap without_acknowledgement e
  ]

  -- The acknowledgement of a paid result is kept exactly when there is one, the service has a pinned
  -- key, and it decodes to an acknowledgement that this key signed and that states this invocation,
  -- the authorization and the request that were sent, the operation, the payment terms, the confirmed
  -- transaction and the result that was received; nothing else of the result ever changes.
  pub acknowledgement-IsKept_iff :
      ((header : String) → (Accepted.service_acknowledgement_header ≡ some header) ↔ IsKept header)
      × (without_acknowledgement Accepted ≡ without_acknowledgement result)
  acknowledgement-IsKept_iff = (λ header. (IsKept-header header, header-IsKept header), rest_kept)

-- The view of a grant's budget, on sound tables: the amounts that its invocations hold and have
-- spent are together at most its total, and what is left is printed as the plain decimal text of the
-- total less those amounts, without a sign.
pub budget_view_exact :
    (issuer_of grant_id_of : String → String) (db : Db) (issuer grant_id : String) (g : GrantRecord)
    → IsSound issuer_of grant_id_of db
    → find_grant issuer grant_id db.grants ≡ some g
    → let committed =
        held g.issuer g.grant_id db.invocations + spent g.issuer g.grant_id db.invocations in
      (committed ≤ big_int g.max_total_atomic)
      × ((grant_budget g).remaining_atomic ≡ to_string (big_int g.max_total_atomic - committed))
unfolding grant_budget
budget_view_exact issuer_of grant_id_of db issuer grant_id g sound found =
    let b = sound.balanced issuer grant_id g found in
    rw (← b.reserved_sum, ← b.consumed_sum) (b.bounded, ground (arith, b.bounded))
