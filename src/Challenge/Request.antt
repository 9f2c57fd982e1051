-- ===== src/Challenge/Request.antt =====
-- The requests that the authority sends, and the registry that they come from.
use virtual_haibin.Prelude.{
  String, true, Option, none, some, List, [], ◌∷◌, ◌≡◌, ◌⊎◌, refl, arith, ◌==◌, All, Option-cases,
  Bool-cases, inl, inr, subst, ap, Among,
}
use virtual_haibin.Mandate.{ExactOperation}
use virtual_haibin.Payments.{PaidResource, PaidRequest}
use virtual_haibin.Challenge.{
  Url, registry, built, paid_service_key, set_resource, get_resource, url_error, register_all,
  create_paid_service_registry, create_paid_request, paid_request_matches, build_paid_request,
}

-- What an entry of the registry is: the resource of the configuration that is registered under the
-- key, with the normal form of its URL, which is over http or https and has no credentials, query or
-- fragment.
pub record IsRegistered (parse_url : String → Option Url) (resources : List PaidResource)
    (key : String) (registered : PaidResource) : Type 0 where
  pub given : PaidResource
  pub configured : Among given resources
  pub keyed : key ≡ paid_service_key given.service_id given.capability
  pub url : Url
  pub parsed : parse_url given.url ≡ some url
  pub normal : registered ≡ record given { url = url.href }
  pub over_web : (url.protocol ≡ "http:") ⊎ (url.protocol ≡ "https:")
  pub no_username : url.username ≡ ""
  pub no_password : url.password ≡ ""
  pub no_search : url.search ≡ ""
  pub no_hash : url.hash ≡ ""

All-set :
    (P : String → PaidResource → Type 0) (key : String) (resource : PaidResource)
    (entries : List (String × PaidResource))
    → All (λ e. P e.0 e.1) entries
    → P key resource
    → All (λ e. P e.0 e.1) (set_resource key resource entries)
unfolding set_resource
All-set P key resource [] all p = (p, tt)
All-set P key resource ((k, r) ∷ entries) (q, all) p = elim (Bool-cases (k == key)) [
  | inl same ↦ rw same (p, all)
  | inr other ↦ rw other (q, All-set P key resource entries all p)
]

All-get :
    (P : String → PaidResource → Type 0) (key : String) (resource : PaidResource)
    (entries : List (String × PaidResource))
    → All (λ e. P e.0 e.1) entries
    → get_resource key entries ≡ some resource
    → P key resource
unfolding get_resource
All-get P key resource [] all h = cc (h)
All-get P key resource ((k, r) ∷ entries) (q, all) h = elim (Bool-cases (k == key)) [
  | inl same ↦
      let e : r ≡ resource = ground arith in
      let e' : k ≡ key = ground arith in subst (λ x. P x resource) e' (subst (P k) e q)
  | inr other ↦ All-get P key resource entries all (ground arith)
]

url_error-none :
    (url : Url)
    → url_error url ≡ none
    → ((url.protocol ≡ "http:") ⊎ (url.protocol ≡ "https:"))
      × (url.username ≡ "")
      × (url.password ≡ "")
      × (url.search ≡ "")
      × (url.hash ≡ "")
url_error-none url h = ground arith

-- What a built request is made of.
built_from :
    (digest : String → String → String → String → String) (parse_url : String → Option Url)
    (canonical_body : String → String → String) (resource : PaidResource)
    (operation : ExactOperation) (request : PaidRequest)
    → build_paid_request digest parse_url canonical_body resource operation ≡ built request
    → (request
        ≡ create_paid_request digest resource.url operation.method
            (canonical_body operation.operation operation.dataset_id))
      × ((url : Url) × (parse_url resource.url ≡ some url) × (url.pathname ≡ operation.resource))
unfolding build_paid_request
built_from digest parse_url canonical_body resource operation request h =
    elim (Option-cases (parse_url resource.url)) [
      | inl bad ↦ absurd (ground (arith, bad, h))
      | inr (url, e) ↦ (ground (arith, e, h), (url, e, ground (arith, e, h)))
    ]

made_of :
    (digest : String → String → String → String → String) (resource : PaidResource)
    (operation : ExactOperation) (body : String) (parse_url : String → Option Url)
    → (url : Url) × (parse_url resource.url ≡ some url) × (url.pathname ≡ operation.resource)
    → let request = create_paid_request digest resource.url operation.method body in
      (request.url ≡ resource.url)
      × (request.method ≡ operation.method)
      × ((url : Url) × (parse_url request.url ≡ some url) × (url.pathname ≡ operation.resource))
      × (request.body ≡ body)
      × (paid_request_matches digest request request.sha256 ≡ true)
unfolding create_paid_request paid_request_matches
made_of digest resource operation body parse_url path = (refl, refl, path, refl, ground arith)

module _ (parse_url : String → Option Url) (configuration : List PaidResource) where
  abbrev Registered : String → PaidResource → Type 0
  Registered = IsRegistered parse_url configuration

  register_all-IsRegistered :
      (resources : List PaidResource) (entries result : List (String × PaidResource))
      → ((r : PaidResource) → Among r resources → Among r configuration)
      → All (λ e. Registered e.0 e.1) entries
      → register_all parse_url resources entries ≡ registry result
      → All (λ e. Registered e.0 e.1) result
  unfolding register_all
  register_all-IsRegistered [] entries result among all h =
      let e : entries ≡ result = ground arith in rw (← e) all
  register_all-IsRegistered (resource ∷ resources) entries result among all h =
      elim (Option-cases (parse_url resource.url)) [
        | inl bad ↦ absurd (ground (arith, bad, h))
        | inr (url, e) ↦ elim (Option-cases (url_error url)) [
          | inr (error, bad) ↦ absurd (ground (arith, e, bad, h))
          | inl good ↦
              let (web, user, pass, search, hash) = url_error-none url good in
              let key = paid_service_key resource.service_id resource.capability in
              let added = record resource { url = url.href } in
              register_all-IsRegistered resources (set_resource key added entries) result
                (λ r (before, after, e).
                  among r (resource ∷ before, after, ap (λ rs. resource ∷ rs) e))
                (All-set Registered key added entries all (record {
                  given = resource;
                  configured = among resource ([], resources, refl);
                  keyed = refl;
                  url = url;
                  parsed = e;
                  normal = refl;
                  over_web = web;
                  no_username = user;
                  no_password = pass;
                  no_search = search;
                  no_hash = hash;
                }))
                (ground (arith, e, good, h))
        ]
      ]

  -- Every request that the authority builds for the resource that its registry has under a key goes
  -- to the URL of that resource, which is the normal form of the URL of a resource that the
  -- configuration gives for this key, over http or https and with no credentials, query or fragment.
  -- Its path and method are those of the operation, its body is the canonical text of the operation's
  -- two other fields, and it matches its own digest.
  pub built_request_is_safe :
      (digest : String → String → String → String → String)
      (canonical_body : String → String → String) (entries : List (String × PaidResource))
      (key : String) (resource : PaidResource) (operation : ExactOperation) (request : PaidRequest)
      → create_paid_service_registry parse_url configuration ≡ registry entries
      → get_resource key entries ≡ some resource
      → build_paid_request digest parse_url canonical_body resource operation ≡ built request
      → IsRegistered parse_url configuration key resource
        × (request.url ≡ resource.url)
        × (request.method ≡ operation.method)
        × ((url : Url) × (parse_url request.url ≡ some url) × (url.pathname ≡ operation.resource))
        × (request.body ≡ canonical_body operation.operation operation.dataset_id)
        × (paid_request_matches digest request request.sha256 ≡ true)
  built_request_is_safe digest canonical_body entries key resource operation request made found h =
      let all =
        register_all-IsRegistered configuration [] entries (λ r m. m) tt
          (unfold create_paid_service_registry in made) in
      let (e, (url, parsed, path)) =
        built_from digest parse_url canonical_body resource operation request h in
      let (goes, method, parses, body, matches) =
        made_of digest resource operation (canonical_body operation.operation operation.dataset_id)
          parse_url (url, parsed, path) in
      rw e (All-get Registered key resource entries all found, goes, method, parses, body, matches)
