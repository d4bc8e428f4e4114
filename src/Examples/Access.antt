-- ===== src/Examples/Access.antt =====
-- A token, a dispatch, the ports of a resource, a secret and a request.
use nomad_rs.Base.{
  ◌≡◌, refl, none, some, List, [], ◌∷◌, true, false, All, arith, ◌↔◌, ◌⊎◌, String_discrete,
  is_empty, String,
}
use nomad_rs.Base.HashMap.{get}
use nomad_rs.Error.{Result, ok}
use nomad_rs.State.{get_job}
use nomad_rs.Acl.{Policy, Token, read, write, deny, allows}
use nomad_rs.Acl.Grants.{Granted, Undenied, DenialsFirst, allows-iff-Documented}
use nomad_rs.Dispatch.{
  ParameterizedJob, DispatchRequest, required, validate_dispatch, is_some, contains,
}
use nomad_rs.Dispatch.Accepted.{PayloadFits, accepted_iff}
use nomad_rs.Network.{NetworkResource, Port, host}
use nomad_rs.Api
use nomad_rs.Api.{ApiRequest, Doc, strip_prefix, handle}
use nomad_rs.Api.Jobs.{Answers, handle-job}
use nomad_rs.Examples.{store}

abbrev token : Token
token = record { accessor = "x"; secret = "y"; policies = "ops" ∷ []; management = false }

abbrev policies : List Policy
policies =
    record { name = "dev"; rules = ("jobs", deny) ∷ [] }
    ∷ record { name = "ops"; rules = ("jobs", write) ∷ [] }
    ∷ []

-- The only denial is of a policy that is not the token's.
denials_first : DenialsFirst token.policies "jobs" read policies
unfolding String_discrete get
denials_first = (λ g. ((λ own k. ground (arith, k)), tt), (λ g. tt, tt))

allows-iff-Documented_example : (allows token "jobs" read policies ≡ true) ↔ (
    (token.management ≡ true)
    ⊎ (Granted token.policies "jobs" read policies × Undenied token.policies "jobs" policies))
allows-iff-Documented_example = allows-iff-Documented token "jobs" read policies denials_first

abbrev template : ParameterizedJob
template = record { meta_required = "user" ∷ []; meta_optional = "note" ∷ []; payload = required }

abbrev request : DispatchRequest
request = record { meta = ("user", "me") ∷ ("note", "hi") ∷ []; payload = some (1 ∷ 2 ∷ []) }

accepted_iff_example : (validate_dispatch template request ≡ ok tt) ↔ (
    All (λ k. is_some (get k request.meta) ≡ true) ("user" ∷ [])
    × All (λ e. contains ("user" ∷ "note" ∷ []) e.0 ≡ true) request.meta
    × PayloadFits required request.payload)
accepted_iff_example = accepted_iff template request

abbrev http : Port
http = record { label = "http"; static_value = some 80; to = none }

abbrev ports : NetworkResource
ports = record {
  mode = host;
  reserved_ports = http ∷ [];
  dynamic_ports = record http { label = "admin"; static_value = none } ∷ [];
}

abbrev to_text : Doc → Result String
to_text d = ok "{}"

abbrev to_display : Doc → String
to_display d = "{}"

shop-named : is_empty "shop" ≡ false
unfolding String_discrete
shop-named = refl

handle-job_example : Answers to_text to_display (get_job "shop" store) (
    handle to_text to_display "0.1"
      (record { method = Api.get; path = "/v1/job/shop"; body = none })
      (record { state = some store }))
unfolding strip_prefix
handle-job_example = handle-job to_text to_display "0.1" "shop" none store shop-named refl
