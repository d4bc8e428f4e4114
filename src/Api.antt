-- ===== src/Api.antt =====
-- api.rs: the routes of the HTTP API. The JSON encoder and the package's version are arguments.
pub mod Jobs
use Prim.Native.String.{◌++◌}
use Prim.Native.Char.{code}
use nomad_rs.Base.{
  ℕ, zero, suc, Bool, true, false, String, Option, none, some, List, [], ◌∷◌, ◌==◌, str_eq,
  is_empty, if◌then◌else◌,
}
use nomad_rs.Error.{Result, ok, err}
use nomad_rs.Jobspec.{Job}
use nomad_rs.Alloc.{Allocation}
use nomad_rs.Eval.{Evaluation}
use nomad_rs.Node.{Node}
use nomad_rs.State.{StateStore, list_jobs, get_job, list_evals, list_allocs, list_nodes}

pub data Method : Type 0 where
  get post put delete : Method

pub record ApiRequest : Type 0 where
  pub method : Method
  pub path : String
  pub body : Option String

pub record ApiResponse : Type 0 where
  pub status : ℕ
  pub body : String

-- What a handler gives to serde_json.
mutual
  pub data Doc : Type 0 where
    of_jobs : List Job → Doc
    of_job : Job → Doc
    of_evals : List Evaluation → Doc
    of_allocs : List Allocation → Doc
    of_nodes : List Node → Doc
    text : String → Doc
    number : ℕ → Doc
    empty_array : Doc
    object : Fields → Doc

  pub data Fields : Type 0 where
    no_fields : Fields
    field : String → Doc → Fields → Fields

pub record HttpApi : Type 0 where
  pub state : Option StateStore

-- The first text removed from the front of the second one, if it stands there.
unfoldable pub strip_prefix : String → String → Option String
strip_prefix String.[] s = some s
strip_prefix (String.◌∷◌ c p) String.[] = none
strip_prefix (String.◌∷◌ c p) (String.◌∷◌ d s) =
    let rest = strip_prefix p s in if code c == code d then rest else none

abbrev pub starts_with : String → String → Bool
starts_with p s = elim (strip_prefix p s) [ none ↦ false | some rest ↦ true ]

-- `trim_start_matches`: the prefix removed as often as it stands there; on fuel.
unfoldable pub trim_from : ℕ → String → String → String
trim_from zero p s = s
trim_from (suc fuel) p s = elim (strip_prefix p s) [ none ↦ s | some rest ↦ trim_from fuel p rest ]

text_length : String → ℕ
text_length String.[] = 0
text_length (String.◌∷◌ c s) = suc (text_length s)

unfoldable pub trim_start_matches : String → String → String
unfolding trim_from text_length
trim_start_matches p s = trim_from (suc (text_length s)) p s

-- `serde_json::to_string`, and `to_string` of a JSON value.
module _ (to_string : Doc → Result String) (display : Doc → String) (version : String) where
  abbrev pub or_braces : Result String → String
  or_braces (ok s) = s
  or_braces (err e) = "{}"

  unfoldable pub ok_response : Doc → ApiResponse
  ok_response d = record { status = 200; body = or_braces (to_string d) }

  unfoldable pub created : Doc → ApiResponse
  created d = record { status = 201; body = or_braces (to_string d) }

  abbrev error_doc : String → Doc
  error_doc msg = object (field "error" (text msg) no_fields)

  unfoldable pub bad_request : String → ApiResponse
  bad_request msg = record { status = 400; body = display (error_doc msg) }

  unfoldable pub not_found : ApiResponse
  not_found = record { status = 404; body = display (error_doc "not found") }

  unfoldable pub internal_error : String → ApiResponse
  internal_error msg = record { status = 500; body = display (error_doc msg) }

  -- A list of the store's, or an empty array without a store.
  abbrev listed : (StateStore → Doc) → HttpApi → ApiResponse
  listed f api = elim api.state [ none ↦ ok_response empty_array | some s ↦ ok_response (f s) ]

  unfoldable pub handle_get_job : String → HttpApi → ApiResponse
  unfolding bad_request not_found ok_response
  handle_get_job name api =
      if is_empty name then bad_request "job name is required" else elim api.state [
        | none ↦ not_found
        | some s ↦ elim (get_job name s) [ none ↦ not_found | some j ↦ ok_response (of_job j) ]
      ]

  unfoldable pub handle_list_jobs : HttpApi → ApiResponse
  unfolding ok_response
  handle_list_jobs = listed (λ s. of_jobs (list_jobs s))

  unfoldable pub handle_list_evals : HttpApi → ApiResponse
  unfolding ok_response
  handle_list_evals = listed (λ s. of_evals (list_evals s))

  unfoldable pub handle_list_allocs : HttpApi → ApiResponse
  unfolding ok_response
  handle_list_allocs = listed (λ s. of_allocs (list_allocs s))

  unfoldable pub handle_list_nodes : HttpApi → ApiResponse
  unfolding ok_response
  handle_list_nodes = listed (λ s. of_nodes (list_nodes s))

  unfoldable pub handle_agent_health : ApiResponse
  unfolding ok_response
  handle_agent_health =
      ok_response
        (object (field "status" (text "running") (field "version" (text version) no_fields)))

  unfoldable pub handle_agent_members : ApiResponse
  unfolding ok_response
  handle_agent_members =
      ok_response (object (field "members" empty_array (field "serf" (text "alive") no_fields)))

  unfoldable pub handle_agent_self : ApiResponse
  unfolding ok_response
  handle_agent_self =
      ok_response
        (object (field "config" (object no_fields) (field "version" (text version) no_fields)))

  unfoldable pub handle_status_leader : ApiResponse
  unfolding ok_response
  handle_status_leader = ok_response (object (field "leader" (text "") no_fields))

  unfoldable pub handle_status_peers : ApiResponse
  unfolding ok_response
  handle_status_peers = ok_response empty_array

  unfoldable pub handle_operator_raft_config : ApiResponse
  unfolding ok_response
  handle_operator_raft_config =
      ok_response (object (field "servers" empty_array (field "index" (number 0) no_fields)))

  -- The routes below the jobs' ones, in the order of the match.
  unfoldable pub other_routes : String → HttpApi → ApiResponse
  other_routes path api =
      if str_eq path "/v1/evaluations"
      then handle_list_evals api
      else (if str_eq path "/v1/allocations"
          then handle_list_allocs api
          else (if str_eq path "/v1/nodes"
              then handle_list_nodes api
              else (if str_eq path "/v1/agent"
                  then handle_agent_health
                  else (if str_eq path "/v1/agent/members"
                      then handle_agent_members
                      else (if str_eq path "/v1/agent/self"
                          then handle_agent_self
                          else (if str_eq path "/v1/status/leader"
                              then handle_status_leader
                              else (if str_eq path "/v1/status/peers"
                                  then handle_status_peers
                                  else (if str_eq path "/v1/operator/raft/configuration"
                                      then handle_operator_raft_config
                                      else not_found))))))))

  -- A GET request.
  unfoldable pub handle_get : String → HttpApi → ApiResponse
  unfolding other_routes
  handle_get path api =
      if str_eq path "/v1/jobs"
      then handle_list_jobs api
      else (if starts_with "/v1/job/" path
          then handle_get_job (trim_start_matches "/v1/job/" path) api
          else other_routes path api)

  unfoldable pub handle : ApiRequest → HttpApi → ApiResponse
  unfolding handle_get
  handle r api = elim r.method [ get ↦ handle_get r.path api | _ ↦ not_found ]
