-- ===== src/Api/Jobs.antt =====
-- api.rs: the route of one job.
use Prim.Native.String.{◌++◌}
use Prim.Native.Char.{Char, code}
use package.text.Mathlib.TextLemmas.{nil-append, cons-append}
use nomad_rs.Base.{
  ℕ, zero, suc, true, false, ◌≡◌, ◌≢◌, refl, sym, subst, ap, ◌∙◌, String, Option, none, some, arith,
  str_eq_ne, is_empty, ◌==◌,
}
use nomad_rs.Error.{Error, Result, ok, err}
use nomad_rs.Jobspec.{Job}
use nomad_rs.State.{StateStore, get_job}
use nomad_rs.Api.{
  ApiResponse, get, Doc, of_job, text, object, field, no_fields, or_braces, strip_prefix, trim_from,
  text_length, trim_start_matches, ok_response, not_found, handle_get_job, handle_get, handle,
}

same_code : (c : Char) → (code c == code c) ≡ true
same_code c = ground arith

strip_prefix-append : (p s : String) → strip_prefix p (p ++ s) ≡ some s
unfolding strip_prefix
strip_prefix-append String.[] s = ap (λ x. some x) (nil-append s)
strip_prefix-append (String.◌∷◌ c p) s =
    ap (λ x. strip_prefix (String.◌∷◌ c p) x) (cons-append c p s)
    ∙ (rw (same_code c) (strip_prefix-append p s))

jobs_route : (name : String) → "/v1/job/" ++ name ≢ "/v1/jobs"
unfolding strip_prefix
jobs_route name e =
    let kept : strip_prefix "/v1/job/" "/v1/jobs" ≡ some name =
      ap (strip_prefix "/v1/job/") (sym e) ∙ strip_prefix-append "/v1/job/" name in
    ground (arith, kept)

trim_from-none : (fuel : ℕ) (p s : String) → strip_prefix p s ≡ none → trim_from fuel p s ≡ s
unfolding trim_from
trim_from-none zero p s h = refl
trim_from-none (suc fuel) p s h = rw (h, trim_from) refl

trim_start_matches-append :
    (p s : String) → strip_prefix p s ≡ none → trim_start_matches p (p ++ s) ≡ s
unfolding trim_start_matches
trim_start_matches-append p s h =
    rw (strip_prefix-append p s, trim_start_matches, trim_from)
      (trim_from-none (text_length (p ++ s)) p s h)

get_job_named :
    (to_string : Doc → Result String) (display : Doc → String) (version name : String)
    (s : StateStore)
    → is_empty name ≡ false
    → handle_get_job to_string display version name (record { state = some s })
      ≡ elim (get_job name s) [
        | none ↦ not_found to_string display version
        | some j ↦ ok_response to_string display version (of_job j)
      ]
unfolding handle_get_job
get_job_named to_string display version name s h = ground (arith, h)

handled :
    (to_string : Doc → Result String) (display : Doc → String) (version name : String)
    (body : Option String) (s : StateStore)
    → is_empty name ≡ false
    → strip_prefix "/v1/job/" name ≡ none
    → handle to_string display version
        (record { method = get; path = "/v1/job/" ++ name; body = body })
        (record { state = some s })
      ≡ elim (get_job name s) [
        | none ↦ not_found to_string display version
        | some j ↦ ok_response to_string display version (of_job j)
      ]
unfolding handle handle_get
handled to_string display version name body s named plain = ground (
  arith,
  str_eq_ne _ _ (jobs_route name),
  strip_prefix-append "/v1/job/" name,
  trim_start_matches-append "/v1/job/" name plain,
  get_job_named to_string display version name s named,
)

-- The answer to a request for a job: 200 with the job's JSON, `{}` if it has none, or 404 with an
-- error.
pub data Answers (to_string : Doc → Result String) (display : Doc → String)
    : Option Job → ApiResponse → Type 0 where
  found :
      (j : Job) (body : String)
      → to_string (of_job j) ≡ ok body
      → Answers to_string display (some j) (record { status = 200; body = body })
  unprintable :
      (j : Job) (e : Error)
      → to_string (of_job j) ≡ err e
      → Answers to_string display (some j) (record { status = 200; body = "{}" })
  missing : Answers to_string display none (record {
    status = 404;
    body = display (object (field "error" (text "not found") no_fields));
  })

answer-Answers :
    (to_string : Doc → Result String) (display : Doc → String) (version : String) (o : Option Job)
    → Answers to_string display o (elim o [
      | none ↦ not_found to_string display version
      | some j ↦ ok_response to_string display version (of_job j)
    ])
unfolding not_found ok_response
answer-Answers to_string display version none = missing
answer-Answers to_string display version (some j) = by_text (to_string (of_job j)) refl
  where
    by_text :
        (r : Result String)
        → to_string (of_job j) ≡ r
        → Answers to_string display
            (some j)
            (record { status = 200; body = or_braces to_string display version r })
    by_text (ok body) e = found j body e
    by_text (err x) e = unprintable j x e

-- With a store, a GET of `/v1/job/` and a name is answered with status 200 and the JSON of the job
-- that is stored under the name, `{}` where serde_json refuses it, or, if there is none, with status
-- 404 and an error document: for a name that is not empty and does not itself start with
-- `/v1/job/`.
pub handle-job :
    (to_string : Doc → Result String) (display : Doc → String) (version name : String)
    (body : Option String) (s : StateStore)
    → is_empty name ≡ false
    → strip_prefix "/v1/job/" name ≡ none
    → Answers to_string display (get_job name s) (
        handle to_string display version
          (record { method = get; path = "/v1/job/" ++ name; body = body })
          (record { state = some s }))
handle-job to_string display version name body s named plain =
    subst (Answers to_string display (get_job name s))
      (sym (handled to_string display version name body s named plain))
      (answer-Answers to_string display version (get_job name s))
