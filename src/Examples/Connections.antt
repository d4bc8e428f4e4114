-- ===== src/Examples/Connections.antt =====
-- A connection in memory, and a codec of two requests.
use nomad_rs.Base.{
  ℕ, ◌≡◌, refl, none, some, List, [], ◌∷◌, ◌++◌, length, take, drop, arith, leb, str_eq,
  String_discrete, if◌then◌else◌,
}
use nomad_rs.Error.{serialize, ok, err}
use nomad_rs.Rpc.{
  Request, job_register, job_deregister, node_register, eval_dequeue, Response, job_registered,
  not_leader, ack, eval, Clock,
}
use nomad_rs.Examples.Cluster.{idle}
use nomad_rs.Rpc.Wire.{Stream, Codec, frame_of, to_be_bytes, write_frame, read_frame, serve_conn}
use nomad_rs.Rpc.Wire.Frames.{Pipe, Faithful, read_frame-write_frame}
use nomad_rs.Rpc.Wire.Serves.{frames, answers, Answered, serve_conn-answers}
use nomad_rs.Rpc.Wire.Calls.{call_all, deserved, calls-served}

-- What is still to be read, and what was written.
abbrev in_memory : Stream
in_memory = record {
  S = List ℕ × List ℕ;
  read_exact = λ n s.
      if leb n (length s.0)
      then ((drop n s.0, s.1), ok (some (take n s.0)))
      else (([], s.1), ok none);
  write_all = λ bs s. ((s.0, s.1 ++ bs), ok tt);
  flush = λ s. (s, ok tt);
}

pipe : Pipe in_memory
pipe = record {
  incoming = λ s. s.0;
  outgoing = λ s. s.1;
  reads = λ n s h. ground arith;
  ends = λ n s h. ground arith;
  writes = λ bs s. (refl, refl, refl);
  flushes = λ s. (refl, refl, refl);
}

-- A dequeue for no scheduler, and the end of one job.
abbrev two_requests : Codec Request
two_requests = record {
  to_vec = λ r. elim r [
    | eval_dequeue names ↦ elim names [ [] ↦ ok (1 ∷ []) | _ ∷ _ ↦ err serialize ]
    | job_deregister name ↦ if str_eq name "shop" then ok (2 ∷ []) else err serialize
    | job_register j ↦ err serialize
    | node_register n ↦ err serialize
  ];
  from_slice = λ bs. elim bs [
    | [] ↦ err serialize
    | b ∷ rest ↦ if leb b 1 then ok (eval_dequeue []) else ok (job_deregister "shop")
  ];
}

two_requests-Faithful : Faithful two_requests
two_requests-Faithful (eval_dequeue []) bytes h = ground arith
two_requests-Faithful (eval_dequeue (x ∷ xs)) bytes h = ground arith
two_requests-Faithful (job_deregister name) bytes h = ground arith
two_requests-Faithful (job_register j) bytes h = ground arith
two_requests-Faithful (node_register n) bytes h = ground arith

abbrev responses : Codec Response
responses = record {
  to_vec = λ r. elim r [ ack ↦ ok (7 ∷ []) | eval e ↦ ok (8 ∷ []) | _ ↦ ok (9 ∷ []) ];
  from_slice = λ bs. ok ack;
}

written : (write_frame two_requests in_memory (eval_dequeue []) ([], [])).1 ≡ ok tt
unfolding write_frame frame_of
written = refl

read_frame-write_frame_example :
    ((read_frame two_requests in_memory (0 ∷ 0 ∷ 0 ∷ 1 ∷ 1 ∷ 5 ∷ [], [])).1
      ≡ ok (some (eval_dequeue [])))
    × ((read_frame two_requests in_memory (0 ∷ 0 ∷ 0 ∷ 1 ∷ 1 ∷ 5 ∷ [], [])).0.0 ≡ 5 ∷ [])
unfolding write_frame frame_of to_be_bytes pipe
read_frame-write_frame_example =
    read_frame-write_frame two_requests two_requests-Faithful in_memory pipe (eval_dequeue [])
      ([], []) (0 ∷ 0 ∷ 0 ∷ 1 ∷ 1 ∷ 5 ∷ [], []) (5 ∷ []) written refl refl

abbrev incoming : List ℕ
incoming = 0 ∷ 0 ∷ 0 ∷ 1 ∷ 1 ∷ 0 ∷ 0 ∷ 0 ∷ 1 ∷ 2 ∷ []

abbrev clock : ℕ → Clock
clock k = record { system = 1000; instant = k }

serve_conn-answers_example :
    Answered two_requests responses two_requests-Faithful in_memory pipe clock
      (incoming, [])
      (answers responses clock 0 (eval_dequeue [] ∷ job_deregister "shop" ∷ []) idle)
      (serve_conn two_requests responses in_memory 3 clock (incoming, []) idle)
unfolding pipe frames frame_of to_be_bytes String_discrete
serve_conn-answers_example =
    serve_conn-answers two_requests responses two_requests-Faithful in_memory pipe clock
      (eval_dequeue [] ∷ job_deregister "shop" ∷ []) 3 (incoming, []) idle (omega arith) refl

abbrev two_responses : Codec Response
two_responses = record {
  to_vec = λ r. elim r [
    | ack ↦ ok (7 ∷ [])
    | eval e ↦ elim e [ none ↦ ok (8 ∷ []) | some _ ↦ err serialize ]
    | job_registered id ↦ err serialize
    | not_leader addr ↦ err serialize
  ];
  from_slice =
      λ bs. elim bs [ [] ↦ err serialize | b ∷ rest ↦ if leb b 7 then ok ack else ok (eval none) ];
}

two_responses-Faithful : Faithful two_responses
two_responses-Faithful ack bytes h = ground arith
two_responses-Faithful (eval none) bytes h = ground arith
two_responses-Faithful (eval (some e)) bytes h = ground arith
two_responses-Faithful (job_registered id) bytes h = ground arith
two_responses-Faithful (not_leader addr) bytes h = ground arith

abbrev asked : List Request
asked = eval_dequeue [] ∷ job_deregister "shop" ∷ []

served :
    Answered two_requests two_responses two_requests-Faithful in_memory pipe clock
      (incoming, [])
      (answers two_responses clock 0 asked idle)
      (serve_conn two_requests two_responses in_memory 3 clock (incoming, []) idle)
unfolding pipe frames frame_of to_be_bytes String_discrete
served =
    serve_conn-answers two_requests two_responses two_requests-Faithful in_memory pipe clock asked 3
      (incoming, []) idle (omega arith) refl

-- The client reads what the server wrote on that connection.
calls-served_example :
    (call_all two_requests two_responses in_memory asked (served.0.1, [])).1
    ≡ deserved two_responses clock 0 asked idle
unfolding pipe frames frame_of to_be_bytes String_discrete
calls-served_example =
    calls-served two_requests two_responses in_memory two_responses-Faithful pipe
      two_requests-Faithful clock asked 3 (served.0.1, []) (incoming, []) served.0 idle
      (answers two_responses clock 0 asked idle).0 (omega arith) refl refl served.1 refl
