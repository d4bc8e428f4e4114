-- ===== src/Rpc/Wire/Calls.antt =====
-- rpc.rs: a client's calls on a connection that `serve_conn` serves.
use mathlib.Core.List.{append_assoc}
use nomad_rs.Base.{ℕ, suc, ◌<◌, ◌≡◌, refl, ap, ◌∙◌, none, some, List, [], ◌∷◌, ◌++◌, length, arith}
use nomad_rs.Error.{
  Error, Result, ok, err, runtime, connection_closed, ◌>>=◌, and_then, and_then-ok,
}
use nomad_rs.Rpc.{RpcEndpoint, Request, Response, Clock, handle}
use nomad_rs.Rpc.Wire.{Stream, Codec, frame_of, write_frame, read_frame, serve_conn, call}
use nomad_rs.Rpc.Wire.Frames.{
  Pipe, Faithful, write_frame-sent, read_frame-received, read_frame-closed,
}
use nomad_rs.Rpc.Wire.Serves.{frames, answers, serve_conn-answers}

-- What the calls return that the requests deserve, handled in order: the responses, or the error of
-- a closed connection once a request fails or its response has no frame.
pub deserved :
    Codec Response → (ℕ → Clock) → ℕ → List Request → RpcEndpoint → Result (List Response)
deserved codec clock k [] e = ok []
deserved codec clock k (r ∷ rs) e =
    let h = handle (clock k) r e in
    elim h.1 [
      | err x ↦ err (runtime connection_closed)
      | ok resp ↦ elim (frame_of codec resp) [
        | err x ↦ err (runtime connection_closed)
        | ok _ ↦ deserved codec clock (suc k) rs h.0 >>= λ resps. ok (resp ∷ resps)
      ]
    ]

module _ (requests : Codec Request) (responses : Codec Response) (tcp : Stream) where
  -- Calls one after the other, up to the first that fails.
  pub call_all : List Request → tcp.S → tcp.S × Result (List Response)
  call_all [] s = (s, ok [])
  call_all (r ∷ rs) s =
      and_then (call requests responses tcp r s)
        λ resp t. and_then (call_all rs t) λ resps u. (u, ok (resp ∷ resps))

  module _ (back : Faithful responses) (p : Pipe tcp) where
    call-received :
        (req : Request) (l b : List ℕ) (resp : Response) (len bytes rest : List ℕ) (s : tcp.S)
        → frame_of requests req ≡ ok (l, b)
        → frame_of responses resp ≡ ok (len, bytes)
        → p.incoming s ≡ len ++ (bytes ++ rest)
        → ((call requests responses tcp req s).1 ≡ ok resp)
          × (p.incoming (call requests responses tcp req s).0 ≡ rest)
    unfolding call
    call-received req l b resp len bytes rest s h k i =
        let (sent, _, same) = write_frame-sent requests tcp p req l b s h in
        let t = (write_frame requests tcp req s).0 in
        let (got, left, _) =
          read_frame-received responses back tcp p resp len bytes rest t k (same ∙ i) in
        rw (and_then-ok (write_frame requests tcp req s) _ tt sent)
          (rw (and_then-ok (read_frame responses tcp t) _ (some resp) got) (refl, left))

    call-closed :
        (req : Request) (l b : List ℕ) (s : tcp.S)
        → frame_of requests req ≡ ok (l, b)
        → p.incoming s ≡ []
        → (call requests responses tcp req s).1 ≡ err (runtime connection_closed)
    unfolding call
    call-closed req l b s h i =
        let (sent, _, same) = write_frame-sent requests tcp p req l b s h in
        let t = (write_frame requests tcp req s).0 in
        let (got, _) = read_frame-closed responses tcp p t (same ∙ i) in
        rw (and_then-ok (write_frame requests tcp req s) _ tt sent)
          (rw (and_then-ok (read_frame responses tcp t) _ none got) refl)

    and_then-err :
        {A B : Type 0} (r : tcp.S × Result A) (rest : A → tcp.S → tcp.S × Result B) (x : Error)
        → r.1 ≡ err x
        → (and_then r rest).1 ≡ err x
    and_then-err (s, err y) rest x h = ground (arith, h)
    and_then-err (s, ok a) rest x h = absurd (ground (arith, h))

    listed :
        (resp : Response) (r : tcp.S × Result (List Response))
        → (and_then r (λ resps u. (u, ok (resp ∷ resps)))).1 ≡ (r.1 >>= λ resps. ok (resp ∷ resps))
    listed resp (s, err x) = refl
    listed resp (s, ok resps) = refl

    -- A call and the calls after it, against what the server did on its request: `more` are the
    -- requests after it, and `k` the number of the first of them.
    module _ (clock : ℕ → Clock) (k : ℕ) (more : List Request) (r : Request) (l b : List ℕ)
        (made : frame_of requests r ≡ ok (l, b)) (s : tcp.S) where
      abbrev Rest : RpcEndpoint → Type 0
      Rest e =
          (v : tcp.S)
          → p.incoming v ≡ (answers responses clock k more e).1
          → (call_all more v).1 ≡ deserved responses clock k more e

      -- What the server writes, and what the calls deserve, once the response has its frame or not.
      abbrev written : RpcEndpoint → Result (List ℕ × List ℕ) → RpcEndpoint × List ℕ
      written e y = elim y as (λ _. RpcEndpoint × List ℕ) [
        | err x ↦ (e, [])
        | ok (len, bytes) ↦
            let rest = answers responses clock k more e in (rest.0, (len ++ bytes) ++ rest.1)
      ]

      abbrev due : RpcEndpoint → Response → Result (List ℕ × List ℕ) → Result (List Response)
      due e resp y = elim y as (λ _. Result (List Response)) [
        | err x ↦ err (runtime connection_closed)
        | ok _ ↦ deserved responses clock k more e >>= λ resps. ok (resp ∷ resps)
      ]

      framed :
          (e : RpcEndpoint) (resp : Response) (y : Result (List ℕ × List ℕ))
          → frame_of responses resp ≡ y
          → p.incoming s ≡ (written e y).1
          → Rest e
          → (call_all (r ∷ more) s).1 ≡ due e resp y
      unfolding call_all
      framed e resp (err x) q i again =
          and_then-err (call requests responses tcp r s) _ _ (call-closed r l b s made i)
      framed e resp (ok (len, bytes)) q i again =
          let (got, left) =
            call-received r l b resp len bytes (answers responses clock k more e).1 s made q
              (i ∙ append_assoc len bytes _) in
          let t = (call requests responses tcp r s).0 in
          ap (λ x. x.1) (and_then-ok (call requests responses tcp r s) _ resp got)
          ∙ listed resp (call_all more t)
          ∙ ap (λ x. x >>= λ resps. ok (resp ∷ resps)) (again t left)

      served :
          (e : RpcEndpoint) (x : Result Response)
          → p.incoming s
            ≡ (elim x as (λ _. RpcEndpoint × List ℕ) [
              | err x ↦ (e, [])
              | ok resp ↦ written e (frame_of responses resp)
            ]).1
          → Rest e
          → (call_all (r ∷ more) s).1 ≡ (elim x as (λ _. Result (List Response)) [
            | err x ↦ err (runtime connection_closed)
            | ok resp ↦ due e resp (frame_of responses resp)
          ])
      unfolding call_all
      served e (err x) i again =
          and_then-err (call requests responses tcp r s) _ _ (call-closed r l b s made i)
      served e (ok resp) i again = framed e resp (frame_of responses resp) refl i again

    call_all-deserved :
        (clock : ℕ → Clock) (reqs : List Request) (k : ℕ) (sent : List ℕ) (s : tcp.S)
        (e : RpcEndpoint)
        → frames requests reqs ≡ ok sent
        → p.incoming s ≡ (answers responses clock k reqs e).1
        → (call_all reqs s).1 ≡ deserved responses clock k reqs e
    call_all-deserved clock [] k sent s e h i = unfold call_all deserved in refl
    call_all-deserved clock (r ∷ rs) k sent s e h i =
        by_parts (frame_of requests r) refl (frames requests rs) refl
          (λ more v e1 a j. call_all-deserved clock rs (suc k) more v e1 a j)
      where
        by_parts :
            (x : Result (List ℕ × List ℕ))
            → frame_of requests r ≡ x
            → (y : Result (List ℕ)) → frames requests rs ≡ y
            → ((more : List ℕ) (v : tcp.S) (e1 : RpcEndpoint)
                → frames requests rs ≡ ok more
                → p.incoming v ≡ (answers responses clock (suc k) rs e1).1
                → (call_all rs v).1 ≡ deserved responses clock (suc k) rs e1)
            → (call_all (r ∷ rs) s).1 ≡ deserved responses clock k (r ∷ rs) e
        by_parts (err x) a y b again = absurd (unfold frames in ground (arith, h, a))
        by_parts (ok f) a (err x) b again = absurd (unfold frames in ground (arith, h, a, b))
        by_parts (ok (l, bs)) a (ok more) b again =
            let h1 = handle (clock k) r e in
            unfold deserved in
            served clock (suc k) rs r l bs a s h1.0 h1.1 (unfold answers in i)
              (λ v j. again more v h1.0 b j)

    -- On connections without faults, with JSON codecs that decode requests and responses as they
    -- were encoded: when the server reads the frames of the requests until the client closes, with
    -- fuel for one turn more than there are requests, and the client reads what the server wrote,
    -- then the client's calls return the responses of the requests handled in order; or, once a
    -- request fails or its response has no frame, the error of a closed connection.
    pub calls-served :
        (there : Faithful requests) (clock : ℕ → Clock) (reqs : List Request) (fuel : ℕ)
        (s t u : tcp.S) (e after : RpcEndpoint)
        → length reqs < fuel
        → frames requests reqs ≡ ok (p.incoming t)
        → p.outgoing t ≡ []
        → serve_conn requests responses tcp fuel clock t e ≡ some (u, after)
        → p.incoming s ≡ p.outgoing u
        → (call_all reqs s).1 ≡ deserved responses clock 0 reqs e
    calls-served there clock reqs fuel s t u e after l h o ran i =
        let (v, ends, out) =
          serve_conn-answers requests responses there tcp p clock reqs fuel t e l h in
        let same : u ≡ v = ground (arith, ran, ends) in
        call_all-deserved clock reqs 0 (p.incoming t) s e h
          (i ∙ ap p.outgoing same ∙ out ∙ ap (λ x. x ++ (answers responses clock 0 reqs e).1) o)
