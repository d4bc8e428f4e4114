-- ===== src/Rpc/Wire/Serves.antt =====
-- rpc.rs: a connection against its requests, handled one after the other.
use mathlib.Core.List.{append_assoc, append-nil}
use nomad_rs.Base.{
  ℕ, zero, suc, ◌<◌, ◌≡◌, refl, sym, subst, ap, ◌∙◌, Option, none, some, List, [], ◌∷◌, ◌++◌,
  length, arith,
}
use nomad_rs.Error.{Result, ok, err, ◌>>=◌}
use nomad_rs.Rpc.{RpcEndpoint, Request, Response, Clock, handle}
use nomad_rs.Rpc.Wire.{
  Stream, Codec, frame_of, write_frame, read_frame, serve_one, serve_from, serve_conn,
}
use nomad_rs.Rpc.Wire.Frames.{
  Pipe, Faithful, write_frame-sent, write_frame-unsent, read_frame-received, read_frame-closed,
}

-- What a client writes that sends the requests.
unfoldable pub frames : Codec Request → List Request → Result (List ℕ)
frames codec [] = ok []
frames codec (r ∷ rs) = do f ← frame_of codec r; more ← frames codec rs; ok (f.0 ++ (f.1 ++ more))

-- The requests handled in order, and the frames of the responses, up to the first request that
-- fails or whose response has no frame.
unfoldable pub answers :
    Codec Response → (ℕ → Clock) → ℕ → List Request → RpcEndpoint → RpcEndpoint × List ℕ
answers codec clock k [] e = (e, [])
answers codec clock k (r ∷ rs) e =
    let h = handle (clock k) r e in
    elim h.1 [
      | err x ↦ (h.0, [])
      | ok resp ↦ elim (frame_of codec resp) [
        | err x ↦ (h.0, [])
        | ok (len, bytes) ↦
            let rest = answers codec clock (suc k) rs h.0 in (rest.0, (len ++ bytes) ++ rest.1)
      ]
    ]

module _ (requests : Codec Request) (responses : Codec Response) (faithful : Faithful requests)
    (tcp : Stream) (p : Pipe tcp) (clock : ℕ → Clock) where
  -- The loop ends with the endpoint and the output of the reference.
  abbrev pub Answered : tcp.S → RpcEndpoint × List ℕ → Option (tcp.S × RpcEndpoint) → Type 0
  Answered s a r = (t : tcp.S) × (r ≡ some (t, a.0)) × (p.outgoing t ≡ p.outgoing s ++ a.1)

  serve_one-closed :
      (next : tcp.S → RpcEndpoint → Option (tcp.S × RpcEndpoint)) (c : Clock) (e : RpcEndpoint)
      (r : tcp.S × Result (Option Request))
      → r.1 ≡ ok none
      → serve_one requests responses tcp next c e r ≡ some (r.0, e)
  unfolding serve_one
  serve_one-closed next c e (s, err x) h = ground (arith, h)
  serve_one-closed next c e (s, ok none) h = refl
  serve_one-closed next c e (s, ok (some r)) h = absurd (ground (arith, h))

  -- The loop's body on a request, against one step of the reference.
  module _ (next : tcp.S → RpcEndpoint → Option (tcp.S × RpcEndpoint)) (k : ℕ) (rs : List Request)
      (s : tcp.S) where
    -- The rest of the loop answers the requests that are still to be read.
    abbrev Rest : RpcEndpoint → Type 0
    Rest e =
        (t : tcp.S)
        → p.incoming t ≡ p.incoming s
        → Answered t (answers responses clock (suc k) rs e) (next t e)

    framed :
        (e : RpcEndpoint) (resp : Response) (y : Result (List ℕ × List ℕ))
        → frame_of responses resp ≡ y
        → Rest e
        → let w = write_frame responses tcp resp s in
          Answered s
            (elim y as (λ _. RpcEndpoint × List ℕ) [
              | err x ↦ (e, [])
              | ok (len, bytes) ↦
                  let rest = answers responses clock (suc k) rs e in
                  (rest.0, (len ++ bytes) ++ rest.1)
            ])
            (elim w.1 as (λ _. Option (tcp.S × RpcEndpoint)) [
              | err x ↦ some (w.0, e)
              | ok _ ↦ next w.0 e
            ])
    framed e resp (err x) q rest =
        let unsent = write_frame-unsent responses tcp resp s x q in
        rw (ap (λ w. w.1) unsent) (
          (write_frame responses tcp resp s).0,
          refl,
          ap (λ w. p.outgoing w.0) unsent ∙ sym (append-nil (p.outgoing s)),
        )
    framed e resp (ok (len, bytes)) q rest =
        let (sent, out, in_) = write_frame-sent responses tcp p resp len bytes s q in
        let (t, ends, o) = rest (write_frame responses tcp resp s).0 in_ in
        rw sent (
          t,
          ends,
          o
              ∙ ap (λ x. x ++ (answers responses clock (suc k) rs e).1) out
              ∙ append_assoc (p.outgoing s) (len ++ bytes) (answers responses clock (suc k) rs e).1,
        )

    served :
        (e : RpcEndpoint) (x : Result Response)
        → Rest e
        → Answered s
            (elim x as (λ _. RpcEndpoint × List ℕ) [
              | err x ↦ (e, [])
              | ok resp ↦ elim (frame_of responses resp) as (λ _. RpcEndpoint × List ℕ) [
                | err x ↦ (e, [])
                | ok (len, bytes) ↦
                    let rest = answers responses clock (suc k) rs e in
                    (rest.0, (len ++ bytes) ++ rest.1)
              ]
            ])
            (elim x as (λ _. Option (tcp.S × RpcEndpoint)) [
              | err x ↦ some (s, e)
              | ok resp ↦
                  let w = write_frame responses tcp resp s in
                  elim w.1 as (λ _. Option (tcp.S × RpcEndpoint)) [
                    | err x ↦ some (w.0, e)
                    | ok _ ↦ next w.0 e
                  ]
            ])
    served e (err x) rest = (s, refl, sym (append-nil (p.outgoing s)))
    served e (ok resp) rest = framed e resp (frame_of responses resp) refl rest

  serve_from-answers :
      (reqs : List Request) (fuel k : ℕ) (s : tcp.S) (e : RpcEndpoint)
      → length reqs < fuel
      → frames requests reqs ≡ ok (p.incoming s)
      → Answered s
          (answers responses clock k reqs e)
          (serve_from requests responses tcp fuel k clock s e)
  unfolding serve_from answers
  serve_from-answers reqs zero k s e l h = absurd (omega (arith, l))
  serve_from-answers [] (suc fuel) k s e l h =
      let (got, out) = read_frame-closed requests tcp p s (unfold frames in ground (arith, h)) in
      (
        (read_frame requests tcp s).0,
        serve_one-closed _ (clock k) e (read_frame requests tcp s) got,
        out ∙ sym (append-nil (p.outgoing s)),
      )
  serve_from-answers (r ∷ rs) (suc fuel) k s e l h =
      by_parts (frame_of requests r) refl (frames requests rs) refl
        (λ v e1 i. serve_from-answers rs fuel (suc k) v e1 (omega (arith, l)) i)
    where
      Goal : Type 0
      Goal =
          Answered s (answers responses clock k (r ∷ rs) e)
            (serve_from requests responses tcp (suc fuel) k clock s e)

      by_parts :
          (x : Result (List ℕ × List ℕ))
          → frame_of requests r ≡ x
          → (y : Result (List ℕ)) → frames requests rs ≡ y
          → ((v : tcp.S) (e1 : RpcEndpoint)
              → frames requests rs ≡ ok (p.incoming v)
              → Answered v
                  (answers responses clock (suc k) rs e1)
                  (serve_from requests responses tcp fuel (suc k) clock v e1))
          → Goal
      by_parts (err x) a y b again = absurd (unfold frames in ground (arith, h, a))
      by_parts (ok (len, bytes)) a (err x) b again =
          absurd (unfold frames in ground (arith, h, a, b))
      by_parts (ok (len, bytes)) a (ok more) b again =
          let sent : p.incoming s ≡ len ++ (bytes ++ more) =
            unfold frames in ground (arith, h, a, b) in
          let (got, left, out) =
            read_frame-received requests faithful tcp p r len bytes more s a sent in
          let t = (read_frame requests tcp s).0 in
          let next = serve_from requests responses tcp fuel (suc k) clock in
          let h1 = handle (clock k) r e in
          let (u, done, o) =
            served next k rs t h1.0 h1.1
              (λ v i. again v h1.0 (b ∙ ap (λ z. ok z) (sym left ∙ sym i))) in
          subst
            (λ x.
              Answered s (answers responses clock k (r ∷ rs) e)
                (serve_one requests responses tcp next (clock k) e (t, x)))
            (sym got)
            (unfold serve_one in
              (u, done, o ∙ ap (λ z. z ++ (answers responses clock k (r ∷ rs) e).1) out))

  -- On a connection without faults, with a JSON codec that decodes requests as they were encoded,
  -- and with fuel for one turn more than there are requests, the loop ends: when all that comes in
  -- before the peer closes is the frames of the requests, the endpoint is then as if the requests
  -- had been handled one after the other, and the frames of the responses have been written, up to
  -- the first request that fails or whose response has no frame.
  pub serve_conn-answers :
      (reqs : List Request) (fuel : ℕ) (s : tcp.S) (e : RpcEndpoint)
      → length reqs < fuel
      → frames requests reqs ≡ ok (p.incoming s)
      → Answered s
          (answers responses clock 0 reqs e)
          (serve_conn requests responses tcp fuel clock s e)
  unfolding serve_conn
  serve_conn-answers reqs fuel s e l h = serve_from-answers reqs fuel 0 s e l h
