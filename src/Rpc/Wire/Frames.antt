-- ===== src/Rpc/Wire/Frames.antt =====
-- rpc.rs: frames on a stream that works.
use mathlib.Core.List.{append_assoc}
use nomad_rs.Base.{
  ◌∙◌, ap, take-append, drop-append, length-append, ℕ, ◌≤◌, ◌<◌, ◌≡◌, refl, false, none, some, List,
  [], ◌++◌, length, take, drop, arith, ltb,
}
use nomad_rs.Error.{Error, Result, ok, err, and_then-ok}
use nomad_rs.Rpc.Wire.{
  Stream, Codec, max_frame, to_be_bytes, from_be_bytes, frame_of, write_frame, read_body,
  read_frame,
}

-- A connection without faults: `incoming` is what the peer sends before it closes its side, and
-- `outgoing` is what was written.
pub record Pipe (tcp : Stream) : Type 0 where
  pub incoming : tcp.S → List ℕ
  pub outgoing : tcp.S → List ℕ
  pub reads :
      (n : ℕ) (s : tcp.S)
      → n ≤ length (incoming s)
      → ((tcp.read_exact n s).1 ≡ ok (some (take n (incoming s))))
        × (incoming (tcp.read_exact n s).0 ≡ drop n (incoming s))
        × (outgoing (tcp.read_exact n s).0 ≡ outgoing s)
  pub ends :
      (n : ℕ) (s : tcp.S)
      → length (incoming s) < n
      → ((tcp.read_exact n s).1 ≡ ok none) × (outgoing (tcp.read_exact n s).0 ≡ outgoing s)
  pub writes :
      (bs : List ℕ) (s : tcp.S)
      → ((tcp.write_all bs s).1 ≡ ok tt)
        × (outgoing (tcp.write_all bs s).0 ≡ outgoing s ++ bs)
        × (incoming (tcp.write_all bs s).0 ≡ incoming s)
  pub flushes :
      (s : tcp.S)
      → ((tcp.flush s).1 ≡ ok tt)
        × (outgoing (tcp.flush s).0 ≡ outgoing s)
        × (incoming (tcp.flush s).0 ≡ incoming s)

-- What is encoded decodes to itself.
abbrev pub Faithful : {T : Type 0} → Codec T → Type 0
Faithful {T = T} codec =
    (m : T) (bytes : List ℕ) → codec.to_vec m ≡ ok bytes → codec.from_slice bytes ≡ ok m

from_be_bytes-to_be_bytes : (n : ℕ) → n < 4294967296 → from_be_bytes (to_be_bytes n) ≡ n
unfolding from_be_bytes to_be_bytes
from_be_bytes-to_be_bytes n h = omega arith

take_prefix : (n : ℕ) (xs : List ℕ) → take 4 (to_be_bytes n ++ xs) ≡ to_be_bytes n
unfolding to_be_bytes
take_prefix n xs = refl

drop_prefix : (n : ℕ) (xs : List ℕ) → drop 4 (to_be_bytes n ++ xs) ≡ xs
unfolding to_be_bytes
drop_prefix n xs = refl

prefix_long : (n : ℕ) (xs : List ℕ) → 4 ≤ length (to_be_bytes n ++ xs)
unfolding to_be_bytes
prefix_long n xs = omega arith

not-max_frame-lt : (n : ℕ) → n ≤ max_frame → ltb max_frame n ≡ false
not-max_frame-lt n h = ground arith

pub write_frame-unsent :
    {T : Type 0} (codec : Codec T) (tcp : Stream) (m : T) (s : tcp.S) (x : Error)
    → frame_of codec m ≡ err x
    → write_frame codec tcp m s ≡ (s, err x)
unfolding write_frame
write_frame-unsent codec tcp m s x h = ground (arith, h)

module _ {T : Type 0} (codec : Codec T) (tcp : Stream) (p : Pipe tcp) where
  pub write_frame-sent :
      (m : T) (len bytes : List ℕ) (s : tcp.S)
      → frame_of codec m ≡ ok (len, bytes)
      → ((write_frame codec tcp m s).1 ≡ ok tt)
        × (p.outgoing (write_frame codec tcp m s).0 ≡ p.outgoing s ++ (len ++ bytes))
        × (p.incoming (write_frame codec tcp m s).0 ≡ p.incoming s)
  unfolding write_frame
  write_frame-sent m len bytes s h =
      let t = (tcp.write_all len s).0 in
      let u = (tcp.write_all bytes t).0 in
      let (first_ok, first_out, first_in) = p.writes len s in
      let (second_ok, second_out, second_in) = p.writes bytes t in
      let (flush_ok, flush_out, flush_in) = p.flushes u in
      rw (h, write_frame)
        (rw (and_then-ok (tcp.write_all len s) (λ _ t. tcp.write_all bytes t) tt first_ok) (
          rw (and_then-ok (tcp.write_all bytes t) (λ _ t. tcp.flush t) tt second_ok) (
            flush_ok,
            flush_out
                ∙ second_out
                ∙ ap (λ o. o ++ bytes) first_out
                ∙ append_assoc (p.outgoing s) len bytes,
            flush_in ∙ second_in ∙ first_in,
          )))

  -- The peer has sent all and closed.
  pub read_frame-closed :
      (s : tcp.S)
      → p.incoming s ≡ []
      → ((read_frame codec tcp s).1 ≡ ok none)
        × (p.outgoing (read_frame codec tcp s).0 ≡ p.outgoing s)
  unfolding read_frame
  read_frame-closed s e =
      let (got, out) = p.ends 4 s (rw e (omega arith)) in
      rw (and_then-ok (tcp.read_exact 4 s) _ none got) (refl, out)

module _ {T : Type 0} (codec : Codec T) (faithful : Faithful codec) where
  -- The parts of a frame that was made.
  frame_of-parts :
      (m : T) (len bytes : List ℕ)
      → frame_of codec m ≡ ok (len, bytes)
      → (codec.to_vec m ≡ ok bytes)
        × (len ≡ to_be_bytes (length bytes))
        × (length bytes ≤ max_frame)
  unfolding frame_of
  frame_of-parts m len bytes h = ground arith

  module _ (tcp : Stream) (p : Pipe tcp) where
    read_body-received :
        (m : T) (bytes rest : List ℕ) (s : tcp.S)
        → codec.to_vec m ≡ ok bytes
        → p.incoming s ≡ bytes ++ rest
        → ((read_body codec tcp (length bytes) s).1 ≡ ok (some m))
          × (p.incoming (read_body codec tcp (length bytes) s).0 ≡ rest)
          × (p.outgoing (read_body codec tcp (length bytes) s).0 ≡ p.outgoing s)
    unfolding read_body
    read_body-received m bytes rest s h e =
        let (read, in_, out) =
          p.reads (length bytes) s (rw e (rw (length-append bytes rest) (omega arith))) in
        rw
          (and_then-ok (tcp.read_exact (length bytes) s) _ (some bytes) (
            read
            ∙ ap (λ i. ok (some (take (length bytes) i))) e
            ∙ ap (λ i. ok (some i)) (take-append bytes rest)))
          (rw (faithful m bytes h)
            (refl, in_ ∙ ap (drop (length bytes)) e ∙ drop-append bytes rest, out))

    pub read_frame-received :
        (m : T) (len bytes rest : List ℕ) (s : tcp.S)
        → frame_of codec m ≡ ok (len, bytes)
        → p.incoming s ≡ len ++ (bytes ++ rest)
        → ((read_frame codec tcp s).1 ≡ ok (some m))
          × (p.incoming (read_frame codec tcp s).0 ≡ rest)
          × (p.outgoing (read_frame codec tcp s).0 ≡ p.outgoing s)
    unfolding read_frame
    read_frame-received m len bytes rest s h e =
        let (vec, is_len, small) = frame_of-parts m len bytes h in
        let n = length bytes in
        let e4 = e ∙ ap (λ l. l ++ (bytes ++ rest)) is_len in
        let (read, in_, out) = p.reads 4 s (rw e4 (prefix_long n (bytes ++ rest))) in
        let (got, in_body, out_body) =
          read_body-received m bytes rest (tcp.read_exact 4 s).0 vec
            (in_ ∙ ap (drop 4) e4 ∙ drop_prefix n (bytes ++ rest)) in
        rw
          (and_then-ok (tcp.read_exact 4 s) _ (some (to_be_bytes n)) (
            read
            ∙ ap (λ i. ok (some (take 4 i))) e4
            ∙ ap (λ i. ok (some i)) (take_prefix n (bytes ++ rest))))
          (rw (from_be_bytes-to_be_bytes n (omega (arith, small)))
            (rw (not-max_frame-lt n small) (got, in_body, out_body ∙ out)))

    -- On a stream without faults, with a codec that decodes what it encoded: when a message was
    -- written to an unused connection with success, a reader to whom the written bytes come in,
    -- whatever follows them, reads that message and leaves what follows.
    pub read_frame-write_frame :
        (m : T) (a b : tcp.S) (rest : List ℕ)
        → (write_frame codec tcp m a).1 ≡ ok tt
        → p.outgoing a ≡ []
        → p.incoming b ≡ p.outgoing (write_frame codec tcp m a).0 ++ rest
        → ((read_frame codec tcp b).1 ≡ ok (some m))
          × (p.incoming (read_frame codec tcp b).0 ≡ rest)
    unfolding write_frame
    read_frame-write_frame m a b rest w o i = by_frame (frame_of codec m) refl
      where
        by_frame :
            (r : Result (List ℕ × List ℕ))
            → frame_of codec m ≡ r
            → ((read_frame codec tcp b).1 ≡ ok (some m))
              × (p.incoming (read_frame codec tcp b).0 ≡ rest)
        by_frame (err x) e = absurd (ground (arith, w, e))
        by_frame (ok (len, bytes)) e =
            let (_, out, _) = write_frame-sent codec tcp p m len bytes a e in
            let (got, left, _) = read_frame-received m len bytes rest b e (
              i
              ∙ ap (λ o. o ++ rest) (out ∙ ap (λ o. o ++ (len ++ bytes)) o)
              ∙ append_assoc len bytes rest) in
            (got, left)
