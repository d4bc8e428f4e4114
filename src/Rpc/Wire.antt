-- ===== src/Rpc/Wire.antt =====
-- The rest of rpc.rs: frames on a stream, the connection's loop and the client. The stream and the
-- JSON codec are arguments; a byte is a number.
pub mod Frames
pub mod Serves
pub mod Calls
use nomad_rs.Base.{
  ℕ, zero, suc, ◌+◌, ◌*◌, ◌/◌, ◌%◌, true, false, Option, none, some, List, [], ◌∷◌, length, ltb,
  leb, if◌then◌else◌,
}
use nomad_rs.Error.{
  Error, io, runtime, Result, ok, err, ◌>>=◌, ◌>>◌, refuse, and_then, frame_too_large,
  frame_length_overflow, connection_closed,
}
use nomad_rs.Rpc.{RpcEndpoint, Request, Response, Clock, handle}

-- A tokio stream. `read_exact` returns `none` for `ErrorKind::UnexpectedEof`.
pub record Stream : Type 1 where
  pub S : Type 0
  pub read_exact : ℕ → S → S × Result (Option (List ℕ))
  pub write_all : List ℕ → S → S × Result (Unit {0})
  pub flush : S → S × Result (Unit {0})

-- `serde_json::to_vec` and `serde_json::from_slice` at a type.
pub record Codec (T : Type 0) : Type 0 where
  pub to_vec : T → Result (List ℕ)
  pub from_slice : List ℕ → Result T

abbrev pub max_frame : ℕ
max_frame = 8388608

-- `u32::to_be_bytes` and `u32::from_be_bytes`.
unfoldable pub to_be_bytes : ℕ → List ℕ
to_be_bytes n = n / 16777216 % 256 ∷ n / 65536 % 256 ∷ n / 256 % 256 ∷ n % 256 ∷ []

be_from : ℕ → List ℕ → ℕ
be_from acc [] = acc
be_from acc (b ∷ bs) = be_from (acc * 256 + b) bs

unfoldable pub from_be_bytes : List ℕ → ℕ
unfolding be_from
from_be_bytes bs = be_from 0 bs

module _ {T : Type 0} (codec : Codec T) where
  -- The length prefix and the body of a message's frame.
  unfoldable pub frame_of : T → Result (List ℕ × List ℕ)
  frame_of msg = do
    bytes ← codec.to_vec msg
    refuse (ltb max_frame (length bytes)) (runtime frame_too_large)
    refuse (leb 4294967296 (length bytes)) (runtime frame_length_overflow)
    ok (to_be_bytes (length bytes), bytes)

  module _ (tcp : Stream) where
    unfoldable pub write_frame : T → tcp.S → tcp.S × Result (Unit {0})
    write_frame msg s = elim (frame_of msg) [
      | err x ↦ (s, err x)
      | ok (len, bytes) ↦
          and_then (and_then (tcp.write_all len s) (λ _ t. tcp.write_all bytes t))
            (λ _ t. tcp.flush t)
    ]

    -- The body of a frame of `len` bytes.
    unfoldable pub read_body : ℕ → tcp.S → tcp.S × Result (Option T)
    read_body len s = and_then (tcp.read_exact len s) λ got t. elim got [
      | none ↦ (t, err io)
      | some buf ↦ (t, codec.from_slice buf >>= λ m. ok (some m))
    ]

    unfoldable pub read_frame : tcp.S → tcp.S × Result (Option T)
    unfolding read_body
    read_frame s = and_then (tcp.read_exact 4 s) λ got t. elim got [
      | none ↦ (t, ok none)
      | some len_buf ↦
          if ltb max_frame (from_be_bytes len_buf)
          then (t, err (runtime frame_too_large))
          else read_body (from_be_bytes len_buf) t
    ]

module _ (requests : Codec Request) (responses : Codec Response) (tcp : Stream) where
  -- The loop's body on what `read_frame` returned; `next` is the rest of the loop.
  unfoldable pub serve_one :
      (tcp.S → RpcEndpoint → Option (tcp.S × RpcEndpoint))
      → Clock
      → RpcEndpoint
      → tcp.S × Result (Option Request)
      → Option (tcp.S × RpcEndpoint)
  serve_one next c e (s, err x) = some (s, e)
  serve_one next c e (s, ok none) = some (s, e)
  serve_one next c e (s, ok (some req)) =
      let h = handle c req e in
      elim h.1 [
        | err x ↦ some (s, h.0)
        | ok resp ↦
            let w = write_frame responses tcp resp s in
            elim w.1 [ err x ↦ some (w.0, h.0) | ok _ ↦ next w.0 h.0 ]
      ]

  -- The loop on fuel, `none` when it runs out; `clock k` is read by the request number `k`.
  unfoldable pub serve_from :
      ℕ → ℕ → (ℕ → Clock) → tcp.S → RpcEndpoint → Option (tcp.S × RpcEndpoint)
  serve_from zero k clock s e = none
  serve_from (suc fuel) k clock s e =
      serve_one (serve_from fuel (suc k) clock) (clock k) e (read_frame requests tcp s)

  unfoldable pub serve_conn : ℕ → (ℕ → Clock) → tcp.S → RpcEndpoint → Option (tcp.S × RpcEndpoint)
  serve_conn fuel clock s e = serve_from fuel 0 clock s e

  -- `RpcClient::call` on its stream.
  unfoldable pub call : Request → tcp.S → tcp.S × Result Response
  call req s = and_then (write_frame requests tcp req s) λ _ t.
      and_then (read_frame responses tcp t)
        λ got u. elim got [ none ↦ (u, err (runtime connection_closed)) | some resp ↦ (u, ok resp) ]
