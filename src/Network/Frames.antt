-- ===== src/Network/Frames.antt =====
-- `send_frame` and `receive_frame` of src/network.rs over the bytes of a stream.
use mathlib.Core.List.{append_assoc}
use opencord.Base.{
  ℕ, ◌*◌, ◌^◌, ◌<◌, ◌≡◌, ◌++◌, Option, none, some, leb, if◌then◌else◌, length, take, drop,
  take-append, drop-append, Result, ok, ensure, or_error, ◌>>◌, ◌>>=◌, encode, decode,
  frame_too_long, read_frame, arith, or_error-inv, ensure-inv, ok-injective, subst, leb→le, le→leb,
  length-append,
}
use opencord.Model.{Bytes}
use opencord.Model.ByteId.{be_bytes, be_value, length-be_bytes, be_value-be_bytes}
use opencord.Crates.{Codec, CodecLaw}
use opencord.Network.Wire.{Wire}

abbrev pub max_frame_bytes : ℕ
max_frame_bytes = 16 * 1024 * 1024

-- `read_exact`: the first bytes of the stream and the rest, if there are as many.
unfoldable pub read_exact : ℕ → Bytes → Option (Bytes × Bytes)
read_exact n stream = if leb n (length stream) then some (take n stream, drop n stream) else none

module _ (wire : Codec Wire) where
  -- What `send_frame` writes.
  unfoldable pub send_frame : Wire → Result Bytes
  send_frame frame = do
    bytes ← or_error (wire.to_stdvec frame) encode
    ensure (leb (length bytes) max_frame_bytes) frame_too_long
    ok (be_bytes 4 (length bytes) ++ bytes)

  -- What `receive_frame` makes of a stream: the frame, and what is left to read.
  unfoldable pub receive_frame : Bytes → Result (Wire × Bytes)
  receive_frame stream = do
    (prefix, body) ← or_error (read_exact 4 stream) read_frame
    ensure (leb (be_value prefix) max_frame_bytes) frame_too_long
    (bytes, rest) ← or_error (read_exact (be_value prefix) body) read_frame
    frame ← or_error (wire.from_bytes bytes) decode
    ok (frame, rest)

read_exact-append : (xs ys : Bytes) → read_exact (length xs) (xs ++ ys) ≡ some (xs, ys)
unfolding read_exact
read_exact-append xs ys = rw (
  le→leb (length xs) (length (xs ++ ys)) (omega (arith, length-append xs ys)),
  take-append xs ys,
  drop-append xs ys,
)

-- If the codec decodes what it encodes, what one side sends the other receives, and exactly the
-- bytes of the frame are read.
pub receive_frame-send_frame :
    (wire : Codec Wire) (law : CodecLaw wire) (frame : Wire) (bytes rest : Bytes)
    → send_frame wire frame ≡ ok bytes
    → receive_frame wire (bytes ++ rest) ≡ ok (frame, rest)
unfolding send_frame receive_frame
receive_frame-send_frame wire law frame bytes rest h =
    or_error-inv (wire.to_stdvec frame) _ _ h λ body body_eq h1.
      ensure-inv (leb (length body) max_frame_bytes) _ _ h1 λ fits h2.
        let head = be_bytes 4 (length body) in
        let small : length body < 256 ^ 4 =
          omega (arith, leb→le (length body) max_frame_bytes fits) in
        let value : be_value head ≡ length body = be_value-be_bytes 4 (length body) small in
        let first : read_exact 4 (head ++ (body ++ rest)) ≡ some (head, body ++ rest) =
          subst (λ n. read_exact n (head ++ (body ++ rest)) ≡ some (head, body ++ rest))
            (length-be_bytes 4 (length body)) (read_exact-append head (body ++ rest)) in
        subst (λ b. receive_frame wire (b ++ rest) ≡ ok (frame, rest)) (ok-injective h2)
          (rw (
            append_assoc head body rest,
            first,
            value,
            fits,
            read_exact-append body rest,
            law.from_bytes-to_stdvec frame body body_eq,
          ))
