-- ===== src/Headers.antt =====
-- wtransport-proto/src/headers.rs: the headers of a request or a response. The `HashMap` is the list
-- of its entries, each key once, in the order in which the map goes through them.
pub mod Laws
use Prim.Native.String.{String}
use text.Mathlib.Text.{◌==◌}
use wtransport.Prelude.{
  ℕ, Bool, true, false, List, [], ◌∷◌, Option, none, some, Result, ok, err, Outcome, done, panic,
  bind, assert, expect, if◌then◌else◌,
}
use wtransport.ErrorCode.{ErrorCode}
use wtransport.Ids.StreamId.{StreamId}
use wtransport.Quic.Qpack.{Qpack, DecoderOutput, decoded, blocked_stream}
use wtransport.Frame.{Frame, new_headers}
use wtransport.Frame.Kind.{FrameKind}

abbrev pub Headers : Type 0
Headers = List (String × String)

-- A later value of a key replaces an earlier one.
unfoldable pub insert : String → String → Headers → Headers
insert key value [] = (key, value) ∷ []
insert key value ((k, v) ∷ hs) =
    if k == key then (key, value) ∷ hs else (k, v) ∷ insert key value hs

abbrev collect_into : Headers → List (String × String) → Headers
unfolding insert
collect_into hs [] = hs
collect_into hs ((key, value) ∷ pairs) = collect_into (insert key value hs) pairs

-- `FromIterator`
unfoldable pub from_iter : List (String × String) → Headers
unfolding collect_into
from_iter pairs = collect_into [] pairs

unfoldable pub get : String → Headers → Option String
get key [] = none
get key ((k, v) ∷ hs) = if k == key then some v else get key hs

abbrev pub is_headers : FrameKind → Bool
is_headers FrameKind.headers = true
is_headers _ = false

abbrev pub of_output : Option DecoderOutput → Outcome (Result Headers ErrorCode)
unfolding from_iter
of_output none = done (err ErrorCode.decompression)
of_output (some (decoded headers)) = done (ok (from_iter headers))
of_output (some blocked_stream) = panic

unfoldable pub with_frame : Qpack → Frame → StreamId → Outcome (Result Headers ErrorCode)
unfolding of_output
with_frame p frame stream_id =
    bind (assert (is_headers frame.kind)) λ _. of_output (p.decode stream_id.varint frame.payload)

abbrev is_empty : List ℕ → Bool
is_empty [] = true
is_empty (b ∷ bs) = false

unfoldable pub generate_frame : Qpack → Headers → StreamId → Outcome Frame
unfolding new_headers
generate_frame p headers stream_id =
    bind (expect (p.encode_all stream_id.varint headers))
      λ (enc_headers, enc_stream). bind (assert (is_empty enc_stream)) λ _. new_headers enc_headers
