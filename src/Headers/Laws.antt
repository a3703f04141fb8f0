-- ===== src/Headers/Laws.antt =====
-- Headers that are written to a frame and read back.
use wtransport.Prelude.{ℕ, ◌≡◌, refl, inl, inr, le→leb, List, none, Result, ok, err, done}
use wtransport.ErrorCode.{ErrorCode}
use wtransport.Ids.StreamId.{StreamId}
use wtransport.Quic.Qpack.{Qpack, Unblocked, Codes}
use wtransport.Frame.{Frame, new, new_headers}
use wtransport.Frame.Kind.{headers}
use wtransport.Frame.Wire.{IsFrame}
use wtransport.Headers.{Headers, from_iter, with_frame, generate_frame}

abbrev pub headers_frame : List ℕ → Frame
headers_frame bs = record { kind = headers; payload = bs; session_id = none }

pub headers_frame-IsFrame :
    (p : Qpack) (id : ℕ) (hs : Headers) (bs : List ℕ)
    → Codes p id hs bs
    → IsFrame (headers_frame bs)
headers_frame-IsFrame p id hs bs c = record { kind_ok = tt; short = c.short; shape = refl }

-- Headers become a frame of their encoding, and the frame gives them back as they are collected.
pub with_frame-generate_frame :
    (p : Qpack) (id : StreamId) (hs : Headers) (bs : List ℕ)
    → Codes p id.varint hs bs
    → (generate_frame p hs id ≡ done (headers_frame bs))
      × (with_frame p (headers_frame bs) id ≡ done (ok (from_iter hs)))
unfolding generate_frame with_frame new_headers new
with_frame-generate_frame p id hs bs c =
    (rw (c.encodes, le→leb _ _ c.short) refl, rw (c.decodes) refl)

-- On a headers frame `with_frame` returns where no stream is blocked.
pub with_frame_total :
    (p : Qpack) (f : Frame) (id : StreamId)
    → Unblocked p
    → f.kind ≡ headers
    → (x : Result Headers ErrorCode) × (with_frame p f id ≡ done x)
unfolding with_frame
with_frame_total p f id free k = elim (free id.varint f.payload) [
  | inl e ↦ (err ErrorCode.decompression, rw (k, e) refl)
  | inr (hs, e) ↦ (ok (from_iter hs), rw (k, e) refl)
]
