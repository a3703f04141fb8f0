-- ===== src/Quic/Qpack.antt =====
-- The `ls_qpack` crate, which the repository uses and does not contain: a decoder and an encoder of
-- header lists, each made anew for one stream and without a dynamic table.
use Prim.Native.String.{String}
use wtransport.Prelude.{ℕ, ◌≤◌, ◌≡◌, ◌⊎◌, length, List, [], Option, none, some}
use wtransport.VarInt.{varint_max}

-- `DecoderOutput`
pub data DecoderOutput : Type 0 where
  decoded : List (String × String) → DecoderOutput
  blocked_stream : DecoderOutput

pub record Qpack : Type 0 where
  -- `none` stands for `DecoderError`
  pub decode : ℕ → List ℕ → Option DecoderOutput
  -- the encoded headers, and what is for the encoder stream; `none` where it fails
  pub encode_all : ℕ → List (String × String) → Option (List ℕ × List ℕ)

-- Without a dynamic table no stream is blocked.
abbrev pub Unblocked : Qpack → Type 0
Unblocked p =
    (id : ℕ) (bs : List ℕ)
    → (p.decode id bs ≡ none)
      ⊎ ((hs : List (String × String)) × (p.decode id bs ≡ some (decoded hs)))

-- The headers are encoded to these bytes alone, which decode to them, and fit a frame.
pub record Codes (p : Qpack) (id : ℕ) (headers : List (String × String)) (bs : List ℕ)
    : Type 0 where
  pub encodes : p.encode_all id headers ≡ some (bs, [])
  pub decodes : p.decode id bs ≡ some (decoded headers)
  pub short : length bs ≤ varint_max
