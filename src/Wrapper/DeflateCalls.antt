-- ===== src/Wrapper/DeflateCalls.antt =====
-- lib/wrapper.c: any calls on a stream for compression, one after the other.
use genwqe_user.Prelude.{ℕ, Bool, false, not, Option, none, some, List, [], ◌∷◌, if◌then◌else◌, ℤ}
use genwqe_user.Zedc.{Flush}
use genwqe_user.Hardware.Buffers.{Zstream}
use genwqe_user.Wrapper.Backend.{Zrc, is_ok, Deflaters, Internal, Out}
use genwqe_user.Wrapper.Deflate

-- The calls that a caller can make. After deflateCopy the caller goes on with the copy or with the
-- source.
pub data Op : Type 0 where
  deflate : Flush → Op
  deflate_reset deflate_end : Op
  deflate_set_dictionary : List ℕ → Op
  deflate_set_header : ℕ → Op
  deflate_prime : ℤ → ℤ → Op
  deflate_params : ℤ → ℕ → Op
  deflate_copy : Bool → Bool → Op

-- A call, with what the caller does to the public fields of the stream before it.
pub record Call : Type 0 where
  pub prepare : Zstream → Zstream
  pub op : Op

-- A call of deflateParams that fails.
abbrev pub breaks : Op → Zrc → Bool
breaks (deflate_params level strategy) rc = not (is_ok rc)
breaks _ rc = false

module _ {H Z : Type 0} (b : Deflaters H Z) where
  unfoldable pub apply : Op → Zstream → Internal H Z → Option (Out H Z)
  apply (deflate flush) strm w = Deflate.deflate b flush strm w
  apply deflate_reset strm w = Deflate.deflate_reset b strm w
  apply deflate_end strm w = Deflate.deflate_end b strm w
  apply (deflate_set_dictionary dict) strm w = Deflate.deflate_set_dictionary b dict strm w
  apply (deflate_set_header head) strm w = Deflate.deflate_set_header b head strm w
  apply (deflate_prime bits value) strm w = Deflate.deflate_prime b bits value strm w
  apply (deflate_copy memory to_copy) strm w = Deflate.deflate_copy b memory to_copy strm w
  apply (deflate_params level strategy) strm w = Deflate.deflate_params b level strategy strm w

  -- A stream without a state is not used any more, nor one whose deflateParams failed.
  unfoldable pub run : List Call → Out H Z → Option (Out H Z)
  unfolding apply
  run [] o = some o
  run (x ∷ xs) o = elim o.state [
    | none ↦ some o
    | some w ↦ elim (apply x.op (x.prepare o.strm) w) [
      | none ↦ none
      | some p ↦ let rest = run xs p in if breaks x.op p.rc then some p else rest
    ]
  ]
