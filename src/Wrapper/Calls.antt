-- ===== src/Wrapper/Calls.antt =====
-- lib/wrapper.c: any calls on a stream for decompression, one after the other.
use genwqe_user.Prelude.{ℕ, Option, none, some, List, [], ◌∷◌, ℤ}
use genwqe_user.Zedc.{Flush}
use genwqe_user.Hardware.Buffers.{Zstream}
use genwqe_user.Wrapper.Backend.{Zrc, Backends, Config, Internal, Out}
use genwqe_user.Wrapper.Inflate
use genwqe_user.Wrapper.Switch

-- The calls that a caller can make.
pub data Op : Type 0 where
  inflate : Flush → Op
  inflate_reset inflate_get_dictionary inflate_sync inflate_end : Op
  inflate_reset2 : ℤ → Op
  inflate_set_dictionary : List ℕ → Op
  inflate_get_header : ℕ → Op
  inflate_prime : ℤ → ℤ → Op

-- A call, with what the caller does to the public fields of the stream before it.
pub record Call : Type 0 where
  pub prepare : Zstream → Zstream
  pub op : Op

module _ {H Z : Type 0} (b : Backends H Z) (c : Config) where
  abbrev pub answer : Zstream → Internal H Z → Option (Zrc × List ℕ) → Option (Out H Z)
  answer strm w none = none
  answer strm w (some (rc, dict)) = some (record { rc = rc; strm = strm; state = some w })

  unfoldable pub apply : Op → Zstream → Internal H Z → Option (Out H Z)
  apply (inflate flush) strm w = Switch.inflate b c flush strm w
  apply inflate_reset strm w = Inflate.inflate_reset b strm w
  apply inflate_get_dictionary strm w = answer strm w (Inflate.inflate_get_dictionary b w)
  apply inflate_sync strm w = Inflate.inflate_sync b strm w
  apply inflate_end strm w = Inflate.inflate_end b strm w
  apply (inflate_reset2 bits) strm w = Inflate.inflate_reset2 b bits strm w
  apply (inflate_set_dictionary dict) strm w = Inflate.inflate_set_dictionary b dict strm w
  apply (inflate_get_header head) strm w = Inflate.inflate_get_header b head strm w
  apply (inflate_prime bits value) strm w = Inflate.inflate_prime b bits value strm w

  -- A stream without a state is not used any more.
  unfoldable pub run : List Call → Out H Z → Option (Out H Z)
  unfolding apply
  run [] o = some o
  run (x ∷ xs) o = elim o.state [
    | none ↦ some o
    | some w ↦ elim (apply x.op (x.prepare o.strm) w) [ none ↦ none | some p ↦ run xs p ]
  ]
