-- ===== src/Wrapper/Switch.antt =====
-- lib/wrapper.c: inflate, which may change the implementation before the first byte is decompressed.
use genwqe_user.Prelude.{
  ℕ, false, not, ◌&&◌, Option, none, some, List, [], ◌∷◌, length, ◌==◌, ltb, leb, if◌then◌else◌,
}
use genwqe_user.Zedc.{Flush}
use genwqe_user.Hardware.Buffers.{Zstream}
use genwqe_user.Wrapper.Backend.{
  buf_error, Zrc, is_ok, Impl, sw_impl, is_hw, Backends, freed, Config, Internal, Out,
}
use genwqe_user.Wrapper.Inflate.{
  refuse, through, init_state, inflate_set_dictionary, inflate_get_dictionary, inflate_get_header,
  end_state, inflate_end,
}

-- Return from inflate, or go on with it.
pub data Flow (H Z : Type 0) : Type 0 where
  stop : Out H Z → Flow H Z
  go : Zstream → Internal H Z → Flow H Z

abbrev pub flow_of : {H Z : Type 0} → Out H Z → Option (Internal H Z) → Flow H Z
flow_of o none = stop o
flow_of o (some w) = go o.strm w

abbrev pub go_on : {H Z : Type 0} → Out H Z → Flow H Z
go_on o = flow_of (record o { state = none }) o.state

-- The implementation to change to, if any.
unfoldable pub target : {H Z : Type 0} → Config → Zstream → Internal H Z → Option Impl
target c strm w =
    if ltb (length strm.input) c.threshold && is_hw w.impl
    then some sw_impl
    else if leb c.threshold (length strm.input) && (not (is_hw w.impl) && is_hw c.impl)
    then some c.impl
    else none

module _ {H Z : Type 0} (b : Backends H Z) where
  -- The dictionary is set again; if that fails, inflateEnd.
  abbrev pub give_up : Zrc → Zstream → Option (Internal H Z) → Option (Flow H Z)
  give_up rc strm none = some (stop (record { rc = rc; strm = strm; state = none }))
  give_up rc strm (some w) = elim (inflate_end b strm w) [
    | none ↦ none
    | some o ↦ some (stop (record o { rc = rc }))
  ]

  abbrev pub dict_set : Option (Out H Z) → Option (Flow H Z)
  dict_set none = none
  dict_set (some o) = if is_ok o.rc then some (go_on o) else give_up o.rc o.strm o.state

  abbrev pub restore_dict : List ℕ → Flow H Z → Option (Flow H Z)
  restore_dict dict (stop o) = some (stop o)
  restore_dict [] (go strm w) = some (go strm w)
  restore_dict (x ∷ xs) (go strm w) = dict_set (inflate_set_dictionary b (x ∷ xs) strm w)

  -- The gzip header is asked for again; the result of that is ignored.
  abbrev pub header_set : List ℕ → Option (Out H Z) → Option (Flow H Z)
  header_set dict none = none
  header_set dict (some o) = restore_dict dict (go_on o)

  abbrev pub restore_header : List ℕ → Option ℕ → Zstream → Internal H Z → Option (Flow H Z)
  restore_header dict none strm w = restore_dict dict (go strm w)
  restore_header dict (some head) strm w = header_set dict (inflate_get_header b head strm w)

  -- From __inflateEnd on.
  unfoldable pub reopen : Impl → List ℕ → Internal H Z → Option (Zrc × Zstream) → Option (Flow H Z)
  reopen t dict w none = none
  reopen t dict w (some (rc, s)) =
      let (s', rc', w') = init_state b s (record w { impl = t; priv_data = freed }) in
      if not (is_ok rc)
      then some (stop (record { rc = rc; strm = s; state = none }))
      else if not (is_ok rc')
      then some (stop (record { rc = rc'; strm = s'; state = none }))
      else restore_header dict w'.gzhead s' w'

  -- From inflateGetDictionary on.
  unfoldable pub close_old :
      Impl → Zstream → Internal H Z → Option (Zrc × List ℕ) → Option (Flow H Z)
  close_old t strm w none = none
  close_old t strm w (some (rc, dict)) =
      if not (is_ok rc)
      then some (stop (record { rc = rc; strm = strm; state = some w }))
      else reopen t dict w (end_state b strm w)

  abbrev pub switch : Config → Zstream → Internal H Z → Option (Flow H Z)
  switch c strm w = elim (target c strm w) [
    | none ↦ some (go strm w)
    | some t ↦ close_old t strm w (inflate_get_dictionary b w)
  ]

  -- The call of the implementation.
  abbrev pub decompress : Flush → Option (Flow H Z) → Option (Out H Z)
  decompress flush none = none
  decompress flush (some (stop o)) = some o
  decompress flush (some (go strm w)) =
      through (b.hw.inflate flush strm) (b.sw.inflate flush strm)
        (record w { allow_switching = false })

  unfoldable pub inflate : Config → Flush → Zstream → Internal H Z → Option (Out H Z)
  unfolding target reopen close_old
  inflate c flush strm w =
      if not (strm.total_in == 0 && w.allow_switching)
      then decompress flush (some (go strm w))
      else if length strm.input == 0
      then refuse buf_error strm (some w)
      else decompress flush (switch c strm w)
