-- ===== src/Wrapper/Deflate.antt =====
-- lib/wrapper.c: compression. `none` is a call of an implementation with a private state that is not
-- its own, or not a state any more. deflateBound is left out.
use genwqe_user.Prelude.{
  ℕ, zero, suc, Bool, true, false, not, ◌||◌, Option, none, some, List, [], ◌==◌, if◌then◌else◌, ℤ,
  pos,
}
use genwqe_user.Zedc.{Flush}
use genwqe_user.Hardware.Buffers.{Zstream}
use genwqe_user.Wrapper.Backend.{
  Zerr, errno, stream_error, unsupported, Zrc, ok, error, is_ok, Impl, sw_impl, hw_impl, Opened,
  opened, failed, Params, Deflaters, Priv, null, freed, of_hw, of_sw, Config, Internal, Out,
}
use genwqe_user.Wrapper.Inflate.{dispatch, through, wrapped}

-- `w->level == Z_NO_COMPRESSION`
abbrev pub is_zero : ℤ → Bool
is_zero (pos zero) = true
is_zero _ = false

-- What deflateCopy makes of the copy, its private state or an error, and the one of the source: the
-- stream that the caller goes on with, which is the source if there is no copy.
abbrev pub copied :
    {H Z X : Type 0}
    → (X → Priv H Z)
    → Bool
    → Zstream
    → Internal H Z
    → Zstream × Opened X × X
    → Out H Z
copied mk true strm w (s, opened y, x) = record {
  rc = ok;
  strm = s;
  state = some (record w { priv_data = mk y });
}
copied mk false strm w (s, opened y, x) = record {
  rc = ok;
  strm = strm;
  state = some (record w { priv_data = mk x });
}
copied mk to_copy strm w (s, failed e, x) = record {
  rc = error e;
  strm = strm;
  state = some (record w { priv_data = mk x });
}

module _ {H Z : Type 0} (b : Deflaters H Z) where
  -- One try of __deflateInit2_.
  abbrev pub try_init : Zstream → Params → Impl → Zstream × Opened (Priv H Z)
  try_init strm p hw_impl = wrapped of_hw (b.hw.deflate_init2 p strm)
  try_init strm p sw_impl = wrapped of_sw (b.sw.deflate_init2 p strm)

  abbrev pub params : Internal H Z → Params
  params w = record {
    level = w.level;
    method = w.method;
    window_bits = w.window_bits;
    mem_level = w.mem_level;
    strategy = w.strategy;
  }

  -- The loop of __deflateInit2_: at most two rounds, the second one in software.
  unfoldable pub init_loop :
      ℕ → Zerr → Zstream → Internal H Z → Zstream × Opened (Priv H Z) × Internal H Z
  init_loop zero e strm w = (strm, failed e, w)
  init_loop (suc retries) e strm w =
      let (s, r) = try_init strm (params w) w.impl in
      elim r [
        | opened p ↦ (s, opened p, w)
        | failed e' ↦ init_loop retries e' s (record w { impl = sw_impl })
      ]

  -- __deflateInit2_; level 0 is left to software.
  abbrev pub init_state : Zstream → Internal H Z → Zstream × Opened (Priv H Z) × Internal H Z
  init_state strm w =
      init_loop 2 stream_error strm (if is_zero w.level then record w { impl = sw_impl } else w)

  abbrev pub started : Zstream × Opened (Priv H Z) × Internal H Z → Out H Z
  started (s, opened p, w) = record { rc = ok; strm = s; state = some (record w { priv_data = p }) }
  started (s, failed e, w) = record { rc = error e; strm = s; state = none }

  -- The state that deflateInit2_ allocates.
  abbrev pub first_state : Config → Params → Internal H Z
  first_state c p = record {
    impl = c.impl;
    priv_data = null;
    allow_switching = false;
    level = p.level;
    method = p.method;
    mem_level = p.mem_level;
    strategy = p.strategy;
    window_bits = p.window_bits;
    gzhead = none;
    dictionary = [];
    dict_length = 0;
  }

  -- deflateInit2_; `memory` is whether calloc grants the state.
  unfoldable pub deflate_init2 : Config → Bool → Params → Zstream → Out H Z
  unfolding init_loop
  deflate_init2 c memory p strm =
      if not memory
      then record { rc = error errno; strm = strm; state = none }
      else started (init_state strm (first_state c p))

  -- __deflateEnd
  unfoldable pub end_state : Zstream → Internal H Z → Option (Zrc × Zstream)
  end_state strm w = dispatch (b.hw.deflate_end strm) (b.sw.deflate_end strm) w.impl w.priv_data

  -- deflateEnd
  abbrev pub ended : Option (Zrc × Zstream) → Option (Out H Z)
  ended none = none
  ended (some (rc, s)) = some (record { rc = rc; strm = s; state = none })

  unfoldable pub deflate_end : Zstream → Internal H Z → Option (Out H Z)
  unfolding end_state
  deflate_end strm w = ended (end_state strm w)

  -- deflateParams from __deflateInit2_ on: if it fails, `priv_data` stays as it is.
  abbrev pub restarted : Zstream × Opened (Priv H Z) × Internal H Z → Out H Z
  restarted (s, opened p, w) = started (s, opened p, w)
  restarted (s, failed e, w) = record { rc = error e; strm = s; state = some w }

  -- deflateParams from __deflateEnd on, which has freed what `priv_data` points to.
  unfoldable pub restart : Internal H Z → Option (Zrc × Zstream) → Option (Out H Z)
  unfolding init_loop
  restart w none = none
  restart w (some (rc, s)) =
      let gone : Internal H Z = record w { priv_data = freed } in
      if not (is_ok rc)
      then some (record { rc = rc; strm = s; state = some gone })
      else some (restarted (init_state (record s { total_in = 0; total_out = 0 }) gone))

  -- deflateParams in hardware mode.
  abbrev pub hw_params : Zstream → Internal H Z → Option (Out H Z)
  hw_params strm w =
      if not (strm.total_in == 0) || not (is_zero w.level)
      then some (record { rc = ok; strm = strm; state = some w })
      else restart w (end_state strm w)

  -- deflateParams
  abbrev pub by_impl : {A : Type 0} → Impl → A → A → A
  by_impl hw_impl h z = h
  by_impl sw_impl h z = z

  unfoldable pub deflate_params : ℤ → ℕ → Zstream → Internal H Z → Option (Out H Z)
  unfolding restart
  deflate_params level strategy strm w =
      let w' : Internal H Z = record w { level = level; strategy = strategy } in
      by_impl w.impl (hw_params strm w')
        (through (λ x. (ok, strm, x)) (b.deflate_params level strategy strm) w')

  -- deflate, deflateReset, deflateSetDictionary, deflateSetHeader and deflatePrime
  unfoldable pub deflate : Flush → Zstream → Internal H Z → Option (Out H Z)
  deflate flush strm w = through (b.hw.deflate flush strm) (b.sw.deflate flush strm) w

  unfoldable pub deflate_reset : Zstream → Internal H Z → Option (Out H Z)
  deflate_reset strm w = through (b.hw.deflate_reset strm) (b.sw.deflate_reset strm) w

  unfoldable pub deflate_set_dictionary : List ℕ → Zstream → Internal H Z → Option (Out H Z)
  deflate_set_dictionary dict strm w =
      through (b.hw.deflate_set_dictionary dict strm) (b.sw.deflate_set_dictionary dict strm) w

  unfoldable pub deflate_set_header : ℕ → Zstream → Internal H Z → Option (Out H Z)
  deflate_set_header head strm w =
      through (b.hw.deflate_set_header head strm) (b.sw.deflate_set_header head strm) w

  unfoldable pub deflate_prime : ℤ → ℤ → Zstream → Internal H Z → Option (Out H Z)
  deflate_prime bits value strm w =
      through (λ x. (error unsupported, strm, x)) (b.deflate_prime bits value strm) w

  -- deflateCopy; `memory` is whether calloc grants the state of the copy.
  unfoldable pub deflate_copy : Bool → Bool → Zstream → Internal H Z → Option (Out H Z)
  deflate_copy memory to_copy strm w =
      let copy =
        dispatch (λ x. copied of_hw to_copy strm w (b.hw.deflate_copy strm x))
          (λ x. copied of_sw to_copy strm w (b.sw.deflate_copy strm x)) w.impl w.priv_data in
      if not memory then some (record { rc = error errno; strm = strm; state = some w }) else copy
