-- ===== src/Wrapper/Inflate.antt =====
-- lib/wrapper.c: inflateInit2_ and the calls that go through to the implementation in use. `none` is
-- a call of an implementation with a private state that is not its own, or not a state any more.
use genwqe_user.Prelude.{
  ℕ, zero, suc, ◌*◌, Bool, true, false, not, ◌&&◌, ◌||◌, Option, none, some, List, [], length, take,
  leb, if◌then◌else◌, ℤ, pos,
}
use genwqe_user.Hardware.Buffers.{Zstream}
use genwqe_user.Wrapper.Backend.{
  Zerr, mem_error, stream_error, unsupported, Zrc, ok, error, is_ok, Impl, sw_impl, hw_impl, is_hw,
  Opened, opened, failed, Backends, Priv, null, of_hw, of_sw, Config, Internal, Out,
}

-- ZLIB_MAXDICTLEN
abbrev pub max_dict_len : ℕ
max_dict_len = 32 * 1024

-- `strm->state = w->priv_data`, then a function of the implementation in use.
abbrev pub dispatch : {H Z A : Type 0} → (H → A) → (Z → A) → Impl → Priv H Z → Option A
dispatch h z hw_impl (of_hw x) = some (h x)
dispatch h z sw_impl (of_sw x) = some (z x)
dispatch h z _ _ = none

-- The same for a function that goes on with its private state, which is put back into `w`.
abbrev pub keep : {H Z X : Type 0} → (X → Priv H Z) → Internal H Z → Zrc × Zstream × X → Out H Z
keep mk w r = record { rc = r.0; strm = r.1; state = some (record w { priv_data = mk r.2 }) }

abbrev pub through :
    {H Z : Type 0}
    → (H → Zrc × Zstream × H)
    → (Z → Zrc × Zstream × Z)
    → Internal H Z
    → Option (Out H Z)
through h z w = dispatch (λ x. keep of_hw w (h x)) (λ x. keep of_sw w (z x)) w.impl w.priv_data

-- A call that does not get to an implementation.
abbrev pub refuse : {H Z : Type 0} → Zerr → Zstream → Option (Internal H Z) → Option (Out H Z)
refuse e strm state = some (record { rc = error e; strm = strm; state = state })

-- What one implementation gives, as a private state of the wrapper.
abbrev pub wrapped :
    {H Z X : Type 0} → (X → Priv H Z) → Zstream × Opened X → Zstream × Opened (Priv H Z)
wrapped mk (s, opened x) = (s, opened (mk x))
wrapped mk (s, failed e) = (s, failed e)

module _ {H Z : Type 0} (b : Backends H Z) where
  -- One try of __inflateInit2_.
  abbrev pub try_init : Zstream → ℤ → Impl → Zstream × Opened (Priv H Z)
  try_init strm bits hw_impl = wrapped of_hw (b.hw.inflate_init2 bits strm)
  try_init strm bits sw_impl = wrapped of_sw (b.sw.inflate_init2 bits strm)

  -- __inflateInit2_: a loop with at most two rounds, the second one in software.
  unfoldable pub init_loop : ℕ → Zerr → Zstream → Internal H Z → Zstream × Zrc × Internal H Z
  init_loop zero e strm w = (strm, error e, w)
  init_loop (suc retries) e strm w =
      let (s, r) = try_init strm w.window_bits w.impl in
      elim r [
        | opened p ↦ (s, ok, record w { priv_data = p })
        | failed e' ↦ init_loop retries e' s (record w { impl = sw_impl; allow_switching = false })
      ]

  abbrev pub init_state : Zstream → Internal H Z → Zstream × Zrc × Internal H Z
  init_state strm w = init_loop 2 stream_error strm w

  -- inflateInit2_; `memory` is whether the two calls of calloc are granted.
  unfoldable pub inflate_init2 : Config → Bool × Bool → ℤ → Zstream → Out H Z
  unfolding init_loop
  inflate_init2 c memory bits strm =
      let reset : Zstream = record strm { total_in = 0; total_out = 0 } in
      let w : Internal H Z = record {
        impl = c.impl;
        priv_data = null;
        allow_switching = true;
        level = pos 0;
        method = 0;
        mem_level = 0;
        strategy = 0;
        window_bits = bits;
        gzhead = none;
        dictionary = [];
        dict_length = 0;
      } in
      let (s, rc, w') = init_state reset w in
      if not memory.0 || (not b.has_get_dictionary && not memory.1)
      then record { rc = error mem_error; strm = reset; state = none }
      else record { rc = rc; strm = s; state = if is_ok rc then some w' else none }

  -- inflateReset and inflateReset2 on a stream of the wrapper: the totals go back to 0 afterwards.
  abbrev pub clear_totals : Option (Out H Z) → Option (Out H Z)
  clear_totals none = none
  clear_totals (some o) = some (record o { strm = record o.strm { total_in = 0; total_out = 0 } })

  unfoldable pub inflate_reset : Zstream → Internal H Z → Option (Out H Z)
  inflate_reset strm w = clear_totals (
      through (b.hw.inflate_reset strm) (b.sw.inflate_reset strm)
        (record w { allow_switching = true; gzhead = none; dict_length = 0 }))

  unfoldable pub inflate_reset2 : ℤ → Zstream → Internal H Z → Option (Out H Z)
  inflate_reset2 bits strm w = clear_totals (
      through (b.hw.inflate_reset2 bits strm) (b.sw.inflate_reset2 bits strm)
        (record w { allow_switching = true; dict_length = 0 }))

  -- inflateSetDictionary
  unfoldable pub inflate_set_dictionary : List ℕ → Zstream → Internal H Z → Option (Out H Z)
  inflate_set_dictionary dict strm w =
      let copied : Internal H Z = record w {
        dictionary = take max_dict_len dict;
        dict_length = length dict;
      } in
      through (b.hw.inflate_set_dictionary dict strm) (b.sw.inflate_set_dictionary dict strm)
        (if is_hw w.impl || b.has_get_dictionary then w else copied)

  -- The copy of the dictionary; `none` is a read behind the end of the buffer.
  abbrev pub read_copy : Internal H Z → Option (Zrc × List ℕ)
  read_copy w =
      if leb w.dict_length max_dict_len then some (ok, take w.dict_length w.dictionary) else none

  -- inflateGetDictionary: the code and the dictionary.
  unfoldable pub inflate_get_dictionary : Internal H Z → Option (Zrc × List ℕ)
  inflate_get_dictionary w =
      let below =
        dispatch b.hw.inflate_get_dictionary b.sw.inflate_get_dictionary w.impl w.priv_data in
      if is_hw w.impl || b.has_get_dictionary then below else read_copy w

  -- inflateGetHeader
  unfoldable pub inflate_get_header : ℕ → Zstream → Internal H Z → Option (Out H Z)
  inflate_get_header head strm w =
      through (b.hw.inflate_get_header head strm) (b.sw.inflate_get_header head strm)
        (record w { gzhead = some head })

  -- inflatePrime and inflateSync
  unfoldable pub inflate_prime : ℤ → ℤ → Zstream → Internal H Z → Option (Out H Z)
  inflate_prime bits value strm w =
      through (λ x. (error unsupported, strm, x)) (b.inflate_prime bits value strm) w

  unfoldable pub inflate_sync : Zstream → Internal H Z → Option (Out H Z)
  inflate_sync strm w = through (λ x. (error unsupported, strm, x)) (b.inflate_sync strm) w

  -- __inflateEnd; afterwards `priv_data` is a pointer to memory that was freed.
  unfoldable pub end_state : Zstream → Internal H Z → Option (Zrc × Zstream)
  end_state strm w = dispatch (b.hw.inflate_end strm) (b.sw.inflate_end strm) w.impl w.priv_data

  -- inflateEnd
  unfoldable pub inflate_end : Zstream → Internal H Z → Option (Out H Z)
  unfolding end_state
  inflate_end strm w = elim (end_state strm w) [
    | none ↦ none
    | some (rc, s) ↦ some (record { rc = rc; strm = s; state = none })
  ]
