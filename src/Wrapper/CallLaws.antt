-- ===== src/Wrapper/CallLaws.antt =====
-- lib/wrapper.c: runs of calls on a stream for decompression.
use genwqe_user.Prelude.{
  ℕ, ◌≤◌, Bool, true, false, not, ◌&&◌, ◌||◌, Option, none, some, List, [], ◌∷◌, All, arith, length,
  ◌==◌, if-cases, ℤ, pos,
}
use genwqe_user.Zedc.{Flush}
use genwqe_user.Hardware.Buffers.{Zstream}
use genwqe_user.Wrapper.Backend.{
  stream_error, Zrc, is_ok, Impl, Backends, null, Config, Internal, Out,
}
use genwqe_user.Wrapper.Inflate
use genwqe_user.Wrapper.Switch.{Flow, stop, go}
use genwqe_user.Wrapper.Switch
use genwqe_user.Wrapper.Calls.{Op, Call}
use genwqe_user.Wrapper.Calls
use genwqe_user.Wrapper.Safety.{
  Sound, SoundState, Safe, through-Safe, set_dictionary-Safe, get_header-Safe, reset-Safe,
  reset2-Safe, prime-Safe, sync-Safe, end-Safe, Inits, init_loop-Inits,
}
use genwqe_user.Wrapper.SwitchLaws.{
  SafeFlow, ShortDicts, ShortDict, get_dictionary-ShortDict, close_old-Safe,
}

-- A call with a dictionary has one of at most ZLIB_MAXDICTLEN bytes.
abbrev pub ShortOp : Op → Type 0
ShortOp (Op.inflate_set_dictionary dict) = length dict ≤ 32768
ShortOp _ = Unit

abbrev pub ShortCall : Call → Type 0
ShortCall x = ShortOp x.op

module _ {H Z : Type 0} (b : Backends H Z) (c : Config) where
  switch-Safe :
      (strm : Zstream) (w : Internal H Z)
      → ShortDicts b
      → Sound w
      → SafeFlow (Switch.switch b c strm w)
  switch-Safe strm w h s = chosen (Switch.target c strm w)
    where
      chosen :
          (t : Option Impl)
          → SafeFlow (elim t [
            | none ↦ some (go strm w)
            | some t' ↦ Switch.close_old b t' strm w (Inflate.inflate_get_dictionary b w)
          ])
      chosen none = s
      chosen (some t) =
          close_old-Safe b t strm w (Inflate.inflate_get_dictionary b w) s
            (get_dictionary-ShortDict b w h s)

  decompress-Safe :
      (flush : Flush) (f : Option (Flow H Z)) → SafeFlow f → Safe (Switch.decompress b flush f)
  decompress-Safe flush none s = s
  decompress-Safe flush (some (stop o)) s = s
  decompress-Safe flush (some (go strm w)) s =
      through-Safe (b.hw.inflate flush strm) (b.sw.inflate flush strm)
        (record w { allow_switching = false }) s

  inflate-Safe :
      (flush : Flush) (strm : Zstream) (w : Internal H Z)
      → ShortDicts b
      → Sound w
      → Safe (Switch.inflate b c flush strm w)
  unfolding Switch.inflate
  inflate-Safe flush strm w h s =
      if-cases Safe (not (strm.total_in == 0 && w.allow_switching))
        (λ _. decompress-Safe flush (some (go strm w)) s)
        (λ _.
          if-cases Safe (length strm.input == 0) (λ _. s)
            (λ _. decompress-Safe flush (Switch.switch b c strm w) (switch-Safe strm w h s)))

  answer-Safe :
      (strm : Zstream) (w : Internal H Z) (r : Option (Zrc × List ℕ))
      → Sound w
      → ShortDict b r
      → Safe (Calls.answer b c strm w r)
  answer-Safe strm w none s h = h
  answer-Safe strm w (some (rc, dict)) s h = s

  apply-Safe :
      (op : Op) (strm : Zstream) (w : Internal H Z)
      → ShortDicts b
      → ShortOp op
      → Sound w
      → Safe (Calls.apply b c op strm w)
  unfolding Calls.apply
  apply-Safe (Op.inflate flush) strm w h o s = inflate-Safe flush strm w h s
  apply-Safe Op.inflate_reset strm w h o s = reset-Safe b strm w s
  apply-Safe Op.inflate_get_dictionary strm w h o s =
      answer-Safe strm w (Inflate.inflate_get_dictionary b w) s (get_dictionary-ShortDict b w h s)
  apply-Safe Op.inflate_sync strm w h o s = sync-Safe b strm w s
  apply-Safe Op.inflate_end strm w h o s = end-Safe b strm w s
  apply-Safe (Op.inflate_reset2 bits) strm w h o s = reset2-Safe b bits strm w s
  apply-Safe (Op.inflate_set_dictionary dict) strm w h o s = set_dictionary-Safe b dict strm w o s
  apply-Safe (Op.inflate_get_header head) strm w h o s = get_header-Safe b head strm w s
  apply-Safe (Op.inflate_prime bits value) strm w h o s = prime-Safe b bits value strm w s

  calls-Safe :
      (xs : List Call) (o : Out H Z)
      → ShortDicts b
      → All ShortCall xs
      → SoundState o.state
      → Safe (Calls.run b c xs o)
  unfolding Calls.run
  calls-Safe [] o h a s = s
  calls-Safe (x ∷ xs) o h a s =
      with_state o.state s (λ w. apply-Safe x.op (x.prepare o.strm) w h a.0)
        (λ p. calls-Safe xs p h a.1)
    where
      with_state :
          (st : Option (Internal H Z))
          → SoundState st
          → ((w : Internal H Z) → Sound w → Safe (Calls.apply b c x.op (x.prepare o.strm) w))
          → ((p : Out H Z) → SoundState p.state → Safe (Calls.run b c xs p))
          → Safe (elim st [
            | none ↦ some o
            | some w ↦ elim (Calls.apply b c x.op (x.prepare o.strm) w) [
              | none ↦ none
              | some p ↦ Calls.run b c xs p
            ]
          ])
      with_state none t f g = s
      with_state (some w) t f g = called (Calls.apply b c x.op (x.prepare o.strm) w) (f w t) g
        where
          called :
              (r : Option (Out H Z))
              → Safe r
              → ((p : Out H Z) → SoundState p.state → Safe (Calls.run b c xs p))
              → Safe (elim r [ none ↦ none | some p ↦ Calls.run b c xs p ])
          called none u g = u
          called (some p) u g = g p u

  init2-Sound :
      (memory : Bool × Bool) (bits : ℤ) (strm : Zstream)
      → SoundState (Inflate.inflate_init2 b c memory bits strm).state
  unfolding Inflate.inflate_init2
  init2-Sound memory bits strm =
      let w : Internal H Z = record {
        impl = c.impl;
        priv_data = null;
        allow_switching = true;
        level = pos 0;
        method = 0;
        mem_level = 0;
        strategy = 0;
        window_bits = bits;
        gzhead = none;
        dictionary = [];
        dict_length = 0;
      } in
      let i = Inflate.init_state b (record strm { total_in = 0; total_out = 0 }) w in
      let v : Inits b i = init_loop-Inits b 2 stream_error _ w (omega arith) in
      if-cases (λ (o : Out H Z). SoundState o.state)
        (not memory.0 || (not b.has_get_dictionary && not memory.1)) (λ _. tt)
        (λ _. if-cases SoundState (is_ok i.1) v (λ _. tt))

  -- Over a hardware and a software implementation whose dictionaries have at most 32 KiB, and
  -- after inflateInit2_ with any configuration, any calls of inflate and the other functions on
  -- the stream, with dictionaries of at most 32 KiB and with any change of the public fields
  -- between them, call an implementation only with a private state that this implementation gave
  -- and that was not freed, and never read behind the copy of the dictionary; the stream then has
  -- no state or again such a one.
  pub run-Safe :
      (memory : Bool × Bool) (bits : ℤ) (strm : Zstream) (xs : List Call)
      → ShortDicts b
      → All ShortCall xs
      → Safe (Calls.run b c xs (Inflate.inflate_init2 b c memory bits strm))
  run-Safe memory bits strm xs h a = calls-Safe xs _ h a (init2-Sound memory bits strm)
