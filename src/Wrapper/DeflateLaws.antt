-- ===== src/Wrapper/DeflateLaws.antt =====
-- lib/wrapper.c: starting, restarting and copying a stream for compression.
use genwqe_user.Prelude.{
  ℕ, zero, suc, ◌≤◌, ◌≡◌, Bool, true, false, not, ◌||◌, Option, none, some, arith, ◌==◌, if-cases,
  ℤ,
}
use genwqe_user.Hardware.Buffers.{Zstream}
use genwqe_user.Wrapper.Backend.{
  Zerr, stream_error, Zrc, is_ok, Impl, sw_impl, hw_impl, Opened, opened, failed, Params, Deflaters,
  Priv, freed, of_hw, of_sw, Config, Internal, Out,
}
use genwqe_user.Wrapper.Deflate
use genwqe_user.Wrapper.DeflateCalls.{Op, breaks}
use genwqe_user.Wrapper.Safety.{
  Matches, Sound, SoundState, Safe, dispatch-cases, through-Safe, OpensIn, wrapped-OpensIn,
}

-- The call is one of the right implementation, and the stream is sound unless deflateParams failed.
abbrev pub Kept : {H Z : Type 0} → Op → Option (Out H Z) → Type 0
Kept op none = ⊥
Kept op (some o) = breaks op o.rc ≡ false → SoundState o.state

abbrev pub Defined : {A : Type 0} → Option A → Type 0
Defined none = ⊥
Defined (some a) = Unit

pub Safe-Kept : {H Z : Type 0} (op : Op) (r : Option (Out H Z)) → Safe r → Kept op r
Safe-Kept op none s = s
Safe-Kept op (some o) s = λ e. s

copied-Sound :
    {H Z X : Type 0} (mk : X → Priv H Z) (to_copy : Bool) (strm : Zstream) (w : Internal H Z)
    (r : Zstream × Opened X × X)
    → ((x : X) → Matches w.impl (mk x))
    → w.dict_length ≤ 32768
    → SoundState (Deflate.copied mk to_copy strm w r).state
copied-Sound mk true strm w (s, opened y, x) m h = (m y, h)
copied-Sound mk false strm w (s, opened y, x) m h = (m x, h)
copied-Sound mk true strm w (s, failed e, x) m h = (m x, h)
copied-Sound mk false strm w (s, failed e, x) m h = (m x, h)

module _ {H Z : Type 0} (b : Deflaters H Z) where
  -- A private state that was opened is one of the implementation that `w` then names.
  abbrev Starts : Zstream × Opened (Priv H Z) × Internal H Z → Type 0
  Starts r = OpensIn r.2.impl r.1 × (r.2.dict_length ≤ 32768)

  try_init-OpensIn :
      (strm : Zstream) (p : Params) (i : Impl) → OpensIn i (Deflate.try_init b strm p i).1
  try_init-OpensIn strm p hw_impl = wrapped-OpensIn of_hw hw_impl (λ x. tt) _
  try_init-OpensIn strm p sw_impl = wrapped-OpensIn of_sw sw_impl (λ x. tt) _

  init_loop-Starts :
      (n : ℕ) (e : Zerr) (strm : Zstream) (w : Internal H Z)
      → w.dict_length ≤ 32768
      → Starts (Deflate.init_loop b n e strm w)
  unfolding Deflate.init_loop OpensIn
  init_loop-Starts zero e strm w h = (tt, h)
  init_loop-Starts (suc n) e strm w h =
      let r = Deflate.try_init b strm (Deflate.params b w) w.impl in
      tried r.1 (try_init-OpensIn strm (Deflate.params b w) w.impl)
        (λ e'. init_loop-Starts n e' r.0 (record w { impl = sw_impl }) h)
    where
      tried :
          (r : Opened (Priv H Z))
          → OpensIn w.impl r
          → ((e' : Zerr)
              → Starts (
                  Deflate.init_loop b n e'
                    (Deflate.try_init b strm (Deflate.params b w) w.impl).0
                    (record w { impl = sw_impl })))
          → Starts (elim r [
            | opened p ↦ ((Deflate.try_init b strm (Deflate.params b w) w.impl).0, opened p, w)
            | failed e' ↦
                Deflate.init_loop b n e'
                  (Deflate.try_init b strm (Deflate.params b w) w.impl).0
                  (record w { impl = sw_impl })
          ])
      tried (opened p) m rest = (m, h)
      tried (failed e') m rest = rest e'

  init_state-Starts :
      (strm : Zstream) (w : Internal H Z)
      → w.dict_length ≤ 32768
      → Starts (Deflate.init_state b strm w)
  init_state-Starts strm w h =
      if-cases (λ v. Starts (Deflate.init_loop b 2 stream_error strm v)) (Deflate.is_zero w.level)
        (λ _. init_loop-Starts 2 stream_error strm _ h)
        (λ _. init_loop-Starts 2 stream_error strm w h)

  started-Sound :
      (r : Zstream × Opened (Priv H Z) × Internal H Z)
      → Starts r
      → SoundState (Deflate.started b r).state
  unfolding OpensIn
  started-Sound (s, opened p, w) h = h
  started-Sound (s, failed e, w) h = tt

  pub init2-Sound :
      (c : Config) (memory : Bool) (p : Params) (strm : Zstream)
      → SoundState (Deflate.deflate_init2 b c memory p strm).state
  unfolding Deflate.deflate_init2
  init2-Sound c memory p strm =
      if-cases (λ (o : Out H Z). SoundState o.state) (not memory) (λ _. tt)
        (λ _.
          let w = Deflate.first_state b c p in
          started-Sound (Deflate.init_state b strm w) (init_state-Starts strm w (omega arith)))

  restarted-Kept :
      (level : ℤ) (strategy : ℕ) (r : Zstream × Opened (Priv H Z) × Internal H Z)
      → Starts r
      → Kept (Op.deflate_params level strategy) (some (Deflate.restarted b r))
  unfolding OpensIn
  restarted-Kept level strategy (s, opened p, w) h = λ e. h
  restarted-Kept level strategy (s, failed x, w) h = λ e. absurd (ground arith)

  restart-Kept :
      (level : ℤ) (strategy : ℕ) (w : Internal H Z) (r : Option (Zrc × Zstream))
      → w.dict_length ≤ 32768
      → Defined r
      → Kept (Op.deflate_params level strategy) (Deflate.restart b w r)
  unfolding Deflate.restart
  restart-Kept level strategy w none h d = d
  restart-Kept level strategy w (some (rc, s)) h d =
      if-cases (Kept (Op.deflate_params level strategy)) (not (is_ok rc))
        (λ x e. absurd (ground arith))
        (λ _.
          let t : Zstream = record s { total_in = 0; total_out = 0 } in
          let w' : Internal H Z = record w { priv_data = freed } in
          restarted-Kept level strategy (Deflate.init_state b t w') (init_state-Starts t w' h))

  pub end_state-Defined :
      (strm : Zstream) (w : Internal H Z) → Sound w → Defined (Deflate.end_state b strm w)
  unfolding Deflate.end_state
  end_state-Defined strm w s =
      dispatch-cases Defined (b.hw.deflate_end strm) (b.sw.deflate_end strm) w.impl w.priv_data s.0
        (λ x e. tt) (λ x e. tt)

  pub ended-Safe : (r : Option (Zrc × Zstream)) → Defined r → Safe (Deflate.ended b r)
  ended-Safe none d = d
  ended-Safe (some (rc, s)) d = tt

  by_impl-cases :
      (P : Option (Out H Z) → Type 0) (i : Impl) {h z : Option (Out H Z)}
      → P h
      → P z
      → P (Deflate.by_impl b i h z)
  by_impl-cases P hw_impl x y = x
  by_impl-cases P sw_impl x y = y

  pub params-Kept :
      (level : ℤ) (strategy : ℕ) (strm : Zstream) (w : Internal H Z)
      → Sound w
      → Kept (Op.deflate_params level strategy) (Deflate.deflate_params b level strategy strm w)
  unfolding Deflate.deflate_params
  params-Kept level strategy strm w s =
      let op = Op.deflate_params level strategy in
      let w' : Internal H Z = record w { level = level; strategy = strategy } in
      by_impl-cases (Kept op) w.impl
        (if-cases (Kept op) (not (strm.total_in == 0) || not (Deflate.is_zero level)) (λ _ e. s)
          (λ _.
            restart-Kept level strategy w' (Deflate.end_state b strm w') s.1
              (end_state-Defined strm w' s)))
        (Safe-Kept op _ (through-Safe _ (b.deflate_params level strategy strm) w' s))

  pub copy-Safe :
      (memory to_copy : Bool) (strm : Zstream) (w : Internal H Z)
      → Sound w
      → Safe (Deflate.deflate_copy b memory to_copy strm w)
  unfolding Deflate.deflate_copy
  copy-Safe memory to_copy strm w s =
      if-cases Safe (not memory) (λ _. s)
        (λ _.
          dispatch-cases Safe (λ x. Deflate.copied of_hw to_copy strm w (b.hw.deflate_copy strm x))
            (λ x. Deflate.copied of_sw to_copy strm w (b.sw.deflate_copy strm x)) w.impl w.priv_data
            s.0
            (λ x e. copied-Sound of_hw to_copy strm w (b.hw.deflate_copy strm x) (λ y. rw e tt) s.1)
            (λ x e.
              copied-Sound of_sw to_copy strm w (b.sw.deflate_copy strm x) (λ y. rw e tt) s.1))
