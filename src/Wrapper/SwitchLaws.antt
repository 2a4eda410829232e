-- ===== src/Wrapper/SwitchLaws.antt =====
-- lib/wrapper.c: a change of the implementation leaves the stream with a state of the new one, or
-- with none.
use genwqe_user.Prelude.{
  ℕ, ◌≤◌, not, ◌||◌, Option, none, some, List, [], ◌∷◌, arith, length, length-take, leb, if-cases,
}
use genwqe_user.Hardware.Buffers.{Zstream}
use genwqe_user.Wrapper.Backend.{
  stream_error, Zrc, is_ok, Impl, is_hw, Backends, freed, Internal, Out,
}
use genwqe_user.Wrapper.Inflate
use genwqe_user.Wrapper.Switch.{Flow, stop, go}
use genwqe_user.Wrapper.Switch
use genwqe_user.Wrapper.Safety.{
  Sound, SoundState, Safe, dispatch-cases, set_dictionary-Safe, get_header-Safe, Ended,
  end_state-Ended, end-Safe, Inits, init_loop-Inits,
}

abbrev pub SafeFlow : {H Z : Type 0} → Option (Flow H Z) → Type 0
SafeFlow none = ⊥
SafeFlow (some (stop o)) = SoundState o.state
SafeFlow (some (go strm w)) = Sound w

-- Both implementations have dictionaries of at most 32 KiB.
pub record ShortDicts {H Z : Type 0} (b : Backends H Z) : Type 0 where
  pub of_hw : (x : H) → length (b.hw.inflate_get_dictionary x).1 ≤ 32768
  pub of_sw : (x : Z) → length (b.sw.inflate_get_dictionary x).1 ≤ 32768

module _ {H Z : Type 0} (b : Backends H Z) where
  flow_of-Safe :
      (o : Out H Z) (st : Option (Internal H Z))
      → SoundState o.state
      → SoundState st
      → SafeFlow (some (Switch.flow_of o st))
  flow_of-Safe o none s t = s
  flow_of-Safe o (some w) s t = t

  give_up-Safe :
      (rc : Zrc) (strm : Zstream) (st : Option (Internal H Z))
      → SoundState st
      → SafeFlow (Switch.give_up b rc strm st)
  give_up-Safe rc strm none s = tt
  give_up-Safe rc strm (some w) s = ended (Inflate.inflate_end b strm w) (end-Safe b strm w s)
    where
      ended :
          (r : Option (Out H Z))
          → Safe r
          → SafeFlow (elim r [ none ↦ none | some o ↦ some (stop (record o { rc = rc })) ])
      ended none t = t
      ended (some o) t = t

  dict_set-Safe : (r : Option (Out H Z)) → Safe r → SafeFlow (Switch.dict_set b r)
  dict_set-Safe none s = s
  dict_set-Safe (some o) s =
      if-cases SafeFlow (is_ok o.rc) (λ _. flow_of-Safe (record o { state = none }) o.state tt s)
        (λ _. give_up-Safe o.rc o.strm o.state s)

  restore_dict-Safe :
      (dict : List ℕ) (f : Flow H Z)
      → length dict ≤ 32768
      → SafeFlow (some f)
      → SafeFlow (Switch.restore_dict b dict f)
  restore_dict-Safe dict (stop o) h s = s
  restore_dict-Safe [] (go strm w) h s = s
  restore_dict-Safe (x ∷ xs) (go strm w) h s =
      dict_set-Safe _ (set_dictionary-Safe b (x ∷ xs) strm w h s)

  header_set-Safe :
      (dict : List ℕ) (r : Option (Out H Z))
      → length dict ≤ 32768
      → Safe r
      → SafeFlow (Switch.header_set b dict r)
  header_set-Safe dict none h s = s
  header_set-Safe dict (some o) h s =
      restore_dict-Safe dict _ h (flow_of-Safe (record o { state = none }) o.state tt s)

  restore_header-Safe :
      (dict : List ℕ) (head : Option ℕ) (strm : Zstream) (w : Internal H Z)
      → length dict ≤ 32768
      → Sound w
      → SafeFlow (Switch.restore_header b dict head strm w)
  restore_header-Safe dict none strm w h s = restore_dict-Safe dict (go strm w) h s
  restore_header-Safe dict (some head) strm w h s =
      header_set-Safe dict _ h (get_header-Safe b head strm w s)

  reopen-Safe :
      (t : Impl) (dict : List ℕ) (w : Internal H Z) (r : Option (Zrc × Zstream))
      → length dict ≤ 32768
      → w.dict_length ≤ 32768
      → Ended b r
      → SafeFlow (Switch.reopen b t dict w r)
  unfolding Switch.reopen Ended
  reopen-Safe t dict w none h l e = absurd e
  reopen-Safe t dict w (some (rc, s)) h l e =
      let i = Inflate.init_state b s (record w { impl = t; priv_data = freed }) in
      let v : Inits b i = init_loop-Inits b 2 stream_error s _ l in
      if-cases SafeFlow (not (is_ok rc)) (λ _. tt)
        (λ _.
          if-cases SafeFlow (not (is_ok i.1)) (λ _. tt)
            (λ x. restore_header-Safe dict i.2.gzhead i.0 i.2 h (v (ground arith))))

  abbrev pub ShortDict : Option (Zrc × List ℕ) → Type 0
  ShortDict none = ⊥
  ShortDict (some (rc, dict)) = length dict ≤ 32768

  pub get_dictionary-ShortDict :
      (w : Internal H Z) → ShortDicts b → Sound w → ShortDict (Inflate.inflate_get_dictionary b w)
  unfolding Inflate.inflate_get_dictionary
  get_dictionary-ShortDict w h s =
      if-cases ShortDict (is_hw w.impl || b.has_get_dictionary)
        (λ _.
          dispatch-cases ShortDict b.hw.inflate_get_dictionary b.sw.inflate_get_dictionary w.impl
            w.priv_data s.0 (λ x e. h.of_hw x) (λ x e. h.of_sw x))
        (λ _.
          if-cases ShortDict (leb w.dict_length 32768)
            (λ _.
              let z = length-take w.dict_length w.dictionary in let l = s.1 in omega (arith, z, l))
            (λ x. absurd (ground arith)))

  pub close_old-Safe :
      (t : Impl) (strm : Zstream) (w : Internal H Z) (r : Option (Zrc × List ℕ))
      → Sound w
      → ShortDict r
      → SafeFlow (Switch.close_old b t strm w r)
  unfolding Switch.close_old
  close_old-Safe t strm w none s h = h
  close_old-Safe t strm w (some (rc, dict)) s h =
      if-cases SafeFlow (not (is_ok rc)) (λ _. s)
        (λ _. reopen-Safe t dict w (Inflate.end_state b strm w) h s.1 (end_state-Ended b strm w s))
