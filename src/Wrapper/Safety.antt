-- ===== src/Wrapper/Safety.antt =====
-- lib/wrapper.c: no call gets to an implementation with a private state that is not its own.
use genwqe_user.Prelude.{
  ℕ, zero, suc, ◌≤◌, ◌≡◌, refl, true, false, ◌||◌, Option, none, some, List, arith, length,
  if-cases, ℤ,
}
use genwqe_user.Hardware.Buffers.{Zstream}
use genwqe_user.Wrapper.Backend.{
  Zerr, Zrc, ok, is_ok, Impl, sw_impl, hw_impl, is_hw, Opened, opened, failed, Backends, Priv, null,
  freed, of_hw, of_sw, Internal, Out,
}
use genwqe_user.Wrapper.Inflate.{max_dict_len, dispatch, keep, through, try_init, init_loop}
use genwqe_user.Wrapper.Inflate

abbrev pub Matches : {H Z : Type 0} → Impl → Priv H Z → Type 0
Matches hw_impl (of_hw x) = Unit
Matches sw_impl (of_sw x) = Unit
Matches _ _ = ⊥

-- The private state is one of the implementation in use, and the copy of the dictionary fits.
abbrev pub Sound : {H Z : Type 0} → Internal H Z → Type 0
Sound w = Matches w.impl w.priv_data × (w.dict_length ≤ 32768)

abbrev pub SoundState : {H Z : Type 0} → Option (Internal H Z) → Type 0
SoundState none = Unit
SoundState (some w) = Sound w

abbrev pub Safe : {H Z : Type 0} → Option (Out H Z) → Type 0
Safe none = ⊥
Safe (some o) = SoundState o.state

pub dispatch-cases :
    {H Z A : Type 0} (P : Option A → Type 0) (h : H → A) (z : Z → A) (i : Impl) (p : Priv H Z)
    → Matches i p
    → ((x : H) → i ≡ hw_impl → P (some (h x)))
    → ((x : Z) → i ≡ sw_impl → P (some (z x)))
    → P (dispatch h z i p)
dispatch-cases P h z hw_impl (of_hw x) m f g = f x refl
dispatch-cases P h z sw_impl (of_sw x) m f g = g x refl
dispatch-cases P h z hw_impl null m f g = absurd m
dispatch-cases P h z hw_impl freed m f g = absurd m
dispatch-cases P h z hw_impl (of_sw x) m f g = absurd m
dispatch-cases P h z sw_impl null m f g = absurd m
dispatch-cases P h z sw_impl freed m f g = absurd m
dispatch-cases P h z sw_impl (of_hw x) m f g = absurd m

pub through-Safe :
    {H Z : Type 0} (h : H → Zrc × Zstream × H) (z : Z → Zrc × Zstream × Z) (w : Internal H Z)
    → Sound w
    → Safe (through h z w)
through-Safe h z w s =
    dispatch-cases Safe (λ x. keep of_hw w (h x)) (λ x. keep of_sw w (z x)) w.impl w.priv_data s.0
      (λ x e. (rw e tt, s.1)) (λ x e. (rw e tt, s.1))

-- What is opened is a state of the implementation `i`.
unfoldable pub OpensIn : {H Z : Type 0} → Impl → Opened (Priv H Z) → Type 0
OpensIn i (opened p) = Matches i p
OpensIn i (failed e) = Unit

pub wrapped-OpensIn :
    {H Z X : Type 0} (mk : X → Priv H Z) (i : Impl)
    → ((x : X) → Matches i (mk x))
    → (r : Zstream × Opened X) → OpensIn i (Inflate.wrapped mk r).1
unfolding OpensIn
wrapped-OpensIn mk i m (s, opened x) = m x
wrapped-OpensIn mk i m (s, failed e) = tt

module _ {H Z : Type 0} (b : Backends H Z) where
  clear_totals-Safe : (r : Option (Out H Z)) → Safe r → Safe (Inflate.clear_totals b r)
  clear_totals-Safe none s = s
  clear_totals-Safe (some o) s = s

  pub reset-Safe :
      (strm : Zstream) (w : Internal H Z) → Sound w → Safe (Inflate.inflate_reset b strm w)
  unfolding Inflate.inflate_reset
  reset-Safe strm w s =
      clear_totals-Safe _
        (through-Safe (b.hw.inflate_reset strm) (b.sw.inflate_reset strm) _ (s.0, omega arith))

  pub reset2-Safe :
      (bits : ℤ) (strm : Zstream) (w : Internal H Z)
      → Sound w
      → Safe (Inflate.inflate_reset2 b bits strm w)
  unfolding Inflate.inflate_reset2
  reset2-Safe bits strm w s = clear_totals-Safe _ (
      through-Safe (b.hw.inflate_reset2 bits strm) (b.sw.inflate_reset2 bits strm) _
        (s.0, omega arith))

  pub set_dictionary-Safe :
      (dict : List ℕ) (strm : Zstream) (w : Internal H Z)
      → length dict ≤ 32768
      → Sound w
      → Safe (Inflate.inflate_set_dictionary b dict strm w)
  unfolding Inflate.inflate_set_dictionary
  set_dictionary-Safe dict strm w h s =
      through-Safe (b.hw.inflate_set_dictionary dict strm) (b.sw.inflate_set_dictionary dict strm) _
        (if-cases Sound (is_hw w.impl || b.has_get_dictionary) (λ _. s) (λ _. (s.0, h)))

  pub get_header-Safe :
      (head : ℕ) (strm : Zstream) (w : Internal H Z)
      → Sound w
      → Safe (Inflate.inflate_get_header b head strm w)
  unfolding Inflate.inflate_get_header
  get_header-Safe head strm w s =
      through-Safe (b.hw.inflate_get_header head strm) (b.sw.inflate_get_header head strm) _ s

  pub prime-Safe :
      (bits value : ℤ) (strm : Zstream) (w : Internal H Z)
      → Sound w
      → Safe (Inflate.inflate_prime b bits value strm w)
  unfolding Inflate.inflate_prime
  prime-Safe bits value strm w s = through-Safe _ (b.inflate_prime bits value strm) w s

  pub sync-Safe :
      (strm : Zstream) (w : Internal H Z) → Sound w → Safe (Inflate.inflate_sync b strm w)
  unfolding Inflate.inflate_sync
  sync-Safe strm w s = through-Safe _ (b.inflate_sync strm) w s

  -- __inflateEnd gets to the implementation.
  unfoldable pub Ended : {A : Type 0} → Option A → Type 0
  Ended none = ⊥
  Ended (some a) = Unit

  pub end_state-Ended :
      (strm : Zstream) (w : Internal H Z) → Sound w → Ended (Inflate.end_state b strm w)
  unfolding Inflate.end_state Ended
  end_state-Ended strm w s =
      dispatch-cases Ended (b.hw.inflate_end strm) (b.sw.inflate_end strm) w.impl w.priv_data s.0
        (λ x e. tt) (λ x e. tt)

  pub end-Safe : (strm : Zstream) (w : Internal H Z) → Sound w → Safe (Inflate.inflate_end b strm w)
  unfolding Inflate.inflate_end Inflate.end_state
  end-Safe strm w s =
      dispatch-cases
        (λ r. Safe {H = H} {Z = Z} (elim r [
          | none ↦ none
          | some (rc, t) ↦ some (record { rc = rc; strm = t; state = none })
        ]))
        (b.hw.inflate_end strm) (b.sw.inflate_end strm) w.impl w.priv_data s.0 (λ x e. tt)
        (λ x e. tt)

  try_init-OpensIn : (strm : Zstream) (bits : ℤ) (i : Impl) → OpensIn i (try_init b strm bits i).1
  try_init-OpensIn strm bits hw_impl = wrapped-OpensIn of_hw hw_impl (λ x. tt) _
  try_init-OpensIn strm bits sw_impl = wrapped-OpensIn of_sw sw_impl (λ x. tt) _

  abbrev pub Inits : Zstream × Zrc × Internal H Z → Type 0
  Inits r = is_ok r.1 ≡ true → Sound r.2

  tried :
      (n : ℕ) (s : Zstream) (r : Opened (Priv H Z)) (w : Internal H Z)
      → w.dict_length ≤ 32768
      → OpensIn w.impl r
      → ((e : Zerr)
          → Inits (init_loop b n e s (record w { impl = sw_impl; allow_switching = false })))
      → Inits (elim r [
        | opened p ↦ (s, ok, record w { priv_data = p })
        | failed e' ↦ init_loop b n e' s (record w { impl = sw_impl; allow_switching = false })
      ])
  unfolding OpensIn
  tried n s (opened p) w h m rest x = (m, h)
  tried n s (failed e) w h m rest x = rest e x

  pub init_loop-Inits :
      (n : ℕ) (e : Zerr) (strm : Zstream) (w : Internal H Z)
      → w.dict_length ≤ 32768
      → Inits (init_loop b n e strm w)
  unfolding init_loop
  init_loop-Inits zero e strm w h x = absurd (ground arith)
  init_loop-Inits (suc n) e strm w h x =
      let r = try_init b strm w.window_bits w.impl in
      tried n r.0 r.1 w h (try_init-OpensIn strm w.window_bits w.impl)
        (λ e'. init_loop-Inits n e' r.0 (record w { impl = sw_impl; allow_switching = false }) h) x
