-- ===== src/Hardware/SetupLaws.antt =====
-- h_deflateInit2_ and h_deflateCopy (lib/hardware.c): the buffers of a stream that is set up or copied.
use genwqe_user.Prelude.{
  ◌-◌, ◌^◌, ◌<◌, ◌≡◌, refl, sym, subst, Bool, true, false, not, ◌&&◌, Option, none, some, ◌==◌,
  if-cases, take, take_all, arith, Bool-cases, inl, inr,
}
use genwqe_user.Fifo.Contents
use genwqe_user.Zedc.{Rc, ok, is_ok, Device, is_zedc}
use genwqe_user.Deflate.Stream.{Stream}
use genwqe_user.Deflate.Setup
use genwqe_user.Deflate.Setup.{Params}
use genwqe_user.Hardware.Buffers.{Zstream, HwState}
use genwqe_user.Hardware.Setup.{
  Config, Granted, with_config, with_state, init2, copied, copy, copy_on,
}
use genwqe_user.Hardware.BufferLaws.{IsValid}
use genwqe_user.Hardware.EndLaws.{IsFresh, init_state-IsFresh, set_format-IsFresh}

-- The buffers of a hardware state behind a stream that has seen no data are valid.
abbrev Sets : Config → Rc × Zstream × Option HwState → Type 0
Sets c (rc, strm, none) = Unit
Sets c (rc, strm, some s) = (s.obuf_total < 2 ^ 32) → IsValid (record { strm = strm; hw = s })

abbrev FreshIf : Rc × Option Stream → Type 0
FreshIf (rc, none) = Unit
FreshIf (rc, some h) = is_ok rc ≡ true → IsFresh h

with_state-Sets :
    (c : Config) (strm : Zstream) (p : Rc × Option Stream)
    → strm.total_in ≡ 0
    → strm.total_out ≡ 0
    → FreshIf p
    → Sets c (with_state c strm p)
with_state-Sets c strm (rc, none) i o f = tt
with_state-Sets c strm (rc, some h) i o f = elim (Bool-cases (is_ok rc)) [
  | inr e ↦ rw e tt
  | inl e ↦ rw e (λ fits.
      let a = f e in
      let b = a.total_in in
      let d = a.total_out in
      record {
        fifo = a.fifo;
        room_in = omega arith;
        room_out = omega arith;
        fits = fits;
        taken = omega (arith, b, i);
        given = omega (arith, d, o);
      })
]

abbrev FreshOk : Rc × Stream → Type 0
FreshOk (rc, h) = is_ok rc ≡ true → IsFresh h

init_on-FreshOk : (granted : Bool) (p : Params) (h : Stream) → FreshOk (Setup.init_on granted p h)
unfolding Setup.init_on
init_on-FreshOk false p h = λ q. absurd (ground arith)
init_on-FreshOk true p h =
    let h₁ = Setup.with_params p (Setup.alloc_workspace true h).1 in
    let r = Setup.set_format (Setup.init_state h₁) in
    let f : IsFresh r.1 = set_format-IsFresh (Setup.init_state h₁) (init_state-IsFresh h₁) in
    if-cases FreshOk (not (is_ok r.0)) (λ e. λ q. absurd (ground arith)) (λ _. λ _. f)

setup-FreshIf :
    (granted : Bool) (p : Params) (c : Config) (zedc : Device)
    → FreshIf (Setup.init2 granted p (some (with_config c zedc)))
unfolding Setup.init2
setup-FreshIf granted p c zedc =
    if-cases FreshIf (is_zedc zedc) (λ _. init_on-FreshOk granted p (with_config c zedc))
      (λ _. λ q. absurd (ground arith))

init2-Sets :
    (c : Config) (granted : Granted) (opened : Option Device) (p : Params) (strm : Zstream)
    → Sets c (init2 c granted opened p strm)
unfolding init2
init2-Sets c granted none p strm = if-cases (Sets c) (not granted.state) (λ _. tt) (λ _. tt)
init2-Sets c granted (some zedc) p strm =
    if-cases (Sets c) (not granted.state) (λ _. tt)
      (λ _.
        if-cases (Sets c) (not (c.ibuf_total == 0) && not granted.ibuf) (λ _. tt)
          (λ _.
            if-cases (Sets c) (not (c.ibuf_total == 0) && not granted.obuf) (λ _. tt)
              (λ _.
                with_state-Sets c (record strm { total_in = 0; total_out = 0 })
                  (Setup.init2 granted.wsp p (some (with_config c zedc))) refl refl
                  (setup-FreshIf granted.wsp p c zedc))))

-- Whenever h_deflateInit2_ gives the stream a hardware state, and its output buffer has fewer than
-- 2^32 bytes, the buffers are valid.
pub init2-IsValid :
    (c : Config) (granted : Granted) (opened : Option Device) (p : Params) (strm t : Zstream)
    (rc : Rc) (s : HwState)
    → s.obuf_total < 2 ^ 32
    → init2 c granted opened p strm ≡ (rc, t, some s)
    → IsValid (record { strm = t; hw = s })
init2-IsValid c granted opened p strm t rc s fits q =
    subst (Sets c) q (init2-Sets c granted opened p strm) fits

abbrev CopyOf : Zstream → HwState → Rc × Option HwState → Type 0
CopyOf strm s (rc, none) = Unit
CopyOf strm s (rc, some t) =
    IsValid (record { strm = strm; hw = t }) × (t.obuf ≡ s.obuf) × (t.ibuf ≡ s.ibuf)

copied-CopyOf :
    (zedc : Device) (h : Stream) (strm : Zstream) (s : HwState)
    → IsValid (record { strm = strm; hw = s })
    → h.out_fifo ≡ s.h.out_fifo
    → h.total_in ≡ s.h.total_in
    → h.total_out ≡ s.h.total_out
    → CopyOf strm s (ok, some (copied zedc h s))
copied-CopyOf zedc h strm s v f i o =
    let r = v.room_out in
    let a : take (s.obuf_total - s.obuf_avail) s.obuf ≡ s.obuf = take_all _ s.obuf (omega arith) in
    let k = v.taken in
    let g = v.given in
    (
      record {
        fifo = subst Contents.IsValid (sym f) v.fifo;
        room_in = v.room_in;
        room_out = rw a r;
        fits = v.fits;
        taken = rw i k;
        given = rw (a, o) g;
      },
      a,
      refl,
    )

copy_on-CopyOf :
    (granted : Granted) (wsp : Bool) (opened : Option Device) (strm : Zstream) (s : HwState)
    → IsValid (record { strm = strm; hw = s })
    → CopyOf strm s (copy_on granted opened s (Setup.copy wsp s.h))
unfolding Setup.copy
copy_on-CopyOf granted false opened strm s v =
    if-cases (CopyOf strm s) (not granted.state) (λ _. tt) (λ _. tt)
copy_on-CopyOf granted true none strm s v =
    if-cases (CopyOf strm s) (not granted.state) (λ _. tt) (λ _. tt)
copy_on-CopyOf granted true (some zedc) strm s v =
    if-cases (CopyOf strm s) (not granted.state) (λ _. tt)
      (λ _.
        if-cases (CopyOf strm s) (not (s.ibuf_total == 0) && not granted.ibuf) (λ _. tt)
          (λ _.
            if-cases (CopyOf strm s) (not (s.obuf_total == 0) && not granted.obuf) (λ _. tt)
              (λ _. copied-CopyOf zedc (Setup.copy true s.h).1 strm s v refl refl refl)))

-- When h_deflateCopy makes a copy of a hardware state with valid buffers, the copy has the bytes
-- of both buffers, though the bytes of the output buffer are counted by its free space only, and
-- its buffers are valid.
pub copy-CopyOf :
    (granted : Granted) (opened : Option Device) (strm : Zstream) (s t : HwState) (rc : Rc)
    → IsValid (record { strm = strm; hw = s })
    → copy granted opened s ≡ (rc, some t)
    → IsValid (record { strm = strm; hw = t }) × (t.obuf ≡ s.obuf) × (t.ibuf ≡ s.ibuf)
unfolding copy
copy-CopyOf granted opened strm s t rc v q =
    subst (CopyOf strm s) q (copy_on-CopyOf granted granted.wsp opened strm s v)
