-- ===== src/Wrapper/DeflateRuns.antt =====
-- lib/wrapper.c: runs of calls on a stream for compression.
use genwqe_user.Prelude.{Bool, Option, none, some, List, [], ◌∷◌, if◌then◌else◌, if-cases}
use genwqe_user.Hardware.Buffers.{Zstream}
use genwqe_user.Wrapper.Backend.{Params, Deflaters, Config, Internal, Out}
use genwqe_user.Wrapper.Deflate
use genwqe_user.Wrapper.DeflateCalls.{Op, Call, breaks}
use genwqe_user.Wrapper.DeflateCalls
use genwqe_user.Wrapper.Safety.{Sound, SoundState, through-Safe}
use genwqe_user.Wrapper.DeflateLaws.{
  Kept, Defined, Safe-Kept, init2-Sound, params-Kept, copy-Safe, end_state-Defined, ended-Safe,
}

module _ {H Z : Type 0} (b : Deflaters H Z) where
  apply-Kept :
      (op : Op) (strm : Zstream) (w : Internal H Z)
      → Sound w
      → Kept op (DeflateCalls.apply b op strm w)
  unfolding DeflateCalls.apply Deflate.deflate Deflate.deflate_reset Deflate.deflate_end
      Deflate.deflate_set_dictionary Deflate.deflate_set_header Deflate.deflate_prime
  apply-Kept (Op.deflate flush) strm w s =
      Safe-Kept (Op.deflate flush) _
        (through-Safe (b.hw.deflate flush strm) (b.sw.deflate flush strm) w s)
  apply-Kept Op.deflate_reset strm w s =
      Safe-Kept Op.deflate_reset _
        (through-Safe (b.hw.deflate_reset strm) (b.sw.deflate_reset strm) w s)
  apply-Kept Op.deflate_end strm w s =
      Safe-Kept Op.deflate_end _
        (ended-Safe b (Deflate.end_state b strm w) (end_state-Defined b strm w s))
  apply-Kept (Op.deflate_set_dictionary dict) strm w s =
      Safe-Kept (Op.deflate_set_dictionary dict) _ (
        through-Safe (b.hw.deflate_set_dictionary dict strm) (b.sw.deflate_set_dictionary dict strm)
          w s)
  apply-Kept (Op.deflate_set_header head) strm w s =
      Safe-Kept (Op.deflate_set_header head) _
        (through-Safe (b.hw.deflate_set_header head strm) (b.sw.deflate_set_header head strm) w s)
  apply-Kept (Op.deflate_prime bits value) strm w s =
      Safe-Kept (Op.deflate_prime bits value) _
        (through-Safe _ (b.deflate_prime bits value strm) w s)
  apply-Kept (Op.deflate_copy memory to_copy) strm w s =
      Safe-Kept (Op.deflate_copy memory to_copy) _ (copy-Safe b memory to_copy strm w s)
  apply-Kept (Op.deflate_params level strategy) strm w s = params-Kept b level strategy strm w s

  calls-Defined :
      (xs : List Call) (o : Out H Z) → SoundState o.state → Defined (DeflateCalls.run b xs o)
  unfolding DeflateCalls.run
  calls-Defined [] o s = tt
  calls-Defined (x ∷ xs) o s =
      with_state o.state s (λ w. apply-Kept x.op (x.prepare o.strm) w) (λ p. calls-Defined xs p)
    where
      next :
          (r : Option (Out H Z))
          → Kept x.op r
          → ((p : Out H Z) → SoundState p.state → Defined (DeflateCalls.run b xs p))
          → Defined (elim r [
            | none ↦ none
            | some p ↦
                let rest = DeflateCalls.run b xs p in if breaks x.op p.rc then some p else rest
          ])
      next none k g = k
      next (some p) k g = if-cases Defined (breaks x.op p.rc) (λ _. tt) (λ e. g p (k e))

      with_state :
          (st : Option (Internal H Z))
          → SoundState st
          → ((w : Internal H Z)
              → Sound w
              → Kept x.op (DeflateCalls.apply b x.op (x.prepare o.strm) w))
          → ((p : Out H Z) → SoundState p.state → Defined (DeflateCalls.run b xs p))
          → Defined (elim st [
            | none ↦ some o
            | some w ↦ elim (DeflateCalls.apply b x.op (x.prepare o.strm) w) [
              | none ↦ none
              | some p ↦
                  let rest = DeflateCalls.run b xs p in if breaks x.op p.rc then some p else rest
            ]
          ])
      with_state none t f g = tt
      with_state (some w) t f g = next (DeflateCalls.apply b x.op (x.prepare o.strm) w) (f w t) g

  -- Over any hardware and software implementation, and after deflateInit2_ with any parameters,
  -- any calls of deflate and the other functions on the stream, with any change of the public
  -- fields between them, up to a call of deflateParams that fails, call an implementation only
  -- with a private state that this implementation gave and that was not freed.
  pub run-Defined :
      (c : Config) (memory : Bool) (p : Params) (strm : Zstream) (xs : List Call)
      → Defined (DeflateCalls.run b xs (Deflate.deflate_init2 b c memory p strm))
  run-Defined c memory p strm xs = calls-Defined xs _ (init2-Sound b c memory p strm)
