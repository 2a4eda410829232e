-- ===== src/Inflate/TailLaws.antt =====
-- zedc_inflate (lib/inflate.c): the length that it takes the trailer to have.
use genwqe_user.Prelude.{
  ◌≡◌, ◌≢◌, inl, inr, refl, sym, subst, ap, ◌∙◌, not, ◌&&◌, Bool-cases, Option, none, some, List,
  [], ◌∷◌, ℕ, ltb, ◌==◌, if◌then◌else◌, if-cases, length, has_bit,
}
use genwqe_user.Zedc.{Rc, ok, stream_error, Flush, Format, defl, zlib, gzip, is_negative, is_ok}
use genwqe_user.Inflate.Stream.{Inf}
use genwqe_user.Inflate.Output.{flush_output_buffer}
use genwqe_user.Inflate.Trailer.{
  Removal, removed, re_enter, refused, Check, passed, mismatch, rem_trailer, rem_trailer_as,
  trailer_loop, after_check, check_tail, stored, taken, prepare_tail,
}
use genwqe_user.Inflate.Asv.{get_inflate_asv}
use genwqe_user.Inflate.Scratch.{final_eob, post_scratch_upd}
use genwqe_user.Inflate.Run.{
  Cmd, Answer, prepare, expects_end, without_dict, Executed, answered, returned, execute, note_eob,
  by_removal, produce, consume, at_eob, take_answer, after_tries, submit, after_header, inflate_on,
  avail_in_max,
}
use genwqe_user.Inflate.Books.{tail_of, IsValid, Accounts-flush, Balanced-trans, Accounts}
use genwqe_user.Inflate.ScratchLaws.{Layout}
use genwqe_user.Inflate.Accounts.{post_scratch_upd-tail_of}
use genwqe_user.Inflate.Untouched.{
  untouched, flush-Untouched, asv-Untouched, execute-Untouched, prepare-Untouched,
}
use genwqe_user.Inflate.RunLaws.{header-Removes, note_eob-Accounts}
use genwqe_user.Inflate.TrailerEnd.{Fits, TailFits, HasLen, check_tail-HasLen, prepare_tail-Sized}

pub untouched-TailFits : (s t : Inf) → untouched t ≡ untouched s → TailFits s → TailFits t
untouched-TailFits s t e fits = subst Fits (sym (ap (λ (o : Layout × (Format × ℕ)). o.1) e)) fits

pub note_eob-TailFits : (s : Inf) → TailFits s → TailFits (note_eob s)
note_eob-TailFits s fits = if-cases TailFits (final_eob s) (λ _. fits) (λ _. fits)

pub answer-TailFits :
    (a : Answer) (s : Inf) → TailFits s → TailFits (post_scratch_upd (get_inflate_asv a.asv s)).1
answer-TailFits a s fits =
    let s₀ = get_inflate_asv a.asv s in
    subst Fits (sym (post_scratch_upd-tail_of s₀))
      (untouched-TailFits s s₀ (asv-Untouched a s) fits)

abbrev SameTail : Inf → Removal × Inf → Type 0
SameTail s p = tail_of p.1 ≡ tail_of s

after_check-SameTail :
    (cs : List ℕ) (s : Inf) (k : Check)
    → HasLen s.tail.postfx_len k
    → ((t : Inf) → SameTail t (trailer_loop cs t))
    → SameTail s (after_check k cs s (trailer_loop cs))
after_check-SameTail cs s (mismatch rc t) l ih = ap (λ (n : ℕ). (s.format, n)) l
after_check-SameTail cs s (passed t) l ih = ih (taken cs s t) ∙ ap (λ (n : ℕ). (s.format, n)) l

trailer_loop-SameTail : (cs : List ℕ) (s : Inf) → SameTail s (trailer_loop cs s)
unfolding trailer_loop
trailer_loop-SameTail [] s = refl
trailer_loop-SameTail (c ∷ cs) s =
    if-cases (SameTail s) (ltb s.tail.postfx_idx s.tail.postfx_len)
      (λ _.
        after_check-SameTail cs s (check_tail s (stored c s.tail))
          (check_tail-HasLen s (stored c s.tail)) (trailer_loop-SameTail cs))
      (λ _. refl)

-- The trailer loop behind prepare_tail.
loop-TailFits :
    (t : Format) (s : Inf)
    → t ≢ defl
    → s.format ≡ t
    → TailFits s
    → TailFits (trailer_loop s.input (prepare_tail s)).1
loop-TailFits t s n f fits =
    subst Fits (sym (trailer_loop-SameTail s.input (prepare_tail s)))
      (inr (prepare_tail-Sized t s n f fits))

rem_trailer_as-TailFits :
    (t : Format) (s : Inf) → s.format ≡ t → TailFits s → TailFits (rem_trailer_as t s).1
rem_trailer_as-TailFits defl s f fits = fits
rem_trailer_as-TailFits zlib s f fits = loop-TailFits zlib s (λ q. cc) f fits
rem_trailer_as-TailFits gzip s f fits = loop-TailFits gzip s (λ q. cc) f fits

by_removal-state : (p : Removal × Inf) → (by_removal p).1 ≡ p.1
by_removal-state (removed, s) = refl
by_removal-state (re_enter, s) = refl
by_removal-state (refused rc, s) = refl

removal-TailFits : (s : Inf) → TailFits s → TailFits (by_removal (rem_trailer s)).1
unfolding rem_trailer
removal-TailFits s fits =
    subst TailFits (sym (by_removal-state (rem_trailer_as s.format s)))
      (rem_trailer_as-TailFits s.format s refl fits)

abbrev FitsAfter : Rc × Inf → Type 0
FitsAfter p = TailFits p.1

at_eob-TailFits : (s : Inf) → TailFits s → FitsAfter (at_eob s (λ t. (ok, t)))
at_eob-TailFits s fits =
    if-cases FitsAfter (not (s.eob_seen == 0)) (λ _. removal-TailFits s fits) (λ _. fits)

take_answer-TailFits : (a : Answer) (s : Inf) → TailFits s → FitsAfter (take_answer a s)
unfolding take_answer
take_answer-TailFits a s fits =
    let s₁ = (post_scratch_upd (get_inflate_asv a.asv s)).1 in
    let s₂ = produce a.stored s₁ in
    let fits' = answer-TailFits a s fits in
    if-cases FitsAfter (is_negative (post_scratch_upd (get_inflate_asv a.asv s)).0) (λ _. fits')
      (λ _.
        if-cases FitsAfter (ltb s₁.avail_out s₁.outp_returned) (λ _. fits')
          (λ _.
            if-cases FitsAfter (ltb (length s₂.input) s₂.sr.inp_data_offs) (λ _. fits')
              (λ _.
                at_eob-TailFits (note_eob (consume s₂)) (note_eob-TailFits (consume s₂) fits'))))

after_tries-TailFits : (e : Executed) (s : Inf) → TailFits s → FitsAfter (after_tries e s)
after_tries-TailFits (returned rc) s fits = fits
after_tries-TailFits (answered a) s fits = take_answer-TailFits a s fits

submit-TailFits :
    (hw : Cmd → Answer) (flush : Flush) (s : Inf) → TailFits s → FitsAfter (submit hw flush s)
unfolding submit
submit-TailFits hw flush s fits =
    let (c, s₁) = prepare s in
    let skip = expects_end flush s in
    let tries = if skip then 2 else 1 in
    let c' = if skip then without_dict c else c in
    let (e, s₂) = execute hw tries flush c c' (returned stream_error) s₁ in
    after_tries-TailFits e s₂ (
      untouched-TailFits s s₂
        (execute-Untouched hw tries flush c c' (returned stream_error) s₁ ∙ prepare-Untouched s)
        fits)

after_header-TailFits :
    (hw : Cmd → Answer) (flush : Flush) (p : Rc × Inf)
    → TailFits p.1
    → FitsAfter (after_header hw flush p)
after_header-TailFits hw flush (rc, t) fits =
    if-cases FitsAfter (not (is_ok rc)) (λ _. fits)
      (λ _.
        if-cases FitsAfter (has_bit t.data_type 7) (λ _. fits)
          (λ _.
            if-cases FitsAfter (length t.input == 0 && t.scratch_bits == 0) (λ _. fits)
              (λ _. submit-TailFits hw flush t fits)))

abbrev MayFit : Option (Rc × Inf) → Type 0
MayFit none = Unit
MayFit (some p) = FitsAfter p

inflate_on-MayFit :
    (hw : Cmd → Answer) (flush : Flush) (s : Inf)
    → TailFits s
    → IsValid s
    → MayFit (inflate_on hw flush s)
unfolding inflate_on
inflate_on-MayFit hw flush s fits v =
    let s₀ : Inf = record s { flush = flush; sr = record s.sr { inp_data_offs = 0 } } in
    let (rc, s₁) = flush_output_buffer s₀ in
    let a : Accounts s s₁ = Accounts-flush s₀ v in
    let fits₁ : TailFits s₁ = untouched-TailFits s₀ s₁ (flush-Untouched s₀) fits in
    let s₂ = note_eob s₁ in
    let fits₂ : TailFits s₂ = note_eob-TailFits s₁ fits₁ in
    let b : Accounts s s₂ = Balanced-trans a (note_eob-Accounts s₁ a.valid) in
    let h = header-Removes flush s₂ b.valid in
    if-cases MayFit (ltb avail_in_max (length s.input)) (λ _. fits)
      (λ _.
        if-cases MayFit (not (is_ok rc)) (λ _. fits₁)
          (λ _. elim (Bool-cases (s₂.eob_seen == 0)) [
            | inr e ↦ rw e (removal-TailFits s₂ fits₂)
            | inl e ↦ rw e (
                if-cases MayFit (s₂.avail_out == 0) (λ _. fits₂)
                  (λ _.
                    rw h.runs
                      (after_header-TailFits hw flush h.out (subst Fits (sym h.tail) fits₂))))
          ]))

-- On a stream whose header state is one of its format, zedc_inflate keeps, whenever it returns and
-- whatever it returns, that the trailer length is not set yet or is the one of the format.
pub inflate_on-TailFits :
    (hw : Cmd → Answer) (flush : Flush) (s t : Inf) (rc : Rc)
    → TailFits s
    → IsValid s
    → inflate_on hw flush s ≡ some (rc, t)
    → TailFits t
inflate_on-TailFits hw flush s t rc fits v q = subst MayFit q (inflate_on-MayFit hw flush s fits v)
