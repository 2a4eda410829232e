-- ===== src/Inflate/AlignLaws.antt =====
-- zedc_inflate (lib/inflate.c) keeps the layout of the workspace, so that the length that
-- set_inflate_asiv gives the card is exact.
use genwqe_user.Prelude.{
  ℕ, ◌+◌, ◌*◌, ◌^◌, ◌<◌, ◌≡◌, refl, sym, subst, ap, ◌∙◌, not, ◌&&◌, Option, none, some, List, [],
  ◌∷◌, ltb, ◌==◌, if◌then◌else◌, if-cases, length, has_bit, Bool-cases, inl, inr, arith,
}
use genwqe_user.Zedc.{Rc, ok, stream_error, is_negative, is_ok, Flush, Format, defl, zlib, gzip}
use genwqe_user.Inflate.Stream.{Inf}
use genwqe_user.Inflate.Output.{flush_output_buffer}
use genwqe_user.Inflate.Trailer.{
  Removal, removed, re_enter, refused, Check, passed, mismatch, rem_trailer, rem_trailer_as,
  trailer_loop, after_check, check_tail, stored, taken, prepare_tail,
}
use genwqe_user.Inflate.Asv.{get_inflate_asv, set_inflate_asiv}
use genwqe_user.Inflate.Scratch.{final_eob, post_scratch_upd}
use genwqe_user.Inflate.Run.{
  Cmd, Answer, prepare, expects_end, without_dict, Executed, answered, returned, execute, note_eob,
  by_removal, produce, consume, at_eob, take_answer, after_tries, submit, after_header, inflate_on,
  avail_in_max,
}
use genwqe_user.Inflate.Books.{IsValid, Accounts-flush, Balanced-trans, Accounts}
use genwqe_user.Inflate.RunLaws.{header-Removes, note_eob-Accounts}
use genwqe_user.Inflate.Untouched.{
  flush-Untouched, asv-Untouched, execute-Untouched, prepare-Untouched,
}
use genwqe_user.Inflate.ScratchLaws.{
  Layout, layout, Fills, IsAligned, Stays, StaysAligned, post_scratch_upd-StaysAligned,
}

-- On a workspace with that layout and fewer than 2^32 bits, the length in bytes that
-- set_inflate_asiv gives the card is exact: it has all bits of the workspace and no others.
pub set_inflate_asiv-exact :
    (s : Inf)
    → IsAligned s
    → s.sr.hdr_ib + s.sr.tree_bits + s.sr.pad_bits + s.sr.scratch_ib + s.scratch_bits < 2 ^ 32
    → 8 * (set_inflate_asiv s).0.in_scratch_len
      ≡ s.sr.hdr_ib + s.sr.tree_bits + s.sr.pad_bits + s.sr.scratch_ib + s.scratch_bits
unfolding set_inflate_asiv
set_inflate_asiv-exact s a small = let t = a.tree in let c = a.scratch in omega arith

abbrev layout_of : Layout × (Format × ℕ) → Layout
layout_of o = o.0

abbrev SameLayout : Inf → Inf → Type 0
SameLayout s t = layout t ≡ layout s

note_eob-Stays : (s : Inf) → StaysAligned s → StaysAligned (note_eob s)
note_eob-Stays s a = if-cases StaysAligned (final_eob s) (λ _. λ q. cc) (λ _. a)

-- Removing a trailer leaves the layout as it is.
after_check-layout :
    (cs : List ℕ) (s : Inf) (k : Check)
    → ((t : Inf) → SameLayout t (trailer_loop cs t).1)
    → SameLayout s (after_check k cs s (trailer_loop cs)).1
after_check-layout cs s (mismatch rc t) ih = refl
after_check-layout cs s (passed t) ih = ih (taken cs s t)

trailer_loop-layout : (cs : List ℕ) (s : Inf) → SameLayout s (trailer_loop cs s).1
unfolding trailer_loop
trailer_loop-layout [] s = refl
trailer_loop-layout (c ∷ cs) s =
    if-cases (λ (p : Removal × Inf). SameLayout s p.1) (ltb s.tail.postfx_idx s.tail.postfx_len)
      (λ _. after_check-layout cs s (check_tail s (stored c s.tail)) (trailer_loop-layout cs))
      (λ _. refl)

prepare_tail-layout : (s : Inf) → SameLayout s (prepare_tail s)
unfolding prepare_tail
prepare_tail-layout s = if-cases (SameLayout s) (s.tail.postfx_len == 0) (λ _. refl) (λ _. refl)

rem_trailer_as-layout : (t : Format) (s : Inf) → SameLayout s (rem_trailer_as t s).1
rem_trailer_as-layout defl s = refl
rem_trailer_as-layout zlib s = trailer_loop-layout s.input (prepare_tail s) ∙ prepare_tail-layout s
rem_trailer_as-layout gzip s = trailer_loop-layout s.input (prepare_tail s) ∙ prepare_tail-layout s

by_removal-layout : (p : Removal × Inf) → (by_removal p).1 ≡ p.1
by_removal-layout (removed, s) = refl
by_removal-layout (re_enter, s) = refl
by_removal-layout (refused rc, s) = refl

removal-layout : (s : Inf) → SameLayout s (by_removal (rem_trailer s)).1
unfolding rem_trailer
removal-layout s =
    ap layout (by_removal-layout (rem_trailer_as s.format s)) ∙ rem_trailer_as-layout s.format s

abbrev StaysAfter : Rc × Inf → Type 0
StaysAfter p = StaysAligned p.1

at_eob-Stays : (s : Inf) → StaysAligned s → StaysAfter (at_eob s (λ t. (ok, t)))
at_eob-Stays s a =
    if-cases StaysAfter (not (s.eob_seen == 0)) (λ _. subst Stays (sym (removal-layout s)) a)
      (λ _. a)

take_answer-Stays : (a : Answer) (s : Inf) → IsAligned s → StaysAfter (take_answer a s)
unfolding take_answer
take_answer-Stays a s f =
    let s₀ = get_inflate_asv a.asv s in
    let g : IsAligned s₀ = subst Fills (sym (ap layout_of (asv-Untouched a s))) f in
    let s₁ = (post_scratch_upd s₀).1 in
    let b : StaysAligned s₁ = post_scratch_upd-StaysAligned s₀ g in
    let s₂ = produce a.stored s₁ in
    if-cases StaysAfter (is_negative (post_scratch_upd s₀).0) (λ _. b)
      (λ _.
        if-cases StaysAfter (ltb s₁.avail_out s₁.outp_returned) (λ _. b)
          (λ _.
            if-cases StaysAfter (ltb (length s₂.input) s₂.sr.inp_data_offs) (λ _. b)
              (λ _. at_eob-Stays (note_eob (consume s₂)) (note_eob-Stays (consume s₂) b))))

after_tries-Stays : (e : Executed) (s : Inf) → IsAligned s → StaysAfter (after_tries e s)
after_tries-Stays (returned rc) s f = λ _. f
after_tries-Stays (answered a) s f = take_answer-Stays a s f

submit-Stays :
    (hw : Cmd → Answer) (flush : Flush) (s : Inf) → IsAligned s → StaysAfter (submit hw flush s)
unfolding submit
submit-Stays hw flush s f =
    let (c, s₁) = prepare s in
    let skip = expects_end flush s in
    let tries = if skip then 2 else 1 in
    let c' = if skip then without_dict c else c in
    let (e, s₂) = execute hw tries flush c c' (returned stream_error) s₁ in
    after_tries-Stays e s₂ (
      subst Fills
        (sym (
          ap layout_of (
            execute-Untouched hw tries flush c c' (returned stream_error) s₁
            ∙ prepare-Untouched s)))
        f)

after_header-Stays :
    (hw : Cmd → Answer) (flush : Flush) (p : Rc × Inf)
    → IsAligned p.1
    → StaysAfter (after_header hw flush p)
after_header-Stays hw flush (rc, t) f =
    if-cases StaysAfter (not (is_ok rc)) (λ _. λ _. f)
      (λ _.
        if-cases StaysAfter (has_bit t.data_type 7) (λ _. λ _. f)
          (λ _.
            if-cases StaysAfter (length t.input == 0 && t.scratch_bits == 0) (λ _. λ _. f)
              (λ _. submit-Stays hw flush t f)))

abbrev MayStay : Option (Rc × Inf) → Type 0
MayStay none = Unit
MayStay (some p) = StaysAfter p

inflate_on-MayStay :
    (hw : Cmd → Answer) (flush : Flush) (s : Inf)
    → StaysAligned s
    → IsValid s
    → MayStay (inflate_on hw flush s)
unfolding inflate_on
inflate_on-MayStay hw flush s f v =
    let s₀ : Inf = record s { flush = flush; sr = record s.sr { inp_data_offs = 0 } } in
    let (rc, s₁) = flush_output_buffer s₀ in
    let a : Accounts s s₁ = Accounts-flush s₀ v in
    let f₁ : StaysAligned s₁ = subst Stays (sym (ap layout_of (flush-Untouched s₀))) f in
    let s₂ = note_eob s₁ in
    let f₂ : StaysAligned s₂ = note_eob-Stays s₁ f₁ in
    let b : Accounts s s₂ = Balanced-trans a (note_eob-Accounts s₁ a.valid) in
    let h = header-Removes flush s₂ b.valid in
    if-cases MayStay (ltb avail_in_max (length s.input)) (λ _. f)
      (λ _.
        if-cases MayStay (not (is_ok rc)) (λ _. f₁)
          (λ _. elim (Bool-cases (s₂.eob_seen == 0)) [
            | inr e ↦ rw e (subst Stays (sym (removal-layout s₂)) f₂)
            | inl e ↦ rw e (
                if-cases MayStay (s₂.avail_out == 0) (λ _. f₂)
                  (λ _. rw h.runs (
                    after_header-Stays hw flush h.out
                      (subst Fills (sym (header-layout s₂ h.out.1 h.eob h.stat h.bits)) (f₂ e)))))
          ]))
  where
    header-layout :
        (s t : Inf)
        → t.eob_seen ≡ s.eob_seen
        → t.sr ≡ s.sr
        → t.scratch_bits ≡ s.scratch_bits
        → SameLayout s t
    header-layout s t e r b = cc

-- On a stream whose header state is one of its format, and while the final block has not ended,
-- zedc_inflate keeps the layout of the workspace whenever it returns: the tree with the bits
-- before it and its padding fills words of 64 bits, and the scratch bits with those before them
-- fill bytes.
pub inflate_on-StaysAligned :
    (hw : Cmd → Answer) (flush : Flush) (s t : Inf) (rc : Rc)
    → StaysAligned s
    → IsValid s
    → inflate_on hw flush s ≡ some (rc, t)
    → StaysAligned t
inflate_on-StaysAligned hw flush s t rc f v q = subst MayStay q (inflate_on-MayStay hw flush s f v)
