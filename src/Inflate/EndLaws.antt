-- ===== src/Inflate/EndLaws.antt =====
-- zedc_inflate (lib/inflate.c): what ZEDC_STREAM_END means.
use genwqe_user.Prelude.{
  ℕ, zero, suc, ◌≡◌, ◌≢◌, inl, inr, refl, sym, subst, ap, ◌∙◌, true, false, not, ◌&&◌, Option, none,
  some, ltb, ◌==◌, if◌then◌else◌, if-cases, length, has_bit, Bool-cases,
}
use genwqe_user.Zedc.{Rc, ok, stream_end, stream_error, is_negative, is_ok, Flush}
use genwqe_user.Inflate.Stream.{Inf}
use genwqe_user.Inflate.Output.{flush_output_buffer}
use genwqe_user.Inflate.Trailer.{Removal, removed, re_enter, refused, rem_trailer, rem_trailer_as}
use genwqe_user.Inflate.Asv.{get_inflate_asv}
use genwqe_user.Inflate.Scratch.{final_eob, post_scratch_upd}
use genwqe_user.Inflate.Run.{
  Cmd, Answer, prepare, skips_dict, expects_end, without_dict, with_dict, after_execute, wants_dict,
  not_complete, Executed, answered, returned, after_try, execute, note_eob, by_removal, produce,
  consume, at_eob, take_answer, after_tries, submit, chk_ret, after_header, inflate_on,
  avail_in_max,
}
use genwqe_user.Deflate.Stream.{SaveRestore}
use genwqe_user.Inflate.Books.{IsValid, Accounts-flush, Balanced-trans, Accounts}
use genwqe_user.Inflate.Untouched.{flush-Untouched, execute-Untouched, prepare-Untouched}
use genwqe_user.Inflate.RunLaws.{header-Removes, note_eob-Accounts}
use genwqe_user.Inflate.TailLaws.{untouched-TailFits, note_eob-TailFits, answer-TailFits}
use genwqe_user.Inflate.TrailerEnd.{
  Fits, TailFits, TrailerDone, Seen, RemovesDone, rem_trailer_as-RemovesDone,
}

-- The end of the final block was seen, no output waits in the dictionary, and the trailer is done.
pub record IsOver (s : Inf) : Type 0 where
  pub seen : s.eob_seen == 0 ≡ false
  pub handed_over : s.obytes_in_dict == 0 ≡ true
  pub trailer : TrailerDone s

abbrev EndsOver : Rc × Inf → Type 0
EndsOver p = p.0 ≡ stream_end → IsOver p.1

by_removal-EndsOver : (p : Removal × Inf) → RemovesDone p → EndsOver (by_removal p)
by_removal-EndsOver (removed, s) d q = elim (Bool-cases (s.obytes_in_dict == 0)) [
  | inl e ↦ record { seen = d.0; handed_over = e; trailer = d.1 }
  | inr e ↦ absurd (ok_not_end (sym (ap (λ b. if b then stream_end else ok) e) ∙ q))
]
  where
    ok_not_end : ok ≡ stream_end → ⊥
    ok_not_end q' = cc
by_removal-EndsOver (re_enter, s) d q = cc
by_removal-EndsOver (refused rc, s) d q = cc

removal-EndsOver : (s : Inf) → TailFits s → Seen s → EndsOver (by_removal (rem_trailer s))
unfolding rem_trailer
removal-EndsOver s fits e =
    by_removal-EndsOver (rem_trailer_as s.format s)
      (rem_trailer_as-RemovesDone s.format s refl fits e)

not_end : {p : Rc × Inf} → p.0 ≢ stream_end → EndsOver p
not_end n q = absurd (n q)

at_eob-EndsOver : (s : Inf) → TailFits s → EndsOver (at_eob s (λ t. (ok, t)))
at_eob-EndsOver s fits = elim (Bool-cases (s.eob_seen == 0)) [
  | inl e ↦ rw e (λ q. cc)
  | inr e ↦ rw e (removal-EndsOver s fits e)
]

take_answer-EndsOver : (a : Answer) (s : Inf) → TailFits s → EndsOver (take_answer a s)
unfolding take_answer
take_answer-EndsOver a s fits =
    let fits' = answer-TailFits a s fits in
    let s₁ = (post_scratch_upd (get_inflate_asv a.asv s)).1 in
    let s₂ = produce a.stored s₁ in
    if-cases EndsOver (is_negative (post_scratch_upd (get_inflate_asv a.asv s)).0) (λ _. λ q. cc)
      (λ _.
        if-cases EndsOver (ltb s₁.avail_out s₁.outp_returned) (λ _. λ q. cc)
          (λ _.
            if-cases EndsOver (ltb (length s₂.input) s₂.sr.inp_data_offs) (λ _. λ q. cc)
              (λ _.
                at_eob-EndsOver (note_eob (consume s₂)) (note_eob-TailFits (consume s₂) fits'))))

-- A loop over the tries that returns does not return ZEDC_STREAM_END.
abbrev NotEnd : Executed × Inf → Type 0
NotEnd (returned rc, s) = rc ≢ stream_end
NotEnd (answered a, s) = Unit

after_try-NotEnd :
    (a : Answer) (s : Inf) (again : Executed × Inf) → NotEnd again → NotEnd (after_try a s again)
after_try-NotEnd a s again k =
    if-cases NotEnd (wants_dict a) (λ _. λ q. cc)
      (λ _.
        if-cases NotEnd (not_complete a) (λ _. λ q. cc)
          (λ _. if-cases NotEnd (has_bit a.asv.infl_stat 2) (λ _. tt) (λ _. k)))

execute-NotEnd :
    (hw : Cmd → Answer) (tries : ℕ) (flush : Flush) (saved c : Cmd) (last : Executed) (s : Inf)
    → NotEnd (last, s)
    → NotEnd (execute hw tries flush saved c last s)
unfolding execute
execute-NotEnd hw zero flush saved c last s k = k
execute-NotEnd hw (suc tries) flush saved c last s k =
    let t = after_execute c (hw c) s in
    let c' = if skips_dict flush t then with_dict saved c else c in
    after_try-NotEnd (hw c) t (execute hw tries flush saved c' (answered (hw c)) t)
      (execute-NotEnd hw tries flush saved c' (answered (hw c)) t tt)

after_tries-EndsOver :
    (e : Executed) (s : Inf) → TailFits s → NotEnd (e, s) → EndsOver (after_tries e s)
after_tries-EndsOver (returned rc) s fits k = λ q. absurd (k q)
after_tries-EndsOver (answered a) s fits k = take_answer-EndsOver a s fits

error-NotEnd : (s : Inf) → NotEnd (returned stream_error, s)
error-NotEnd s q = cc

submit-EndsOver :
    (hw : Cmd → Answer) (flush : Flush) (s : Inf) → TailFits s → EndsOver (submit hw flush s)
unfolding submit
submit-EndsOver hw flush s fits =
    let (c, s₁) = prepare s in
    let skip = expects_end flush s in
    let tries = if skip then 2 else 1 in
    let c' = if skip then without_dict c else c in
    let (e, s₂) = execute hw tries flush c c' (returned stream_error) s₁ in
    after_tries-EndsOver e s₂
      (untouched-TailFits s s₂
        (execute-Untouched hw tries flush c c' (returned stream_error) s₁ ∙ prepare-Untouched s)
        fits)
      (execute-NotEnd hw tries flush c c' (returned stream_error) s₁ (error-NotEnd s₁))

-- Without the final end of block the label chk_ret does not end the stream.
chk_ret-EndsOver : (s : Inf) → final_eob s ≡ false → EndsOver (chk_ret s)
chk_ret-EndsOver s e = rw e (λ q. cc)

after_header-EndsOver :
    (hw : Cmd → Answer) (flush : Flush) (p : Rc × Inf)
    → p.0 ≢ stream_end
    → TailFits p.1
    → final_eob p.1 ≡ false
    → EndsOver (after_header hw flush p)
after_header-EndsOver hw flush (rc, t) n fits e =
    if-cases EndsOver (not (is_ok rc)) (λ _. λ q. absurd (n q))
      (λ _.
        if-cases EndsOver (has_bit t.data_type 7) (λ _. λ q. cc)
          (λ _.
            if-cases EndsOver (length t.input == 0 && t.scratch_bits == 0)
              (λ _. chk_ret-EndsOver t e) (λ _. submit-EndsOver hw flush t fits)))

note_eob-final : (s : Inf) → (note_eob s).eob_seen == 0 ≡ true → final_eob (note_eob s) ≡ false
note_eob-final s = elim (Bool-cases (final_eob s)) [
  | inl e ↦ rw e (λ q. cc)
  | inr e ↦ rw e (λ q. e)
]

abbrev MayEnd : Option (Rc × Inf) → Type 0
MayEnd none = Unit
MayEnd (some p) = EndsOver p

inflate_on-MayEnd :
    (hw : Cmd → Answer) (flush : Flush) (s : Inf)
    → TailFits s
    → IsValid s
    → MayEnd (inflate_on hw flush s)
unfolding inflate_on
inflate_on-MayEnd hw flush s fits v =
    let s₀ : Inf = record s { flush = flush; sr = record s.sr { inp_data_offs = 0 } } in
    let (rc, s₁) = flush_output_buffer s₀ in
    let a : Accounts s s₁ = Accounts-flush s₀ v in
    let s₂ = note_eob s₁ in
    let b : Accounts s s₂ = Balanced-trans a (note_eob-Accounts s₁ a.valid) in
    let fits₁ : TailFits s₁ = untouched-TailFits s₀ s₁ (flush-Untouched s₀) fits in
    let fits₂ : TailFits s₂ = note_eob-TailFits s₁ fits₁ in
    let h = header-Removes flush s₂ b.valid in
    if-cases MayEnd (ltb avail_in_max (length s.input)) (λ _. λ q. cc)
      (λ _.
        if-cases MayEnd (not (is_ok rc)) (λ _. λ q. cc)
          (λ _. elim (Bool-cases (s₂.eob_seen == 0)) [
            | inr e ↦ rw e (removal-EndsOver s₂ fits₂ e)
            | inl e ↦ rw e (
                if-cases MayEnd (s₂.avail_out == 0) (λ _. λ q. cc)
                  (λ _. rw h.runs (
                    after_header-EndsOver hw flush h.out h.not_end (subst Fits (sym h.tail) fits₂) (
                      ap (λ (r : SaveRestore). has_bit r.infl_stat 2) h.stat
                      ∙ note_eob-final s₁ e))))
          ]))

-- When zedc_inflate reports ZEDC_STREAM_END on a stream whose header state is one of its format
-- and whose trailer length is not set yet or the one of its format, the end of the final block was
-- seen, no output waits in the dictionary, and all bytes of the trailer were taken, 8 for gzip and
-- 4 for zlib, or the format has no trailer.
pub inflate_on-IsOver :
    (hw : Cmd → Answer) (flush : Flush) (s t : Inf)
    → TailFits s
    → IsValid s
    → inflate_on hw flush s ≡ some (stream_end, t)
    → IsOver t
inflate_on-IsOver hw flush s t fits v q = subst MayEnd q (inflate_on-MayEnd hw flush s fits v) refl
