-- ===== src/Inflate/RunLaws.antt =====
-- zedc_inflate (lib/inflate.c) over any card: it returns, and it keeps the books of input and output.
use genwqe_user.Prelude.{
  ℕ, zero, suc, ◌≤◌, ◌≡◌, refl, Bool, true, false, not, ◌&&◌, Option, none, some, List, arith, ltb,
  ◌==◌, if◌then◌else◌, if-cases, length, length-append, length-take, length-drop, take, not_ltb→le,
  has_bit,
}
use genwqe_user.Zedc.{Rc, ok, stream_error, mem_error, is_negative, is_ok, Flush}
use genwqe_user.Inflate.Header.{is_header_done}
use genwqe_user.Inflate.Stream.{Inf}
use genwqe_user.Inflate.Output.{flush_output_buffer}
use genwqe_user.Inflate.Trailer.{Removal, removed, re_enter, refused, rem_trailer}
use genwqe_user.Inflate.RemHeader.{rem_header}
use genwqe_user.Inflate.Asv.{get_inflate_asv, set_inflate_asiv}
use genwqe_user.Inflate.Scratch.{final_eob, post_scratch_upd}
use genwqe_user.Inflate.Run.{
  Cmd, Answer, prepare, skips_dict, expects_end, without_dict, with_dict, save_page, after_execute,
  wants_dict, not_complete, Executed, answered, returned, after_try, execute, note_eob, by_removal,
  produce, consume, at_eob, take_answer, after_tries, submit, after_header, inflate_on,
  avail_in_max,
}
use genwqe_user.Inflate.Accounts.{
  Accounts-post_scratch_upd, post_scratch_upd-returned, Removes, rem_header-Removes,
}
use genwqe_user.Inflate.Books.{
  IsValid, Balanced-trans, Accounts, Accounts-refl, Accounts-flush, Accounts-rem_trailer,
}

-- A card stores as many bytes as it reports.
abbrev pub Reports : (Cmd → Answer) → Type 0
Reports hw = (c : Cmd) → (hw c).asv.outp_returned ≤ length (hw c).stored

abbrev Kept : Inf → Rc × Inf → Type 0
Kept s p = Accounts s p.1

pub note_eob-Accounts : (s : Inf) → IsValid s → Accounts s (note_eob s)
note_eob-Accounts s v =
    if-cases (Accounts s) (final_eob s) (λ _. Accounts-refl s v) (λ _. Accounts-refl s v)

by_removal-Accounts : (s : Inf) (p : Removal × Inf) → Accounts s p.1 → Kept s (by_removal p)
by_removal-Accounts s (removed, t) a = a
by_removal-Accounts s (re_enter, t) a = a
by_removal-Accounts s (refused rc, t) a = a

produce-Accounts :
    (stored : List ℕ) (s : Inf)
    → IsValid s
    → s.outp_returned ≤ s.avail_out
    → s.outp_returned ≤ length stored
    → Accounts s (produce stored s)
produce-Accounts stored s v room l =
    let a = length-append s.output (take s.outp_returned stored) in
    let b = length-take s.outp_returned stored in
    record { valid = v; input = refl; space = omega (arith, a, b); total = omega arith }

consume-Accounts :
    (s : Inf) → IsValid s → s.sr.inp_data_offs ≤ length s.input → Accounts s (consume s)
consume-Accounts s v l =
    let d = length-drop s.sr.inp_data_offs s.input in
    record { valid = v; input = omega (arith, d, l); space = refl; total = refl }

at_eob-Accounts : (s : Inf) → IsValid s → Kept s (at_eob s (λ t. (ok, t)))
at_eob-Accounts s v =
    if-cases (Kept s) (not (s.eob_seen == 0))
      (λ _. by_removal-Accounts s (rem_trailer s) (Accounts-rem_trailer s v))
      (λ _. Accounts-refl s v)

asv-Accounts : (a : Answer) (s : Inf) → IsValid s → Accounts s (get_inflate_asv a.asv s)
unfolding get_inflate_asv
asv-Accounts a s v = Accounts-refl s v

take_answer-Accounts :
    (a : Answer) (s : Inf)
    → IsValid s
    → a.asv.outp_returned ≤ length a.stored
    → Kept s (take_answer a s)
unfolding take_answer get_inflate_asv
take_answer-Accounts a s v l =
    let s₀ = get_inflate_asv a.asv s in
    let s₁ = (post_scratch_upd s₀).1 in
    let b : Accounts s s₁ = Accounts-post_scratch_upd s₀ v in
    let r : s₁.outp_returned ≡ a.asv.outp_returned = post_scratch_upd-returned s₀ in
    let s₂ = produce a.stored s₁ in
    if-cases (Kept s) (is_negative (post_scratch_upd s₀).0) (λ _. b)
      (λ _.
        if-cases (Kept s) (ltb s₁.avail_out s₁.outp_returned) (λ _. b)
          (λ fits.
            let room : s₁.outp_returned ≤ s₁.avail_out = not_ltb→le _ _ fits in
            let c = Balanced-trans b (produce-Accounts a.stored s₁ b.valid room (omega arith)) in
            if-cases (Kept s) (ltb (length s₂.input) s₂.sr.inp_data_offs) (λ _. c)
              (λ there.
                let d = Balanced-trans c (consume-Accounts s₂ c.valid (not_ltb→le _ _ there)) in
                let e = Balanced-trans d (note_eob-Accounts (consume s₂) d.valid) in
                Balanced-trans e (at_eob-Accounts (note_eob (consume s₂)) e.valid))))

abbrev Reported : Executed → Type 0
Reported (answered a) = a.asv.outp_returned ≤ length a.stored
Reported (returned rc) = Unit

save_page-Accounts :
    (o : Option Bool) (dict : List ℕ) (s : Inf) → IsValid s → Accounts s (save_page o dict s)
save_page-Accounts none dict s v = Accounts-refl s v
save_page-Accounts (some true) dict s v = Accounts-refl s v
save_page-Accounts (some false) dict s v = Accounts-refl s v

abbrev ExecKept : Inf → Executed × Inf → Type 0
ExecKept s p = Reported p.0 × Accounts s p.1

after_try-Accounts :
    (a : Answer) (s t : Inf) (again : Executed × Inf)
    → a.asv.outp_returned ≤ length a.stored
    → Accounts s t
    → ExecKept s again
    → ExecKept s (after_try a t again)
after_try-Accounts a s t again l b k =
    if-cases (ExecKept s) (wants_dict a) (λ _. (tt, b))
      (λ _.
        if-cases (ExecKept s) (not_complete a) (λ _. (tt, b))
          (λ _. if-cases (ExecKept s) (has_bit a.asv.infl_stat 2) (λ _. (l, b)) (λ _. k)))

execute-Accounts :
    (hw : Cmd → Answer) (tries : ℕ) (flush : Flush) (saved c : Cmd) (last : Executed) (s : Inf)
    → Reports hw
    → Reported last
    → IsValid s
    → ExecKept s (execute hw tries flush saved c last s)
unfolding execute
execute-Accounts hw zero flush saved c last s r l v = (l, Accounts-refl s v)
execute-Accounts hw (suc tries) flush saved c last s r l v =
    let t = after_execute c (hw c) s in
    let c' = if skips_dict flush t then with_dict saved c else c in
    let b : Accounts s t =
      save_page-Accounts c.asiv.out_dict (hw c).dict
        (record s { retc = (hw c).retc; attn = (hw c).attn; progress = (hw c).progress }) v in
    let again = execute-Accounts hw tries flush saved c' (answered (hw c)) t r (r c) b.valid in
    after_try-Accounts (hw c) s t (execute hw tries flush saved c' (answered (hw c)) t) (r c) b
      (again.0, Balanced-trans b again.1)

after_tries-Accounts : (e : Executed) (s : Inf) → Reported e → IsValid s → Kept s (after_tries e s)
after_tries-Accounts (returned rc) s l v = Accounts-refl s v
after_tries-Accounts (answered a) s l v = take_answer-Accounts a s v l

prepare-Accounts : (s : Inf) → IsValid s → Accounts s (prepare s).1
unfolding prepare set_inflate_asiv
prepare-Accounts s v = Accounts-refl s v

submit-Accounts :
    (hw : Cmd → Answer) (flush : Flush) (s : Inf)
    → Reports hw
    → IsValid s
    → Kept s (submit hw flush s)
unfolding submit
submit-Accounts hw flush s r v =
    let (c, s₁) = prepare s in
    let skip = expects_end flush s in
    let b = prepare-Accounts s v in
    let (e, s₂) =
      execute hw (if skip then 2 else 1) flush c (if skip then without_dict c else c)
        (returned stream_error) s₁ in
    let x =
      execute-Accounts hw (if skip then 2 else 1) flush c (if skip then without_dict c else c)
        (returned stream_error) s₁ r tt b.valid in
    Balanced-trans b (Balanced-trans x.1 (after_tries-Accounts e s₂ x.0 x.1.valid))

after_header-Accounts :
    (hw : Cmd → Answer) (flush : Flush) (s : Inf) (p : Rc × Inf)
    → Reports hw
    → Accounts s p.1
    → Kept s (after_header hw flush p)
after_header-Accounts hw flush s (rc, t) r a =
    if-cases (Kept s) (not (is_ok rc)) (λ _. a)
      (λ _.
        if-cases (Kept s) (has_bit t.data_type 7) (λ _. a)
          (λ _.
            if-cases (Kept s) (length t.input == 0 && t.scratch_bits == 0) (λ _. a)
              (λ _. Balanced-trans a (submit-Accounts hw flush t r a.valid))))

-- A result, with the books kept.
pub record Returns (s : Inf) (o : Option (Rc × Inf)) : Type 0 where
  pub out : Rc × Inf
  pub runs : o ≡ some out
  pub books : Accounts s out.1

pub header-Removes :
    (flush : Flush) (s : Inf)
    → IsValid s
    → Removes s (if is_header_done s.hdr.header_state then some (ok, s) else rem_header flush s)
header-Removes flush s v =
    if-cases (Removes s) (is_header_done s.hdr.header_state)
      (λ _. record {
        out = (ok, s);
        runs = refl;
        books = Accounts-refl s v;
        eob = refl;
        stat = refl;
        bits = refl;
        tail = refl;
        not_end = λ q. cc;
      })
      (λ _. rem_header-Removes flush s v)

-- On a stream whose header state is one of its format, and over a card that stores as many bytes
-- as it reports, zedc_inflate returns, the state stays one of the format, the bytes taken off the
-- input are counted in total_in, and the bytes stored use up avail_out and are counted in
-- total_out, on every path.
pub inflate_on-Returns :
    (hw : Cmd → Answer) (flush : Flush) (s : Inf)
    → Reports hw
    → IsValid s
    → Returns s (inflate_on hw flush s)
unfolding inflate_on
inflate_on-Returns hw flush s r v =
    let s₀ : Inf = record s { flush = flush; sr = record s.sr { inp_data_offs = 0 } } in
    let (rc, s₁) = flush_output_buffer s₀ in
    let a : Accounts s s₁ = Accounts-flush s₀ v in
    let s₂ = note_eob s₁ in
    let b : Accounts s s₂ = Balanced-trans a (note_eob-Accounts s₁ a.valid) in
    let h = header-Removes flush s₂ b.valid in
    if-cases (Returns s) (ltb avail_in_max (length s.input))
      (λ _. record { out = (mem_error, s); runs = refl; books = Accounts-refl s v })
      (λ _.
        if-cases (Returns s) (not (is_ok rc))
          (λ _. record { out = (stream_error, s₁); runs = refl; books = a })
          (λ _.
            if-cases (Returns s) (not (s₂.eob_seen == 0))
              (λ _. record {
                out = by_removal (rem_trailer s₂);
                runs = refl;
                books =
                    Balanced-trans b
                      (by_removal-Accounts s₂ (rem_trailer s₂) (Accounts-rem_trailer s₂ b.valid));
              })
              (λ _.
                if-cases (Returns s) (s₂.avail_out == 0)
                  (λ _. record { out = (ok, s₂); runs = refl; books = b })
                  (λ _. record {
                    out = after_header hw flush h.out;
                    runs = rw h.runs;
                    books = after_header-Accounts hw flush s h.out r (Balanced-trans b h.books);
                  }))))
