-- ===== src/Inflate/Untouched.antt =====
-- lib/inflate.c: what most steps of zedc_inflate leave as it is, the layout of the workspace and
-- the length of the trailer.
use genwqe_user.Prelude.{
  ℕ, zero, suc, ◌≡◌, refl, ◌∙◌, Bool, true, false, not, ◌||◌, Option, none, some, List, ltb, ◌==◌,
  if◌then◌else◌, if-cases, has_bit, Bool-cases, inl, inr,
}
use genwqe_user.Zedc.{Rc, Flush, Format}
use genwqe_user.Inflate.Stream.{Inf}
use genwqe_user.Inflate.Output.{flush_loop, flush_output_buffer, pending_at}
use genwqe_user.Inflate.Asv.{get_inflate_asv, set_inflate_asiv}
use genwqe_user.Inflate.Run.{
  Cmd, Answer, prepare, skips_dict, with_dict, save_page, after_execute, wants_dict, not_complete,
  Executed, answered, after_try, execute,
}
use genwqe_user.Inflate.ScratchLaws.{layout}
use genwqe_user.Inflate.ScratchLaws.{Layout}
use genwqe_user.Inflate.Books.{tail_of}

abbrev pub untouched : Inf → Layout × (Format × ℕ)
untouched s = (layout s, tail_of s)

abbrev pub Untouched : Inf → Inf → Type 0
Untouched s t = untouched t ≡ untouched s

flush_loop-Untouched : (left i : ℕ) (s : Inf) → Untouched s (flush_loop left i s)
unfolding flush_loop
flush_loop-Untouched zero i s = refl
flush_loop-Untouched (suc left) i s =
    if-cases (Untouched s) (s.avail_out == 0) (λ _. refl) (λ _. flush_loop-Untouched left (suc i) _)

pub flush-Untouched : (s : Inf) → Untouched s (flush_output_buffer s).1
unfolding flush_output_buffer
flush-Untouched s =
    if-cases (λ (p : Rc × Inf). Untouched s p.1) (s.obytes_in_dict == 0) (λ _. refl)
      (λ _.
        if-cases (λ (p : Rc × Inf). Untouched s p.1) (ltb s.dict_len s.obytes_in_dict) (λ _. refl)
          (λ _. flush_loop-Untouched s.obytes_in_dict (pending_at s) s))

pub asv-Untouched : (a : Answer) (s : Inf) → Untouched s (get_inflate_asv a.asv s)
unfolding get_inflate_asv
asv-Untouched a s =
    elim (Bool-cases (not (a.asv.inp_processed == 0) || not (a.asv.proc_bits == 0))) [
      | inl e ↦ rw e refl
      | inr e ↦ rw e refl
    ]

save_page-Untouched : (o : Option Bool) (dict : List ℕ) (s : Inf) → Untouched s (save_page o dict s)
save_page-Untouched none dict s = refl
save_page-Untouched (some true) dict s = refl
save_page-Untouched (some false) dict s = refl

abbrev SameAfter : Inf → Executed × Inf → Type 0
SameAfter s p = Untouched s p.1

after_try-Untouched :
    (a : Answer) (s t : Inf) (again : Executed × Inf)
    → Untouched s t
    → SameAfter s again
    → SameAfter s (after_try a t again)
after_try-Untouched a s t again l k =
    if-cases (SameAfter s) (wants_dict a) (λ _. l)
      (λ _.
        if-cases (SameAfter s) (not_complete a) (λ _. l)
          (λ _. if-cases (SameAfter s) (has_bit a.asv.infl_stat 2) (λ _. l) (λ _. k)))

pub execute-Untouched :
    (hw : Cmd → Answer) (tries : ℕ) (flush : Flush) (saved c : Cmd) (last : Executed) (s : Inf)
    → SameAfter s (execute hw tries flush saved c last s)
unfolding execute
execute-Untouched hw zero flush saved c last s = refl
execute-Untouched hw (suc tries) flush saved c last s =
    let t = after_execute c (hw c) s in
    let c' = if skips_dict flush t then with_dict saved c else c in
    let l : Untouched s t = save_page-Untouched c.asiv.out_dict (hw c).dict _ in
    after_try-Untouched (hw c) s t (execute hw tries flush saved c' (answered (hw c)) t) l
      (execute-Untouched hw tries flush saved c' (answered (hw c)) t ∙ l)

pub prepare-Untouched : (s : Inf) → Untouched s (prepare s).1
unfolding prepare set_inflate_asiv
prepare-Untouched s = refl
