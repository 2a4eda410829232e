-- ===== src/Deflate/RunLaws.antt =====
-- zedc_deflate (lib/deflate.c) over any card: the books of input and output, and the end of a stream.
use genwqe_user.Prelude.{
  ℕ, zero, suc, ◌≤◌, refl, Bool, true, false, not, ◌&&◌, ◌||◌, Option, none, some, List, arith, ltb,
  leb, ◌==◌, if◌then◌else◌, length, if-cases, not_ltb→le, Endian,
}
use genwqe_user.Fifo.Contents.{IsValid}
use genwqe_user.Zedc.{Rc, is_negative, Flush, Device, dyn_huffman_supported}
use genwqe_user.Deflate.Stream.{Stream, write_out_fifo, output_data_avail, input_data_avail}
use genwqe_user.Deflate.Header.{add_header}
use genwqe_user.Deflate.Ending.{write_eob, sync_flush_out}
use genwqe_user.Deflate.Results.{Asv, onumbits_max, consume, produce, process_results}
use genwqe_user.Deflate.Run.{
  Cmd, Answer, prepare, without_dict, with_dict, save_page, after_execute, not_executed, absorbed,
  execute, skips_dict, is_finish, is_sync, is_full, finish_up, flush_modes, is_done, take_answer,
  answered, submit, deflate_on,
}
use genwqe_user.Deflate.Accounts.{
  Accounts, Accounts-refl, Accounts-trans, Accounts-write_out, Accounts-header, Accounts-eob,
  Accounts-trailer, Accounts-sync, Accounts-store, Accounts-consume, Accounts-produce,
}

-- A result whose stream keeps the books of `s`.
abbrev Kept : Stream → Rc × Stream → Type 0
Kept s p = Accounts s p.1

process_results-Accounts :
    (zedc : Device) (asv : Asv) (stored : List ℕ) (s : Stream)
    → IsValid s.out_fifo
    → asv.outp_returned ≤ length stored
    → Kept s (process_results zedc asv stored s)
unfolding process_results
process_results-Accounts zedc asv stored s v l =
    if-cases (Kept s) (ltb (length s.input) asv.inp_processed)
      (λ _. record { valid = v; input = refl; space = refl; total = refl })
      λ fits.
        let a = Accounts-consume asv s v (not_ltb→le _ _ fits) in
        if-cases (Kept s) (asv.outp_returned == 0 || ltb s.avail_out asv.outp_returned)
          (λ _. record { valid = a.valid; input = a.input; space = a.space; total = a.total })
          λ some_out.
            let room : asv.outp_returned ≤ s.avail_out = ground arith in
            let p = Accounts-trans s _ _ a (Accounts-produce asv stored (consume asv s) v room l) in
            if-cases (Kept s) (ltb (onumbits_max (dyn_huffman_supported zedc)) asv.onumbits)
              (λ _. record { valid = a.valid; input = a.input; space = a.space; total = a.total })
              λ _.
                if-cases (Kept s)
                  (not ((produce asv stored (consume asv s)).avail_out == 0) && ltb 7 asv.onumbits)
                  (λ _. record {
                    valid = p.valid;
                    input = p.input;
                    space = p.space;
                    total = p.total;
                  })
                  (λ _. Accounts-trans s _ _ p (
                    Accounts-store (dyn_huffman_supported zedc) asv
                      (produce asv stored (consume asv s)) v))

finish_up-Accounts :
    (host : Endian) (s : Stream) → IsValid s.out_fifo → Accounts s (finish_up host s)
unfolding finish_up
finish_up-Accounts host s v =
    if-cases (Accounts s) (is_finish s.flush && not (input_data_avail s))
      (λ _.
        let a = Accounts-eob s v in
        let b = Accounts-trailer host (write_eob s).1 a.valid in
        Accounts-trans s _ _ a (Accounts-trans _ _ _ b (Accounts-write_out _ b.valid)))
      (λ _. Accounts-refl s v)

sync-Accounts : (s : Stream) → IsValid s.out_fifo → Accounts s (write_out_fifo (sync_flush_out s))
sync-Accounts s v =
    let a = Accounts-sync s v in Accounts-trans s _ _ a (Accounts-write_out _ a.valid)

flush_modes-Accounts : (s : Stream) → IsValid s.out_fifo → Accounts s (flush_modes s)
unfolding flush_modes
flush_modes-Accounts s v =
    let s₁ = if is_sync s.flush then write_out_fifo (sync_flush_out s) else s in
    let a : Accounts s s₁ =
      if-cases (Accounts s) (is_sync s.flush) (λ _. sync-Accounts s v) (λ _. Accounts-refl s v) in
    Accounts-trans s s₁ _ a (
      if-cases (Accounts s₁) (is_full s₁.flush)
        (λ _.
          let b = sync-Accounts s₁ a.valid in
          record { valid = b.valid; input = b.input; space = b.space; total = b.total })
        (λ _. Accounts-refl s₁ a.valid))

save_page-Accounts :
    (o : Option Bool) (dict : List ℕ) (s : Stream)
    → IsValid s.out_fifo
    → Accounts s (save_page o dict s)
save_page-Accounts none dict s v = Accounts-refl s v
save_page-Accounts (some true) dict s v = record {
  valid = v;
  input = refl;
  space = refl;
  total = refl;
}
save_page-Accounts (some false) dict s v = record {
  valid = v;
  input = refl;
  space = refl;
  total = refl;
}

after_execute-Accounts :
    (c : Cmd) (a : Answer) (s : Stream) → IsValid s.out_fifo → Accounts s (after_execute c a s)
after_execute-Accounts c a s v =
    let s' : Stream = record s { retc = a.retc; attn = a.attn; progress = a.progress } in
    let b = save_page-Accounts c.out_dict a.dict s' v in
    record { valid = b.valid; input = b.input; space = b.space; total = b.total }

-- A card stores as many bytes as it reports.
abbrev pub Reports : (Cmd → Answer) → Type 0
Reports hw = (c : Cmd) → (hw c).asv.outp_returned ≤ length (hw c).stored

abbrev Reported : Option Answer → Type 0
Reported none = Unit
Reported (some a) = a.asv.outp_returned ≤ length a.stored

execute-Accounts :
    (hw : Cmd → Answer) (tries : ℕ) (flush : Flush) (saved c : Cmd) (last : Option Answer)
    (s : Stream)
    → Reports hw
    → Reported last
    → IsValid s.out_fifo
    → let (answer, t) = execute hw tries flush saved c last s in Reported answer × Accounts s t
unfolding execute
execute-Accounts hw zero flush saved c last s r l v = (l, Accounts-refl s v)
execute-Accounts hw (suc tries) flush saved c last s r l v =
    let a = after_execute-Accounts c (hw c) s v in
    let t = after_execute c (hw c) s in
    let P : Option Answer × Stream → Type 0 = λ p. Reported p.0 × Accounts s p.1 in
    if-cases P (not_executed (hw c)) (λ _. (tt, a))
      (λ _.
        if-cases P (absorbed (hw c) t) (λ _. (r c, a))
          (λ _.
            let again =
              execute-Accounts hw tries flush saved
                (if skips_dict flush t then with_dict saved c else c) (some (hw c)) t r (r c)
                a.valid in
            (again.0, Accounts-trans s t _ a again.1)))

take_answer-Accounts :
    (host : Endian) (zedc : Device) (a : Answer) (s : Stream)
    → a.asv.outp_returned ≤ length a.stored
    → IsValid s.out_fifo
    → Kept s (take_answer host zedc a s)
unfolding take_answer
take_answer-Accounts host zedc a s l v =
    let s₁ : Stream = record s {
      crc32 = a.asv.out_crc32;
      adler32 = a.asv.out_adler32;
      dict_len = a.asv.out_dict_used;
      out_dict_offs = a.asv.out_dict_offs;
    } in
    let s₂ = (process_results zedc a.asv a.stored s₁).1 in
    let b = process_results-Accounts zedc a.asv a.stored s₁ v l in
    let kept : Accounts s s₂ = record {
      valid = b.valid;
      input = b.input;
      space = b.space;
      total = b.total;
    } in
    let c = finish_up-Accounts host s₂ b.valid in
    let d = flush_modes-Accounts (finish_up host s₂) c.valid in
    if-cases (Kept s) (leb 16 a.asv.out_dict_offs)
      (λ _. record { valid = v; input = refl; space = refl; total = refl })
      (λ _.
        if-cases (Kept s) (is_negative (process_results zedc a.asv a.stored s₁).0) (λ _. kept)
          (λ _. Accounts-trans s s₂ _ kept (Accounts-trans s₂ _ _ c d)))

answered-Accounts :
    (host : Endian) (zedc : Device) (o : Option Answer) (s : Stream)
    → Reported o
    → IsValid s.out_fifo
    → Kept s (answered host zedc o s)
answered-Accounts host zedc none s l v = Accounts-refl s v
answered-Accounts host zedc (some a) s l v = take_answer-Accounts host zedc a s l v

submit-Accounts :
    (host : Endian) (hw : Cmd → Answer) (zedc : Device) (s : Stream)
    → Reports hw
    → IsValid s.out_fifo
    → Kept s (submit host hw zedc s)
unfolding submit
submit-Accounts host hw zedc s r v =
    let c = prepare zedc s in
    let s₁ : Stream = record s { wsp_page = not s.wsp_page } in
    let skip = skips_dict s.flush s in
    let (answer, s₂) =
      execute hw (if skip then 2 else 1) s.flush c (if skip then without_dict c else c) none s₁ in
    let e =
      execute-Accounts hw (if skip then 2 else 1) s.flush c (if skip then without_dict c else c)
        none s₁ r tt v in
    let b = answered-Accounts host zedc answer s₂ e.0 e.1.valid in
    Accounts-trans s s₂ _
      (record { valid = e.1.valid; input = e.1.input; space = e.1.space; total = e.1.total }) b

-- Whatever the card answers, as long as it stores the bytes that it reports: zedc_deflate takes a
-- valid FIFO to a valid FIFO, counts the input bytes that it takes in `total_in`, and every output
-- byte uses up one place of `avail_out` and is counted in `total_out` (64-bit counters). This
-- holds on the error paths too.
pub deflate_on-Accounts :
    (host : Endian) (now : ℕ) (hw : Cmd → Answer) (zedc : Device) (s : Stream)
    → Reports hw
    → IsValid s.out_fifo
    → Accounts s (deflate_on host now hw zedc s).1
unfolding deflate_on
deflate_on-Accounts host now hw zedc s r v =
    let start : Bool × Stream = if s.header_added then (false, s) else add_header host now s in
    let s₁ = start.1 in
    let s₂ = write_out_fifo s₁ in
    let s₃ = finish_up host s₂ in
    let a : Accounts s s₁ =
      if-cases (λ (p : Bool × Stream). Accounts s p.1) s.header_added (λ _. Accounts-refl s v)
        (λ _. Accounts-header host now s v) in
    let b : Accounts s s₂ = Accounts-trans s s₁ s₂ a (Accounts-write_out s₁ a.valid) in
    let c : Accounts s s₃ = Accounts-trans s s₂ s₃ b (finish_up-Accounts host s₂ b.valid) in
    if-cases (Kept s) start.0 (λ _. a)
      (λ _.
        if-cases (Kept s) (not (output_data_avail s₂)) (λ _. b)
          (λ _.
            if-cases (Kept s) (is_done s₃) (λ _. c)
              (λ _.
                if-cases (Kept s) (not (output_data_avail s₃)) (λ _. c)
                  (λ _.
                    if-cases (Kept s) (not (input_data_avail s₃)) (λ _. c)
                      (λ _. Accounts-trans s s₃ _ c (submit-Accounts host hw zedc s₃ r c.valid))))))
