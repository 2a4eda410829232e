-- ===== src/Deflate/EndLaws.antt =====
-- zedc_deflate (lib/deflate.c): what ZEDC_STREAM_END means.
use genwqe_user.Prelude.{
  ℕ, ◌≡◌, refl, ap, [], arith, Bool, true, false, not, Option, none, some, if◌then◌else◌, if-cases,
  leb, Endian,
}
use genwqe_user.Fifo.{Fifo, used}
use genwqe_user.Fifo.Contents.{contents, bytes_from}
use genwqe_user.Zedc.{Rc, ok, stream_end, is_negative, Device}
use genwqe_user.Deflate.Stream.{Stream, write_out_fifo, output_data_avail, input_data_avail}
use genwqe_user.Deflate.Header.{add_header}
use genwqe_user.Deflate.Results.{process_results}
use genwqe_user.Deflate.Run.{
  Cmd, Answer, prepare, without_dict, execute, skips_dict, finish_up, flush_modes, is_done,
  take_answer, answered, submit, deflate_on,
}

-- End of block and trailer are added, and no byte of them or of what came before is left in the FIFO.
pub record IsWritten (s : Stream) : Type 0 where
  pub eob : s.eob_added ≡ true
  pub trailer : s.trailer_added ≡ true
  pub drained : contents s.out_fifo ≡ []

done-IsWritten : (s : Stream) → is_done s ≡ true → IsWritten s
done-IsWritten s d = record {
  eob = ground arith;
  trailer = ground arith;
  drained = none_left s.out_fifo (ground arith);
}
  where
    none_left : (f : Fifo) → f.pop_at ≡ f.push_at → contents f ≡ []
    none_left f e = let z : used f ≡ 0 = omega arith in ap (λ n. bytes_from f.store f.pop_at n) z

-- A result that says ZEDC_STREAM_END only for a stream that is written.
abbrev EndsDone : Rc × Stream → Type 0
EndsDone p = p.0 ≡ stream_end → IsWritten p.1

take_answer-EndsDone :
    (host : Endian) (zedc : Device) (a : Answer) (s : Stream) → EndsDone (take_answer host zedc a s)
unfolding take_answer
take_answer-EndsDone host zedc a s =
    let s₁ : Stream = record s {
      crc32 = a.asv.out_crc32;
      adler32 = a.asv.out_adler32;
      dict_len = a.asv.out_dict_used;
      out_dict_offs = a.asv.out_dict_offs;
    } in
    let (rc, s₂) = process_results zedc a.asv a.stored s₁ in
    let s₃ = flush_modes (finish_up host s₂) in
    if-cases EndsDone (leb 16 a.asv.out_dict_offs) (λ _. λ e. cc)
      (λ _.
        if-cases EndsDone (is_negative rc) (λ _. λ e. cc)
          (λ _. λ e. done-IsWritten s₃ (end_or_ok (is_done s₃) e)))
  where
    end_or_ok : (b : Bool) → (if b then stream_end else ok) ≡ stream_end → b ≡ true
    end_or_ok true e = refl
    end_or_ok false e = cc

answered-EndsDone :
    (host : Endian) (zedc : Device) (o : Option Answer) (s : Stream)
    → EndsDone (answered host zedc o s)
answered-EndsDone host zedc none s e = cc
answered-EndsDone host zedc (some a) s e = take_answer-EndsDone host zedc a s e

submit-EndsDone :
    (host : Endian) (hw : Cmd → Answer) (zedc : Device) (s : Stream)
    → EndsDone (submit host hw zedc s)
unfolding submit
submit-EndsDone host hw zedc s =
    let c = prepare zedc s in
    let skip = skips_dict s.flush s in
    let tried =
      execute hw (if skip then 2 else 1) s.flush c (if skip then without_dict c else c) none
        (record s { wsp_page = not s.wsp_page }) in
    answered-EndsDone host zedc tried.0 tried.1

-- zedc_deflate returns ZEDC_STREAM_END only when the end of block and the trailer are added and
-- the FIFO is empty, whatever the card answers.
pub deflate_on-EndsDone :
    (host : Endian) (now : ℕ) (hw : Cmd → Answer) (zedc : Device) (s : Stream)
    → (deflate_on host now hw zedc s).0 ≡ stream_end
    → IsWritten (deflate_on host now hw zedc s).1
unfolding deflate_on
deflate_on-EndsDone host now hw zedc s =
    let start : Bool × Stream = if s.header_added then (false, s) else add_header host now s in
    let s₂ = write_out_fifo start.1 in
    let s₃ = finish_up host s₂ in
    if-cases EndsDone start.0 (λ _. λ e. cc)
      (λ _.
        if-cases EndsDone (not (output_data_avail s₂)) (λ _. λ e. cc)
          (λ _.
            if-cases EndsDone (is_done s₃) (λ done. λ _. done-IsWritten s₃ done)
              (λ _.
                if-cases EndsDone (not (output_data_avail s₃)) (λ _. λ e. cc)
                  (λ _.
                    if-cases EndsDone (not (input_data_avail s₃)) (λ _. λ e. cc)
                      (λ _. submit-EndsDone host hw zedc s₃)))))
