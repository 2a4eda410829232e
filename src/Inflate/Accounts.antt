-- ===== src/Inflate/Accounts.antt =====
-- Removing a header, and the workspace of lib/inflate.c, keep the books of input and output.
use genwqe_user.Prelude.{
  ℕ, ◌+◌, ◌≡◌, ◌≢◌, refl, sym, subst, ap, ◌∙◌, Bool, true, false, ◌&&◌, Option, some, arith, ltb,
  ◌==◌, if◌then◌else◌, if-cases, length, u64,
}
use genwqe_user.Zedc.{Rc, ok, stream_end, Format, defl, zlib, gzip, Flush}
use genwqe_user.Inflate.Header.{Verdict, hdr_ok, need_more, hdr_error, zlib_need_dict, rem_loop}
use genwqe_user.Inflate.HeaderTotal.{rem_loop-Removes}
use genwqe_user.Inflate.HeaderDown.{StateFor}
use genwqe_user.Inflate.Stream.{Inf}
use genwqe_user.Inflate.RemHeader.{
  prepare_hdr, with_removed, by_verdict, finish_removal, rem_header_as, rem_header, is_block,
  without_mark,
}
use genwqe_user.Inflate.Setup.{tree_len}
use genwqe_user.Inflate.Scratch.{
  copy_input, copy_scratch, copy_bytes, is_minus, abs_int, sub32, extract_new_tree, scratch_update,
  renew, has_new_tree, setup_tree, tree_copy, kept_bytes, src_offs_of, scratch_at, passed_eob,
  final_eob, drop_tree, keep_input, note_used, processed, is_copyblock, after_upd, post_scratch_upd,
}
use genwqe_user.Inflate.Books.{
  IsValid, Books, books, Balanced, Accounts, Accounts-refl, prepare_hdr-state, tail_of,
}

-- Removing the header gives a result, with the books kept and the block state of the stream as it
-- was.
pub record Removes (s : Inf) (o : Option (Rc × Inf)) : Type 0 where
  pub out : Rc × Inf
  pub runs : o ≡ some out
  pub books : Accounts s out.1
  pub eob : out.1.eob_seen ≡ s.eob_seen
  pub stat : out.1.sr ≡ s.sr
  pub bits : out.1.scratch_bits ≡ s.scratch_bits
  pub tail : tail_of out.1 ≡ tail_of s
  pub not_end : out.0 ≢ stream_end

by_verdict-Removes :
    (w : Verdict) (b : Bool) (s t : Inf)
    → Accounts s t
    → t.eob_seen ≡ s.eob_seen
    → t.sr ≡ s.sr
    → t.scratch_bits ≡ s.scratch_bits
    → tail_of t ≡ tail_of s
    → Removes s (some (by_verdict w b t))
by_verdict-Removes hdr_error b s t a e r i p = record {
  out = by_verdict hdr_error b t;
  runs = refl;
  books = a;
  eob = e;
  stat = r;
  bits = i;
  tail = p;
  not_end = λ q. cc;
}
by_verdict-Removes (zlib_need_dict d) b s t a e r i p = record {
  out = by_verdict (zlib_need_dict d) b t;
  runs = refl;
  books = a;
  eob = e;
  stat = r;
  bits = i;
  tail = p;
  not_end = λ q. cc;
}
by_verdict-Removes hdr_ok true s t a e r i p = record {
  out = by_verdict hdr_ok true t;
  runs = refl;
  books = a;
  eob = e;
  stat = r;
  bits = i;
  tail = p;
  not_end = λ q. cc;
}
by_verdict-Removes hdr_ok false s t a e r i p = record {
  out = (ok, t);
  runs = refl;
  books = a;
  eob = e;
  stat = r;
  bits = i;
  tail = p;
  not_end = λ q. cc;
}
by_verdict-Removes need_more true s t a e r i p = record {
  out = by_verdict need_more true t;
  runs = refl;
  books = a;
  eob = e;
  stat = r;
  bits = i;
  tail = p;
  not_end = λ q. cc;
}
by_verdict-Removes need_more false s t a e r i p = record {
  out = (ok, t);
  runs = refl;
  books = a;
  eob = e;
  stat = r;
  bits = i;
  tail = p;
  not_end = λ q. cc;
}

loop-Removes :
    (t : Format) (b : Bool) (s : Inf)
    → s.format ≡ t
    → t ≢ defl
    → IsValid s
    → Removes s (
        finish_removal
          (rem_loop t s.input (prepare_hdr t s.hdr))
          b
          (record s { data_type = without_mark s.data_type }))
loop-Removes t b s e n v =
    let u : StateFor t s.hdr.header_state = subst (λ f. StateFor f s.hdr.header_state) e v in
    let r =
      rem_loop-Removes t s.input (prepare_hdr t s.hdr) n
        (subst (StateFor t) (sym (prepare_hdr-state t s.hdr)) u) in
    let s' : Inf = with_removed r.out (record s { data_type = without_mark s.data_type }) in
    let a : Accounts s s' = record {
      valid = subst (λ f. StateFor f r.out.hdr.header_state) (sym e) r.keeps;
      input = omega (arith, r.shorter);
      space = refl;
      total = refl;
    } in
    rw r.runs (by_verdict-Removes r.out.verdict b s s' a refl refl refl refl)

rem_header_as-Removes :
    (t : Format) (flush : Flush) (s : Inf)
    → s.format ≡ t
    → IsValid s
    → Removes s (rem_header_as t flush s)
rem_header_as-Removes defl flush s e v = record {
  out = (ok, s);
  runs = refl;
  books = Accounts-refl s v;
  eob = refl;
  stat = refl;
  bits = refl;
  tail = refl;
  not_end = λ q. cc;
}
rem_header_as-Removes zlib flush s e v =
    loop-Removes zlib (s.hdr.prefx_len == 0 && is_block flush) s e (λ q. cc) v
rem_header_as-Removes gzip flush s e v =
    loop-Removes gzip (s.hdr.prefx_len == 0 && is_block flush) s e (λ q. cc) v

pub rem_header-Removes : (flush : Flush) (s : Inf) → IsValid s → Removes s (rem_header flush s)
unfolding rem_header
rem_header-Removes flush s v = rem_header_as-Removes s.format flush s refl v

-- What goes on in the workspace leaves the books alone.
abbrev outer : Inf → Books × ℕ × ℕ
outer s = (books s, s.outp_returned, s.tail.postfx_len)

abbrev Same : Inf → Inf → Type 0
Same s t = outer t ≡ outer s

Same-copy_input : (cnt src target : ℕ) (s : Inf) → Same s (copy_input cnt src target s)
Same-copy_input cnt src target s = if-cases (Same s) (cnt == 0) (λ _. refl) (λ _. refl)

Same-copy_bytes : (cnt src target : ℕ) (s : Inf) → Same s (copy_bytes cnt src target s)
unfolding copy_bytes
Same-copy_bytes cnt src target s =
    let n = abs_int src in
    if-cases (Same s) (ltb 0 cnt && is_minus src)
      (λ _.
        Same-copy_input (sub32 cnt n) 0 (target + n)
          (copy_scratch n (u64 (s.sr.in_hdr_scratch_len + src)) target s))
      (λ _. Same-copy_input cnt src target s)

Same-extract : (s : Inf) → Same s (extract_new_tree s)
unfolding extract_new_tree
Same-extract s = let (cnt, target, src_offs) = tree_copy s in Same-copy_bytes cnt src_offs target s

Same-scratch : (s : Inf) → Same s (scratch_update s)
unfolding scratch_update
Same-scratch s = Same-copy_bytes (kept_bytes s).0 (src_offs_of s) (scratch_at s) s

Same-renew : (s : Inf) → Same s (renew s)
Same-renew s =
    Same-scratch (if has_new_tree s then extract_new_tree s else s)
    ∙ if-cases (Same s) (has_new_tree s) (λ _. Same-extract s) (λ _. refl)

Same-setup_tree : (s : Inf) → Same s (setup_tree s)
unfolding setup_tree
Same-setup_tree s =
    let s₁ : Inf = if passed_eob s then drop_tree s else s in
    let a : Same s s₁ = if-cases (Same s) (passed_eob s) (λ _. refl) (λ _. refl) in
    if-cases (Same s) (passed_eob s && final_eob s) (λ _. a) (λ _. Same-renew s₁ ∙ a)

abbrev SameAfter : Inf → Rc × Inf → Type 0
SameAfter s p = Same s p.1

Same-keep_input : (s : Inf) → SameAfter s (keep_input s)
Same-keep_input s =
    if-cases (SameAfter s) (ltb (sub32 tree_len s.sr.in_hdr_scratch_len) (length s.input))
      (λ _. refl) (λ _. if-cases (SameAfter s) (length s.input == 0) (λ _. refl) (λ _. refl))

Same-after_upd : (rc : Rc) (s t : Inf) → Same s t → SameAfter s (after_upd rc t)
Same-after_upd ok s t a = if-cases (Same s) (is_copyblock t) (λ _. a) (λ _. a)
Same-after_upd _ s t a = a

Same-post_scratch_upd : (s : Inf) → SameAfter s (post_scratch_upd s)
unfolding post_scratch_upd
Same-post_scratch_upd s =
    let p : Rc × Inf = if processed s then (ok, setup_tree (note_used s)) else keep_input s in
    Same-after_upd p.0 s p.1 (
      if-cases (SameAfter s) (processed s) (λ _. Same-setup_tree (note_used s))
        (λ _. Same-keep_input s))

pub Accounts-post_scratch_upd : (s : Inf) → IsValid s → Accounts s (post_scratch_upd s).1
Accounts-post_scratch_upd s v =
    subst (λ (o : Books × ℕ × ℕ). Balanced (books s) o.0) (sym (Same-post_scratch_upd s))
      (Accounts-refl s v)

pub post_scratch_upd-returned : (s : Inf) → (post_scratch_upd s).1.outp_returned ≡ s.outp_returned
post_scratch_upd-returned s = ap (λ (o : Books × ℕ × ℕ). o.1) (Same-post_scratch_upd s)

pub post_scratch_upd-tail_of : (s : Inf) → tail_of (post_scratch_upd s).1 ≡ tail_of s
post_scratch_upd-tail_of s = ap (λ (o : Books × ℕ × ℕ). (o.0.format, o.2)) (Same-post_scratch_upd s)
