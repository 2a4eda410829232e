-- ===== src/Inflate/TrailerEnd.antt =====
-- lib/inflate.c: what inflate_format_rem_trailer has taken when it returns ZEDC_OK.
use genwqe_user.Prelude.{
  arith, ==_iff, Bool, ℕ, ◌≡◌, ◌≢◌, ◌⊎◌, inl, inr, refl, subst, ◌∙◌, false, List, [], ◌∷◌, ltb,
  ◌==◌, if-cases, Bool-cases,
}
use genwqe_user.Zedc.{err_crc32, err_adler32, Rc, Format, defl, zlib, gzip}
use genwqe_user.Inflate.Stream.{Inf, Tail}
use genwqe_user.Inflate.Trailer.{
  Removal, removed, re_enter, refused, Check, passed, mismatch, rem_trailer_as, trailer_loop,
  after_check, check_tail, check_end, check_middle, and_end, compare_as, word_le, word_be, stored,
  at_end, taken, prepare_tail,
}
use genwqe_user.Inflate.Books.{tail_of}

-- The bytes of the trailer, RFC 1952 for gzip and RFC 1950 for zlib.
abbrev pub trailer_size : Format → ℕ
trailer_size gzip = 8
trailer_size zlib = 4
trailer_size defl = 0

abbrev pub Fits : Format × ℕ → Type 0
Fits o = (o.1 ≡ 0) ⊎ (o.1 ≡ trailer_size o.0)

-- The length of the trailer is not set yet, or it is the one of the format.
abbrev pub TailFits : Inf → Type 0
TailFits s = Fits (tail_of s)

-- All bytes of the trailer were taken, or the format has none.
abbrev pub TrailerDone : Inf → Type 0
TrailerDone s = (s.format ≡ defl) ⊎ (s.tail.postfx_idx ≡ trailer_size s.format)

abbrev pub Seen : Inf → Type 0
Seen s = s.eob_seen == 0 ≡ false

-- The trailer can be taken.
record Ready (s : Inf) : Type 0 where
  seen : Seen s
  size : s.tail.postfx_len ≡ trailer_size s.format

-- A trailer that is removed is done.
abbrev pub RemovesDone : Removal × Inf → Type 0
RemovesDone (removed, s) = Seen s × TrailerDone s
RemovesDone (re_enter, s) = Unit
RemovesDone (refused rc, s) = Unit

at_end-RemovesDone : (s : Inf) → Ready s → RemovesDone (at_end s)
at_end-RemovesDone s r = elim (Bool-cases (s.tail.postfx_idx == s.tail.postfx_len)) [
  | inl full ↦ rw full (r.seen, inr ((==_iff _ _).0 full ∙ r.size))
  | inr more ↦ rw more tt
]

-- A check leaves the length of the trailer as it is.
abbrev pub HasLen : ℕ → Check → Type 0
HasLen n (passed t) = t.postfx_len ≡ n
HasLen n (mismatch rc t) = t.postfx_len ≡ n

compare_as-HasLen : (b : Bool) (rc : Rc) (t : Tail) → HasLen t.postfx_len (compare_as b rc t)
compare_as-HasLen b rc t = if-cases (HasLen t.postfx_len) b (λ _. refl) (λ _. refl)

check_middle-HasLen : (f : Format) (s : Inf) (t : Tail) → HasLen t.postfx_len (check_middle f s t)
check_middle-HasLen gzip s t =
    if-cases (HasLen t.postfx_len) (t.postfx_idx == 4)
      (λ _.
        compare_as-HasLen (word_le t.postfx 0 == s.crc32) err_crc32
          (record t { file_crc32 = word_le t.postfx 0 }))
      (λ _. refl)
check_middle-HasLen zlib s t = refl
check_middle-HasLen defl s t = refl

check_end-HasLen : (f : Format) (s : Inf) (t : Tail) → HasLen t.postfx_len (check_end f s t)
unfolding check_end
check_end-HasLen gzip s t =
    compare_as-HasLen (word_le t.postfx 0 == s.crc32) err_crc32
      (record t { file_crc32 = word_le t.postfx 0; file_size = word_le t.postfx 4 })
check_end-HasLen zlib s t =
    compare_as-HasLen (word_be t.postfx 0 == s.adler32) err_adler32
      (record t { file_adler32 = word_be t.postfx 0 })
check_end-HasLen defl s t =
    compare_as-HasLen (word_be t.postfx 0 == s.adler32) err_adler32
      (record t { file_adler32 = word_be t.postfx 0 })

and_end-HasLen : (n : ℕ) (k : Check) (s : Inf) → HasLen n k → HasLen n (and_end k s)
and_end-HasLen n (mismatch rc t) s h = h
and_end-HasLen n (passed t) s h =
    if-cases (HasLen n) (ltb t.postfx_idx t.postfx_len) (λ _. h)
      (λ _. subst (λ m. HasLen m (check_end s.format s t)) h (check_end-HasLen s.format s t))

pub check_tail-HasLen : (s : Inf) (t : Tail) → HasLen t.postfx_len (check_tail s t)
unfolding check_tail
check_tail-HasLen s t =
    and_end-HasLen t.postfx_len (check_middle s.format s t) s (check_middle-HasLen s.format s t)

after_check-RemovesDone :
    (cs : List ℕ) (s : Inf) (k : Check)
    → Ready s
    → HasLen s.tail.postfx_len k
    → ((t : Inf) → Ready t → RemovesDone (trailer_loop cs t))
    → RemovesDone (after_check k cs s (trailer_loop cs))
after_check-RemovesDone cs s (mismatch rc t) r l ih = tt
after_check-RemovesDone cs s (passed t) r l ih =
    ih (taken cs s t) (record { seen = r.seen; size = l ∙ r.size })

trailer_loop-RemovesDone : (cs : List ℕ) (s : Inf) → Ready s → RemovesDone (trailer_loop cs s)
unfolding trailer_loop
trailer_loop-RemovesDone [] s r = at_end-RemovesDone s r
trailer_loop-RemovesDone (c ∷ cs) s r =
    if-cases RemovesDone (ltb s.tail.postfx_idx s.tail.postfx_len)
      (λ _.
        after_check-RemovesDone cs s (check_tail s (stored c s.tail)) r
          (check_tail-HasLen s (stored c s.tail)) (trailer_loop-RemovesDone cs))
      (λ _. at_end-RemovesDone s r)

set_before : {n m : ℕ} → (n ≡ 0) ⊎ (n ≡ m) → n == 0 ≡ false → n ≡ m
set_before (inl h) z = absurd (ground arith)
set_before (inr h) z = h

-- The length of the trailer is the one of the format.
abbrev Sized : Inf → Type 0
Sized s = s.tail.postfx_len ≡ trailer_size s.format

pub prepare_tail-Sized :
    (t : Format) (s : Inf) → t ≢ defl → s.format ≡ t → TailFits s → Sized (prepare_tail s)
unfolding prepare_tail
prepare_tail-Sized defl s n f fits = absurd (n refl)
prepare_tail-Sized zlib s n f fits =
    if-cases Sized (s.tail.postfx_len == 0) (λ _. rw f refl) (λ z. set_before fits z)
prepare_tail-Sized gzip s n f fits =
    if-cases Sized (s.tail.postfx_len == 0) (λ _. rw f refl) (λ z. set_before fits z)

prepare_tail-Seen : (s : Inf) → Seen s → Seen (prepare_tail s)
unfolding prepare_tail
prepare_tail-Seen s e = if-cases Seen (s.tail.postfx_len == 0) (λ _. e) (λ _. e)

prepare_tail-Ready :
    (t : Format) (s : Inf) → t ≢ defl → s.format ≡ t → TailFits s → Seen s → Ready (prepare_tail s)
prepare_tail-Ready t s n f fits e = record {
  seen = prepare_tail-Seen s e;
  size = prepare_tail-Sized t s n f fits;
}

pub rem_trailer_as-RemovesDone :
    (t : Format) (s : Inf) → s.format ≡ t → TailFits s → Seen s → RemovesDone (rem_trailer_as t s)
rem_trailer_as-RemovesDone defl s f fits e = (e, inl f)
rem_trailer_as-RemovesDone zlib s f fits e =
    trailer_loop-RemovesDone s.input _ (prepare_tail-Ready zlib s (λ q. cc) f fits e)
rem_trailer_as-RemovesDone gzip s f fits e =
    trailer_loop-RemovesDone s.input _ (prepare_tail-Ready gzip s (λ q. cc) f fits e)
