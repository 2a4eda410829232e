-- ===== src/Deflate/Accounts.antt =====
-- What every step of lib/deflate.c keeps: a valid FIFO, and the books of input and output.
use genwqe_user.Prelude.{
  ℕ, ◌+◌, ◌-◌, ◌≤◌, ◌≡◌, refl, ap, ◌∙◌, Bool, true, false, Option, none, some, List, [], ◌∷◌, arith,
  ltb, leb, length, length-append, length-take, length-drop, take, u8, u32, u64, if-cases, Endian,
  has_bit,
}
use genwqe_user.Fifo.{Fifo, push}
use genwqe_user.Fifo.Contents.{IsValid, push_all-IsValid, push-IsValid}
use genwqe_user.Fifo.Refine.{push32-IsValid}
use genwqe_user.Zedc.{Format, defl, zlib, gzip}
use genwqe_user.Deflate.Stream.{Stream, GzipHead, write_out_fifo}
use genwqe_user.Deflate.OutLaws.{write_out_fifo_lem}
use genwqe_user.Deflate.Header.{
  add_header, add_header_as, add_gzip, add_zlib, push_header, push_if, too_long, header_flags,
  no_head,
}
use genwqe_user.Deflate.Ending.{write_eob, add_trailer, push_trailer, sync_flush_out}
use genwqe_user.Deflate.Results.{
  Asv, spill, store_bits, store_bits_v1, store_bits_v0, some_left, consume, produce,
}

-- `t` is what a step makes of `s`: the bytes consumed are counted in `total_in`, the bytes written
-- use up `avail_out` and are counted in `total_out` (counters of 64 bits).
pub record Accounts (s t : Stream) : Type 0 where
  pub valid : IsValid t.out_fifo
  pub input : u64 (t.total_in + length t.input) ≡ u64 (s.total_in + length s.input)
  pub space : t.avail_out + length t.output ≡ s.avail_out + length s.output
  pub total : u64 (t.total_out + t.avail_out) ≡ u64 (s.total_out + s.avail_out)

pub Accounts-refl : (s : Stream) → IsValid s.out_fifo → Accounts s s
Accounts-refl s v = record { valid = v; input = refl; space = refl; total = refl }

pub Accounts-trans : (s t u : Stream) → Accounts s t → Accounts t u → Accounts s u
Accounts-trans s t u a b = record {
  valid = b.valid;
  input = b.input ∙ a.input;
  space = b.space ∙ a.space;
  total = b.total ∙ a.total;
}

pub Accounts-write_out : (s : Stream) → IsValid s.out_fifo → Accounts s (write_out_fifo s)
Accounts-write_out s v =
    let m = (write_out_fifo_lem s v).moved in
    record {
      valid = m.valid;
      input = ap (λ (w : Stream). u64 (w.total_in + length w.input)) m.frame;
      space = m.space;
      total = m.total;
    }

push_if-IsValid : (b : Bool) (xs : List ℕ) (f : Fifo) → IsValid f → IsValid (push_if b xs f)
push_if-IsValid true xs f v = push_all-IsValid xs f v
push_if-IsValid false xs f v = v

push_header-IsValid :
    (host : Endian) (flg mt os : ℕ) (h : GzipHead) (f : Fifo)
    → IsValid f
    → IsValid (push_header host flg mt os h f)
unfolding push_header
push_header-IsValid host flg mt os h f v = push_if-IsValid (has_bit flg 1) _ _ (
    push_if-IsValid (has_bit flg 4) _ _ (
      push_if-IsValid (has_bit flg 3) _ _ (
        push_if-IsValid (has_bit flg 2) _ _
          (push_all-IsValid _ _ (push32-IsValid host _ _ (push_all-IsValid _ f v))))))

add_gzip-IsValid :
    (host : Endian) (now : ℕ) (h : Option GzipHead) (f : Fifo)
    → IsValid f
    → IsValid (add_gzip host now h f).1
unfolding add_gzip
add_gzip-IsValid host now none f v =
    push_header-IsValid host 0 (u32 now) 0xff no_head _
      (push_all-IsValid (0x1f ∷ 0x8b ∷ 0x08 ∷ []) f v)
add_gzip-IsValid host now (some h) f v =
    if-cases (λ (p : Bool × Fifo). IsValid p.1) (too_long h) (λ _. push_all-IsValid _ f v)
      (λ _.
        push_header-IsValid host (header_flags h) (u32 h.time) (u8 h.os) h _
          (push_all-IsValid (0x1f ∷ 0x8b ∷ 0x08 ∷ []) f v))

add_zlib-IsValid :
    (host : Endian) (b : Bool) (x : ℕ) (f : Fifo) → IsValid f → IsValid (add_zlib host b x f)
unfolding add_zlib
add_zlib-IsValid host b x f v =
    if-cases IsValid b (λ _. push32-IsValid host _ _ (push_all-IsValid _ f v))
      (λ _. push_all-IsValid _ f v)

Accounts-header_as :
    (host : Endian) (now : ℕ) (t : Format) (s : Stream)
    → IsValid s.out_fifo
    → Accounts s (add_header_as host now t s).1
unfolding add_header_as
Accounts-header_as host now defl s v = Accounts-refl s v
Accounts-header_as host now gzip s v = record {
  valid = add_gzip-IsValid host now s.gzip_head s.out_fifo v;
  input = refl;
  space = refl;
  total = refl;
}
Accounts-header_as host now zlib s v = record {
  valid = add_zlib-IsValid host s.havedict s.dict_adler32 s.out_fifo v;
  input = refl;
  space = refl;
  total = refl;
}

pub Accounts-header :
    (host : Endian) (now : ℕ) (s : Stream)
    → IsValid s.out_fifo
    → Accounts s (add_header host now s).1
unfolding add_header
Accounts-header host now s v = Accounts-header_as host now s.format s v

pub Accounts-eob : (s : Stream) → IsValid s.out_fifo → Accounts s (write_eob s).1
unfolding write_eob
Accounts-eob s v =
    if-cases (λ (p : Bool × Stream). Accounts s p.1) s.eob_added (λ _. Accounts-refl s v)
      (λ _.
        if-cases (λ (p : Bool × Stream). Accounts s p.1) (leb 8 s.onumbits) (λ _. Accounts-refl s v)
          (λ _. record {
            valid = push_all-IsValid _ _ v;
            input = refl;
            space = refl;
            total = refl;
          }))

push_trailer-IsValid :
    (host : Endian) (t : Format) (crc adler total : ℕ) (f : Fifo)
    → IsValid f
    → IsValid (push_trailer host t crc adler total f)
unfolding push_trailer
push_trailer-IsValid host defl crc adler total f v = v
push_trailer-IsValid host gzip crc adler total f v =
    push32-IsValid host _ _ (push32-IsValid host _ _ v)
push_trailer-IsValid host zlib crc adler total f v = push32-IsValid host _ _ v

pub Accounts-trailer :
    (host : Endian) (s : Stream) → IsValid s.out_fifo → Accounts s (add_trailer host s).1
unfolding add_trailer
Accounts-trailer host s v =
    if-cases (λ (p : Bool × Stream). Accounts s p.1) s.eob_added
      (λ _.
        if-cases (λ (p : Bool × Stream). Accounts s p.1) s.trailer_added (λ _. Accounts-refl s v)
          (λ _. record {
            valid = push_trailer-IsValid host s.format s.crc32 s.adler32 s.total_in _ v;
            input = refl;
            space = refl;
            total = refl;
          }))
      (λ _. Accounts-refl s v)

pub Accounts-sync : (s : Stream) → IsValid s.out_fifo → Accounts s (sync_flush_out s)
unfolding sync_flush_out
Accounts-sync s v = record {
  valid = push_all-IsValid _ _ (push_all-IsValid _ _ v);
  input = refl;
  space = refl;
  total = refl;
}

spill-IsValid : (bs : List ℕ) (f : Fifo) (n : ℕ) → IsValid f → IsValid (spill f bs n).0
unfolding spill
spill-IsValid [] f n v = v
spill-IsValid (b ∷ bs) f n v =
    if-cases (λ (p : Fifo × ℕ × List ℕ). IsValid p.0) (ltb 7 n)
      (λ _. spill-IsValid bs (push f b).1 (n - 8) (push-IsValid f b v)) (λ _. v)

pub Accounts-store :
    (dyn : Bool) (asv : Asv) (s : Stream) → IsValid s.out_fifo → Accounts s (store_bits dyn asv s)
unfolding store_bits_v1 store_bits_v0
Accounts-store true asv s v =
    let v' = spill-IsValid asv.obits s.out_fifo asv.onumbits v in
    if-cases (Accounts s)
      (some_left (spill s.out_fifo asv.obits asv.onumbits).1
        (spill s.out_fifo asv.obits asv.onumbits).2)
      (λ _. record { valid = v'; input = refl; space = refl; total = refl })
      (λ _. record {
        valid = spill-IsValid asv.obits_extra _ _ v';
        input = refl;
        space = refl;
        total = refl;
      })
Accounts-store false asv s v = record {
  valid = spill-IsValid (take 23 asv.obits) s.out_fifo asv.onumbits v;
  input = refl;
  space = refl;
  total = refl;
}

pub Accounts-consume :
    (asv : Asv) (s : Stream)
    → IsValid s.out_fifo
    → asv.inp_processed ≤ length s.input
    → Accounts s (consume asv s)
Accounts-consume asv s v h = record {
  valid = v;
  input = omega (arith, length-drop asv.inp_processed s.input);
  space = refl;
  total = refl;
}

pub Accounts-produce :
    (asv : Asv) (stored : List ℕ) (s : Stream)
    → IsValid s.out_fifo
    → asv.outp_returned ≤ s.avail_out
    → asv.outp_returned ≤ length stored
    → Accounts s (produce asv stored s)
Accounts-produce asv stored s v h l = record {
  valid = v;
  input = refl;
  space = omega (
    arith,
    length-append s.output (take asv.outp_returned stored),
    length-take asv.outp_returned stored,
  );
  total = omega arith;
}
