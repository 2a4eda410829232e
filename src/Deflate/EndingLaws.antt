-- ===== src/Deflate/EndingLaws.antt =====
-- deflate_write_eob, deflate_sync_flush and deflate_add_trailer (lib/deflate.c) against the bit
-- patterns of RFC 1951 and the trailers of RFC 1950 and RFC 1952.
use genwqe_user.Prelude.{
  ℕ, zero, suc, ◌+◌, ◌*◌, ◌%◌, ◌^◌, ◌≤◌, ◌<◌, ◌≡◌, refl, ap, ◌∙◌, true, false, List, [], ◌∷◌, ◌++◌,
  arith, length, le_bytes, be_bytes, u32, Endian, All, IsByte, lt→not_leb,
}
use genwqe_user.Fifo.{Fifo, used, push_all}
use genwqe_user.Fifo.Contents.{IsValid}
use genwqe_user.Fifo.Appended.{
  Appended, used-Appended, Appended-nil, Appended-trans, Appended-push_all, Appended-push32_le,
  Appended-push32_be,
}
use genwqe_user.Zedc.{Format, defl, zlib, gzip}
use genwqe_user.Deflate.Stream.{Stream}
use genwqe_user.Deflate.Ending.{eob_bytes, write_eob, flush_bits, push_trailer, add_trailer}

-- The number that a run of bytes spells, lowest bit first, as RFC 1951 packs bits.
unfoldable pub bits_value : List ℕ → ℕ
bits_value [] = 0
bits_value (b ∷ bs) = b + 256 * bits_value bs

-- Behind `n` pending bits, fewer than 8, deflate_write_eob stores three bytes whose value, lowest
-- bit first, is that of the pending bits followed by 7 zero bits, BFINAL = 1 with BTYPE = 01, and
-- 7 zero bits.
pub eob_bytes_value :
    (obyte n : ℕ)
    → n < 8
    → (bits_value (eob_bytes obyte n) ≡ obyte % 2 ^ n + 2 ^ n * (3 * 2 ^ 7))
      × (length (eob_bytes obyte n) ≡ 3)
      × All IsByte (eob_bytes obyte n)
unfolding bits_value eob_bytes
eob_bytes_value o zero h = omega arith
eob_bytes_value o (suc zero) h = omega arith
eob_bytes_value o (suc (suc zero)) h = omega arith
eob_bytes_value o (suc (suc (suc zero))) h = omega arith
eob_bytes_value o (suc (suc (suc (suc zero)))) h = omega arith
eob_bytes_value o (suc (suc (suc (suc (suc zero))))) h = omega arith
eob_bytes_value o (suc (suc (suc (suc (suc (suc zero)))))) h = omega arith
eob_bytes_value o (suc (suc (suc (suc (suc (suc (suc zero))))))) h = omega arith
eob_bytes_value o (suc (suc (suc (suc (suc (suc (suc (suc n)))))))) h = absurd (omega arith)

-- A sync flush with fewer than 8 pending bits keeps them and appends only zero bits: at least the
-- 7 that end the block and the 3 of the header of a stored block, and no whole byte more.
pub flush_bits_value :
    (obyte n : ℕ)
    → n < 8
    → (bits_value (flush_bits obyte n) ≡ obyte % 2 ^ n)
      × (n + 10 ≤ 8 * length (flush_bits obyte n))
      × (8 * length (flush_bits obyte n) < n + 18)
unfolding bits_value flush_bits
flush_bits_value o zero h = omega arith
flush_bits_value o (suc zero) h = omega arith
flush_bits_value o (suc (suc zero)) h = omega arith
flush_bits_value o (suc (suc (suc zero))) h = omega arith
flush_bits_value o (suc (suc (suc (suc zero)))) h = omega arith
flush_bits_value o (suc (suc (suc (suc (suc zero))))) h = omega arith
flush_bits_value o (suc (suc (suc (suc (suc (suc zero)))))) h = omega arith
flush_bits_value o (suc (suc (suc (suc (suc (suc (suc zero))))))) h = omega arith
flush_bits_value o (suc (suc (suc (suc (suc (suc (suc (suc n)))))))) h = absurd (omega arith)

-- The trailer that the format asks for.
unfoldable pub trailer : Format → ℕ → ℕ → ℕ → List ℕ
trailer defl crc32 adler32 total_in = []
trailer gzip crc32 adler32 total_in = le_bytes crc32 ++ le_bytes (u32 total_in)
trailer zlib crc32 adler32 total_in = be_bytes adler32

pub Appended-push_trailer :
    (host : Endian) (t : Format) (crc adler total : ℕ) (f : Fifo)
    → IsValid f
    → used f ≤ 247
    → Appended f (trailer t crc adler total) (push_trailer host t crc adler total f)
unfolding push_trailer trailer
Appended-push_trailer host defl crc adler total f v h = Appended-nil f v
Appended-push_trailer host gzip crc adler total f v h =
    let a = Appended-push32_le host f crc v (omega arith) in
    Appended-trans f _ _ (le_bytes crc) _ a (
      Appended-push32_le host _ (u32 total) a.valid
        (omega (arith, used-Appended f _ (le_bytes crc) a)))
Appended-push_trailer host zlib crc adler total f v h =
    Appended-push32_be host f adler v (omega arith)

length-trailer : (t : Format) (crc adler total : ℕ) → length (trailer t crc adler total) ≤ 8
unfolding trailer
length-trailer defl crc adler total = omega arith
length-trailer gzip crc adler total = omega arith
length-trailer zlib crc adler total = omega arith

-- The end of a stream, written once: deflate_write_eob, then deflate_add_trailer.
abbrev pub ended : Endian → Stream → Stream
ended host s = (add_trailer host (write_eob s).1).1

abbrev pub end_bytes : Stream → List ℕ
end_bytes s = eob_bytes s.obyte s.onumbits ++ trailer s.format s.crc32 s.adler32 s.total_in

write_eob-first :
    (s : Stream)
    → s.eob_added ≡ false
    → s.onumbits < 8
    → (write_eob s).1 ≡ record s {
      out_fifo = push_all s.out_fifo (eob_bytes s.obyte s.onumbits);
      onumbits = 0;
      eob_added = true;
    }
unfolding write_eob
write_eob-first s e bits = rw (e, lt→not_leb s.onumbits 8 bits)

add_trailer-first :
    (host : Endian) (s : Stream)
    → s.eob_added ≡ true
    → s.trailer_added ≡ false
    → (add_trailer host s).1 ≡ record s {
      out_fifo = push_trailer host s.format s.crc32 s.adler32 s.total_in s.out_fifo;
      trailer_added = true;
    }
unfolding add_trailer
add_trailer-first host s e t = rw e (rw t)

ended-first :
    (host : Endian) (s : Stream)
    → s.eob_added ≡ false
    → s.trailer_added ≡ false
    → s.onumbits < 8
    → ended host s ≡ record s {
      out_fifo =
          push_trailer host s.format s.crc32 s.adler32 s.total_in
            (push_all s.out_fifo (eob_bytes s.obyte s.onumbits));
      onumbits = 0;
      eob_added = true;
      trailer_added = true;
    }
ended-first host s e t bits =
    ap (λ (w : Stream). (add_trailer host w).1) (write_eob-first s e bits)
    ∙ add_trailer-first host
        (record s {
          out_fifo = push_all s.out_fifo (eob_bytes s.obyte s.onumbits);
          onumbits = 0;
          eob_added = true;
        })
        refl t

-- At the first end of a stream with fewer than 8 pending bits, a valid FIFO with at most 244 bytes
-- in use gets the end of block and the trailer of the format appended; both steps are then marked
-- as done.
pub ended_bytes :
    (host : Endian) (s : Stream)
    → IsValid s.out_fifo
    → used s.out_fifo ≤ 244
    → s.onumbits < 8
    → s.eob_added ≡ false
    → s.trailer_added ≡ false
    → Appended s.out_fifo (end_bytes s) (ended host s).out_fifo
      × ((ended host s).eob_added ≡ true)
      × ((ended host s).trailer_added ≡ true)
ended_bytes host s v room bits e t =
    let f = push_all s.out_fifo (eob_bytes s.obyte s.onumbits) in
    let three : length (eob_bytes s.obyte s.onumbits) ≡ 3 =
      (eob_bytes_value s.obyte s.onumbits bits).1 in
    let a : Appended s.out_fifo (eob_bytes s.obyte s.onumbits) f =
      Appended-push_all s.out_fifo _ v (omega arith) in
    rw (ended-first host s e t bits) (
      Appended-trans s.out_fifo f _ _ _ a (
          Appended-push_trailer host s.format s.crc32 s.adler32 s.total_in f a.valid
            (omega (arith, used-Appended s.out_fifo f _ a))),
      refl,
      refl,
    )
