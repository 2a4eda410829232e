-- ===== src/Inflate/RemHeader.antt =====
-- lib/inflate.c: inflate_format_rem_header, which takes the header off the input of a stream.
use genwqe_user.Prelude.{
  ℕ, ◌+◌, ◌-◌, ◌^◌, Bool, true, false, ◌&&◌, Option, none, some, ◌==◌, if◌then◌else◌, length,
  has_bit, u64,
}
use genwqe_user.Zedc.{Rc, ok, need_dict, err_gzip_hdr, Format, defl, gzip, Flush, block}
use genwqe_user.Inflate.Header.{Hdr, Verdict, hdr_error, zlib_need_dict, Removed, rem_loop}
use genwqe_user.Inflate.Stream.{Inf, fail}

-- `data_type &= ~0x80` and `data_type |= 0x80`
abbrev pub without_mark : ℕ → ℕ
without_mark t = if has_bit t 7 then t - 2 ^ 7 else t

abbrev pub with_mark : ℕ → ℕ
with_mark t = if has_bit t 7 then t else t + 2 ^ 7

abbrev pub header_len : Format → ℕ
header_len gzip = 10
header_len _ = 2

abbrev pub is_block : Flush → Bool
is_block block = true
is_block _ = false

-- `if (strm->prefx_len == 0) { ... }`
abbrev pub prepare_hdr : Format → Hdr → Hdr
prepare_hdr t h =
    if h.prefx_len == 0 then record h { prefx_idx = 0; prefx_len = header_len t } else h

abbrev pub mark_block : Bool → Inf → Inf
mark_block b s = if b then record s { data_type = with_mark s.data_type } else s

-- What the loop leaves in the stream: its counters go with every byte taken.
abbrev pub with_removed : Removed → Inf → Inf
with_removed r s = record s {
  input = r.rest;
  total_in = u64 (s.total_in + (length s.input - length r.rest));
  hdr = r.hdr;
}

-- The end of the function, by the last verdict; the signal in `data_type` goes with ZEDC_OK only.
abbrev pub by_verdict : Verdict → Bool → Inf → Rc × Inf
by_verdict hdr_error b s = fail err_gzip_hdr s
by_verdict (zlib_need_dict a) b s =
    (need_dict, record s { dict_adler32 = a; adler32 = a; havedict = false })
by_verdict _ b s = (ok, mark_block b s)

abbrev pub finish_removal : Option Removed → Bool → Inf → Option (Rc × Inf)
finish_removal none b s = none
finish_removal (some r) b s = some (by_verdict r.verdict b (with_removed r s))

abbrev pub rem_header_as : Format → Flush → Inf → Option (Rc × Inf)
rem_header_as defl flush s = some (ok, s)
rem_header_as t flush s =
    finish_removal (rem_loop t s.input (prepare_hdr t s.hdr))
      (s.hdr.prefx_len == 0 && is_block flush) (record s { data_type = without_mark s.data_type })

-- inflate_format_rem_header
unfoldable pub rem_header : Flush → Inf → Option (Rc × Inf)
unfolding rem_loop
rem_header flush s = rem_header_as s.format flush s
