-- ===== src/Inflate/Asv.antt =====
-- lib/inflate.c: get_inflate_asv and set_inflate_asiv, between the stream and the command block.
use genwqe_user.Prelude.{
  ℕ, ◌+◌, ◌/◌, ◌%◌, ◌^◌, Bool, not, Option, some, drop, ◌||◌, List, length, ◌==◌, if◌then◌else◌,
  u32,
}
use genwqe_user.Zedc.{dict_len_max}
use genwqe_user.Deflate.Stream.{SaveRestore}
use genwqe_user.Inflate.Stream.{Inf, page}

-- `struct zedc_asv_infl`, in host byte order.
pub record AsvInfl : Type 0 where
  pub inp_processed : ℕ
  pub outp_returned : ℕ
  pub proc_bits : ℕ
  pub out_hdr_bits : ℕ
  pub hdr_start : ℕ
  pub hdr_start_bits : ℕ
  pub copyblock_len : ℕ
  pub out_crc32 : ℕ
  pub out_adler32 : ℕ
  pub out_dict_used : ℕ
  pub out_dict_offs : ℕ
  pub obytes_in_dict : ℕ
  pub infl_stat : ℕ

-- get_inflate_asv
unfoldable pub get_inflate_asv : AsvInfl → Inf → Inf
get_inflate_asv asv s =
    let progressed = not (asv.inp_processed == 0) || not (asv.proc_bits == 0) in
    let sr : SaveRestore =
      if progressed
      then record s.sr {
        out_hdr_bits = asv.out_hdr_bits;
        hdr_start = asv.hdr_start;
        out_hdr_start_bits = asv.hdr_start_bits;
      }
      else s.sr in
    record s {
      crc32 = asv.out_crc32;
      adler32 = asv.out_adler32;
      dict_len = asv.out_dict_used;
      out_dict_offs = asv.out_dict_offs;
      outp_returned = asv.outp_returned;
      inp_processed = asv.inp_processed;
      obytes_in_dict = asv.obytes_in_dict;
      sr = record sr {
        copyblock_len = asv.copyblock_len;
        proc_bits = asv.proc_bits;
        infl_stat = asv.infl_stat;
      };
    }

-- `struct zedc_asiv_infl`, in host byte order. Addresses are the bytes that they point at;
-- `out_dict` is the page to write, or none for the address 0.
pub record AsivInfl : Type 0 where
  pub in_buff : List ℕ
  pub in_buff_len : ℕ
  pub out_buff_len : ℕ
  pub in_scratch_len : ℕ
  pub scratch_ib : ℕ
  pub hdr_ib : ℕ
  pub in_hdr_bits : ℕ
  pub inp_scratch : List ℕ
  pub in_dict : List ℕ
  pub out_dict : Option Bool
  pub in_dict_len : ℕ
  pub out_dict_len : ℕ
  pub in_crc32 : ℕ
  pub in_adler32 : ℕ

-- `hdr_ib + tree_bits + pad_bits + scratch_ib + scratch_bits`, over uint32_t
abbrev pub scratch_total : Inf → ℕ
scratch_total s =
    u32 (s.sr.hdr_ib + s.sr.tree_bits + s.sr.pad_bits + s.sr.scratch_ib + s.scratch_bits)

-- set_inflate_asiv, without its two warnings.
unfoldable pub set_inflate_asiv : Inf → AsivInfl × Inf
set_inflate_asiv s = (
  record {
    in_buff = s.input;
    in_buff_len = length s.input;
    out_buff_len = s.avail_out;
    in_scratch_len = scratch_total s / 8;
    scratch_ib = s.sr.scratch_ib;
    hdr_ib = s.sr.hdr_ib;
    in_hdr_bits = s.sr.tree_bits % 2 ^ 16;
    inp_scratch = s.tree;
    in_dict = drop s.out_dict_offs (page s);
    out_dict = some (not s.wsp_page);
    in_dict_len = s.dict_len;
    out_dict_len = dict_len_max;
    in_crc32 = s.crc32;
    in_adler32 = s.adler32;
  },
  record s {
    wsp_page = not s.wsp_page;
    pre_scratch_bits = u32 (s.sr.tree_bits + s.scratch_bits);
    sr = record s.sr {
      in_hdr_scratch_len = scratch_total s / 8;
      in_hdr_bits = s.sr.tree_bits % 2 ^ 16;
    };
  },
)
