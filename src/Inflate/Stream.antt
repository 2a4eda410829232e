-- ===== src/Inflate/Stream.antt =====
-- The part of `struct zedc_stream_s` (include/libzHW.h) that lib/inflate.c works on. The input is
-- the list of the `avail_in` bytes at `next_in`; the output is the list of the bytes stored through
-- `next_out` since the stream was set up.
use genwqe_user.Prelude.{
  ℕ, ◌+◌, ◌-◌, ◌*◌, ◌/◌, ◌^◌, Bool, Option, none, some, List, if◌then◌else◌, u32, u64, ℤ,
}
use genwqe_user.Zedc.{Rc, Format, Flush, Device}
use genwqe_user.Deflate.Stream.{SaveRestore}
use genwqe_user.Inflate.Header.{Hdr}

-- The postfix buffer and what is read of it.
pub record Tail : Type 0 where
  pub postfx : List ℕ
  pub postfx_idx : ℕ
  pub postfx_len : ℕ
  pub file_crc32 : ℕ
  pub file_size : ℕ
  pub file_adler32 : ℕ

pub record Inf : Type 0 where
  pub window_bits : ℤ
  pub data_type : ℕ
  pub flush : Flush
  pub flags : ℕ
  pub input : List ℕ
  pub total_in : ℕ
  pub output : List ℕ
  pub avail_out : ℕ
  pub total_out : ℕ
  pub crc32 : ℕ
  pub adler32 : ℕ
  pub device : Option Device
  pub format : Format
  pub hdr : Hdr
  pub tail : Tail
  pub eob_seen : ℕ
  pub havedict : Bool
  -- `wsp`: whether it is allocated, its two dictionary pages and the area for a tree with scratch
  -- bytes behind it; `wsp_page` is page 1 if `true`.
  pub wsp : Bool
  pub dict0 : List ℕ
  pub dict1 : List ℕ
  pub tree : List ℕ
  pub wsp_page : Bool
  pub dma_in : ℕ
  pub dma_out : ℕ
  pub dma_ws : ℕ
  pub retc : ℕ
  pub attn : ℕ
  pub progress : ℕ
  pub dict_len : ℕ
  pub obytes_in_dict : ℕ
  pub out_dict_offs : ℕ
  pub dict_adler32 : ℕ
  pub inp_processed : ℕ
  pub outp_returned : ℕ
  pub scratch_bits : ℕ
  pub pre_scratch_bits : ℕ
  pub sr : SaveRestore

-- `strm->wsp->dict[strm->wsp_page]`
abbrev pub page : Inf → List ℕ
page s = if s.wsp_page then s.dict1 else s.dict0

-- `zedc->zedc_rc = rc; return rc;`
abbrev pub device_rc : Rc → Option Device → Option Device
device_rc rc none = none
device_rc rc (some d) = some (record d { zedc_rc = rc })

abbrev pub fail : Rc → Inf → Rc × Inf
fail rc s = (rc, record s { device = device_rc rc s.device })

-- inp_proc_update: the sum is a uint64_t and wraps there; the result is a uint32_t.
unfoldable pub inp_proc_update : ℕ → ℕ → ℕ → ℕ
inp_proc_update inp_processed proc_bits pre_scratch_bits =
    u32 (u64 (u64 (inp_processed * 8 + proc_bits + 2 ^ 64 - pre_scratch_bits) + 7) / 8)
