-- ===== src/Zedc.antt =====
-- include/libzHW.h, lib/hw_defs.h and lib/libzHW.c: what compression and decompression share, which
-- is return codes, formats, flush modes, the device handle, the workspace and the checksum of a
-- dictionary.
use genwqe_user.Prelude.{
  ℕ, ◌+◌, ◌-◌, ◌*◌, ◌/◌, ◌%◌, ◌^◌, Bool, true, false, ◌&&◌, Option, none, some, List, [], ◌∷◌, leb,
  ◌==◌, if◌then◌else◌, ℤ, pos, negsuc, leb_ℤ,
}

-- The return codes ZEDC_OK, ZEDC_STREAM_END, ... that the streams return.
pub data Rc : Type 0 where
  ok stream_end need_dict : Rc
  errno stream_error data_error mem_error buf_error : Rc
  err_card err_inval err_retlen err_retobits err_tree_overrun err_zlib_hdr err_adler32 : Rc
  err_gzip_hdr err_crc32 err_unsupported err_dict_overrun err_inp_missing err_illegal_appid : Rc

-- `rc < 0`
abbrev pub is_negative : Rc → Bool
is_negative ok = false
is_negative stream_end = false
is_negative need_dict = false
is_negative _ = true

-- `rc == ZEDC_OK`
abbrev pub is_ok : Rc → Bool
is_ok ok = true
is_ok _ = false

-- ZEDC_FORMAT_DEFL, ZEDC_FORMAT_ZLIB, ZEDC_FORMAT_GZIP
pub data Format : Type 0 where
  defl zlib gzip : Format

-- ZEDC_NO_FLUSH to ZEDC_BLOCK
pub data Flush : Type 0 where
  no_flush partial_flush sync_flush full_flush finish block : Flush

-- What the streams read of `struct zedc_dev_t` and of the card behind it.
pub record Device : Type 0 where
  pub app_id : ℕ
  pub zedc_rc : Rc

-- is_zedc: `(app_id & 0xFFFFFFFF) == 0x475a4950`
unfoldable pub is_zedc : Device → Bool
is_zedc d = d.app_id % 2 ^ 32 == 0x475a4950

-- dyn_huffman_supported: `(app_id & 0xFF00000000) >= 0x0200000000`
unfoldable pub dyn_huffman_supported : Device → Bool
dyn_huffman_supported d = leb 2 (d.app_id / 2 ^ 32 % 2 ^ 8)

-- zedc_format_init: the format, or ZEDC_DATA_ERROR for `none`.
unfoldable pub format_init : ℤ → Option Format
format_init bits =
    if leb_ℤ bits (negsuc 7) && leb_ℤ (negsuc 14) bits
    then some defl
    else if leb_ℤ (pos 8) bits && leb_ℤ bits (pos 15)
    then some zlib
    else if leb_ℤ (pos 16) bits && leb_ℤ bits (pos 23)
    then some gzip
    else if leb_ℤ (pos 24) bits && leb_ℤ bits (pos 31)
    then some gzip
    else none

-- The loop of __adler32, with its two sums.
unfoldable pub adler_sums : ℕ → ℕ → List ℕ → ℕ × ℕ
adler_sums s1 s2 [] = (s1, s2)
adler_sums s1 s2 (b ∷ bs) = let s1' = (s1 + b) % 65521 in adler_sums s1' ((s2 + s1') % 65521) bs

-- __adler32
unfoldable pub adler32 : ℕ → List ℕ → ℕ
unfolding adler_sums
adler32 adler buf =
    let (s1, s2) = adler_sums (adler % 2 ^ 16) (adler / 2 ^ 16 % 2 ^ 16) buf in s2 * 2 ^ 16 + s1

-- ZEDC_DICT_LEN
abbrev pub dict_len_max : ℕ
dict_len_max = 0x8000 + 16

-- `(t & DDCB_DMA_TYPE_MASK) == DDCB_DMA_TYPE_FLAT`
abbrev pub is_flat : ℕ → Bool
is_flat t = t / 2 ^ 3 % 4 == 1

-- ATS_SET_FLAGS of a field at the offset `off`.
abbrev pub ats_set_flags : ℕ → ℕ → ℕ
ats_set_flags off flags = flags % 16 * 2 ^ (44 - 4 * (off / 8))

-- ATS_TYPE_FLAT_RD, ATS_TYPE_FLAT_RDWR, ATS_TYPE_SGL_RD, ATS_TYPE_SGL_RDWR
abbrev pub ats_rd : Bool → ℕ
ats_rd true = 4
ats_rd false = 6

abbrev pub ats_rdwr : Bool → ℕ
ats_rdwr true = 5
ats_rdwr false = 7
