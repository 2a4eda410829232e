-- ===== src/Inflate/Setup.antt =====
-- lib/inflate.c: the entry points that set a stream up, reset it, give it a dictionary or a header
-- to fill in, and end it.
use genwqe_user.Prelude.{
  ℕ, Bool, true, false, not, ◌&&◌, Option, none, some, List, [], ◌++◌, ltb, ◌==◌, if◌then◌else◌,
  take, drop, replicate, ℤ,
}
use genwqe_user.Zedc.{
  Rc, ok, stream_error, data_error, mem_error, err_illegal_appid, Format, zlib, is_ok, is_zedc,
  format_init, adler32, dict_len_max,
}
use genwqe_user.Deflate.Setup.{cleared, empty_page}
use genwqe_user.Inflate.Header.{Hdr, GzipRead, header_start}
use genwqe_user.Inflate.Stream.{Inf, Tail, page}

-- ZEDC_FORMAT_STORAGE
abbrev pub format_storage : ℕ
format_storage = 18

abbrev pub init_hdr : Hdr → Hdr
init_hdr h = record h {
  prefx = replicate format_storage 0;
  prefx_idx = 0;
  prefx_len = 0;
  header_state = header_start;
  xlen = 0;
}

abbrev pub init_tail : Tail → Tail
init_tail t = record t {
  postfx = replicate format_storage 0;
  postfx_idx = 0;
  postfx_len = 0;
  file_crc32 = 0;
  file_adler32 = 0;
}

-- __inflateInit_state. The DDCB that it clears too is no part of the state.
unfoldable pub init_state : Inf → Inf
init_state s = record s {
  total_in = 0;
  total_out = 0;
  wsp_page = false;
  dict_len = 0;
  obytes_in_dict = 0;
  out_dict_offs = 0;
  dict_adler32 = 0;
  crc32 = 0;
  adler32 = 1;
  eob_seen = 0;
  havedict = false;
  scratch_bits = 0;
  inp_processed = 0;
  outp_returned = 0;
  pre_scratch_bits = 0;
  hdr = init_hdr s.hdr;
  tail = init_tail s.tail;
  sr = cleared;
}

-- ZEDC_TREE_LEN
abbrev pub tree_len : ℕ
tree_len = 0x200

-- zedc_alloc_workspace; `granted` is whether zedc_memalign finds memory.
abbrev pub alloc_workspace : Bool → Inf → Rc × Inf
alloc_workspace granted s =
    if granted
    then (
      ok,
      record s { wsp = true; dict0 = empty_page; dict1 = empty_page; tree = replicate tree_len 0 },
    )
    else (mem_error, record s { wsp = false })

abbrev pub free_workspace : Inf → Inf
free_workspace s = record s { wsp = false }

abbrev pub set_format : Inf → Rc × Inf
set_format s = elim (format_init s.window_bits) [
  | none ↦ (data_error, s)
  | some f ↦ (ok, record s { format = f })
]

-- zedc_inflateInit2 from zedc_alloc_workspace on.
unfoldable pub init_on : Bool → ℤ → Inf → Rc × Inf
unfolding init_state format_init
init_on granted bits s =
    let (rc, s₁) = alloc_workspace granted s in
    let (rc', s₂) = set_format (init_state (record s₁ { window_bits = bits })) in
    if not granted then (rc, s₁) else if not (is_ok rc') then (rc', free_workspace s₂) else (ok, s₂)

-- zedc_inflateInit2
unfoldable pub init2 : Bool → ℤ → Option Inf → Rc × Option Inf
unfolding init_on is_zedc
init2 granted bits none = (stream_error, none)
init2 granted bits (some s) = elim s.device [
  | none ↦ (stream_error, some s)
  | some zedc ↦
      let (rc, s') = init_on granted bits s in
      if is_zedc zedc then (rc, some s') else (err_illegal_appid, some s)
]

abbrev pub is_zlib : Format → Bool
is_zlib zlib = true
is_zlib _ = false

-- zedc_inflateSetDictionary; the list has the memory at `dictionary`, of which `dict_length` bytes
-- are used. The copy goes to page 0.
unfoldable pub set_dictionary : List ℕ → ℕ → Option Inf → Rc × Option Inf
unfolding adler32
set_dictionary dictionary dict_length none = (stream_error, none)
set_dictionary dictionary dict_length (some s) =
    let d = take dict_length dictionary in
    if ltb dict_len_max dict_length
    then (stream_error, some s)
    else if is_zlib s.format && not (adler32 1 d == s.dict_adler32)
    then (data_error, some s)
    else (
      ok,
      some (record s {
        dict0 = d ++ drop dict_length s.dict0;
        dict_len = dict_length;
        havedict = true;
        adler32 = 1;
      }),
    )

-- zedc_inflateGetDictionary: `*dictLength`, and the bytes copied if `dictionary` is not NULL.
unfoldable pub get_dictionary : Bool → Option Inf → Rc × (ℕ × List ℕ)
get_dictionary wanted none = (stream_error, (0, []))
get_dictionary wanted (some s) =
    (ok, (s.dict_len, if wanted then take s.dict_len (drop s.out_dict_offs (page s)) else []))

-- zedc_inflateReset
unfoldable pub reset : Option Inf → Rc × Option Inf
unfolding init_state format_init
reset none = (stream_error, none)
reset (some s) = let (rc, s') = set_format (init_state s) in (rc, some s')

-- zedc_inflateReset2
unfoldable pub reset2 : ℤ → Option Inf → Rc × Option Inf
unfolding init_state format_init
reset2 bits none = (stream_error, none)
reset2 bits (some s) =
    let (rc, s') = set_format (record (init_state s) { window_bits = bits }) in (rc, some s')

-- zedc_inflateEnd
unfoldable pub end : Option Inf → Rc × Option Inf
end none = (stream_error, none)
end (some s) = elim s.device [
  | none ↦ (stream_error, some s)
  | some zedc ↦ (ok, some (free_workspace s))
]

-- zedc_inflateGetHeader
abbrev pub get_header : GzipRead → Inf → Rc × Inf
get_header head s =
    (ok, record s { hdr = record s.hdr { gzip_head = some (record head { done = false }) } })
