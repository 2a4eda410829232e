-- ===== src/Deflate/Setup.antt =====
-- lib/deflate.c: the entry points that set a stream up, reset it, give it a dictionary or a header,
-- copy it and end it.
use genwqe_user.Prelude.{
  ℕ, zero, suc, Bool, true, false, not, Option, none, some, List, ◌++◌, ltb, if◌then◌else◌, take,
  drop, replicate, ℤ,
}
use genwqe_user.Fifo
use genwqe_user.Fifo.{Fifo}
use genwqe_user.Zedc.{
  Rc, ok, stream_error, mem_error, data_error, err_illegal_appid, is_ok, is_zedc, format_init,
  adler32, dict_len_max,
}
use genwqe_user.Deflate.Stream.{Stream, GzipHead, SaveRestore}

abbrev pub cleared : SaveRestore
cleared = record {
  in_hdr_scratch_len = 0;
  in_hdr_bits = 0;
  hdr_ib = 0;
  scratch_ib = 0;
  proc_bits = 0;
  infl_stat = 0;
  hdr_start = 0;
  out_hdr_bits = 0;
  out_hdr_start_bits = 0;
  copyblock_len = 0;
  tree_bits = 0;
  pad_bits = 0;
  inp_data_offs = 0;
  in_data_used = 0;
}

-- __deflateInit_state; HDR_BTYPE_FIXED is 2.
unfoldable pub init_state : Stream → Stream
unfolding Fifo.init
init_state s = record s {
  out_fifo = Fifo.init;
  in_fifo = Fifo.init;
  total_in = 0;
  total_out = 0;
  wsp_page = false;
  dict_len = 0;
  obytes_in_dict = 0;
  out_dict_offs = 0;
  obyte = 0x02;
  onumbits = 3;
  crc32 = 0;
  adler32 = 1;
  dict_adler32 = 0;
  header_added = false;
  eob_added = false;
  trailer_added = false;
  havedict = false;
  inp_processed = 0;
  outp_returned = 0;
  sr = cleared;
}

-- A dictionary page after the memset of zedc_alloc_workspace.
unfoldable pub empty_page : List ℕ
empty_page = replicate dict_len_max 0

-- zedc_alloc_workspace; `granted` is whether zedc_memalign finds memory.
abbrev pub alloc_workspace : Bool → Stream → Rc × Stream
alloc_workspace granted s =
    if granted
    then (ok, record s { wsp = true; dict0 = empty_page; dict1 = empty_page })
    else (mem_error, record s { wsp = false })

abbrev pub free_workspace : Stream → Stream
free_workspace s = record s { wsp = false }

-- zedc_format_init on a stream.
abbrev pub set_format : Stream → Rc × Stream
set_format s = elim (format_init s.window_bits) [
  | none ↦ (data_error, s)
  | some f ↦ (ok, record s { format = f })
]

-- The arguments of zedc_deflateInit2.
pub record Params : Type 0 where
  pub level : ℤ
  pub method : ℤ
  pub window_bits : ℤ
  pub mem_level : ℤ
  pub strategy : ℤ

abbrev pub with_params : Params → Stream → Stream
with_params p s = record s {
  level = p.level;
  method = p.method;
  window_bits = p.window_bits;
  mem_level = p.mem_level;
  strategy = p.strategy;
}

-- zedc_deflateInit2 from zedc_alloc_workspace on.
unfoldable pub init_on : Bool → Params → Stream → Rc × Stream
unfolding init_state format_init
init_on granted p s =
    let (rc, s₁) = alloc_workspace granted s in
    let (rc', s₂) = set_format (init_state (with_params p s₁)) in
    if not granted then (rc, s₁) else if not (is_ok rc') then (rc', free_workspace s₂) else (ok, s₂)

-- zedc_deflateInit2
unfoldable pub init2 : Bool → Params → Option Stream → Rc × Option Stream
unfolding init_on is_zedc
init2 granted p none = (stream_error, none)
init2 granted p (some s) = elim s.device [
  | none ↦ (stream_error, some s)
  | some zedc ↦
      let (rc, s') = init_on granted p s in
      if is_zedc zedc then (rc, some s') else (err_illegal_appid, some s)
]

-- zedc_deflateSetDictionary, for a stream that is not NULL; a NULL dictionary is `none`, and
-- otherwise the list has the memory there, of which `dict_length` bytes are used.
unfoldable pub set_dictionary : Option (List ℕ) → ℕ → Stream → Rc × Stream
unfolding adler32
set_dictionary dictionary dict_length s =
    if s.header_added
    then (stream_error, s)
    else if ltb dict_len_max dict_length
    then (stream_error, s)
    else elim dictionary [
      | none ↦ (stream_error, s)
      | some d ↦ (
        ok,
        record s {
          dict0 = take dict_length d ++ drop dict_length s.dict0;
          dict_len = dict_length;
          dict_adler32 = adler32 1 (take dict_length d);
          havedict = true;
        },
      )
    ]

-- zedc_deflateCopy: what `dest` holds afterwards. The workspace is new; one page is copied.
unfoldable pub copy : Bool → Stream → Rc × Stream
copy granted source =
    let (rc, dest) = alloc_workspace granted source in
    if granted
    then (
      ok,
      record dest {
        dict0 = if source.wsp_page then dest.dict0 else source.dict0;
        dict1 = if source.wsp_page then source.dict1 else dest.dict1;
      },
    )
    else (rc, dest)

-- zedc_deflateReset
unfoldable pub reset : Option Stream → Rc × Option Stream
unfolding init_state format_init
reset none = (stream_error, none)
reset (some s) = let (rc, s') = set_format (init_state s) in (rc, some s')

-- The loop of zedc_deflateEnd that empties the FIFO.
unfoldable pub end_loop : ℕ → Fifo → Fifo
unfolding Fifo.pop
end_loop zero f = f
end_loop (suc fuel) f =
    let rest = end_loop fuel (Fifo.pop f).1 in if Fifo.is_empty f then f else rest

-- zedc_deflateEnd. The FIFO holds at most 255 bytes, so 256 rounds are enough.
unfoldable pub end : Option Stream → Rc × Option Stream
unfolding end_loop
end none = (stream_error, none)
end (some s) = elim s.device [
  | none ↦ (stream_error, some s)
  | some zedc ↦ (ok, some (free_workspace (record s { out_fifo = end_loop 256 s.out_fifo })))
]

-- zedc_deflateSetHeader
abbrev pub set_header : Option GzipHead → Stream → Rc × Stream
set_header head s = (ok, record s { gzip_head = head })
