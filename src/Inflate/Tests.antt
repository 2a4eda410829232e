-- ===== src/Inflate/Tests.antt =====
-- Decompression (lib/inflate.c) on concrete streams.
use genwqe_user.Prelude.{
  some, ◌≡◌, refl, true, false, none, [], ◌∷◌, ◌++◌, replicate, min, pos, u32, le_bytes, arith,
}
use genwqe_user.Zedc.{no_flush, ok, err_crc32, zlib, gzip}
use genwqe_user.Deflate.Setup.{cleared}
use genwqe_user.Deflate.EndingLaws.{trailer}
use genwqe_user.Deflate.Stream.{GzipHead}
use genwqe_user.Deflate.Header.{header_flags}
use genwqe_user.Deflate.HeaderLaws.{gzip_header, zlib_header}
use genwqe_user.Inflate.HeaderLaws.{Reaches}
use genwqe_user.Inflate.HeaderTrip.{IsWhole, reset_hdr, gzip_header_roundtrip}
use genwqe_user.Inflate.ZlibTrip.{Takes, zlib_header_roundtrip}
use genwqe_user.Inflate.Header.{zlib_need_dict, Hdr, header_start}
use genwqe_user.Inflate.Stream.{Inf, Tail}
use genwqe_user.Inflate.Output.{flush_output_buffer, pending_at}
use genwqe_user.Inflate.Pending.{Flushed, flush_output_buffer_lem}
use genwqe_user.Inflate.Trailer.{removed, refused, rem_trailer}
use genwqe_user.Inflate.TrailerLaws
use genwqe_user.Inflate.TrailerChecks.{
  Outcome, at_trailer, gzip_trailer_roundtrip, gzip_trailer_refused, zlib_trailer_roundtrip,
}

abbrev pub no_header : Hdr
no_header = record {
  prefx = replicate 18 0;
  prefx_idx = 0;
  prefx_len = 0;
  header_state = header_start;
  xlen = 0;
  gzip_header_idx = 0;
  gzip_hcrc = 0;
  gzip_head = none;
}

abbrev no_tail : Tail
no_tail = record {
  postfx = replicate 18 0;
  postfx_idx = 0;
  postfx_len = 0;
  file_crc32 = 0;
  file_size = 0;
  file_adler32 = 0;
}

-- Three bytes of output wait in the dictionary, and there is room for two.
abbrev pub waiting : Inf
waiting = record {
  window_bits = pos 31;
  data_type = 0;
  flush = no_flush;
  flags = 0;
  input = 4 ∷ [];
  total_in = 0;
  output = [];
  avail_out = 2;
  total_out = 0;
  crc32 = 513;
  adler32 = 1;
  device = none;
  format = gzip;
  hdr = no_header;
  tail = no_tail;
  eob_seen = 0;
  havedict = false;
  wsp = true;
  dict0 = 9 ∷ 8 ∷ 7 ∷ 6 ∷ 5 ∷ [];
  dict1 = [];
  tree = replicate 512 0;
  wsp_page = false;
  dma_in = 8;
  dma_out = 8;
  dma_ws = 8;
  retc = 0;
  attn = 0;
  progress = 0;
  dict_len = 4;
  obytes_in_dict = 3;
  out_dict_offs = 1;
  dict_adler32 = 0;
  inp_processed = 0;
  outp_returned = 0;
  scratch_bits = 0;
  pre_scratch_bits = 0;
  sr = cleared;
}

flush_output_buffer_lem_example :
    ((flush_output_buffer waiting).0 ≡ ok)
    × Flushed (min 3 2) 3 (pending_at waiting) waiting (flush_output_buffer waiting).1
flush_output_buffer_lem_example = flush_output_buffer_lem waiting (omega arith)

gzip_trailer_roundtrip_example :
    Outcome removed
      (3 ∷ [])
      (u32 70000)
      (rem_trailer (at_trailer gzip (trailer gzip 513 1 70000 ++ (3 ∷ [])) waiting))
gzip_trailer_roundtrip_example =
    gzip_trailer_roundtrip waiting 513 1 70000 (3 ∷ []) (omega arith) refl

gzip_trailer_refused_example :
    Outcome
      (refused err_crc32)
      (le_bytes (u32 70000) ++ (3 ∷ []))
      0
      (rem_trailer (at_trailer gzip (trailer gzip 514 1 70000 ++ (3 ∷ [])) waiting))
gzip_trailer_refused_example =
    gzip_trailer_refused waiting 514 1 70000 (3 ∷ []) (omega arith) (λ e. absurd (omega arith))

zlib_trailer_roundtrip_example :
    Outcome removed
      (3 ∷ [])
      0
      (rem_trailer (at_trailer zlib (trailer zlib 513 1 70000 ++ (3 ∷ [])) waiting))
zlib_trailer_roundtrip_example =
    zlib_trailer_roundtrip waiting 513 1 70000 (3 ∷ []) (omega arith) refl

-- A header with an extra field, a name and a comment.
abbrev some_header : GzipHead
some_header = record {
  time = 5;
  xflags = 3;
  os = 3;
  extra = some (7 ∷ 8 ∷ 9 ∷ []);
  extra_len = 2;
  name = some (0x61 ∷ []);
  comment = some (0x62 ∷ 0x63 ∷ []);
}

some_header-IsWhole : IsWhole some_header
some_header-IsWhole = record {
  name = ((λ e. absurd (omega arith)), tt);
  comment = ((λ e. absurd (omega arith)), ((λ e. absurd (omega arith)), tt));
  extra = λ e. (omega arith, omega arith, omega arith);
}

gzip_header_roundtrip_example :
    Reaches
      (gzip_header (header_flags some_header) 5 3 some_header ++ (1 ∷ 2 ∷ []))
      (reset_hdr no_header)
      (1 ∷ 2 ∷ [])
gzip_header_roundtrip_example =
    gzip_header_roundtrip some_header 5 3 (1 ∷ 2 ∷ []) no_header some_header-IsWhole

zlib_header_roundtrip_example :
    Takes
      (zlib_header (some 70000) ++ (1 ∷ []))
      (reset_hdr no_header)
      (zlib_need_dict 70000)
      (1 ∷ [])
zlib_header_roundtrip_example = zlib_header_roundtrip (some 70000) (1 ∷ []) no_header (omega arith)
