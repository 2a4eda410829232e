-- ===== src/Deflate/Tests.antt =====
-- Compression (lib/deflate.c) on concrete streams.
use genwqe_user.Prelude.{
  ℕ, ◌+◌, ◌*◌, ◌%◌, ◌^◌, ◌≤◌, ◌<◌, ◌≡◌, ◌≢◌, refl, true, false, none, some, [], ◌∷◌, ◌++◌,
  replicate, length, pos, u8, u32, arith, little, big, All, IsByte,
}
use genwqe_user.Fifo
use genwqe_user.Fifo.{Fifo, used}
use genwqe_user.Fifo.Contents.{contents, init-IsValid}
use genwqe_user.Fifo.Appended.{Appended}
use genwqe_user.Zedc.{stream_end, gzip, finish, Device, ok}
use genwqe_user.Deflate.Stream.{Stream, GzipHead, write_out_fifo}
use genwqe_user.Deflate.Setup.{cleared}
use genwqe_user.Deflate.Header.{header_flags, add_gzip, add_zlib}
use genwqe_user.Deflate.HeaderLaws.{gzip_header, zlib_header, add_zlib_complete}
use genwqe_user.Deflate.HeaderRoom.{HasAllParts, add_gzip_overflow}
use genwqe_user.Deflate.Ending
use genwqe_user.Deflate.Ending.{eob_bytes, flush_bits}
use genwqe_user.Deflate.EndingLaws.{
  bits_value, eob_bytes_value, flush_bits_value, ended, end_bytes, ended_bytes,
}
use genwqe_user.Deflate.OutLaws.{WroteOut, write_out_fifo_lem}
use genwqe_user.Deflate.Results.{Asv, store_bits_v1}
use genwqe_user.Deflate.ResultsLaws.{Stored, store_bits_v1_lem}
use genwqe_user.Deflate.Accounts.{Accounts}
use genwqe_user.Deflate.Run.{Cmd, Answer, deflate_on}
use genwqe_user.Deflate.RunLaws.{deflate_on-Accounts}
use genwqe_user.Deflate.EndLaws.{IsWritten, deflate_on-EndsDone}

abbrev pub card : Device
card = record { app_id = 0x2475a4950; zedc_rc = ok }

-- A gzip stream of three bytes, to be compressed in one call.
abbrev pub fresh : Stream
fresh = record {
  level = pos 1;
  method = pos 8;
  window_bits = pos 31;
  mem_level = pos 8;
  strategy = pos 0;
  flush = finish;
  input = 1 ∷ 2 ∷ 3 ∷ [];
  total_in = 0;
  output = [];
  avail_out = 100;
  total_out = 0;
  crc32 = 0;
  adler32 = 1;
  device = some card;
  retc = 0;
  attn = 0;
  progress = 0;
  format = gzip;
  flags = 0;
  out_fifo = Fifo.init;
  in_fifo = Fifo.init;
  onumbits = 3;
  obyte = 2;
  eob_added = false;
  header_added = false;
  trailer_added = false;
  havedict = false;
  wsp = true;
  dict0 = [];
  dict1 = [];
  wsp_page = false;
  dma_in = 8;
  dma_out = 8;
  dma_ws = 8;
  dict_adler32 = 0;
  gzip_head = none;
  inp_processed = 0;
  outp_returned = 0;
  dict_len = 0;
  obytes_in_dict = 0;
  out_dict_offs = 0;
  sr = cleared;
}

-- What a card may answer: two bytes stored, and 13 bits left over.
abbrev results : Asv
results = record {
  out_dict_used = 3;
  onumbits = 13;
  out_crc32 = 0x55bc801d;
  out_adler32 = 0x00d0007;
  inp_processed = 3;
  outp_returned = 2;
  obits = 0x63 ∷ 0x05 ∷ replicate 22 0;
  out_dict_offs = 0;
  obits_extra = replicate 7 0;
}

abbrev pub answer : Cmd → Answer
answer c = record {
  rc = pos 0;
  retc = 0x102;
  attn = 0;
  progress = 0;
  asv = results;
  stored = 0x63 ∷ 0x64 ∷ [];
  dict = [];
}

-- Everything written out.
abbrev pub closed : Stream
closed = record fresh { input = []; header_added = true; eob_added = true; trailer_added = true }

deflate_on-Accounts_example : Accounts fresh (deflate_on little 0 answer card fresh).1
deflate_on-Accounts_example =
    deflate_on-Accounts little 0 answer card fresh (λ c. omega arith) init-IsValid

closed-ends : (deflate_on little 0 answer card closed).0 ≡ stream_end
unfolding deflate_on Fifo.init write_out_fifo Fifo.pop Ending.add_trailer Ending.write_eob
closed-ends = refl

deflate_on-EndsDone_example : IsWritten (deflate_on little 0 answer card closed).1
deflate_on-EndsDone_example = deflate_on-EndsDone little 0 answer card closed closed-ends

write_out_fifo_lem_example : WroteOut fresh (write_out_fifo fresh)
write_out_fifo_lem_example = write_out_fifo_lem fresh init-IsValid

init-used : used Fifo.init ≡ 0
unfolding Fifo.init
init-used = refl

ended_bytes_example :
    Appended Fifo.init (end_bytes fresh) (ended little fresh).out_fifo
    × ((ended little fresh).eob_added ≡ true)
    × ((ended little fresh).trailer_added ≡ true)
ended_bytes_example =
    ended_bytes little fresh init-IsValid (omega (arith, init-used)) (omega arith) refl refl

eob_bytes_value_example :
    (bits_value (eob_bytes 2 3) ≡ 2 % 2 ^ 3 + 2 ^ 3 * (3 * 2 ^ 7))
    × (length (eob_bytes 2 3) ≡ 3)
    × All IsByte (eob_bytes 2 3)
eob_bytes_value_example = eob_bytes_value 2 3 (omega arith)

flush_bits_value_example :
    (bits_value (flush_bits 2 7) ≡ 2 % 2 ^ 7)
    × (7 + 10 ≤ 8 * length (flush_bits 2 7))
    × (8 * length (flush_bits 2 7) < 7 + 18)
flush_bits_value_example = flush_bits_value 2 7 (omega arith)

-- All parts, with an extra field of `n` bytes.
abbrev all_parts : ℕ → GzipHead
all_parts n = record {
  time = 5;
  xflags = 2;
  os = 3;
  extra = some (replicate n 7);
  extra_len = n;
  name = some (0x61 ∷ []);
  comment = some (0x62 ∷ []);
}

all_parts-all : HasAllParts (all_parts 238)
all_parts-all = record {
  extra = refl;
  whole = omega arith;
  name = λ e. absurd (omega arith);
  comment = λ e. absurd (omega arith);
  hcrc = refl;
}

add_gzip_overflow_example :
    ((add_gzip little 0 (some (all_parts 238)) Fifo.init).0 ≡ false)
    × (length (gzip_header (header_flags (all_parts 238)) (u32 5) (u8 3) (all_parts 238)) ≡ 256)
    × (contents (add_gzip little 0 (some (all_parts 238)) Fifo.init).1
        ≢ contents Fifo.init
          ++ gzip_header (header_flags (all_parts 238)) (u32 5) (u8 3) (all_parts 238))
add_gzip_overflow_example = add_gzip_overflow little 0 (all_parts 238) Fifo.init all_parts-all refl

store_bits_v1_lem_example :
    Stored Fifo.init (results.obits ++ results.obits_extra) 13 (store_bits_v1 results fresh)
store_bits_v1_lem_example =
    store_bits_v1_lem results fresh refl refl (omega arith) init-IsValid (omega (arith, init-used))

add_zlib_complete_example :
    Appended Fifo.init (zlib_header (some 70000)) (add_zlib big true 70000 Fifo.init)
add_zlib_complete_example =
    add_zlib_complete big true 70000 Fifo.init init-IsValid (omega (arith, init-used))
