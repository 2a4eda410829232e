-- ===== src/Inflate/RunTests.antt =====
-- zedc_inflate (lib/inflate.c) on concrete streams and answers of a card.
use genwqe_user.Prelude.{
  inl, replicate, ◌∷◌, [], ◌≡◌, ◌≤◌, ◌+◌, ◌*◌, ◌%◌, refl, Option, none, some, pos, arith,
}
use genwqe_user.Zedc.{Rc, ok, stream_end, no_flush, finish, defl, zlib}
use genwqe_user.Deflate.Setup.{cleared}
use genwqe_user.Inflate.Header.{header_done}
use genwqe_user.Inflate.HeaderTotal
use genwqe_user.Inflate.HeaderTotal.{rem_loop-Removes}
use genwqe_user.Inflate.Stream.{Inf}
use genwqe_user.Inflate.Asv.{AsvInfl, set_inflate_asiv}
use genwqe_user.Inflate.Scratch.{scratch_update, scratch_offs, in_scratch_bytes}
use genwqe_user.Inflate.Run.{Cmd, Answer, inflate_on}
use genwqe_user.Inflate.RunLaws.{Reports, Returns, inflate_on-Returns}
use genwqe_user.Inflate.TrailerEnd.{TailFits}
use genwqe_user.Inflate.TailLaws.{inflate_on-TailFits}
use genwqe_user.Inflate.EndLaws.{IsOver, inflate_on-IsOver}
use genwqe_user.Inflate.ScratchLaws.{StaysAligned, KeepsBytes, scratch_update-keeps_bits}
use genwqe_user.Inflate.AlignLaws.{set_inflate_asiv-exact, inflate_on-StaysAligned}
use genwqe_user.Inflate.Tests.{waiting, no_header}

-- A card that takes 3 bits of the input and stores two bytes.
abbrev some_asv : AsvInfl
some_asv = record {
  inp_processed = 0;
  outp_returned = 2;
  proc_bits = 3;
  out_hdr_bits = 3;
  hdr_start = 0;
  hdr_start_bits = 0;
  copyblock_len = 0;
  out_crc32 = 17;
  out_adler32 = 18;
  out_dict_used = 2;
  out_dict_offs = 0;
  obytes_in_dict = 0;
  infl_stat = 0;
}

abbrev card : Cmd → Answer
card c = record {
  rc = pos 0;
  retc = 0x102;
  attn = 0;
  progress = 0;
  asv = some_asv;
  stored = 5 ∷ 6 ∷ [];
  dict = 5 ∷ 6 ∷ [];
}

card-Reports : Reports card
card-Reports c = omega arith

-- A raw stream with two bytes of input.
abbrev pub raw : Inf
raw = record waiting {
  format = defl;
  obytes_in_dict = 0;
  input = 0xab ∷ 0xcd ∷ [];
  avail_out = 4;
  hdr = record no_header { header_state = header_done };
}

raw-StaysAligned : StaysAligned raw
raw-StaysAligned q = record { tree = refl; scratch = refl }

rem_loop-Removes_example : HeaderTotal.Removes zlib (0x78 ∷ 0x9c ∷ 1 ∷ []) no_header
rem_loop-Removes_example = rem_loop-Removes zlib (0x78 ∷ 0x9c ∷ 1 ∷ []) no_header (λ q. cc) tt

inflate_on-Returns_example : Returns raw (inflate_on card no_flush raw)
inflate_on-Returns_example = inflate_on-Returns card no_flush raw card-Reports tt

abbrev stream_of : Option (Rc × Inf) → Inf
stream_of none = raw
stream_of (some p) = p.1

-- The final block has ended, and the ADLER32 and another byte are there.
abbrev ended : Inf
ended = record raw {
  format = zlib;
  eob_seen = 1;
  adler32 = 0x01020304;
  input = 1 ∷ 2 ∷ 3 ∷ 4 ∷ 9 ∷ [];
  tail = record raw.tail { postfx = replicate 8 0; postfx_idx = 0; postfx_len = 0 };
}

ended_returns :
    inflate_on card finish ended ≡ some (stream_end, stream_of (inflate_on card finish ended))
unfolding inflate_on
ended_returns = refl

inflate_on-IsOver_example : IsOver (stream_of (inflate_on card finish ended))
inflate_on-IsOver_example =
    inflate_on-IsOver card finish ended (stream_of (inflate_on card finish ended)) (inl refl) tt
      ended_returns

inflate_on-TailFits_example : TailFits (stream_of (inflate_on card finish ended))
inflate_on-TailFits_example =
    inflate_on-TailFits card finish ended (stream_of (inflate_on card finish ended)) stream_end
      (inl refl) tt ended_returns

-- 4 bits of two scratch bytes, which 3 used bits begin, are processed; two bytes of input follow.
abbrev partly_done : Inf
partly_done = record raw {
  tree = 0x11 ∷ 0x22 ∷ 0 ∷ 0 ∷ 0 ∷ 0 ∷ [];
  scratch_bits = 13;
  sr = record cleared { proc_bits = 4; scratch_ib = 3; in_hdr_scratch_len = 2 };
}

scratch_update-keeps_bits_example :
    let t = scratch_update partly_done in
    (scratch_offs partly_done + t.scratch_bits
      ≡ 8 * (in_scratch_bytes partly_done + t.sr.inp_data_offs))
    × (t.sr.inp_data_offs ≤ 2)
    × (t.sr.scratch_ib ≡ scratch_offs partly_done % 8)
    × KeepsBytes partly_done t
scratch_update-keeps_bits_example =
    scratch_update-keeps_bits partly_done (omega arith) (omega arith) (omega arith) (omega arith)
      (omega arith)

-- A tree of 40 bits with its padding, and 13 scratch bits.
abbrev with_tree : Inf
with_tree = record raw {
  scratch_bits = 13;
  sr = record cleared { tree_bits = 40; pad_bits = 24; scratch_ib = 3 };
}

set_inflate_asiv-exact_example : 8 * (set_inflate_asiv with_tree).0.in_scratch_len ≡ 80
set_inflate_asiv-exact_example =
    set_inflate_asiv-exact with_tree (record { tree = refl; scratch = refl }) (omega arith)

raw_returns : inflate_on card no_flush raw ≡ some (ok, stream_of (inflate_on card no_flush raw))
unfolding inflate_on
raw_returns = refl

inflate_on-StaysAligned_example : StaysAligned (stream_of (inflate_on card no_flush raw))
inflate_on-StaysAligned_example =
    inflate_on-StaysAligned card no_flush raw (stream_of (inflate_on card no_flush raw)) ok
      raw-StaysAligned tt raw_returns
