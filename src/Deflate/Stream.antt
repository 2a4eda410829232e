-- ===== src/Deflate/Stream.antt =====
-- The part of `struct zedc_stream_s` (include/libzHW.h) that lib/deflate.c works on, and its small
-- helpers. The input is the list of the `avail_in` bytes at `next_in`; the output is the list of
-- the bytes stored through `next_out` since it was last set.
use genwqe_user.Prelude.{
  ℕ, zero, suc, ◌+◌, ◌-◌, Bool, true, false, not, Option, none, some, List, [], ◌∷◌, ◌++◌, ◌==◌,
  if◌then◌else◌, u64, ℤ,
}
use genwqe_user.Fifo.{Fifo, pop}
use genwqe_user.Zedc.{Format, Flush, Device}

-- `struct gzedc_header_s`, as the caller of zedc_deflateSetHeader fills it in. A name or comment is
-- the text before its terminating 0.
pub record GzipHead : Type 0 where
  pub time : ℕ
  pub xflags : ℕ
  pub os : ℕ
  pub extra : Option (List ℕ)
  pub extra_len : ℕ
  pub name : Option (List ℕ)
  pub comment : Option (List ℕ)

-- The save & restore fields that compression only resets.
pub record SaveRestore : Type 0 where
  pub in_hdr_scratch_len : ℕ
  pub in_hdr_bits : ℕ
  pub hdr_ib : ℕ
  pub scratch_ib : ℕ
  pub proc_bits : ℕ
  pub infl_stat : ℕ
  pub hdr_start : ℕ
  pub out_hdr_bits : ℕ
  pub out_hdr_start_bits : ℕ
  pub copyblock_len : ℕ
  pub tree_bits : ℕ
  pub pad_bits : ℕ
  pub inp_data_offs : ℕ
  pub in_data_used : ℕ

pub record Stream : Type 0 where
  pub level : ℤ
  pub method : ℤ
  pub window_bits : ℤ
  pub mem_level : ℤ
  pub strategy : ℤ
  pub flush : Flush
  pub input : List ℕ
  pub total_in : ℕ
  pub output : List ℕ
  pub avail_out : ℕ
  pub total_out : ℕ
  pub crc32 : ℕ
  pub adler32 : ℕ
  pub device : Option Device
  pub retc : ℕ
  pub attn : ℕ
  pub progress : ℕ
  pub format : Format
  pub flags : ℕ
  pub out_fifo : Fifo
  pub in_fifo : Fifo
  pub onumbits : ℕ
  pub obyte : ℕ
  pub eob_added : Bool
  pub header_added : Bool
  pub trailer_added : Bool
  pub havedict : Bool
  -- `wsp`: whether it is allocated, and its two dictionary pages; `wsp_page` is page 1 if `true`.
  pub wsp : Bool
  pub dict0 : List ℕ
  pub dict1 : List ℕ
  pub wsp_page : Bool
  pub dma_in : ℕ
  pub dma_out : ℕ
  pub dma_ws : ℕ
  pub dict_adler32 : ℕ
  pub gzip_head : Option GzipHead
  pub inp_processed : ℕ
  pub outp_returned : ℕ
  pub dict_len : ℕ
  pub obytes_in_dict : ℕ
  pub out_dict_offs : ℕ
  pub sr : SaveRestore

-- output_data_avail
abbrev pub output_data_avail : Stream → Bool
output_data_avail s = not (s.avail_out == 0)

abbrev pub is_nil : List ℕ → Bool
is_nil [] = true
is_nil (x ∷ xs) = false

-- input_data_avail
abbrev pub input_data_avail : Stream → Bool
input_data_avail s = not (is_nil s.input)

-- push_output_byte
unfoldable pub push_output_byte : Stream → ℕ → Stream
push_output_byte s x = if s.avail_out == 0 then s else record s {
  output = s.output ++ (x ∷ []);
  total_out = u64 (s.total_out + 1);
  avail_out = s.avail_out - 1;
}

-- The loop of deflate_write_out_fifo. Each round takes a byte off the FIFO.
unfoldable pub write_out_loop : ℕ → Stream → Stream
unfolding push_output_byte
write_out_loop zero s = s
write_out_loop (suc fuel) s =
    let popped = pop s.out_fifo in
    let taken : Stream = record s { out_fifo = popped.1 } in
    let rest : Stream = elim popped.0 [
      | none ↦ taken
      | some x ↦ write_out_loop fuel (push_output_byte taken x)
    ] in
    if output_data_avail s then rest else s

-- deflate_write_out_fifo. The FIFO holds at most 255 bytes, so 256 rounds are enough.
unfoldable pub write_out_fifo : Stream → Stream
unfolding write_out_loop
write_out_fifo s = write_out_loop 256 s
