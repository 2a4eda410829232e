-- ===== src/Deflate/Run.antt =====
-- lib/deflate.c: zedc_deflate and the entry points around it. The card is a parameter `hw`, which
-- answers the command that accel_ddcb_execute is given.
use genwqe_user.Prelude.{
  ℕ, zero, suc, ◌-◌, ◌^◌, bit_or, bit_and, Bool, true, false, not, ◌&&◌, Option, none, some, List,
  leb, ◌==◌, if◌then◌else◌, has_bit, length, drop, Endian, ℤ, pos, negsuc,
}
use genwqe_user.Fifo
use genwqe_user.Fifo.{Fifo}
use genwqe_user.Zedc.{
  Rc, ok, stream_end, stream_error, is_negative, Flush, finish, full_flush, sync_flush,
  partial_flush, Device, dyn_huffman_supported, dict_len_max, is_flat, ats_set_flags, ats_rd,
  ats_rdwr,
}
use genwqe_user.Deflate.Stream.{Stream, output_data_avail, input_data_avail, write_out_fifo}
use genwqe_user.Deflate.Header.{add_header}
use genwqe_user.Deflate.Ending.{write_eob, add_trailer, sync_flush_out}
use genwqe_user.Deflate.Results.{Asv, process_results}

-- What the driver reads of `struct ddcb_cmd` with `struct zedc_asiv_defl`. Addresses are the bytes
-- that they point at; `out_dict` is the page to write, or none for the address 0.
pub record Cmd : Type 0 where
  pub cmd : ℕ
  pub acfunc : ℕ
  pub cmdopts : ℕ
  pub ats : ℕ
  pub asiv_length : ℕ
  pub asv_length : ℕ
  pub in_buff : List ℕ
  pub out_buff_len : ℕ
  pub in_dict : List ℕ
  pub in_dict_len : ℕ
  pub out_dict : Option Bool
  pub out_dict_len : ℕ
  pub ibits : ℕ
  pub inumbits : ℕ
  pub in_crc32 : ℕ
  pub in_adler32 : ℕ

-- What comes back: the result of accel_ddcb_execute, the DDCB's codes and results, the bytes that
-- the card wrote at `next_out`, and the dictionary page if it was asked to save one.
pub record Answer : Type 0 where
  pub rc : ℤ
  pub retc : ℕ
  pub attn : ℕ
  pub progress : ℕ
  pub asv : Asv
  pub stored : List ℕ
  pub dict : List ℕ

abbrev pub page : Bool → Stream → List ℕ
page b s = if b then s.dict1 else s.dict0

abbrev pub is_fixed : ℤ → Bool
is_fixed (pos n) = n == 4
is_fixed (negsuc n) = false

-- The address translation flags of the three buffers.
unfoldable pub prepare_ats : ℕ → ℕ → ℕ → ℕ
prepare_ats dma_in dma_out dma_ws =
    let ats₁ = bit_or 0 (ats_set_flags 0 (ats_rd (is_flat dma_in))) in
    let ats₂ = bit_or ats₁ (ats_set_flags 16 (ats_rdwr (is_flat dma_out))) in
    let ws = is_flat dma_ws in
    bit_or ats₂ (bit_or (ats_set_flags 32 (ats_rd ws)) (ats_set_flags 64 (ats_rdwr ws)))

-- ZEDC_FLG_CROSS_CHECK is bit 0 of `flags`; RAS_CHECK is 1 << 15, IBUF_INDIR 1 and SAVE_DICT 4.
unfoldable pub prepare_opts : Device → Stream → ℕ
unfolding dyn_huffman_supported
prepare_opts zedc s =
    let opts = if has_bit s.flags 0 then bit_or 4 (2 ^ 15) else 4 in
    let opts' =
      if dyn_huffman_supported zedc && not (is_fixed s.strategy) then bit_or opts 1 else opts in
    bit_or opts' 4

-- The optimisation's test: ZEDC_FLG_SKIP_LAST_DICT is bit 2 of `flags`.
abbrev pub ends_stream : Flush → Bool
ends_stream finish = true
ends_stream full_flush = true
ends_stream _ = false

abbrev pub skips_dict : Flush → Stream → Bool
skips_dict flush s = has_bit s.flags 2 && (ends_stream flush && leb (length s.input) s.avail_out)

-- The command that is built before the first try, and whether its dictionary is left out.
unfoldable pub prepare : Device → Stream → Cmd
unfolding prepare_opts prepare_ats
prepare zedc s = record {
  cmd = 2;
  acfunc = 1;
  cmdopts = prepare_opts zedc s;
  ats = prepare_ats s.dma_in s.dma_out s.dma_ws;
  asiv_length = 0x70 - 0x18;
  asv_length = 0xc0 - 0x80;
  in_buff = s.input;
  out_buff_len = s.avail_out;
  in_dict = drop s.out_dict_offs (page s.wsp_page s);
  in_dict_len = s.dict_len;
  out_dict = some (not s.wsp_page);
  out_dict_len = dict_len_max;
  ibits = s.obyte;
  inumbits = s.onumbits;
  in_crc32 = s.crc32;
  in_adler32 = s.adler32;
}

-- `cmdopts &= ~SAVE_DICT` over 16 bits.
abbrev pub without_dict : Cmd → Cmd
without_dict c = record c {
  cmdopts = bit_and c.cmdopts (2 ^ 16 - 1 - 4);
  out_dict = none;
  out_dict_len = 0;
}

abbrev pub with_dict : Cmd → Cmd → Cmd
with_dict saved c = record c {
  cmdopts = bit_or c.cmdopts 4;
  out_dict = saved.out_dict;
  out_dict_len = saved.out_dict_len;
}

-- The card writes the page that `out_dict` points at.
abbrev pub save_page : Option Bool → List ℕ → Stream → Stream
save_page none dict s = s
save_page (some true) dict s = record s { dict1 = dict }
save_page (some false) dict s = record s { dict0 = dict }

-- What one execution leaves in the stream.
abbrev pub after_execute : Cmd → Answer → Stream → Stream
after_execute c a s =
    save_page c.out_dict a.dict (record s { retc = a.retc; attn = a.attn; progress = a.progress })

-- `(rc < 0) || (cmd->retc == 0x000)`
abbrev pub not_executed : Answer → Bool
not_executed a = elim a.rc [ negsuc n ↦ true | pos n ↦ a.retc == 0 ]

-- All data absorbed, and all of it fitted into the output.
abbrev pub absorbed : Answer → Stream → Bool
absorbed a s = length s.input == a.asv.inp_processed && leb a.asv.outp_returned s.avail_out

-- The loop over `tries`; `none` in place of an answer is `return ZEDC_STREAM_ERROR`.
unfoldable pub execute :
    (Cmd → Answer) → ℕ → Flush → Cmd → Cmd → Option Answer → Stream → Option Answer × Stream
execute hw zero flush saved c last s = (last, s)
execute hw (suc tries) flush saved c last s =
    let a = hw c in
    let s' = after_execute c a s in
    let again =
      execute hw tries flush saved (if skips_dict flush s' then with_dict saved c else c) (some a)
        s' in
    if not_executed a then (none, s') else if absorbed a s' then (some a, s') else again

-- The stream after the results are in: the flush modes and the end of the stream.
abbrev pub is_finish : Flush → Bool
is_finish finish = true
is_finish _ = false

abbrev pub is_sync : Flush → Bool
is_sync sync_flush = true
is_sync partial_flush = true
is_sync _ = false

abbrev pub is_full : Flush → Bool
is_full full_flush = true
is_full _ = false

-- Instructed to finish and no input data: write EOB and trailer.
unfoldable pub finish_up : Endian → Stream → Stream
finish_up host s =
    if is_finish s.flush && not (input_data_avail s)
    then write_out_fifo (add_trailer host (write_eob s).1).1
    else s

unfoldable pub flush_modes : Stream → Stream
flush_modes s =
    let s₁ = if is_sync s.flush then write_out_fifo (sync_flush_out s) else s in
    if is_full s₁.flush then record (write_out_fifo (sync_flush_out s₁)) { dict_len = 0 } else s₁

-- End-Of-Block added, and written out.
abbrev pub is_done : Stream → Bool
is_done s = s.eob_added && (s.trailer_added && Fifo.is_empty s.out_fifo)

-- From `Analyze ASV part` on.
unfoldable pub take_answer : Endian → Device → Answer → Stream → Rc × Stream
unfolding finish_up flush_modes
take_answer host zedc a s =
    let s₁ : Stream = record s {
      crc32 = a.asv.out_crc32;
      adler32 = a.asv.out_adler32;
      dict_len = a.asv.out_dict_used;
      out_dict_offs = a.asv.out_dict_offs;
    } in
    let (rc, s₂) = process_results zedc a.asv a.stored s₁ in
    let s₃ = flush_modes (finish_up host s₂) in
    if leb 16 a.asv.out_dict_offs
    then (stream_error, s₁)
    else if is_negative rc
    then (stream_error, s₂)
    else (if is_done s₃ then stream_end else ok, s₃)

-- The answer of the last try, if none failed.
abbrev pub answered : Endian → Device → Option Answer → Stream → Rc × Stream
answered host zedc none s = (stream_error, s)
answered host zedc (some a) s = take_answer host zedc a s

-- From `Prepare Deflate DDCB` on: the command, up to two tries, and the answer.
unfoldable pub submit : Endian → (Cmd → Answer) → Device → Stream → Rc × Stream
unfolding prepare execute take_answer
submit host hw zedc s =
    let c = prepare zedc s in
    let s₁ : Stream = record s { wsp_page = not s.wsp_page } in
    let skip = skips_dict s.flush s in
    let (answer, s₂) =
      execute hw (if skip then 2 else 1) s.flush c (if skip then without_dict c else c) none s₁ in
    answered host zedc answer s₂

-- zedc_deflate, for a stream that is not NULL; `now` is time(NULL).
unfoldable pub deflate_on : Endian → ℕ → (Cmd → Answer) → Device → Stream → Rc × Stream
unfolding submit finish_up
deflate_on host now hw zedc s =
    let (failed, s₁) = if s.header_added then (false, s) else add_header host now s in
    let s₂ = write_out_fifo s₁ in
    let s₃ = finish_up host s₂ in
    if failed
    then (stream_error, s₁)
    else if not (output_data_avail s₂)
    then (ok, s₂)
    else if is_done s₃
    then (stream_end, s₃)
    else if not (output_data_avail s₃)
    then (ok, s₃)
    else if not (input_data_avail s₃)
    then (ok, s₃)
    else submit host hw zedc s₃

unfoldable pub deflate : Endian → ℕ → (Cmd → Answer) → Flush → Option Stream → Rc × Option Stream
unfolding deflate_on
deflate host now hw flush none = (stream_error, none)
deflate host now hw flush (some s) = elim s.device [
  | none ↦ (stream_error, some s)
  | some zedc ↦
      let (rc, s') = deflate_on host now hw zedc (record s { flush = flush }) in (rc, some s')
]
