-- ===== src/Inflate/Output.antt =====
-- lib/inflate.c: the output that the hardware left at the end of the dictionary, for want of room.
use genwqe_user.Prelude.{
  ℕ, zero, suc, ◌+◌, ◌-◌, Option, none, some, List, [], ◌∷◌, ◌++◌, ltb, ◌==◌, if◌then◌else◌, length,
  get_or, u64,
}
use genwqe_user.Zedc.{Rc, ok, err_dict_overrun}
use genwqe_user.Inflate.Stream.{Inf, page, fail}

-- zedc_inflate_pending_output
abbrev pub pending_output : Inf → ℕ
pending_output s = s.obytes_in_dict

-- `strm->out_dict_offs + strm->dict_len - strm->obytes_in_dict`
abbrev pub pending_at : Inf → ℕ
pending_at s = s.out_dict_offs + s.dict_len - s.obytes_in_dict

-- The loop of inflate_flush_output_buffer: `left` is `obytes_in_dict`, and `i` is where `pdict` is.
-- Each round counts `obytes_in_dict` down.
unfoldable pub flush_loop : ℕ → ℕ → Inf → Inf
flush_loop zero i s = s
flush_loop (suc left) i s =
    let rest : Inf = flush_loop left (suc i) (record s {
      output = s.output ++ (get_or (page s) i 0 ∷ []);
      avail_out = s.avail_out - 1;
      total_out = u64 (s.total_out + 1);
      obytes_in_dict = left;
    }) in
    if s.avail_out == 0 then s else rest

-- inflate_flush_output_buffer
unfoldable pub flush_output_buffer : Inf → Rc × Inf
unfolding flush_loop
flush_output_buffer s =
    if s.obytes_in_dict == 0
    then (ok, s)
    else if ltb s.dict_len s.obytes_in_dict
    then fail err_dict_overrun s
    else (ok, flush_loop s.obytes_in_dict (pending_at s) s)

-- The loop of zedc_read_pending_output: the bytes that it copies to `buf` of the `len` there.
unfoldable pub read_loop : ℕ → ℕ → ℕ → Inf → List ℕ × Inf
read_loop zero len i s = ([], s)
read_loop (suc left) zero i s = ([], s)
read_loop (suc left) (suc len) i s =
    let (bytes, s') = read_loop left len (suc i) (record s { obytes_in_dict = left }) in
    (get_or (page s) i 0 ∷ bytes, s')

-- zedc_read_pending_output: the result is the number of bytes copied, or the code
-- ZEDC_ERR_DICT_OVERRUN for `none`.
unfoldable pub read_pending_output : ℕ → Inf → Option ℕ × (List ℕ × Inf)
unfolding read_loop
read_pending_output len s =
    let copied = read_loop s.obytes_in_dict len (pending_at s) s in
    if s.obytes_in_dict == 0
    then (some 0, ([], s))
    else if ltb s.dict_len s.obytes_in_dict
    then (none, ([], s))
    else (some (length copied.0), copied)
