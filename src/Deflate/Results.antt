-- ===== src/Deflate/Results.antt =====
-- lib/deflate.c: deflate_process_results, which takes over what the hardware reports.
use genwqe_user.Prelude.{
  ℕ, ◌+◌, ◌-◌, ◌*◌, Bool, false, not, ◌&&◌, ◌||◌, Option, none, some, List, [], ◌∷◌, ◌++◌, ltb,
  ◌==◌, if◌then◌else◌, u64, length, get_or, take, drop,
}
use genwqe_user.Fifo.{Fifo, push}
use genwqe_user.Zedc.{Rc, ok, err_retlen, err_retobits, Device, dyn_huffman_supported}
use genwqe_user.Deflate.Stream.{Stream}

-- `struct zedc_asv_defl` (include/deflate_ddcb.h), its big-endian words as the numbers they stand
-- for; `obits` has 24 bytes and `obits_extra` 7.
pub record Asv : Type 0 where
  pub out_dict_used : ℕ
  pub onumbits : ℕ
  pub out_crc32 : ℕ
  pub out_adler32 : ℕ
  pub inp_processed : ℕ
  pub outp_returned : ℕ
  pub obits : List ℕ
  pub out_dict_offs : ℕ
  pub obits_extra : List ℕ

-- `zedc->zedc_rc = rc; return zedc->zedc_rc;`
abbrev pub set_rc : Rc → Option Device → Option Device
set_rc rc none = none
set_rc rc (some d) = some (record d { zedc_rc = rc })

abbrev pub fail : Rc → Stream → Rc × Stream
fail rc s = (rc, record s { device = set_rc rc s.device })

-- A loop over obits: whole bytes go into the FIFO while more than 7 bits are left. It returns the
-- FIFO, the bits left and the bytes from index `i` on.
unfoldable pub spill : Fifo → List ℕ → ℕ → Fifo × ℕ × List ℕ
spill f [] n = (f, n, [])
spill f (b ∷ bs) n =
    let rest = spill (push f b).1 bs (n - 8) in if ltb 7 n then rest else (f, n, b ∷ bs)

-- `if (onumbits && i < max) obyte = bits[i]`, with the old byte otherwise.
abbrev pub next_byte : ℕ → List ℕ → ℕ → ℕ
next_byte n [] old = old
next_byte n (b ∷ bs) old = if n == 0 then old else b

abbrev pub some_left : ℕ → List ℕ → Bool
some_left n [] = false
some_left n (b ∷ bs) = not (n == 0)

-- The new format: 24 bytes, then those behind `out_dict_offs`.
unfoldable pub store_bits_v1 : Asv → Stream → Stream
unfolding spill
store_bits_v1 asv s =
    let (f, n, rest) = spill s.out_fifo asv.obits asv.onumbits in
    let (f', n', rest') = spill f asv.obits_extra n in
    if some_left n rest
    then record s { out_fifo = f; onumbits = n; obyte = next_byte n rest s.obyte }
    else record s { out_fifo = f'; onumbits = n'; obyte = next_byte n' rest' s.obyte }

-- The old format: at most ZEDC_ONUMBYTES_v0 = 23 bytes; `obits[i]` is read without a test of `i`.
unfoldable pub store_bits_v0 : Asv → Stream → Stream
unfolding spill
store_bits_v0 asv s =
    let (f, n, rest) = spill s.out_fifo (take 23 asv.obits) asv.onumbits in
    let byte = get_or asv.obits (23 - length rest) 0 in
    record s { out_fifo = f; onumbits = n; obyte = if n == 0 then s.obyte else byte }

-- The largest `onumbits` that a format can report.
abbrev pub onumbits_max : Bool → ℕ
onumbits_max dyn = if dyn then (24 + 7) * 8 else 23 * 8

abbrev pub store_bits : Bool → Asv → Stream → Stream
store_bits dyn asv s = if dyn then store_bits_v1 asv s else store_bits_v0 asv s

-- The input side: `inp_processed` bytes are consumed.
abbrev pub consume : Asv → Stream → Stream
consume asv s = record s {
  inp_processed = asv.inp_processed;
  outp_returned = asv.outp_returned;
  input = drop asv.inp_processed s.input;
  total_in = u64 (s.total_in + asv.inp_processed);
}

-- The output side: `stored` is what the hardware wrote at `next_out`.
abbrev pub produce : Asv → List ℕ → Stream → Stream
produce asv stored s = record s {
  output = s.output ++ take asv.outp_returned stored;
  avail_out = s.avail_out - asv.outp_returned;
  total_out = u64 (s.total_out + asv.outp_returned);
}

-- deflate_process_results
unfoldable pub process_results : Device → Asv → List ℕ → Stream → Rc × Stream
unfolding store_bits_v1 store_bits_v0 dyn_huffman_supported
process_results zedc asv stored s =
    let dyn = dyn_huffman_supported zedc in
    let s₁ = consume asv s in
    let s₂ = produce asv stored s₁ in
    if ltb (length s.input) asv.inp_processed
    then fail err_retlen
        (record s { inp_processed = asv.inp_processed; outp_returned = asv.outp_returned })
    else if asv.outp_returned == 0 || ltb s.avail_out asv.outp_returned
    then fail err_retlen s₁
    else if ltb (onumbits_max dyn) asv.onumbits
    then fail err_retobits s₁
    else if not (s₂.avail_out == 0) && ltb 7 asv.onumbits
    then fail err_retobits s₂
    else (ok, store_bits dyn asv s₂)
