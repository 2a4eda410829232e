-- ===== src/Hardware/StreamEnd.antt =====
-- lib/hardware.c: __check_stream_end, which looks for the end of a raw stream in the bytes that
-- hardware has not processed because its output was full.
use genwqe_user.Prelude.{
  ℕ, zero, suc, ◌+◌, ◌-◌, ◌*◌, ◌/◌, ◌%◌, Bool, true, false, not, Option, none, some, List, ◌++◌,
  ◌==◌, ltb, leb, if◌then◌else◌, length, take, drop, min, get_or, has_bit, u8, u32, u64,
}
use genwqe_user.Zedc.{Rc, ok, stream_end, Format, defl}
use genwqe_user.Inflate.Stream.{Inf}
use genwqe_user.Hardware.Buffers.{Zstream}

-- `enum stream_state`. DYN_HUFFMAN is the state of a search that has been given up.
pub data SearchState : Type 0 where
  read_hdr copy_block fixed_huffman dyn_huffman : SearchState

-- `struct stream_ending`: the `avail_in` bytes of `d`, and the position in them.
pub record StreamEnding : Type 0 where
  pub d : List ℕ
  pub proc_bits : ℕ
  pub idx : ℕ
  pub in_hdr_scratch_len : ℕ
  pub state : SearchState

-- get_bits: the next bits, the first one highest, or `none` if they are not all there. The position
-- in a byte, `proc_bits`, is below 8.
unfoldable pub bits_at : List ℕ → ℕ → ℕ → ℕ → ℕ → ℕ
bits_at d idx proc zero acc = acc
bits_at d idx proc (suc n) acc =
    let bit = if has_bit (get_or d idx 0) proc then 1 else 0 in
    let acc' = u64 (acc * 2 + bit) in
    bits_at d (if ltb proc 7 then idx else suc idx) (if ltb proc 7 then suc proc else 0) n acc'

-- Bits from the position `pos` (in bits) on are there up to the end of `d`.
abbrev pub enough_bits : StreamEnding → ℕ → Bool
enough_bits e bits = leb (8 * e.idx + e.proc_bits + bits) (8 * length e.d)

unfoldable pub get_bits : StreamEnding → ℕ → Option ℕ
unfolding bits_at
get_bits e bits = if enough_bits e bits then some (bits_at e.d e.idx e.proc_bits bits 0) else none

-- drop_bits: the position does not move if it would get to the end.
unfoldable pub drop_bits : StreamEnding → ℕ → StreamEnding
drop_bits e bits =
    let idx = e.idx + (e.proc_bits + bits) / 8 in
    if leb (length e.d) idx then e else record e { idx = idx; proc_bits = (e.proc_bits + bits) % 8 }

-- sync_to_byte
unfoldable pub sync_to_byte : StreamEnding → StreamEnding
sync_to_byte e = if e.proc_bits == 0 then e else record e { proc_bits = 0; idx = e.idx + 1 }

-- How a state of the search goes on: with another one, given up, or with the end found.
pub data Search : Type 0 where
  search : StreamEnding → Rc → Search
  given_up : Search
  found : StreamEnding → Search

-- READ_HDR: the header bits, the final bit highest and the type behind it in reverse.
abbrev pub block_type : ℕ → SearchState
block_type d =
    let t = d % 4 in if t == 0 then copy_block else if t == 2 then fixed_huffman else dyn_huffman

abbrev pub by_type : SearchState → StreamEnding → Rc → Search
by_type copy_block e ret = search (record e { state = copy_block }) ret
by_type fixed_huffman e ret = search (record e { state = fixed_huffman }) ret
by_type read_hdr e ret = given_up
by_type dyn_huffman e ret = given_up

abbrev pub by_header : StreamEnding → Rc → ℕ → Search
by_header e ret d = by_type (block_type d) e (if leb 4 d then stream_end else ret)

-- An empty block goes back to READ_HDR, or it is the final one.
abbrev pub is_end : Rc → Bool
is_end stream_end = true
is_end _ = false

abbrev pub by_block : StreamEnding → Rc → Bool → Search
by_block e ret is_empty =
    let e' : StreamEnding = record e { state = read_hdr } in
    if not is_empty then given_up else if is_end ret then found e' else search e' ret

abbrev pub with_bits : Option ℕ → (ℕ → Search) → Search
with_bits none go = given_up
with_bits (some d) go = go d

unfoldable pub step_in : SearchState → StreamEnding → Rc → Search
unfolding get_bits drop_bits sync_to_byte
step_in read_hdr e ret = with_bits (get_bits e 3) (by_header (drop_bits e 3) ret)
step_in fixed_huffman e ret = with_bits (get_bits e 7) (λ d. by_block (drop_bits e 7) ret (d == 0))
step_in copy_block e ret =
    let s = sync_to_byte e in
    with_bits (get_bits s 32) (λ d. by_block (drop_bits s 32) ret (d == 0xffff))
step_in dyn_huffman e ret = given_up

-- The loop, on fuel; `none` for a search that needs more of it, `some none` for one that is given up.
unfoldable pub search_loop : ℕ → Search → Option (Option StreamEnding)
unfolding step_in
search_loop fuel given_up = some none
search_loop fuel (found e) = some (some e)
search_loop zero (search e ret) = none
search_loop (suc fuel) (search e ret) = search_loop fuel (step_in e.state e ret)

-- __in_hdr_scratch_len
abbrev pub in_hdr_scratch_len : Inf → ℕ
in_hdr_scratch_len h =
    u32 (h.sr.hdr_ib + h.sr.tree_bits + h.sr.pad_bits + h.sr.scratch_ib + h.scratch_bits) / 8

-- __reset_hdr_scratch_len
abbrev pub reset_hdr_scratch_len : Inf → Inf
reset_hdr_scratch_len h = record h {
  scratch_bits = 0;
  sr = record h.sr { hdr_ib = 0; tree_bits = 0; pad_bits = 0; scratch_ib = 0 };
}

-- The bytes that are looked at: at most 16, those of the scratch area first.
abbrev pub accumulated : List ℕ → Inf → List ℕ
accumulated input h =
    let ds = take (min (in_hdr_scratch_len h) 16) h.tree in ds ++ take (16 - length ds) input

abbrev pub stream_ending : List ℕ → Inf → StreamEnding
stream_ending input h = record {
  d = accumulated input h;
  proc_bits = h.sr.proc_bits;
  idx = 0;
  in_hdr_scratch_len = in_hdr_scratch_len h;
  state = read_hdr;
}

-- sync_avail_in: the input that is used up. `avail_in` is 32 bits wide; bytes that are not there are
-- taken from nothing.
abbrev pub offset : StreamEnding → ℕ
offset e = if leb e.idx e.in_hdr_scratch_len then 0 else u8 (e.idx - e.in_hdr_scratch_len + 1)

abbrev pub sync_avail_in : StreamEnding → Zstream → Inf → Zstream × Inf
sync_avail_in e strm h = (
  record strm { input = drop (offset e) strm.input; total_in = u64 (strm.total_in + offset e) },
  if leb e.idx e.in_hdr_scratch_len then h else reset_hdr_scratch_len h,
)

abbrev pub is_defl : Format → Bool
is_defl defl = true
is_defl _ = false

abbrev pub after_search : Zstream → Inf → Option (Option StreamEnding) → Option (Rc × Zstream × Inf)
after_search strm h none = none
after_search strm h (some none) = some (ok, strm, h)
after_search strm h (some (some e)) =
    let (strm', h') = sync_avail_in e strm h in some (stream_end, strm', h')

-- __check_stream_end; `disabled` is the flag ZLIB_FLAG_DISABLE_CV_FOR_Z_STREAM_END.
unfoldable pub check_stream_end : Bool → Zstream → Inf → Option (Rc × Zstream × Inf)
unfolding search_loop
check_stream_end disabled strm h =
    if disabled
    then some (ok, strm, h)
    else if not (is_defl h.format)
    then some (ok, strm, h)
    else if not (h.sr.tree_bits == 0)
    then some (ok, strm, h)
    else after_search strm h (search_loop 300 (search (stream_ending strm.input h) ok))
