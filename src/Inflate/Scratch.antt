-- ===== src/Inflate/Scratch.antt =====
-- lib/inflate.c: what is left of a tree and of the input is kept in the workspace for the next
-- command. `wsp->tree` has ZEDC_TREE_LEN bytes; an access outside of it is not modelled further than
-- that it reads 0 and that a store is lost.
use genwqe_user.Prelude.{
  ℕ, ◌+◌, ◌-◌, ◌*◌, ◌/◌, ◌%◌, ◌^◌, Bool, not, ◌&&◌, ◌||◌, List, [], ◌∷◌, ltb, leb, ◌==◌,
  if◌then◌else◌, length, slice, store_at, has_bit, u32, u64,
}
use genwqe_user.Zedc.{Rc, ok, err_tree_overrun}
use genwqe_user.Deflate.Stream.{SaveRestore}
use genwqe_user.Inflate.Setup.{tree_len}
use genwqe_user.Inflate.Stream.{Inf, fail, inp_proc_update}

-- A difference of two uint64_t, and of two uint32_t.
abbrev pub sub64 : ℕ → ℕ → ℕ
sub64 a b = (a + 2 ^ 64 - b) % 2 ^ 64

abbrev pub sub32 : ℕ → ℕ → ℕ
sub32 a b = (a + 2 ^ 32 - b) % 2 ^ 32

-- `x < 0` for the int64_t with the bits `x`.
abbrev pub is_minus : ℕ → Bool
is_minus x = leb (2 ^ 63) x

-- `abs(x)`, over the int that an int64_t with the bits `x` is converted to.
abbrev pub abs_int : ℕ → ℕ
abs_int x = let y = x % 2 ^ 32 in if leb (2 ^ 31) y then 2 ^ 32 - y else y

-- `(strm->scratch_bits + strm->scratch_ib) / 8`
abbrev pub in_scratch_bytes : Inf → ℕ
in_scratch_bytes s = u32 (s.scratch_bits + s.sr.scratch_ib) / 8

-- `(uint64_t)strm->hdr_start * 8 + strm->out_hdr_start_bits`
abbrev pub hdr_start_total_bits : Inf → ℕ
hdr_start_total_bits s = s.sr.hdr_start * 8 + s.sr.out_hdr_start_bits

-- The end of extract_new_tree and of scratch_update: `cnt` bytes go to `target`, those before the
-- input data from behind the old tree.
abbrev pub copy_input : ℕ → ℕ → ℕ → Inf → Inf
copy_input cnt src_offs target s =
    if cnt == 0 then s else record s { tree = store_at target (slice cnt src_offs s.input) s.tree }

abbrev pub copy_scratch : ℕ → ℕ → ℕ → Inf → Inf
copy_scratch n src target s = record s { tree = store_at target (slice n src s.tree) s.tree }

unfoldable pub copy_bytes : ℕ → ℕ → ℕ → Inf → Inf
copy_bytes cnt src_offs target s =
    if ltb 0 cnt && is_minus src_offs
    then (let n = abs_int src_offs in
        copy_input (sub32 cnt n) 0 (target + n)
          (copy_scratch n (u64 (s.sr.in_hdr_scratch_len + src_offs)) target s))
    else copy_input cnt src_offs target s

-- Bytes that are in the scratch area already are not copied if the tree starts there: `cnt`,
-- `target` and `src_offs` afterwards.
abbrev pub skip_scratch : Bool → ℕ → ℕ → ℕ → ℕ × ℕ × ℕ
skip_scratch fresh bytes cnt src_offs =
    if fresh
    then (if ltb bytes cnt
        then (sub32 cnt bytes, bytes, u64 (src_offs + bytes))
        else (0, 0, src_offs))
    else (cnt, 0, src_offs)

-- `(64 - (hdr_ib + tree_bits) % 64) & 63`, with no tree no padding.
abbrev pub padding : ℕ → ℕ → ℕ
padding hdr_ib tree_bits = if ltb 0 tree_bits then (64 - u32 (hdr_ib + tree_bits) % 64) % 64 else 0

-- `hdr_start_total_bits - in_hdr_bits + scratch_ib`, over uint64_t
abbrev pub hdr_offs : Inf → ℕ
hdr_offs s = u64 (sub64 (hdr_start_total_bits s) s.sr.in_hdr_bits + s.sr.scratch_ib)

-- How many bytes are copied, to where and from where.
abbrev pub tree_copy : Inf → ℕ × ℕ × ℕ
tree_copy s =
    skip_scratch (hdr_start_total_bits s == 0 && s.sr.in_hdr_bits == 0) (in_scratch_bytes s)
      (u32 ((s.sr.out_hdr_bits + hdr_offs s % 8 + 7) / 8))
      (sub64 (hdr_offs s / 8) (in_scratch_bytes s))

-- extract_new_tree
unfoldable pub extract_new_tree : Inf → Inf
unfolding copy_bytes
extract_new_tree s =
    let (cnt, target, src_offs) = tree_copy s in
    let s' : Inf = copy_bytes cnt src_offs target s in
    record s' {
      sr = record s'.sr {
        hdr_ib = hdr_offs s % 8;
        tree_bits = s.sr.out_hdr_bits;
        pad_bits = padding (hdr_offs s % 8) s.sr.out_hdr_bits;
      };
    }

-- `inp_processed * 8 + proc_bits - in_hdr_bits + scratch_ib`, over uint64_t
abbrev pub scratch_offs : Inf → ℕ
scratch_offs s =
    u64 (sub64 (s.inp_processed * 8 + s.sr.proc_bits) s.sr.in_hdr_bits + s.sr.scratch_ib)

-- The bytes to keep and `inp_data_offs`, first up to the offset, then with the rest of the input if
-- the output is not full.
abbrev pub keep_count : ℕ → ℕ → ℕ → ℕ × ℕ
keep_count bytes offs src_offs =
    if is_minus src_offs
    then (u32 (sub64 bytes (offs / 8)), 0)
    else (let cnt = if offs % 8 == 0 then 0 else 1 in (cnt, u32 (src_offs + cnt)))

abbrev pub keep_rest : Inf → ℕ × ℕ → ℕ × ℕ
keep_rest s (cnt, data_offs) =
    if ltb s.outp_returned s.avail_out
    then (u32 (cnt + sub32 (length s.input) data_offs), length s.input)
    else (cnt, data_offs)

abbrev pub src_offs_of : Inf → ℕ
src_offs_of s = sub64 (scratch_offs s / 8) (in_scratch_bytes s)

-- The bytes to keep, and the bytes of input that are done with.
abbrev pub kept_bytes : Inf → ℕ × ℕ
kept_bytes s = keep_rest s (keep_count (in_scratch_bytes s) (scratch_offs s) (src_offs_of s))

-- Where the scratch bytes start: behind the tree, which is padded to 64 bits.
abbrev pub scratch_at : Inf → ℕ
scratch_at s = u32 (s.sr.tree_bits + s.sr.hdr_ib + 63) / 64 * 64 / 8

-- scratch_update
unfoldable pub scratch_update : Inf → Inf
unfolding copy_bytes
scratch_update s =
    let (cnt, data_offs) = kept_bytes s in
    let s' : Inf = copy_bytes cnt (src_offs_of s) (scratch_at s) s in
    record s' {
      scratch_bits = sub32 (u32 (cnt * 8)) (scratch_offs s % 8);
      sr = record s'.sr { scratch_ib = scratch_offs s % 8; inp_data_offs = data_offs };
    }

-- If End-Of-Block has been passed or reached, all tree parameters are obsolete.
abbrev pub passed_eob : Inf → Bool
passed_eob s = has_bit s.sr.infl_stat 0

abbrev pub final_eob : Inf → Bool
final_eob s = has_bit s.sr.infl_stat 2

abbrev pub reached_eob : Inf → Bool
reached_eob s = has_bit s.sr.infl_stat 3

abbrev pub drop_tree : Inf → Inf
drop_tree s =
    let sr : SaveRestore = record s.sr { tree_bits = 0; pad_bits = 0; hdr_ib = 0 } in
    record s {
      sr = if reached_eob s then record sr { out_hdr_bits = 0; out_hdr_start_bits = 0 } else sr;
    }

abbrev pub end_seen : Inf → Inf
end_seen s = record s {
  scratch_bits = 0;
  eob_seen = 1;
  sr = record s.sr { inp_data_offs = s.sr.in_data_used };
}

-- A new header: there is one, and it is not the one at offset 0 that was given.
abbrev pub has_new_tree : Inf → Bool
has_new_tree s =
    ltb 0 s.sr.out_hdr_bits && (ltb 0 (hdr_start_total_bits s) || s.sr.in_hdr_bits == 0)

abbrev pub renew : Inf → Inf
renew s = scratch_update (if has_new_tree s then extract_new_tree s else s)

-- setup_tree
unfoldable pub setup_tree : Inf → Inf
unfolding extract_new_tree scratch_update
setup_tree s =
    let s₁ : Inf = if passed_eob s then drop_tree s else s in
    if passed_eob s && final_eob s then end_seen s₁ else renew s₁

-- post_scratch_upd: the input is kept as it is if nothing was processed, and a copy block that was
-- cut gets a header for its remaining bytes.
abbrev pub processed : Inf → Bool
processed s = not (s.inp_processed == 0) || not (s.sr.proc_bits == 0)

abbrev pub note_used : Inf → Inf
note_used s = record s {
  sr = record s.sr {
    in_data_used = inp_proc_update s.inp_processed s.sr.proc_bits s.pre_scratch_bits;
  };
}

abbrev pub keep_input : Inf → Rc × Inf
keep_input s =
    if ltb (sub32 tree_len s.sr.in_hdr_scratch_len) (length s.input)
    then fail err_tree_overrun s
    else if length s.input == 0
    then (ok, s)
    else (
      ok,
      record s {
        tree = store_at s.sr.in_hdr_scratch_len s.input s.tree;
        scratch_bits = u32 (s.scratch_bits + u32 (length s.input * 8));
        sr = record s.sr { inp_data_offs = u32 (s.sr.inp_data_offs + length s.input) };
      },
    )

-- `(infl_stat & INFL_STAT_HDR_TYPE) == 0`
abbrev pub is_copyblock : Inf → Bool
is_copyblock s =
    not (s.sr.copyblock_len == 0)
    && (not (has_bit s.sr.infl_stat 5) && not (has_bit s.sr.infl_stat 6))
    && not (s.sr.out_hdr_bits == 0)

-- `len`, `~len` and a dummy, as 16-bit words lowest byte first.
abbrev pub copyblock_header : Bool → ℕ → List ℕ
copyblock_header bfinal len =
    let inv = 2 ^ 16 - 1 - len in
    (if bfinal then 1 else 0)
    ∷ len % 256
    ∷ len / 256 % 256
    ∷ inv % 256
    ∷ inv / 256 % 256
    ∷ 0xaa
    ∷ 0xaa
    ∷ []

abbrev pub cut_copyblock : Inf → Inf
cut_copyblock s = record s {
  tree = store_at 0 (copyblock_header (has_bit s.sr.infl_stat 7) s.sr.copyblock_len) s.tree;
  sr = record s.sr { hdr_ib = 0; tree_bits = 40; pad_bits = 24 };
}

abbrev pub mend_copyblock : Inf → Inf
mend_copyblock s = if is_copyblock s then cut_copyblock s else s

abbrev pub after_upd : Rc → Inf → Rc × Inf
after_upd ok s = (ok, mend_copyblock s)
after_upd rc s = (rc, s)

unfoldable pub post_scratch_upd : Inf → Rc × Inf
unfolding setup_tree inp_proc_update
post_scratch_upd s =
    let (rc, s₁) = if processed s then (ok, setup_tree (note_used s)) else keep_input s in
    after_upd rc s₁
