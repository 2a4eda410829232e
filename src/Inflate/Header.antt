-- ===== src/Inflate/Header.antt =====
-- lib/inflate.c: inflate_rem_gzip_header, inflate_rem_zlib_header and the byte loop of
-- inflate_format_rem_header. The state is that of the header fields of `struct zedc_stream_s`.
use genwqe_user.Prelude.{
  ℕ, zero, suc, ◌+◌, ◌*◌, ◌/◌, ◌%◌, ◌^◌, Bool, true, false, ◌&&◌, Option, none, some, List, [], ◌∷◌,
  ltb, ◌==◌, if◌then◌else◌, get_or, set, has_bit,
}
use genwqe_user.Zedc.{Format, gzip}

-- `enum e_head_state`
pub data HeadState : Type 0 where
  header_start : HeadState
  flags_check_empty : HeadState
  flags_check_extra flags_get_extra_len1 flags_get_extra_len2 flags_get_extra : HeadState
  flags_check_fname flags_get_fname : HeadState
  flags_check_fcomment flags_get_fcomment : HeadState
  flags_check_fhcrc flags_get_fhcrc1 flags_get_fhcrc2 : HeadState
  flags_check_ftext : HeadState
  zlib_adler : HeadState
  header_done : HeadState

abbrev pub is_header_done : HeadState → Bool
is_header_done header_done = true
is_header_done _ = false

-- `struct gzedc_header_s` as zedc_inflateGetHeader registers it: three buffers to fill.
pub record GzipRead : Type 0 where
  pub text : Bool
  pub time : ℕ
  pub xflags : ℕ
  pub os : ℕ
  pub extra : List ℕ
  pub extra_len : ℕ
  pub extra_max : ℕ
  pub name : List ℕ
  pub name_max : ℕ
  pub comment : List ℕ
  pub comm_max : ℕ
  pub done : Bool

pub record Hdr : Type 0 where
  pub prefx : List ℕ
  pub prefx_idx : ℕ
  pub prefx_len : ℕ
  pub header_state : HeadState
  pub xlen : ℕ
  pub gzip_header_idx : ℕ
  pub gzip_hcrc : ℕ
  pub gzip_head : Option GzipRead

-- INFLATE_HDR_OK, INFLATE_HDR_NEED_MORE_DATA, INFLATE_HDR_ZLIB_NEED_DICT with the dictionary's
-- ADLER32, and INFLATE_HDR_ERROR.
pub data Verdict : Type 0 where
  hdr_ok need_more hdr_error : Verdict
  zlib_need_dict : ℕ → Verdict

-- One pass of the `switch`: go on in a state, leave the loop for more data, or a fault.
pub data Turn : Type 0 where
  again more : HeadState → Hdr → Turn
  fault : Hdr → Turn

abbrev pub prefx_at : Hdr → ℕ → ℕ
prefx_at h i = get_or h.prefx i 0

-- `gz_h->time = ...; gz_h->xflags = ...; gz_h->os = ...;`
abbrev pub note_fixed : Hdr → Option GzipRead → Option GzipRead
note_fixed h none = none
note_fixed h (some g) = some (record g {
  time = prefx_at h 4 + 2 ^ 8 * prefx_at h 5 + 2 ^ 16 * prefx_at h 6 + 2 ^ 24 * prefx_at h 7;
  xflags = prefx_at h 8;
  os = prefx_at h 9;
})

abbrev pub note_len : ℕ → Option GzipRead → Option GzipRead
note_len n none = none
note_len n (some g) = some (record g { extra_len = n })

abbrev pub note_text : Bool → Option GzipRead → Option GzipRead
note_text b none = none
note_text b (some g) = some (if b then record g { text = true } else g)

abbrev pub note_done : Option GzipRead → Option GzipRead
note_done none = none
note_done (some g) = some (record g { done = true })

-- Which buffer a byte goes to.
pub data Part : Type 0 where
  extra_field file_name file_comment : Part

abbrev pub room : Part → GzipRead → ℕ
room extra_field g = g.extra_max
room file_name g = g.name_max
room file_comment g = g.comm_max

abbrev pub put_part : Part → ℕ → ℕ → GzipRead → GzipRead
put_part extra_field i c g = record g { extra = set g.extra i c }
put_part file_name i c g = record g { name = set g.name i c }
put_part file_comment i c g = record g { comment = set g.comment i c }

-- `if (gz_h) { ... }` of the three byte-collecting states: `none` is the fault of a full buffer.
unfoldable pub keep_byte : Part → ℕ → Option GzipRead → Hdr → Option Hdr
keep_byte p c none h = some h
keep_byte p c (some g) h =
    if ltb h.gzip_header_idx (room p g)
    then some (record h {
      gzip_head = some (put_part p h.gzip_header_idx c g);
      gzip_header_idx = h.gzip_header_idx + 1;
    })
    else none

abbrev pub kept : Option Hdr → Hdr → (Hdr → Turn) → Turn
kept none h go = fault h
kept (some h') h go = go h'

-- `xlen--` on a uint16_t
abbrev pub pred16 : ℕ → ℕ
pred16 n = (n + 65535) % 2 ^ 16

-- In the two 16-bit values the low byte is already there when the high byte is or-ed in.
-- The `switch` of inflate_rem_gzip_header on the byte `c` at `next_in`; `flg` is `prefx[3]`.
unfoldable pub gzip_turn : ℕ → ℕ → HeadState → Hdr → Turn
unfolding keep_byte
gzip_turn flg c header_start h =
    if prefx_at h 0 == 0x1f && (prefx_at h 1 == 0x8b && prefx_at h 2 == 0x08)
    then again flags_check_empty (record h { gzip_head = note_fixed h h.gzip_head })
    else fault h
gzip_turn flg c flags_check_empty h =
    if flg == 0 then again header_done h else again flags_check_extra h
gzip_turn flg c flags_check_extra h =
    if has_bit flg 2 then more flags_get_extra_len1 h else again flags_check_fname h
gzip_turn flg c flags_get_extra_len1 h =
    more flags_get_extra_len2 (record h { xlen = c; gzip_header_idx = 0 })
gzip_turn flg c flags_get_extra_len2 h =
    let n = h.xlen % 2 ^ 8 + c * 2 ^ 8 in
    more flags_get_extra (record h { xlen = n; gzip_head = note_len n h.gzip_head })
gzip_turn flg c flags_get_extra h =
    if h.xlen == 1
    then kept (keep_byte extra_field c h.gzip_head h) h (again flags_check_fname)
    else (let h' : Hdr = record h { xlen = pred16 h.xlen } in
        kept (keep_byte extra_field c h'.gzip_head h') h' (more flags_get_extra))
gzip_turn flg c flags_check_fname h =
    if has_bit flg 3
    then more flags_get_fname (record h { gzip_header_idx = 0 })
    else again flags_check_fcomment h
gzip_turn flg c flags_get_fname h =
    kept (keep_byte file_name c h.gzip_head h) h
      (if c == 0 then again flags_check_fcomment else more flags_get_fname)
gzip_turn flg c flags_check_fcomment h =
    if has_bit flg 4
    then more flags_get_fcomment (record h { gzip_header_idx = 0 })
    else again flags_check_fhcrc h
gzip_turn flg c flags_get_fcomment h =
    kept (keep_byte file_comment c h.gzip_head h) h
      (if c == 0 then again flags_check_fhcrc else more flags_get_fcomment)
gzip_turn flg c flags_check_fhcrc h =
    if has_bit flg 1 then more flags_get_fhcrc1 h else again flags_check_ftext h
gzip_turn flg c flags_get_fhcrc1 h = more flags_get_fhcrc2 (record h { gzip_hcrc = c })
gzip_turn flg c flags_get_fhcrc2 h =
    again flags_check_ftext (record h { gzip_hcrc = h.gzip_hcrc % 2 ^ 8 + c * 2 ^ 8 })
gzip_turn flg c flags_check_ftext h =
    again header_done (record h { gzip_head = note_text (has_bit flg 0) h.gzip_head })
-- The default case does nothing; the loop would not end there.
gzip_turn flg c zlib_adler h = again zlib_adler h
gzip_turn flg c header_done h = again header_done h

-- The loop `while ((next_state != HEADER_DONE) && (false == more_data))` and what follows it.
-- `none` means that the fuel ran out.
abbrev pub end_gzip : Hdr → Verdict × Hdr
end_gzip h = (hdr_ok, record h { gzip_head = note_done h.gzip_head; header_state = header_done })

abbrev pub after_turn : Turn → (HeadState → Hdr → Option (Verdict × Hdr)) → Option (Verdict × Hdr)
after_turn (fault h) go = some (hdr_error, h)
after_turn (more st h) go = some (need_more, record h { header_state = st })
after_turn (again st h) go = go st h

unfoldable pub gzip_loop : ℕ → ℕ → ℕ → HeadState → Hdr → Option (Verdict × Hdr)
unfolding gzip_turn
gzip_loop zero flg c st h = none
gzip_loop (suc fuel) flg c st h = elim (is_header_done st) [
  | true ↦ some (end_gzip h)
  | false ↦ after_turn (gzip_turn flg c st h) (gzip_loop fuel flg c)
]

-- inflate_rem_gzip_header. At most 10 states follow one another on one byte.
unfoldable pub rem_gzip_header : ℕ → Hdr → Option (Verdict × Hdr)
unfolding gzip_loop
rem_gzip_header c h =
    if ltb h.prefx_idx 9
    then some (need_more, h)
    else (let h' : Hdr = if h.prefx_idx == 9 then record h { header_state = header_start } else h in
        gzip_loop 16 (prefx_at h 3) c h.header_state h')

-- One pass of the `switch` of inflate_rem_zlib_header; `val16` is CMF * 256 + FLG.
pub data ZlibTurn : Type 0 where
  z_go z_more : HeadState → ZlibTurn
  z_dict : ℕ → ZlibTurn
  z_fault : ZlibTurn

-- FCHECK, and CMF: the method is 8 and the window has at most 32 KiB.
unfoldable pub zlib_valid : ℕ → Bool
zlib_valid val16 = val16 % 31 == 0 && (val16 / 2 ^ 8 % 2 ^ 4 == 8 && ltb (val16 / 2 ^ 12 % 2 ^ 4) 8)

unfoldable pub zlib_turn : HeadState → Hdr → ZlibTurn
unfolding zlib_valid
zlib_turn header_start h =
    let val16 = (prefx_at h 0 * 2 ^ 8 + prefx_at h 1) % 2 ^ 16 in
    if h.prefx_idx == 1
    then (if zlib_valid val16
        then (if has_bit val16 5 then z_more zlib_adler else z_go header_done)
        else z_fault)
    else z_more header_start
zlib_turn zlib_adler h =
    if h.prefx_idx == 5
    then z_dict
        (prefx_at h 2 * 2 ^ 24 + prefx_at h 3 * 2 ^ 16 + prefx_at h 4 * 2 ^ 8 + prefx_at h 5)
    else z_more zlib_adler
zlib_turn st h = z_go st

-- inflate_rem_zlib_header. Of the two states one leads to the other or leaves the loop, so a few
-- rounds are enough; `none` means that the fuel ran out.
abbrev pub after_zlib_turn :
    ZlibTurn → Hdr → (HeadState → Option (Verdict × Hdr)) → Option (Verdict × Hdr)
after_zlib_turn z_fault h go = some (hdr_error, h)
after_zlib_turn (z_more st) h go = some (need_more, record h { header_state = st })
after_zlib_turn (z_dict a) h go = some (zlib_need_dict a, record h { header_state = header_done })
after_zlib_turn (z_go st) h go = go st

unfoldable pub zlib_loop : ℕ → HeadState → Hdr → Option (Verdict × Hdr)
unfolding zlib_turn
zlib_loop zero st h = none
zlib_loop (suc fuel) st h = elim (is_header_done st) [
  | true ↦ some (hdr_ok, record h { header_state = header_done })
  | false ↦ after_zlib_turn (zlib_turn st h) h (λ st'. zlib_loop fuel st' h)
]

unfoldable pub rem_zlib_header : Hdr → Option (Verdict × Hdr)
unfolding zlib_loop
rem_zlib_header h =
    if ltb h.prefx_idx 1
    then some (need_more, record h { header_state = header_start })
    else zlib_loop 4 h.header_state h

-- `if (prefx_idx < ZEDC_FORMAT_STORAGE) prefx[prefx_idx] = *next_in`
abbrev pub store_prefx : ℕ → Hdr → Hdr
store_prefx c h = if ltb h.prefx_idx 18 then record h { prefx = set h.prefx h.prefx_idx c } else h

abbrev pub rem_byte : Format → ℕ → Hdr → Option (Verdict × Hdr)
rem_byte gzip c h = rem_gzip_header c h
rem_byte _ c h = rem_zlib_header h

abbrev pub next_idx : Hdr → Hdr
next_idx h = record h { prefx_idx = h.prefx_idx + 1 }

-- The byte loop of inflate_format_rem_header: the last verdict, the input left and the state.
-- Without input the verdict is that more is needed.
pub record Removed : Type 0 where
  pub verdict : Verdict
  pub rest : List ℕ
  pub hdr : Hdr

abbrev pub after_byte : Option (Verdict × Hdr) → List ℕ → (Hdr → Option Removed) → Option Removed
after_byte none cs go = none
after_byte (some (need_more, h)) cs go = go (next_idx h)
after_byte (some (v, h)) cs go = some (record { verdict = v; rest = cs; hdr = next_idx h })

unfoldable pub rem_loop : Format → List ℕ → Hdr → Option Removed
rem_loop t [] h = some (record { verdict = need_more; rest = []; hdr = h })
rem_loop t (c ∷ cs) h = after_byte (rem_byte t c (store_prefx c h)) cs (rem_loop t cs)
