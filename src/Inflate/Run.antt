-- ===== src/Inflate/Run.antt =====
-- lib/inflate.c: zedc_inflate. The card is a parameter `hw`, which answers the command that
-- accel_ddcb_execute is given.
use genwqe_user.Prelude.{
  ℕ, zero, suc, ◌+◌, ◌-◌, ◌*◌, ◌^◌, bit_or, bit_and, Bool, true, false, not, ◌&&◌, ◌||◌, Option,
  none, some, List, ltb, ◌==◌, if◌then◌else◌, has_bit, length, take, drop, ◌++◌, u32, u64, ℤ, pos,
  negsuc,
}
use genwqe_user.Zedc.{
  Rc, ok, stream_end, stream_error, data_error, mem_error, need_dict, Flush, finish, is_flat,
  ats_set_flags, ats_rd, ats_rdwr, is_ok, is_negative,
}
use genwqe_user.Inflate.Header.{is_header_done}
use genwqe_user.Inflate.Stream.{Inf}
use genwqe_user.Inflate.Output.{flush_output_buffer}
use genwqe_user.Inflate.Trailer.{Removal, removed, re_enter, refused, rem_trailer}
use genwqe_user.Inflate.RemHeader.{rem_header}
use genwqe_user.Inflate.Asv.{AsvInfl, AsivInfl, get_inflate_asv, set_inflate_asiv}
use genwqe_user.Inflate.Scratch.{final_eob, post_scratch_upd}

-- What the driver reads of `struct ddcb_cmd`.
pub record Cmd : Type 0 where
  pub cmd : ℕ
  pub acfunc : ℕ
  pub cmdopts : ℕ
  pub ats : ℕ
  pub asiv_length : ℕ
  pub asv_length : ℕ
  pub asiv : AsivInfl

-- What comes back: the result of accel_ddcb_execute, the DDCB's codes and results, the bytes that
-- the card wrote at `next_out`, and the dictionary page if it was asked to save one.
pub record Answer : Type 0 where
  pub rc : ℤ
  pub retc : ℕ
  pub attn : ℕ
  pub progress : ℕ
  pub asv : AsvInfl
  pub stored : List ℕ
  pub dict : List ℕ

-- The address translation flags of the three buffers.
unfoldable pub prepare_ats : ℕ → ℕ → ℕ → ℕ
prepare_ats dma_in dma_out dma_ws =
    let ats₁ = bit_or 0 (ats_set_flags 0 (ats_rd (is_flat dma_in))) in
    let ats₂ = bit_or ats₁ (ats_set_flags 16 (ats_rdwr (is_flat dma_out))) in
    let ws = is_flat dma_ws in
    bit_or ats₂ (
      bit_or (bit_or (ats_set_flags 32 (ats_rd ws)) (ats_set_flags 64 (ats_rdwr ws)))
        (ats_set_flags 48 (ats_rdwr ws)))

-- ZEDC_FLG_CROSS_CHECK is bit 0 of `flags`; RAS_CHECK is 1 << 15 and SAVE_DICT 4.
unfoldable pub prepare : Inf → Cmd × Inf
unfolding set_inflate_asiv prepare_ats
prepare s =
    let (asiv, s') = set_inflate_asiv s in
    (
      record {
        cmd = 1;
        acfunc = 1;
        cmdopts = bit_or (if has_bit s.flags 0 then bit_or 0 (2 ^ 15) else 0) 4;
        ats = prepare_ats s.dma_in s.dma_out s.dma_ws;
        asiv_length = 0x70 - 0x18;
        asv_length = 0xc0 - 0x80;
        asiv = asiv;
      },
      s',
    )

-- ZEDC_FLG_SKIP_LAST_DICT is bit 2 of `flags`; `avail_in * 2` is over `unsigned int`.
abbrev pub is_finish : Flush → Bool
is_finish finish = true
is_finish _ = false

abbrev pub skips_dict : Flush → Inf → Bool
skips_dict flush s = has_bit s.flags 2 && is_finish flush

abbrev pub expects_end : Flush → Inf → Bool
expects_end flush s = skips_dict flush s && ltb (u32 (length s.input * 2)) s.avail_out

-- `cmdopts &= ~SAVE_DICT` over 16 bits.
abbrev pub without_dict : Cmd → Cmd
without_dict c = record c {
  cmdopts = bit_and c.cmdopts (2 ^ 16 - 1 - 4);
  asiv = record c.asiv { out_dict = none; out_dict_len = 0 };
}

abbrev pub with_dict : Cmd → Cmd → Cmd
with_dict saved c = record c {
  cmdopts = bit_or c.cmdopts 4;
  asiv = record c.asiv { out_dict = saved.asiv.out_dict; out_dict_len = saved.asiv.out_dict_len };
}

-- The card writes the page that `out_dict` points at.
abbrev pub save_page : Option Bool → List ℕ → Inf → Inf
save_page none dict s = s
save_page (some true) dict s = record s { dict1 = dict }
save_page (some false) dict s = record s { dict0 = dict }

abbrev pub after_execute : Cmd → Answer → Inf → Inf
after_execute c a s =
    save_page c.asiv.out_dict a.dict
      (record s { retc = a.retc; attn = a.attn; progress = a.progress })

-- `(rc == DDCB_ERR_EXEC_DDCB) && (retc == DDCB_RETC_FAULT) && (attn == 0x801A)`; the code is -411.
abbrev pub is_exec_error : ℤ → Bool
is_exec_error (negsuc n) = n == 410
is_exec_error (pos n) = false

abbrev pub wants_dict : Answer → Bool
wants_dict a = is_exec_error a.rc && (a.retc == 0x104 && a.attn == 0x801a)

-- `(rc < 0) || (retc != DDCB_RETC_COMPLETE)`
abbrev pub is_minus_rc : ℤ → Bool
is_minus_rc (negsuc n) = true
is_minus_rc (pos n) = false

abbrev pub not_complete : Answer → Bool
not_complete a = is_minus_rc a.rc || not (a.retc == 0x102)

-- How the loop over `tries` ends: with an answer, or with a return from zedc_inflate.
pub data Executed : Type 0 where
  answered : Answer → Executed
  returned : Rc → Executed

-- What follows an execution, with what the next try would come to.
abbrev pub after_try : Answer → Inf → Executed × Inf → Executed × Inf
after_try a s again =
    if wants_dict a
    then (returned need_dict, record s { adler32 = s.dict_adler32 })
    else if not_complete a
    then (returned stream_error, s)
    else if has_bit a.asv.infl_stat 2
    then (answered a, s)
    else again

-- Between the tries, `last` is the answer that `asv` holds.
unfoldable pub execute : (Cmd → Answer) → ℕ → Flush → Cmd → Cmd → Executed → Inf → Executed × Inf
execute hw zero flush saved c last s = (last, s)
execute hw (suc tries) flush saved c last s =
    let s' = after_execute c (hw c) s in
    after_try (hw c) s' (
      execute hw tries flush saved (if skips_dict flush s' then with_dict saved c else c)
        (answered (hw c)) s')

-- `if (infl_stat & INFL_STAT_FINAL_EOB) eob_seen = 1`
abbrev pub note_eob : Inf → Inf
note_eob s = if final_eob s then record s { eob_seen = 1 } else s

-- What zedc_inflate returns once the trailer is removed, or not.
abbrev pub by_removal : Removal × Inf → Rc × Inf
by_removal (refused rc, s) = (data_error, s)
by_removal (re_enter, s) = (ok, s)
by_removal (removed, s) = (if s.obytes_in_dict == 0 then stream_end else ok, s)

-- The bytes stored by the card, and the bytes of input that are used up.
abbrev pub produce : List ℕ → Inf → Inf
produce stored s = record s {
  output = s.output ++ take s.outp_returned stored;
  avail_out = s.avail_out - s.outp_returned;
  total_out = u64 (s.total_out + s.outp_returned);
}

abbrev pub consume : Inf → Inf
consume s = record s {
  input = drop s.sr.inp_data_offs s.input;
  total_in = u64 (s.total_in + s.sr.inp_data_offs);
}

abbrev pub at_eob : Inf → (Inf → Rc × Inf) → Rc × Inf
at_eob s go = if not (s.eob_seen == 0) then by_removal (rem_trailer s) else go s

-- From get_inflate_asv on.
unfoldable pub take_answer : Answer → Inf → Rc × Inf
unfolding get_inflate_asv post_scratch_upd rem_trailer
take_answer a s =
    let (rc, s₁) = post_scratch_upd (get_inflate_asv a.asv s) in
    let s₂ = produce a.stored s₁ in
    if is_negative rc
    then (stream_error, s₁)
    else if ltb s₁.avail_out s₁.outp_returned
    then (stream_error, s₁)
    else if ltb (length s₂.input) s₂.sr.inp_data_offs
    then (stream_error, s₂)
    else at_eob (note_eob (consume s₂)) (λ t. (ok, t))

abbrev pub after_tries : Executed → Inf → Rc × Inf
after_tries (returned rc) s = (rc, s)
after_tries (answered a) s = take_answer a s

-- From `Prepare Inflate DDCB` on: the command, up to two tries, and the answer. Without a try there
-- would be no answer.
unfoldable pub submit : (Cmd → Answer) → Flush → Inf → Rc × Inf
unfolding prepare execute take_answer
submit hw flush s =
    let (c, s₁) = prepare s in
    let skip = expects_end flush s in
    let (e, s₂) =
      execute hw (if skip then 2 else 1) flush c (if skip then without_dict c else c)
        (returned stream_error) s₁ in
    after_tries e s₂

-- The label chk_ret.
abbrev pub chk_ret : Inf → Rc × Inf
chk_ret s = (if final_eob s && s.obytes_in_dict == 0 then stream_end else ok, s)

-- Once the header is off the input.
abbrev pub after_header : (Cmd → Answer) → Flush → Rc × Inf → Rc × Inf
after_header hw flush (rc, s) =
    if not (is_ok rc)
    then (rc, s)
    else if has_bit s.data_type 7
    then (ok, s)
    else if length s.input == 0 && s.scratch_bits == 0
    then chk_ret s
    else submit hw flush s

abbrev pub go_on : (Cmd → Answer) → Flush → Option (Rc × Inf) → Option (Rc × Inf)
go_on hw flush none = none
go_on hw flush (some p) = some (after_header hw flush p)

-- ZEDC_INFL_AVAIL_IN_MAX
abbrev pub avail_in_max : ℕ
avail_in_max = 2 ^ 32 - 1 - 1023

-- zedc_inflate, for a stream that is not NULL and has a device; `none` means that the fuel of the
-- header's state machine ran out.
unfoldable pub inflate_on : (Cmd → Answer) → Flush → Inf → Option (Rc × Inf)
unfolding flush_output_buffer rem_trailer rem_header submit
inflate_on hw flush s =
    let s₀ : Inf = record s { flush = flush; sr = record s.sr { inp_data_offs = 0 } } in
    let (rc, s₁) = flush_output_buffer s₀ in
    let s₂ = note_eob s₁ in
    let off = if is_header_done s₂.hdr.header_state then some (ok, s₂) else rem_header flush s₂ in
    if ltb avail_in_max (length s.input)
    then some (mem_error, s)
    else if not (is_ok rc)
    then some (stream_error, s₁)
    else if not (s₂.eob_seen == 0)
    then some (by_removal (rem_trailer s₂))
    else if s₂.avail_out == 0
    then some (ok, s₂)
    else go_on hw flush off

unfoldable pub inflate : (Cmd → Answer) → Flush → Option Inf → Option (Rc × Option Inf)
unfolding inflate_on
inflate hw flush none = some (stream_error, none)
inflate hw flush (some s) = elim s.device [
  | none ↦ some (stream_error, some s)
  | some zedc ↦ elim (inflate_on hw flush s) [ none ↦ none | some (rc, s') ↦ some (rc, some s') ]
]
