-- ===== src/Capi/Ddcb.antt =====
-- lib/ddcb_capi.c: commands (struct ddcb_cmd of include/libddcb.h), the blocks that the card reads and
-- writes (struct ddcb_t of include/ddcb.h), and the way from one to the other. Fields are in host
-- byte order.
use genwqe_user.Prelude.{
  ℕ, ◌*◌, ◌/◌, ◌^◌, Bool, true, false, List, ◌++◌, ◌==◌, if◌then◌else◌, take, drop, bit_or, u8,
}

-- The completion codes DDCB_OK, DDCB_ERR_CARD, ... of include/libddcb.h.
pub data Code : Type 0 where
  ok errno err_card err_vers_mismatch err_inval err_exec_ddcb err_enomem : Code
  err_irqtimeout err_eventfail err_selectfail : Code

abbrev pub is_ok : Code → Bool
is_ok ok = true
is_ok _ = false

abbrev pub is_irqtimeout : Code → Bool
is_irqtimeout err_irqtimeout = true
is_irqtimeout _ = false

-- The command without `next_addr`: a chain of commands is a list.
pub record Cmd : Type 0 where
  pub cmdopts : ℕ
  pub cmd : ℕ
  pub acfunc : ℕ
  pub asiv_length : ℕ
  pub asv_length : ℕ
  pub ats : ℕ
  pub asiv : List ℕ
  pub asv : List ℕ
  pub vcrc : ℕ
  pub deque_ts : ℕ
  pub cmplt_ts : ℕ
  pub attn : ℕ
  pub progress : ℕ
  pub retc : ℕ

pub record Ddcb : Type 0 where
  pub pre : ℕ
  pub cmdopts : ℕ
  pub cmd : ℕ
  pub acfunc : ℕ
  pub psp : ℕ
  pub rsvd_0e : ℕ
  pub ats : ℕ
  pub asiv : List ℕ
  pub icrc_hsi_shi : ℕ
  pub seqnum : ℕ
  pub asv : List ℕ
  pub rsvd_c0 : ℕ
  pub vcrc : ℕ
  pub deque_ts : ℕ
  pub cmplt_ts : ℕ
  pub attn : ℕ
  pub progress : ℕ
  pub retc : ℕ

-- DDCB_PRESET_PRE, DDCB_INTR_BE32 and DDCB_ASIV_LENGTH_ATS
abbrev pub preset_pre : ℕ
preset_pre = 0x80

abbrev pub intr : ℕ
intr = 4

abbrev pub asiv_length_ats : ℕ
asiv_length_ats = 0x60

-- cmd_2_ddcb
unfoldable pub cmd_2_ddcb : Ddcb → Cmd → ℕ → Bool → Ddcb
cmd_2_ddcb d c seqnum use_irq = record d {
  pre = preset_pre;
  cmdopts = c.cmdopts;
  cmd = c.cmd;
  acfunc = c.acfunc;
  psp = u8 (bit_or (c.asiv_length / 8 * 2 ^ 4) (c.asv_length / 8));
  ats = c.ats;
  asiv = take asiv_length_ats c.asiv;
  icrc_hsi_shi = if use_irq then bit_or 0 intr else 0;
  rsvd_0e = seqnum;
  seqnum = seqnum;
  retc = 0;
}

-- ddcb_2_cmd: whether the sequence number came back, and the command with the results.
unfoldable pub ddcb_2_cmd : Ddcb → Cmd → Bool × Cmd
ddcb_2_cmd d c = (
  d.rsvd_0e == d.rsvd_c0,
  record c {
    asv = take c.asv_length d.asv ++ drop c.asv_length c.asv;
    vcrc = d.vcrc;
    deque_ts = d.deque_ts;
    cmplt_ts = d.cmplt_ts;
    attn = d.attn;
    progress = d.progress;
    retc = d.retc;
  },
)
