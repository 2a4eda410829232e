-- ===== src/Inflate/HeaderLaws.antt =====
-- How inflate_format_rem_header (lib/inflate.c) walks over a gzip header, byte by byte.
use genwqe_user.Prelude.{
  ℕ, suc, ◌≤◌, ◌≡◌, refl, ◌∙◌, Option, none, some, List, ◌∷◌, arith, ltb, get_or-set_ne, if-cases,
  le→not_ltb, ne→not_==,
}
use genwqe_user.Zedc.{gzip}
use genwqe_user.Inflate.Header.{
  HeadState, Hdr, Verdict, hdr_ok, need_more, Removed, prefx_at, gzip_loop, rem_gzip_header,
  store_prefx, next_idx, rem_loop, header_done, flags_get_fhcrc1, flags_get_fhcrc2,
  flags_check_ftext,
}

-- The header ends within `cs`, and `rest` is what follows it.
pub record Reaches (cs : List ℕ) (h : Hdr) (rest : List ℕ) : Type 0 where
  pub out : Removed
  pub runs : rem_loop gzip cs h ≡ some out
  pub ok : out.verdict ≡ hdr_ok
  pub left : out.rest ≡ rest
  pub finished : out.hdr.header_state ≡ header_done

-- The state of the walk: the fixed bytes are past, and the caller gave no header to fill in.
pub record Walk (flg : ℕ) (st : HeadState) (h : Hdr) : Type 0 where
  pub late : 10 ≤ h.prefx_idx
  pub flags : prefx_at h 3 ≡ flg
  pub head : h.gzip_head ≡ none
  pub state : h.header_state ≡ st

-- What the states that follow one another on one byte come to.
pub data Goes (cs rest : List ℕ) (o : Option (Verdict × Hdr)) : Type 0 where
  stays :
      (h : Hdr)
      → o ≡ some (need_more, h)
      → 9 ≤ h.prefx_idx
      → Reaches cs (next_idx h) rest
      → Goes cs rest o
  leaves :
      (h : Hdr) → o ≡ some (hdr_ok, h) → h.header_state ≡ header_done → cs ≡ rest → Goes cs rest o

pub Reaches-Goes :
    (c : ℕ) (cs rest : List ℕ) (h : Hdr)
    → Goes cs rest (rem_gzip_header c (store_prefx c h))
    → Reaches (c ∷ cs) h rest
unfolding rem_loop
Reaches-Goes c cs rest h (stays h' e i r) = record {
  out = r.out;
  runs = rw e r.runs;
  ok = r.ok;
  left = r.left;
  finished = r.finished;
}
Reaches-Goes c cs rest h (leaves h' e d q) = record {
  out = record { verdict = hdr_ok; rest = cs; hdr = next_idx h' };
  runs = rw e;
  ok = refl;
  left = q;
  finished = d;
}

store_prefx-Walk :
    (flg c : ℕ) (st : HeadState) (h : Hdr) → Walk flg st h → Walk flg st (store_prefx c h)
store_prefx-Walk flg c st h w =
    if-cases (Walk flg st) (ltb h.prefx_idx 18)
      (λ _. record {
        late = w.late;
        flags = get_or-set_ne h.prefx h.prefx_idx 3 c 0 (omega arith) ∙ w.flags;
        head = w.head;
        state = w.state;
      })
      (λ _. w)

rem_gzip_header-late :
    (flg c : ℕ) (st : HeadState) (h : Hdr)
    → Walk flg st h
    → rem_gzip_header c h ≡ gzip_loop 16 flg c st h
unfolding rem_gzip_header
rem_gzip_header-late flg c st h w = rw (
  le→not_ltb h.prefx_idx 9 (omega arith),
  ne→not_== h.prefx_idx 9 (omega arith),
  w.flags,
  w.state,
)

store_prefx-xlen : (c : ℕ) (h : Hdr) → (store_prefx c h).xlen ≡ h.xlen
store_prefx-xlen c h =
    if-cases (λ (g : Hdr). g.xlen ≡ h.xlen) (ltb h.prefx_idx 18) (λ _. refl) (λ _. refl)

-- One more byte `c`, taken in the state `st`.
pub Reaches-byte :
    (flg c : ℕ) (st : HeadState) (cs rest : List ℕ) (h : Hdr)
    → Walk flg st h
    → ((g : Hdr) → Walk flg st g → g.xlen ≡ h.xlen → Goes cs rest (gzip_loop 16 flg c st g))
    → Reaches (c ∷ cs) h rest
Reaches-byte flg c st cs rest h w go =
    let w' = store_prefx-Walk flg c st h w in
    Reaches-Goes c cs rest h (
      rw (rem_gzip_header-late flg c st (store_prefx c h) w')
        (go (store_prefx c h) w' (store_prefx-xlen c h)))

-- Leaving for more data in the state `st`, with a walk that goes on there.
pub Goes-on :
    (flg : ℕ) (st : HeadState) (cs rest : List ℕ) (g : Hdr) {o : Option (Verdict × Hdr)}
    → o ≡ some (need_more, record g { header_state = st })
    → 9 ≤ g.prefx_idx
    → prefx_at g 3 ≡ flg
    → g.gzip_head ≡ none
    → ((h : Hdr) → Walk flg st h → h.xlen ≡ g.xlen → Reaches cs h rest)
    → Goes cs rest o
Goes-on flg st cs rest g e l f n next =
    stays (record g { header_state = st }) e l
      (next _ (record { late = omega arith; flags = f; head = n; state = refl }) refl)

-- FTEXT only sets a flag of the caller's header, and the header is done.
pub Goes-ftext :
    (flg c k : ℕ) (rest : List ℕ) (h : Hdr)
    → Goes rest rest (gzip_loop (suc (suc k)) flg c flags_check_ftext h)
unfolding gzip_loop
Goes-ftext flg c k rest h = leaves _ refl refl refl

Reaches-fhcrc2 :
    (flg b : ℕ) (rest : List ℕ) (h : Hdr) → Walk flg flags_get_fhcrc2 h → Reaches (b ∷ rest) h rest
unfolding gzip_loop
Reaches-fhcrc2 flg b rest h w =
    Reaches-byte flg b flags_get_fhcrc2 rest rest h w (λ g wg _. leaves _ refl refl refl)

pub Reaches-fhcrc1 :
    (flg a b : ℕ) (rest : List ℕ) (h : Hdr)
    → Walk flg flags_get_fhcrc1 h
    → Reaches (a ∷ b ∷ rest) h rest
unfolding gzip_loop
Reaches-fhcrc1 flg a b rest h w = Reaches-byte flg a flags_get_fhcrc1 (b ∷ rest) rest h w λ g wg _.
    Goes-on flg flags_get_fhcrc2 (b ∷ rest) rest (record g { gzip_hcrc = a }) refl (omega arith)
      wg.flags wg.head (λ h' w' _. Reaches-fhcrc2 flg b rest h' w')
