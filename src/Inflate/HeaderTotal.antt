-- ===== src/Inflate/HeaderTotal.antt =====
-- The state machines of inflate_format_rem_header (lib/inflate.c) leave their loops.
use genwqe_user.Prelude.{
  ℕ, zero, suc, ◌+◌, ◌≤◌, ◌<◌, ◌≡◌, ◌≢◌, refl, false, Option, some, List, [], ◌∷◌, arith, ltb,
  length, sym, subst, Bool-cases, inl, inr, ◌*◌, ◌%◌, ◌^◌, ◌==◌, if-cases, has_bit,
}
use genwqe_user.Zedc.{Format, defl, zlib, gzip}
use genwqe_user.Inflate.Header.{
  HeadState, Hdr, Verdict, hdr_ok, need_more, hdr_error, zlib_need_dict, Turn, again, more, fault,
  prefx_at, gzip_turn, gzip_loop, after_turn, after_zlib_turn, is_header_done, store_prefx,
  rem_byte, next_idx, rem_loop, Removed, header_start, flags_check_empty, flags_check_extra,
  flags_get_extra_len1, flags_get_extra_len2, flags_get_extra, flags_check_fname, flags_get_fname,
  flags_check_fcomment, flags_get_fcomment, flags_check_fhcrc, flags_get_fhcrc1, flags_get_fhcrc2,
  flags_check_ftext, zlib_adler, header_done, ZlibTurn, z_go, z_more, z_dict, z_fault, zlib_turn,
  zlib_valid, zlib_loop, rem_gzip_header, rem_zlib_header,
}
use genwqe_user.Inflate.HeaderDown.{StateFor, rank, KeepsState, Down, gzip_turn-Down}

-- A verdict, with a state of the format.
pub data Ran (t : Format) : Option (Verdict × Hdr) → Type 0 where
  ran : (v : Verdict) (h : Hdr) → StateFor t h.header_state → Ran t (some (v, h))

after_turn-Ran :
    (n : ℕ) (t : Turn) (go : HeadState → Hdr → Option (Verdict × Hdr))
    → ((st : HeadState) (h : Hdr)
        → rank st < n
        → StateFor gzip st
        → KeepsState h
        → Ran gzip (go st h))
    → Down n t
    → Ran gzip (after_turn t go)
after_turn-Ran n (fault h) go ih d = ran hdr_error h d
after_turn-Ran n (more st h) go ih d = ran need_more _ d
after_turn-Ran n (again st h) go ih d = ih st h d.1 d.0 d.2

-- Fuel above the rank of the state is enough.
gzip_loop-Ran :
    (fuel flg c : ℕ) (st : HeadState) (h : Hdr)
    → rank st < fuel
    → StateFor gzip st
    → KeepsState h
    → Ran gzip (gzip_loop fuel flg c st h)
unfolding gzip_loop
gzip_loop-Ran zero flg c st h l v u = absurd (omega arith)
gzip_loop-Ran (suc fuel) flg c st h l v u = elim (Bool-cases (is_header_done st)) [
  | inl e ↦ rw (gzip_loop, e) (ran hdr_ok _ tt)
  | inr e ↦
      rw (gzip_loop, e)
        (after_turn-Ran (rank st) (gzip_turn flg c st h) (gzip_loop fuel flg c)
          (λ st' h' l' v' u'. gzip_loop-Ran fuel flg c st' h' (omega arith) v' u')
          (gzip_turn-Down flg c st h v u e))
]

rank-le : (st : HeadState) → rank st < 16
rank-le header_start = omega arith
rank-le flags_check_empty = omega arith
rank-le flags_check_extra = omega arith
rank-le flags_get_extra_len1 = omega arith
rank-le flags_get_extra_len2 = omega arith
rank-le flags_get_extra = omega arith
rank-le flags_check_fname = omega arith
rank-le flags_get_fname = omega arith
rank-le flags_check_fcomment = omega arith
rank-le flags_get_fcomment = omega arith
rank-le flags_check_fhcrc = omega arith
rank-le flags_get_fhcrc1 = omega arith
rank-le flags_get_fhcrc2 = omega arith
rank-le flags_check_ftext = omega arith
rank-le zlib_adler = omega arith
rank-le header_done = omega arith

rem_gzip_header-Ran : (c : ℕ) (h : Hdr) → KeepsState h → Ran gzip (rem_gzip_header c h)
unfolding rem_gzip_header
rem_gzip_header-Ran c h u =
    if-cases (Ran gzip) (ltb h.prefx_idx 9) (λ _. ran need_more h u)
      (λ _. elim (Bool-cases (h.prefx_idx == 9)) [
        | inl e ↦ rw e (
            gzip_loop-Ran 16 (prefx_at h 3) c h.header_state
              (record h { header_state = header_start }) (rank-le h.header_state) u tt)
        | inr e ↦
            rw e (gzip_loop-Ran 16 (prefx_at h 3) c h.header_state h (rank-le h.header_state) u u)
      ])

-- A turn of the zlib header that leaves, or ends it.
abbrev ZlibDown : ZlibTurn → Type 0
ZlibDown (z_go st) = st ≡ header_done
ZlibDown (z_more st) = StateFor zlib st
ZlibDown (z_dict a) = Unit
ZlibDown z_fault = Unit

zlib_turn-Down :
    (st : HeadState) (h : Hdr)
    → StateFor zlib st
    → is_header_done st ≡ false
    → ZlibDown (zlib_turn st h)
unfolding zlib_turn
zlib_turn-Down header_start h v e =
    let val16 = (prefx_at h 0 * 2 ^ 8 + prefx_at h 1) % 2 ^ 16 in
    if-cases ZlibDown (h.prefx_idx == 1)
      (λ _.
        if-cases ZlibDown (zlib_valid val16)
          (λ _. if-cases ZlibDown (has_bit val16 5) (λ _. tt) (λ _. refl)) (λ _. tt))
      (λ _. tt)
zlib_turn-Down zlib_adler h v e = if-cases ZlibDown (h.prefx_idx == 5) (λ _. tt) (λ _. tt)
zlib_turn-Down header_done h v e = cc
zlib_turn-Down flags_check_empty h v e = absurd v
zlib_turn-Down flags_check_extra h v e = absurd v
zlib_turn-Down flags_get_extra_len1 h v e = absurd v
zlib_turn-Down flags_get_extra_len2 h v e = absurd v
zlib_turn-Down flags_get_extra h v e = absurd v
zlib_turn-Down flags_check_fname h v e = absurd v
zlib_turn-Down flags_get_fname h v e = absurd v
zlib_turn-Down flags_check_fcomment h v e = absurd v
zlib_turn-Down flags_get_fcomment h v e = absurd v
zlib_turn-Down flags_check_fhcrc h v e = absurd v
zlib_turn-Down flags_get_fhcrc1 h v e = absurd v
zlib_turn-Down flags_get_fhcrc2 h v e = absurd v
zlib_turn-Down flags_check_ftext h v e = absurd v

after_zlib_turn-Ran :
    (t : ZlibTurn) (h : Hdr)
    → StateFor zlib h.header_state
    → ZlibDown t
    → Ran zlib (after_zlib_turn t h (λ st. zlib_loop 3 st h))
unfolding zlib_loop
after_zlib_turn-Ran z_fault h u d = ran hdr_error h u
after_zlib_turn-Ran (z_more st) h u d = ran need_more _ d
after_zlib_turn-Ran (z_dict a) h u d = ran (zlib_need_dict a) _ tt
after_zlib_turn-Ran (z_go st) h u d = rw d (ran hdr_ok _ tt)

rem_zlib_header-Ran : (h : Hdr) → StateFor zlib h.header_state → Ran zlib (rem_zlib_header h)
unfolding rem_zlib_header zlib_loop
rem_zlib_header-Ran h u =
    if-cases (Ran zlib) (ltb h.prefx_idx 1) (λ _. ran need_more _ tt)
      (λ _. elim (Bool-cases (is_header_done h.header_state)) [
        | inl e ↦ rw (zlib_loop, e) (ran hdr_ok _ tt)
        | inr e ↦
            rw (zlib_loop, e) (after_zlib_turn-Ran _ h u (zlib_turn-Down h.header_state h u e))
      ])

-- What the loop over the input leaves.
pub record Removes (t : Format) (cs : List ℕ) (h : Hdr) : Type 0 where
  pub out : Removed
  pub runs : rem_loop t cs h ≡ some out
  pub keeps : StateFor t out.hdr.header_state
  pub shorter : length out.rest ≤ length cs

rem_byte-Ran :
    (t : Format) (c : ℕ) (h : Hdr) → t ≢ defl → StateFor t h.header_state → Ran t (rem_byte t c h)
rem_byte-Ran gzip c h n u = rem_gzip_header-Ran c h u
rem_byte-Ran zlib c h n u = rem_zlib_header-Ran h u
rem_byte-Ran defl c h n u = absurd (n refl)

store_prefx-state : (c : ℕ) (h : Hdr) → (store_prefx c h).header_state ≡ h.header_state
store_prefx-state c h =
    if-cases (λ (g : Hdr). g.header_state ≡ h.header_state) (ltb h.prefx_idx 18) (λ _. refl)
      (λ _. refl)

after_byte-Removes :
    (t : Format) (c : ℕ) (cs : List ℕ) (h : Hdr) (o : Option (Verdict × Hdr))
    → rem_byte t c (store_prefx c h) ≡ o
    → Ran t o
    → ((g : Hdr) → StateFor t g.header_state → Removes t cs g)
    → Removes t (c ∷ cs) h
unfolding rem_loop
after_byte-Removes t c cs h o e (ran need_more g u) ih =
    let r = ih (next_idx g) u in
    record { out = r.out; runs = rw e r.runs; keeps = r.keeps; shorter = omega (arith, r.shorter) }
after_byte-Removes t c cs h o e (ran hdr_ok g u) ih = record {
  out = record { verdict = hdr_ok; rest = cs; hdr = next_idx g };
  runs = rw e;
  keeps = u;
  shorter = omega arith;
}
after_byte-Removes t c cs h o e (ran hdr_error g u) ih = record {
  out = record { verdict = hdr_error; rest = cs; hdr = next_idx g };
  runs = rw e;
  keeps = u;
  shorter = omega arith;
}
after_byte-Removes t c cs h o e (ran (zlib_need_dict a) g u) ih = record {
  out = record { verdict = zlib_need_dict a; rest = cs; hdr = next_idx g };
  runs = rw e;
  keeps = u;
  shorter = omega arith;
}

-- For zlib and gzip, and from a header state of the format, the byte loop of header removal
-- returns on every input, whatever its bytes, leaves a state of the format and no more input than
-- it was given.
pub rem_loop-Removes :
    (t : Format) (cs : List ℕ) (h : Hdr) → t ≢ defl → StateFor t h.header_state → Removes t cs h
unfolding rem_loop
rem_loop-Removes t [] h n u = record { out = _; runs = refl; keeps = u; shorter = omega arith }
rem_loop-Removes t (c ∷ cs) h n u =
    after_byte-Removes t c cs h _ refl
      (rem_byte-Ran t c (store_prefx c h) n (subst (StateFor t) (sym (store_prefx-state c h)) u))
      (λ g v. rem_loop-Removes t cs g n v)
