-- ===== src/Inflate/Books.antt =====
-- What every step of lib/inflate.c keeps: the books of input and output.
use genwqe_user.Prelude.{
  ℕ, zero, suc, ◌+◌, ◌-◌, ◌≡◌, ◌≢◌, refl, ap, ◌∙◌, false, List, [], ◌∷◌, ◌++◌, arith, ltb, ◌==◌,
  Bool-cases, inl, inr, if-cases, length, length-append, u64, get_or,
}
use genwqe_user.Zedc.{Rc, Format, defl, zlib, gzip}
use genwqe_user.Inflate.Header.{HeadState, Hdr}
use genwqe_user.Inflate.HeaderDown.{StateFor}
use genwqe_user.Inflate.Stream.{Inf, Tail, page}
use genwqe_user.Inflate.Output.{flush_loop, flush_output_buffer, pending_at}
use genwqe_user.Inflate.Trailer.{
  Removal, Check, passed, mismatch, trailer_loop, after_check, check_tail, stored, taken,
  prepare_tail, rem_trailer, rem_trailer_as,
}
use genwqe_user.Inflate.RemHeader.{prepare_hdr}

-- The header state is one of the format's.
abbrev pub IsValid : Inf → Type 0
IsValid s = StateFor s.format s.hdr.header_state

-- The fields that count input and output, and those that say where the header is.
pub record Books : Type 0 where
  pub format : Format
  pub state : HeadState
  pub total_in : ℕ
  pub avail_in : ℕ
  pub written : ℕ
  pub avail_out : ℕ
  pub total_out : ℕ

abbrev pub books : Inf → Books
books s = record {
  format = s.format;
  state = s.hdr.header_state;
  total_in = s.total_in;
  avail_in = length s.input;
  written = length s.output;
  avail_out = s.avail_out;
  total_out = s.total_out;
}

-- The format, and the length that the trailer was found to have.
abbrev pub tail_of : Inf → Format × ℕ
tail_of s = (s.format, s.tail.postfx_len)

-- The bytes consumed are counted in `total_in`, the bytes written use up `avail_out` and are counted
-- in `total_out` (counters of 64 bits).
pub record Balanced (s t : Books) : Type 0 where
  pub valid : StateFor t.format t.state
  pub input : u64 (t.total_in + t.avail_in) ≡ u64 (s.total_in + s.avail_in)
  pub space : t.avail_out + t.written ≡ s.avail_out + s.written
  pub total : u64 (t.total_out + t.avail_out) ≡ u64 (s.total_out + s.avail_out)

-- `t` is what a step makes of `s`.
abbrev pub Accounts : Inf → Inf → Type 0
Accounts s t = Balanced (books s) (books t)

pub Accounts-refl : (s : Inf) → IsValid s → Accounts s s
Accounts-refl s v = record { valid = v; input = refl; space = refl; total = refl }

pub Balanced-trans : {s t u : Books} → Balanced s t → Balanced t u → Balanced s u
Balanced-trans a b = record {
  valid = b.valid;
  input = b.input ∙ a.input;
  space = b.space ∙ a.space;
  total = b.total ∙ a.total;
}

Accounts-flush_loop : (left i : ℕ) (s : Inf) → IsValid s → Accounts s (flush_loop left i s)
unfolding flush_loop
Accounts-flush_loop zero i s v = Accounts-refl s v
Accounts-flush_loop (suc left) i s v = elim (Bool-cases (s.avail_out == 0)) [
  | inl e ↦ rw e (Accounts-refl s v)
  | inr e ↦
      let s' : Inf = record s {
        output = s.output ++ (get_or (page s) i 0 ∷ []);
        avail_out = s.avail_out - 1;
        total_out = u64 (s.total_out + 1);
        obytes_in_dict = left;
      } in
      let n : s.avail_out ≢ 0 = λ z. not_both z e in
      let l = length-append s.output (get_or (page s) i 0 ∷ []) in
      let one : Accounts s s' = record {
        valid = v;
        input = refl;
        space = omega (arith, l);
        total = omega arith;
      } in
      rw e (Balanced-trans one (Accounts-flush_loop left (suc i) s' v))
]
  where
    not_both : s.avail_out ≡ 0 → s.avail_out == 0 ≡ false → ⊥
    not_both z e = ground arith

pub Accounts-flush : (s : Inf) → IsValid s → Accounts s (flush_output_buffer s).1
unfolding flush_output_buffer
Accounts-flush s v =
    if-cases (λ (p : Rc × Inf). Accounts s p.1) (s.obytes_in_dict == 0) (λ _. Accounts-refl s v)
      (λ _.
        if-cases (λ (p : Rc × Inf). Accounts s p.1) (ltb s.dict_len s.obytes_in_dict)
          (λ _. record { valid = v; input = refl; space = refl; total = refl })
          (λ _. Accounts-flush_loop s.obytes_in_dict (pending_at s) s v))

-- Taking a byte of the trailer.
Accounts-taken :
    (c : ℕ) (cs : List ℕ) (s : Inf) (t : Tail)
    → s.input ≡ c ∷ cs
    → IsValid s
    → Accounts s (taken cs s t)
Accounts-taken c cs s t e v = record {
  valid = v;
  input = omega (arith, ap length e);
  space = refl;
  total = refl;
}

after_check-Accounts :
    (c : ℕ) (cs : List ℕ) (s : Inf) (k : Check)
    → s.input ≡ c ∷ cs
    → IsValid s
    → ((t : Inf) → t.input ≡ cs → IsValid t → Accounts t (trailer_loop cs t).1)
    → Accounts s (after_check k cs s (trailer_loop cs)).1
after_check-Accounts c cs s (mismatch rc t) e v ih = Accounts-taken c cs s t e v
after_check-Accounts c cs s (passed t) e v ih =
    Balanced-trans (Accounts-taken c cs s t e v) (ih (taken cs s t) refl v)

Accounts-trailer_loop :
    (cs : List ℕ) (s : Inf) → s.input ≡ cs → IsValid s → Accounts s (trailer_loop cs s).1
unfolding trailer_loop
Accounts-trailer_loop [] s e v = Accounts-refl s v
Accounts-trailer_loop (c ∷ cs) s e v =
    if-cases (λ (p : Removal × Inf). Accounts s p.1) (ltb s.tail.postfx_idx s.tail.postfx_len)
      (λ _.
        after_check-Accounts c cs s (check_tail s (stored c s.tail)) e v (Accounts-trailer_loop cs))
      (λ _. Accounts-refl s v)

Accounts-prepare : (s : Inf) → IsValid s → Accounts s (prepare_tail s)
unfolding prepare_tail
Accounts-prepare s v =
    if-cases (Accounts s) (s.tail.postfx_len == 0)
      (λ _. record { valid = v; input = refl; space = refl; total = refl }) (λ _. Accounts-refl s v)

prepare_tail-input : (s : Inf) → (prepare_tail s).input ≡ s.input
unfolding prepare_tail
prepare_tail-input s =
    if-cases (λ (t : Inf). t.input ≡ s.input) (s.tail.postfx_len == 0) (λ _. refl) (λ _. refl)

Accounts-rem_trailer_as : (t : Format) (s : Inf) → IsValid s → Accounts s (rem_trailer_as t s).1
Accounts-rem_trailer_as defl s v = Accounts-refl s v
Accounts-rem_trailer_as zlib s v =
    let a = Accounts-prepare s v in
    Balanced-trans a (Accounts-trailer_loop s.input (prepare_tail s) (prepare_tail-input s) a.valid)
Accounts-rem_trailer_as gzip s v =
    let a = Accounts-prepare s v in
    Balanced-trans a (Accounts-trailer_loop s.input (prepare_tail s) (prepare_tail-input s) a.valid)

pub Accounts-rem_trailer : (s : Inf) → IsValid s → Accounts s (rem_trailer s).1
unfolding rem_trailer
Accounts-rem_trailer s v = Accounts-rem_trailer_as s.format s v

pub prepare_hdr-state : (t : Format) (h : Hdr) → (prepare_hdr t h).header_state ≡ h.header_state
prepare_hdr-state t h =
    if-cases (λ (g : Hdr). g.header_state ≡ h.header_state) (h.prefx_len == 0) (λ _. refl)
      (λ _. refl)
