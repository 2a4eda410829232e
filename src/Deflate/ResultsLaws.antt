-- ===== src/Deflate/ResultsLaws.antt =====
-- deflate_process_results (lib/deflate.c): which leftover bits go where.
use genwqe_user.Prelude.{
  ℕ, zero, suc, ◌+◌, ◌-◌, ◌*◌, ◌/◌, ◌%◌, ◌≤◌, ◌<◌, ◌≡◌, ◌≢◌, refl, sym, ap, ap₂, ◌∙◌, true, false,
  not, List, [], ◌∷◌, ◌++◌, append-nil, arith, ltb, ◌==◌, Bool-cases, inl, inr, length, take, drop,
  get_or, min, lt→ltb, le→not_ltb, not_ltb→le, ltb→lt, ne→not_==, ==_iff, take-append_le,
  take-append_ge, get_or-append_lt, get_or-append_ge, drop_all, take_all, length-take,
}
use genwqe_user.Fifo.{Fifo, used, push}
use genwqe_user.Fifo.Contents.{IsValid}
use genwqe_user.Fifo.Appended.{Appended, used-Appended, Appended-nil, Appended-trans, Appended-push}
use genwqe_user.Deflate.Stream.{Stream}
use genwqe_user.Deflate.Results.{Asv, spill, store_bits_v1, next_byte, some_left}

-- A loop over `bs` with `n` bits left: `k` whole bytes go to the FIFO.
record Spilled (f : Fifo) (bs : List ℕ) (n k : ℕ) : Type 0 where
  stored : Appended f (take k bs) (spill f bs n).0
  bits : (spill f bs n).1 ≡ n - 8 * k
  rest : (spill f bs n).2 ≡ drop k bs

spill_lem :
    (bs : List ℕ) (f : Fifo) (n k : ℕ)
    → k ≡ min (n / 8) (length bs)
    → IsValid f
    → used f + k ≤ 255
    → Spilled f bs n k
unfolding spill
spill_lem [] f n zero e v h = record { stored = Appended-nil f v; bits = omega arith; rest = refl }
spill_lem [] f n (suc k) e v h = absurd (omega arith)
spill_lem (b ∷ bs) f n zero e v h =
    let few : ltb 7 n ≡ false = le→not_ltb 7 n (omega arith) in
    record { stored = rw few (Appended-nil f v); bits = rw few (omega arith); rest = rw few }
spill_lem (b ∷ bs) f n (suc k) e v h =
    let many : ltb 7 n ≡ true = lt→ltb 7 n (omega arith) in
    let a = Appended-push f b v (omega arith) in
    let ih =
      spill_lem bs (push f b).1 (n - 8) k (omega arith) a.valid
        (omega (arith, used-Appended f (push f b).1 (b ∷ []) a)) in
    record {
      stored = rw many (Appended-trans f _ _ (b ∷ []) (take k bs) a ih.stored);
      bits = rw many (ih.bits ∙ omega arith);
      rest = rw many ih.rest;
    }

some_left-drop : (n k : ℕ) (bs : List ℕ) → k < length bs → some_left n (drop k bs) ≡ not (n == 0)
some_left-drop n zero [] h = absurd (omega arith)
some_left-drop n (suc k) [] h = absurd (omega arith)
some_left-drop n zero (b ∷ bs) h = refl
some_left-drop n (suc k) (b ∷ bs) h = some_left-drop n k bs (omega arith)

next_byte-drop :
    (n k old : ℕ) (bs : List ℕ)
    → k < length bs
    → n ≢ 0
    → next_byte n (drop k bs) old ≡ get_or bs k 0
next_byte-drop n zero old [] h p = absurd (omega arith)
next_byte-drop n (suc k) old [] h p = absurd (omega arith)
next_byte-drop n zero old (b ∷ bs) h p = ground arith
next_byte-drop n (suc k) old (b ∷ bs) h p = next_byte-drop n k old bs (omega arith) p

-- Where the leftover bits `n` of the bytes `bs` end up: whole bytes in the FIFO, the rest in `obyte`.
pub record Stored (f : Fifo) (bs : List ℕ) (n : ℕ) (t : Stream) : Type 0 where
  pub bytes : Appended f (take (n / 8) bs) t.out_fifo
  pub bits : t.onumbits ≡ n % 8
  pub partial : n % 8 ≢ 0 → t.obyte ≡ get_or bs (n / 8) 0

abbrev all_bits : Asv → List ℕ
all_bits asv = asv.obits ++ asv.obits_extra

-- Fewer than 24 whole bytes: the first loop takes them all. With a partial byte left it ends there.
store_few_partial :
    (asv : Asv) (s : Stream)
    → length asv.obits ≡ 24
    → asv.onumbits / 8 < 24
    → asv.onumbits % 8 ≢ 0
    → IsValid s.out_fifo
    → used s.out_fifo + asv.onumbits / 8 ≤ 255
    → Stored s.out_fifo (all_bits asv) asv.onumbits (store_bits_v1 asv s)
unfolding store_bits_v1
store_few_partial asv s l q p v h =
    let k = asv.onumbits / 8 in
    let sp = spill_lem asv.obits s.out_fifo asv.onumbits k (omega arith) v h in
    let left = asv.onumbits - 8 * k in
    let p' : left ≢ 0 = omega arith in
    let e = some_left-drop left k asv.obits (omega arith) in
    rw (sp.bits, sp.rest, e, ne→not_== left 0 p')
      (record {
        bytes = rw (take-append_le k asv.obits asv.obits_extra (omega arith)) sp.stored;
        bits = omega arith;
        partial = λ _.
            next_byte-drop left k s.obyte asv.obits (omega arith) p'
            ∙ sym (get_or-append_lt asv.obits asv.obits_extra k 0 (omega arith));
      })

store_few_exact :
    (asv : Asv) (s : Stream)
    → length asv.obits ≡ 24
    → asv.onumbits / 8 < 24
    → asv.onumbits % 8 ≡ 0
    → IsValid s.out_fifo
    → used s.out_fifo + asv.onumbits / 8 ≤ 255
    → Stored s.out_fifo (all_bits asv) asv.onumbits (store_bits_v1 asv s)
unfolding store_bits_v1
store_few_exact asv s l q p v h =
    let k = asv.onumbits / 8 in
    let f = (spill s.out_fifo asv.obits asv.onumbits).0 in
    let sp = spill_lem asv.obits s.out_fifo asv.onumbits k (omega arith) v h in
    let left : asv.onumbits - 8 * k ≡ 0 = omega arith in
    let room = used-Appended s.out_fifo f (take k asv.obits) sp.stored in
    let sp' = spill_lem asv.obits_extra f 0 0 (omega arith) sp.stored.valid (no_more f) in
    rw (sp.bits, sp.rest, left, some_left-drop 0 k asv.obits (omega arith))
      (record {
        bytes =
            rw
              (
                take-append_le k asv.obits asv.obits_extra (omega arith),
                ← append-nil (take k asv.obits),
              )
              (Appended-trans s.out_fifo f _ (take k asv.obits) [] sp.stored sp'.stored);
        bits = sp'.bits ∙ omega arith;
        partial = λ ne. absurd (ne p);
      })
  where
    no_more : (f : Fifo) → used f + 0 ≤ 255
    no_more f = omega arith

split_bits :
    (asv : Asv)
    → length asv.obits ≡ 24
    → 24 ≤ asv.onumbits / 8
    → take (asv.onumbits / 8) (all_bits asv)
      ≡ take 24 asv.obits ++ take (asv.onumbits / 8 - 24) asv.obits_extra
split_bits asv l q =
    let q' : length asv.obits ≤ asv.onumbits / 8 = omega arith in
    let e : asv.onumbits / 8 - length asv.obits ≡ asv.onumbits / 8 - 24 = omega arith in
    let l' : length asv.obits ≤ 24 = omega arith in
    take-append_ge (asv.onumbits / 8) asv.obits asv.obits_extra q'
    ∙ ap₂ (λ (xs : List ℕ) (k : ℕ). xs ++ take k asv.obits_extra)
        (take_all _ asv.obits q' ∙ sym (take_all 24 asv.obits l')) e

-- 24 whole bytes or more: the second loop goes on behind the first.
store_many :
    (asv : Asv) (s : Stream)
    → length asv.obits ≡ 24
    → length asv.obits_extra ≡ 7
    → 24 ≤ asv.onumbits / 8
    → asv.onumbits ≤ 248
    → IsValid s.out_fifo
    → used s.out_fifo + asv.onumbits / 8 ≤ 255
    → Stored s.out_fifo (all_bits asv) asv.onumbits (store_bits_v1 asv s)
unfolding store_bits_v1
store_many asv s l lx q hi v h =
    let n = asv.onumbits - 8 * 24 in
    let k = asv.onumbits / 8 - 24 in
    let f = (spill s.out_fifo asv.obits asv.onumbits).0 in
    let sp = spill_lem asv.obits s.out_fifo asv.onumbits 24 (omega arith) v (omega arith) in
    let u : used f ≡ used s.out_fifo + length (take 24 asv.obits) =
      used-Appended s.out_fifo f (take 24 asv.obits) sp.stored in
    let sp' =
      spill_lem asv.obits_extra f n k (omega arith) sp.stored.valid
        (omega (arith, length-take 24 asv.obits)) in
    rw (sp.bits, sp.rest, drop_all 24 asv.obits (omega arith))
      (record {
        bytes = rw (split_bits asv l q) (
            Appended-trans s.out_fifo f _ (take 24 asv.obits) (take k asv.obits_extra) sp.stored
              sp'.stored);
        bits = sp'.bits ∙ omega arith;
        partial = λ ne.
            rw (sp'.bits, sp'.rest)
              (next_byte-drop (n - 8 * k) k s.obyte asv.obits_extra (omega arith) (omega arith)
                ∙ sym (
                    get_or-append_ge asv.obits asv.obits_extra (asv.onumbits / 8) 0 (omega arith)
                    ∙ ap (λ i. get_or asv.obits_extra i 0) (same_index l)));
      })
  where
    same_index : length asv.obits ≡ 24 → asv.onumbits / 8 - length asv.obits ≡ asv.onumbits / 8 - 24
    same_index e = omega arith

-- With 24 bytes of OBITS, 7 of OBITS_EXTRA, at most 248 leftover bits and a valid FIFO with room
-- for their whole bytes, every bit that the hardware could not store ends up in order: `onumbits /
-- 8` whole bytes behind those of the FIFO, and the last `onumbits % 8` bits in `obyte`.
pub store_bits_v1_lem :
    (asv : Asv) (s : Stream)
    → length asv.obits ≡ 24
    → length asv.obits_extra ≡ 7
    → asv.onumbits ≤ 248
    → IsValid s.out_fifo
    → used s.out_fifo + asv.onumbits / 8 ≤ 255
    → Stored s.out_fifo (asv.obits ++ asv.obits_extra) asv.onumbits (store_bits_v1 asv s)
store_bits_v1_lem asv s l lx hi v h = elim (Bool-cases (ltb (asv.onumbits / 8) 24)) [
  | inr many ↦ store_many asv s l lx (not_ltb→le _ _ many) hi v h
  | inl few ↦ elim (Bool-cases (asv.onumbits % 8 == 0)) [
    | inl exact ↦ store_few_exact asv s l (ltb→lt _ _ few) ((==_iff _ _).0 exact) v h
    | inr partial ↦ store_few_partial asv s l (ltb→lt _ _ few) (ground arith) v h
  ]
]
