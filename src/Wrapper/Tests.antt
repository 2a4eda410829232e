-- ===== src/Wrapper/Tests.antt =====
-- The wrapper of lib/wrapper.c on concrete calls, over implementations that only count.
use genwqe_user.Prelude.{
  ℕ, ◌+◌, ◌≡◌, refl, true, false, Option, none, some, List, [], ◌∷◌, arith, length, pos,
}
use genwqe_user.Zedc.{no_flush}
use genwqe_user.Hardware.Buffers.{Zstream}
use genwqe_user.Wrapper.Backend.{
  ok, Impl, sw_impl, hw_impl, opened, Backend, Backends, Config, Internal, Out, of_hw,
}
use genwqe_user.Wrapper.Inflate
use genwqe_user.Wrapper.Switch
use genwqe_user.Wrapper.Calls.{Op, Call}
use genwqe_user.Wrapper.Calls
use genwqe_user.Wrapper.Safety.{Safe}
use genwqe_user.Wrapper.CallLaws.{run-Safe}

-- Takes all input; the private state counts the calls.
abbrev counting : Backend ℕ
counting = record {
  inflate_init2 = λ bits s. (s, opened 0);
  inflate = λ f s x. (ok, record s { input = []; total_in = s.total_in + length s.input }, x + 1);
  inflate_reset = λ s x. (ok, s, 0);
  inflate_reset2 = λ bits s x. (ok, s, 0);
  inflate_set_dictionary = λ dict s x. (ok, s, x);
  inflate_get_dictionary = λ x. (ok, []);
  inflate_get_header = λ head s x. (ok, s, x);
  inflate_end = λ s x. (ok, s);
}

abbrev both : Backends ℕ ℕ
both = record {
  hw = counting;
  sw = counting;
  inflate_prime = λ bits value s x. (ok, s, x);
  inflate_sync = λ s x. (ok, s, x);
  has_get_dictionary = false;
}

abbrev config : Config
config = record { impl = hw_impl; threshold = 16384 }

abbrev empty : Zstream
empty = record { input = []; total_in = 0; output = []; avail_out = 100; total_out = 0; adler = 0 }

abbrev given : List ℕ → Zstream → Zstream
given bytes s = record s { input = bytes }

-- Little input, a dictionary, a reset, and the end.
abbrev calls : List Call
calls =
    record { prepare = given (1 ∷ 2 ∷ 3 ∷ []); op = Op.inflate no_flush }
    ∷ record { prepare = given []; op = Op.inflate_set_dictionary (7 ∷ []) }
    ∷ record { prepare = given []; op = Op.inflate_get_dictionary }
    ∷ record { prepare = given []; op = Op.inflate_reset2 (pos 15) }
    ∷ record { prepare = given (4 ∷ []); op = Op.inflate no_flush }
    ∷ record { prepare = given []; op = Op.inflate_end }
    ∷ []

run-Safe_example :
    Safe
      (Calls.run both config calls (Inflate.inflate_init2 both config (true, true) (pos 15) empty))
run-Safe_example =
    run-Safe both config (true, true) (pos 15) empty calls
      (record { of_hw = λ x. omega arith; of_sw = λ x. omega arith })
      (tt, (omega arith, (tt, (tt, (tt, (tt, tt))))))

impl_after : Option (Out ℕ ℕ) → Option Impl
impl_after none = none
impl_after (some o) = elim o.state [ none ↦ none | some w ↦ some w.impl ]

abbrev on_hardware : Internal ℕ ℕ
on_hardware = record {
  impl = hw_impl;
  priv_data = of_hw 0;
  allow_switching = true;
  level = pos 0;
  method = 0;
  mem_level = 0;
  strategy = 0;
  window_bits = pos 15;
  gzhead = some 1;
  dictionary = [];
  dict_length = 0;
}

-- With three bytes of input, hardware gives way to software.
goes_soft :
    impl_after (Switch.inflate both config no_flush (given (1 ∷ 2 ∷ 3 ∷ []) empty) on_hardware)
    ≡ some sw_impl
unfolding impl_after Switch.inflate Switch.target Switch.reopen Switch.close_old
    Inflate.inflate_get_dictionary Inflate.inflate_get_header Inflate.end_state Inflate.init_loop
goes_soft = refl

-- inflateReset2 keeps the header of before, inflateReset does not.
head_after : Option (Out ℕ ℕ) → Option ℕ
head_after none = none
head_after (some o) = elim o.state [ none ↦ none | some w ↦ w.gzhead ]

keeps_head : head_after (Inflate.inflate_reset2 both (pos 15) empty on_hardware) ≡ some 1
unfolding head_after Inflate.inflate_reset2
keeps_head = refl

drops_head : head_after (Inflate.inflate_reset both empty on_hardware) ≡ none
unfolding head_after Inflate.inflate_reset
drops_head = refl

-- After a dictionary of more than 32 KiB in software, inflateGetDictionary reads behind the copy.
reads_behind : Inflate.read_copy both (record on_hardware { dict_length = 32769 }) ≡ none
reads_behind = refl
