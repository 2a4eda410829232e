-- ===== src/Wrapper/DeflateTests.antt =====
-- Compression through the wrapper of lib/wrapper.c on concrete calls.
use genwqe_user.Prelude.{ℕ, ◌+◌, ◌≡◌, refl, Option, true, none, some, List, [], ◌∷◌, length, pos}
use genwqe_user.Zedc.{no_flush, finish}
use genwqe_user.Hardware.Buffers.{Zstream}
use genwqe_user.Wrapper.Backend.{
  ok, mem_error, hw_impl, opened, failed, Deflater, Deflaters, Params, Config, Internal, Out, of_hw,
}
use genwqe_user.Wrapper.Deflate
use genwqe_user.Wrapper.DeflateCalls.{Op, Call}
use genwqe_user.Wrapper.DeflateCalls
use genwqe_user.Wrapper.DeflateLaws.{Defined}
use genwqe_user.Wrapper.DeflateRuns.{run-Defined}

-- Takes all input; the private state counts the calls.
abbrev counting : Deflater ℕ
counting = record {
  deflate_init2 = λ p s. (s, opened 0);
  deflate = λ f s x. (ok, record s { input = []; total_in = s.total_in + length s.input }, x + 1);
  deflate_reset = λ s x. (ok, s, 0);
  deflate_set_dictionary = λ dict s x. (ok, s, x);
  deflate_set_header = λ head s x. (ok, s, x);
  deflate_copy = λ s x. (s, opened x, x);
  deflate_end = λ s x. (ok, s);
}

abbrev both : Deflaters ℕ ℕ
both = record {
  hw = counting;
  sw = counting;
  deflate_prime = λ bits value s x. (ok, s, x);
  deflate_params = λ level strategy s x. (ok, s, x);
}

-- Software that gets no memory.
abbrev without_memory : Deflaters ℕ ℕ
without_memory = record both {
  sw = record counting { deflate_init2 = λ p s. (s, failed mem_error) };
}

abbrev config : Config
config = record { impl = hw_impl; threshold = 16384 }

abbrev level_6 : Params
level_6 = record { level = pos 6; method = 8; window_bits = pos 15; mem_level = 8; strategy = 0 }

abbrev empty : Zstream
empty = record { input = []; total_in = 0; output = []; avail_out = 100; total_out = 0; adler = 0 }

-- deflateParams with level 0, some input, and the end.
abbrev calls : List Call
calls =
    record { prepare = λ s. s; op = Op.deflate_params (pos 0) 0 }
    ∷ record { prepare = λ s. record s { input = 1 ∷ 2 ∷ [] }; op = Op.deflate no_flush }
    ∷ record { prepare = λ s. s; op = Op.deflate_copy true true }
    ∷ record { prepare = λ s. s; op = Op.deflate finish }
    ∷ record { prepare = λ s. s; op = Op.deflate_end }
    ∷ []

run-Defined_example :
    Defined (DeflateCalls.run both calls (Deflate.deflate_init2 both config true level_6 empty))
run-Defined_example = run-Defined both config true level_6 empty calls

-- When deflateParams cannot start software, it fails, and the next call gets a private state that
-- was freed.
abbrev next_call : Option (Out ℕ ℕ) → Option (Out ℕ ℕ)
next_call none = none
next_call (some o) = elim o.state [
  | none ↦ some o
  | some w ↦ Deflate.deflate without_memory no_flush o.strm w
]

abbrev started : Internal ℕ ℕ
started = record (Deflate.first_state without_memory config level_6) { priv_data = of_hw 0 }

uses_freed : next_call (Deflate.deflate_params without_memory (pos 0) 0 empty started) ≡ none
unfolding Deflate.deflate Deflate.deflate_params Deflate.restart Deflate.end_state Deflate.init_loop
uses_freed = refl
