-- ===== src/Inflate/ZlibTrip.antt =====
-- The zlib header that deflate_add_header (lib/deflate.c) writes, taken off again by
-- inflate_format_rem_header (lib/inflate.c).
use genwqe_user.Prelude.{
  ℕ, ◌+◌, ◌*◌, ◌/◌, ◌%◌, ◌^◌, ◌≡◌, refl, ap, Option, none, some, List, ◌++◌, arith, IsU32,
}
use genwqe_user.Zedc.{zlib}
use genwqe_user.Inflate.Header.{
  Hdr, Verdict, hdr_ok, zlib_need_dict, Removed, rem_loop, rem_zlib_header,
}
use genwqe_user.Deflate.HeaderLaws.{zlib_header}
use genwqe_user.Inflate.HeaderTrip.{reset_hdr}

abbrev pub zlib_verdict : Option ℕ → Verdict
zlib_verdict none = hdr_ok
zlib_verdict (some a) = zlib_need_dict a

abbrev pub IsSum : Option ℕ → Type 0
IsSum none = Unit
IsSum (some a) = IsU32 a

-- The loop ends within `cs` with the verdict `v`, and `rest` is what follows.
pub record Takes (cs : List ℕ) (h : Hdr) (v : Verdict) (rest : List ℕ) : Type 0 where
  pub out : Removed
  pub runs : rem_loop zlib cs h ≡ some out
  pub says : out.verdict ≡ v
  pub left : out.rest ≡ rest

-- From a reset header state the header loop of inflate_format_rem_header takes the zlib header off
-- the input and leaves what follows; with the checksum of a dictionary, a 32-bit number, it asks
-- for the dictionary with that checksum, and otherwise it is done.
pub zlib_header_roundtrip :
    (dict : Option ℕ) (rest : List ℕ) (h : Hdr)
    → IsSum dict
    → Takes (zlib_header dict ++ rest) (reset_hdr h) (zlib_verdict dict) rest
unfolding rem_loop rem_zlib_header zlib_header
zlib_header_roundtrip none rest h u = record { out = _; runs = refl; says = refl; left = refl }
zlib_header_roundtrip (some a) rest h u =
    let e : a / 2 ^ 24 % 256 * 2 ^ 24
          + a / 2 ^ 16 % 256 * 2 ^ 16
          + a / 2 ^ 8 % 256 * 2 ^ 8
          + a % 256
        ≡ a =
      omega arith in
    record { out = _; runs = refl; says = ap zlib_need_dict e; left = refl }
