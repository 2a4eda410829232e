-- ===== src/Wrapper/Backend.antt =====
-- lib/wrapper.c: what the wrapper keeps and what it uses of the implementations below it. The hardware and the software
-- implementation (h_inflate and its kin, z_inflate and its kin) are a parameter.
use genwqe_user.Prelude.{ℕ, Bool, true, false, Option, List, ℤ}
use genwqe_user.Zedc.{Flush}
use genwqe_user.Hardware.Buffers.{Zstream}

-- Z_ERRNO to Z_UNSUPPORTED, the codes below 0, and all codes.
pub data Zerr : Type 0 where
  errno stream_error data_error mem_error buf_error version_error unsupported : Zerr

pub data Zrc : Type 0 where
  ok stream_end need_dict : Zrc
  error : Zerr → Zrc

abbrev pub is_ok : Zrc → Bool
is_ok ok = true
is_ok _ = false

-- ZLIB_SW_IMPL and ZLIB_HW_IMPL
pub data Impl : Type 0 where
  sw_impl hw_impl : Impl

abbrev pub is_hw : Impl → Bool
is_hw hw_impl = true
is_hw sw_impl = false

-- What inflateInit2_ gives: a new private state, or an error.
pub data Opened (X : Type 0) : Type 0 where
  opened : X → Opened X
  failed : Zerr → Opened X

-- The inflate functions of one implementation, with private states of type `X`.
pub record Backend (X : Type 0) : Type 0 where
  pub inflate_init2 : ℤ → Zstream → Zstream × Opened X
  pub inflate : Flush → Zstream → X → Zrc × Zstream × X
  pub inflate_reset : Zstream → X → Zrc × Zstream × X
  pub inflate_reset2 : ℤ → Zstream → X → Zrc × Zstream × X
  pub inflate_set_dictionary : List ℕ → Zstream → X → Zrc × Zstream × X
  pub inflate_get_dictionary : X → Zrc × List ℕ
  pub inflate_get_header : ℕ → Zstream → X → Zrc × Zstream × X
  pub inflate_end : Zstream → X → Zrc × Zstream

-- The parameters of deflateInit2_.
pub record Params : Type 0 where
  pub level : ℤ
  pub method : ℕ
  pub window_bits : ℤ
  pub mem_level : ℕ
  pub strategy : ℕ

-- The deflate functions of one implementation.
pub record Deflater (X : Type 0) : Type 0 where
  pub deflate_init2 : Params → Zstream → Zstream × Opened X
  pub deflate : Flush → Zstream → X → Zrc × Zstream × X
  pub deflate_reset : Zstream → X → Zrc × Zstream × X
  pub deflate_set_dictionary : List ℕ → Zstream → X → Zrc × Zstream × X
  pub deflate_set_header : ℕ → Zstream → X → Zrc × Zstream × X
  pub deflate_copy : Zstream → X → Zstream × Opened X × X
  pub deflate_end : Zstream → X → Zrc × Zstream

-- Both, and what only software has: deflatePrime and deflateParams.
pub record Deflaters (H Z : Type 0) : Type 0 where
  pub hw : Deflater H
  pub sw : Deflater Z
  pub deflate_prime : ℤ → ℤ → Zstream → Z → Zrc × Zstream × Z
  pub deflate_params : ℤ → ℕ → Zstream → Z → Zrc × Zstream × Z

-- Both implementations, and what only software has: inflatePrime and inflateSync.
pub record Backends (H Z : Type 0) : Type 0 where
  pub hw : Backend H
  pub sw : Backend Z
  pub inflate_prime : ℤ → ℤ → Zstream → Z → Zrc × Zstream × Z
  pub inflate_sync : Zstream → Z → Zrc × Zstream × Z
  pub has_get_dictionary : Bool

-- `priv_data`: NULL, a state of an implementation, or a pointer to one that was freed.
pub data Priv (H Z : Type 0) : Type 0 where
  null freed : Priv H Z
  of_hw : H → Priv H Z
  of_sw : Z → Priv H Z

-- zlib_inflate_impl and zlib_inflate_threshold
pub record Config : Type 0 where
  pub impl : Impl
  pub threshold : ℕ

-- struct _internal_state without its magic numbers and the version. `gzhead` is an address, `dictionary` what was
-- last copied to the buffer that is kept for a software library without inflateGetDictionary.
pub record Internal (H Z : Type 0) : Type 0 where
  pub impl : Impl
  pub priv_data : Priv H Z
  pub allow_switching : Bool
  pub level : ℤ
  pub method : ℕ
  pub mem_level : ℕ
  pub strategy : ℕ
  pub window_bits : ℤ
  pub gzhead : Option ℕ
  pub dictionary : List ℕ
  pub dict_length : ℕ

-- What a call makes of the stream; `state` is `none` for NULL.
pub record Out (H Z : Type 0) : Type 0 where
  pub rc : Zrc
  pub strm : Zstream
  pub state : Option (Internal H Z)
