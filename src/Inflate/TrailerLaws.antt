-- ===== src/Inflate/TrailerLaws.antt =====
-- lib/inflate.c: a trailer that comes in pieces, and what its bytes decide.
use genwqe_user.Prelude.{ℕ, ◌≡◌, refl, false, List, [], ◌∷◌, ◌++◌, ltb}
use genwqe_user.Inflate.Stream.{Inf}
use genwqe_user.Inflate.Trailer.{Removal, removed, re_enter, refused, trailer_loop, at_end}

-- The stream with more input behind what it has.
abbrev pub feed : List ℕ → Inf → Inf
feed ys s = record s { input = s.input ++ ys }

-- What another call does once there is more input: it goes on only if it was asked to.
unfoldable pub then_more : List ℕ → Removal × Inf → Removal × Inf
unfolding trailer_loop
then_more ys (re_enter, s) = trailer_loop ys (feed ys s)
then_more ys (removed, s) = (removed, feed ys s)
then_more ys (refused rc, s) = (refused rc, feed ys s)

pub closed :
    (ys : List ℕ) (s : Inf)
    → ltb s.tail.postfx_idx s.tail.postfx_len ≡ false
    → trailer_loop ys s ≡ at_end s
unfolding trailer_loop
closed [] s e = refl
closed (c ∷ cs) s e = rw e
