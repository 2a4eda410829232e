-- ===== src/Fifo/Tests.antt =====
-- The FIFO of include/deflate_fifo.h on concrete calls.
use genwqe_user.Prelude.{◌-◌, ◌≡◌, List, [], ◌∷◌, ◌++◌, take, little}
use genwqe_user.Fifo
use genwqe_user.Fifo.{Fifo, used, push_all}
use genwqe_user.Fifo.Queue
use genwqe_user.Fifo.Queue.{Op, put_byte, put_word, get_byte, get_half}
use genwqe_user.Fifo.Contents.{contents, init-IsValid, contents-push_all}
use genwqe_user.Fifo.Refine.{run, run_refines}

-- A store, a word, and fetches of both kinds.
abbrev calls : List Op
calls = put_byte 7 ∷ put_word 258 ∷ get_byte ∷ get_half ∷ get_half ∷ get_byte ∷ []

run_refines_example : run little 0 Fifo.init calls ≡ Queue.run little (contents Fifo.init) calls
run_refines_example = run_refines little 0 calls Fifo.init init-IsValid

contents-push_all_example :
    contents (push_all Fifo.init (1 ∷ 2 ∷ []))
    ≡ contents Fifo.init ++ take (255 - used Fifo.init) (1 ∷ 2 ∷ [])
contents-push_all_example = contents-push_all (1 ∷ 2 ∷ []) Fifo.init init-IsValid
