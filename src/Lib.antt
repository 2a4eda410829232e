-- ===== src/Lib.antt =====
-- A model of libzHW, the library of genwqe-user that compresses and decompresses streams in the
-- RFC 1950, RFC 1951 and RFC 1952 formats with the help of an accelerator card.
--
-- A stream (`struct zedc_stream_s` of include/libzHW.h) is driven by zedc_deflate or
-- zedc_inflate: the caller gives input and room for output, the library builds a command block
-- (DDCB) for the card, executes it and brings the results back into the stream. Headers,
-- trailers, flush patterns and bits that the card could not store go through a FIFO of bytes on
-- their way to the output.
--
-- - Fifo, Fifo/*: include/deflate_fifo.h. `Fifo` has the operations on the ring of 256 bytes,
--   with indices as `unsigned int`; `Fifo/Queue` is the abstract queue of at most 255 bytes.
-- - Zedc: return codes, formats, the device tests of lib/hw_defs.h, and zedc_format_init,
--   __adler32 and the workspace of lib/libzHW.c.
-- - Deflate, Deflate/*: lib/deflate.c. `Stream` has the state, deflate_write_out_fifo and its
--   helpers; `Header` deflate_add_header; `Ending` deflate_write_eob, deflate_sync_flush and
--   deflate_add_trailer; `Results` deflate_process_results; `Run` zedc_deflate (`deflate_on` for
--   pointers that are not NULL, `submit` for the DDCB, `take_answer` for its results); `Setup`
--   the other entry points. The other modules there are about these.
-- - Inflate, Inflate/*: lib/inflate.c. `Header` has inflate_rem_gzip_header,
--   inflate_rem_zlib_header and the byte loop of inflate_format_rem_header, `RemHeader` that
--   function on the stream, `Trailer` inflate_format_rem_trailer, `Output` the bytes left at the
--   end of the dictionary, `Asv` the exchange with the command block, `Scratch` the workspace
--   that keeps tree and scratch bits between commands (extract_new_tree, scratch_update,
--   setup_tree, post_scratch_upd), `Run` zedc_inflate (`inflate_on` for pointers that are not
--   NULL, `submit` for the command and its tries, `take_answer` for the results), `Setup` the
--   entry points that set a stream up and end it.
-- - Hardware, Hardware/*: lib/hardware.c, the backend of the zlib wrapper. `Buffers` has the
--   hardware state with its two buffers, h_read_ibuf and h_flush_obuf; `Deflate` h_deflate over
--   zedc_deflate, with reset, dictionary and header; `Setup` its set-up, copy and end;
--   `StreamEnd` __check_stream_end. The other modules there are about these.
-- - Capi, Capi/*: lib/ddcb_capi.c, the queue of command blocks of a CAPI card. `Ddcb` has
--   commands and blocks, `Queue` what __ddcb_execute_multi and __ddcb_done_post do under the
--   lock, `Threads` the steps of all threads and their interleavings, `Events` the rounds of the
--   completion thread, `Cards` __afu_open, card_dev_open and the count of clients, `Closing` __afu_close and card_dev_close, `Handles`
--   card_open, card_close and the choice of a card in ddcb_execute. The other modules there are
--   about these.
-- - Wrapper, Wrapper/*: lib/wrapper.c, the zlib interface. `Backend` has the state and what is
--   used of the implementations, `Inflate` the calls for decompression that go through to one of
--   them, `Switch` inflate with the change of the implementation, `Deflate` compression, `Calls`
--   and `DeflateCalls` runs of calls. The other modules there are about these.
-- - Prelude, Prelude/*: lists and tests over native numbers, bytes of machine words.
--
-- Input is the list of the `avail_in` bytes at `next_in`, output the list of the bytes stored
-- through `next_out` since it was last set. Memory is that of the fields: the caller's buffers
-- do not overlap the stream. Counters and words keep their width (`% 2 ^ w`). The card is a
-- function from the command to an answer; what the wrapper calls, and libcxl, are parameters
-- too; the clock, the byte order of the host, and whether memory is granted are parameters.
--
-- Fuel: the loops that empty the FIFO (`write_out_loop`, `end_loop`) run on 256, one more than
-- the bytes that it can hold; the state machine of the gzip header has at most ten states in a
-- row on one byte and runs on 16, that of the zlib header on 4, and both return `none` if the
-- fuel runs out. The loop of h_deflate runs on two rounds more than the caller has bytes of
-- input, since every round but the first takes a byte; the search of __check_stream_end on 300
-- steps, since it has at most 16 bytes and two steps take a bit or are the last ones. The loop
-- over __ddcb_done_post is given five rounds, one more than there are entries.
--
-- Not modelled: zedc_inflateSaveBuffers, which writes debug files; the parts of lib/libzHW.c
-- that call the accelerator library or print; the decompression side of lib/hardware.c but for
-- __check_stream_end, and its cache of card handles; of lib/wrapper.c deflateBound, set-up and
-- statistics; lib/software.c, whose functions call a zlib that is loaded at run time; of
-- lib/ddcb_capi.c registers and statistics; the other card libraries;
-- the tools and tests.
pub mod Prelude
pub mod Fifo
pub mod Zedc
pub mod Deflate
pub mod Inflate
pub mod Hardware
pub mod Capi
pub mod Wrapper
