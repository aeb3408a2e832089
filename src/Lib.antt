-- ===== src/Lib.antt =====
-- kj-cpp-redis: the C core of a Redis client. Bytes from a connection are committed to a bipartite
-- buffer (src/base/bip_buf.c); the reply parser (src/base/reply_parser) takes replies off the buffer
-- as far as they have arrived, and hands each to a callback. All state that outlives a call is in
-- the parser: a stack of builders, one for each level of nesting, and the reply under construction.
--
-- Where things are:
--   Prelude      lists, windows of lists, words, bits and the tests on numbers that the parts share
--   Strstr       `fast_strstr` of src/base/bip_buf.c; Strstr/Prefix and Strstr/Crlf on what it finds
--   PowerOfTwo   `next_power_of_two` of the same file
--   BipBuf       `bip_buf_t` and its functions, each under its own name without the prefix `bip_buf_`;
--                BipBuf/Inv has the invariant, BipBuf/Content the committed bytes, BipBuf/Grow the
--                forced reservation (BipBuf/Full of a full buffer), BipBuf/Feed the loop of
--                src/base/rdb_parser/rdb_parser.c that puts input into the buffer, BipBuf/Queue the
--                bounded queue that clients see
--   NxBuf        `nx_buf_t` of src/base/nx_buf.h; NxBuf/Pool the pools of src/base/nx_buf.c, by addresses,
--                NxBuf/Pool/Fresh and NxBuf/Pool/Alloc on the bytes that they hand out,
--                NxBuf/Chain its chains, NxBuf/Sent and NxBuf/Chains what is left of them and what is
--                used again
--   NxArray      src/base/nx_array.c: arrays over a pool, with the memory of their elements;
--                NxArray/Many several elements at once
--   Reply        src/base/reply_parser: Types (reply_parser_def.h), Builder (reply_builder.c),
--                Read (reply_build_helper.c, r_build_integer.c), Text (r_build_simple_string.c and
--                r_build_bulk_string.c), Array (r_build_array.c), Parse (r_build_reply.c, reply_parser.c),
--                Spec (the protocol: values, their encoding, what it means that a reply stands for
--                one), RoundTrip (what the parser makes of an encoding)
--   Rdb          src/base/rdb_parser, the parser of database dumps: Endian (src/base/endian.c), Helper
--                (build_helper.c), IntSet (intset.c), ZipMap (zipmap.c) and ZipList (ziplist.c) read
--                what is in memory; Types (rdb_parser_def.h), Builder (rdb_object_builder.c), Text
--                (build_string_value.c, build_lzf_string_value.c), Chain (build_list_or_set_value.c,
--                build_hash_or_zset_value.c), Block (the builders of values that are one block),
--                Object (build_object_detail_kv.c, build_object_detail_kv_val.c, build_opcode_aux.c,
--                build_dumped_data.c), Body (build_header.c, build_body.c, build_footer.c) and Parse
--                (rdb_parser.c) build objects and hand them to a callback. The Spec modules say how a
--                dump holds strings, values and records; the modules below a builder say what it makes
--                of them, up to Parse/Dump on a whole dump, Parse/Fed on the result of the command DUMP and
--                Parse/File on files
--   Tests        concrete inputs
--
-- How the code is modelled. A byte is a number, a `size_t` a number below 2^64 with its wrap-around
-- written out (`add_size`, `sub_size`), a `uint32_t` one below 2^32 (`add_u32`, `sub_u32`), an
-- `int64_t` its 64-bit word. A pointer into a buffer is an offset or the list of bytes from there on,
-- and NULL is `none`. A C function that changes its arguments returns their new values; the builders
-- share a `Context` (stack of builders, input buffer, count of parsed bytes). The code
-- RRB_AGAIN and the others are the constructors of `Code`.
--
-- Fuel. The loops of the builders of strings and of a reply have two states and take two rounds. The
-- loop of an array takes one round for its length and two for each element, and each consumes a byte
-- or ends the loop, so the size of the input and 2 are enough. Arrays nest no deeper than there are
-- bytes, and each round of the parser takes a reply of more than one byte off the input. The code
-- `stuck` stands for fuel that ran out; the theorems on encodings state which code is returned, and it is
-- another one. The builders of a dump take two rounds for a string (three for a compressed one), and those
-- of sequences and of the body take a byte in each round, so that the size of the input and 2 are enough.
-- A sequence with no element is the exception: there the loop of the code does not end.
--
-- Not modelled. `malloc` and the pools are taken to succeed: a block from `malloc` is an argument. The
-- parsers are modelled without addresses: the bytes of a block from a pool are those of a function
-- `fresh`, and the stack of builders is a list. That stack moves when it holds more than 16 builders,
-- and pointers to builders dangle then; theorems bound the nesting. For the parser of dumps, printing
-- integers, the decompression and the callback are the fields of `Calls`, and the callback's state is the
-- list of objects that it has seen. A file is its bytes, and opens. An `int` that counts elements is not
-- negative. The bytes of a pool into which a string of a dump is copied are not modelled: they are there
-- for lengths below 2^32 - 1. The Spec modules say what a dump means; where the code reads it in another
-- way (8-bit words, expire times), `read_of` and `seen_of` say how. Left
-- out: copies of chains, which share buffers, all C++ code (proxies, connections, the KJ
-- library), and the vendored snprintf, memory copy, queue, LZF and CRC64.
pub mod Prelude
pub mod Strstr
pub mod PowerOfTwo
pub mod BipBuf
pub mod NxBuf
pub mod NxArray
pub mod Reply
pub mod Rdb
pub mod Tests
