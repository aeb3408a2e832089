-- ===== src/NxBuf/Chain.antt =====
-- src/base/nx_buf.c: chains of buffers. A chain is the list of its buffers; chains that
-- `nx_chain_update_chains` is given share no link.
use kj_cpp_redis.NxBuf.{Buf, buf_size, text}
use kj_cpp_redis.Prelude.{
  ℕ, ◌+◌, ◌-◌, List, [], ◌∷◌, ◌++◌, zero, suc, ◌*◌, ◌%◌, ◌^◌, take, drop, leb, ◌==◌, if◌then◌else◌,
}

-- The bytes that the buffers of a chain hold.
abbrev pub chain_text : List Buf → List ℕ
chain_text [] = []
chain_text (b ∷ bs) = text b ++ chain_text bs

-- The loop of `nx_create_chain_of_bufs`, over the bytes from `p` on.
unfoldable pub link_bufs : ℕ → ℕ → List ℕ → List Buf
link_bufs zero size p = []
link_bufs (suc num) size p =
    record { memory = take size p; pos = 0; last = 0 } ∷ link_bufs num size (drop size p)

-- `nx_create_chain_of_bufs`: `num` buffers of `size` bytes in one block.
unfoldable pub create_chain_of_bufs : (ℕ → List ℕ) → ℕ → ℕ → List Buf
create_chain_of_bufs fresh num size = link_bufs num size (fresh (num * size % 2 ^ 64))

-- `nx_chain_get_free_buf`: the buffer first, and the free chain that is left. A new buffer has no
-- memory.
unfoldable pub get_free_buf : List Buf → Buf × List Buf
get_free_buf [] = (record { memory = []; pos = 0; last = 0 }, [])
get_free_buf (b ∷ free) = (b, free)

-- `nx_chain_update_sent`: the buffers that it passes, and the chain that it returns.
unfoldable pub update_sent : List Buf → ℕ → List Buf × List Buf
update_sent [] sent = ([], [])
update_sent (b ∷ bs) sent =
    let (passed, rest) = update_sent bs (sent - buf_size b) in
    if sent == 0
    then ([], b ∷ bs)
    else (if leb (buf_size b) sent
        then (record b { pos = b.last } ∷ passed, rest)
        else ([], record b { pos = b.pos + sent } ∷ bs))

-- `cl->buf->pos = cl->buf->start; cl->buf->last = cl->buf->start`
abbrev pub rewound : Buf → Buf
rewound b = record b { pos = 0; last = 0 }

-- The second loop of `nx_chain_update_chains`: the free chain first, then the busy one.
unfoldable pub free_front : List Buf → List Buf → List Buf × List Buf
free_front free [] = (free, [])
free_front free (b ∷ busy) =
    let rest = free_front (rewound b ∷ free) busy in
    if buf_size b == 0 then rest else (free, b ∷ busy)

-- `nx_chain_update_chains`: the chains `free`, `busy` and `out`.
unfoldable pub update_chains : List Buf → List Buf → List Buf → List Buf × List Buf × List Buf
update_chains free busy out =
    let (free', busy') = free_front free (busy ++ out) in (free', busy', [])
