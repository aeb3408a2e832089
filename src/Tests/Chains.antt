-- ===== src/Tests/Chains.antt =====
-- Tests of NxBuf/Chain on concrete chains, and the theorems of NxBuf at them.
use kj_cpp_redis.NxBuf.{Buf}
use kj_cpp_redis.NxBuf.Chain.{
  chain_text, update_sent, update_chains, create_chain_of_bufs, get_free_buf, free_front,
}
use kj_cpp_redis.NxBuf.Sent.{AreValid, update_sent-drop}
use kj_cpp_redis.NxBuf.Chains.{AreFree, HasBytes, create_chain_of_bufs-AreFree, update_chains-queue}
use kj_cpp_redis.Prelude.{ℕ, ◌+◌, ◌≡◌, refl, List, [], ◌∷◌, ◌++◌, length, drop, arith}

abbrev two_bytes : Buf
two_bytes = record { memory = 1 ∷ 2 ∷ 3 ∷ 0 ∷ []; pos = 1; last = 3 }

abbrev three_bytes : Buf
three_bytes = record { memory = 4 ∷ 5 ∷ 6 ∷ []; pos = 0; last = 3 }

abbrev some_chain : List Buf
some_chain = two_bytes ∷ three_bytes ∷ []

some_chain-AreValid : AreValid some_chain
some_chain-AreValid =
    AreValid.link
      (record { pos_last = omega arith; last_end = omega arith; last_word = omega arith })
      (AreValid.link
        (record { pos_last = omega arith; last_end = omega arith; last_word = omega arith })
        AreValid.nothing)

update_sent-drop_example :
    let (passed, rest) = update_sent some_chain 4 in
    (chain_text rest ≡ drop 4 (chain_text some_chain))
    × (chain_text passed ≡ [])
    × (length passed + length rest ≡ length some_chain)
update_sent-drop_example = update_sent-drop some_chain 4 some_chain-AreValid

last_byte_left : chain_text (update_sent some_chain 4).1 ≡ 6 ∷ []
unfolding update_sent
last_byte_left = refl

abbrev no_bytes : ℕ → List ℕ
no_bytes n = []

abbrev free_chain : List Buf
free_chain = create_chain_of_bufs no_bytes 2 0

-- A chain whose first buffer has been sent.
abbrev busy_chain : List Buf
busy_chain = record two_bytes { pos = 3 } ∷ three_bytes ∷ []

update_chains-queue_example :
    let (free', busy', out') = update_chains free_chain busy_chain some_chain in
    (chain_text busy' ≡ chain_text busy_chain ++ chain_text some_chain)
    × HasBytes busy'
    × AreFree free'
    × (length free' + length busy' ≡ length free_chain + (length busy_chain + length some_chain))
    × (out' ≡ [])
update_chains-queue_example =
    update_chains-queue free_chain busy_chain some_chain (create_chain_of_bufs-AreFree no_bytes 2 0)

-- The buffer that was sent is used next.
first_used_again :
    (get_free_buf (update_chains [] busy_chain []).0).0 ≡ record two_bytes { pos = 0; last = 0 }
unfolding get_free_buf update_chains free_front
first_used_again = refl
