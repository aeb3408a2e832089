-- ===== src/BipBuf/Queue.antt =====
-- The buffer as its clients use it, against a bounded queue of bytes.
use kj_cpp_redis.BipBuf.Content.{decommit-block}
use kj_cpp_redis.BipBuf.Feed.{feed, feed-Fed}
use kj_cpp_redis.BipBuf.Inv.{IsValid, create-IsValid, reset-IsValid, decommit-IsValid}
use kj_cpp_redis.BipBuf.{
  BipBuf, create, reset, get_reservation_size, get_contiguous_block, decommit,
}
use kj_cpp_redis.Prelude.{
  ℕ, ◌-◌, ◌*◌, ◌^◌, ◌<◌, ◌≡◌, ◌∙◌, ap, ap₂, refl, List, [], ◌∷◌, arith, length, take, drop, min,
  ◌++◌,
}

-- What a client does: put input in, take bytes out, throw everything away.
pub data Operation : Type 0 where
  put_in : List ℕ → Operation
  take_out : ℕ → Operation
  clear : Operation

-- A bounded queue: what it holds after an operation, and the bytes that the operation gave out.
abbrev pub queue_step : ℕ → Operation → List ℕ → List ℕ × List ℕ
queue_step capacity (put_in s) q = (q ++ take (min (capacity - length q) (length s)) s, [])
queue_step capacity (take_out n) q = (drop n q, take n q)
queue_step capacity clear q = ([], [])

abbrev pub queue_run : ℕ → List Operation → List ℕ → List ℕ × List ℕ
queue_run capacity [] q = (q, [])
queue_run capacity (o ∷ os) q =
    let (q', given) = queue_step capacity o q in
    let (q'', later) = queue_run capacity os q' in (q'', given ++ later)

-- The buffer: the client reads at `bip_buf_get_contiguous_block`, then decommits.
unfoldable pub buffer_step : Operation → BipBuf → BipBuf × List ℕ
buffer_step (put_in s) bb = ((feed bb s).0, [])
buffer_step (take_out n) bb = ((decommit bb n).0, take n (get_contiguous_block bb))
buffer_step clear bb = (reset bb, [])

unfoldable pub buffer_run : List Operation → BipBuf → BipBuf × List ℕ
buffer_run [] bb = (bb, [])
buffer_run (o ∷ os) bb =
    let (bb', given) = buffer_step o bb in
    let (bb'', later) = buffer_run os bb' in (bb'', given ++ later)

-- Between two operations the buffer is valid, no reservation is open, and it holds the queue.
pub record Holds (capacity : ℕ) (bb : BipBuf) (q : List ℕ) : Type 0 where
  pub valid : IsValid bb
  pub closed : get_reservation_size bb ≡ 0
  pub bound : bb.available_capacity ≡ capacity
  pub bytes : get_contiguous_block bb ≡ q

decommit-kept :
    (bb : BipBuf) (n : ℕ)
    → (get_reservation_size (decommit bb n).0 ≡ get_reservation_size bb)
      × ((decommit bb n).0.available_capacity ≡ bb.available_capacity)
unfolding decommit get_reservation_size
decommit-kept bb n = (refl, refl)

pub reset-empty :
    (bb : BipBuf)
    → (get_reservation_size (reset bb) ≡ 0)
      × ((reset bb).available_capacity ≡ bb.available_capacity)
      × (get_contiguous_block (reset bb) ≡ [])
unfolding reset get_reservation_size get_contiguous_block
reset-empty bb = ground arith

buffer_step-Holds :
    (capacity : ℕ) (o : Operation) (bb : BipBuf) (q : List ℕ)
    → Holds capacity bb q
    → Holds capacity (buffer_step o bb).0 (queue_step capacity o q).0
      × ((buffer_step o bb).1 ≡ (queue_step capacity o q).1)
unfolding buffer_step
buffer_step-Holds capacity (put_in s) bb q h =
    let fed = feed-Fed s h.valid h.closed in
    (
      record {
        valid = fed.valid;
        closed = fed.closed;
        bound = fed.capacity ∙ h.bound;
        bytes =
            fed.appended
            ∙ ap₂ (λ t k. t ++ take k s) h.bytes
                (fed.count ∙ ap₂ (λ k t. min (k - length t) (length s)) h.bound h.bytes);
      },
      refl,
    )
buffer_step-Holds capacity (take_out n) bb q h = (
  record {
    valid = decommit-IsValid n h.valid;
    closed = (decommit-kept bb n).0 ∙ h.closed;
    bound = (decommit-kept bb n).1 ∙ h.bound;
    bytes = (decommit-block n h.valid).0 ∙ ap (drop n) h.bytes;
  },
  ap (take n) h.bytes,
)
buffer_step-Holds capacity clear bb q h = (
  record {
    valid = reset-IsValid h.valid;
    closed = (reset-empty bb).0;
    bound = (reset-empty bb).1 ∙ h.bound;
    bytes = (reset-empty bb).2;
  },
  refl,
)

buffer_run-Holds :
    (capacity : ℕ) (os : List Operation) (bb : BipBuf) (q : List ℕ)
    → Holds capacity bb q
    → Holds capacity (buffer_run os bb).0 (queue_run capacity os q).0
      × ((buffer_run os bb).1 ≡ (queue_run capacity os q).1)
unfolding buffer_run
buffer_run-Holds capacity [] bb q h = (h, refl)
buffer_run-Holds capacity (o ∷ os) bb q h =
    let (h1, e1) = buffer_step-Holds capacity o bb q h in
    let (h2, e2) = buffer_run-Holds capacity os _ _ h1 in (h2, ap₂ ◌++◌ e1 e2)

create-Holds :
    (capacity : ℕ) (block : List ℕ)
    → capacity < 2 ^ 62
    → length block ≡ 2 * capacity
    → Holds capacity (create capacity block) []
unfolding create reset get_reservation_size get_contiguous_block
create-Holds capacity block h e = record {
  valid = (create-IsValid capacity block h e).0;
  closed = refl;
  bound = refl;
  bytes = refl;
}

-- A new buffer whose block is twice its capacity, the capacity below 2^62, behaves under any
-- sequence of feeding, taking and clearing as a bounded queue: it gives out the same bytes, holds
-- the same bytes at the end, is valid and has no reservation open.
pub buffer_run_refines :
    (capacity : ℕ) (block : List ℕ) (os : List Operation)
    → capacity < 2 ^ 62
    → length block ≡ 2 * capacity
    → Holds capacity (buffer_run os (create capacity block)).0 (queue_run capacity os []).0
      × ((buffer_run os (create capacity block)).1 ≡ (queue_run capacity os []).1)
buffer_run_refines capacity block os h e =
    buffer_run-Holds capacity os (create capacity block) [] (create-Holds capacity block h e)
