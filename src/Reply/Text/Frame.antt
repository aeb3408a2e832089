-- ===== src/Reply/Text/Frame.antt =====
-- The end of a bulk string: the two bytes behind the payload must be "\r\n".
use kj_cpp_redis.BipBuf.Inv.{IsValid}
use kj_cpp_redis.BipBuf.{get_contiguous_block}
use kj_cpp_redis.NxBuf.{Buf, text}
use kj_cpp_redis.Reply.Text.Bulk.{Gathered, appended, appended-Gathered, plain_complete}
use kj_cpp_redis.Reply.Text.{build_bulk_string_plain, finish_bulk_string}
use kj_cpp_redis.Reply.Types.{over, invalid_bulk_string, Context, Node}
use kj_cpp_redis.Reply.Builder.{consume, builder}
use kj_cpp_redis.Prelude.{
  ℕ, ◌+◌, ◌-◌, ◌^◌, ◌≤◌, ◌<◌, ◌≡◌, ◌≢◌, ◌⊎◌, inl, inr, ◌∙◌, ap, sym, true, List, [], ◌∷◌, ◌++◌,
  arith, length, take, get_or, window, window_eq, sub_size, length-append, take-append, take-all,
  append_assoc, subst, get_or-take, get_or-suffix, take-take, take-prefix, count_eq, min,
  length-take,
}

module _ {n : ℕ} {got : List ℕ} {b : Buf} (g : Gathered n got b) (full : length got ≡ n + 2) where
  -- What the check reads from the memory is what was gathered.
  gathered_at : (k : ℕ) → k < n + 2 → get_or b.memory k 0 ≡ get_or got k 0
  gathered_at k h =
      sym (get_or-take (length got) k b.memory 0 (omega arith)) ∙ ap (λ t. get_or t k 0) g.holds

payload_front :
    (payload : List ℕ) (b : Buf) (n : ℕ)
    → length payload ≡ n
    → window b.memory 0 (length (payload ++ (13 ∷ 10 ∷ []))) ≡ payload ++ (13 ∷ 10 ∷ [])
    → window b.memory 0 n ≡ payload
payload_front payload b n len holds =
    let full : ℕ = length (payload ++ (13 ∷ 10 ∷ [])) in
    count_eq (λ k. take k b.memory) n (min n full)
      (omega (arith, length-append payload (13 ∷ 10 ∷ [])))
    ∙ sym (take-take n full b.memory)
    ∙ ap (take n) holds
    ∙ count_eq (λ k. take k (payload ++ (13 ∷ 10 ∷ []))) n (length payload) (sym len)
    ∙ take-prefix payload (13 ∷ 10 ∷ [])

-- A string whose end is "\r\n" is complete: its text is the payload.
pub finish_bulk_string-over :
    {n : ℕ} {b : Buf} (payload : List ℕ) (i : ℕ) (c : Context) (r : Node) (b' : Buf) (size : ℕ)
    → n < 2 ^ 31
    → length payload ≡ n
    → r.vall ≡ b' ∷ []
    → (builder c i).store_len ≡ n
    → Gathered n (payload ++ (13 ∷ 10 ∷ [])) b
    → let done = record b { last = n } in
      (finish_bulk_string i c r b size true
        ≡ (over, consume c size, record r { vall = done ∷ []; bytes = n }))
      × (text done ≡ payload)
unfolding finish_bulk_string
finish_bulk_string-over {n} {b} payload i c r b' size small len one expected g =
    let full : length (payload ++ (13 ∷ 10 ∷ [])) ≡ n + 2 =
      length-append payload (13 ∷ 10 ∷ []) ∙ omega arith in
    (
      ground (
        arith,
        g,
        full,
        gathered_at g full n,
        gathered_at g full (n + 1),
        get_or-suffix payload (13 ∷ 10 ∷ []) 0 0,
        get_or-suffix payload (13 ∷ 10 ∷ []) 1 0,
      ),
      window_eq b.memory b.pos 0 (sub_size n b.pos) n g.at_start (omega (arith, g))
          ∙ payload_front payload b n len g.holds,
    )

-- A string with another end is refused.
finish_bulk_string-invalid :
    {n : ℕ} {b : Buf} (got : List ℕ) (i : ℕ) (c : Context) (r : Node) (b' : Buf) (size : ℕ)
    → n < 2 ^ 31
    → length got ≡ n + 2
    → r.vall ≡ b' ∷ []
    → Gathered n got b
    → (get_or got n 0 ≢ 13) ⊎ (get_or got (n + 1) 0 ≢ 10)
    → finish_bulk_string i c r b size true ≡ (invalid_bulk_string, c, record r { vall = b ∷ [] })
unfolding finish_bulk_string
finish_bulk_string-invalid {n} {b} got i c r b' size small full one g bad =
    ground (arith, g, gathered_at g full n, gathered_at g full (n + 1))

-- The missing part of the string and of the two bytes behind it, of input that holds them.
missing_part :
    (n x y : ℕ) (got s payload rest : List ℕ)
    → length got < n + 2
    → length payload ≡ n
    → got ++ s ≡ payload ++ (x ∷ y ∷ rest)
    → got ++ take (n + 2 - length got) s ≡ payload ++ (x ∷ y ∷ [])
missing_part n x y got s payload rest room len e =
    let whole : List ℕ = payload ++ (x ∷ y ∷ []) in
    ap (λ t. t ++ take (n + 2 - length got) s) (sym (take-all (n + 2) got (omega arith)))
    ∙ sym (take-append (n + 2) got s)
    ∙ ap (take (n + 2)) (e ∙ sym (append_assoc payload (x ∷ y ∷ []) rest))
    ∙ count_eq (λ k. take k (whole ++ rest)) (n + 2) (length whole)
        (omega (arith, length-append payload (x ∷ y ∷ [])))
    ∙ take-prefix whole rest

-- The two bytes behind a payload.
ends_of :
    (n x y : ℕ) (payload : List ℕ)
    → length payload ≡ n
    → (get_or (payload ++ (x ∷ y ∷ [])) n 0 ≡ x) × (get_or (payload ++ (x ∷ y ∷ [])) (n + 1) 0 ≡ y)
ends_of n x y payload len =
    let at = λ (k j : ℕ) (h : k ≡ length payload + j).
      count_eq (λ m. get_or (payload ++ (x ∷ y ∷ [])) m 0) k (length payload + j) h
      ∙ get_or-suffix payload (x ∷ y ∷ []) j 0 in
    (at n 0 (omega arith), at (n + 1) 1 (omega arith))

-- When the pieces of a bulk string gathered so far and the input together hold as many bytes as the
-- payload and two more that are not CR LF, the length is below 2^31 and the buffer valid, the call
-- returns RRB_ERROR_INVALID_BULK_STRING and consumes nothing, though the buffer of the string has
-- all of these bytes.
pub plain-invalid :
    {n : ℕ} {got : List ℕ} {b : Buf} (payload rest : List ℕ) (x y i : ℕ) (c : Context) (r : Node)
    → n < 2 ^ 31
    → IsValid c.bb
    → r.vall ≡ b ∷ []
    → (builder c i).store_len ≡ n
    → Gathered n got b
    → length got < n + 2
    → length payload ≡ n
    → got ++ get_contiguous_block c.bb ≡ payload ++ (x ∷ y ∷ rest)
    → (x ≢ 13) ⊎ (y ≢ 10)
    → (whole : Buf) × (build_bulk_string_plain i c r
        ≡ (invalid_bulk_string, c, record r { vall = whole ∷ [] }))
      × Gathered n (payload ++ (x ∷ y ∷ [])) whole
plain-invalid {n} {got} {b} payload rest x y i c r small v one expected g room len e bad =
    let s : List ℕ = get_contiguous_block c.bb in
    let bytes : List ℕ = take (n + 2 - length got) s in
    let enough : n + 2 ≤ length got + length s =
      omega (arith, ap length e, length-append got s, length-append payload (x ∷ y ∷ rest)) in
    let g' : Gathered n (payload ++ (x ∷ y ∷ [])) (appended b bytes) =
      subst (λ t. Gathered n t (appended b bytes))
        (missing_part n x y got s payload rest room len e)
        (appended-Gathered bytes small g (omega (arith, length-take (n + 2 - length got) s))) in
    let (first, second) = ends_of n x y payload len in
    (
      appended b bytes,
      plain_complete i c r small v one expected g room enough
          ∙ finish_bulk_string-invalid (payload ++ (x ∷ y ∷ [])) i c r b (n + 2 - length got) small
              (omega (arith, length-append payload (x ∷ y ∷ []))) one g'
              (elim bad [
                | inl wrong ↦ inl (λ h. wrong (sym first ∙ h))
                | inr wrong ↦ inr (λ h. wrong (sym second ∙ h))
              ]),
      g',
    )

-- When the pieces of a bulk string gathered so far and the input together hold the payload and its
-- CR LF, the length is below 2^31 and the buffer valid, the call returns RRB_OVER with the payload
-- as text, and consumes just the missing bytes.
pub plain-over :
    {n : ℕ} {got : List ℕ} {b : Buf} (payload rest : List ℕ) (i : ℕ) (c : Context) (r : Node)
    → n < 2 ^ 31
    → IsValid c.bb
    → r.vall ≡ b ∷ []
    → (builder c i).store_len ≡ n
    → Gathered n got b
    → length got < n + 2
    → length payload ≡ n
    → got ++ get_contiguous_block c.bb ≡ payload ++ (13 ∷ 10 ∷ rest)
    → (done : Buf) × (build_bulk_string_plain i c r
        ≡ (over, consume c (n + 2 - length got), record r { vall = done ∷ []; bytes = n }))
      × (text done ≡ payload)
plain-over {n} {got} {b} payload rest i c r small v one expected g room len e =
    let s : List ℕ = get_contiguous_block c.bb in
    let bytes : List ℕ = take (n + 2 - length got) s in
    let enough : n + 2 ≤ length got + length s =
      omega (arith, ap length e, length-append got s, length-append payload (13 ∷ 10 ∷ rest)) in
    let g' : Gathered n (payload ++ (13 ∷ 10 ∷ [])) (appended b bytes) =
      subst (λ t. Gathered n t (appended b bytes))
        (missing_part n 13 10 got s payload rest room len e)
        (appended-Gathered bytes small g (omega (arith, length-take (n + 2 - length got) s))) in
    let (finished, holds) =
      finish_bulk_string-over payload i c r b (n + 2 - length got) small len one expected g' in
    (
      record (appended b bytes) { last = n },
      plain_complete i c r small v one expected g room enough ∙ finished,
      holds,
    )
