-- ===== src/Rdb/ZipMap/RoundTrip.antt =====
-- A map as a dump holds it, loaded again.
use kj_cpp_redis.Rdb.Endian.{le_word, le_bytes}
use kj_cpp_redis.Rdb.ZipMap.{
  zm_end, zm_biglen, entry_len_size, entry_strlen, entry_len, load_loop, load_zipmap,
}
use kj_cpp_redis.Prelude.{
  ℕ, suc, ◌+◌, ◌-◌, ◌%◌, ◌^◌, ◌<◌, ◌≡◌, ◌≢◌, ◌∙◌, ap, ap₂, sym, some, List, [], ◌∷◌, ◌++◌, ltb,
  if◌then◌else◌, take, drop, get_or, window, length, length-append, take-prefix, drop-prefix,
  drop-drop, window_eq, count_eq, arith,
}

abbrev pub len_bytes : ℕ → List ℕ
len_bytes n = if ltb n zm_biglen then (n ∷ []) else (zm_biglen ∷ le_bytes 4 n)

-- An entry of the map: a key, and a value with no free bytes behind it.
abbrev pub entry_bytes : List ℕ → List ℕ → List ℕ → List ℕ
entry_bytes key val rest =
    len_bytes (length key) ++ (key ++ (len_bytes (length val) ++ (0 ∷ (val ++ rest))))

abbrev pub entries_bytes : List (List ℕ × List ℕ) → List ℕ
entries_bytes [] = zm_end ∷ []
entries_bytes ((key, val) ∷ kvs) = entry_bytes key val (entries_bytes kvs)

abbrev pub zipmap_bytes : List (List ℕ × List ℕ) → List ℕ
zipmap_bytes kvs = length kvs % 256 ∷ entries_bytes kvs

abbrev pub AllFit : List (List ℕ × List ℕ) → Type 0
AllFit [] = Unit {0}
AllFit ((key, val) ∷ kvs) = (length key < 2 ^ 31) × (length val < 2 ^ 31) × AllFit kvs

-- The length in front of a string is read back.
le_word_taken : (n : ℕ) (t : List ℕ) → n < 2 ^ 31 → le_word (take 4 (le_bytes 4 n ++ t)) ≡ n
le_word_taken n t h = omega arith

len_bytes-read :
    (n : ℕ) (t : List ℕ)
    → n < 2 ^ 31
    → (entry_len_size (len_bytes n ++ t) ≡ length (len_bytes n))
      × (entry_strlen (len_bytes n ++ t) ≡ n)
      × (entry_len (len_bytes n ++ t) ≡ length (len_bytes n) + n)
unfolding entry_len_size entry_strlen entry_len
len_bytes-read n t h = ground (arith, le_word_taken n t h)

len_bytes-first :
    (n : ℕ) (t : List ℕ)
    → n < 2 ^ 31
    → (get_or (len_bytes n ++ t) 0 0 ≢ 255)
      × (0 < length (len_bytes n ++ t))
      × (0 < length (len_bytes n))
len_bytes-first n t h = ground arith

drop_past : (a t : List ℕ) (k : ℕ) → drop (length a + k) (a ++ t) ≡ drop k t
drop_past a t k = sym (drop-drop k (length a) (a ++ t)) ∙ ap (drop k) (drop-prefix a t)

abbrev zm1 : List ℕ → List ℕ
zm1 zm = drop (entry_len zm) zm

abbrev zm2 : List ℕ → List ℕ
zm2 zm = drop (entry_len (zm1 zm) + 1) (zm1 zm)

abbrev key_of : List ℕ → List ℕ
key_of zm = window zm (entry_len_size zm) (entry_strlen zm)

abbrev val_of : List ℕ → List ℕ
val_of zm = window zm (entry_len_size zm + 1) (entry_strlen zm)

load_loop-entry :
    (fuel : ℕ) (zm : List ℕ) (kvs : List (List ℕ × List ℕ))
    → get_or zm 0 0 ≢ 255
    → 0 < length zm
    → load_loop fuel (zm2 zm) ≡ some kvs
    → load_loop (suc fuel) zm ≡ some ((key_of zm, val_of (zm1 zm)) ∷ kvs)
unfolding load_loop
load_loop-entry fuel [] kvs ne pos e = absurd (omega arith)
load_loop-entry fuel (x ∷ zm) kvs ne pos e = ground arith

-- A string in front of the memory, behind its length.
key_part :
    (s t : List ℕ)
    → length s < 2 ^ 31
    → let zm = len_bytes (length s) ++ (s ++ t) in (key_of zm ≡ s) × (zm1 zm ≡ t)
key_part s t h = (
  window_eq zm (entry_len_size zm) (length b) (entry_strlen zm) (length s) (read.0) (read.1)
      ∙ ap (take (length s)) (drop-prefix b (s ++ t))
      ∙ take-prefix s t,
  count_eq (λ k. drop k zm) (entry_len zm) (length b + length s) (read.2)
      ∙ drop_past b (s ++ t) (length s)
      ∙ drop-prefix s t,
)
  where
    b : List ℕ
    b = len_bytes (length s)

    zm : List ℕ
    zm = b ++ (s ++ t)

    read :
        (entry_len_size (len_bytes (length s) ++ (s ++ t)) ≡ length (len_bytes (length s)))
        × (entry_strlen (len_bytes (length s) ++ (s ++ t)) ≡ length s)
        × (entry_len (len_bytes (length s) ++ (s ++ t)) ≡ length (len_bytes (length s)) + length s)
    read = len_bytes-read (length s) (s ++ t) h

val_part :
    (s t : List ℕ)
    → length s < 2 ^ 31
    → let zm = len_bytes (length s) ++ (0 ∷ (s ++ t)) in
      (val_of zm ≡ s) × (drop (entry_len zm + 1) zm ≡ t)
val_part s t h = (
  window_eq zm (entry_len_size zm + 1) (length b + 1) (entry_strlen zm) (length s)
        (omega (arith, read.0)) (read.1)
      ∙ ap (take (length s)) (drop_past b (0 ∷ (s ++ t)) 1)
      ∙ take-prefix s t,
  count_eq (λ k. drop k zm) (entry_len zm + 1) (length b + suc (length s)) (omega (arith, read.2))
      ∙ drop_past b (0 ∷ (s ++ t)) (suc (length s))
      ∙ drop-prefix s t,
)
  where
    b : List ℕ
    b = len_bytes (length s)

    zm : List ℕ
    zm = b ++ (0 ∷ (s ++ t))

    read :
        (entry_len_size (len_bytes (length s) ++ (0 ∷ (s ++ t))) ≡ length (len_bytes (length s)))
        × (entry_strlen (len_bytes (length s) ++ (0 ∷ (s ++ t))) ≡ length s)
        × (entry_len (len_bytes (length s) ++ (0 ∷ (s ++ t)))
            ≡ length (len_bytes (length s)) + length s)
    read = len_bytes-read (length s) (0 ∷ (s ++ t)) h

load_entries :
    (kvs : List (List ℕ × List ℕ)) (x : ℕ)
    → AllFit kvs
    → load_loop (suc (length kvs + x)) (entries_bytes kvs) ≡ some kvs
load_entries [] x h = unfold load_loop in ground arith
load_entries ((key, val) ∷ kvs) x h =
    let rest : List ℕ = entries_bytes kvs in
    let tail : List ℕ = len_bytes (length val) ++ (0 ∷ (val ++ rest)) in
    let zm : List ℕ = entry_bytes key val rest in
    let (key_read, after_key) = key_part key tail (h.0) in
    let (val_read, after_val) = val_part val rest (h.1) in
    let first = len_bytes-first (length key) (key ++ tail) (h.0) in
    count_eq (λ f. load_loop f zm) (suc (suc (length kvs) + x)) (suc (suc (length kvs + x)))
      (omega arith)
    ∙ load_loop-entry (suc (length kvs + x)) zm kvs (first.0) (first.1) (
        ap (λ t. load_loop (suc (length kvs + x)) (drop (entry_len t + 1) t)) after_key
        ∙ ap (load_loop (suc (length kvs + x))) after_val
        ∙ load_entries kvs x (h.2))
    ∙ ap₂ (λ k v. some ((k, v) ∷ kvs)) key_read (ap val_of after_key ∙ val_read)

length-entries :
    (kvs : List (List ℕ × List ℕ)) → AllFit kvs → length kvs < length (entries_bytes kvs)
length-entries [] h = omega arith
length-entries ((key, val) ∷ kvs) h =
    let rest : List ℕ = entries_bytes kvs in
    let tail : List ℕ = len_bytes (length val) ++ (0 ∷ (val ++ rest)) in
    omega (
      arith,
      length-entries kvs (h.2),
      length-append (len_bytes (length key)) (key ++ tail),
      length-append key tail,
      length-append (len_bytes (length val)) (0 ∷ (val ++ rest)),
      length-append val rest,
    )

-- A map written as a zip map, keys and values of less than 2^31 bytes and no free bytes behind the
-- values, is loaded as it was, in order.
pub load_zipmap_lem :
    (kvs : List (List ℕ × List ℕ)) → AllFit kvs → load_zipmap (zipmap_bytes kvs) ≡ some kvs
unfolding load_zipmap
load_zipmap_lem kvs h =
    let more : length kvs < length (entries_bytes kvs) = length-entries kvs h in
    count_eq (λ f. load_loop f (entries_bytes kvs)) (suc (length (entries_bytes kvs)))
      (suc (length kvs + (length (entries_bytes kvs) - length kvs))) (omega arith)
    ∙ load_entries kvs (length (entries_bytes kvs) - length kvs) h
