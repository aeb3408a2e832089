-- ===== src/Rdb/ZipList/RoundTrip.antt =====
-- Whole ziplists as redis writes them, loaded again.
use kj_cpp_redis.Prelude.Int.{ℤ}
use kj_cpp_redis.Rdb.ZipList.{
  zip_end, zip_raw_entry_length, zip_entry, ziplist_next, ziplist_get, list_loop,
  load_ziplist_list_or_set, hash_loop, load_ziplist_hash_or_zset,
}
use kj_cpp_redis.Rdb.ZipList.Entry.{
  Item, FitItem, item_text, entry_bytes, ziplist_get-entry, length-entry_bytes, first-entry_bytes,
}
use kj_cpp_redis.Prelude.{
  ℕ, zero, suc, ◌<◌, ◌≤◌, ◌≡◌, ◌≢◌, ◌∙◌, ap, refl, sym, some, List, [], ◌∷◌, ◌++◌, drop, get_or,
  length, length-append, drop-prefix, count_eq, arith,
}

abbrev pub AllFit : List Item → Type 0
AllFit [] = Unit {0}
AllFit (it ∷ its) = FitItem it × AllFit its

-- The entries behind one of `prev` bytes, each with the length of the one before it, and the end.
abbrev pub entries_bytes : ℕ → List Item → List ℕ
entries_bytes prev [] = zip_end ∷ []
entries_bytes prev (it ∷ its) =
    entry_bytes prev it ++ entries_bytes (length (entry_bytes prev it)) its

abbrev pub texts : (ℤ → List ℕ) → List Item → List (List ℕ)
texts print_int [] = []
texts print_int (it ∷ its) = item_text print_int it ∷ texts print_int its

module _ (print_int : ℤ → List ℕ) where
  list_loop-step :
      (fuel : ℕ) (p : List ℕ) (n : ℕ) (s : List ℕ) (ss : List (List ℕ))
      → 0 < length p
      → get_or p 0 0 ≢ zip_end
      → ziplist_get print_int p ≡ some (n, s)
      → list_loop print_int fuel (drop n p) ≡ some ss
      → list_loop print_int (suc fuel) p ≡ some (s ∷ ss)
  unfolding list_loop
  list_loop-step fuel [] n s ss pos ne get rest = absurd (omega arith)
  list_loop-step fuel (b ∷ p) n s ss pos ne get rest = ground (arith, get, rest)

  -- Fuel for as many rounds as there are entries, and the one that sees the end.
  list_loop-entries :
      (fuel prev : ℕ) (its : List Item)
      → length its < fuel
      → AllFit its
      → list_loop print_int fuel (entries_bytes prev its) ≡ some (texts print_int its)
  list_loop-entries zero prev its lt h = absurd (omega arith)
  list_loop-entries (suc fuel) prev [] lt h = unfold list_loop in refl
  list_loop-entries (suc fuel) prev (it ∷ its) lt h =
      let e = entry_bytes prev it in
      let rest = entries_bytes (length e) its in
      list_loop-step fuel (e ++ rest) (length e) (item_text print_int it) (texts print_int its)
        (omega (arith, length-append e rest, length-entry_bytes prev it))
        (first-entry_bytes prev it rest) (ziplist_get-entry print_int prev it rest (h.0))
        (ap (list_loop print_int fuel) (drop-prefix e rest)
          ∙ list_loop-entries fuel (length e) its (omega arith) (h.1))

  length-entries_bytes : (prev : ℕ) (its : List Item) → length its < length (entries_bytes prev its)
  length-entries_bytes prev [] = omega arith
  length-entries_bytes prev (it ∷ its) =
      let e = entry_bytes prev it in
      omega (
        arith,
        length-append e (entries_bytes (length e) its),
        length-entry_bytes prev it,
        length-entries_bytes (length e) its,
      )

  header_dropped : (header : List ℕ) (t : List ℕ) → length header ≡ 10 → drop 10 (header ++ t) ≡ t
  header_dropped header t h =
      count_eq (λ k. drop k (header ++ t)) 10 (length header) (sym h) ∙ drop-prefix header t

  -- A ziplist with a header of ten bytes and entries that fit (strings of less than 2^31 bytes,
  -- integers of 1, 2, 3, 4 or 8 bytes, immediate numbers) is loaded as the list of the texts of its
  -- entries, in order.
  pub load_ziplist_list_or_set_lem :
      (header : List ℕ) (its : List Item)
      → length header ≡ 10
      → AllFit its
      → load_ziplist_list_or_set print_int (header ++ entries_bytes 0 its)
        ≡ some (texts print_int its)
  unfolding load_ziplist_list_or_set
  load_ziplist_list_or_set_lem header its ten h =
      ap (list_loop print_int (length (header ++ entries_bytes 0 its)))
        (header_dropped header (entries_bytes 0 its) ten)
      ∙ list_loop-entries (length (header ++ entries_bytes 0 its)) 0 its
          (omega (arith, length-append header (entries_bytes 0 its), length-entries_bytes 0 its)) h

-- The entries of pairs, and the pairs of their texts.
abbrev pub flat : List (Item × Item) → List Item
flat [] = []
flat ((k, v) ∷ kvs) = k ∷ v ∷ flat kvs

abbrev pub pair_texts : (ℤ → List ℕ) → List (Item × Item) → List (List ℕ × List ℕ)
pair_texts print_int [] = []
pair_texts print_int ((k, v) ∷ kvs) =
    (item_text print_int k, item_text print_int v) ∷ pair_texts print_int kvs

module _ (print_int : ℤ → List ℕ) where
  hash_loop-step :
      (fuel : ℕ) (p q : List ℕ) (n m : ℕ) (k v : List ℕ) (kvs : List (List ℕ × List ℕ))
      → 0 < length p
      → get_or p 0 0 ≢ zip_end
      → ziplist_get print_int p ≡ some (n, k)
      → drop n p ≡ q
      → ziplist_get print_int q ≡ some (m, v)
      → hash_loop print_int fuel (drop m q) ≡ some kvs
      → hash_loop print_int (suc fuel) p ≡ some ((k, v) ∷ kvs)
  unfolding hash_loop
  hash_loop-step fuel [] q n m k v kvs pos ne key_read behind val_read rest = absurd (omega arith)
  hash_loop-step fuel (b ∷ p) q n m k v kvs pos ne key_read behind val_read rest =
      ground (arith, key_read, behind, val_read, rest)

  hash_loop-entries :
      (fuel prev : ℕ) (kvs : List (Item × Item))
      → length kvs < fuel
      → AllFit (flat kvs)
      → hash_loop print_int fuel (entries_bytes prev (flat kvs)) ≡ some (pair_texts print_int kvs)
  hash_loop-entries zero prev kvs lt h = absurd (omega arith)
  hash_loop-entries (suc fuel) prev [] lt h = unfold hash_loop in refl
  hash_loop-entries (suc fuel) prev ((k, v) ∷ kvs) lt h =
      let e = entry_bytes prev k in
      let f = entry_bytes (length e) v in
      let rest = entries_bytes (length f) (flat kvs) in
      hash_loop-step fuel (e ++ (f ++ rest)) (f ++ rest) (length e) (length f)
        (item_text print_int k) (item_text print_int v) (pair_texts print_int kvs)
        (omega (arith, length-append e (f ++ rest), length-entry_bytes prev k))
        (first-entry_bytes prev k (f ++ rest))
        (ziplist_get-entry print_int prev k (f ++ rest) (h.0)) (drop-prefix e (f ++ rest))
        (ziplist_get-entry print_int (length e) v rest (h.1.0))
        (ap (hash_loop print_int fuel) (drop-prefix f rest)
          ∙ hash_loop-entries fuel (length f) kvs (omega arith) (h.1.1))

  length-flat : (kvs : List (Item × Item)) → length kvs ≤ length (flat kvs)
  length-flat [] = omega arith
  length-flat (kv ∷ kvs) = omega (arith, length-flat kvs)

  -- A ziplist with a header of ten bytes whose entries are keys and values in turn, all of which
  -- fit, is loaded as the pairs of their texts, in order.
  pub load_ziplist_hash_or_zset_lem :
      (header : List ℕ) (kvs : List (Item × Item))
      → length header ≡ 10
      → AllFit (flat kvs)
      → load_ziplist_hash_or_zset print_int (header ++ entries_bytes 0 (flat kvs))
        ≡ some (pair_texts print_int kvs)
  unfolding load_ziplist_hash_or_zset
  load_ziplist_hash_or_zset_lem header kvs ten h =
      let zl = entries_bytes 0 (flat kvs) in
      ap (hash_loop print_int (length (header ++ zl))) (header_dropped print_int header zl ten)
      ∙ hash_loop-entries (length (header ++ zl)) 0 kvs
          (omega (
            arith,
            length-append header zl,
            length-entries_bytes print_int 0 (flat kvs),
            length-flat kvs,
          ))
          h

raw_length :
    (print_int : ℤ → List ℕ) (p : List ℕ) (n : ℕ) (s : List ℕ)
    → ziplist_get print_int p ≡ some (n, s)
    → zip_raw_entry_length p ≡ n
unfolding ziplist_get zip_raw_entry_length zip_entry
raw_length print_int p n s e = ground (arith, e)

-- Whatever the memory holds: where ziplistGet returns n for an entry that is not the end, and what
-- is n bytes further is not the end, ziplistNext goes n bytes further too, and n is
-- zipRawEntryLength.
pub ziplist_next-ziplist_get :
    (print_int : ℤ → List ℕ) (p : List ℕ) (n : ℕ) (s : List ℕ)
    → ziplist_get print_int p ≡ some (n, s)
    → get_or p 0 0 ≢ zip_end
    → get_or (drop n p) 0 0 ≢ zip_end
    → (ziplist_next p ≡ some (drop n p)) × (zip_raw_entry_length p ≡ n)
unfolding ziplist_next
ziplist_next-ziplist_get print_int p n s e here next =
    let raw = raw_length print_int p n s e in (rw raw (ground (arith, here, next)), raw)
