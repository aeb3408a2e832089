-- ===== src/Rdb/ZipList/Entry.antt =====
-- An entry of a ziplist as redis writes it, and what `ziplistGet` makes of it.
use kj_cpp_redis.Prelude.Int.{ℤ, pos, to_signed}
use kj_cpp_redis.Rdb.Endian.{le_word, le_bytes, length-le_bytes, le_word-le_bytes}
use kj_cpp_redis.Rdb.StoreLen.{store_len_bytes}
use kj_cpp_redis.Rdb.ZipList.{
  zip_end, zip_is_str, zip_entry_encoding, zip_int_size, zip_decode_length, zip_decode_prevlensize,
  zip_decode_prevlen, zip_entry, zip_load_integer, shift_right_8, ziplist_get,
}
use kj_cpp_redis.Prelude.{
  ℕ, ◌+◌, ◌*◌, ◌%◌, ◌^◌, ◌<◌, ◌≤◌, ◌≡◌, ◌≢◌, ◌∙◌, ap, ap₂, refl, sym, true, false, some, List, [],
  ◌∷◌, ◌++◌, append_assoc, ltb, if◌then◌else◌, take, drop, get_or, window, length, length-append,
  take-prefix, drop-prefix, drop-drop, count_eq, arith,
}

-- The widths of integers, with their encodings and bytes.
pub data Width : Type 0 where
  byte short medium word long : Width

abbrev pub code : Width → ℕ
code byte = 0xfe
code short = 0xc0
code medium = 0xf0
code word = 0xd0
code long = 0xe0

abbrev pub size : Width → ℕ
size byte = 1
size short = 2
size medium = 3
size word = 4
size long = 8

-- What an entry holds: a string, a word of some width, or a number below 13 in the encoding itself.
pub data Item : Type 0 where
  string : List ℕ → Item
  integer : Width → ℕ → Item
  immediate : ℕ → Item

abbrev pub FitItem : Item → Type 0
FitItem (string s) = length s < 2 ^ 31
FitItem (integer w n) = n < 256 ^ size w
FitItem (immediate v) = v < 13

abbrev pub item_bytes : Item → List ℕ
item_bytes (string s) = store_len_bytes (length s) ++ s
item_bytes (integer w n) = code w ∷ le_bytes (size w) n
item_bytes (immediate v) = (0xf1 + v) ∷ []

abbrev pub item_text : (ℤ → List ℕ) → Item → List ℕ
item_text print_int (string s) = s
item_text print_int (integer w n) = print_int (to_signed (8 * size w) n)
item_text print_int (immediate v) = print_int (pos v)

abbrev pub prevlen_bytes : ℕ → List ℕ
prevlen_bytes n = if ltb n 254 then (n ∷ []) else (254 ∷ le_bytes 4 n)

-- An entry behind one of `prev` bytes.
abbrev pub entry_bytes : ℕ → Item → List ℕ
entry_bytes prev it = prevlen_bytes prev ++ item_bytes it

prevlensize-bytes :
    (n : ℕ) (t : List ℕ) → zip_decode_prevlensize (prevlen_bytes n ++ t) ≡ length (prevlen_bytes n)
unfolding zip_decode_prevlensize
prevlensize-bytes n t = ground arith

le_word_taken : (n : ℕ) (t : List ℕ) → n < 2 ^ 32 → le_word (take 4 (le_bytes 4 n ++ t)) ≡ n
le_word_taken n t h = omega arith

-- The length of the previous entry is read back.
prevlen-bytes : (n : ℕ) (t : List ℕ) → n < 2 ^ 32 → zip_decode_prevlen (prevlen_bytes n ++ t) ≡ n
unfolding zip_decode_prevlen
prevlen-bytes n t h = ground (arith, prevlensize-bytes n t, le_word_taken n t h)

field-string :
    (n : ℕ) (t : List ℕ)
    → n < 2 ^ 31
    → let f = zip_decode_length (store_len_bytes n ++ t) in
      (zip_is_str f.encoding ≡ true) × (f.lensize ≡ length (store_len_bytes n)) × (f.len ≡ n)
unfolding zip_decode_length zip_entry_encoding
field-string n t h = ground arith

field-integer :
    (w : Width) (t : List ℕ)
    → zip_decode_length (code w ∷ t) ≡ record { encoding = code w; lensize = 1; len = size w }
unfolding zip_decode_length zip_entry_encoding zip_int_size
field-integer byte t = refl
field-integer short t = refl
field-integer medium t = refl
field-integer word t = refl
field-integer long t = refl

field-immediate :
    (v : ℕ) (t : List ℕ)
    → v < 13
    → zip_decode_length ((0xf1 + v) ∷ t) ≡ record { encoding = 0xf1 + v; lensize = 1; len = 0 }
unfolding zip_decode_length zip_entry_encoding zip_int_size
field-immediate v t h = ground arith

-- The upper three bytes of a word, shifted down with the sign.
shifted : (n : ℕ) → n < 2 ^ 24 → shift_right_8 (to_signed 32 (0 + 256 * n)) ≡ to_signed 24 n
shifted n h = ground arith

load-integer :
    (w : Width) (n : ℕ) (t : List ℕ)
    → n < 256 ^ size w
    → zip_load_integer (le_bytes (size w) n ++ t) (code w) ≡ some (to_signed (8 * size w) n)
unfolding zip_load_integer
load-integer byte n t h = ground arith
load-integer short n t h = ap (λ k. some (to_signed 16 k)) (le_word-le_bytes 2 n h)
load-integer medium n t h =
    ap (λ k. some (shift_right_8 (to_signed 32 (0 + 256 * k)))) (le_word-le_bytes 3 n h)
    ∙ ap some (shifted n h)
load-integer word n t h = ap (λ k. some (to_signed 32 k)) (le_word-le_bytes 4 n h)
load-integer long n t h = ap (λ k. some (to_signed 64 k)) (le_word-le_bytes 8 n h)

load-immediate : (v : ℕ) (t : List ℕ) → v < 13 → zip_load_integer t (0xf1 + v) ≡ some (pos v)
unfolding zip_load_integer
load-immediate v t h = ground arith

module _ (print_int : ℤ → List ℕ) (p t : List ℕ) (a l n : ℕ) where
  get_string_at :
      zip_decode_prevlensize p ≡ a
      → drop a p ≡ t
      → zip_is_str (zip_decode_length t).encoding ≡ true
      → (zip_decode_length t).lensize ≡ l
      → (zip_decode_length t).len ≡ n
      → a + l + n < 2 ^ 32
      → ziplist_get print_int p ≡ some (a + l + n, window p (a + l) n)
  unfolding ziplist_get zip_entry
  get_string_at ea et es el en h =
      rw (ea, et, es, el, en) (ap₂ (λ i j. some (i, take n (drop j p))) (omega arith) (omega arith))

  get_integer_at :
      (v : ℤ)
      → zip_decode_prevlensize p ≡ a
      → drop a p ≡ t
      → zip_is_str (zip_decode_length t).encoding ≡ false
      → (zip_decode_length t).lensize ≡ l
      → (zip_decode_length t).len ≡ n
      → zip_load_integer (drop l t) (zip_decode_length t).encoding ≡ some v
      → a + l + n < 2 ^ 32
      → ziplist_get print_int p ≡ some (a + l + n, print_int v)
  unfolding ziplist_get zip_entry
  get_integer_at v ea et es el en ev h =
      rw (ea, et, es, el, behind, ev, ea, et, el, en)
        (ap (λ i. some (i, print_int v)) (omega arith))
    where
      behind : drop ((a + l) % 2 ^ 32) p ≡ drop l t
      behind =
          count_eq (λ k. drop k p) ((a + l) % 2 ^ 32) (a + l) (omega arith)
          ∙ sym (drop-drop l a p)
          ∙ ap (drop l) et

-- The bytes of an entry are not few: a length of its own, and an encoding.
length-store_len_bytes :
    (n : ℕ) → (0 < length (store_len_bytes n)) × (length (store_len_bytes n) ≤ 5)
length-store_len_bytes n = ground arith

length-prevlen_bytes : (n : ℕ) → (0 < length (prevlen_bytes n)) × (length (prevlen_bytes n) ≤ 5)
length-prevlen_bytes n = ground arith

zip_is_str-immediate : (v : ℕ) → v < 13 → zip_is_str (0xf1 + v) ≡ false
zip_is_str-immediate v h = ground arith

window_past :
    (a b s t : List ℕ) → window (a ++ ((b ++ s) ++ t)) (length a + length b) (length s) ≡ s
window_past a b s t =
    ap (take (length s)) (
      sym (drop-drop (length b) (length a) (a ++ ((b ++ s) ++ t)))
      ∙ ap (drop (length b)) (drop-prefix a ((b ++ s) ++ t) ∙ append_assoc b s t)
      ∙ drop-prefix b (s ++ t))
    ∙ take-prefix s t

size_bound : (w : Width) → size w ≤ 8
size_bound byte = omega arith
size_bound short = omega arith
size_bound medium = omega arith
size_bound word = omega arith
size_bound long = omega arith

zip_is_str-code : (w : Width) → zip_is_str (code w) ≡ false
zip_is_str-code byte = refl
zip_is_str-code short = refl
zip_is_str-code medium = refl
zip_is_str-code word = refl
zip_is_str-code long = refl

get_item :
    (print_int : ℤ → List ℕ) (prev : ℕ) (it : Item) (rest : List ℕ)
    → FitItem it
    → ziplist_get print_int (prevlen_bytes prev ++ (item_bytes it ++ rest))
      ≡ some (length (prevlen_bytes prev) + length (item_bytes it), item_text print_int it)
get_item print_int prev (string s) rest h =
    let pre = prevlen_bytes prev in
    let b = store_len_bytes (length s) in
    let t = (b ++ s) ++ rest in
    let (enc, size, len) = field-string (length s) (s ++ rest) h in
    let at : t ≡ b ++ (s ++ rest) = append_assoc b s rest in
    get_string_at print_int (pre ++ t) (b ++ (s ++ rest)) (length pre) (length b) (length s)
      (prevlensize-bytes prev t) (drop-prefix pre t ∙ at) enc size len
      (omega (arith, (length-store_len_bytes (length s)).1, (length-prevlen_bytes prev).1))
    ∙ ap₂ (λ i u. some (i, u)) (omega (arith, length-append b s)) (window_past pre b s rest)
get_item print_int prev (integer w n) rest h =
    let pre = prevlen_bytes prev in
    let t = code w ∷ (le_bytes (size w) n ++ rest) in
    let field = field-integer w (le_bytes (size w) n ++ rest) in
    get_integer_at print_int (pre ++ t) t (length pre) 1 (size w) (to_signed (8 * size w) n)
      (prevlensize-bytes prev t) (drop-prefix pre t)
      (ap (λ f. zip_is_str f.encoding) field ∙ zip_is_str-code w) (ap (λ f. f.lensize) field)
      (ap (λ f. f.len) field)
      (ap (λ f. zip_load_integer (le_bytes (size w) n ++ rest) f.encoding) field
        ∙ load-integer w n rest h)
      (omega (arith, (length-prevlen_bytes prev).1, size_bound w))
    ∙ ap (λ i. some (i, print_int (to_signed (8 * size w) n)))
        (omega (arith, length-le_bytes (size w) n))
get_item print_int prev (immediate v) rest h =
    let pre = prevlen_bytes prev in
    let t = (0xf1 + v) ∷ rest in
    let field = field-immediate v rest h in
    get_integer_at print_int (pre ++ t) t (length pre) 1 0 (pos v) (prevlensize-bytes prev t)
      (drop-prefix pre t) (ap (λ f. zip_is_str f.encoding) field ∙ zip_is_str-immediate v h)
      (ap (λ f. f.lensize) field) (ap (λ f. f.len) field)
      (ap (λ f. zip_load_integer rest f.encoding) field ∙ load-immediate v rest h)
      (omega (arith, (length-prevlen_bytes prev).1))
    ∙ ap (λ i. some (i, print_int (pos v))) (omega arith)

-- An entry with a string below 2^31 bytes, an integer of 1, 2, 3, 4 or 8 bytes or an immediate number,
-- behind an entry of any length: ziplistGet gives its text and the count of its bytes.
pub ziplist_get-entry :
    (print_int : ℤ → List ℕ) (prev : ℕ) (it : Item) (rest : List ℕ)
    → FitItem it
    → ziplist_get print_int (entry_bytes prev it ++ rest)
      ≡ some (length (entry_bytes prev it), item_text print_int it)
ziplist_get-entry print_int prev it rest h =
    let pre = prevlen_bytes prev in
    ap (ziplist_get print_int) (append_assoc pre (item_bytes it) rest)
    ∙ get_item print_int prev it rest h
    ∙ ap (λ i. some (i, item_text print_int it)) (omega (arith, length-append pre (item_bytes it)))

pub length-entry_bytes : (prev : ℕ) (it : Item) → 0 < length (entry_bytes prev it)
length-entry_bytes prev it =
    omega (arith, length-append (prevlen_bytes prev) (item_bytes it), length-prevlen_bytes prev)

pub first-entry_bytes :
    (prev : ℕ) (it : Item) (t : List ℕ) → get_or (entry_bytes prev it ++ t) 0 0 ≢ zip_end
first-entry_bytes prev it t = ground arith
