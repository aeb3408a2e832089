-- ===== src/Rdb/Text/RoundTrip.antt =====
-- A string of a dump at the front of the input, built.
use kj_cpp_redis.BipBuf.Content.{get_committed_size-length}
use kj_cpp_redis.Prelude.Int.{pos, negsuc, to_signed}
use kj_cpp_redis.Rdb.Builder.Loop.{with_top, Holds, stack_ob-consume, Ready, with_top-Ready}
use kj_cpp_redis.Rdb.Builder.{zero_builder, consume}
use kj_cpp_redis.Rdb.Endian.{le_bytes, length-le_bytes}
use kj_cpp_redis.Rdb.Helper.{read_int, sign_extend, calc_crc}
use kj_cpp_redis.Rdb.StoreLen.{store_len_bytes, read_int-int16, read_int-int32}
use kj_cpp_redis.Rdb.Builder.After.{After, consume-After, After-trans}
use kj_cpp_redis.Rdb.Text.Pieces.{first_round, last_round, plain_round}
use kj_cpp_redis.Rdb.Text.Packed.{build_lzf_string_value-packed, after_packed}
use kj_cpp_redis.Rdb.Text.Rounds.{plain_len, enc_len, enc_int, enc_lzf_value}
use kj_cpp_redis.Rdb.Text.Spec.{
  Text, plain, int8, int16, int32, packed, text_bytes, text_of, read_of, FitText, FitRead,
  FitText-FitRead, read_of-text_of,
}
use kj_cpp_redis.Rdb.Text.{Outcome, build_string_value}
use kj_cpp_redis.Rdb.Types.{over, ObjectBuilder, RdbParser, Calls}
use kj_cpp_redis.Prelude.{
  ℕ, ◌+◌, ◌-◌, ◌^◌, ◌<◌, ◌≤◌, ◌≡◌, ◌∙◌, ap, refl, some, List, [], ◌∷◌, ◌++◌, append_assoc, arith,
  length, subst,
}

-- The builder of strings ends with the text `val`, and leaves `rest` of the input.
pub record BuiltAs (rp : RdbParser) (val rest : List ℕ) (out : Outcome) : Type 0 where
  pub rp' : RdbParser
  pub result : out ≡ (over, rp', val)
  pub after : After rp rest rp'

-- What the builder of strings does with a text at the front of the input.
abbrev pub BuiltText : Calls → RdbParser → Text → List ℕ → Outcome → Type 0
BuiltText calls rp t rest out = BuiltAs rp (text_of calls t) rest out

read_int-byte :
    (rp : RdbParser) (n : ℕ) (rest : List ℕ)
    → n < 256
    → Holds rp (le_bytes 1 n ++ rest)
    → read_int rp.bb 0 ≡ some (1, n)
unfolding read_int
read_int-byte rp n rest h holds =
    ground (arith, get_committed_size-length holds.valid, ap length holds.left)

-- A word behind its encoding.
int_built :
    (calls : Calls) (rp : RdbParser) (i enc w n word : ℕ) (val rest : List ℕ)
    → Ready rp i 2
    → enc ≤ 2
    → Holds rp ((192 + enc) ∷ (le_bytes w n ++ rest))
    → ((rp1 : RdbParser) → Holds rp1 (le_bytes w n ++ rest) → read_int rp1.bb enc ≡ some (w, word))
    → (build_string_value calls rp i val
        ≡ (over, consume (consume rp 1) w, calls.print_int (to_signed 32 word)))
      × After rp rest (consume (consume rp 1) w)
int_built calls rp i enc w n word val rest ready h holds read =
    let k = length rp.stack_ob in
    let b1 = record zero_builder { depth = k; state = 2; store_len = enc } in
    let rp1 = consume rp 1 in
    let one = consume-After rp ((192 + enc) ∷ []) (le_bytes w n ++ rest) holds in
    (
      first_round calls rp i ready val rp1 b1 val (
            enc_len calls rp k refl val (record zero_builder { depth = k }) enc
              (le_bytes w n ++ rest) refl (omega arith) holds)
          ∙ last_round calls k rp1 (consume rp1 w) b1 b1 val (calls.print_int (to_signed 32 word)) (
              enc_int calls rp1 k (ap length (stack_ob-consume rp 1)) val b1 w word refl h
                (read rp1 one.holds)),
      After-trans one (
          count_eq_After rp1 (length (le_bytes w n)) w rest (length-le_bytes w n)
            (consume-After rp1 (le_bytes w n) rest one.holds)),
    )
  where
    count_eq_After :
        (rp1 : RdbParser) (m w : ℕ) (rest : List ℕ)
        → m ≡ w
        → After rp1 rest (consume rp1 m)
        → After rp1 rest (consume rp1 w)
    count_eq_After rp1 m w rest e a = subst (λ j. After rp1 rest (consume rp1 j)) e a

extended : (n : ℕ) → n < 2 ^ 16 → to_signed 32 (sign_extend n) ≡ to_signed 16 n
extended n h = ground arith

assoc3 : (a b c t : List ℕ) → (a ++ (b ++ c)) ++ t ≡ a ++ (b ++ (c ++ t))
assoc3 a b c t = append_assoc a (b ++ c) t ∙ ap (λ u. a ++ u) (append_assoc b c t)

consume-with_top3 :
    (rp : RdbParser) (b : ObjectBuilder) (c raw : List ℕ)
    → after_packed (with_top rp b) c raw ≡ with_top (after_packed rp c raw) b
unfolding consume calc_crc
consume-with_top3 rp b c raw = refl

packed-After :
    (rp : RdbParser) (c raw rest : List ℕ)
    → Holds rp (store_len_bytes (length c) ++ (store_len_bytes (length raw) ++ (c ++ rest)))
    → After rp rest (after_packed rp c raw)
packed-After rp c raw rest holds =
    let a1 =
      consume-After rp (store_len_bytes (length c)) (store_len_bytes (length raw) ++ (c ++ rest))
        holds in
    let a2 =
      consume-After (consume rp (length (store_len_bytes (length c))))
        (store_len_bytes (length raw)) (c ++ rest) a1.holds in
    After-trans (After-trans a1 a2) (
      consume-After
        (consume (consume rp (length (store_len_bytes (length c))))
          (length (store_len_bytes (length raw))))
        c rest a2.holds)

negative : (n : ℕ) → 128 ≤ n → n < 256 → to_signed 8 n ≡ negsuc (255 - n)
negative n l h = ground arith

unsigned : (n : ℕ) → n < 2 ^ 8 → to_signed 32 n ≡ pos n
unsigned n h = ground arith

-- Any text is built as the code reads it.
pub build_string_value-BuiltAs :
    (calls : Calls) (rp : RdbParser) (i : ℕ) (val : List ℕ) (t : Text) (rest : List ℕ)
    → Ready rp i 2
    → FitRead calls t
    → Holds rp (text_bytes t ++ rest)
    → BuiltAs rp (read_of calls t) rest (build_string_value calls rp i val)
build_string_value-BuiltAs calls rp i val (plain s) rest ready h holds =
    let k = length rp.stack_ob in
    let n = length s in
    let len = store_len_bytes n in
    let rp1 = consume rp (length len) in
    let b1 = record zero_builder { depth = k; state = 3; store_len = n } in
    let holds0 : Holds rp (len ++ (s ++ rest)) = record {
      valid = holds.valid;
      left = holds.left ∙ append_assoc len s rest;
    } in
    let one = consume-After rp len (s ++ rest) holds0 in
    record {
      rp' = consume rp1 n;
      result =
          first_round calls rp i ready val rp1 b1 [] (
            plain_len calls rp k refl val (record zero_builder { depth = k }) n (s ++ rest) refl h
              holds0)
          ∙ last_round calls k rp1 (consume rp1 n) b1 b1 [] s (
              plain_round calls rp1 k b1 [] s rest (ap length (stack_ob-consume rp (length len)))
                refl (omega arith) h one.holds);
      after = After-trans one (consume-After rp1 s rest one.holds);
    }
build_string_value-BuiltAs calls rp i val (int8 n) rest ready h holds =
    let built =
      int_built calls rp i 0 1 n n val rest ready (omega arith) holds
        (λ rp1 h1. read_int-byte rp1 n rest h h1) in
    record {
      rp' = consume (consume rp 1) 1;
      result =
          built.0 ∙ ap (λ z. (over, consume (consume rp 1) 1, calls.print_int z)) (unsigned n h);
      after = built.1;
    }
build_string_value-BuiltAs calls rp i val (int16 n) rest ready h holds =
    let read = λ (rp1 : RdbParser) (h1 : Holds rp1 (le_bytes 2 n ++ rest)).
      read_int-int16 n rest h1.valid h h1.left in
    let built =
      int_built calls rp i 1 2 n (sign_extend n) val rest ready (omega arith) holds
        (λ rp1 h1. (read rp1 h1).0) in
    record {
      rp' = consume (consume rp 1) 2;
      result =
          built.0 ∙ ap (λ z. (over, consume (consume rp 1) 2, calls.print_int z)) (extended n h);
      after = built.1;
    }
build_string_value-BuiltAs calls rp i val (int32 n) rest ready h holds =
    let built =
      int_built calls rp i 2 4 n n val rest ready (omega arith) holds
        (λ rp1 h1. read_int-int32 n rest h1.valid h h1.left) in
    record { rp' = consume (consume rp 1) 4; result = built.0; after = built.1 }
build_string_value-BuiltAs calls rp i val (packed c raw) rest ready h holds =
    let k = length rp.stack_ob in
    let rp1 = consume rp 1 in
    let b1 = record zero_builder { depth = k; state = 2; store_len = 3 } in
    let lens = store_len_bytes (length c) ++ (store_len_bytes (length raw) ++ (c ++ rest)) in
    let holds0 : Holds rp (195 ∷ lens) = record {
      valid = holds.valid;
      left =
          holds.left
          ∙ ap (◌∷◌ 195)
              (assoc3 (store_len_bytes (length c)) (store_len_bytes (length raw)) c rest);
    } in
    let one = consume-After rp (195 ∷ []) lens holds0 in
    let top : length rp1.stack_ob ≡ k = ap length (stack_ob-consume rp 1) in
    record {
      rp' = after_packed rp1 c raw;
      result =
          first_round calls rp i ready val rp1 b1 val (
            enc_len calls rp k refl val (record zero_builder { depth = k }) 3 lens refl
              (omega arith) holds0)
          ∙ last_round calls k rp1 (after_packed rp1 c raw) b1 b1 val raw (
              enc_lzf_value calls rp1 k top val b1 refl refl
              ∙ build_lzf_string_value-packed calls (with_top rp1 b1) k val c raw rest
                  (with_top-Ready rp1 k 1 b1 top refl (omega (arith, ready.small))) (h.0) (h.1)
                  (h.2) (record { valid = one.holds.valid; left = one.holds.left })
              ∙ ap (λ p. (over, p, raw)) (consume-with_top3 rp1 b1 c raw));
      after = After-trans one (packed-After rp1 c raw rest one.holds);
    }

-- A string in any of its encodings at the front of a valid input is built as its text, whatever the
-- string behind the pointer was, the bytes behind it are left, and nothing else of the parser
-- changes. The lengths in it are below 2^32 - 1, an 8-bit word is not negative (the code reads it
-- without its sign), lzf_decompress undoes the compression, and the stack has room for two builders.
pub build_string_value-BuiltText :
    (calls : Calls) (rp : RdbParser) (i : ℕ) (val : List ℕ) (t : Text) (rest : List ℕ)
    → Ready rp i 2
    → FitText calls t
    → Holds rp (text_bytes t ++ rest)
    → BuiltText calls rp t rest (build_string_value calls rp i val)
build_string_value-BuiltText calls rp i val t rest ready fit holds =
    let built =
      build_string_value-BuiltAs calls rp i val t rest ready (FitText-FitRead calls t fit) holds in
    record {
      rp' = built.rp';
      result = built.result ∙ ap (λ s. (over, built.rp', s)) (read_of-text_of calls t fit);
      after = built.after;
    }

-- A string that is an 8-bit word with its sign bit set, at the front of a valid input, with room for
-- two builders on the stack, is built as the positive number with that word, though the text that it
-- stands for is a negative one; the bytes behind it are left, and nothing else of the parser
-- changes.
pub build_string_value-int8 :
    (calls : Calls) (rp : RdbParser) (i : ℕ) (val : List ℕ) (n : ℕ) (rest : List ℕ)
    → Ready rp i 2
    → 128 ≤ n
    → n < 256
    → Holds rp (text_bytes (int8 n) ++ rest)
    → BuiltAs rp (calls.print_int (pos n)) rest (build_string_value calls rp i val)
      × (text_of calls (int8 n) ≡ calls.print_int (negsuc (255 - n)))
build_string_value-int8 calls rp i val n rest ready low high holds = (
  build_string_value-BuiltAs calls rp i val (int8 n) rest ready high holds,
  ap calls.print_int (negative n low high),
)
