-- ===== src/Reply/Spec.antt =====
-- The Redis protocol: values, how a server writes them, and when a parsed reply stands for one.
use kj_cpp_redis.Reply.Array.{items}
use kj_cpp_redis.Reply.Read.Decimal.{decimal}
use kj_cpp_redis.Reply.Text.{as_string}
use kj_cpp_redis.Reply.Types.{
  LeadingType, simple_string, error_string, integer, bulk_string, array, Reply, reply, null,
  Replies, nil, cons,
}
use kj_cpp_redis.Strstr.Prefix.{Lacks}
use kj_cpp_redis.Prelude.{
  ℕ, suc, ◌-◌, ◌^◌, ◌≤◌, ◌<◌, ◌≡◌, true, false, List, ◌∷◌, ◌++◌, length, max,
}

mutual
  pub data Value : Type 0 where
    text_value error_value bulk_value : List ℕ → Value
    number negative : ℕ → Value
    null_bulk null_array : Value
    array_value : Values → Value

  pub data Values : Type 0 where
    no_values : Values
    more_values : Value → Values → Values

abbrev pub lead : Value → ℕ
lead (text_value s) = b'+'
lead (error_value s) = b'-'
lead (bulk_value s) = b'$'
lead (number n) = b':'
lead (negative n) = b':'
lead null_bulk = b'$'
lead null_array = b'*'
lead (array_value vs) = b'*'

abbrev pub type_of : Value → LeadingType
type_of (text_value s) = simple_string
type_of (error_value s) = error_string
type_of (bulk_value s) = bulk_string
type_of (number n) = integer
type_of (negative n) = integer
type_of null_bulk = bulk_string
type_of null_array = array
type_of (array_value vs) = array

abbrev pub count : Values → ℕ
count no_values = 0
count (more_values v vs) = suc (count vs)

-- What follows the leading byte of a value, in front of `rest`.
unfoldable mutual
  pub body : Value → List ℕ → List ℕ
  body (text_value s) rest = s ++ (13 ∷ 10 ∷ rest)
  body (error_value s) rest = s ++ (13 ∷ 10 ∷ rest)
  body (bulk_value s) rest = decimal (length s) ++ (13 ∷ 10 ∷ (s ++ (13 ∷ 10 ∷ rest)))
  body (number n) rest = decimal n ++ (13 ∷ 10 ∷ rest)
  body (negative n) rest = (b'-' ∷ decimal n) ++ (13 ∷ 10 ∷ rest)
  body null_bulk rest = (b'-' ∷ decimal 1) ++ (13 ∷ 10 ∷ rest)
  body null_array rest = (b'-' ∷ decimal 1) ++ (13 ∷ 10 ∷ rest)
  body (array_value vs) rest = decimal (count vs) ++ (13 ∷ 10 ∷ encode_all vs rest)

  pub encode_all : Values → List ℕ → List ℕ
  encode_all no_values rest = rest
  encode_all (more_values v vs) rest = lead v ∷ body v (encode_all vs rest)

abbrev pub encode : Value → List ℕ → List ℕ
encode v rest = lead v ∷ body v rest

-- The values that the parser takes whole: a line is one with no '\r' that fits the first buffer, and
-- lengths and numbers fit their words.
unfoldable mutual
  pub IsWritable : Value → Type 0
  IsWritable (text_value s) = Lacks 13 s × (length s ≤ 4096)
  IsWritable (error_value s) = Lacks 13 s × (length s ≤ 4096)
  IsWritable (bulk_value s) = length s < 2 ^ 31
  IsWritable (number n) = n < 2 ^ 63
  IsWritable (negative n) = (0 < n) × (n ≤ 2 ^ 63)
  IsWritable null_bulk = Unit
  IsWritable null_array = Unit
  IsWritable (array_value vs) = (0 < count vs) × (count vs < 2 ^ 31) × AreWritable vs

  pub AreWritable : Values → Type 0
  AreWritable no_values = Unit
  AreWritable (more_values v vs) = IsWritable v × AreWritable vs

-- How deep arrays nest in a value.
unfoldable mutual
  pub nesting : Value → ℕ
  nesting (array_value vs) = suc (nesting_all vs)
  nesting null_array = 1
  nesting _ = 0

  pub nesting_all : Values → ℕ
  nesting_all no_values = 0
  nesting_all (more_values v vs) = max (nesting v) (nesting_all vs)

-- A reply stands for a value.
unfoldable mutual
  pub Represents : Reply → Value → Type 0
  Represents (reply r a) (text_value s) =
      (r.type ≡ simple_string) × (r.is_null ≡ false) × (as_string r.vall ≡ s) × (r.bytes ≡ length s)
  Represents (reply r a) (error_value s) =
      (r.type ≡ error_string) × (r.is_null ≡ false) × (as_string r.vall ≡ s) × (r.bytes ≡ length s)
  Represents (reply r a) (bulk_value s) =
      (r.type ≡ bulk_string) × (r.is_null ≡ false) × (as_string r.vall ≡ s) × (r.bytes ≡ length s)
  Represents (reply r a) (number n) = (r.type ≡ integer) × (r.intval ≡ n)
  Represents (reply r a) (negative n) = (r.type ≡ integer) × (r.intval ≡ 2 ^ 64 - n)
  Represents (reply r a) null_bulk = (r.type ≡ bulk_string) × (r.is_null ≡ true)
  Represents (reply r a) null_array = (r.type ≡ array) × (r.is_null ≡ true) × (a ≡ null)
  Represents (reply r a) (array_value vs) =
      (r.type ≡ array) × (r.is_null ≡ false) × RepresentAll (items a) vs

  pub RepresentAll : Replies → Values → Type 0
  RepresentAll nil no_values = Unit
  RepresentAll nil (more_values v vs) = ⊥
  RepresentAll (cons r rs) no_values = ⊥
  RepresentAll (cons r rs) (more_values v vs) = Represents r v × RepresentAll rs vs
