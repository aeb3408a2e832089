-- ===== src/Rdb/Types.antt =====
-- src/base/rdb_parser/rdb_parser_def.h and rdb_object_builder.h: objects, builders, return codes.
use kj_cpp_redis.BipBuf.{BipBuf}
use kj_cpp_redis.Prelude.Int.{ℤ}
use kj_cpp_redis.Prelude.{ℕ, Option, none, List, []}

-- The codes OB_OVER, OB_AGAIN and so on; `stuck` is the model's own: a loop ran out of fuel.
pub data Code : Type 0 where
  over again abort premature invalid_path invalid_magic_string invalid_nb_type : Code
  invalid_string_enc invalid_nb_state lzf_failed stuck : Code

-- `rdb_kv_t`; a string is its bytes.
pub record Kv : Type 0 where
  pub key : List ℕ
  pub val : List ℕ

-- `rdb_object_t`. `vall` is the chain of links; `vall_tail` is NULL or the index of a link in it. `expire`
-- is a 32-bit word.
pub record RdbObject : Type 0 where
  pub type : ℕ
  pub db_selector : ℕ
  pub aux_key : List ℕ
  pub aux_val : List ℕ
  pub checksum : ℕ
  pub expire : ℕ
  pub key : List ℕ
  pub val : List ℕ
  pub vall : List Kv
  pub vall_tail : Option ℕ
  pub size : ℕ

-- `rdb_object_init`
abbrev pub empty_object : RdbObject
empty_object = record {
  type = 0;
  db_selector = 0;
  aux_key = [];
  aux_val = [];
  checksum = 0;
  expire = 0;
  key = [];
  val = [];
  vall = [];
  vall_tail = none;
  size = 0;
}

-- `rdb_object_builder_t`. `state` counts in the enumeration of the function that runs the builder.
pub record ObjectBuilder : Type 0 where
  pub depth : ℕ
  pub state : ℕ
  pub store_len : ℕ
  pub c_len : ℕ
  pub len : ℕ
  pub tmp_key : List ℕ
  pub tmp_val : List ℕ

-- `rdb_parser_t` with the input of the builders. `walked` holds the objects that `o_cb` was called with,
-- which stand for what it keeps behind `o_payload`. The pools are not part of the model.
pub record RdbParser : Type 0 where
  pub version : ℕ
  pub parsed : ℕ
  pub state : ℕ
  pub stack_ob : List ObjectBuilder
  pub bb : BipBuf
  pub o : RdbObject
  pub walked : List RdbObject

-- What the parser calls and other libraries define: `o_snprintf` of a signed integer; `lzf_decompress`
-- of bytes into memory of a size, which gives that memory, or 0; the callback, which has seen some
-- objects and gets the next, and continues with 0.
pub record Calls : Type 0 where
  pub print_int : ℤ → List ℕ
  pub lzf_decompress : List ℕ → ℕ → Option (List ℕ)
  pub o_cb : List RdbObject → RdbObject → ℕ
