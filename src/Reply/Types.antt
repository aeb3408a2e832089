-- ===== src/Reply/Types.antt =====
-- src/base/reply_parser/reply_parser_def.h and reply_builder.h: replies, builders, return codes.
use kj_cpp_redis.BipBuf.{BipBuf}
use kj_cpp_redis.NxBuf.{Buf}
use kj_cpp_redis.Prelude.{ℕ, Bool, false, List, []}

-- `enum REDIS_REPLY_LEADING_TYPE_TAG`
pub data LeadingType : Type 0 where
  unknown simple_string error_string integer bulk_string array : LeadingType

-- The fields of `redis_reply_t` that hold no reply. `vall` is the chain of buffers, and `vall_tail`
-- points to its last link. `intval` is a 64-bit word.
pub record Node : Type 0 where
  pub type : LeadingType
  pub is_null : Bool
  pub vall : List Buf
  pub bytes : ℕ
  pub intval : ℕ
  pub elemtype : LeadingType

-- `redis_reply_t` with its `arrval`: NULL, or the elements of the array.
mutual
  pub data Reply : Type 0 where
    reply : Node → Elements → Reply

  pub data Elements : Type 0 where
    null : Elements
    elements : Replies → Elements

  pub data Replies : Type 0 where
    nil : Replies
    cons : Reply → Replies → Replies

-- `redis_reply_init`
abbrev pub empty_node : Node
empty_node = record {
  type = unknown;
  is_null = false;
  vall = [];
  bytes = 0;
  intval = 0;
  elemtype = unknown;
}

abbrev pub empty_reply : Reply
empty_reply = reply empty_node null

-- `redis_reply_builder_t`. `state` counts in the enumeration of the function that runs the builder.
pub record ReplyBuilder : Type 0 where
  pub depth : ℕ
  pub state : ℕ
  pub store_len : ℕ
  pub len : ℕ
  pub arridx : ℕ

-- The codes RRB_OVER, RRB_AGAIN and so on; `stuck` is the model's own: a loop ran out of fuel.
pub data Code : Type 0 where
  over again abort premature invalid_leading_char invalid_state invalid_bulk_string stuck : Code

-- What the builders share: the stack of builders, the input and the count of bytes taken from it.
pub record Context : Type 0 where
  pub stack : List ReplyBuilder
  pub bb : BipBuf
  pub parsed : ℕ

-- `enum PARSE_REDIS_REPLY_TAG`; no code sets the state RUNNING.
pub data ParserState : Type 0 where
  parse_idle parse_running parse_over : ParserState
