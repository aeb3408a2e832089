-- ===== src/Reply/RoundTrip/Scalar.antt =====
-- Lines and integers.
use kj_cpp_redis.BipBuf.Inv.{IsValid}
use kj_cpp_redis.BipBuf.{get_contiguous_block}
use kj_cpp_redis.Reply.Array.{build_integer_reply}
use kj_cpp_redis.Reply.Builder.Loop.{consume-block}
use kj_cpp_redis.Reply.Builder.{Outcome, consume}
use kj_cpp_redis.Reply.Read.Decimal.{
  decimal, decimal-Lacks, to_integer-decimal, to_integer_negative,
}
use kj_cpp_redis.Reply.Read.Integer.{read_integer-line}
use kj_cpp_redis.Reply.Read.{build_integer, to_integer}
use kj_cpp_redis.Reply.Spec.{Value, number, negative, body, type_of, Represents}
use kj_cpp_redis.Reply.Types.{over, Context, LeadingType, empty_node, Reply, reply, null}
use kj_cpp_redis.Strstr.Prefix.{Lacks}
use kj_cpp_redis.Prelude.{
  ℕ, ◌+◌, ◌^◌, ◌≤◌, ◌<◌, ◌≡◌, ◌∙◌, refl, sym, false, List, [], ◌∷◌, ◌++◌, arith, length,
  append_assoc, length-append, subst,
}

-- A builder has taken the body of `v`: what follows it is left, and the builders below are as before.
pub record Built (c : Context) (v : Value) (rest : List ℕ) (out : Outcome) : Type 0 where
  pub code : out.0 ≡ over
  pub valid : IsValid out.1.bb
  pub left : get_contiguous_block out.1.bb ≡ rest
  pub stack : out.1.stack ≡ c.stack
  pub represents : Represents out.2 v

-- The reply that a builder gets to fill.
abbrev pub blank : LeadingType → Reply
blank t = reply (record empty_node { type = t }) null

-- The context after a line and its end.
abbrev pub after_line : Context → List ℕ → Context
after_line c line = consume c (length line + 2)

pub after_line_lem :
    (c : Context) (line rest : List ℕ)
    → IsValid c.bb
    → get_contiguous_block c.bb ≡ line ++ (13 ∷ 10 ∷ rest)
    → IsValid (after_line c line).bb × (get_contiguous_block (after_line c line).bb ≡ rest)
after_line_lem c line rest v e =
    subst (λ n. IsValid (consume c n).bb × (get_contiguous_block (consume c n).bb ≡ rest))
      (length-append line (13 ∷ 10 ∷ []))
      (consume-block c (line ++ (13 ∷ 10 ∷ [])) rest v
        (e ∙ sym (append_assoc line (13 ∷ 10 ∷ []) rest)))

pub stack-consume : (c : Context) (n : ℕ) → (consume c n).stack ≡ c.stack
unfolding consume
stack-consume c n = refl

pub build_integer-line :
    (c : Context) (line rest : List ℕ)
    → IsValid c.bb
    → get_contiguous_block c.bb ≡ line ++ (13 ∷ 10 ∷ rest)
    → Lacks 13 line
    → build_integer c ≡ (over, after_line c line, to_integer line 0 false)
unfolding build_integer
build_integer-line c line rest v e h = ground (arith, read_integer-line line rest v e h)

integer-Built :
    (c : Context) (line rest : List ℕ) (v : Value)
    → IsValid c.bb
    → get_contiguous_block c.bb ≡ line ++ (13 ∷ 10 ∷ rest)
    → Lacks 13 line
    → Represents
        (reply (record empty_node { type = type_of v; intval = to_integer line 0 false }) null)
        v
    → Built c v rest (build_integer_reply c (blank (type_of v)))
unfolding build_integer_reply
integer-Built c line rest v valid e h rep = ground (
  arith,
  build_integer-line c line rest valid e h,
  after_line_lem c line rest valid e,
  stack-consume c (length line + 2),
)

-- Integers, of either sign.
pub number-Built :
    (c : Context) (n : ℕ) (rest : List ℕ)
    → n < 2 ^ 63
    → IsValid c.bb
    → get_contiguous_block c.bb ≡ body (number n) rest
    → Built c (number n) rest (build_integer_reply c (blank (type_of (number n))))
unfolding body Represents
number-Built c n rest h valid e =
    integer-Built c (decimal n) rest (number n) valid e (decimal-Lacks n (omega arith))
      (refl, to_integer-decimal n (omega arith))

pub negative-Built :
    (c : Context) (n : ℕ) (rest : List ℕ)
    → 0 < n
    → n ≤ 2 ^ 63
    → IsValid c.bb
    → get_contiguous_block c.bb ≡ body (negative n) rest
    → Built c (negative n) rest (build_integer_reply c (blank (type_of (negative n))))
unfolding body Represents
negative-Built c n rest pos h valid e =
    integer-Built c (b'-' ∷ decimal n) rest (negative n) valid e
      (omega arith, decimal-Lacks n (omega arith)) (refl, to_integer_negative n pos (omega arith))
