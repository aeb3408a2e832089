-- ===== src/Reply/RoundTrip/Replies.antt =====
-- All replies of the input.
use kj_cpp_redis.BipBuf.Content.{get_committed_size-length, length-block}
use kj_cpp_redis.BipBuf.Inv.{IsValid}
use kj_cpp_redis.BipBuf.{get_contiguous_block, get_committed_size}
use kj_cpp_redis.Reply.Builder.Loop.{with_top, builder-with_top}
use kj_cpp_redis.Reply.Builder.{Outcome, rrb_loop, alloc_reply_builder}
use kj_cpp_redis.Reply.Parse.{
  ReplyParser, build_reply_type, reply_states, build_reply, deliver, parse_loop, parse_once,
}
use kj_cpp_redis.Reply.Read.{read_leading}
use kj_cpp_redis.Reply.RoundTrip.Row.{length-encode_all}
use kj_cpp_redis.Reply.RoundTrip.Rounds.{new_builder}
use kj_cpp_redis.Reply.Spec.{
  Values, no_values, more_values, count, encode_all, AreWritable, nesting_all, Represents,
}
use kj_cpp_redis.Reply.Types.{Code, over, premature, Context, Reply, empty_reply, parse_idle}
use kj_cpp_redis.Prelude.{
  ℕ, suc, ◌+◌, ◌*◌, ◌-◌, ◌≤◌, ◌<◌, ◌≡◌, ◌∙◌, ap, refl, sym, Bool, true, List, [], ◌∷◌, ◌++◌, arith,
  length, count_eq, subst, append_assoc, append-nil,
}
use kj_cpp_redis.Reply.RoundTrip.Whole.{base, IsFresh, IsFresh-empty, build_reply-Built}

-- The parser is between two replies, and `input` is what it has not parsed.
pub record IsWaiting (p : ReplyParser) (input : List ℕ) : Type 0 where
  pub idle : p.state ≡ parse_idle
  pub blank_reply : p.r ≡ empty_reply
  pub start : IsFresh p.context
  pub valid : IsValid p.context.bb
  pub left : get_contiguous_block p.context.bb ≡ input

unfoldable pub RepresentList : List Reply → Values → Type 0
RepresentList [] no_values = Unit
RepresentList [] (more_values v vs) = ⊥
RepresentList (r ∷ rs) no_values = ⊥
RepresentList (r ∷ rs) (more_values v vs) = Represents r v × RepresentList rs vs

-- The loop took all of `vs`, and the replies behind `seen` stand for them.
record Took (vs : Values) (seen : List Reply) (out : Code × ReplyParser × List Reply) : Type 0 where
  pub code : out.0 ≡ premature
  pub waiting : IsWaiting (out.1) []
  pub added : List Reply
  pub delivered : out.2 ≡ seen ++ added
  pub represent : RepresentList added vs

nothing_left :
    (fresh : ℕ → List ℕ) (c : Context)
    → IsFresh c
    → get_contiguous_block c.bb ≡ []
    → IsValid c.bb
    → build_reply fresh c empty_reply ≡ (premature, with_top (base c) (new_builder 0), empty_reply)
unfolding build_reply rrb_loop reply_states build_reply_type read_leading
nothing_left fresh c start e valid = ground (
  arith,
  start,
  builder-with_top (base c) 0 refl (new_builder 0),
  get_committed_size-length valid,
  length-block valid,
)

IsFresh-again : (c : Context) → IsFresh (with_top (base c) (new_builder 0))
unfolding alloc_reply_builder
IsFresh-again c = refl

module _ (fresh : ℕ → List ℕ) (fresh_length : (n : ℕ) → length (fresh n) ≡ n)
    (r_cb : List Reply → Reply → Bool)
    (goes_on : (seen : List Reply) (r : Reply) → r_cb seen r ≡ true) where
  parse_loop-over :
      (f : ℕ) (p : ReplyParser) (seen : List Reply) (c : Context) (r : Reply)
      → build_reply fresh p.context p.r ≡ (over, c, r)
      → parse_loop fresh (suc f) r_cb p seen
        ≡ parse_loop fresh f r_cb (record p { context = c; r = empty_reply }) (seen ++ (r ∷ []))
  unfolding parse_loop deliver
  parse_loop-over f p seen c r e = ground (arith, goes_on seen r)

  parse_loop-premature :
      (f : ℕ) (p : ReplyParser) (seen : List Reply) (c : Context) (r : Reply)
      → build_reply fresh p.context p.r ≡ (premature, c, r)
      → parse_loop fresh (suc f) r_cb p seen ≡ (premature, record p { context = c; r = r }, seen)
  unfolding parse_loop deliver
  parse_loop-premature f p seen c r e = ground arith

  parse_loop-Took :
      (vs : Values) (x : ℕ) (p : ReplyParser) (seen : List Reply)
      → AreWritable vs
      → nesting_all vs < 14
      → IsWaiting p (encode_all vs [])
      → Took vs seen (parse_loop fresh (suc (count vs + x)) r_cb p seen)
  unfolding encode_all AreWritable nesting_all RepresentList
  parse_loop-Took no_values x p seen w deep at =
      subst (Took no_values seen)
        (sym (
          parse_loop-premature (0 + x) p seen _ _ (
            ap (build_reply fresh p.context) at.blank_reply
            ∙ nothing_left fresh p.context at.start at.left at.valid)))
        (record {
          code = refl;
          waiting = record {
            idle = at.idle;
            blank_reply = refl;
            start = IsFresh-again p.context;
            valid = at.valid;
            left = at.left;
          };
          added = [];
          delivered = sym (append-nil seen);
          represent = tt;
        })
  parse_loop-Took (more_values v vs) x p seen w deep at =
      let built =
        build_reply-Built fresh fresh_length p.context v (encode_all vs []) at.start (w.0)
          (omega arith) at.valid at.left in
      let out : Outcome = build_reply fresh p.context empty_reply in
      let run : build_reply fresh p.context p.r ≡ (over, out.1, out.2) =
        ap (build_reply fresh p.context) at.blank_reply ∙ ap (λ k. (k, out.1, out.2)) built.code in
      let others =
        parse_loop-Took vs x (record p { context = out.1; r = empty_reply }) (seen ++ (out.2 ∷ []))
          (w.1) (omega arith)
          (record {
            idle = at.idle;
            blank_reply = refl;
            start = IsFresh-empty (out.1) built.stack;
            valid = built.valid;
            left = built.left;
          }) in
      subst (Took (more_values v vs) seen)
        (sym (
          count_eq (λ f. parse_loop fresh f r_cb p seen) (suc (count (more_values v vs) + x))
            (suc (suc (count vs + x))) (omega arith)
          ∙ parse_loop-over (suc (count vs + x)) p seen (out.1) (out.2) run))
        (record {
          code = others.code;
          waiting = others.waiting;
          added = out.2 ∷ others.added;
          delivered = others.delivered ∙ append_assoc seen (out.2 ∷ []) others.added;
          represent = (built.represents, others.represent);
        })

  parse_once_idle :
      (p : ReplyParser)
      → p.state ≡ parse_idle
      → parse_once fresh r_cb p ≡ parse_loop fresh (get_committed_size p.context.bb + 1) r_cb p []
  unfolding parse_once
  parse_once_idle p e = ground arith

  -- A waiting reply parser whose input is the encoding of a list of writable values, nested less
  -- than 14 deep, with a callback that always returns 0, delivers one reply per value, in order,
  -- each representing its value; it then asks for more input with nothing left and is waiting again.
  pub parse_once_lem :
      (vs : Values) (p : ReplyParser)
      → AreWritable vs
      → nesting_all vs < 14
      → IsWaiting p (encode_all vs [])
      → let (rc, p', seen) = parse_once fresh r_cb p in
        (rc ≡ premature) × IsWaiting p' [] × RepresentList seen vs
  parse_once_lem vs p w deep at =
      let n : ℕ = get_committed_size p.context.bb in
      let enough : 2 * count vs ≤ n = omega (
        arith,
        get_committed_size-length at.valid,
        length-block at.valid,
        ap length at.left,
        length-encode_all vs [],
      ) in
      let took = parse_loop-Took vs (n - count vs) p [] w deep at in
      let run : parse_once fresh r_cb p
          ≡ parse_loop fresh (suc (count vs + (n - count vs))) r_cb p [] =
        parse_once_idle p at.idle
        ∙ count_eq (λ f. parse_loop fresh f r_cb p []) (n + 1) (suc (count vs + (n - count vs)))
            (omega arith) in
      subst (λ out. (out.0 ≡ premature) × IsWaiting (out.1) [] × RepresentList (out.2) vs) (sym run)
        (
          took.code,
          took.waiting,
          subst (λ rs. RepresentList rs vs) (sym took.delivered) took.represent,
        )
