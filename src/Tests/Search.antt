-- ===== src/Tests/Search.antt =====
-- Searches.
use kj_cpp_redis.Strstr.Crlf.{crlf, crlf_found, fast_strstr-crlf, fast_strstr-crlf_missed}
use kj_cpp_redis.Strstr.{fast_strstr}
use kj_cpp_redis.Tests.Inputs.{codes}
use kj_cpp_redis.Prelude.{◌≡◌, none, arith}

fast_strstr-crlf_example : fast_strstr (codes "ab\r\ncd") crlf ≡ crlf_found (codes "ab\r\ncd")
fast_strstr-crlf_example = fast_strstr-crlf (codes "ab\r\ncd") (omega arith)

-- "\r\n" stands behind the second '\r' of "ab\rx\r\n", and is not found.
fast_strstr-crlf_missed_example : fast_strstr (codes "ab\rx\r\n") crlf ≡ none
fast_strstr-crlf_missed_example =
    fast_strstr-crlf_missed (codes "ab") (codes "\r\n") b'x' (omega arith) (omega arith)
      (omega arith) (omega arith)
