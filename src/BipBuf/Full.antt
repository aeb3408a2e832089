-- ===== src/BipBuf/Full.antt =====
-- `bip_buf_force_reserve` on a full buffer, and once bytes have been taken from it.
use kj_cpp_redis.BipBuf.{BipBuf}
