-- ===== src/Transform/Dispatch.antt =====
-- Which test of `transform_inbound` (src/transform.c) takes a packet.
use awg2_webui.Base.{ℕ, ◌+◌, ◌≤◌, ◌≡◌, ◌≢◌, true, false, some, List, length, drop, arith}
use awg2_webui.Transform.{Config, hrange_contains, read32_le, write32_le, seal_init, seal_response}
use awg2_webui.Transform.Inbound.{transform_inbound}

module _ (c : Config) (buf : List ℕ) (long : 4 ≤ length buf)
    (other : c.h4_noop ≡ true → read32_le buf ≢ 4) where
  pub takes_init :
      length buf ≡ c.init_total
      → hrange_contains c.h1 (read32_le (drop c.s1 buf)) ≡ true
      → transform_inbound c buf ≡ some (seal_init c.mac1key_in (write32_le (drop c.s1 buf) 1))
  unfolding transform_inbound
  takes_init e h = ground arith

  pub takes_response :
      (length buf ≡ c.init_total → hrange_contains c.h1 (read32_le (drop c.s1 buf)) ≡ false)
      → length buf ≡ c.resp_total
      → hrange_contains c.h2 (read32_le (drop c.s2 buf)) ≡ true
      → transform_inbound c buf ≡ some (seal_response c.mac1key_in (write32_le (drop c.s2 buf) 2))
  unfolding transform_inbound
  takes_response i e h = ground arith

  pub takes_cookie :
      (length buf ≡ c.init_total → hrange_contains c.h1 (read32_le (drop c.s1 buf)) ≡ false)
      → (length buf ≡ c.resp_total → hrange_contains c.h2 (read32_le (drop c.s2 buf)) ≡ false)
      → length buf ≡ c.cookie_total
      → hrange_contains c.h3 (read32_le (drop c.s3 buf)) ≡ true
      → transform_inbound c buf ≡ some (write32_le (drop c.s3 buf) 3)
  unfolding transform_inbound
  takes_cookie i r e h = ground arith

  pub takes_transport :
      (length buf ≡ c.init_total → hrange_contains c.h1 (read32_le (drop c.s1 buf)) ≡ false)
      → (length buf ≡ c.resp_total → hrange_contains c.h2 (read32_le (drop c.s2 buf)) ≡ false)
      → (length buf ≡ c.cookie_total → hrange_contains c.h3 (read32_le (drop c.s3 buf)) ≡ false)
      → c.s4 + 32 ≤ length buf
      → hrange_contains c.h4 (read32_le (drop c.s4 buf)) ≡ true
      → transform_inbound c buf ≡ some (write32_le (drop c.s4 buf) 4)
  unfolding transform_inbound
  takes_transport i r k e h = ground arith
