-- ===== src/Proxy/Log/Dotted.antt =====
-- The dotted form of an address.
use ece.Prelude.{ℕ, ◌+◌, ◌*◌, ◌/◌, ◌%◌, ◌^◌, ◌<◌, ◌≡◌, arith}
use ece.Proxy.Log.{quad_of}

-- `a`, `b`, `c` and `d` are the bytes of the address in the order of memory, which is network order,
-- and the address can be told from them.
pub quad_of-memory :
    (s_addr : ℕ)
    → s_addr < 2 ^ 32
    → ((quad_of s_addr).a ≡ s_addr % 256)
      × ((quad_of s_addr).d ≡ s_addr / 2 ^ 24)
      × ((quad_of s_addr).a
            + (quad_of s_addr).b * 2 ^ 8
            + (quad_of s_addr).c * 2 ^ 16
            + (quad_of s_addr).d * 2 ^ 24
          ≡ s_addr)
unfolding quad_of
quad_of-memory s_addr h = omega arith
