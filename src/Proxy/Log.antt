-- ===== src/Proxy/Log.antt =====
-- `format_log_entry` and `format_connect_entry`.
pub mod Dotted
use ece.Prelude.{ℕ, ◌+◌, ◌*◌, ◌/◌, ◌%◌, ◌^◌, ◌∷◌, ◌++◌, Bytes, codes, signed32, pos, ◌≡◌, refl}
use ece.CString.Decimal.{show_int}

-- `ntohl` on a little-endian machine: the four bytes in the other order.
unfoldable pub ntohl : ℕ → ℕ
ntohl w = w % 256 * 2 ^ 24 + w / 2 ^ 8 % 256 * 2 ^ 16 + w / 2 ^ 16 % 256 * 2 ^ 8 + w / 2 ^ 24 % 256

-- `a`, `b`, `c` and `d`, which are `unsigned char`.
pub record Quad : Type 0 where
  pub a : ℕ
  pub b : ℕ
  pub c : ℕ
  pub d : ℕ

unfoldable pub quad_of : ℕ → Quad
unfolding ntohl
quad_of s_addr =
    let host = ntohl s_addr in
    record {
      a = host / 2 ^ 24 % 256;
      b = host / 2 ^ 16 % 256;
      c = host / 2 ^ 8 % 256;
      d = host % 256;
    }

-- `%d.%d.%d.%d`.
unfoldable pub show_quad : Quad → Bytes
show_quad q =
    show_int (pos q.a)
    ++ (b'.' ∷ show_int (pos q.b) ++ (b'.' ∷ show_int (pos q.c) ++ (b'.' ∷ show_int (pos q.d))))

-- The entry of a GET request. `size` is an `int` pattern.
unfoldable pub format_log_entry : Bytes → ℕ → Bytes → ℕ → Bytes
unfolding quad_of show_quad
format_log_entry time_str s_addr uri size =
    time_str
    ++ (codes ": "
        ++ (show_quad (quad_of s_addr)
            ++ (b' ' ∷ uri ++ (b' ' ∷ show_int (signed32 size) ++ codes "\n"))))

-- The entry of a CONNECT request. The parameters are `int`: of a `long` the low 32 bits arrive.
unfoldable pub format_connect_entry : Bytes → ℕ → Bytes → ℕ → ℕ → Bytes
unfolding quad_of show_quad
format_connect_entry time_str s_addr uri sent recv =
    time_str
    ++ (codes " CONNECT from "
        ++ (show_quad (quad_of s_addr)
            ++ (codes " to "
                ++ (uri
                    ++ (codes ", Data Transferred "
                        ++ (show_int (signed32 (sent % 2 ^ 32))
                            ++ (b'/' ∷ show_int (signed32 (recv % 2 ^ 32)) ++ codes "\n")))))))

-- `malloc(1024)`, with the terminator of the entry.
abbrev pub logstring_size : ℕ
logstring_size = 1024

sample_entry : format_log_entry (codes "T") 0x0100007f (codes "u") 5 ≡ codes "T: 127.0.0.1 u 5\n"
unfolding format_log_entry show_int
sample_entry = refl
