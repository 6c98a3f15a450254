-- ===== src/Proxy/Relay/Read.antt =====
-- What passing a response on comes to: the bytes that were read and sent, and how far it was read.
use ece.Prelude.{
  minus_one, ◌%◌, ℕ, ◌^◌, ◌≡◌, ◌≢◌, ◌⊎◌, Option, some, none, [], ◌∷◌, ◌++◌, Bytes, length,
  append_assoc,
}
use ece.CString.{c_string}
use ece.Sys.{Event, Kernel, Stop, Trace, sent, received}
use ece.Proxy.Relay.{response_size, plan_rest}

-- Between `t` and `t'` the bytes of `x` came from the server, and just they went to the client.
abbrev pub Passed : ℕ → ℕ → Trace → Trace → Bytes → Type 0
Passed client_fd server_fd t t' x =
    (sent client_fd t' ≡ sent client_fd t ++ x)
    × (received server_fd t' ≡ received server_fd t ++ x)

pub Passed-trans :
    (c s : ℕ) (t u v : Trace) (x y : Bytes)
    → Passed c s t u x
    → Passed c s u v y
    → Passed c s t v (x ++ y)
Passed-trans c s t u v x y (p, q) (p', q') =
    (rw (p', p) (append_assoc _ x y), rw (q', q) (append_assoc _ x y))

-- The last call was a `read` that brought nothing: the end of the data, or an error.
abbrev pub NoBytes : Option Bytes → Type 0
NoBytes none = Unit
NoBytes (some []) = Unit
NoBytes (some (b ∷ bs)) = ⊥

abbrev pub AtEnd : ℕ → Trace → Type 0
AtEnd server_fd t = (u : Trace) × (r : Option Bytes) × (t ≡ Event.read server_fd r ∷ u) × NoBytes r

-- One `read` and the `write` of its bytes.
abbrev pub copied : Kernel → ℕ → ℕ → Bytes → Trace → Trace
copied k client_fd server_fd x t =
    let u = Event.read server_fd (some x) ∷ t in Event.write client_fd x (k.write u client_fd x) ∷ u

abbrev pub Unfinished : Stop → Trace → Type 0
Unfinished s t = (s ≡ Stop.undefined) ⊎ (s ≡ Stop.running)

module _ (k : Kernel) (client_fd server_fd : ℕ) where
  -- What the text in the array says of the rest, behind a first read of `y`.
  abbrev pub planned : Bytes → Trace → Option (Option ℕ)
  planned y t = plan_rest (c_string (y ++ k.beyond (copied k client_fd server_fd y t)))

  -- After a first read that filled the array: without a length, all was read up to the end of the data;
  -- with one, the rest was read by one `read`, which may have brought less, or have failed.
  abbrev pub RestRead : Trace → Bytes → Bytes → ℕ → Trace → Type 0
  RestRead t y x total t' =
      ((planned y t ≡ some none) × (total ≡ length x % 2 ^ 32) × AtEnd server_fd t')
      ⊎ ((n : ℕ) × (planned y t ≡ some (some n))
          × (((z : Bytes) × (k.read (copied k client_fd server_fd y t) server_fd n ≡ some z)
                × (x ≡ y ++ z)
                × (total ≡ length x % 2 ^ 32))
              ⊎ ((k.read (copied k client_fd server_fd y t) server_fd n ≡ none)
                  × (x ≡ y)
                  × (total ≡ 1023))))

  -- How much of the response was read: nothing, as the first `read` failed; what it brought, if it did
  -- not fill the array; or that and the rest.
  abbrev pub AllRead : Trace → Bytes → ℕ → Trace → Type 0
  AllRead t x total t' =
      ((k.read t server_fd response_size ≡ none) × (x ≡ []) × (total ≡ minus_one))
      ⊎ ((y : Bytes) × (k.read t server_fd response_size ≡ some y)
          × (((length y ≢ response_size) × (x ≡ y) × (total ≡ length x % 2 ^ 32))
              ⊎ ((length y ≡ response_size) × RestRead t y x total t')))
