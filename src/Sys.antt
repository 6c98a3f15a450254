-- ===== src/Sys.antt =====
-- System calls of the proxies. The kernel is a parameter: each of its replies may depend on all that
-- the program did before. A run returns its outcome and the trace of its calls.
pub mod After
pub mod Balance
use ece.Prelude.{
  ℕ, zero, suc, ◌+◌, ◌^◌, ◌≡◌, Bool, true, false, Option, none, some, List, [], ◌∷◌, ◌++◌, Bytes,
  ◌==◌, if◌then◌else◌, length, take,
}

-- The calls made, with what the kernel replied. `huge_write` is `write(fd, buf, -1)`: its count is
-- above SSIZE_MAX, and no byte of `buf` is meant.
pub data Event : Type 0 where
  read : (fd : ℕ) → Option Bytes → Event
  write : (fd : ℕ) → Bytes → Bool → Event
  huge_write : (fd : ℕ) → Event
  opened : (fd : ℕ) → Event
  connect : (fd addr : ℕ) → Bool → Event
  close : (fd : ℕ) → Event
  resolve : (host service : Bytes) → Option ℕ → Event
  free : (addr : ℕ) → Event
  lock_mutex : Event
  unlock_mutex : Event
  lock_file : (fd : ℕ) → Event
  unlock_file : (fd : ℕ) → Event
  bound : (fd port : ℕ) → Event
  seek_end : (fd : ℕ) → Event
  poll : Event
  reaped : Event
  spawned : Event
  -- `printf`, and `perror` with the text that it is given
  print : Bytes → Event
  perror : Bytes → Event

-- Newest first.
abbrev pub Trace : Type 0
Trace = List Event

pub data PollReply : Type 0 where
  failed : PollReply
  timed_out : PollReply
  -- `revents` of the two entries
  ready : (client_events server_events : ℕ) → PollReply

-- What `fork` returns: -1, 0 in the child, the child's number in the parent.
pub data ForkReply : Type 0 where
  no_fork : ForkReply
  in_child : ForkReply
  in_parent : ForkReply

-- `accept` gives the descriptor and the address of the client. `beyond` is the memory behind the array `response` on the stack, up to the first NUL in it.
pub record Kernel : Type 0 where
  pub read : Trace → ℕ → ℕ → Option Bytes
  pub write : Trace → ℕ → Bytes → Bool
  pub getaddrinfo : Trace → Bytes → Bytes → Option ℕ
  pub socket : Trace → ℕ → Option ℕ
  pub connect : Trace → ℕ → ℕ → Bool
  pub open_file : Trace → Bytes → Option ℕ
  pub poll : Trace → PollReply
  pub server_socket : Trace → Option ℕ
  pub bind : Trace → ℕ → ℕ → Bool
  pub listen : Trace → ℕ → Bool
  pub accept : Trace → Option (ℕ × ℕ)
  pub waitpid : Trace → Bool
  pub fork : Trace → ForkReply
  pub time_str : Trace → Bytes
  pub beyond : Trace → Bytes

-- How a function ends before its last statement: it returns, it exits or aborts, it does something
-- that C leaves undefined, or it is still in a loop when the fuel of the model is spent.
pub data Stop : Type 0 where
  returned : Stop
  exited : ℕ → Stop
  aborted : Stop
  undefined : Stop
  running : Stop

pub data Out (A : Type 0) : Type 0 where
  value : A → Out A
  stop : Stop → Out A

abbrev pub M : Type 0 → Type 0
M A = Trace → Out A × Trace

abbrev pub pure : {A : Type 0} → A → M A
pure a t = (value a, t)

abbrev pub halt : {A : Type 0} → Stop → M A
halt s t = (stop s, t)

abbrev pub continue : {A B : Type 0} → Out A × Trace → (A → M B) → Out B × Trace
continue (value a, t) f = f a t
continue (stop s, t) f = (stop s, t)

infixl 5 ◌>>=◌ ◌>>◌
abbrev pub ◌>>=◌ : {A B : Type 0} → M A → (A → M B) → M B
◌>>=◌ m f t = continue (m t) f

abbrev pub ◌>>◌ : {B : Type 0} → M (Unit {0}) → M B → M B
m >> k = m >>= λ _. k

abbrev pub emit : Event → M (Unit {0})
emit e t = (value tt, e ∷ t)

-- The value, or what is done where there is none.
abbrev pub require : {A : Type 0} → Option A → M A → M A
require (some a) m = pure a
require none m = m

abbrev pub when : Bool → M (Unit {0}) → M (Unit {0})
when true m = m
when false m = pure tt

abbrev pub log_opened : Option ℕ → M (Option ℕ)
log_opened (some fd) t = (value (some fd), Event.opened fd ∷ t)
log_opened none t = (value none, t)

abbrev pub log_accepted : Option (ℕ × ℕ) → M (Option (ℕ × ℕ))
log_accepted (some (fd, s_addr)) t = (value (some (fd, s_addr)), Event.opened fd ∷ t)
log_accepted none t = (value none, t)

module _ (k : Kernel) where
  abbrev pub sys_read : ℕ → ℕ → M (Option Bytes)
  sys_read fd n t = let r = k.read t fd n in (value r, Event.read fd r ∷ t)

  abbrev pub sys_write : ℕ → Bytes → M Bool
  sys_write fd bytes t = let r = k.write t fd bytes in (value r, Event.write fd bytes r ∷ t)

  abbrev pub sys_getaddrinfo : Bytes → Bytes → M (Option ℕ)
  sys_getaddrinfo host service t =
      let r = k.getaddrinfo t host service in (value r, Event.resolve host service r ∷ t)

  abbrev pub sys_socket : ℕ → M (Option ℕ)
  sys_socket addr t = log_opened (k.socket t addr) t

  abbrev pub sys_connect : ℕ → ℕ → M Bool
  sys_connect fd addr t = let r = k.connect t fd addr in (value r, Event.connect fd addr r ∷ t)

  abbrev pub sys_open : Bytes → M (Option ℕ)
  sys_open path t = log_opened (k.open_file t path) t

  abbrev pub sys_accept : M (Option (ℕ × ℕ))
  sys_accept t = log_accepted (k.accept t) t

  abbrev pub sys_server_socket : M (Option ℕ)
  sys_server_socket t = log_opened (k.server_socket t) t

  abbrev pub sys_poll : M PollReply
  sys_poll t = let r = k.poll t in (value r, Event.poll ∷ t)

  -- `write(fd, buffer, n)` with the count that a `read` into `buffer` returned.
  abbrev pub write_back : ℕ → Option Bytes → M (Unit {0})
  write_back fd none = emit (Event.huge_write fd)
  write_back fd (some bytes) = do r ← sys_write fd bytes; pure tt

abbrev pub sys_close : ℕ → M (Unit {0})
sys_close fd = emit (Event.close fd)

-- The calls of `close` on several descriptors, in order.
abbrev pub closed : List ℕ → Trace → Trace
closed [] t = t
closed (fd ∷ fds) t = closed fds (Event.close fd ∷ t)

-- What was offered to `write` for a descriptor, in order.
abbrev pub sent : ℕ → Trace → Bytes
sent fd [] = []
sent fd (Event.write d bytes ok ∷ t) = if d == fd then sent fd t ++ bytes else sent fd t
sent fd (e ∷ t) = sent fd t

-- What `read` returned from a descriptor, in order.
abbrev pub received : ℕ → Trace → Bytes
received fd [] = []
received fd (Event.read d (some bytes) ∷ t) =
    if d == fd then received fd t ++ bytes else received fd t
received fd (e ∷ t) = received fd t

-- The descriptors closed, and those handed out, each counted with a weight: with 1 for one number
-- and 0 for the others, the calls for that number; with 1 throughout, all calls.
abbrev pub closes : (ℕ → ℕ) → Trace → ℕ
closes w [] = 0
closes w (Event.close fd ∷ t) = w fd + closes w t
closes w (e ∷ t) = closes w t

abbrev pub opens : (ℕ → ℕ) → Trace → ℕ
opens w [] = 0
opens w (Event.opened fd ∷ t) = w fd + opens w t
opens w (e ∷ t) = opens w t

-- The descriptor of the latest connection to a server that was made.
abbrev pub connected : Trace → Option ℕ
connected [] = none
connected (Event.connect fd addr true ∷ t) = some fd
connected (e ∷ t) = connected t
