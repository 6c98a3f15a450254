-- ===== src/Proxy/Concurrent/Options.antt =====
-- What the options come to.
use ece.Prelude.{
  ◌∙◌, append-nil, sym, ap, Bool, true, false, List, [], ◌∷◌, ◌++◌, ◌||◌, All, ◌≡◌, refl,
}
use ece.Sys.{Stop, Trace, value, stop}
use ece.Proxy.Concurrent.{Opt, parse_options}

-- The options that the usage text should name.
abbrev pub Known : Opt → Type 0
Known Opt.process = Unit
Known Opt.thread = Unit
Known Opt.unknown = ⊥
Known Opt.other = ⊥

-- `-t` or `--thread` is among the options.
abbrev pub asks_thread : List Opt → Bool
asks_thread [] = false
asks_thread (Opt.thread ∷ opts) = true
asks_thread (o ∷ opts) = asks_thread opts

parse_options-append :
    (opts rest : List Opt) (thread_flag : Bool) (t : Trace)
    → All Known opts
    → parse_options (opts ++ rest) thread_flag t
      ≡ parse_options rest (thread_flag || asks_thread opts) t
unfolding parse_options
parse_options-append [] rest true t h = refl
parse_options-append [] rest false t h = refl
parse_options-append (Opt.process ∷ opts) rest thread_flag t h =
    parse_options-append opts rest thread_flag t h.1
parse_options-append (Opt.thread ∷ opts) rest true t h = parse_options-append opts rest true t h.1
parse_options-append (Opt.thread ∷ opts) rest false t h = parse_options-append opts rest true t h.1
parse_options-append (Opt.unknown ∷ opts) rest thread_flag t h = absurd h.0
parse_options-append (Opt.other ∷ opts) rest thread_flag t h = absurd h.0

-- Known options switch to the threads if `-t` or `--thread` is among them, wherever it stands, and do
-- nothing else; the first option that is not known ends the run, with status 1 or by `abort`, before
-- any system call is made.
pub parse_options-flag :
    (opts rest : List Opt) (thread_flag : Bool) (t : Trace)
    → All Known opts
    → (parse_options opts thread_flag t ≡ (value (thread_flag || asks_thread opts), t))
      × (parse_options (opts ++ Opt.unknown ∷ rest) thread_flag t ≡ (stop (Stop.exited 1), t))
      × (parse_options (opts ++ Opt.other ∷ rest) thread_flag t ≡ (stop Stop.aborted, t))
unfolding parse_options
parse_options-flag opts rest thread_flag t h = (
  ap (λ o. parse_options o thread_flag t) (sym (append-nil opts))
      ∙ parse_options-append opts [] thread_flag t h,
  parse_options-append opts (Opt.unknown ∷ rest) thread_flag t h,
  parse_options-append opts (Opt.other ∷ rest) thread_flag t h,
)
