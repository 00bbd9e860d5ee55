-- ===== src/Tests/Cargs.antt =====
-- The parser of src/cargs.hpp on a command line, and a stopwatch.
use bbench.Base.{◌≡◌, refl, ap, Bool, true, false, List, [], ◌∷◌, ◌++◌, some, leb, arith}
use bbench.Base.Int.{neg, pos}
use bbench.Base.Text.{CString, codes, equal_bytes, plain_strings}
use bbench.Perf.Sys.{World, monotonic, syscall}
use bbench.Perf.SystemClock.{zeroed_clock, start_clock, stop_clock, get_time}
use bbench.Process.{Outcome, ok, thrown, left, hung}
use bbench.Bench.Run.{and_then}
use bbench.Clock.Stopwatch.{Stopwatch, Conversions, begin_watch, lap, time_call, elapsed_watch}
use bbench.Clock.Stopwatch.Laps.{
  Use, begin, take_lap, call, use_all, last_of, until, elapsed_watch-use_all,
}
use bbench.Tests.Machine.{plain_float, plain_os}
use bbench.Cargs.Text.Integers.{to_i64_text-parse_int}
use bbench.Cli.Number.{
  IntResult, refused, value, overflow, digit_loop, is_digit, parse_int, skip_spaces, read_sign,
  read_digits,
}
use bbench.Cargs.Text.{
  skip_blanks, take_sign, to_i64_text, number, param, empty, flag, flag_loop, trim,
}
use bbench.Cargs.Text.Dashes.{dash_run, flag-trim}
use bbench.Cargs.Parser.{blank, FixedString, cpath, general_parse_np}
use bbench.Cargs.Parser.Rounds.{Argument, pair, switch, word, render, packets, blanks}
use bbench.Cargs.Parser.RoundTrip.{general_parse_np-render}
use bbench.Cargs.Access.{list, data_list, params, operands, get_text}
use bbench.Cargs.Access.Items.{keys, values, switches, words, value_of, list-render}

abbrev is_refused : IntResult → Bool
is_refused refused = true
is_refused (value z) = false
is_refused overflow = false

abbrev plain_fixed : FixedString
plain_fixed = record {
  capacity = 126;
  push = λ s c. s ++ c ∷ [];
  push_room = λ s c h. refl;
  equals = equal_bytes;
}

texts :
    (to_i64_text (some (codes " -12x")) ≡ value (neg 12))
    × (number (codes "1.5") ≡ true)
    × (trim (codes "--key") ≡ codes "key")
    × (flag (codes "2024-01-02") ≡ true)
unfolding to_i64_text skip_blanks take_sign digit_loop is_digit number trim flag flag_loop
texts = (refl, refl, refl, refl)

-- A date reads as a key, for its dashes.
flag-trim_example :
    (flag (codes "2024-01-02") ≡ leb 2 2)
    × ((n : _) × (codes "2024-01-02" ≡ dash_run n ++ trim (codes "2024-01-02")))
    × (param (trim (codes "2024-01-02")) ≡ false)
flag-trim_example = flag-trim (codes "2024-01-02")

abbrev items : List Argument
items = word (codes "x") ∷ switch (codes "v") ∷ []

abbrev line : List CString
line = render (pair (codes "out") (codes "f") ∷ items)

general_parse_np-render_example :
    (general_parse_np plain_fixed [] false (codes "prog" ∷ line) (blank ∷ blanks line [])).args
    ≡ record { key = codes "prog"; data_ = []; type = cpath }
      ∷ (packets (pair (codes "out") (codes "f") ∷ items) ++ [])
unfolding empty param
general_parse_np-render_example =
    general_parse_np-render plain_fixed [] false (codes "prog") (pair (codes "out") (codes "f"))
      items [] (omega arith)
      (
        ((refl, refl, omega arith, omega arith), (omega arith, refl, omega arith, omega arith)),
        (
          (omega arith, refl, omega arith, omega arith),
          ((refl, refl, omega arith, omega arith), tt),
        ),
      )
      (omega arith)

list-render_example :
    let args =
      (general_parse_np plain_fixed [] false (codes "prog" ∷ line) (blank ∷ blanks line [])).args in
    (list args ≡ keys (pair (codes "out") (codes "f") ∷ items))
    × (data_list args ≡ values (pair (codes "out") (codes "f") ∷ items))
    × (params args ≡ switches (pair (codes "out") (codes "f") ∷ items))
    × (operands args ≡ words (pair (codes "out") (codes "f") ∷ items))
    × (get_text (codes "out") args
        ≡ value_of (codes "out") (pair (codes "out") (codes "f") ∷ items))
unfolding empty param
list-render_example =
    list-render plain_fixed [] false (codes "prog") (pair (codes "out") (codes "f")) items []
      (codes "out") (omega arith)
      (
        ((refl, refl, omega arith, omega arith), (omega arith, refl, omega arith, omega arith)),
        (
          (omega arith, refl, omega arith, omega arith),
          ((refl, refl, omega arith, omega arith), tt),
        ),
      )
      (omega arith) tt (λ e. cc) (λ e. cc)

not_refused : is_refused (parse_int (codes "  -42x")) ≡ false
unfolding parse_int skip_spaces read_sign read_digits digit_loop is_digit
not_refused = refl

to_i64_text-parse_int_example : to_i64_text (some (codes "  -42x")) ≡ parse_int (codes "  -42x")
to_i64_text-parse_int_example =
    to_i64_text-parse_int (codes "  -42x") (refl, (refl, (refl, (refl, (refl, (refl, tt))))))
      (λ e. let q = not_refused in cc)

abbrev fresh_watch : Stopwatch
fresh_watch = record {
  clock = zeroed_clock;
  start_time = record { tv_sec = pos 0; tv_nsec = pos 0 };
  last = record { tv_sec = pos 0; tv_nsec = pos 0 };
  laps = [];
}

abbrev conversions : Conversions plain_float
conversions = record { to_ms = λ x. x; to_us = λ x. x; to_ns = λ x. x }

abbrev uses : List (Use plain_float)
uses = begin ∷ take_lap ∷ call (λ w. w) ∷ take_lap ∷ []

abbrev used : Outcome Stopwatch × World
used = use_all plain_float plain_os monotonic uses fresh_watch (record { log = []; errno = pos 0 })

abbrev behind : Outcome Stopwatch → Stopwatch
behind (ok s) = s
behind (thrown e) = fresh_watch
behind left = fresh_watch
behind hung = fresh_watch

used_ok : used.0 ≡ ok (behind used.0)
unfolding begin_watch lap time_call and_then start_clock stop_clock get_time syscall
used_ok = refl

elapsed_watch-use_all_example :
    elapsed_watch plain_float conversions (behind used.0)
    ≡ until plain_float conversions (behind used.0).start_time (last_of (behind used.0).laps)
elapsed_watch-use_all_example =
    elapsed_watch-use_all plain_float conversions plain_os monotonic uses fresh_watch
      (behind used.0) (record { log = []; errno = pos 0 }) used.1 refl
      (ap (λ (o : Outcome Stopwatch). (o, used.1)) used_ok)
