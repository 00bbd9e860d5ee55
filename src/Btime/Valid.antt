-- ===== src/Btime/Valid.antt =====
-- What the argument loop of tools/btime.cpp accepts.
use bbench.Base.{◌<◌, ◌≡◌, refl, false, inl, inr, Bool-cases, List, [], ◌∷◌, arith}
use bbench.Base.Text.{CString, Micron}
use bbench.Cli.Number.{IntResult, refused, value, overflow, parse_int_btime}
use bbench.Cli.Number.Range.{FitsResult, parse_int_btime-FitsResult}
use bbench.Cli.Argv.{is_dashed, below_one}
use bbench.Cli.Argv.Valid.{to_u64_pos}
use bbench.Btime.{
  Settings, default_settings, Choice, show_usage, overflowed, chosen, Switch, repeat, separator,
  silent, help, unknown, binary, switch_of, on_runs, on_single, on_pair, arguments_loop,
}

-- At least one run, of a program whose name does not look like a flag.
abbrev pub IsSaneChoice : Choice → Type 0
IsSaneChoice (show_usage code) = Unit
IsSaneChoice overflowed = Unit
IsSaneChoice (chosen s program) = (0 < s.n_runs) × (is_dashed program ≡ false)

-- The loop from some settings on.
abbrev IsSaneNext : (Settings → Choice) → Type 0
IsSaneNext next = (s : Settings) → 0 < s.n_runs → IsSaneChoice (next s)

on_runs-IsSane :
    (s : Settings) (r : IntResult) (next : Settings → Choice)
    → FitsResult r
    → IsSaneNext next
    → IsSaneChoice (on_runs s r next)
on_runs-IsSane s refused next fits n = tt
on_runs-IsSane s overflow next fits n = tt
on_runs-IsSane s (value z) next fits n = elim (Bool-cases (below_one z)) [
  | inl low ↦ rw low tt
  | inr some_ ↦ rw some_ (n _ (to_u64_pos z fits some_))
]

module _ (a : CString) (s : Settings) (h : 0 < s.n_runs) (next : Settings → Choice)
    (n : IsSaneNext next) where
  on_single-IsSane :
      (sw : Switch) → (sw ≡ binary → is_dashed a ≡ false) → IsSaneChoice (on_single sw a s next)
  on_single-IsSane repeat plain = tt
  on_single-IsSane separator plain = tt
  on_single-IsSane silent plain = n _ h
  on_single-IsSane help plain = tt
  on_single-IsSane unknown plain = tt
  on_single-IsSane binary plain = (h, plain refl)

  on_pair-IsSane :
      (sw : Switch) (v : CString) (skip : Settings → Choice)
      → IsSaneNext skip
      → (sw ≡ binary → is_dashed a ≡ false)
      → IsSaneChoice (on_pair sw a v s next skip)
  on_pair-IsSane repeat v skip k plain =
      on_runs-IsSane s (parse_int_btime v) skip (parse_int_btime-FitsResult v) k
  on_pair-IsSane separator v skip k plain = k _ h
  on_pair-IsSane silent v skip k plain = on_single-IsSane silent plain
  on_pair-IsSane help v skip k plain = on_single-IsSane help plain
  on_pair-IsSane unknown v skip k plain = on_single-IsSane unknown plain
  on_pair-IsSane binary v skip k plain = on_single-IsSane binary plain

module _ ⦃m : Micron⦄ where
  -- The last branch takes only what does not look like a flag.
  switch_of-binary : (a : CString) → switch_of a ≡ binary → is_dashed a ≡ false
  unfolding switch_of
  switch_of-binary a h = ground arith

  arguments_loop-IsSaneNext : (args : List CString) → IsSaneNext (arguments_loop args)
  unfolding arguments_loop
  arguments_loop-IsSaneNext [] s h = tt
  arguments_loop-IsSaneNext (a ∷ []) s h =
      on_single-IsSane a s h (arguments_loop []) (arguments_loop-IsSaneNext []) (switch_of a)
        (switch_of-binary a)
  arguments_loop-IsSaneNext (a ∷ v ∷ rest) s h =
      on_pair-IsSane a s h (arguments_loop (v ∷ rest)) (arguments_loop-IsSaneNext (v ∷ rest))
        (switch_of a) v (arguments_loop rest) (arguments_loop-IsSaneNext rest) (switch_of-binary a)

  -- Whatever the arguments of btime: where they choose a program to measure, at least one run is
  -- asked for, and the name of the program does not look like a flag.
  pub arguments_loop-IsSane :
      (args : List CString) (s : Settings) (program : CString)
      → arguments_loop args default_settings ≡ chosen s program
      → (0 < s.n_runs) × (is_dashed program ≡ false)
  arguments_loop-IsSane args s program h =
      rw h at (arguments_loop-IsSaneNext args default_settings (omega arith))
