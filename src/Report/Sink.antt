-- ===== src/Report/Sink.antt =====
-- `sink` of src/format.hpp. A report is the list of the items that it emits; `emit_items` sends them.
pub mod Balance
use bbench.Base.{ℕ, ◌-◌, Bool, true, false, not, ◌&&◌, List, [], ◌∷◌, ◌++◌, length, if◌then◌else◌}
use bbench.Base.Int.{ℤ, pos, negsuc, is_negative, ◌==ℤ◌}
use bbench.Base.Float.{Float}
use bbench.Base.Text.{CString, codes}
use bbench.Perf.Sys.{Os, World, open_file, close, write, syscall}

-- `emit(s)`, `emit(s, n)` for an `n` beyond the string, `emit_int`, `emit_double` and `newline`.
pub data Item (fl : Float) : Type 0 where
  text : CString → Item fl
  sized : CString → ℕ → Item fl
  int : ℤ → Item fl
  double : fl.Double → Item fl
  newline : Item fl

-- How micron writes numbers, and the bytes that stand in memory behind a string.
pub record Printer (fl : Float) : Type 0 where
  pub fmt_int : ℤ → CString
  pub d2s : fl.Double → CString
  pub beyond : CString → ℕ → CString

pub record Sink : Type 0 where
  pub fd : ℤ
  pub owned : Bool

abbrev pub stdout_sink : Sink
stdout_sink = record { fd = pos 1; owned = false }

abbrev pub stderr_sink : Sink
stderr_sink = record { fd = pos 2; owned = false }

module _ (os : Os) where
  unfoldable pub file_sink : CString → World → Sink × World
  file_sink path w =
      let (f, w1) = syscall os (open_file path) w in (record { fd = f; owned = true }, w1)

  -- The destructor.
  unfoldable pub close_sink : Sink → World → World
  close_sink out w =
      if out.owned && not (out.fd ==ℤ negsuc 0) then (syscall os (close out.fd) w).1 else w

  -- `emit` of the bytes.
  unfoldable pub emit : Sink → CString → World → World
  emit out bytes w = if is_negative out.fd then w else (syscall os (write out.fd bytes) w).1

module _ {fl : Float} (pr : Printer fl) where
  unfoldable pub bytes_of : Item fl → CString
  bytes_of (text s) = s
  bytes_of (sized s n) = s ++ pr.beyond s (n - length s)
  bytes_of (int v) = pr.fmt_int v
  bytes_of (double v) = pr.d2s v
  bytes_of newline = codes "\n"

  unfoldable pub emit_items : Os → Sink → List (Item fl) → World → World
  emit_items os out [] w = w
  emit_items os out (i ∷ items) w = emit_items os out items (emit os out (bytes_of i) w)
