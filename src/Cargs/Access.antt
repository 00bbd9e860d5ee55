-- ===== src/Cargs/Access.antt =====
-- What a `parser` of src/cargs.hpp tells of the arguments that it has parsed.
pub mod Items
use bbench.Base.{
  Bool, true, false, ◌||◌, List, [], ◌∷◌, ◌++◌, Option, none, some, leb, if◌then◌else◌,
}
use bbench.Base.Int.{ℤ}
use bbench.Base.Float.{Float}
use bbench.Base.Text.{CString, Micron, same}
use bbench.Cli.Number.{IntResult, refused, value, overflow}
use bbench.Cargs.Text.{to_i64_text, to_f64_text}
use bbench.Cargs.Parser.{Accepts, cparam, coperand, ckey, rank, is_accepts, Packet}

-- `micron::any<long, long long, double, bool>`; `undefined` is an overflow of the conversion.
pub data Number (fl : Float) : Type 0 where
  long : ℤ → Number fl
  long_long : ℤ → Number fl
  double : fl.Double → Number fl
  bool : Bool → Number fl
  undefined : Number fl

module _ (fl : Float) where
  abbrev of_long : (ℤ → Number fl) → IntResult → Number fl
  of_long kind refused = undefined
  of_long kind overflow = undefined
  of_long kind (value v) = kind v

  abbrev of_double : Option fl.Double → Number fl
  of_double none = undefined
  of_double (some x) = double x

  -- `to_number`
  unfoldable pub to_number : Option CString → Accepts → Number fl
  to_number str Accepts.cint = of_long long (to_i64_text str)
  to_number str Accepts.clong = of_long long_long (to_i64_text str)
  to_number str Accepts.cfloat = of_double (to_f64_text fl str)
  to_number str Accepts.cdouble = of_double (to_f64_text fl str)
  to_number str _ = bool false

-- A loop that collects from the arguments that a test accepts.
unfoldable pub collect_from : (Packet → Bool) → (Packet → CString) → List Packet → List CString
collect_from test field [] = []
collect_from test field (n ∷ args) =
    (if test n then field n ∷ [] else []) ++ collect_from test field args

abbrev pub list : List Packet → List CString
list args = collect_from (λ n. leb (rank ckey) (rank n.type)) (λ n. n.key) args

abbrev pub data_list : List Packet → List CString
data_list args = collect_from (λ n. leb (rank ckey) (rank n.type)) (λ n. n.data_) args

abbrev pub params : List Packet → List CString
params args = collect_from (λ n. is_accepts n.type cparam) (λ n. n.key) args

abbrev pub operands : List Packet → List CString
operands args = collect_from (λ n. is_accepts n.type coperand) (λ n. n.data_) args

module _ ⦃m : Micron⦄ where
  -- The first argument with that key.
  unfoldable pub find_key : CString → List Packet → Option Packet
  find_key str [] = none
  find_key str (n ∷ args) = let rest = find_key str args in if same str n.key then some n else rest

  abbrev pub number_of : (fl : Float) → Option Packet → Number fl
  number_of fl none = bool false
  number_of fl (some n) = to_number fl (some n.data_) n.type

  -- `get(str)`
  unfoldable pub get_number : (fl : Float) → CString → List Packet → Number fl
  get_number fl str args = number_of fl (find_key str args)

  abbrev pub data_of : Option Packet → CString
  data_of none = []
  data_of (some n) = n.data_

  abbrev pub is_some : Option Packet → Bool
  is_some none = false
  is_some (some n) = true

  -- `operator()(str)`
  unfoldable pub get_text : CString → List Packet → CString
  get_text str args = data_of (find_key str args)

  -- `operator[](str)`
  unfoldable pub exists : CString → List Packet → Bool
  exists str args = is_some (find_key str args)

  -- `operator[](list)`
  unfoldable pub any_of : List CString → Packet → Bool
  any_of [] n = false
  any_of (c ∷ cs) n = same c n.key || any_of cs n

  unfoldable pub any_exists : List CString → List Packet → Bool
  any_exists names [] = false
  any_exists names (n ∷ args) = any_of names n || any_exists names args
