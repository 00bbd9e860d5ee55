-- ===== src/Cargs/Parser.antt =====
-- `packet`, `param_packet` and the parsing of `parser` of src/cargs.hpp, with neither of the macros
-- that turn an early `return` or `continue` into an exception.
pub mod Rounds
pub mod RoundTrip
use bbench.Base.{
  ℕ, zero, suc, ◌+◌, ◌-◌, ◌==◌, ◌≡◌, Bool, true, false, not, ◌&&◌, ◌||◌, List, [], ◌∷◌, ◌++◌,
  Option, none, some, length, ltb, get_elem?, if◌then◌else◌,
}
use bbench.Base.Text.{CString, Micron, same}
use bbench.Cargs.Text.{flag, param, empty, trim}

-- The enumerators of `Accepts`, in their order.
pub data Accepts : Type 0 where
  czero cvoid cpath cparam coperand ckey cbool cint clong cfloat cdouble cstring : Accepts

abbrev pub rank : Accepts → ℕ
rank czero = 0
rank cvoid = 1
rank cpath = 2
rank cparam = 3
rank coperand = 4
rank ckey = 5
rank cbool = 6
rank cint = 7
rank clong = 8
rank cfloat = 9
rank cdouble = 10
rank cstring = 11

abbrev pub is_accepts : Accepts → Accepts → Bool
is_accepts a b = rank a == rank b

-- The default template arguments.
abbrev pub max_length : ℕ
max_length = 32

abbrev pub max_buffer : ℕ
max_buffer = 127

pub record Packet : Type 0 where
  pub key : CString
  pub data_ : CString
  pub type : Accepts

abbrev pub blank : Packet
blank = record { key = []; data_ = []; type = czero }

-- A registered parameter: `called` says that it has a callback.
pub record ParamPacket : Type 0 where
  pub param_name : Option CString
  pub abbr : Option CString
  pub acc : Accepts
  pub called : Bool

-- micron's `sstring<MAX_BUFFER>`: its `+=` of a byte appends it while there is room.
pub record FixedString : Type 0 where
  pub capacity : ℕ
  pub push : CString → ℕ → CString
  pub push_room : (s : CString) (c : ℕ) → (ltb (length s) capacity ≡ true) → push s c ≡ s ++ c ∷ []
  pub equals : CString → CString → Bool

-- The array of parameters, which holds one without names where none is registered.
abbrev pub padded : List ParamPacket → List ParamPacket
padded [] = record { param_name = none; abbr = none; acc = czero; called = false } ∷ []
padded (n ∷ parameters) = n ∷ parameters

-- What a callback was called with.
pub data Event : Type 0 where
  on_parameter : ParamPacket → Packet → Event
  on_argument : ℕ → Packet → Event

abbrev pub modify : ℕ → (Packet → Packet) → List Packet → List Packet
modify i f [] = []
modify zero f (p ∷ args) = f p ∷ args
modify (suc i) f (p ∷ args) = p ∷ modify i f args

abbrev pub type_of : Option Packet → Accepts
type_of none = czero
type_of (some p) = p.type

module _ ⦃m : Micron⦄ (fs : FixedString) where
  -- `__append_cstr`
  unfoldable pub append_cstr : CString → CString → CString
  append_cstr dst [] = dst
  append_cstr dst (c ∷ src) = append_cstr (fs.push dst c) src

  abbrev pub add_key : CString → Packet → Packet
  add_key s p = record p { key = append_cstr p.key s }

  abbrev pub add_data : CString → Packet → Packet
  add_data s p = record p { data_ = append_cstr p.data_ s }

  abbrev pub set_type : Accepts → Packet → Packet
  set_type a p = record p { type = a }

  -- One round of the loop of `general_parse_np`, at the index `i` of at least 1.
  unfoldable pub round_np : ℕ → CString → List Packet → List Packet
  round_np i arg args =
      let fl = flag arg in
      let pm = not fl && param arg in
      if ltb max_buffer (m.strlen arg)
      then args
      else if not (empty arg) && fl
      then modify i (λ p. set_type ckey (add_key (trim arg) p)) args
      else if not (empty arg) && pm
      then modify i (λ p. set_type cparam (add_key (trim arg) p)) args
      else if is_accepts (type_of (get_elem? args (i - 1))) ckey
      then modify i (set_type czero) (modify (i - 1) (λ p. set_type cstring (add_data arg p)) args)
      else modify i (λ p. set_type coperand (add_data arg p)) args

  unfoldable pub loop_np : ℕ → List CString → List Packet → List Packet
  loop_np i [] args = args
  loop_np i (arg ∷ rest) args = loop_np (i + 1) rest (round_np i arg args)

  abbrev names : Option CString → CString → Bool
  names none key = false
  names (some name) key = fs.equals key name

  unfoldable pub call_parameters : List ParamPacket → Packet → List Event
  call_parameters [] a = []
  call_parameters (n ∷ parameters) a =
      (if (names n.param_name a.key || names n.abbr a.key) && n.called
        then on_parameter n a ∷ []
        else [])
      ++ call_parameters parameters a

  abbrev pub before : List Event → Option (List Event) → Option (List Event)
  before es none = none
  before es (some more) = some (es ++ more)

  -- `callbacks_handler`, from the index `c` on; `none` where it reads behind the last argument.
  -- `global` says that there is a global callback.
  unfoldable pub callbacks_handler : List ParamPacket → Bool → ℕ → List Packet → Option (List Event)
  callbacks_handler parameters global c [] = none
  callbacks_handler parameters global c (a ∷ args) =
      let rest = callbacks_handler parameters global (c + 1) args in
      if is_accepts a.type czero
      then some []
      else before (call_parameters parameters a ++ (if global then on_argument c a ∷ [] else []))
          rest

  -- The arguments behind a parse, and the callbacks.
  pub record ParsedArgs : Type 0 where
    pub args : List Packet
    pub events : Option (List Event)

  abbrev pub finish : List ParamPacket → Bool → List Packet → ParsedArgs
  finish parameters global args = record {
    args = args;
    events = callbacks_handler parameters global 0 args;
  }

  -- `general_parse_np(argc, _args)` on the array `args`.
  unfoldable pub general_parse_np :
      List ParamPacket → Bool → List CString → List Packet → ParsedArgs
  general_parse_np parameters global [] args =
      finish parameters global (modify 0 (set_type cpath) args)
  general_parse_np parameters global (path ∷ []) args = record { args = args; events = some [] }
  general_parse_np parameters global (path ∷ arg ∷ rest) args =
      if ltb max_length (2 + length rest)
      then record { args = args; events = some [] }
      else finish parameters global
          (loop_np 1 (arg ∷ rest) (modify 0 (λ p. set_type cpath (add_key path p)) args))

  -- Where a round of `general_parse` puts an argument, by the first parameter, which ends the loop
  -- over them whatever it is.
  abbrev is_name : Option CString → CString → Bool
  is_name none ch = false
  is_name (some name) ch = same name ch

  unfoldable pub place : List ParamPacket → ℕ → CString → List Packet → List Packet
  place [] i arg args = args
  place (n ∷ parameters) i arg args =
      let ch = trim arg in
      let fl = flag arg in
      let pm = not fl && param arg in
      if is_name n.param_name ch && fl
      then modify i (λ p. set_type ckey (add_key ch p)) args
      else if is_name n.abbr ch && pm
      then modify i (λ p. set_type cparam (add_key ch p)) args
      else modify i (λ p. set_type coperand (add_data arg p)) args

  -- The value behind it, if the parameter takes one.
  unfoldable pub take_value : List ParamPacket → ℕ → List CString → List Packet → List Packet
  take_value [] i rest args = args
  take_value (n ∷ parameters) i [] args = args
  take_value (n ∷ parameters) i (v ∷ rest) args =
      if is_accepts n.acc czero then args else modify i (λ p. set_type n.acc (add_data v p)) args

  unfoldable pub general_loop : List ParamPacket → ℕ → List CString → List Packet → List Packet
  general_loop parameters i [] args = args
  general_loop parameters i (arg ∷ rest) args =
      let placed = take_value parameters i rest (place parameters i arg args) in
      general_loop parameters (i + 1) rest (if ltb max_buffer (m.strlen arg) then args else placed)

  -- `general_parse(argc, _args)`
  unfoldable pub general_parse : List ParamPacket → Bool → List CString → List Packet → ParsedArgs
  general_parse parameters global [] args =
      finish parameters global (modify 0 (set_type cpath) args)
  general_parse parameters global (path ∷ []) args = record { args = args; events = some [] }
  general_parse parameters global (path ∷ arg ∷ rest) args =
      if ltb max_length (2 + length rest)
      then record { args = args; events = some [] }
      else finish parameters global (
          general_loop (padded parameters) 1 (arg ∷ rest)
            (modify 0 (λ p. set_type cpath (add_key path p)) args))
