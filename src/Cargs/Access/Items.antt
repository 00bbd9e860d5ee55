-- ===== src/Cargs/Access/Items.antt =====
-- What the accessors tell of a command line of keys with values, switches and words.
use bbench.Base.{
  ◌<◌, ◌≤◌, ◌≡◌, ◌≢◌, refl, ap, Bool, false, inl, inr, List, [], ◌∷◌, ◌++◌, none, length, All,
  Bool-cases, if◌then◌else◌,
}
use bbench.Base.Text.{CString, Micron, same, same_iff}
use bbench.Cargs.Parser.{Packet, blank, FixedString, ParamPacket, general_parse_np}
use bbench.Cargs.Parser.Rounds.{Argument, pair, switch, word, render, packets, blanks, Fits}
use bbench.Cargs.Parser.RoundTrip.{general_parse_np-render}
use bbench.Cargs.Access.{
  collect_from, list, data_list, params, operands, find_key, data_of, get_text,
}

abbrev pub keys : List Argument → List CString
keys [] = []
keys (pair k v ∷ items) = k ∷ keys items
keys (switch p ∷ items) = keys items
keys (word v ∷ items) = keys items

abbrev pub values : List Argument → List CString
values [] = []
values (pair k v ∷ items) = v ∷ values items
values (switch p ∷ items) = values items
values (word v ∷ items) = values items

abbrev pub switches : List Argument → List CString
switches [] = []
switches (pair k v ∷ items) = switches items
switches (switch p ∷ items) = p ∷ switches items
switches (word v ∷ items) = switches items

abbrev pub words : List Argument → List CString
words [] = []
words (pair k v ∷ items) = words items
words (switch p ∷ items) = words items
words (word v ∷ items) = v ∷ words items

-- The value of the first key or switch of that name; a switch has the empty one.
abbrev pub value_of : ⦃m : Micron⦄ → CString → List Argument → CString
value_of str [] = []
value_of str (pair k v ∷ items) = let rest = value_of str items in if same str k then v else rest
value_of str (switch p ∷ items) = let rest = value_of str items in if same str p then [] else rest
value_of str (word v ∷ items) = value_of str items

-- A rest of the array that is blank.
abbrev pub IsBlank : List Packet → Type 0
IsBlank = All (λ p. p ≡ blank)

collect_from-blank :
    (test : Packet → Bool) (field : Packet → CString) (ps : List Packet)
    → test blank ≡ false
    → IsBlank ps
    → collect_from test field ps ≡ []
unfolding collect_from
collect_from-blank test field [] h all = refl
collect_from-blank test field (p ∷ ps) h (q, all) =
    rw (q, h) (collect_from-blank test field ps h all)

same_other : ⦃m : Micron⦄ (a b : CString) → a ≢ b → same a b ≡ false
same_other a b h = elim (Bool-cases (same a b)) [
  | inl here ↦ absurd (h ((same_iff a b).0 here))
  | inr other ↦ other
]

module _ (tail : List Packet) (unused : IsBlank tail) where
  list-packets :
      (items : List Argument)
      → let args = packets items ++ tail in
        (list args ≡ keys items)
        × (data_list args ≡ values items)
        × (params args ≡ switches items)
        × (operands args ≡ words items)
  unfolding collect_from
  list-packets [] = (
    collect_from-blank _ _ tail refl unused,
    collect_from-blank _ _ tail refl unused,
    collect_from-blank _ _ tail refl unused,
    collect_from-blank _ _ tail refl unused,
  )
  list-packets (pair k v ∷ items) =
      let (l, d, p, o) = list-packets items in (ap (λ ks. k ∷ ks) l, ap (λ vs. v ∷ vs) d, p, o)
  list-packets (switch s ∷ items) =
      let (l, d, p, o) = list-packets items in (l, d, ap (λ ps. s ∷ ps) p, o)
  list-packets (word v ∷ items) =
      let (l, d, p, o) = list-packets items in (l, d, p, ap (λ os. v ∷ os) o)

  module _ ⦃m : Micron⦄ (str : CString) (some_ : str ≢ []) where
    find_key-blank : (ps : List Packet) → IsBlank ps → find_key str ps ≡ none
    unfolding find_key
    find_key-blank [] all = refl
    find_key-blank (p ∷ ps) (q, all) = rw (q, same_other str [] some_) (find_key-blank ps all)

    find_key-packets :
        (items : List Argument)
        → data_of (find_key str (packets items ++ tail)) ≡ value_of str items
    unfolding find_key
    find_key-packets [] = rw (find_key-blank tail unused)
    find_key-packets (pair k v ∷ items) = elim (Bool-cases (same str k)) [
      | inl here ↦ rw here
      | inr other ↦ rw (other, same_other str [] some_) (find_key-packets items)
    ]
    find_key-packets (switch p ∷ items) = elim (Bool-cases (same str p)) [
      | inl here ↦ rw here
      | inr other ↦ rw other (find_key-packets items)
    ]
    find_key-packets (word v ∷ items) = rw (same_other str [] some_) (find_key-packets items)

-- On a fresh array, and for a command line of at most 31 arguments behind the path, written as keys
-- with values, switches and words that fit: `list` and `data` give the keys and their values in
-- order, `params` the switches, `operands` the words, and `operator()` the value of the first key or
-- switch of a name that is neither empty nor the path.
pub list-render :
    ⦃m : Micron⦄ (fs : FixedString) (parameters : List ParamPacket) (global : Bool) (path : CString)
    (item : Argument) (items : List Argument) (tail : List Packet) (str : CString)
    → length path ≤ fs.capacity
    → All (Fits fs.capacity) (item ∷ items)
    → length (render (item ∷ items)) < 32
    → IsBlank tail
    → str ≢ []
    → str ≢ path
    → let line = render (item ∷ items) in
      let args =
        (general_parse_np fs parameters global (path ∷ line) (blank ∷ blanks line tail)).args in
      (list args ≡ keys (item ∷ items))
      × (data_list args ≡ values (item ∷ items))
      × (params args ≡ switches (item ∷ items))
      × (operands args ≡ words (item ∷ items))
      × (get_text str args ≡ value_of str (item ∷ items))
unfolding collect_from get_text find_key
list-render fs parameters global path item items tail str room fits few unused some_ other =
    let parsed = general_parse_np-render fs parameters global path item items tail room fits few in
    let (l, d, p, o) = list-packets tail unused (item ∷ items) in
    rw parsed (
      l,
      d,
      p,
      o,
      rw (same_other str path other) (find_key-packets tail unused str some_ (item ∷ items)),
    )
