-- ===== src/Http/Headers.antt =====
-- kit_server/http/http.h and http.cpp: maps of texts whose keys are compared without regard to case.
pub mod Order
pub mod Lookup
use kit_server.Common.{
  ℕ, zero, suc, ◌+◌, ltb, leb, if◌then◌else◌, List, [], ◌∷◌, map, Option, none, some, Bool, true,
  false, not, ◌&&◌,
}
use kit_server.Http.Method.{Text}

unfoldable pub to_lower : ℕ → ℕ
to_lower c = if leb b'A' c && leb c b'Z' then c + 32 else c

unfoldable pub text_less : Text → Text → Bool
text_less [] [] = false
text_less [] (b ∷ v) = true
text_less (a ∷ u) [] = false
text_less (a ∷ u) (b ∷ v) =
    let rest = text_less u v in if ltb a b then true else (if ltb b a then false else rest)

-- `c_str()`, to which strcasecmp listens: the text up to its first zero.
unfoldable pub c_str : Text → Text
c_str [] = []
c_str (zero ∷ u) = []
c_str (suc c ∷ u) = suc c ∷ c_str u

abbrev pub folded : Text → Text
folded u = map to_lower (c_str u)

-- `strcasecmp` is below 0.
unfoldable pub case_insensitive_less : Text → Text → Bool
case_insensitive_less lhs rhs = text_less (folded lhs) (folded rhs)

-- Neither key is less: the map takes them for one key.
unfoldable pub same_key : Text → Text → Bool
same_key k l = not (case_insensitive_less k l) && not (case_insensitive_less l k)

-- The std::map, in the order of its keys.
abbrev pub MapType : Type 0
MapType = List (Text × Text)

unfoldable pub find : Text → MapType → Option Text
find key [] = none
find key (e ∷ m) =
    let rest = find key m in
    if case_insensitive_less key e.0
    then none
    else (if case_insensitive_less e.0 key then rest else some e.1)

-- `m[key] = val`: a key that is there keeps its spelling.
unfoldable pub set : Text → Text → MapType → MapType
set key val [] = (key, val) ∷ []
set key val (e ∷ m) =
    let rest = set key val m in
    if case_insensitive_less key e.0
    then (key, val) ∷ e ∷ m
    else (if case_insensitive_less e.0 key then e ∷ rest else (e.0, val) ∷ m)

unfoldable pub erase : Text → MapType → MapType
erase key [] = []
erase key (e ∷ m) =
    let rest = erase key m in
    if case_insensitive_less key e.0
    then e ∷ m
    else (if case_insensitive_less e.0 key then e ∷ rest else m)

-- The text of a key, or the default.
unfoldable pub get_or : Text → Option Text → Text
get_or def none = def
get_or def (some val) = val

abbrev pub get : Text → Text → MapType → Text
get key def m = get_or def (find key m)

-- The value that a key's text casts to, else the default; the cast is that of `boost::lexical_cast`.
module _ {ℓ} {T : Type ℓ} (lexical_cast : Text → Option T) where
  unfoldable pub cast_or : T → Option T → T × Bool
  cast_or def none = (def, false)
  cast_or def (some val) = (val, true)

  unfoldable pub check_get : T → Option Text → T × Bool
  check_get def none = (def, false)
  check_get def (some text) = cast_or def (lexical_cast text)

  unfoldable pub check_get_as : Text → T → MapType → T × Bool
  check_get_as key def m = check_get def (find key m)

  unfoldable pub get_as : Text → T → MapType → T
  get_as key def m = (check_get_as key def m).0
