-- ===== src/Servlet.antt =====
-- kit_server/http/servlet.cpp and servlet.h: ServletDispatch.
--
-- A uri is its bytes. Servlets are a type `S`, and `none` is the null pointer, which may be registered
-- too. `fnmatch` of the C library is a parameter: whether a pattern matches a path. `m_datas` is an
-- association list, `m_globs` is the vector. Each operation runs under the lock.
pub mod Table
pub mod Match
pub mod History
mod Tests
use kit_server.Common.{
  ℕ, ◌==◌, if◌then◌else◌, List, [], ◌∷◌, ◌++◌, Option, none, some, Bool, true, false, ◌&&◌,
}

abbrev pub Uri : Type 0
Uri = List ℕ

unfoldable pub uri_eq : Uri → Uri → Bool
uri_eq [] [] = true
uri_eq [] (b ∷ v) = false
uri_eq (a ∷ u) [] = false
uri_eq (a ∷ u) (b ∷ v) = (a == b) && uri_eq u v

-- The entries of a map or of the vector of patterns.
abbrev pub Entries {ℓ} : Type ℓ → Type ℓ
Entries S = List (Uri × Option S)

pub record ServletDispatch {ℓ} (S : Type ℓ) : Type ℓ where
  pub datas : Entries S
  pub globs : Entries S
  pub default : Option S

unfoldable pub find {ℓ} : {S : Type ℓ} → Uri → Entries S → Option (Option S)
find uri [] = none
find uri ((u, s) ∷ l) = if uri_eq u uri then some s else find uri l

unfoldable pub set {ℓ} : {S : Type ℓ} → Uri → Option S → Entries S → Entries S
set uri slt [] = (uri, slt) ∷ []
set uri slt ((u, s) ∷ l) = if uri_eq u uri then (u, slt) ∷ l else (u, s) ∷ set uri slt l

-- The loop that erases the first entry of that name and breaks.
unfoldable pub erase {ℓ} : {S : Type ℓ} → Uri → Entries S → Entries S
erase uri [] = []
erase uri ((u, s) ∷ l) = if uri_eq u uri then l else (u, s) ∷ erase uri l

-- What `find` gives, with the null pointer where there is no entry.
unfoldable pub or_null {ℓ} : {S : Type ℓ} → Option (Option S) → Option S
or_null none = none
or_null (some s) = s

abbrev pub new_dispatch {ℓ} : {S : Type ℓ} → S → ServletDispatch S
new_dispatch not_found = record { datas = []; globs = []; default = some not_found }

unfoldable pub add_servlet {ℓ} :
    {S : Type ℓ} → Uri → Option S → ServletDispatch S → ServletDispatch S
add_servlet uri slt d = record d { datas = set uri slt d.datas }

unfoldable pub add_glob_servlet {ℓ} :
    {S : Type ℓ} → Uri → Option S → ServletDispatch S → ServletDispatch S
add_glob_servlet uri slt d = record d { globs = erase uri d.globs ++ (uri, slt) ∷ [] }

unfoldable pub del_servlet {ℓ} : {S : Type ℓ} → Uri → ServletDispatch S → ServletDispatch S
del_servlet uri d = record d { datas = erase uri d.datas }

unfoldable pub del_glob_servlet {ℓ} : {S : Type ℓ} → Uri → ServletDispatch S → ServletDispatch S
del_glob_servlet uri d = record d { globs = erase uri d.globs }

abbrev pub get_servlet {ℓ} : {S : Type ℓ} → Uri → ServletDispatch S → Option S
get_servlet uri d = or_null (find uri d.datas)

abbrev pub get_glob_servlet {ℓ} : {S : Type ℓ} → Uri → ServletDispatch S → Option S
get_glob_servlet uri d = or_null (find uri d.globs)

-- The loop over the patterns, and the default behind it.
unfoldable pub match_globs {ℓ} :
    {S : Type ℓ} → (Uri → Uri → Bool) → Uri → Option S → Entries S → Option S
match_globs fnmatch uri default [] = default
match_globs fnmatch uri default ((p, s) ∷ l) =
    if fnmatch p uri then s else match_globs fnmatch uri default l

unfoldable pub exact_or {ℓ} : {S : Type ℓ} → Option (Option S) → Option S → Option S
exact_or none s = s
exact_or (some t) s = t

unfoldable pub get_matched_servlet {ℓ} :
    {S : Type ℓ} → (Uri → Uri → Bool) → Uri → ServletDispatch S → Option S
get_matched_servlet fnmatch uri d =
    exact_or (find uri d.datas) (match_globs fnmatch uri d.default d.globs)

-- The answer to a request for `path`: what the servlet that is found does to the state of the world,
-- and 0 in each case.
unfoldable pub handle {ℓ κ} :
    {S : Type ℓ} {W : Type κ}
    → (S → W → W)
    → (Uri → Uri → Bool)
    → Uri
    → ServletDispatch S
    → W
    → ℕ × W
handle serve fnmatch path d w = elim (get_matched_servlet fnmatch path d) [
  | none ↦ (0, w)
  | some s ↦ (0, serve s w)
]
