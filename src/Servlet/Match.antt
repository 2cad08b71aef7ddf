-- ===== src/Servlet/Match.antt =====
-- kit_server/http/servlet.cpp: which servlet answers a path.
use kit_server.Common.{
  ◌≡◌, refl, ap, [], ◌∷◌, ◌++◌, Option, none, some, Bool, true, false, Bool-cases, Option-cases,
  ◌⊎◌, inl, inr,
}
use kit_server.Servlet.{
  Uri, Entries, ServletDispatch, find, match_globs, exact_or, get_matched_servlet,
}

-- No pattern of the entries matches.
unfoldable pub NoMatch {ℓ} : {S : Type ℓ} → (Uri → Uri → Bool) → Uri → Entries S → Type 0
NoMatch fnmatch uri [] = Unit
NoMatch fnmatch uri ((p, s) ∷ l) = (fnmatch p uri ≡ false) × NoMatch fnmatch uri l

-- `r` is the servlet of the first pattern that matches.
abbrev pub FirstMatch {ℓ} : {S : Type ℓ} → (Uri → Uri → Bool) → Uri → Entries S → Option S → Type ℓ
FirstMatch {S = S} fnmatch uri globs r =
    (before : Entries S) × (p : Uri) × (after : Entries S) × (globs ≡ before ++ (p, r) ∷ after)
    × NoMatch fnmatch uri before
    × (fnmatch p uri ≡ true)

match_globs_lem {ℓ} :
    {S : Type ℓ} (fnmatch : Uri → Uri → Bool) (uri : Uri) (default : Option S) (l : Entries S)
    → FirstMatch fnmatch uri l (match_globs fnmatch uri default l)
      ⊎ (NoMatch fnmatch uri l × (match_globs fnmatch uri default l ≡ default))
unfolding match_globs NoMatch
match_globs_lem fnmatch uri default [] = inr (tt, refl)
match_globs_lem fnmatch uri default ((p, s) ∷ l) = elim (Bool-cases (fnmatch p uri)) [
  | inl e ↦ rw e (inl ([], p, l, refl, tt, e))
  | inr e ↦ rw e (elim (match_globs_lem fnmatch uri default l) [
    | inl f ↦ inl ((p, s) ∷ f.0, f.1, f.2, ap (λ r. (p, s) ∷ r) f.3, (e, f.4), f.5)
    | inr n ↦ inr ((refl, n.0), n.1)
  ])
]

-- getMatchedServlet answers with the servlet registered for exactly that path; where there is none,
-- with that of the first pattern in the order of registration that matches it; where there is none
-- either, with the default servlet.
pub get_matched_servlet_lem {ℓ} :
    {S : Type ℓ} (fnmatch : Uri → Uri → Bool) (uri : Uri) (d : ServletDispatch S)
    → (find uri d.datas ≡ some (get_matched_servlet fnmatch uri d))
      ⊎ ((find uri d.datas ≡ none)
          × (FirstMatch fnmatch uri d.globs (get_matched_servlet fnmatch uri d)
              ⊎ (NoMatch fnmatch uri d.globs × (get_matched_servlet fnmatch uri d ≡ d.default))))
unfolding get_matched_servlet exact_or
get_matched_servlet_lem fnmatch uri d = elim (Option-cases (find uri d.datas)) [
  | inl e ↦ rw e (inr (refl, match_globs_lem fnmatch uri d.default d.globs))
  | inr s ↦ rw s.1 (inl refl)
]
