-- ===== src/Servlet/Tests.antt =====
-- A dispatch with a uri, two patterns and a default; a pattern matches what it is a prefix of.
use kit_server.Common.{
  ℕ, ◌≡◌, refl, ◌==◌, List, [], ◌∷◌, ◌++◌, ◌⊎◌, none, some, Bool, true, false, ◌&&◌,
}
use kit_server.Servlet.{
  Uri, uri_eq, ServletDispatch, find, set, erase, new_dispatch, add_servlet, add_glob_servlet,
  del_servlet, del_glob_servlet, get_servlet, get_glob_servlet, match_globs, get_matched_servlet,
  exact_or, handle,
}
use kit_server.Servlet.Table.{others}
use kit_server.Servlet.Match.{FirstMatch, NoMatch, get_matched_servlet_lem}
use kit_server.Servlet.History.{
  Call, add, add_glob, calls, call, IsValid, calls-IsValid, registrations_lem,
}

prefix : Uri → Uri → Bool
prefix [] u = true
prefix (a ∷ p) [] = false
prefix (a ∷ p) (b ∷ u) = (a == b) && prefix p u

abbrev history : List (Call ℕ)
history =
    add_glob (47 ∷ []) (some 1) ∷ add_glob (47 ∷ 97 ∷ []) (some 2) ∷ add (98 ∷ []) (some 3) ∷ []

site : ServletDispatch ℕ
unfolding calls
site = calls history (new_dispatch 404)

site-IsValid : IsValid site
unfolding site
site-IsValid = calls-IsValid 404 history

site_matches : get_matched_servlet prefix (47 ∷ 97 ∷ 98 ∷ []) site ≡ some 1
unfolding site calls call add_glob_servlet add_servlet erase set get_matched_servlet exact_or find
    uri_eq match_globs prefix
site_matches = refl

site_answers : handle (λ s (w : List ℕ). s ∷ w) prefix (99 ∷ []) site [] ≡ (0, 404 ∷ [])
unfolding site calls call add_glob_servlet add_servlet erase set get_matched_servlet exact_or find
    uri_eq match_globs prefix handle
site_answers = refl

get_matched_servlet_lem_example :
    (find (98 ∷ []) site.datas ≡ some (get_matched_servlet prefix (98 ∷ []) site))
    ⊎ ((find (98 ∷ []) site.datas ≡ none)
        × (FirstMatch prefix (98 ∷ []) site.globs (get_matched_servlet prefix (98 ∷ []) site)
            ⊎ (NoMatch prefix (98 ∷ []) site.globs
                × (get_matched_servlet prefix (98 ∷ []) site ≡ site.default))))
get_matched_servlet_lem_example = get_matched_servlet_lem prefix (98 ∷ []) site

calls-IsValid_example : IsValid (calls history (new_dispatch 404))
calls-IsValid_example = calls-IsValid 404 history

registrations_lem_example :
    ((get_glob_servlet (47 ∷ []) (add_glob_servlet (47 ∷ []) (some 5) site) ≡ some 5)
      × ((v : Uri)
          → uri_eq (47 ∷ []) v ≡ false
          → get_glob_servlet v (add_glob_servlet (47 ∷ []) (some 5) site) ≡ get_glob_servlet v site)
      × ((add_glob_servlet (47 ∷ []) (some 5) site).globs
          ≡ others (47 ∷ []) site.globs ++ (47 ∷ [], some 5) ∷ []))
    × ((get_glob_servlet (47 ∷ []) (del_glob_servlet (47 ∷ []) site) ≡ none)
        × ((v : Uri)
            → uri_eq (47 ∷ []) v ≡ false
            → get_glob_servlet v (del_glob_servlet (47 ∷ []) site) ≡ get_glob_servlet v site))
    × ((get_matched_servlet prefix (47 ∷ []) (add_servlet (47 ∷ []) (some 5) site) ≡ some 5)
        × (get_servlet (47 ∷ []) (del_servlet (47 ∷ []) (add_servlet (47 ∷ []) (some 5) site))
            ≡ none)
        × ((v : Uri)
            → uri_eq (47 ∷ []) v ≡ false
            → (get_servlet v (add_servlet (47 ∷ []) (some 5) site) ≡ get_servlet v site)
              × (get_servlet v (del_servlet (47 ∷ []) site) ≡ get_servlet v site)))
registrations_lem_example = registrations_lem prefix (47 ∷ []) (some 5) site site-IsValid
