-- ===== src/Servlet/History.antt =====
-- kit_server/http/servlet.cpp: the tables after any history of calls, and what each call changes.
use kit_server.Common.{◌≡◌, refl, ap, ◌∙◌, List, [], ◌∷◌, ◌++◌, Option, none, Bool, false}
use kit_server.Servlet.{
  Uri, uri_eq, Entries, ServletDispatch, set, erase, or_null, new_dispatch, add_servlet,
  add_glob_servlet, del_servlet, del_glob_servlet, get_servlet, get_glob_servlet,
  get_matched_servlet, exact_or,
}
use kit_server.Servlet.Table.{
  others, Distinct, find-not_has, erase-others, has-others, find-others, others-Distinct,
  snoc-Distinct, find-snoc, find-snoc_other, find-set, find-set_other, set-Distinct,
}

-- The calls that change a dispatch.
pub data Call {ℓ} (S : Type ℓ) : Type ℓ where
  add : Uri → Option S → Call S
  add_glob : Uri → Option S → Call S
  del : Uri → Call S
  del_glob : Uri → Call S
  set_default : Option S → Call S

unfoldable pub call {ℓ} : {S : Type ℓ} → Call S → ServletDispatch S → ServletDispatch S
call (add uri s) d = add_servlet uri s d
call (add_glob uri s) d = add_glob_servlet uri s d
call (del uri) d = del_servlet uri d
call (del_glob uri) d = del_glob_servlet uri d
call (set_default s) d = record d { default = s }

unfoldable pub calls {ℓ} : {S : Type ℓ} → List (Call S) → ServletDispatch S → ServletDispatch S
calls [] d = d
calls (c ∷ cs) d = calls cs (call c d)

-- No uri has two servlets, no pattern has two.
pub record IsValid {ℓ} {S : Type ℓ} (d : ServletDispatch S) : Type ℓ where
  pub datas : Distinct d.datas
  pub globs : Distinct d.globs

erase-Distinct {ℓ} : {S : Type ℓ} (u : Uri) (l : Entries S) → Distinct l → Distinct (erase u l)
erase-Distinct u l d = rw (erase-others u l d) (others-Distinct u l d)

call-IsValid {ℓ} :
    {S : Type ℓ} (c : Call S) (d : ServletDispatch S) → IsValid d → IsValid (call c d)
unfolding call add_servlet add_glob_servlet del_servlet del_glob_servlet
call-IsValid (add uri s) d v = record {
  datas = set-Distinct uri s d.datas v.datas;
  globs = v.globs;
}
call-IsValid (add_glob uri s) d v = record {
  datas = v.datas;
  globs = rw (erase-others uri d.globs v.globs) (
      snoc-Distinct uri s (others uri d.globs) (has-others uri d.globs)
        (others-Distinct uri d.globs v.globs));
}
call-IsValid (del uri) d v = record { datas = erase-Distinct uri d.datas v.datas; globs = v.globs }
call-IsValid (del_glob uri) d v = record {
  datas = v.datas;
  globs = erase-Distinct uri d.globs v.globs;
}
call-IsValid (set_default s) d v = record { datas = v.datas; globs = v.globs }

-- After any calls on a new dispatch no uri is registered twice, in neither of the two tables.
pub calls-IsValid {ℓ} :
    {S : Type ℓ} (not_found : S) (cs : List (Call S)) → IsValid (calls cs (new_dispatch not_found))
unfolding calls Distinct
calls-IsValid {S = S} not_found cs = from cs _ start
  where
    start : IsValid (new_dispatch not_found)
    start = record { datas = tt; globs = tt }

    from : (cs : List (Call S)) (d : ServletDispatch S) → IsValid d → IsValid (calls cs d)
    from [] d v = v
    from (c ∷ cs) d v = from cs (call c d) (call-IsValid c d v)

-- In a valid dispatch, addGlobServlet makes the servlet the answer of getGlobServlet for that
-- pattern, leaves the other patterns their servlets and their order, and puts the pattern last,
-- also where it stood elsewhere before.
add_glob_servlet_lem {ℓ} :
    {S : Type ℓ} (uri : Uri) (slt : Option S) (d : ServletDispatch S)
    → IsValid d
    → (get_glob_servlet uri (add_glob_servlet uri slt d) ≡ slt)
      × ((v : Uri)
          → uri_eq uri v ≡ false
          → get_glob_servlet v (add_glob_servlet uri slt d) ≡ get_glob_servlet v d)
      × ((add_glob_servlet uri slt d).globs ≡ others uri d.globs ++ (uri, slt) ∷ [])
unfolding add_glob_servlet or_null
add_glob_servlet_lem uri slt d v = rw (erase-others uri d.globs v.globs) (
  ap or_null (find-snoc uri slt (others uri d.globs) (has-others uri d.globs)),
  λ w n.
      ap or_null (find-snoc_other uri w slt (others uri d.globs) n ∙ find-others uri w d.globs n),
  refl,
)

-- In a valid dispatch, delGlobServlet leaves no servlet for that pattern, and all others as they were.
del_glob_servlet_lem {ℓ} :
    {S : Type ℓ} (uri : Uri) (d : ServletDispatch S)
    → IsValid d
    → (get_glob_servlet uri (del_glob_servlet uri d) ≡ none)
      × ((v : Uri)
          → uri_eq uri v ≡ false
          → get_glob_servlet v (del_glob_servlet uri d) ≡ get_glob_servlet v d)
unfolding del_glob_servlet or_null
del_glob_servlet_lem uri d v = rw (erase-others uri d.globs v.globs) (
  ap or_null (find-not_has uri (others uri d.globs) (has-others uri d.globs)),
  λ w n. ap or_null (find-others uri w d.globs n),
)

-- In a valid dispatch, addServlet makes the servlet the answer to exactly that path whatever the
-- patterns are, a null one too, and keeps those of other paths; delServlet removes it.
add_del_servlet_lem {ℓ} :
    {S : Type ℓ} (fnmatch : Uri → Uri → Bool) (uri : Uri) (slt : Option S) (d : ServletDispatch S)
    → IsValid d
    → (get_matched_servlet fnmatch uri (add_servlet uri slt d) ≡ slt)
      × (get_servlet uri (del_servlet uri (add_servlet uri slt d)) ≡ none)
      × ((v : Uri)
          → uri_eq uri v ≡ false
          → (get_servlet v (add_servlet uri slt d) ≡ get_servlet v d)
            × (get_servlet v (del_servlet uri d) ≡ get_servlet v d))
unfolding add_servlet del_servlet get_matched_servlet exact_or or_null
add_del_servlet_lem fnmatch uri slt d v = (
  rw (find-set uri slt d.datas) refl,
  rw (erase-others uri (set uri slt d.datas) (set-Distinct uri slt d.datas v.datas))
      (ap or_null (find-not_has uri _ (has-others uri (set uri slt d.datas)))),
  λ w n. (
    ap or_null (find-set_other uri w slt d.datas n),
    rw (erase-others uri d.datas v.datas) (ap or_null (find-others uri w d.datas n)),
  ),
)

-- In a valid dispatch: addGlobServlet makes the servlet the answer of getGlobServlet for that pattern,
-- leaves the other patterns their servlets and their order, and puts the pattern last, also where it
-- stood elsewhere before; delGlobServlet leaves no servlet for the pattern, and all others as they were;
-- addServlet makes the servlet the answer to exactly that path whatever the patterns are, a null one
-- too, delServlet removes it, and both keep the servlets of other paths.
pub registrations_lem {ℓ} :
    {S : Type ℓ} (fnmatch : Uri → Uri → Bool) (uri : Uri) (slt : Option S) (d : ServletDispatch S)
    → IsValid d
    → ((get_glob_servlet uri (add_glob_servlet uri slt d) ≡ slt)
        × ((v : Uri)
            → uri_eq uri v ≡ false
            → get_glob_servlet v (add_glob_servlet uri slt d) ≡ get_glob_servlet v d)
        × ((add_glob_servlet uri slt d).globs ≡ others uri d.globs ++ (uri, slt) ∷ []))
      × ((get_glob_servlet uri (del_glob_servlet uri d) ≡ none)
          × ((v : Uri)
              → uri_eq uri v ≡ false
              → get_glob_servlet v (del_glob_servlet uri d) ≡ get_glob_servlet v d))
      × ((get_matched_servlet fnmatch uri (add_servlet uri slt d) ≡ slt)
          × (get_servlet uri (del_servlet uri (add_servlet uri slt d)) ≡ none)
          × ((v : Uri)
              → uri_eq uri v ≡ false
              → (get_servlet v (add_servlet uri slt d) ≡ get_servlet v d)
                × (get_servlet v (del_servlet uri d) ≡ get_servlet v d)))
registrations_lem fnmatch uri slt d v = (
  add_glob_servlet_lem uri slt d v,
  del_glob_servlet_lem uri d v,
  add_del_servlet_lem fnmatch uri slt d v,
)
