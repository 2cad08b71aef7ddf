-- ===== src/Http/Headers/Lookup.antt =====
-- kit_server/http/http.cpp: the header maps as finite maps from keys up to case to texts.
use kit_server.Common.{
  if_both, ◌↔◌, ◌≡◌, refl, arith, if◌then◌else◌, [], ◌∷◌, Option, none, some, true,
}
use kit_server.Http.Method.{Text}
use kit_server.Http.Headers.{folded, case_insensitive_less, same_key, MapType, find, set, erase}
use kit_server.Http.Headers.Order.{
  Compared, below, equal, above, text_less_irrefl, text_less_trans, text_less_asym, compare_text,
}

-- A key below all keys of a map, and a map in the order of its keys.
unfoldable pub IsBelow : Text → MapType → Type 0
IsBelow key [] = Unit
IsBelow key (e ∷ m) = (case_insensitive_less key e.0 ≡ true) × IsBelow key m

unfoldable pub IsSorted : MapType → Type 0
IsSorted [] = Unit
IsSorted (e ∷ m) = IsBelow e.0 m × IsSorted m

module _ (key val other : Text) where
  find-set_here :
      (e : Text × Text) (m : MapType)
      → Compared (folded key) (folded e.0)
      → Compared (folded other) (folded key)
      → Compared (folded other) (folded e.0)
      → find other (set key val m) ≡ (if same_key key other then some val else find other m)
      → find other (set key val (e ∷ m))
        ≡ (if same_key key other then some val else find other (e ∷ m))
  unfolding find set same_key case_insensitive_less
  find-set_here e m (below p q) (below r s) o ih =
      let t = text_less_trans (folded other) (folded key) (folded e.0) r p in rw (p, r, s, t) refl
  find-set_here e m (below p q) (equal r) o ih = rw (p, r, text_less_irrefl (folded key)) refl
  find-set_here e m (below p q) (above r s) o ih = rw (p, r, s) refl
  find-set_here e m (equal p) k (below r s) ih = rw (p, text_less_irrefl (folded e.0), r, s) refl
  find-set_here e m (equal p) k (equal r) ih =
      rw (p, text_less_irrefl (folded e.0), r, text_less_irrefl (folded e.0)) refl
  find-set_here e m (equal p) k (above r s) ih = rw (p, text_less_irrefl (folded e.0), r, s) refl
  find-set_here e m (above p q) k (below r s) ih =
      let t = text_less_trans (folded other) (folded e.0) (folded key) r p in
      rw (p, q, r, t, text_less_asym (folded other) (folded key) t) refl
  find-set_here e m (above p q) k (equal r) ih =
      rw (p, q, r, text_less_irrefl (folded e.0), p, q) refl
  find-set_here e m (above p q) k (above r s) ih = rw (p, q, r, s) ih

  find-set_alone :
      Compared (folded other) (folded key)
      → find other (set key val []) ≡ (if same_key key other then some val else find other [])
  unfolding find set same_key case_insensitive_less
  find-set_alone (below r s) = rw (r, s) refl
  find-set_alone (equal r) = rw (r, text_less_irrefl (folded key)) refl
  find-set_alone (above r s) = rw (r, s) refl

  pub find-set :
      (m : MapType)
      → find other (set key val m) ≡ (if same_key key other then some val else find other m)
  unfolding find set
  find-set [] = find-set_alone (compare_text (folded other) (folded key))
  find-set (e ∷ m) =
      find-set_here e m (compare_text (folded key) (folded e.0))
        (compare_text (folded other) (folded key)) (compare_text (folded other) (folded e.0))
        (find-set m)

-- A key below the keys of a map is not in it.
find-IsBelow : (key : Text) (m : MapType) → IsBelow key m → find key m ≡ none
unfolding find IsBelow
find-IsBelow key [] h = refl
find-IsBelow key (e ∷ m) h = rw h.0 refl

IsBelow-trans :
    (k l : Text) (m : MapType) → case_insensitive_less k l ≡ true → IsBelow l m → IsBelow k m
unfolding IsBelow case_insensitive_less
IsBelow-trans k l [] h b = tt
IsBelow-trans k l (e ∷ m) h b =
    (text_less_trans (folded k) (folded l) (folded e.0) h b.0, IsBelow-trans k l m h b.1)

IsBelow-folded : (k l : Text) (m : MapType) → folded k ≡ folded l → IsBelow l m → IsBelow k m
unfolding IsBelow case_insensitive_less
IsBelow-folded k l [] p b = tt
IsBelow-folded k l (e ∷ m) p b = (rw (p) b.0, IsBelow-folded k l m p b.1)

module _ (key other : Text) where
  find-erase_here :
      (e : Text × Text) (m : MapType)
      → IsSorted (e ∷ m)
      → Compared (folded key) (folded e.0)
      → Compared (folded other) (folded key)
      → Compared (folded other) (folded e.0)
      → find other (erase key m) ≡ (if same_key key other then none else find other m)
      → find other (erase key (e ∷ m)) ≡ (if same_key key other then none else find other (e ∷ m))
  unfolding find erase same_key case_insensitive_less IsSorted
  find-erase_here e m h (below p q) (below r s) o ih =
      let t = text_less_trans (folded other) (folded key) (folded e.0) r p in
      rw (p, r, t, text_less_asym (folded other) (folded key) r) refl
  find-erase_here e m h (below p q) (equal r) o ih =
      rw (p, r, text_less_irrefl (folded key), p) refl
  find-erase_here e m h (below p q) (above r s) o ih = rw (p, r) refl
  find-erase_here e m h (equal p) k (below r s) ih =
      rw (p, text_less_irrefl (folded e.0), r, s)
        (find-IsBelow other m (IsBelow-trans other e.0 m r h.0))
  find-erase_here e m h (equal p) k (equal r) ih =
      rw (p, text_less_irrefl (folded e.0), r, text_less_irrefl (folded e.0))
        (find-IsBelow other m (IsBelow-folded other e.0 m r h.0))
  find-erase_here e m h (equal p) k (above r s) ih =
      rw (p, text_less_irrefl (folded e.0), r, s) refl
  find-erase_here e m h (above p q) k (below r s) ih =
      let t = text_less_trans (folded other) (folded e.0) (folded key) r p in
      rw (p, q, r, t, text_less_asym (folded other) (folded key) t) refl
  find-erase_here e m h (above p q) k (equal r) ih =
      rw (p, q, r, text_less_irrefl (folded e.0), p, q) refl
  find-erase_here e m h (above p q) k (above r s) ih = rw (p, q, r, s) ih

  pub find-erase :
      (m : MapType)
      → IsSorted m
      → find other (erase key m) ≡ (if same_key key other then none else find other m)
  unfolding find erase IsSorted
  find-erase [] h = if_both {A = Option Text} (λ o. none ≡ o) (same_key key other) refl refl
  find-erase (e ∷ m) h =
      find-erase_here e m h (compare_text (folded key) (folded e.0))
        (compare_text (folded other) (folded key)) (compare_text (folded other) (folded e.0))
        (find-erase m h.1)

-- Writing and erasing keep a bound below a map, and its order.
module _ (key val : Text) where
  IsBelow-set :
      (l : Text) (m : MapType)
      → case_insensitive_less l key ≡ true
      → IsBelow l m
      → IsBelow l (set key val m)
  unfolding IsBelow set case_insensitive_less
  IsBelow-set l [] h b = (h, tt)
  IsBelow-set l (e ∷ m) h b = go (IsBelow-set l m h b.1) (compare_text (folded key) (folded e.0))
    where
      go :
          IsBelow l (set key val m)
          → Compared (folded key) (folded e.0)
          → IsBelow l (set key val (e ∷ m))
      go ih (below p q) = rw (p) (h, b)
      go ih (equal p) = rw (p, text_less_irrefl (folded e.0)) b
      go ih (above p q) = rw (q, p) (b.0, ih)

  set-IsSorted : (m : MapType) → IsSorted m → IsSorted (set key val m)
  unfolding set IsSorted IsBelow case_insensitive_less
  set-IsSorted [] h = (tt, tt)
  set-IsSorted (e ∷ m) h = go (set-IsSorted m h.1) (compare_text (folded key) (folded e.0))
    where
      go :
          IsSorted (set key val m)
          → Compared (folded key) (folded e.0)
          → IsSorted (set key val (e ∷ m))
      go ih (below p q) = rw (p) ((p, IsBelow-trans key e.0 m p h.0), h)
      go ih (equal p) = rw (p, text_less_irrefl (folded e.0)) h
      go ih (above p q) = rw (q, p) (IsBelow-set e.0 m p h.0, ih)

module _ (key : Text) where
  IsBelow-erase : (l : Text) (m : MapType) → IsBelow l m → IsBelow l (erase key m)
  unfolding IsBelow erase case_insensitive_less
  IsBelow-erase l [] b = tt
  IsBelow-erase l (e ∷ m) b = go (IsBelow-erase l m b.1) (compare_text (folded key) (folded e.0))
    where
      go :
          IsBelow l (erase key m)
          → Compared (folded key) (folded e.0)
          → IsBelow l (erase key (e ∷ m))
      go ih (below p q) = rw (p) b
      go ih (equal p) = rw (p, text_less_irrefl (folded e.0)) b.1
      go ih (above p q) = rw (q, p) (b.0, ih)

  erase-IsSorted : (m : MapType) → IsSorted m → IsSorted (erase key m)
  unfolding erase IsSorted case_insensitive_less
  erase-IsSorted [] h = tt
  erase-IsSorted (e ∷ m) h = go (erase-IsSorted m h.1) (compare_text (folded key) (folded e.0))
    where
      go :
          IsSorted (erase key m) → Compared (folded key) (folded e.0) → IsSorted (erase key (e ∷ m))
      go ih (below p q) = rw (p) h
      go ih (equal p) = rw (p, text_less_irrefl (folded e.0)) h.1
      go ih (above p q) = rw (q, p) (IsBelow-erase e.0 m h.0, ih)

-- Two keys are one key of the map when they are equal up to case.
same_key_iff : (k l : Text) → (same_key k l ≡ true) ↔ (folded k ≡ folded l)
unfolding same_key case_insensitive_less
same_key_iff k l =
    (go (compare_text (folded k) (folded l)), λ e. rw (e, text_less_irrefl (folded l)) refl)
  where
    go : Compared (folded k) (folded l) → same_key k l ≡ true → folded k ≡ folded l
    go (below p q) s = absurd (ground (arith, s, p))
    go (equal p) s = p
    go (above p q) s = absurd (ground (arith, s, p, q))

-- On a map in the order of its keys, `m[key] = val` and `erase` keep that order; another key is then
-- found with the new text, or not found, when it is the same text up to case, and as before otherwise.
pub find_lem :
    (key val other : Text) (m : MapType)
    → IsSorted m
    → IsSorted (set key val m)
      × IsSorted (erase key m)
      × (find other (set key val m) ≡ (if same_key key other then some val else find other m))
      × (find other (erase key m) ≡ (if same_key key other then none else find other m))
      × ((same_key key other ≡ true) ↔ (folded key ≡ folded other))
find_lem key val other m h = (
  set-IsSorted key val m h,
  erase-IsSorted key m h,
  find-set key val other m,
  find-erase key other m h,
  same_key_iff key other,
)
