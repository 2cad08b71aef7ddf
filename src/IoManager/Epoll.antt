-- ===== src/IoManager/Epoll.antt =====
-- kit_server/iomanager.cpp: the calls of epoll_ctl, as epoll(7) documents them.
use kit_server.Common.{
  ℕ, ◌≡◌, ◌≢◌, refl, sym, ap, ◌∙◌, arith, ◌==◌, ==_refl, if◌then◌else◌, List, [], ◌∷◌, Option, none,
  some, true, false, Bool-cases, inl, inr,
}
use mathlib.Core.Option.{none-ne-some}
use kit_server.IoManager.{Events, any, Ctl, add, mod_, del, mod_or_del}

-- What epoll watches a descriptor for, after the calls: nothing before it is added and after it is
-- deleted.
unfoldable pub interest : ℕ → List Ctl → Option Events
interest fd [] = none
interest fd (add f s ∷ log) = if f == fd then some s else interest fd log
interest fd (mod_ f s ∷ log) = if f == fd then some s else interest fd log
interest fd (del f ∷ log) = if f == fd then none else interest fd log

-- No call fails with EEXIST or ENOENT.
unfoldable pub IsLegal : List Ctl → Type 0
IsLegal [] = Unit
IsLegal (add f s ∷ log) = (interest f log ≡ none) × IsLegal log
IsLegal (mod_ f s ∷ log) = (interest f log ≢ none) × IsLegal log
IsLegal (del f ∷ log) = (interest f log ≢ none) × IsLegal log

-- What a descriptor with these events is to be watched for.
unfoldable pub wanted : Events → Option Events
wanted s = if any s then some s else none

not_same : (f fd : ℕ) → fd ≢ f → (f == fd) ≡ false
not_same f fd n = ground arith

-- Deleting or modifying a descriptor that is watched.
pub mod_or_del_lem :
    (fd : ℕ) (s left : Events) (log : List Ctl)
    → interest fd log ≡ some s
    → IsLegal log
    → IsLegal (mod_or_del fd left ∷ log)
      × (interest fd (mod_or_del fd left ∷ log) ≡ wanted left)
      × ((j : ℕ) → j ≢ fd → interest j (mod_or_del fd left ∷ log) ≡ interest j log)
unfolding mod_or_del wanted IsLegal interest
mod_or_del_lem fd s left log e l = elim (Bool-cases (any left)) [
  | inl a ↦
      rw (a, ==_refl fd)
        ((λ n. none-ne-some s (sym n ∙ e), l), refl, λ j n. rw (not_same fd j n) refl)
  | inr a ↦
      rw (a, ==_refl fd)
        ((λ n. none-ne-some s (sym n ∙ e), l), refl, λ j n. rw (not_same fd j n) refl)
]

pub del-interest :
    (fd : ℕ) (s : Events) (log : List Ctl)
    → interest fd log ≡ some s
    → IsLegal log
    → IsLegal (del fd ∷ log)
      × (interest fd (del fd ∷ log) ≡ none)
      × ((j : ℕ) → j ≢ fd → interest j (del fd ∷ log) ≡ interest j log)
unfolding IsLegal interest
del-interest fd s log e l =
    ((λ n. none-ne-some s (sym n ∙ e), l), rw (==_refl fd) refl, λ j n. rw (not_same fd j n) refl)

-- Adding events to a descriptor, watched or not.
pub add_lem :
    (fd : ℕ) (s all : Events) (log : List Ctl)
    → interest fd log ≡ wanted s
    → any all ≡ true
    → IsLegal log
    → IsLegal ((if any s then mod_ fd all else add fd all) ∷ log)
      × (interest fd ((if any s then mod_ fd all else add fd all) ∷ log) ≡ wanted all)
      × ((j : ℕ)
          → j ≢ fd
          → interest j ((if any s then mod_ fd all else add fd all) ∷ log) ≡ interest j log)
unfolding wanted IsLegal interest
add_lem fd s all log e w l = elim (Bool-cases (any s)) [
  | inl a ↦
      let watched : interest fd log ≡ some s = e ∙ ap (λ b. if b then some s else none) a in
      rw (a, ==_refl fd, w)
        ((λ n. none-ne-some s (sym n ∙ watched), l), refl, λ j n. rw (not_same fd j n) refl)
  | inr a ↦
      let not_watched : interest fd log ≡ none = e ∙ ap (λ b. if b then some s else none) a in
      rw (a, ==_refl fd, w) ((not_watched, l), refl, λ j n. rw (not_same fd j n) refl)
]
