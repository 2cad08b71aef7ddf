-- ===== src/Servlet/Table.antt =====
-- Tables of entries: names are distinct, and what erasing and setting leave.
use kit_server.Common.{
  ◌≡◌, refl, sym, ap, ◌∙◌, subst, ◌==◌, ==_iff, ==_refl, if◌then◌else◌, [], ◌∷◌, ◌++◌, Option, none,
  some, Bool, true, false, Bool-cases, inl, inr,
}
use mathlib.Core.Bool.{true≢false, false≢true, and-eq-true_iff}
use kit_server.Servlet.{Uri, uri_eq, Entries, find, set, erase}

pub uri_eq_refl : (u : Uri) → uri_eq u u ≡ true
unfolding uri_eq
uri_eq_refl [] = refl
uri_eq_refl (a ∷ u) = rw (==_refl a, uri_eq_refl u) refl

pub uri_eq_sound : (u v : Uri) → uri_eq u v ≡ true → u ≡ v
unfolding uri_eq
uri_eq_sound [] [] h = refl
uri_eq_sound [] (b ∷ v) h = absurd (false≢true h)
uri_eq_sound (a ∷ u) [] h = absurd (false≢true h)
uri_eq_sound (a ∷ u) (b ∷ v) h =
    let parts = (and-eq-true_iff (a == b) (uri_eq u v)).0 h in
    rw ((==_iff a b).0 parts.0, uri_eq_sound u v parts.1) refl

-- All entries of another name.
unfoldable pub others {ℓ} : {S : Type ℓ} → Uri → Entries S → Entries S
others uri [] = []
others uri ((u, s) ∷ l) = if uri_eq u uri then others uri l else (u, s) ∷ others uri l

unfoldable pub has {ℓ} : {S : Type ℓ} → Uri → Entries S → Bool
has uri [] = false
has uri ((u, s) ∷ l) = if uri_eq u uri then true else has uri l

-- No name has two entries.
unfoldable pub Distinct {ℓ} : {S : Type ℓ} → Entries S → Type 0
Distinct [] = Unit
Distinct ((u, s) ∷ l) = (has u l ≡ false) × Distinct l

pub find-not_has {ℓ} : {S : Type ℓ} (u : Uri) (l : Entries S) → has u l ≡ false → find u l ≡ none
unfolding find has
find-not_has u [] h = refl
find-not_has u ((v, s) ∷ l) h = elim (Bool-cases (uri_eq v u)) [
  | inl e ↦ absurd (true≢false (ap (λ b. if b then true else has u l) (sym e) ∙ h))
  | inr e ↦ rw e (find-not_has u l (ap (λ b. if b then true else has u l) (sym e) ∙ h))
]

others-not_has {ℓ} : {S : Type ℓ} (u : Uri) (l : Entries S) → has u l ≡ false → others u l ≡ l
unfolding others has
others-not_has u [] h = refl
others-not_has u ((v, s) ∷ l) h = elim (Bool-cases (uri_eq v u)) [
  | inl e ↦ absurd (true≢false (ap (λ b. if b then true else has u l) (sym e) ∙ h))
  | inr e ↦ rw e (
      ap (λ r. (v, s) ∷ r) (others-not_has u l (ap (λ b. if b then true else has u l) (sym e) ∙ h)))
]

-- Where names are distinct, the first entry of a name is all there is.
pub erase-others {ℓ} : {S : Type ℓ} (u : Uri) (l : Entries S) → Distinct l → erase u l ≡ others u l
unfolding erase others Distinct
erase-others u [] d = refl
erase-others u ((v, s) ∷ l) d = elim (Bool-cases (uri_eq v u)) [
  | inl e ↦ rw e (sym (others-not_has u l (subst (λ w. has w l ≡ false) (uri_eq_sound v u e) d.0)))
  | inr e ↦ rw e (ap (λ r. (v, s) ∷ r) (erase-others u l d.1))
]

pub has-others {ℓ} : {S : Type ℓ} (u : Uri) (l : Entries S) → has u (others u l) ≡ false
unfolding others has
has-others u [] = refl
has-others u ((v, s) ∷ l) = elim (Bool-cases (uri_eq v u)) [
  | inl e ↦ rw e (has-others u l)
  | inr e ↦ rw (e, e) (has-others u l)
]

-- `v` names another entry than `u`.
pub find-others {ℓ} :
    {S : Type ℓ} (u v : Uri) (l : Entries S) → uri_eq u v ≡ false → find v (others u l) ≡ find v l
unfolding others find
find-others u v [] n = refl
find-others u v ((x, s) ∷ l) n = elim (Bool-cases (uri_eq x u)) [
  | inl e ↦ rw (e, ap (λ w. uri_eq w v) (uri_eq_sound x u e) ∙ n) (find-others u v l n)
  | inr e ↦ rw (e, find-others u v l n) refl
]

not_has-others {ℓ} :
    {S : Type ℓ} (u v : Uri) (l : Entries S) → has v l ≡ false → has v (others u l) ≡ false
unfolding others has
not_has-others u v [] h = refl
not_has-others u v ((x, s) ∷ l) h = elim (Bool-cases (uri_eq x v)) [
  | inl e ↦ absurd (true≢false (ap (λ b. if b then true else has v l) (sym e) ∙ h))
  | inr e ↦
      let rest = not_has-others u v l (ap (λ b. if b then true else has v l) (sym e) ∙ h) in
      elim (Bool-cases (uri_eq x u)) [ inl f ↦ rw f rest | inr f ↦ rw (f, e) rest ]
]

pub others-Distinct {ℓ} :
    {S : Type ℓ} (u : Uri) (l : Entries S) → Distinct l → Distinct (others u l)
unfolding others Distinct
others-Distinct u [] d = tt
others-Distinct u ((x, s) ∷ l) d = elim (Bool-cases (uri_eq x u)) [
  | inl e ↦ rw e (others-Distinct u l d.1)
  | inr e ↦ rw e (not_has-others u x l d.0, others-Distinct u l d.1)
]

has-snoc {ℓ} :
    {S : Type ℓ} (u v : Uri) (s : Option S) (l : Entries S)
    → has v l ≡ false
    → uri_eq u v ≡ false
    → has v (l ++ (u, s) ∷ []) ≡ false
unfolding has
has-snoc u v s [] h n = rw n refl
has-snoc u v s ((x, t) ∷ l) h n = elim (Bool-cases (uri_eq x v)) [
  | inl e ↦ absurd (true≢false (ap (λ b. if b then true else has v l) (sym e) ∙ h))
  | inr e ↦ rw e (has-snoc u v s l (ap (λ b. if b then true else has v l) (sym e) ∙ h) n)
]

-- Two names are the same whichever comes first.
pub uri_eq_comm : (u v : Uri) → uri_eq u v ≡ false → uri_eq v u ≡ false
uri_eq_comm u v n = elim (Bool-cases (uri_eq v u)) [
  | inl e ↦
      absurd
        (true≢false (sym (ap (λ w. uri_eq w v) (sym (uri_eq_sound v u e)) ∙ uri_eq_refl v) ∙ n))
  | inr e ↦ e
]

-- A new entry at the end of entries of other names.
pub snoc-Distinct {ℓ} :
    {S : Type ℓ} (u : Uri) (s : Option S) (l : Entries S)
    → has u l ≡ false
    → Distinct l
    → Distinct (l ++ (u, s) ∷ [])
unfolding has Distinct
snoc-Distinct u s [] h d = (refl, tt)
snoc-Distinct u s ((x, t) ∷ l) h d = elim (Bool-cases (uri_eq x u)) [
  | inl e ↦ absurd (true≢false (ap (λ b. if b then true else has u l) (sym e) ∙ h))
  | inr e ↦ (
    has-snoc u x s l d.0 (uri_eq_comm x u e),
    snoc-Distinct u s l (ap (λ b. if b then true else has u l) (sym e) ∙ h) d.1,
  )
]

pub find-snoc {ℓ} :
    {S : Type ℓ} (u : Uri) (s : Option S) (l : Entries S)
    → has u l ≡ false
    → find u (l ++ (u, s) ∷ []) ≡ some s
unfolding has find
find-snoc u s [] h = rw (uri_eq_refl u) refl
find-snoc u s ((x, t) ∷ l) h = elim (Bool-cases (uri_eq x u)) [
  | inl e ↦ absurd (true≢false (ap (λ b. if b then true else has u l) (sym e) ∙ h))
  | inr e ↦ rw e (find-snoc u s l (ap (λ b. if b then true else has u l) (sym e) ∙ h))
]

pub find-snoc_other {ℓ} :
    {S : Type ℓ} (u v : Uri) (s : Option S) (l : Entries S)
    → uri_eq u v ≡ false
    → find v (l ++ (u, s) ∷ []) ≡ find v l
unfolding find
find-snoc_other u v s [] n = rw n refl
find-snoc_other u v s ((x, t) ∷ l) n = elim (Bool-cases (uri_eq x v)) [
  | inl e ↦ rw e refl
  | inr e ↦ rw e (find-snoc_other u v s l n)
]

-- Setting an entry.
pub find-set {ℓ} :
    {S : Type ℓ} (u : Uri) (s : Option S) (l : Entries S) → find u (set u s l) ≡ some s
unfolding find set
find-set u s [] = rw (uri_eq_refl u) refl
find-set u s ((x, t) ∷ l) = elim (Bool-cases (uri_eq x u)) [
  | inl e ↦ rw (e, e) refl
  | inr e ↦ rw (e, e) (find-set u s l)
]

pub find-set_other {ℓ} :
    {S : Type ℓ} (u v : Uri) (s : Option S) (l : Entries S)
    → uri_eq u v ≡ false
    → find v (set u s l) ≡ find v l
unfolding find set
find-set_other u v s [] n = rw n refl
find-set_other u v s ((x, t) ∷ l) n = elim (Bool-cases (uri_eq x u)) [
  | inl e ↦ let m = ap (λ w. uri_eq w v) (uri_eq_sound x u e) ∙ n in rw (e, m) refl
  | inr e ↦ rw (e, find-set_other u v s l n) refl
]

has-set {ℓ} :
    {S : Type ℓ} (u v : Uri) (s : Option S) (l : Entries S)
    → has v l ≡ false
    → uri_eq u v ≡ false
    → has v (set u s l) ≡ false
unfolding has set
has-set u v s [] h n = rw n refl
has-set u v s ((x, t) ∷ l) h n = elim (Bool-cases (uri_eq x v)) [
  | inl e ↦ absurd (true≢false (ap (λ b. if b then true else has v l) (sym e) ∙ h))
  | inr e ↦
      let h' = ap (λ b. if b then true else has v l) (sym e) ∙ h in
      elim (Bool-cases (uri_eq x u)) [
        | inl f ↦ rw (f, e) h'
        | inr f ↦ rw (f, e) (has-set u v s l h' n)
      ]
]

pub set-Distinct {ℓ} :
    {S : Type ℓ} (u : Uri) (s : Option S) (l : Entries S) → Distinct l → Distinct (set u s l)
unfolding set Distinct has
set-Distinct u s [] d = (refl, tt)
set-Distinct u s ((x, t) ∷ l) d = elim (Bool-cases (uri_eq x u)) [
  | inl e ↦ rw e (d.0, d.1)
  | inr e ↦ rw e (has-set u x s l d.0 (uri_eq_comm x u e), set-Distinct u s l d.1)
]
