-- ===== src/FdManager/Table.antt =====
-- kit_server/fdmanager.cpp: what `get` and `del` do to the table.
use kit_server.Common.{
  ℕ, zero, suc, ◌≤◌, ◌<◌, ◌≡◌, ◌≢◌, refl, sym, ap, ◌∙◌, arith, if◌then◌else◌, [], ◌∷◌, none, some,
  Bool, true, false, le→leb, not_le→leb, dec_lt, Option-cases, ◌⊎◌, inl, inr,
}
use mathlib.Core.Option.{none-ne-some}
use kit_server.Common.Ints.{ℤ, pos}
use kit_server.FdManager.{
  FdCtx, Stat, stat_error, stat_ok, init_socket, init_stat, init, new_fd_ctx, Ptr, FdManager, size,
  at, assign, resize, answer, go_on, look, get_read, larger, get_write, then_write, get, del,
}

-- The entry of a descriptor, null where the table does not reach it.
unfoldable pub lookup : ℕ → FdManager → Ptr
lookup i [] = none
lookup zero (p ∷ m) = p
lookup (suc i) (p ∷ m) = lookup i m

at-lookup : (m : FdManager) (i : ℕ) → i < size m → at m i ≡ some (lookup i m)
unfolding at lookup size
at-lookup [] i h = absurd (omega arith)
at-lookup (p ∷ m) zero h = refl
at-lookup (p ∷ m) (suc i) h = at-lookup m i (omega arith)

lookup-short : (m : FdManager) (i : ℕ) → size m ≤ i → lookup i m ≡ none
unfolding lookup size
lookup-short [] i h = refl
lookup-short (p ∷ m) zero h = absurd (omega arith)
lookup-short (p ∷ m) (suc i) h = lookup-short m i (omega arith)

size-resize : (n : ℕ) (m : FdManager) → size (resize n m) ≡ n
unfolding size resize
size-resize zero m = refl
size-resize (suc n) [] = ap suc (size-resize n [])
size-resize (suc n) (p ∷ m) = ap suc (size-resize n m)

lookup-nulls : (n i : ℕ) → lookup i (resize n []) ≡ none
unfolding lookup resize
lookup-nulls zero i = refl
lookup-nulls (suc n) zero = refl
lookup-nulls (suc n) (suc i) = lookup-nulls n i

lookup-resize : (n : ℕ) (m : FdManager) (i : ℕ) → size m ≤ n → lookup i (resize n m) ≡ lookup i m
unfolding lookup resize size
lookup-resize zero [] i h = refl
lookup-resize zero (p ∷ m) i h = absurd (omega arith)
lookup-resize (suc n) [] i h = lookup-nulls (suc n) i
lookup-resize (suc n) (p ∷ m) zero h = refl
lookup-resize (suc n) (p ∷ m) (suc i) h = lookup-resize n m i (omega arith)

-- The entry `i` is `q`, the others and the size are those of `m`.
pub record Assigned (i : ℕ) (q : Ptr) (m m' : FdManager) : Type 0 where
  pub here : lookup i m' ≡ q
  pub others : (j : ℕ) → j ≢ i → lookup j m' ≡ lookup j m

assign-Assigned :
    (i : ℕ) (q : Ptr) (m : FdManager)
    → i < size m
    → (m' : FdManager) × (assign i q m ≡ some m') × (size m' ≡ size m) × Assigned i q m m'
unfolding assign lookup size
assign-Assigned i q [] h = absurd (omega arith)
assign-Assigned zero q (p ∷ m) h =
    (q ∷ m, refl, refl, record { here = refl; others = λ j n. keep j n })
  where
    keep : (j : ℕ) → j ≢ zero → lookup j (q ∷ m) ≡ lookup j (p ∷ m)
    keep zero n = absurd (n refl)
    keep (suc j) n = refl
assign-Assigned (suc i) q (p ∷ m) h =
    let r = assign-Assigned i q m (omega arith) in
    (
      p ∷ r.0,
      rw r.1 refl,
      ap suc r.2,
      record { here = r.3.here; others = λ j n. keep r.0 r.3.others j n },
    )
  where
    keep :
        (m' : FdManager)
        → ((j : ℕ) → j ≢ i → lookup j m' ≡ lookup j m)
        → (j : ℕ) → j ≢ suc i
        → lookup j (p ∷ m') ≡ lookup j (p ∷ m)
    keep m' o zero n = refl
    keep m' o (suc j) n = o j (λ e. n (ap suc e))

-- What the write lock's part leaves, whatever has been done to the table before it.
pub get_write_lem :
    (address : ℕ) (stat : Stat) (nonblock : Bool) (fd : ℕ) (m : FdManager)
    → 64 ≤ size m
    → (m' : FdManager) × (get_write address stat nonblock fd m
        ≡ some (some (address, new_fd_ctx stat nonblock (pos fd)), m'))
      × (size m ≤ size m')
      × Assigned fd (some (address, new_fd_ctx stat nonblock (pos fd))) m m'
unfolding get_write
get_write_lem address stat nonblock fd m h = elim (dec_lt fd (size m)) [
  | yes l ↦
      let r = assign-Assigned fd new m l in
      rw (not_le→leb (size m) fd l) (r.0, rw r.1 refl, omega (arith, r.2), r.3)
  | no n ↦
      let s = size-resize (larger fd) m in
      let r = assign-Assigned fd new (resize (larger fd) m) (omega (arith, s)) in
      rw (le→leb (size m) fd (omega arith)) (
        r.0,
        rw r.1 refl,
        omega (arith, r.2, s),
        record {
          here = r.3.here;
          others = λ j e. r.3.others j e ∙ lookup-resize (larger fd) m j (omega arith);
        },
      )
]
  where
    new : Ptr
    new = some (address, new_fd_ctx stat nonblock (pos fd))

pub get_read-none : (fd : ℕ) (m : FdManager) → lookup fd m ≡ none → get_read (pos fd) true m ≡ go_on
unfolding get_read look
get_read-none fd m e = elim (dec_lt fd (size m)) [
  | yes l ↦ rw (not_le→leb (size m) fd l, at-lookup m fd l, e) refl
  | no n ↦ rw (le→leb (size m) fd (omega arith)) refl
]

get_read-some :
    (fd : ℕ) (c : ℕ × FdCtx) (m : FdManager)
    → lookup fd m ≡ some c
    → get_read (pos fd) true m ≡ answer (some c)
unfolding get_read look
get_read-some fd c m e = elim (dec_lt fd (size m)) [
  | yes l ↦ rw (not_le→leb (size m) fd l, at-lookup m fd l, e) refl
  | no n ↦ absurd (none-ne-some c (sym (lookup-short m fd (omega arith)) ∙ e))
]

-- With no other thread between its parts, `get` of a descriptor that is not negative, with creation,
-- in a table of at least 64 entries: it answers the context that is there and changes nothing, or,
-- where there is none, it answers the new one, which is then the entry; the other entries stay, and
-- the table does not shrink.
pub get_lem :
    (address : ℕ) (stat : Stat) (nonblock : Bool) (fd : ℕ) (m : FdManager)
    → 64 ≤ size m
    → ((c : ℕ × FdCtx) × (lookup fd m ≡ some c)
        × (get address stat nonblock (pos fd) true m ≡ some (some c, m)))
      ⊎ ((lookup fd m ≡ none)
          × ((m' : FdManager) × (get address stat nonblock (pos fd) true m
                ≡ some (some (address, new_fd_ctx stat nonblock (pos fd)), m'))
              × (size m ≤ size m')
              × Assigned fd (some (address, new_fd_ctx stat nonblock (pos fd))) m m'))
unfolding get then_write
get_lem address stat nonblock fd m h = elim (Option-cases (lookup fd m)) [
  | inl e ↦ inr (
    e,
    let w = get_write_lem address stat nonblock fd m h in
        (w.0, rw (get_read-none fd m e, w.1) refl, w.2, w.3),
  )
  | inr c ↦ inl (c.0, c.1, rw (get_read-some fd c.0 m c.1) refl)
]

-- `del` of a descriptor that is not negative empties its entry, where the table has one, and leaves
-- the others and the size.
del_lem :
    (fd : ℕ) (m : FdManager)
    → (m' : FdManager) × (del (pos fd) m ≡ some m') × (size m' ≡ size m) × Assigned fd none m m'
unfolding del
del_lem fd m = elim (dec_lt fd (size m)) [
  | yes l ↦ rw (not_le→leb (size m) fd l) (assign-Assigned fd none m l)
  | no n ↦
      rw (le→leb (size m) fd (omega arith))
        (m, refl, refl, record { here = lookup-short m fd (omega arith); others = λ j e. refl })
]

-- A context that the constructor makes is non-blocking for the system exactly where the descriptor
-- is a socket, which is known only where `fstat` did not fail; the user has not asked for that, it is
-- open, and another call of `init` changes nothing.
new_fd_ctx_lem :
    (stat : Stat) (nonblock : Bool) (fd : ℤ)
    → let c = new_fd_ctx stat nonblock fd in
      (c.sys_nonblock ≡ c.is_socket)
      × ((c.is_socket ≡ true) → c.is_init ≡ true)
      × (c.user_nonblock ≡ false)
      × (c.is_closed ≡ false)
      × (c.fd ≡ fd)
      × (init stat nonblock c ≡ (if c.is_init then (c, false, true) else (c, false, false)))
unfolding new_fd_ctx init init_socket init_stat
new_fd_ctx_lem stat_error nonblock fd = (refl, λ e. e, refl, refl, refl, refl)
new_fd_ctx_lem (stat_ok true) nonblock fd = (refl, λ e. refl, refl, refl, refl, refl)
new_fd_ctx_lem (stat_ok false) nonblock fd = (refl, λ e. refl, refl, refl, refl, refl)
