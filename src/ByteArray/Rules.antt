-- ===== src/ByteArray/Rules.antt =====
-- How writers and readers of the byte array compose: what a writer stores, what a reader takes.
use kit_server.Common.{ℕ, ◌<◌, ◌≡◌, ◌∙◌, arith, List, ◌++◌, length, length-append}
use kit_server.ByteArray.{ByteArray, ok, M, ◌>>=◌, ◌>>◌, return, write, read}
use kit_server.ByteArray.Invariant.{IsValid}
use kit_server.ByteArray.Transfer.{unread, Wrote, write_lem}
use kit_server.ByteArray.Seek.{Consumed, Wrote-trans, read_next}

-- The writer returns on `s`, and what it does there is the write of `bs`.
abbrev pub Writes : M (Unit {0}) → ByteArray → List ℕ → Type 0
Writes m s bs = (t : ByteArray) × (m s ≡ ok tt t) × Wrote bs s t

-- The reader returns `a` on `s`, and takes the next unread bytes `bs`.
abbrev pub Reads {ℓ} : {A : Type ℓ} → M A → A → ByteArray → List ℕ → List ℕ → Type ℓ
Reads m a s bs rest = (t : ByteArray) × (m s ≡ ok a t) × Consumed bs rest s t

pub Writes-then :
    (m k : M (Unit {0})) (s : ByteArray) (bs cs : List ℕ)
    → Writes m s bs
    → ((t : ByteArray) → Wrote bs s t → Writes k t cs)
    → Writes (m >> k) s (bs ++ cs)
Writes-then m k s bs cs (t, e, w) next =
    let (u, e', x) = next t w in (u, rw e e', Wrote-trans bs cs s t u w x)

pub Consumed-trans :
    (bs cs rest : List ℕ) (s t u : ByteArray)
    → Consumed bs (cs ++ rest) s t
    → Consumed cs rest t u
    → Consumed (bs ++ cs) rest s u
Consumed-trans bs cs rest s t u c d = record {
  valid = d.valid;
  left = d.left;
  moved = omega (arith, c.moved, d.moved, length-append bs cs);
  same_memory = d.same_memory ∙ c.same_memory;
  same_size = d.same_size ∙ c.same_size;
  same_capacity = d.same_capacity ∙ c.same_capacity;
  same_endian = d.same_endian ∙ c.same_endian;
}

pub Reads-then {ℓ κ} :
    {A : Type ℓ} {B : Type κ} (m : M A) (f : A → M B) (a : A) (b : B) (s : ByteArray)
    (bs cs rest : List ℕ)
    → Reads m a s bs (cs ++ rest)
    → ((t : ByteArray) → Consumed bs (cs ++ rest) s t → Reads (f a) b t cs rest)
    → Reads (m >>= f) b s (bs ++ cs) rest
Reads-then m f a b s bs cs rest (t, e, c) next =
    let (u, e', d) = next t c in (u, rw e e', Consumed-trans bs cs rest s t u c d)

pub Reads-map {ℓ κ} :
    {A : Type ℓ} {B : Type κ} (m : M A) (f : A → B) (a : A) (b : B) (s : ByteArray)
    (bs rest : List ℕ)
    → f a ≡ b
    → Reads m a s bs rest
    → Reads (m >>= λ x. return (f x)) b s bs rest
Reads-map m f a b s bs rest fe (t, e, c) = (t, rw (e, fe), c)

pub Writes-bytes : (bs : List ℕ) (s : ByteArray) → IsValid s → Writes (write bs) s bs
Writes-bytes bs s v = write_lem bs s v

pub Reads-bytes :
    (bs rest : List ℕ) (s : ByteArray)
    → IsValid s
    → unread s ≡ bs ++ rest
    → s.position < s.capacity
    → Reads (read (length bs)) bs s bs rest
Reads-bytes bs rest s v e inside = read_next bs rest s v e inside
