-- ===== src/ByteArray/Nodes.antt =====
-- The chain of nodes as flat memory, and the walk of `write` along it.
use kit_server.Common.{
  ℕ, zero, suc, ◌+◌, ◌-◌, ◌*◌, ◌≤◌, ◌<◌, ◌≡◌, refl, sym, ap, ◌∙◌, arith, leb, ◌==◌, if◌then◌else◌,
  List, [], ◌∷◌, ◌++◌, length, take, drop, replicate, overwrite, some, length-append, length-drop,
  length-replicate, length-overwrite, drop_all, drop-append_ge, overwrite-append_front,
  overwrite-append_back, overwrite-append_split, Bool-cases, inl, inr, leb→le, leb→lt,
}
use mathlib.Core.List.{append_assoc}
use kit_server.ByteArray.{Node, new_node, copy_in, write_from, write_at}

-- Every node has the size `base`, and its memory is of that size.
abbrev pub Uniform : ℕ → List Node → Type 0
Uniform base [] = Unit {0}
Uniform base (n ∷ ns) = (n.size ≡ base) × (length n.ptr ≡ base) × Uniform base ns

-- The memory of all nodes, one after the other.
unfoldable pub flat : List Node → List ℕ
flat [] = []
flat (n ∷ ns) = n.ptr ++ flat ns

pub length-flat :
    (base : ℕ) (ns : List Node) → Uniform base ns → length (flat ns) ≡ length ns * base
unfolding flat
length-flat base [] u = omega arith
length-flat base (n ∷ ns) u = omega (arith, length-append n.ptr (flat ns), length-flat base ns u.2)

pub flat-append : (ns ms : List Node) → flat (ns ++ ms) ≡ flat ns ++ flat ms
unfolding flat
flat-append [] ms = refl
flat-append (n ∷ ns) ms = rw (flat-append ns ms) (sym (append_assoc n.ptr (flat ns) (flat ms)))

pub Uniform-append :
    (base : ℕ) (ns ms : List Node) → Uniform base ns → Uniform base ms → Uniform base (ns ++ ms)
Uniform-append base [] ms u v = v
Uniform-append base (n ∷ ns) ms u v = (u.0, u.1, Uniform-append base ns ms u.2 v)

pub replicate-Uniform : (base k : ℕ) → Uniform base (replicate k (new_node base))
unfolding new_node
replicate-Uniform base zero = tt
replicate-Uniform base (suc k) = (refl, length-replicate base 0, replicate-Uniform base k)

-- What a walk of `write` leaves, for a write of `buf` at `at` in the memory of `ns`.
pub record Written (base at : ℕ) (buf : List ℕ) (ns : List Node) (r : List Node × ℕ) : Type 0 where
  pub uniform : Uniform base r.0
  pub same_length : length r.0 ≡ length ns
  pub content : flat r.0 ≡ overwrite at buf (flat ns)
  pub not_before : r.1 * base ≤ at + length buf
  pub not_behind : at + length buf < r.1 * base + base

pub write_from_lem :
    (base : ℕ) (ns : List Node) (npos : ℕ) (buf : List ℕ)
    → Uniform base ns
    → npos < base
    → 0 < length buf
    → npos + length buf ≤ length ns * base
    → (r : List Node × ℕ) × (write_from ns npos buf ≡ some r) × Written base npos buf ns r
unfolding write_from flat
write_from_lem base [] npos buf u h p fits = absurd (omega arith)
write_from_lem base (n ∷ ns) npos buf u h p fits =
    elim (Bool-cases (leb (length buf) (n.size - npos))) [
      | inl within ↦
          let le : length buf ≤ n.size - npos = leb→le _ _ within in
          rw within (
            (copy_in n npos buf ∷ ns, if n.size == npos + length buf then 1 else 0),
            refl,
            record {
              uniform = (u.0, length-overwrite npos buf n.ptr ∙ u.1, u.2);
              same_length = refl;
              content = sym (overwrite-append_front npos buf n.ptr (flat ns) (omega arith));
              not_before = ground arith;
              not_behind = ground arith;
            },
          )
      | inr across ↦
          let lt : n.size - npos < length buf = leb→lt _ _ across in
          let ncap = n.size - npos in
          let (r, e, w) =
            write_from_lem base ns 0 (drop ncap buf) u.2 (omega arith)
              (omega (arith, length-drop ncap buf)) (omega (arith, length-drop ncap buf)) in
          rw (across, e)
            (
              (copy_in n npos (take ncap buf) ∷ r.0, suc r.1),
              refl,
              record {
                uniform = (u.0, length-overwrite npos (take ncap buf) n.ptr ∙ u.1, w.uniform);
                same_length = ap suc w.same_length;
                content =
                    ap (◌++◌ (overwrite npos (take ncap buf) n.ptr)) w.content
                    ∙ sym (
                        overwrite-append_split npos ncap buf n.ptr (flat ns) (omega arith)
                          (omega arith));
                not_before = omega (arith, w.not_before, length-drop ncap buf);
                not_behind = omega (arith, w.not_behind, length-drop ncap buf);
              },
            )
    ]

pub write_at_lem :
    (base k : ℕ) (ns : List Node) (npos at : ℕ) (buf : List ℕ)
    → Uniform base ns
    → npos < base
    → 0 < length buf
    → at ≡ k * base + npos
    → at + length buf ≤ length ns * base
    → (r : List Node × ℕ) × (write_at k ns npos buf ≡ some r) × Written base at buf ns r
unfolding write_at flat
write_at_lem base zero ns npos at buf u h p e fits =
    let start : at ≡ npos = omega arith in
    rw start (write_from_lem base ns npos buf u h p (omega arith))
write_at_lem base (suc k) [] npos at buf u h p e fits = absurd (omega arith)
write_at_lem base (suc k) (n ∷ ns) npos at buf u h p e fits =
    let (r, eq, w) = write_at_lem base k ns npos (k * base + npos) buf u.2 h p refl (omega arith) in
    rw eq (
      (n ∷ r.0, suc r.1),
      refl,
      record {
        uniform = (u.0, u.1, w.uniform);
        same_length = ap suc w.same_length;
        content =
            ap (◌++◌ n.ptr) w.content
            ∙ sym (overwrite-append_back at (k * base + npos) buf n.ptr (flat ns) (omega arith));
        not_before = omega (arith, w.not_before);
        not_behind = omega (arith, w.not_behind);
      },
    )

pub Uniform-drop : (base k : ℕ) (ns : List Node) → Uniform base ns → Uniform base (drop k ns)
Uniform-drop base zero ns u = u
Uniform-drop base (suc k) [] u = tt
Uniform-drop base (suc k) (n ∷ ns) u = Uniform-drop base k ns u.2

pub flat-drop :
    (base k j : ℕ) (ns : List Node)
    → Uniform base ns
    → j ≡ k * base
    → flat (drop k ns) ≡ drop j (flat ns)
unfolding flat
flat-drop base zero j ns u e = ap (λ i. drop i (flat ns)) (let z : 0 ≡ j = omega arith in z)
flat-drop base (suc k) j [] u e = sym (drop_all j [] (omega arith))
flat-drop base (suc k) j (n ∷ ns) u e =
    flat-drop base k (k * base) ns u.2 refl
    ∙ sym (drop-append_ge j (k * base) n.ptr (flat ns) (omega arith))
