-- ===== src/ByteArray/ReadWalk.antt =====
-- The walks of `read` and `setPosition` along the chain of nodes.
use kit_server.Common.{
  ℕ, zero, suc, ◌+◌, ◌-◌, ◌*◌, ◌≤◌, ◌<◌, ◌≡◌, refl, sym, ap, ◌∙◌, arith, leb, ◌==◌, if◌then◌else◌,
  List, [], ◌∷◌, ◌++◌, length, take, drop, none, some, length-drop, suc_==_zero, take_all,
  drop-append_le, take-append_le, take-append_ge, Bool-cases, inl, inr, leb→le, leb→lt, le→leb,
}
use kit_server.ByteArray.{Node, read_from, seek}
use kit_server.ByteArray.Nodes.{Uniform, flat}

-- What a walk of `read` returns, for a read of `n` bytes at `at` in the memory of `ns`.
pub record Taken (base at n : ℕ) (ns : List Node) (r : List ℕ × ℕ) : Type 0 where
  pub content : r.0 ≡ take n (drop at (flat ns))
  pub not_before : r.1 * base ≤ at + n
  pub not_behind : at + n < r.1 * base + base

pub read_from_lem :
    (base : ℕ) (ns : List Node) (npos n : ℕ)
    → Uniform base ns
    → npos < base
    → 0 < length ns
    → npos + n ≤ length ns * base
    → (r : List ℕ × ℕ) × (read_from ns npos n ≡ some r) × Taken base npos n ns r
unfolding read_from flat
read_from_lem base [] npos n u h p fits = absurd (omega arith)
read_from_lem base (m ∷ ms) npos zero u h p fits =
    (([], 0), refl, record { content = refl; not_before = omega arith; not_behind = omega arith })
read_from_lem base (m ∷ ms) npos (suc n) u h p fits =
    elim (Bool-cases (leb (suc n) (m.size - npos))) [
      | inl within ↦
          let le : suc n ≤ m.size - npos = leb→le _ _ within in
          rw (suc_==_zero n, within)
            (
              (take (suc n) (drop npos m.ptr), if m.size == npos + suc n then 1 else 0),
              refl,
              record {
                content = sym (
                    ap (take (suc n)) (drop-append_le npos m.ptr (flat ms) (omega arith))
                    ∙ take-append_le (suc n) (drop npos m.ptr) (flat ms)
                        (omega (arith, length-drop npos m.ptr)));
                not_before = ground arith;
                not_behind = ground arith;
              },
            )
      | inr across ↦
          let lt : m.size - npos < suc n = leb→lt _ _ across in
          let ncap = m.size - npos in
          let (r, e, t) =
            read_from_lem base ms 0 (suc n - ncap) u.2 (omega arith)
              (more_nodes (suc n - ncap) (length ms) base (omega arith) (omega arith))
              (omega arith) in
          rw (suc_==_zero n, across, e)
            (
              (take ncap (drop npos m.ptr) ++ r.0, suc r.1),
              refl,
              record {
                content =
                    ap (λ bs. bs ++ r.0)
                      (take_all ncap (drop npos m.ptr) (omega (arith, length-drop npos m.ptr)))
                    ∙ ap (◌++◌ (drop npos m.ptr)) t.content
                    ∙ sym (
                        ap (take (suc n)) (drop-append_le npos m.ptr (flat ms) (omega arith))
                        ∙ take-append_ge (suc n) (suc n - ncap) (drop npos m.ptr) (flat ms)
                            (omega (arith, length-drop npos m.ptr)));
                not_before = omega (arith, t.not_before);
                not_behind = omega (arith, t.not_behind);
              },
            )
    ]
  where
    more_nodes : (need len b : ℕ) → 0 < need → need ≤ len * b → 0 < len
    more_nodes need zero b p q = absurd (omega arith)
    more_nodes need (suc len) b p q = omega arith

-- `setPosition` finds the node of a position inside the capacity, and no node for its end.
pub seek_lem :
    (base : ℕ) (ns : List Node) (val : ℕ)
    → Uniform base ns
    → val < length ns * base
    → (k : ℕ) × (seek ns val ≡ some k) × (k * base ≤ val) × (val < k * base + base)
unfolding seek
seek_lem base [] val u h = absurd (omega arith)
seek_lem base (n ∷ ns) val u h = elim (Bool-cases (leb n.size val)) [
  | inl past ↦
      let le : n.size ≤ val = leb→le _ _ past in
      let (k, e, lo, hi) = seek_lem base ns (val - n.size) u.2 (omega arith) in
      rw (past, e) (suc k, refl, omega arith, omega arith)
  | inr here ↦
      let lt : val < n.size = leb→lt _ _ here in rw here (0, refl, omega arith, omega arith)
]

pub seek_end :
    (base : ℕ) (ns : List Node) (val : ℕ)
    → Uniform base ns
    → length ns * base ≤ val
    → seek ns val ≡ none
unfolding seek
seek_end base [] val u h = refl
seek_end base (n ∷ ns) val u h =
    rw (le→leb n.size val (omega arith), seek_end base ns (val - n.size) u.2 (omega arith))
