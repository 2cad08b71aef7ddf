-- ===== src/ByteArray/Buffers/Windows.antt =====
-- The windows name exactly the bytes that they are for.
use kit_server.Common.{
  ℕ, zero, suc, ◌+◌, ◌-◌, ◌*◌, ◌≤◌, ◌<◌, ◌≡◌, refl, sym, ap, ◌∙◌, arith, ltb, leb, ◌==◌,
  if◌then◌else◌, List, [], ◌∷◌, ◌++◌, length, take, drop, get_elem?, Option, none, some, Bool-cases,
  inl, inr, leb→le, leb→lt, lt→ltb, not_lt→ltb, le→leb, not_le→leb, suc_==_zero, take-append_le,
  take-append_ge, drop-append_le, take_all, length-drop, dec_lt,
}
use mathlib.Core.List.{append-nil}
use mathlib.Core.Option
use kit_server.ByteArray.{Node}
use kit_server.ByteArray.Nodes.{Uniform, flat}
use kit_server.ByteArray.Buffers.{Window, read_windows, write_windows}

-- The bytes that a window, and a row of windows, stand for.
abbrev pub ptr_of : Option Node → List ℕ
ptr_of none = []
ptr_of (some n) = n.ptr

abbrev pub window_bytes : List Node → Window → List ℕ
window_bytes ns w = take w.len (drop w.offset (ptr_of (get_elem? ns w.node)))

abbrev pub gather : List Node → List Window → List ℕ
gather ns [] = []
gather ns (w ∷ ws) = window_bytes ns w ++ gather ns ws

at_drop :
    (k : ℕ) (all : List Node) (n : Node) (ns : List Node)
    → drop k all ≡ n ∷ ns
    → (get_elem? all k ≡ some n) × (drop (suc k) all ≡ ns)
at_drop zero [] n ns e = absurd (cc)
at_drop zero (m ∷ ms) n ns e = ground arith
at_drop (suc k) [] n ns e = absurd (cc)
at_drop (suc k) (m ∷ ms) n ns e = at_drop k ms n ns e

-- The windows of a part that ends inside the nodes, or, for `write_windows`, at their end.
pub write_windows_lem :
    (base : ℕ) (all ns : List Node) (k npos len : ℕ)
    → drop k all ≡ ns
    → Uniform base ns
    → npos < base
    → 0 < len
    → npos + len ≤ length ns * base
    → (ws : List Window) × (write_windows ns k npos len ≡ some ws)
      × (gather all ws ≡ take len (drop npos (flat ns)))
unfolding write_windows flat
write_windows_lem base all [] k npos len e u h p fits = absurd (omega arith)
write_windows_lem base all (n ∷ ns) k npos zero e u h p fits = absurd (omega arith)
write_windows_lem base all (n ∷ ns) k npos (suc len) e u h p fits =
    let (here, behind) = at_drop k all n ns e in
    let front = drop-append_le npos n.ptr (flat ns) (omega arith) in
    elim (Bool-cases (leb (suc len) (n.size - npos))) [
      | inl within ↦
          let le : suc len ≤ n.size - npos = leb→le _ _ within in
          rw (suc_==_zero len, within)
            (
              record { node = k; offset = npos; len = suc len } ∷ [],
              refl,
              append-nil _
                  ∙ ap (λ o. take (suc len) (drop npos (ptr_of o))) here
                  ∙ sym (
                      ap (take (suc len)) front
                      ∙ take-append_le (suc len) (drop npos n.ptr) (flat ns)
                          (omega (arith, length-drop npos n.ptr))),
            )
      | inr across ↦
          let lt : n.size - npos < suc len = leb→lt _ _ across in
          let ncap = n.size - npos in
          let (ws, eq, g) =
            write_windows_lem base all ns (suc k) 0 (suc len - ncap) behind u.2 (omega arith)
              (omega arith) (omega arith) in
          rw (suc_==_zero len, across, eq)
            (
              record { node = k; offset = npos; len = ncap } ∷ ws,
              refl,
              ap (λ o. take ncap (drop npos (ptr_of o)) ++ gather all ws) here
                  ∙ ap (λ bs. bs ++ gather all ws)
                      (take_all ncap (drop npos n.ptr) (omega (arith, length-drop npos n.ptr)))
                  ∙ ap (◌++◌ (drop npos n.ptr)) g
                  ∙ sym (
                      ap (take (suc len)) front
                      ∙ take-append_ge (suc len) (suc len - ncap) (drop npos n.ptr) (flat ns)
                          (omega (arith, length-drop npos n.ptr))),
            )
    ]

read_windows_zero : (ns : List Node) (k : ℕ) → 0 < length ns → read_windows ns k 0 0 ≡ some []
unfolding read_windows
read_windows_zero [] k h = absurd (omega arith)
read_windows_zero (n ∷ ns) k h = refl

more_nodes : (need len b : ℕ) → need < len * b → 0 < len
more_nodes need zero b p = absurd (omega arith)
more_nodes need (suc len) b p = omega arith

-- Inside the nodes the two loops give the same windows.
pub read_windows-eq-write_windows :
    (base : ℕ) (ns : List Node) (k npos len : ℕ)
    → Uniform base ns
    → npos < base
    → 0 < len
    → npos + len < length ns * base
    → read_windows ns k npos len ≡ write_windows ns k npos len
unfolding read_windows write_windows
read_windows-eq-write_windows base [] k npos len u h p fits = absurd (omega arith)
read_windows-eq-write_windows base (n ∷ ns) k npos zero u h p fits = absurd (omega arith)
read_windows-eq-write_windows base (n ∷ ns) k npos (suc len) u h p fits =
    let ncap = n.size - npos in
    elim (dec_lt (suc len) ncap) [
      | yes inside ↦
          rw (suc_==_zero len, lt→ltb (suc len) ncap inside, le→leb (suc len) ncap (omega arith))
      | no past ↦ elim (dec_lt ncap (suc len)) [
        | yes across ↦
            rw
              (
                suc_==_zero len,
                not_lt→ltb (suc len) ncap (omega arith),
                not_le→leb (suc len) ncap across,
              )
              (ap (Option.map (λ ws. record { node = k; offset = npos; len = ncap } ∷ ws)) (
                read_windows-eq-write_windows base ns (suc k) 0 (suc len - ncap) u.2 (omega arith)
                  (omega arith) (omega arith)))
        | no exact ↦
            let all_of_it : suc len ≡ ncap = omega arith in
            let nothing : suc len - ncap ≡ 0 = omega arith in
            rw
              (
                suc_==_zero len,
                not_lt→ltb (suc len) ncap (omega arith),
                le→leb (suc len) ncap (omega arith),
                nothing,
                read_windows_zero ns (suc k) (more_nodes 0 (length ns) base (omega arith)),
              )
              (ap (λ (j : ℕ). some (record { node = k; offset = npos; len = j } ∷ []))
                (sym all_of_it))
      ]
    ]

-- At the very end of the nodes `getReadBuf` follows the null pointer.
pub read_windows_end :
    (base : ℕ) (ns : List Node) (k npos len : ℕ)
    → Uniform base ns
    → npos < base
    → 0 < len
    → npos + len ≡ length ns * base
    → read_windows ns k npos len ≡ none
unfolding read_windows
read_windows_end base [] k npos len u h p fits = refl
read_windows_end base (n ∷ ns) k npos zero u h p fits = absurd (omega arith)
read_windows_end base (n ∷ ns) k npos (suc len) u h p fits =
    let ncap = n.size - npos in
    elim (dec_lt ncap (suc len)) [
      | yes across ↦ rw (
        suc_==_zero len,
        not_lt→ltb (suc len) ncap (omega arith),
        read_windows_end base ns (suc k) 0 (suc len - ncap) u.2 (omega arith) (omega arith)
            (omega arith),
      )
      | no rest ↦ last_node ns u.2 (not_across rest)
    ]
  where
    not_across : ¬ (n.size - npos < suc len) → length ns * base ≡ 0
    not_across c = omega arith

    last_node :
        (ms : List Node)
        → Uniform base ms
        → length ms * base ≡ 0
        → (if suc len == 0
            then some []
            else (if ltb (suc len) (n.size - npos)
                then some (record { node = k; offset = npos; len = suc len } ∷ [])
                else Option.map
                    (λ ws. record { node = k; offset = npos; len = n.size - npos } ∷ ws)
                    (read_windows ms (suc k) 0 (suc len - (n.size - npos)))))
          ≡ none
    last_node [] v z = rw (suc_==_zero len, not_lt→ltb (suc len) (n.size - npos) (omega arith))
    last_node (m ∷ ms) v z = absurd (omega arith)
