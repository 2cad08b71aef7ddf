-- ===== src/Http/Headers/Order.antt =====
-- kit_server/http/http.cpp: CaseInsensitiveLess is a strict order, total up to case.
use kit_server.Common.{◌≡◌, refl, arith, dec_lt, [], ◌∷◌, true, false}
use kit_server.Http.Method.{Text}
use kit_server.Http.Headers.{text_less}

-- How two texts stand to each other.
pub data Compared (u v : Text) : Type 0 where
  below : text_less u v ≡ true → text_less v u ≡ false → Compared u v
  equal : u ≡ v → Compared u v
  above : text_less v u ≡ true → text_less u v ≡ false → Compared u v

pub text_less_irrefl : (u : Text) → text_less u u ≡ false
unfolding text_less
text_less_irrefl [] = refl
text_less_irrefl (a ∷ u) = ground (arith, text_less_irrefl u)

pub text_less_trans :
    (u v w : Text) → text_less u v ≡ true → text_less v w ≡ true → text_less u w ≡ true
unfolding text_less
text_less_trans [] [] w h k = ground (arith, h)
text_less_trans [] (b ∷ v) [] h k = ground (arith, k)
text_less_trans [] (b ∷ v) (c ∷ w) h k = refl
text_less_trans (a ∷ u) [] w h k = ground (arith, h)
text_less_trans (a ∷ u) (b ∷ v) [] h k = ground (arith, k)
text_less_trans (a ∷ u) (b ∷ v) (c ∷ w) h k = ground (arith, text_less_trans u v w)

pub text_less_asym : (u v : Text) → text_less u v ≡ true → text_less v u ≡ false
unfolding text_less
text_less_asym [] [] h = refl
text_less_asym [] (b ∷ v) h = refl
text_less_asym (a ∷ u) [] h = ground (arith, h)
text_less_asym (a ∷ u) (b ∷ v) h = ground (arith, text_less_asym u v)

pub compare_text : (u v : Text) → Compared u v
unfolding text_less
compare_text [] [] = equal refl
compare_text [] (b ∷ v) = below refl refl
compare_text (a ∷ u) [] = above refl refl
compare_text (a ∷ u) (b ∷ v) = elim (dec_lt a b) [
  | yes l ↦ below (ground arith) (ground arith)
  | no n ↦ elim (dec_lt b a) [
    | yes g ↦ above (ground arith) (ground arith)
    | no m ↦ step (omega arith) (compare_text u v)
  ]
]
  where
    step : a ≡ b → Compared u v → Compared (a ∷ u) (b ∷ v)
    step e (below p q) = below (ground arith) (ground arith)
    step e (equal q) = equal (rw (e, q) refl)
    step e (above p q) = above (ground arith) (ground arith)
