-- ===== src/Tuning/Layout/Sizes.antt =====
-- A larger window that is tried takes at least the memory of every smaller one.
use bc3_online_miner.Common.{
  ℕ, zero, suc, ◌+◌, ◌≤◌, ◌<◌, true, List, [], ◌∷◌, ◌≡◌, refl, subst, ◌⊎◌, arith, leb,
  if◌then◌else◌, inl, inr, All,
}
use bc3_online_miner.Tuning.Layout.{bigger, start_window, table_bytes}

abbrev range : ℕ → ℕ → List ℕ
range a zero = []
range a (suc n) = a ∷ range (a + 1) n

le-split : (a w : ℕ) → a ≤ w → (a ≡ w) ⊎ (a + 1 ≤ w)
le-split a w h = ground arith

All-range : (P : ℕ → Type 0) (n a w : ℕ) → All P (range a n) → a ≤ w → w < a + n → P w
All-range P zero a w h l u = absurd (omega arith)
All-range P (suc n) a w h l u = elim (le-split a w l) [
  | inl e ↦ subst P e h.0
  | inr above ↦ All-range P n (a + 1) w h.1 above (omega arith)
]

abbrev Grows : (ℕ → ℕ) → ℕ → ℕ → Type 0
Grows size v w = (if leb w v then leb (size w) (size v) else true) ≡ true

Grows-le : (size : ℕ → ℕ) (v w : ℕ) → Grows size v w → w ≤ v → size w ≤ size v
Grows-le size v w g h = ground arith

-- At the windows 17 to 24.
abbrev pub Tops : ℕ → Type 0
Tops v = (v ≤ 24) × All (Grows table_bytes v) (range 17 8)

pub bigger-Tops : All Tops bigger
unfolding table_bytes
bigger-Tops = (
  (omega arith, (refl, (refl, (refl, (refl, (refl, (refl, (refl, (refl, tt))))))))),
  (
    (omega arith, (refl, (refl, (refl, (refl, (refl, (refl, (refl, (refl, tt))))))))),
    (
      (omega arith, (refl, (refl, (refl, (refl, (refl, (refl, (refl, (refl, tt))))))))),
      (
        (omega arith, (refl, (refl, (refl, (refl, (refl, (refl, (refl, (refl, tt))))))))),
        ((omega arith, (refl, (refl, (refl, (refl, (refl, (refl, (refl, (refl, tt))))))))), tt),
      ),
    ),
  ),
)

pub Tops-le : (v w : ℕ) → Tops v → start_window < w → w ≤ v → table_bytes w ≤ table_bytes v
Tops-le v w t l u =
    Grows-le table_bytes v w
      (All-range (Grows table_bytes v) 8 17 w t.1 (omega arith) (omega (arith, t.0))) u
