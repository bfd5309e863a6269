-- ===== src/Logger/Windows.antt =====
-- The full windows of a list of samples.
use native.Mathlib.Nat.{suc-add}
use esp32_sensor_firmware_pl.Logger.Window.{LoggerConfig}
use esp32_sensor_firmware_pl.Prelude.{
  ap₂, ℕ, zero, suc, ◌+◌, ◌≤◌, ◌<◌, ◌≡◌, refl, sym, ap, ◌∙◌, List, [], ◌∷◌, ◌++◌, leb, ltb, length,
  length-append, set, take, drop, take-append, if◌then◌else◌, if_true, if_false, arith,
}

-- How far a window moves: by the stride, and by the whole window where the stride is larger.
abbrev pub step_of : LoggerConfig → ℕ
step_of cfg = if ltb cfg.window_stride cfg.window_size then cfg.window_stride else cfg.window_size

-- The full windows of a list, at every multiple of the step; the fuel bounds their number.
unfoldable pub windows_of {ℓ} : {A : Type ℓ} → LoggerConfig → ℕ → List A → List (List A)
windows_of cfg zero xs = []
windows_of cfg (suc n) xs =
    let rest = windows_of cfg n (drop (step_of cfg) xs) in
    if leb cfg.window_size (length xs) then take cfg.window_size xs ∷ rest else []

module _ {ℓ} {A : Type ℓ} where
  pub take-set :
      (xs : List A) (i : ℕ) (v : A)
      → i < length xs
      → take (i + 1) (set xs i v) ≡ take i xs ++ (v ∷ [])
  take-set [] i v h = absurd (omega arith)
  take-set (x ∷ xs) zero v h = refl
  take-set (x ∷ xs) (suc i) v h = rw suc-add (ap (λ l. x ∷ l) (take-set xs i v (omega arith)))

  pub take_all : (n : ℕ) (xs : List A) → length xs ≤ n → take n xs ≡ xs
  take_all zero [] h = refl
  take_all zero (x ∷ xs) h = absurd (omega arith)
  take_all (suc n) [] h = refl
  take_all (suc n) (x ∷ xs) h = ap (λ l. x ∷ l) (take_all n xs (omega arith))

  pub drop_all : (n : ℕ) (xs : List A) → length xs ≤ n → drop n xs ≡ []
  drop_all zero [] h = refl
  drop_all zero (x ∷ xs) h = absurd (omega arith)
  drop_all (suc n) [] h = refl
  drop_all (suc n) (x ∷ xs) h = drop_all n xs (omega arith)

  drop_part : (n : ℕ) (xs ys : List A) → n ≤ length xs → drop n (xs ++ ys) ≡ drop n xs ++ ys
  drop_part zero xs ys h = refl
  drop_part (suc n) [] ys h = absurd (omega arith)
  drop_part (suc n) (x ∷ xs) ys h = drop_part n xs ys (omega arith)

  -- The windows of a list that starts with a full one.
  pub windows_of-full :
      (cfg : LoggerConfig) (n : ℕ) (q ys : List A)
      → length q ≡ cfg.window_size
      → windows_of cfg (suc n) (q ++ ys) ≡ q ∷ windows_of cfg n (drop (step_of cfg) q ++ ys)
  unfolding windows_of
  windows_of-full cfg n q ys full =
      let room : cfg.window_size ≤ length (q ++ ys) = omega (arith, length-append q ys, full) in
      let step : step_of cfg ≤ length q = ground (arith, full) in
      if_true (leb cfg.window_size (length (q ++ ys))) _ _ (ground (arith, room))
      ∙ ap₂ (λ w ws. w ∷ ws) (ap (λ k. take k (q ++ ys)) (sym full) ∙ take-append q ys)
          (ap (windows_of cfg n) (drop_part (step_of cfg) q ys step))

  -- No window fits in what is too short.
  pub windows_of-short :
      (cfg : LoggerConfig) (n : ℕ) (xs : List A)
      → length xs < cfg.window_size
      → windows_of cfg n xs ≡ []
  unfolding windows_of
  windows_of-short cfg zero xs h = refl
  windows_of-short cfg (suc n) xs h = if_false (leb cfg.window_size (length xs)) _ _ (ground arith)
