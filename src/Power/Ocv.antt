-- ===== src/Power/Ocv.antt =====
-- `voltageToPercent` (src/Services/PowerManager.cpp) on a table that descends.
use native.Mathlib.Nat.{
  div-le_of_le-mul, mul-le-mul_left, le-div_iff_mul-le, div-mul-le_self, mul-le-mul, mul_comm,
}
use esp32_sensor_firmware_pl.Prelude.{
  ℕ, ◌+◌, ◌*◌, ◌/◌, ◌-◌, ◌≤◌, ◌<◌, ◌≡◌, subst, ◌^◌, Bool, true, false, ◌&&◌, List, [], ◌∷◌, leb,
  ltb, u32, sub_u32, if◌then◌else◌, arith, inl, inr, Bool-cases,
}
use esp32_sensor_firmware_pl.Power.State.{OcvSocEntry}
use esp32_sensor_firmware_pl.Power.Battery.{interpolate, find_segment, voltage_to_percent}

-- Each entry lies below the one before it, in millivolts that fit in 16 bits, and none is above 100 %.
abbrev pub descends : OcvSocEntry → List OcvSocEntry → Bool
descends higher [] = leb higher.percent 100 && ltb higher.voltage_mv 65536
descends higher (lower ∷ rest) =
    leb higher.percent 100
    && ltb higher.voltage_mv 65536
    && ltb lower.voltage_mv higher.voltage_mv
    && leb lower.percent higher.percent
    && descends lower rest

div_mono : (a b c : ℕ) → 0 < c → a ≤ b → a / c ≤ b / c
div_mono a b c h le = (le-div_iff_mul-le h).1 (omega (arith, div-mul-le_self a c))

sub_u32-le : (a b : ℕ) → b ≤ a → a < 2 ^ 32 → sub_u32 a b ≡ a - b
sub_u32-le a b h k = omega arith

u32-lt : (n : ℕ) → n < 2 ^ 32 → u32 n ≡ n
u32-lt n h = omega arith

-- Between two entries, on voltages between theirs.
module _ (higher lower : OcvSocEntry) (top : higher.percent ≤ 100)
    (fits : higher.voltage_mv < 65536) (drop_mv : lower.voltage_mv < higher.voltage_mv)
    (drop_pc : lower.percent ≤ higher.percent) where
  abbrev line : ℕ → ℕ
  line v =
      (higher.percent - lower.percent)
      * (v - lower.voltage_mv)
      / (higher.voltage_mv - lower.voltage_mv)

  line-le : (v : ℕ) → v < higher.voltage_mv → line v ≤ higher.percent - lower.percent
  line-le v h =
      let offset : v - lower.voltage_mv ≤ higher.voltage_mv - lower.voltage_mv = omega arith in
      div-le_of_le-mul (higher.voltage_mv - lower.voltage_mv) (
        subst (λ k. (higher.percent - lower.percent) * (v - lower.voltage_mv) ≤ k)
          (mul_comm (higher.percent - lower.percent) (higher.voltage_mv - lower.voltage_mv))
          (mul-le-mul_left (higher.percent - lower.percent) offset))

  product-lt :
      (v : ℕ)
      → v < higher.voltage_mv
      → (higher.percent - lower.percent) * (v - lower.voltage_mv) < 2 ^ 32
  product-lt v hi =
      let le : (higher.percent - lower.percent) * (v - lower.voltage_mv) ≤ 100 * 65536 =
        mul-le-mul {n₂ = 100} {m₂ = 65536} (omega arith) (omega arith) in
      omega (arith, le)

  interpolate-line :
      (v : ℕ)
      → lower.voltage_mv < v
      → v < higher.voltage_mv
      → interpolate higher lower v ≡ lower.percent + line v
  unfolding interpolate
  interpolate-line v lo hi =
      rw
        (
          sub_u32-le higher.voltage_mv lower.voltage_mv (omega arith) (omega arith),
          sub_u32-le higher.percent lower.percent (omega arith) (omega arith),
          sub_u32-le v lower.voltage_mv (omega arith) (omega arith),
          u32-lt _ (product-lt v hi),
        )
        (ground (arith, line-le v hi))

  -- What the loop returns for a voltage above the lower entry.
  abbrev segment : ℕ → ℕ
  segment v = if leb higher.voltage_mv v then higher.percent else interpolate higher lower v

  segment-between :
      (v : ℕ) → lower.voltage_mv < v → (lower.percent ≤ segment v) × (segment v ≤ higher.percent)
  segment-between v lo = elim (Bool-cases (leb higher.voltage_mv v)) [
    | inl at_top ↦ rw at_top (drop_pc, omega arith)
    | inr under ↦
        let hi : v < higher.voltage_mv = ground arith in
        let le = line-le v hi in
        rw (under, interpolate-line v lo hi) (omega arith, omega (arith, le))
  ]

  segment_mono : (v w : ℕ) → lower.voltage_mv < v → v ≤ w → segment v ≤ segment w
  segment_mono v w lo le = elim (Bool-cases (leb higher.voltage_mv w)) [
    | inl at_top ↦ rw at_top (segment-between v lo).1
    | inr under ↦
        let hi : w < higher.voltage_mv = ground arith in
        let under' : leb higher.voltage_mv v ≡ false = ground arith in
        let offset : v - lower.voltage_mv ≤ w - lower.voltage_mv = omega arith in
        let lines : line v ≤ line w =
          div_mono _ _ (higher.voltage_mv - lower.voltage_mv) (omega arith)
            (mul-le-mul_left (higher.percent - lower.percent) offset) in
        rw (under, under', interpolate-line v lo (omega arith), interpolate-line w (omega arith) hi)
          (omega (arith, lines))
  ]

-- What a table that descends says of its first two entries.
record Falls (higher lower : OcvSocEntry) (rest : List OcvSocEntry) : Type 0 where
  top : higher.percent ≤ 100
  fits : higher.voltage_mv < 65536
  drop_mv : lower.voltage_mv < higher.voltage_mv
  drop_pc : lower.percent ≤ higher.percent
  below : descends lower rest ≡ true

descends-Falls :
    (higher lower : OcvSocEntry) (rest : List OcvSocEntry)
    → descends higher (lower ∷ rest) ≡ true
    → Falls higher lower rest
descends-Falls higher lower rest d = record {
  top = ground arith;
  fits = ground arith;
  drop_mv = ground arith;
  drop_pc = ground arith;
  below = ground arith;
}

find_segment-le :
    (v : ℕ) (higher : OcvSocEntry) (rest : List OcvSocEntry)
    → descends higher rest ≡ true
    → v ≤ higher.voltage_mv
    → find_segment v higher rest ≤ higher.percent
unfolding find_segment
find_segment-le v higher [] d h = omega arith
find_segment-le v higher (lower ∷ rest) d h =
    let f = descends-Falls higher lower rest d in
    elim (Bool-cases (ltb lower.voltage_mv v)) [
      | inl above ↦
          rw above
            (segment-between higher lower f.top f.fits f.drop_mv f.drop_pc v (ground arith)).1
      | inr under ↦
          let further = find_segment-le v lower rest f.below (ground arith) in
          rw under (omega (arith, further, f.drop_pc))
    ]

find_segment_mono :
    (v w : ℕ) (higher : OcvSocEntry) (rest : List OcvSocEntry)
    → descends higher rest ≡ true
    → v ≤ w
    → w ≤ higher.voltage_mv
    → find_segment v higher rest ≤ find_segment w higher rest
unfolding find_segment
find_segment_mono v w higher [] d le h = omega arith
find_segment_mono v w higher (lower ∷ rest) d le h =
    let f = descends-Falls higher lower rest d in
    let between = segment-between higher lower f.top f.fits f.drop_mv f.drop_pc w in
    elim (Bool-cases (ltb lower.voltage_mv v)) [
      | inl above ↦
          let above' : ltb lower.voltage_mv w ≡ true = ground arith in
          rw (above, above')
            (segment_mono higher lower f.top f.fits f.drop_mv f.drop_pc v w (ground arith) le)
      | inr under ↦ elim (Bool-cases (ltb lower.voltage_mv w)) [
        | inl above ↦
            let further = find_segment-le v lower rest f.below (ground arith) in
            let lower_le = (between (ground arith)).0 in
            rw (under, above) (omega (arith, further, lower_le))
        | inr under' ↦
            rw (under, under') (find_segment_mono v w lower rest f.below le (ground arith))
      ]
    ]

top-descends :
    (first : OcvSocEntry) (rest : List OcvSocEntry)
    → descends first rest ≡ true
    → first.percent ≤ 100
top-descends first [] d = ground arith
top-descends first (e ∷ rest) d = (descends-Falls first e rest d).top

-- On a table that descends, a higher voltage never shows a lower charge, and no charge is above 100 %.
pub voltage_to_percent_mono :
    (first : OcvSocEntry) (rest : List OcvSocEntry) (v w : ℕ)
    → descends first rest ≡ true
    → v ≤ w
    → (voltage_to_percent (first ∷ rest) v ≤ voltage_to_percent (first ∷ rest) w)
      × (voltage_to_percent (first ∷ rest) w ≤ 100)
unfolding voltage_to_percent
voltage_to_percent_mono first rest v w d le = elim (Bool-cases (leb first.voltage_mv w)) [
  | inl full ↦ elim (Bool-cases (leb first.voltage_mv v)) [
    | inl full' ↦ rw (full, full') (omega arith, omega arith)
    | inr part ↦
        let top = top-descends first rest d in
        let at_most = find_segment-le v first rest d (ground arith) in
        rw (full, part) (ground (arith, top, at_most), omega arith)
  ]
  | inr part ↦
      let top = top-descends first rest d in
      let at_most = find_segment-le w first rest d (ground arith) in
      let mono = find_segment_mono v w first rest d le (ground arith) in
      ground (arith, top, at_most, mono)
]
