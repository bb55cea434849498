-- ===== src/Audit/Timestamp.antt =====
-- The order of `recorded_at` in the SQLite audit store (ai-agent-orch/internal/audit/sqlite.go):
-- the column holds `RecordedAt.Format(time.RFC3339Nano)` of a UTC time, and the queries compare
-- it as text. Date and time to the second have a fixed width from year 0 to 9999, so their text
-- order is that of the second; the fraction is written without its trailing zeros.
use Prim.Native.Nat.{◌/◌, ◌%◌, ◌^◌}
use ai_governance_orchestrat.Prelude.{
  ℕ, zero, suc, ◌+◌, ◌*◌, ◌<◌, Bool, true, false, List, [], ◌∷◌, ◌++◌, ◌≡◌, refl, arith, ltb,
  nat_eq, if◌then◌else◌,
}

-- Nanoseconds in a second.
abbrev pub second : ℕ
second = 1000000000

-- The `n` low decimal digits of a number, as characters, the highest first.
unfoldable pub digit_chars : ℕ → ℕ → List ℕ
digit_chars zero x = []
digit_chars (suc n) x = (b'0' + x / 10 ^ n % 10) ∷ digit_chars n x

unfoldable pub trim_zeros : List ℕ → List ℕ
trim_zeros [] = []
trim_zeros (c ∷ cs) = keep (trim_zeros cs)
  where
    keep : List ℕ → List ℕ
    keep [] = if nat_eq c b'0' then [] else c ∷ []
    keep (d ∷ ds) = c ∷ d ∷ ds

-- ".999999999" of the layout: nothing for a whole second.
fraction : ℕ → List ℕ
fraction nanos = if nat_eq nanos 0 then [] else b'.' ∷ trim_zeros (digit_chars 9 nanos)

-- The column text, its fixed-width part as the one number that it sorts by.
unfoldable pub recorded_text : ℕ → List ℕ
unfolding fraction
recorded_text t = t / second ∷ fraction (t % second) ++ b'Z' ∷ []

unfoldable pub text_le : List ℕ → List ℕ → Bool
text_le [] ys = true
text_le (x ∷ xs) [] = false
text_le (x ∷ xs) (y ∷ ys) =
    let rest = text_le xs ys in if ltb x y then true else if ltb y x then false else rest

-- `a` sorts no later than `b`.
unfoldable pub sorts_before : ℕ → ℕ → Bool
unfolding recorded_text text_le
sorts_before a b = text_le (recorded_text a) (recorded_text b)

-- The text order is the order of time between times of different seconds.
pub sorts_before-seconds :
    (a b : ℕ) → a / second < b / second → (sorts_before a b ≡ true) × (sorts_before b a ≡ false)
unfolding sorts_before
sorts_before-seconds a b h = ground arith

whole_second : (s : ℕ) → s * second / second ≡ s
whole_second s = omega arith

whole_second_rest : (s : ℕ) → s * second % second ≡ 0
whole_second_rest s = omega arith

part_second : (s nanos : ℕ) → nanos < second → (s * second + nanos) / second ≡ s
part_second s nanos h = omega arith

part_second_rest : (s nanos : ℕ) → nanos < second → (s * second + nanos) % second ≡ nanos
part_second_rest s nanos h = omega arith

-- The text order is not the order of time within a second: a time at a whole second sorts after
-- every other time of that second, although it is the earliest.
pub whole_second-sorts_last :
    (s nanos : ℕ)
    → 0 < nanos
    → nanos < second
    → (sorts_before (s * second) (s * second + nanos) ≡ false)
      × (sorts_before (s * second + nanos) (s * second) ≡ true)
unfolding sorts_before
whole_second-sorts_last s nanos p q =
    rw (whole_second s, whole_second_rest s, part_second s nanos q, part_second_rest s nanos q)
      (ground arith)

quarter : recorded_text 3250000000 ≡ 3 ∷ b'.' ∷ b'2' ∷ b'5' ∷ b'Z' ∷ []
unfolding recorded_text digit_chars trim_zeros
quarter = refl
