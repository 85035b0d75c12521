-- ===== src/Social/Counters/Tally.antt =====
-- A counter that the triggers keep, against the rows that it counts.
use mathlib.Core.Option as Option
use video_streaming_service.Common.{
  ℕ, ℤ, pos, negsuc, ◌≡◌, Bool, true, false, Option, none, some, ◌==◌,
}

abbrev pub is_exactly : ℤ → ℕ → Bool
is_exactly (pos n) m = n == m
is_exactly (negsuc n) m = false

-- The counter in a column of a row is the number of the rows that count; where the row is missing, no
-- row refers to it.
abbrev pub tallies {ℓ} : {A : Type ℓ} → (A → ℤ) → Option A → ℕ → ℕ → Bool
tallies column none referring counting = referring == 0
tallies column (some a) referring counting = is_exactly (column a) counting

-- Only the column of the row matters.
pub tallies_same :
    {A : Type 0} (column : A → ℤ) (o o' : Option A) (m n : ℕ)
    → Option.map column o' ≡ Option.map column o
    → tallies column o m n ≡ true
    → tallies column o' m n ≡ true
tallies_same column none none m n e h = h
tallies_same column none (some b) m n e h = cc
tallies_same column (some a) none m n e h = cc
tallies_same column (some a) (some b) m n e h = let same : column b ≡ column a = cc e in rw same h
