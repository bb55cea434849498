-- ===== src/Session/Patch/Paths.antt =====
-- Where the paths of a patch (governance/patch_buffer.go) lead, read without the functions that test
-- them.
use ai_governance_orchestrat.Prelude.Text.{same_text}
use ai_governance_orchestrat.Prelude.{
  ℕ, ◌≤◌, ◌||◌, List, [], ◌∷◌, ◌≡◌, ◌⊎◌, if◌then◌else◌, drop, nat_eq,
}
use ai_governance_orchestrat.Session.Patch.{dot, dot_dot}

-- The names between slashes and backslashes, the empty ones too.
abbrev pub onto_first : ℕ → List (List ℕ) → List (List ℕ)
onto_first c [] = (c ∷ []) ∷ []
onto_first c (name ∷ names) = (c ∷ name) ∷ names

abbrev pub names_of : List ℕ → List (List ℕ)
names_of [] = [] ∷ []
names_of (c ∷ cs) =
    let later = names_of cs in
    if nat_eq c b'/' || nat_eq c b'\\' then [] ∷ later else onto_first c later

-- The directory that a file system reaches from `base`, innermost first, by the names of a path: an
-- empty name and `.` stay, `..` climbs.
abbrev pub walk : List (List ℕ) → List (List ℕ) → List (List ℕ)
walk base [] = base
walk base ([] ∷ names) = walk base names
walk base ((c ∷ cs) ∷ names) =
    walk
      (if same_text (c ∷ cs) dot
        then base
        else if same_text (c ∷ cs) dot_dot
        then drop 1 base
        else (c ∷ cs) ∷ base)
      names

-- The directory that is reached by entering every name.
abbrev pub onto : List (List ℕ) → List (List ℕ) → List (List ℕ)
onto base [] = base
onto base ([] ∷ names) = onto base names
onto base ((c ∷ cs) ∷ names) = onto ((c ∷ cs) ∷ base) names

-- A letter, of either case.
abbrev pub Letter : ℕ → Type 0
Letter c = ((b'A' ≤ c) × (c ≤ b'Z')) ⊎ ((b'a' ≤ c) × (c ≤ b'z'))

-- A path from a root: it starts with a slash, or with a drive's letter, a colon and a separator.
abbrev pub Rooted : List ℕ → Type 0
Rooted cs =
    ((rest : List ℕ) × (cs ≡ b'/' ∷ rest))
    ⊎ ((c : ℕ) × (sep : ℕ) × (rest : List ℕ) × (cs ≡ c ∷ b':' ∷ sep ∷ rest)
        × Letter c
        × ((sep ≡ b'/') ⊎ (sep ≡ b'\\')))
