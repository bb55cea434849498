-- ===== src/Policy/Classification/Levels.antt =====
-- The four levels as a type, and what the text comparison means for them.
use ai_governance_orchestrat.Prelude.Text.{codes, same_text, same_text_iff, to_lower, trim_space}
use ai_governance_orchestrat.Prelude.{
  ℕ, String, Bool, Option, none, some, List, [], ◌∷◌, ◌≡◌, refl, ◌⊎◌, inl, inr, Bool-cases, ◌↔◌,
  ltb, arith,
}
use ai_governance_orchestrat.Policy.Classification.{
  ok, or_internal, classification_rank, normalize, compare_ranks, classification_exceeds_max,
}

pub data Level : Type 0 where
  public internal confidential restricted : Level

abbrev pub level_name : Level → String
level_name public = "public"
level_name internal = "internal"
level_name confidential = "confidential"
level_name restricted = "restricted"

-- How sensitive a level is.
abbrev pub rank : Level → ℕ
rank public = 0
rank internal = 1
rank confidential = 2
rank restricted = 3

-- A text names a level in any case and with any surrounding space; a blank text names `internal`.
abbrev pub Names : String → Level → Type 0
Names s l =
    (to_lower (trim_space (codes s)) ≡ codes (level_name l))
    ⊎ ((to_lower (trim_space (codes s)) ≡ []) × (l ≡ internal))

or_internal-Names :
    (t : List ℕ) (l : Level)
    → (t ≡ codes (level_name l)) ⊎ ((t ≡ []) × (l ≡ internal))
    → or_internal t ≡ codes (level_name l)
unfolding or_internal
or_internal-Names t public (inl e) = rw e
or_internal-Names t internal (inl e) = rw e
or_internal-Names t confidential (inl e) = rw e
or_internal-Names t restricted (inl e) = rw e
or_internal-Names t l (inr (e, d)) = rw (e, d)

Names-or_internal :
    (t : List ℕ) (l : Level)
    → or_internal t ≡ codes (level_name l)
    → (t ≡ codes (level_name l)) ⊎ ((t ≡ []) × (l ≡ internal))
unfolding or_internal
Names-or_internal [] public e = ground arith
Names-or_internal [] internal e = inr (refl, refl)
Names-or_internal [] confidential e = ground arith
Names-or_internal [] restricted e = ground arith
Names-or_internal (c ∷ cs) l e = inl e

normalize-Names : (s : String) (l : Level) → Names s l → normalize s ≡ codes (level_name l)
unfolding normalize
normalize-Names s l n = or_internal-Names _ l n

Names-normalize : (s : String) (l : Level) → normalize s ≡ codes (level_name l) → Names s l
unfolding normalize
Names-normalize s l e = Names-or_internal _ l e

rank_of_name : (l : Level) → classification_rank (codes (level_name l)) ≡ some (rank l)
unfolding classification_rank
rank_of_name public = refl
rank_of_name internal = refl
rank_of_name confidential = refl
rank_of_name restricted = refl

level_of_rank :
    (name : List ℕ) (v : ℕ)
    → classification_rank name ≡ some v
    → (l : Level) × (name ≡ codes (level_name l)) × (v ≡ rank l)
unfolding classification_rank
level_of_rank name v e = elim (Bool-cases (same_text name (codes "public"))) [
  | inl a ↦ (public, (same_text_iff _ _).0 a, ground arith)
  | inr a ↦ elim (Bool-cases (same_text name (codes "internal"))) [
    | inl b ↦ (internal, (same_text_iff _ _).0 b, ground arith)
    | inr b ↦ elim (Bool-cases (same_text name (codes "confidential"))) [
      | inl c ↦ (confidential, (same_text_iff _ _).0 c, ground arith)
      | inr c ↦ elim (Bool-cases (same_text name (codes "restricted"))) [
        | inl d ↦ (restricted, (same_text_iff _ _).0 d, ground arith)
        | inr d ↦ absurd (ground arith)
      ]
    ]
  ]
]

compare_ranks-ok :
    (c m : List ℕ) (x y : Option ℕ) (b : Bool)
    → compare_ranks c m x y ≡ ok b
    → (value max : ℕ) × (x ≡ some value) × (y ≡ some max) × (b ≡ ltb max value)
unfolding compare_ranks
compare_ranks-ok c m none y b e = absurd (cc)
compare_ranks-ok c m (some value) none b e = absurd (cc)
compare_ranks-ok c m (some value) (some max) b e = (value, max, refl, refl, ground arith)

-- The ceiling test decides, without an error, exactly the pairs of texts that both name a level,
-- and then says whether the first level is strictly more sensitive than the second.
pub classification_exceeds_max-eq-ok_iff :
    (classification max : String) (b : Bool)
    → (classification_exceeds_max classification max ≡ ok b)
      ↔ ((l m : Level) × Names classification l × Names max m × (b ≡ ltb (rank m) (rank l)))
unfolding classification_exceeds_max
classification_exceeds_max-eq-ok_iff classification max b = (
  λ e.
      let (value, top, ev, et, eb) = compare_ranks-ok _ _ _ _ b e in
      let (l, el, vl) = level_of_rank _ value ev in
      let (m, em, vm) = level_of_rank _ top et in
      (l, m, Names-normalize classification l el, Names-normalize max m em, rw (eb, vl, vm)),
  λ (l, m, nl, nm, eb).
      rw
        (
          normalize-Names classification l nl,
          normalize-Names max m nm,
          rank_of_name l,
          rank_of_name m,
        )
        (rw (compare_ranks, eb)),
)
