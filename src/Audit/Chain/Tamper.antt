-- ===== src/Audit/Chain/Tamper.antt =====
-- Two accepted chains (VerifyChain, audit/hashchain.go) with the same newest hash.
use Prim.Native.String.{◌++◌ as str_append}
use text.Mathlib.TextLemmas.{append-eq-nil_iff, cons-ne-nil as str_cons-ne-nil}
use mathlib.Core.List.{reverse, reverse-reverse}
use ai_governance_orchestrat.Prelude.{
  String, Option, none, some, List, [], ◌∷◌, ◌≡◌, refl, ◌≢◌, sym, ap, ◌∙◌, All,
}
use ai_governance_orchestrat.Audit.Event.{Event, Hasher, cleared, hash_text, canonical_hash}
use ai_governance_orchestrat.Audit.Chain.{verify_chain}
use ai_governance_orchestrat.Audit.Chain.Linked.{head_hash, Linked, verify_chain-eq-none_iff}

-- No event of `xs` collides with an event of `ys`: what SHA-256 over the canonical JSON is relied
-- on for, at the events that are compared.
abbrev pub CollisionFree : Hasher → List Event → List Event → Type 0
CollisionFree h xs ys =
    All (λ x. All (λ y. canonical_hash h x ≡ canonical_hash h y → cleared x ≡ cleared y) ys) xs

sha256_prefix-ne-nil : (s : String) → str_append "sha256:" s ≢ ""
sha256_prefix-ne-nil s e = str_cons-ne-nil _ _ (append-eq-nil_iff.0 e).0

hash_text-ne-nil : (h : Hasher) (bytes : Option String) → hash_text h bytes ≢ ""
hash_text-ne-nil h none e = str_cons-ne-nil _ _ e
hash_text-ne-nil h (some bytes) e = sha256_prefix-ne-nil (h.sha256_hex bytes) e

canonical_hash-ne-nil : (h : Hasher) (e : Event) → canonical_hash h e ≢ ""
unfolding canonical_hash
canonical_hash-ne-nil h e = hash_text-ne-nil h (h.marshal (cleared e))

same_event : (x y : Event) → x.event_hash ≡ y.event_hash → cleared x ≡ cleared y → x ≡ y
same_event x y p q = λ i. record (q i) { event_hash = p i }

CollisionFree-tail :
    (h : Hasher) (xs : List Event) (y : Event) (ys : List Event)
    → CollisionFree h xs (y ∷ ys)
    → CollisionFree h xs ys
CollisionFree-tail h [] y ys c = tt
CollisionFree-tail h (x ∷ xs) y ys c = (c.0.1, CollisionFree-tail h xs y ys c.1)

Linked-unique :
    (h : Hasher) (xs ys : List Event)
    → CollisionFree h xs ys
    → Linked h xs
    → Linked h ys
    → head_hash xs ≡ head_hash ys
    → xs ≡ ys
Linked-unique h [] [] c lx ly e = refl
Linked-unique h (x ∷ xs) [] c lx ly e = absurd (canonical_hash-ne-nil h x (sym lx.0 ∙ e))
Linked-unique h [] (y ∷ ys) c lx ly e = absurd (canonical_hash-ne-nil h y (sym ly.0 ∙ sym e))
Linked-unique h (x ∷ xs) (y ∷ ys) c lx ly e =
    let same = c.0.0 (sym lx.0 ∙ e ∙ ly.0) in
    let prev = ap (λ (w : Event). w.prev_event_hash) same in
    let older =
      Linked-unique h xs ys (CollisionFree-tail h xs y ys c.1) lx.2 ly.2 (sym lx.1 ∙ prev ∙ ly.1) in
    cc (same_event x y e same, older)

-- Two event lists that VerifyChain accepts, whose newest events carry the same hash (or that are
-- both empty), are the same list, provided that no event of one collides with an event of the
-- other: no event can be changed, inserted, dropped or moved below a head hash that is known.
pub verify_chain_unique :
    (h : Hasher) (xs ys : List Event)
    → CollisionFree h (reverse xs) (reverse ys)
    → verify_chain h xs ≡ none
    → verify_chain h ys ≡ none
    → head_hash (reverse xs) ≡ head_hash (reverse ys)
    → xs ≡ ys
verify_chain_unique h xs ys c vx vy e =
    let same =
      Linked-unique h (reverse xs) (reverse ys) c ((verify_chain-eq-none_iff h xs).0 vx)
        ((verify_chain-eq-none_iff h ys).0 vy) e in
    sym (reverse-reverse xs) ∙ ap reverse same ∙ reverse-reverse ys
