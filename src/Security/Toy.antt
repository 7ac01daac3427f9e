-- ===== src/Security/Toy.antt =====
-- A toy digest and encoding, with which tests run hashchain.py: a digest is 64 letters that depend on
-- the length of its input alone, and the encoding of a text is its code points.
use Prim.Native.Char.{code}
use package.text.Mathlib.TextEquality.{Char-path}
use lumine_hedge_fund.Prelude.{
  inl, inr, Bool-cases, ℕ, ◌%◌, ◌==◌, ◌≡◌, refl, List, [], ◌∷◌, String, if◌then◌else◌, length,
}

unfoldable pub points : String → List ℕ
points String.[] = []
points (String.◌∷◌ c s) = code c ∷ points s

pub points-injective : (s t : String) → points s ≡ points t → s ≡ t
unfolding points
points-injective String.[] String.[] h = refl
points-injective String.[] (String.◌∷◌ d t) h = absurd cc
points-injective (String.◌∷◌ c s) String.[] h = absurd cc
points-injective (String.◌∷◌ c s) (String.◌∷◌ d t) h =
    let here : code c ≡ code d = cc in
    let rest : points s ≡ points t = cc in
    λ i. String.◌∷◌ (Char-path c d here i) (points-injective s t rest i)

abbrev pub even_digest : String
even_digest = "aaaaaaaaaaaaaaaaaaaaaaaaaaaaaaaaaaaaaaaaaaaaaaaaaaaaaaaaaaaaaaaa"

abbrev pub odd_digest : String
odd_digest = "bbbbbbbbbbbbbbbbbbbbbbbbbbbbbbbbbbbbbbbbbbbbbbbbbbbbbbbbbbbbbbbb"

unfoldable pub digest : List ℕ → String
digest b = if length b % 2 == 0 then even_digest else odd_digest

pub digest_size : (b : List ℕ) → length (points (digest b)) ≡ 64
unfolding digest points
digest_size b = elim (Bool-cases (length b % 2 == 0)) [ inl e ↦ rw e refl | inr e ↦ rw e refl ]
