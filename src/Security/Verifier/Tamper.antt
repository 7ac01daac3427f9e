-- ===== src/Security/Verifier/Tamper.antt =====
-- Tables with one head hash: verifier.py, `verify_rows`, over hashchain.py. That SHA-256 has no
-- collisions is not assumed.
use mathlib.Core.List.{List-discrete}
use native.Mathlib.Decide.{ℕ_discrete}
use lumine_hedge_fund.Prelude.{
  ℕ, ◌≡◌, ◌≢◌, ◌⊎◌, refl, sym, ◌∙◌, ap, inl, inr, true, Option, none, some, List, [], ◌∷◌, ◌++◌,
  String, arith, length,
}
use lumine_hedge_fund.Security.HashChain.{
  Row, Library, mapped, digest_of, canonical_json, compute_self_hash, present_row_for_hash,
  compute_chain_pair, genesis_prev_hash, column,
}
use lumine_hedge_fund.Security.Verifier.{
  ChainedTable, VerificationResult, valid, Cursor, advanced, start, verify_rows,
}
use lumine_hedge_fund.Security.Verifier.Linked.{
  Continues, IsChain, behind, verify_rows-valid_iff, head_of_valid,
}

-- Two inputs with one SHA-256 digest.
abbrev pub Collision : Library → Type 0
Collision lib = (a : List ℕ) × (b : List ℕ) × (a ≢ b) × (lib.sha256_hex a ≡ lib.sha256_hex b)

-- The canonical text that a row's hash covers.
abbrev pub hashed_text : Library → Row → String → Option (List ℕ)
hashed_text lib row prev_hash = canonical_json lib (present_row_for_hash lib row prev_hash)

-- Row for row, the same previous hash and the same canonical text.
abbrev pub SameRows : Library → ChainedTable → Cursor → List Row → Cursor → List Row → Type 0
SameRows lib table c [] d [] = Unit
SameRows lib table c [] d (s ∷ ss) = ⊥
SameRows lib table c (r ∷ rs) d [] = ⊥
SameRows lib table c (r ∷ rs) d (s ∷ ss) =
    (c.previous ≡ d.previous)
    × (hashed_text lib r c.previous ≡ hashed_text lib s d.previous)
    × SameRows lib table (advanced lib table c r) rs (advanced lib table d s) ss

append_cancel :
    (xs ys : List ℕ) {us vs : List ℕ}
    → length xs ≡ length ys
    → xs ++ us ≡ ys ++ vs
    → (xs ≡ ys) × (us ≡ vs)
append_cancel [] [] n e = (refl, e)
append_cancel [] (y ∷ ys) n e = absurd (omega (arith, n))
append_cancel (x ∷ xs) [] n e = absurd (omega (arith, n))
append_cancel (x ∷ xs) (y ∷ ys) {us} {vs} n e =
    let m : length xs ≡ length ys = omega (arith, n) in
    let t : xs ++ us ≡ ys ++ vs = cc in let (p, q) = append_cancel xs ys m t in (cc, q)

pub mapped-some :
    {A B : Type 0} (f : A → B) (o : Option A) {b : B}
    → mapped f o ≡ some b
    → (a : A) × (o ≡ some a) × (b ≡ f a)
mapped-some f none h = absurd cc
mapped-some f (some a) h = (a, refl, cc)

module _ (lib : Library)
    (digest_length : (b : List ℕ) → length (lib.encode (lib.sha256_hex b)) ≡ 64)
    (encode-injective : (s t : String) → lib.encode s ≡ lib.encode t → s ≡ t) where
  IsDigest : String → Type 0
  IsDigest s = (b : List ℕ) × (s ≡ lib.sha256_hex b)

  -- One digest of two rows: of one previous hash and one canonical text, or of a collision.
  one_digest :
      (p q : String) (a b : List ℕ)
      → IsDigest p
      → IsDigest q
      → digest_of lib p a ≡ digest_of lib q b
      → ((p ≡ q) × (a ≡ b)) ⊎ Collision lib
  unfolding IsDigest
  one_digest p q a b (u, d) (v, e) h =
      elim (List-discrete ℕ_discrete (lib.encode p ++ a) (lib.encode q ++ b)) [
        | yes same ↦
            let n : length (lib.encode p) ≡ length (lib.encode q) =
              ap (λ s. length (lib.encode s)) d
              ∙ digest_length u
              ∙ sym (digest_length v)
              ∙ sym (ap (λ s. length (lib.encode s)) e) in
            let (x, y) = append_cancel (lib.encode p) (lib.encode q) n same in
            inl (encode-injective p q x, y)
        | no differ ↦ inr (lib.encode p ++ a, lib.encode q ++ b, differ, h)
      ]

  hash_parts :
      (row : Row) (prev self : String)
      → compute_chain_pair lib row prev ≡ some self
      → (j : List ℕ) × (hashed_text lib row prev ≡ some j) × (self ≡ digest_of lib prev j)
  unfolding compute_chain_pair compute_self_hash
  hash_parts row prev self h = mapped-some (digest_of lib prev) (hashed_text lib row prev) h

  module _ (table : ChainedTable) where
    advanced-IsDigest :
        (c : Cursor) (row : Row)
        → Continues lib table c row
        → IsDigest (advanced lib table c row).previous
    unfolding IsDigest advanced
    advanced-IsDigest c row h =
        let (j, e, p) = hash_parts row c.previous (column lib "self_hash" row) h.hashed in
        (lib.encode c.previous ++ j, p)

    chains_agree :
        (c d : Cursor) (rs ss : List Row)
        → IsDigest c.previous
        → IsDigest d.previous
        → IsChain lib table c rs
        → IsChain lib table d ss
        → length rs ≡ length ss
        → (behind lib table c rs).previous ≡ (behind lib table d ss).previous
        → ((c.previous ≡ d.previous) × SameRows lib table c rs d ss) ⊎ Collision lib
    chains_agree c d [] [] p q g h n e = inl (e, tt)
    chains_agree c d [] (s ∷ ss) p q g h n e = absurd (omega (arith, n))
    chains_agree c d (r ∷ rs) [] p q g h n e = absurd (omega (arith, n))
    chains_agree c d (r ∷ rs) (s ∷ ss) p q g h n e =
        elim (chains_agree (advanced lib table c r) (advanced lib table d s) rs ss
          (advanced-IsDigest c r g.0) (advanced-IsDigest d s h.0) g.1 h.1 (omega (arith, n)) e) [
            | inr collision ↦ inr collision
            | inl (selves, rest) ↦
                let (i, ri, di) =
                  hash_parts r c.previous (column lib "self_hash" r) (Continues.hashed g.0) in
                let (j, rj, dj) =
                  hash_parts s d.previous (column lib "self_hash" s) (Continues.hashed h.0) in
                let same : column lib "self_hash" r ≡ column lib "self_hash" s =
                  unfold advanced in selves in
                elim (one_digest c.previous d.previous i j p q (sym di ∙ same ∙ dj)) [
                  | inr collision ↦ inr collision
                  | inl (a, b) ↦ inl (a, (a, ri ∙ ap some b ∙ sym rj, rest))
                ]
          ]

    -- Two valid tables with the same number of rows and the same head hash have, row for row, the
    -- same previous hash and the same canonical text under the hash; or else SHA-256 has a collision.
    -- The hex digest is taken to be 64 bytes and the encoding of texts to be injective.
    pub verify_rows-tamper_evident :
        (rows rows' : List Row) (r r' : VerificationResult)
        → verify_rows lib table rows ≡ some r
        → verify_rows lib table rows' ≡ some r'
        → valid r ≡ true
        → valid r' ≡ true
        → length rows ≡ length rows'
        → r.head_hash ≡ r'.head_hash
        → SameRows lib table (start lib table) rows (start lib table) rows' ⊎ Collision lib
    verify_rows-tamper_evident [] [] r r' h h' v v' n e = inl tt
    verify_rows-tamper_evident [] (s ∷ ss) r r' h h' v v' n e = absurd (omega (arith, n))
    verify_rows-tamper_evident (s ∷ ss) [] r r' h h' v v' n e = absurd (omega (arith, n))
    verify_rows-tamper_evident (s ∷ ss) (t ∷ ts) r r' h h' v v' n e =
        let c = (verify_rows-valid_iff lib table (s ∷ ss)).0 (r, h, v) in
        let d = (verify_rows-valid_iff lib table (t ∷ ts)).0 (r', h', v') in
        let p = head_of_valid lib table s ss h c in
        let q = head_of_valid lib table t ts h' d in
        let same : (behind lib table (start lib table) (s ∷ ss)).previous
            ≡ (behind lib table (start lib table) (t ∷ ts)).previous =
          cc in
        let g : IsDigest (start lib table).previous =
          unfold IsDigest start genesis_prev_hash in (lib.encode "GENESIS", refl) in
        elim (chains_agree (start lib table) (start lib table) (s ∷ ss) (t ∷ ts) g g c d n same) [
          | inl agree ↦ inl agree.1
          | inr collision ↦ inr collision
        ]
