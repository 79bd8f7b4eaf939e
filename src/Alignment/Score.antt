-- ===== src/Alignment/Score.antt =====
-- src/alignment.rs, `compute_alignment_score`: what the score and the signed fields depend on.
use researcher_agent_kube_en.Base.{
  ℕ, zero, suc, ◌∙◌, ◌||◌, if◌then◌else◌, ◌≡◌, refl, ap, List, [], ◌∷◌, map, Text, length, arith,
  take, ◌*◌,
}
use Prim.Native.Nat.{min}
use native.Mathlib.Nat.{min_comm}
use researcher_agent_kube_en.Platform.{Digest, Values}
use researcher_agent_kube_en.Platform.Float.{Float, sum}
use researcher_agent_kube_en.State.{AgentState}
use researcher_agent_kube_en.Alignment.Embedding.{
  products, cosine_similarity, chunks, text_to_embedding,
}
use researcher_agent_kube_en.Alignment.{
  GroundVector, strip_structural_metadata, compute_alignment_score, combined_text,
}

module _ (fl : Float) (d : Digest) (vs : Values) where
  -- The pod, the namespace, the graph of tasks, the epoch, the time, the source addresses and the
  -- signature of a state have no bearing on what the gate signs and how it scores.
  pub gate_sees_semantics_only :
      (s t : AgentState vs.Value) (objective : Text) (gvs : List (GroundVector fl.F64))
      → s.semantic.sanitized_summary ≡ t.semantic.sanitized_summary
      → s.semantic.key_findings ≡ t.semantic.key_findings
      → s.semantic.scratchpad_tokens ≡ t.semantic.scratchpad_tokens
      → (strip_structural_metadata vs s ≡ strip_structural_metadata vs t)
        × (compute_alignment_score fl d s.semantic objective gvs
            ≡ compute_alignment_score fl d t.semantic objective gvs)
  unfolding strip_structural_metadata compute_alignment_score combined_text
  gate_sees_semantics_only s t objective gvs e f g = (cc, cc)

module _ (fl : Float) (comm : (x y : fl.F64) → fl.mul x y ≡ fl.mul y x) where
  products_comm : (xs ys : List fl.F64) → products fl xs ys ≡ products fl ys xs
  unfolding products
  products_comm [] [] = refl
  products_comm [] (y ∷ ys) = refl
  products_comm (x ∷ xs) [] = refl
  products_comm (x ∷ xs) (y ∷ ys) = cc (comm x y, products_comm xs ys)

  norms_comm :
      (x y dot dot' : fl.F64)
      → dot ≡ dot'
      → (if fl.eq x fl.zero || fl.eq y fl.zero then fl.zero else fl.div dot (fl.mul x y))
        ≡ (if fl.eq y fl.zero || fl.eq x fl.zero then fl.zero else fl.div dot' (fl.mul y x))
  norms_comm x y dot dot' e = ground (arith, comm x y)

  -- The similarity is symmetric, for vectors of any two lengths, if the product of numbers is.
  pub cosine_similarity_comm :
      (a b : List fl.F64) → cosine_similarity fl a b ≡ cosine_similarity fl b a
  unfolding cosine_similarity
  cosine_similarity_comm a b = rw (min_comm (length a) (length b)) (
      norms_comm _ _ _ _ (
        ap (sum fl) (
          products_comm (take (min (length b) (length a)) a) (take (min (length b) (length a)) b))))

module _ (fl : Float) (d : Digest) where
  length-chunks : (n : ℕ) (bs : List ℕ) → length bs ≡ 4 * n → length (chunks bs) ≡ n
  unfolding chunks
  length-chunks n [] e = omega arith
  length-chunks n (a ∷ []) e = absurd (omega arith)
  length-chunks n (a ∷ b ∷ []) e = absurd (omega arith)
  length-chunks n (a ∷ b ∷ c ∷ []) e = absurd (omega arith)
  length-chunks zero (a ∷ b ∷ c ∷ x ∷ bs) e = absurd (omega arith)
  length-chunks (suc n) (a ∷ b ∷ c ∷ x ∷ bs) e = ap suc (length-chunks n bs (omega arith))

  length-map {ℓ κ} :
      {A : Type ℓ} {B : Type κ} (f : A → B) (xs : List A) → length (map f xs) ≡ length xs
  length-map f [] = refl
  length-map f (x ∷ xs) = ap suc (length-map f xs)

  -- The embedding of a text has eight numbers, as its digest has 32 bytes.
  pub length-text_to_embedding :
      (s : Text) → length (d.sha256 s) ≡ 32 → length (text_to_embedding fl d s) ≡ 8
  unfolding text_to_embedding
  length-text_to_embedding s e = length-map _ (chunks (d.sha256 s)) ∙ length-chunks 8 _ e
