-- ===== src/Alignment/Embedding.antt =====
-- src/alignment.rs, `text_to_embedding` and `cosine_similarity`: a text's digest as a vector of eight
-- numbers between 0 and 1, and the angle between two vectors.
pub mod Words
use Prim.Native.Nat.{bit_or}
use researcher_agent_kube_en.Base.{
  ℕ, ◌≡◌, ◌*◌, ◌%◌, ◌^◌, ◌-◌, Bool, ◌||◌, List, [], ◌∷◌, map, Text, if◌then◌else◌, length, take,
  ltb,
}
use Prim.Native.Nat.{min}
use mathlib.Core.List.{foldl}
use researcher_agent_kube_en.Platform.{Digest}
use researcher_agent_kube_en.Platform.Float.{Float, sum}

abbrev pub u32_mod : ℕ
u32_mod = 2 ^ 32

-- `chunks(4)`: the last chunk may be shorter.
unfoldable pub chunks : List ℕ → List (List ℕ)
chunks [] = []
chunks (a ∷ []) = (a ∷ []) ∷ []
chunks (a ∷ b ∷ []) = (a ∷ b ∷ []) ∷ []
chunks (a ∷ b ∷ c ∷ []) = (a ∷ b ∷ c ∷ []) ∷ []
chunks (a ∷ b ∷ c ∷ d ∷ rest) = (a ∷ b ∷ c ∷ d ∷ []) ∷ chunks rest

-- `c.iter().fold(0u32, |acc, &b| (acc << 8) | b as u32)`
unfoldable pub chunk_word : List ℕ → ℕ
chunk_word = foldl (λ acc b. bit_or (acc * 256 % u32_mod) b) 0

module _ (fl : Float) where
  open fl use {F64, mul, div, sqrt, eq, of_u32}

  unfoldable pub text_to_embedding : Digest → Text → List F64
  unfolding chunks chunk_word
  text_to_embedding d text =
      map (λ c. div (of_u32 (chunk_word c)) (of_u32 (u32_mod - 1))) (chunks (d.sha256 text))

  -- The products of two vectors, place by place.
  unfoldable pub products : List F64 → List F64 → List F64
  products [] ys = []
  products (x ∷ xs) [] = []
  products (x ∷ xs) (y ∷ ys) = mul x y ∷ products xs ys

  unfoldable pub cosine_similarity : List F64 → List F64 → F64
  unfolding products sum
  cosine_similarity a b =
      let min_len = min (length a) (length b) in
      let a' = take min_len a in
      let b' = take min_len b in
      let dot = sum fl (products a' b') in
      let norm_a = sqrt (sum fl (products a' a')) in
      let norm_b = sqrt (sum fl (products b' b')) in
      if eq norm_a fl.zero || eq norm_b fl.zero then fl.zero else div dot (mul norm_a norm_b)
