-- ===== src/Anomaly/Embedding.antt =====
-- ai_guardrail/aerorisk/agents/agent1_anomaly/embedding.py. The digest of `hashlib.md5` is an
-- argument: a function from texts to lists of bytes.
pub mod Range
use aero_risk_ai.Base.{
  ℕ, zero, suc, ◌+◌, ◌-◌, ◌*◌, ◌%◌, ◌/◌, ◌≤◌, ◌<◌, String, ◌≡◌, ◌≢◌, Bool-cases, inl, inr, refl, ap,
  ◌∙◌, Bool, true, false, List, [], ◌∷◌, ◌++◌, arith, ltb, leb, ◌==◌, str_eq, if◌then◌else◌, ◌||◌,
}
use aero_risk_ai.Base.Int.{ℤ, pos, negsuc, ltb_ℤ}
use aero_risk_ai.Base.Lists.{
  length, take, replicate, All, length-append, length-take, length-replicate, All-append, All-take,
  All-replicate,
}
use aero_risk_ai.Base.Outcome.{Outcome, ok, err, value_error, ◌>>=◌}
use aero_risk_ai.Base.Float.{Float, FloatLaws, InUnit, min_f, true_div, lit-InUnit, min_f-InUnit}

-- `struct.unpack("<I", bytes)[0]`: four bytes, the lowest first.
pub unpack : ℕ → ℕ → ℕ → ℕ → ℕ
unpack a b c d = a + 256 * b + 65536 * c + 16_777_216 * d

module _ {F : Type 0} ⦃fl : Float F⦄ where
  -- `for i in range(0, 4 * n, 4)` over the digest; a group of fewer than four bytes does not unpack.
  pub hash_features : ℕ → List ℕ → Outcome (List F)
  hash_features zero digest = ok []
  hash_features (suc n) [] = ok []
  hash_features (suc n) (a ∷ b ∷ c ∷ d ∷ rest) = do
    fs ← hash_features n rest
    ok (fl.div (fl.of_int (pos (unpack a b c d % 1000))) (fl.lit 1000 1) ∷ fs)
  hash_features (suc n) _ = err (value_error "unpack requires a buffer of 4 bytes")

  pub normalized : ℤ → F
  normalized (pos n) =
      if ltb 0 n
      then min_f (fl.lit 1 1) (fl.div (fl.of_int (pos (n % 1_000_000))) (fl.lit 1_000_000 1))
      else fl.lit 0 1
  normalized (negsuc n) = fl.lit 0 1

  pub side_feature : String → F
  side_feature side = if str_eq side "BUY" then fl.lit 1 1 else fl.lit 0 1

  -- `int((timestamp % 86400) / 3600) / 24.0`
  unfoldable pub hour_feature : F → Outcome F
  hour_feature timestamp = do
    hour ← fl.trunc (fl.div (fl.mod_f timestamp (fl.of_int (pos 86400))) (fl.of_int (pos 3600)))
    ok (fl.div (fl.of_int hour) (fl.lit 24 1))

  -- `while len(features) < dim: features.append(0.0)`, then `features[:dim]`.
  pub pad : ℕ → List F → List F
  pad dim features = take dim (features ++ replicate (dim - length features) (fl.lit 0 1))

  pub generate_order_embedding :
      (md5 : String → List ℕ) (dim : ℕ) (account symbol side : String) (price quantity : ℤ)
      (timestamp : F)
      → Outcome (List F)
  generate_order_embedding md5 dim account symbol side price quantity timestamp = do
    accounts ← hash_features 4 (md5 account)
    symbols ← hash_features 2 (md5 symbol)
    hour ← hour_feature timestamp
    ok (
        pad dim (
          accounts
          ++ (symbols ++ (side_feature side ∷ normalized price ∷ normalized quantity ∷ hour ∷ []))))

  pub dot_from : F → List F → List F → F
  dot_from acc [] ys = acc
  dot_from acc (x ∷ xs) [] = acc
  dot_from acc (x ∷ xs) (y ∷ ys) = dot_from (fl.add acc (fl.mul x y)) xs ys

  -- `sum` starts from the integer 0.
  pub dot : List F → List F → F
  dot xs ys = dot_from (fl.of_int (pos 0)) xs ys

  pub cosine_similarity : List F → List F → Outcome F
  cosine_similarity xs ys =
      if length xs == length ys
      then (let norm1 = fl.sqrt (dot xs xs) in
          let norm2 = fl.sqrt (dot ys ys) in
          let zero_f = fl.of_int (pos 0) in
          if fl.eq norm1 zero_f || fl.eq norm2 zero_f
          then ok (fl.lit 0 1)
          else true_div (dot xs ys) (fl.mul norm1 norm2))
      else err (value_error "Embeddings must have same dimension")
